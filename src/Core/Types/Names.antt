-- ===== src/Core/Types/Names.antt =====
-- The wire names of packages/core/src/types.rs: `Display` and `FromStr`.
use symantic_weft.Prelude.{
  ◌≡◌, refl, sym, subst, Result, ok, err, String, ◌==◌, eq_iff, if◌then◌else◌, arith, ◌↔◌,
}
use symantic_weft.Core.Types.{
  UnitType, RelType, Visibility, assertion, question, inference, challenge, constraint, supports,
  rebuts, derives_from, questions, refines, notifies, public, network, limited,
}

-- The error of `from_str` holds the text that was not recognised.
pub data Unrecognised : Type 0 where
  unrecognised : String → Unrecognised

unfoldable pub display_unit_type : UnitType → String
display_unit_type assertion = "assertion"
display_unit_type question = "question"
display_unit_type inference = "inference"
display_unit_type challenge = "challenge"
display_unit_type constraint = "constraint"

unfoldable pub unit_type_from_str : String → Result UnitType Unrecognised
unit_type_from_str s =
    if s == "assertion"
    then ok assertion
    else if s == "question"
    then ok question
    else if s == "inference"
    then ok inference
    else if s == "challenge"
    then ok challenge
    else if s == "constraint"
    then ok constraint
    else err (unrecognised s)

unit_type_from_str_sound :
    (s : String) (t : UnitType) → unit_type_from_str s ≡ ok t → s ≡ display_unit_type t
unfolding unit_type_from_str display_unit_type
unit_type_from_str_sound s t h = ground (
  arith,
  eq_iff s "assertion",
  eq_iff s "question",
  eq_iff s "inference",
  eq_iff s "challenge",
  eq_iff s "constraint",
)

unit_type_from_str-display : (t : UnitType) → unit_type_from_str (display_unit_type t) ≡ ok t
unfolding unit_type_from_str display_unit_type
unit_type_from_str-display assertion = refl
unit_type_from_str-display question = refl
unit_type_from_str-display inference = refl
unit_type_from_str-display challenge = refl
unit_type_from_str-display constraint = refl

-- A text parses to a value of `UnitType` exactly when it is the wire name of that value.
pub unit_type_from_str_iff :
    (s : String) (t : UnitType) → (unit_type_from_str s ≡ ok t) ↔ (s ≡ display_unit_type t)
unit_type_from_str_iff s t = (
  unit_type_from_str_sound s t,
  λ e. subst (λ u. unit_type_from_str u ≡ ok t) (sym e) (unit_type_from_str-display t),
)

unfoldable pub display_rel_type : RelType → String
display_rel_type supports = "supports"
display_rel_type rebuts = "rebuts"
display_rel_type derives_from = "derives-from"
display_rel_type questions = "questions"
display_rel_type refines = "refines"
display_rel_type notifies = "notifies"

unfoldable pub rel_type_from_str : String → Result RelType Unrecognised
rel_type_from_str s =
    if s == "supports"
    then ok supports
    else if s == "rebuts"
    then ok rebuts
    else if s == "derives-from"
    then ok derives_from
    else if s == "questions"
    then ok questions
    else if s == "refines"
    then ok refines
    else if s == "notifies"
    then ok notifies
    else err (unrecognised s)

rel_type_from_str_sound :
    (s : String) (t : RelType) → rel_type_from_str s ≡ ok t → s ≡ display_rel_type t
unfolding rel_type_from_str display_rel_type
rel_type_from_str_sound s t h = ground (
  arith,
  eq_iff s "supports",
  eq_iff s "rebuts",
  eq_iff s "derives-from",
  eq_iff s "questions",
  eq_iff s "refines",
  eq_iff s "notifies",
)

rel_type_from_str-display : (t : RelType) → rel_type_from_str (display_rel_type t) ≡ ok t
unfolding rel_type_from_str display_rel_type
rel_type_from_str-display supports = refl
rel_type_from_str-display rebuts = refl
rel_type_from_str-display derives_from = refl
rel_type_from_str-display questions = refl
rel_type_from_str-display refines = refl
rel_type_from_str-display notifies = refl

-- A text parses to a value of `RelType` exactly when it is the wire name of that value.
pub rel_type_from_str_iff :
    (s : String) (t : RelType) → (rel_type_from_str s ≡ ok t) ↔ (s ≡ display_rel_type t)
rel_type_from_str_iff s t = (
  rel_type_from_str_sound s t,
  λ e. subst (λ u. rel_type_from_str u ≡ ok t) (sym e) (rel_type_from_str-display t),
)

unfoldable pub display_visibility : Visibility → String
display_visibility public = "public"
display_visibility network = "network"
display_visibility limited = "limited"

unfoldable pub visibility_from_str : String → Result Visibility Unrecognised
visibility_from_str s =
    if s == "public"
    then ok public
    else if s == "network"
    then ok network
    else if s == "limited"
    then ok limited
    else err (unrecognised s)

visibility_from_str_sound :
    (s : String) (t : Visibility) → visibility_from_str s ≡ ok t → s ≡ display_visibility t
unfolding visibility_from_str display_visibility
visibility_from_str_sound s t h =
    ground (arith, eq_iff s "public", eq_iff s "network", eq_iff s "limited")

visibility_from_str-display : (t : Visibility) → visibility_from_str (display_visibility t) ≡ ok t
unfolding visibility_from_str display_visibility
visibility_from_str-display public = refl
visibility_from_str-display network = refl
visibility_from_str-display limited = refl

-- A text parses to a value of `Visibility` exactly when it is the wire name of that value.
pub visibility_from_str_iff :
    (s : String) (t : Visibility) → (visibility_from_str s ≡ ok t) ↔ (s ≡ display_visibility t)
visibility_from_str_iff s t = (
  visibility_from_str_sound s t,
  λ e. subst (λ u. visibility_from_str u ≡ ok t) (sym e) (visibility_from_str-display t),
)
