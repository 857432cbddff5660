-- ===== src/Core/Types/Equality.antt =====
-- The derived `PartialEq` of `SemanticUnit` and of the types in its fields
-- (packages/core/src/types.rs).
use symantic_weft.Prelude.{
  Bool, true, false, ◌&&◌, Option, none, some, List, [], ◌∷◌, String, ◌==◌, eqb, length,
}
use symantic_weft.Prelude.Map.{Map, lookup}
use symantic_weft.Platform.{Platform}
use symantic_weft.Core.Types.{
  Reference, Source, uri, labeled, Proof, SemanticUnit, unit_type_eq, rel_type_eq, visibility_eq,
}

abbrev pub option_eq : {A : Type 0} → (A → A → Bool) → Option A → Option A → Bool
option_eq eq none none = true
option_eq eq (some a) (some b) = eq a b
option_eq eq none (some b) = false
option_eq eq (some a) none = false

abbrev pub list_eq : {A : Type 0} → (A → A → Bool) → List A → List A → Bool
list_eq eq [] [] = true
list_eq eq (a ∷ l) (b ∷ m) = eq a b && list_eq eq l m
list_eq eq [] (b ∷ m) = false
list_eq eq (a ∷ l) [] = false

-- `HashMap`: as many keys, and every entry of the first under its key in the second
abbrev pub entries_in : {V : Type 0} → (V → V → Bool) → Map V → Map V → Bool
entries_in eq [] n = true
entries_in eq ((k, v) ∷ m) n =
    elim (lookup k n) [ none ↦ false | some w ↦ eq v w ] && entries_in eq m n

abbrev pub map_eq : {V : Type 0} → (V → V → Bool) → Map V → Map V → Bool
map_eq eq m n = eqb (length m) (length n) && entries_in eq m n

abbrev pub text_eq : String → String → Bool
text_eq a b = a == b

abbrev pub reference_eq : Reference → Reference → Bool
reference_eq a b = (a.id == b.id) && rel_type_eq a.rel b.rel

abbrev pub source_eq : Source → Source → Bool
source_eq (uri a) (uri b) = a == b
source_eq (labeled l u) (labeled k v) = (l == k) && option_eq text_eq u v
source_eq (uri a) (labeled k v) = false
source_eq (labeled l u) (uri b) = false

abbrev pub proof_eq : Proof → Proof → Bool
proof_eq a b = (a.method == b.method) && ((a.created == b.created) && (a.value == b.value))

module _ (P : Platform) where
  unfoldable pub unit_eq : SemanticUnit P → SemanticUnit P → Bool
  unit_eq a b =
      (a.id == b.id)
      && (unit_type_eq a.unit_type b.unit_type
          && ((a.content == b.content)
              && ((a.created_at == b.created_at)
                  && ((a.author == b.author)
                      && (option_eq P.f64.eq a.confidence b.confidence
                          && (option_eq (list_eq text_eq) a.assumptions b.assumptions
                              && (option_eq source_eq a.source b.source
                                  && (option_eq (list_eq reference_eq) a.references b.references
                                      && (option_eq visibility_eq a.visibility b.visibility
                                          && (option_eq (list_eq text_eq) a.audience b.audience
                                              && (option_eq proof_eq a.proof b.proof
                                                  && map_eq P.value_eq a.extensions
                                                      b.extensions)))))))))))
