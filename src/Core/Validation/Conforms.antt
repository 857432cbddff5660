-- ===== src/Core/Validation/Conforms.antt =====
-- What `validate_unit` of packages/core/src/validation.rs accepts, field by field. What counts as the id
-- of a unit is an argument: the `uuid` parser decides in the program, a pattern in the specification.
use symantic_weft.Prelude.{
  ℕ, ◌+◌, true, not, Option, none, some, List, [], ◌∷◌, String, ◌≡◌, ◌≢◌, ◌↔◌, refl, ok,
  >>-eq-ok_iff, require-eq-ok_iff, All, starts_with_char, eq_iff, arith, ◌==◌,
}
use symantic_weft.Prelude.Map.{Map}
use symantic_weft.Platform.{Platform}
use symantic_weft.Core.Types.{SemanticUnit, Reference, Proof, Visibility, limited}
use symantic_weft.Core.Validation.{
  ValidationError, is_uuid_v7, in_unit_interval, IsExtensionName, is_extension_name_iff,
  check_items, check_confidence, check_assumptions, check_reference_ids, check_references,
  check_extensions, check_audience, check_proof, validate_unit, empty_assumption_item,
  empty_audience_item,
}

abbrev pub WhenPresent : {A : Type 0} → (A → Type 0) → Option A → Type 0
WhenPresent p none = Unit
WhenPresent p (some a) = p a

abbrev pub NonEmptyTexts : List String → Type 0
NonEmptyTexts [] = ⊥
NonEmptyTexts (a ∷ rest) = All (λ (s : String). s ≢ "") (a ∷ rest)

-- The audience is there and holds texts for limited units, and is absent for the others.
abbrev pub AudienceFits : Option Visibility → Option (List String) → Type 0
AudienceFits (some limited) none = ⊥
AudienceFits (some limited) (some audience) = NonEmptyTexts audience
AudienceFits _ none = Unit
AudienceFits _ (some audience) = ⊥

abbrev pub NonEmptyReferences : (String → Type 0) → List Reference → Type 0
NonEmptyReferences IsId [] = ⊥
NonEmptyReferences IsId (r ∷ rest) = All (λ (x : Reference). IsId x.id) (r ∷ rest)

module _ (P : Platform) where
  abbrev pub IsUuidV7 : String → Type 0
  IsUuidV7 s = P.uuid_version s ≡ some 7

  abbrev pub IsConfidence : P.f64.Carrier → Type 0
  IsConfidence c = (P.f64.le (P.f64.literal 0 1) c ≡ true) × (P.f64.le c (P.f64.literal 1 1) ≡ true)

  abbrev pub IsProofShape : Proof → Type 0
  IsProofShape p =
      (p.method ≢ "") × (P.is_rfc3339 p.created ≡ true) × (starts_with_char b'z' p.value ≡ true)

  pub record Obeys (IsId : String → Type 0) (u : SemanticUnit P) : Type 0 where
    pub id : IsId u.id
    pub content : u.content ≢ ""
    pub author : u.author ≢ ""
    pub created_at : P.is_rfc3339 u.created_at ≡ true
    pub confidence : WhenPresent IsConfidence u.confidence
    pub assumptions : WhenPresent NonEmptyTexts u.assumptions
    pub references : WhenPresent (NonEmptyReferences IsId) u.references
    pub extensions : All (λ (e : String × P.Value). IsExtensionName e.0) u.extensions
    pub audience : AudienceFits u.visibility u.audience
    pub proof : WhenPresent IsProofShape u.proof

  -- The rules with the id that the program asks for: any text that `uuid` parses as a version 7.
  abbrev pub Conforms : SemanticUnit P → Type 0
  Conforms u = Obeys IsUuidV7 u

not_empty_iff : (s : String) → (not (s == "") ≡ true) ↔ (s ≢ "")
not_empty_iff s = ground (arith, eq_iff s "")

module _ (P : Platform) where
  is_uuid_v7_iff : (s : String) → (is_uuid_v7 P s ≡ true) ↔ IsUuidV7 P s
  unfolding is_uuid_v7
  is_uuid_v7_iff s = ground arith

  check_items_iff :
      (fault : ℕ → ValidationError P) (i : ℕ) (l : List String)
      → (check_items P fault i l ≡ ok tt) ↔ All (λ (s : String). s ≢ "") l
  unfolding check_items
  check_items_iff fault i [] = (λ _. tt, λ _. refl)
  check_items_iff fault i (a ∷ l) = ground (arith, check_items_iff fault (i + 1) l, not_empty_iff a)

  check_confidence_iff :
      (c : Option P.f64.Carrier) → (check_confidence P c ≡ ok tt) ↔ WhenPresent (IsConfidence P) c
  unfolding check_confidence in_unit_interval
  check_confidence_iff none = (λ _. tt, λ _. refl)
  check_confidence_iff (some c) = ground arith

  check_assumptions_iff :
      (l : Option (List String)) → (check_assumptions P l ≡ ok tt) ↔ WhenPresent NonEmptyTexts l
  unfolding check_assumptions
  check_assumptions_iff none = (λ _. tt, λ _. refl)
  check_assumptions_iff (some []) = (λ h. cc, λ h. absurd h)
  check_assumptions_iff (some (a ∷ l)) = check_items_iff empty_assumption_item 0 (a ∷ l)

  check_reference_ids_iff :
      (i : ℕ) (l : List Reference)
      → (check_reference_ids P i l ≡ ok tt) ↔ All (λ (r : Reference). IsUuidV7 P r.id) l
  unfolding check_reference_ids
  check_reference_ids_iff i [] = (λ _. tt, λ _. refl)
  check_reference_ids_iff i (r ∷ l) =
      ground (arith, check_reference_ids_iff (i + 1) l, is_uuid_v7_iff r.id)

  check_references_iff :
      (l : Option (List Reference))
      → (check_references P l ≡ ok tt) ↔ WhenPresent (NonEmptyReferences (IsUuidV7 P)) l
  unfolding check_references
  check_references_iff none = (λ _. tt, λ _. refl)
  check_references_iff (some []) = (λ h. cc, λ h. absurd h)
  check_references_iff (some (r ∷ l)) = check_reference_ids_iff 0 (r ∷ l)

  check_extensions_iff :
      (m : Map P.Value)
      → (check_extensions P m ≡ ok tt) ↔ All (λ (e : String × P.Value). IsExtensionName e.0) m
  unfolding check_extensions
  check_extensions_iff [] = (λ _. tt, λ _. refl)
  check_extensions_iff ((k, v) ∷ m) =
      ground (arith, check_extensions_iff m, is_extension_name_iff k)

  check_audience_iff :
      (v : Option Visibility) (a : Option (List String))
      → (check_audience P v a ≡ ok tt) ↔ AudienceFits v a
  unfolding check_audience
  check_audience_iff (some limited) none = (λ h. cc, λ h. absurd h)
  check_audience_iff (some limited) (some []) = (λ h. cc, λ h. absurd h)
  check_audience_iff (some limited) (some (a ∷ l)) = check_items_iff empty_audience_item 0 (a ∷ l)
  check_audience_iff _ none = (λ _. tt, λ _. refl)
  check_audience_iff _ (some a) = (λ h. cc, λ h. absurd h)

  check_proof_iff : (p : Option Proof) → (check_proof P p ≡ ok tt) ↔ WhenPresent (IsProofShape P) p
  unfolding check_proof
  check_proof_iff none = (λ _. tt, λ _. refl)
  check_proof_iff (some p) = ground (arith, not_empty_iff p.method)

  validate_unit_parts :
      (u : SemanticUnit P)
      → (validate_unit P u ≡ ok tt) ↔ (
          IsUuidV7 P u.id
          × ((u.content ≢ "")
              × ((u.author ≢ "")
                  × ((P.is_rfc3339 u.created_at ≡ true)
                      × (WhenPresent (IsConfidence P) u.confidence
                          × (WhenPresent NonEmptyTexts u.assumptions
                              × (WhenPresent (NonEmptyReferences (IsUuidV7 P)) u.references
                                  × (All
                                        (λ (e : String × P.Value). IsExtensionName e.0)
                                        u.extensions
                                      × (AudienceFits u.visibility u.audience
                                          × WhenPresent (IsProofShape P) u.proof)))))))))
  unfolding validate_unit
  validate_unit_parts u = >>-eq-ok_iff _ _ (require-eq-ok_iff _ _ (is_uuid_v7_iff u.id)) (
      >>-eq-ok_iff _ _ (require-eq-ok_iff _ _ (not_empty_iff u.content)) (
        >>-eq-ok_iff _ _ (require-eq-ok_iff _ _ (not_empty_iff u.author)) (
          >>-eq-ok_iff _ _ (require-eq-ok_iff _ _ (λ h. h, λ h. h)) (
            >>-eq-ok_iff _ _ (check_confidence_iff u.confidence) (
              >>-eq-ok_iff _ _ (check_assumptions_iff u.assumptions) (
                >>-eq-ok_iff _ _ (check_references_iff u.references) (
                  >>-eq-ok_iff _ _ (check_extensions_iff u.extensions) (
                    >>-eq-ok_iff _ _ (check_audience_iff u.visibility u.audience)
                      (check_proof_iff u.proof)))))))))

  -- A unit passes validation exactly when the rules of `Conforms` hold of it: the id and the ids of the
  -- references parse as UUIDs of version 7, in any spelling that the `uuid` crate takes; content and
  -- author are not empty; the time of creation is a date and time; the confidence lies within 0 and 1;
  -- assumptions and references that are present are not empty, nor is any assumption; extension names
  -- fit the grammar; the audience is there exactly for limited units, with no empty entry; and a proof
  -- has a method, a date and a value that starts with `z`.
  pub validate_unit_iff : (u : SemanticUnit P) → (validate_unit P u ≡ ok tt) ↔ Conforms P u
  validate_unit_iff u =
      let parts = validate_unit_parts u in
      (
        λ h.
            let (
              id,
              (
                content,
                (
                  author,
                  (
                    created_at,
                    (confidence, (assumptions, (references, (extensions, (audience, proof))))),
                  ),
                ),
              ),
            ) =
              parts.0 h in
            record {
              id = id;
              content = content;
              author = author;
              created_at = created_at;
              confidence = confidence;
              assumptions = assumptions;
              references = references;
              extensions = extensions;
              audience = audience;
              proof = proof;
            },
        λ c. parts.1 (
          c.id,
          (
            c.content,
            (
              c.author,
              (
                c.created_at,
                (
                  c.confidence,
                  (c.assumptions, (c.references, (c.extensions, (c.audience, c.proof)))),
                ),
              ),
            ),
          ),
        ),
      )
