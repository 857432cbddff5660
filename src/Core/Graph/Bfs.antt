-- ===== src/Core/Graph/Bfs.antt =====
-- The index and the edges of the graph of packages/core/src/graph.rs.
pub mod Loop
use symantic_weft.Prelude.{
  Option, none, some, List, [], ◌∷◌, String, ◌≡◌, ◌≢◌, refl, sym, ap, subst, ◌⊎◌, inl, inr, ◌∙◌,
  Among, All, Option-cases, any, Among-filter, arith,
}
use symantic_weft.Prelude.Map.{Map, lookup, values, insert, lookup-Among, Among-values}
use symantic_weft.Prelude.Map.Distinct.{
  Distinct, lookup_of_Among, Among-of_values, insert-Distinct, insert-All,
}
use symantic_weft.Platform.{Platform}
use symantic_weft.Core.Types.{SemanticUnit, Reference}
use symantic_weft.Core.Graph.{
  Graph, Direction, outward, inward, new, add, add_all, from_units, get_each, reference_ids,
  outgoing, incoming, neighbours,
}

module _ {P : Platform} where
  -- Every unit stands under its own id, once.
  pub record IsIndexed (g : Graph P) : Type 0 where
    pub keyed : All (λ (e : String × SemanticUnit P). e.1.id ≡ e.0) g.units
    pub distinct : Distinct g.units

  pub IsIndexed-new : IsIndexed (new P)
  IsIndexed-new = record { keyed = tt; distinct = tt }

  -- Adding a unit keeps the index.
  pub add-IsIndexed : (g : Graph P) (u : SemanticUnit P) → IsIndexed g → IsIndexed (add P g u)
  unfolding add
  add-IsIndexed g u h = record {
    keyed = insert-All _ u.id u g.units refl h.keyed;
    distinct = insert-Distinct u.id u g.units h.distinct;
  }

  add_all-IsIndexed :
      (g : Graph P) (us : List (SemanticUnit P)) → IsIndexed g → IsIndexed (add_all P g us)
  unfolding add_all
  add_all-IsIndexed g [] h = h
  add_all-IsIndexed g (u ∷ us) h = add_all-IsIndexed (add P g u) us (add-IsIndexed g u h)

  pub from_units-IsIndexed : (us : List (SemanticUnit P)) → IsIndexed (from_units P us)
  unfolding from_units
  from_units-IsIndexed us = add_all-IsIndexed (new P) us IsIndexed-new

  key-eq-id :
      (k : String) (u : SemanticUnit P) (m : Map (SemanticUnit P))
      → All (λ (e : String × SemanticUnit P). e.1.id ≡ e.0) m
      → Among (k, u) m
      → u.id ≡ k
  key-eq-id k u [] h a = absurd a
  key-eq-id k u (e ∷ m) h (inl p) =
      ap (λ (x : String × SemanticUnit P). x.1.id) p
      ∙ h.0
      ∙ ap (λ (x : String × SemanticUnit P). x.0) (sym p)
  key-eq-id k u (e ∷ m) h (inr a) = key-eq-id k u m h.1 a

  pub lookup-id :
      (g : Graph P) (u : SemanticUnit P)
      → IsIndexed g
      → Among u (values g.units)
      → lookup u.id g.units ≡ some u
  lookup-id g u h a =
      let (k, b) = Among-of_values u g.units a in
      subst (λ x. lookup x g.units ≡ some u) (sym (key-eq-id k u g.units h.keyed b))
        (lookup_of_Among k u g.units h.distinct b)

  pub id-lookup :
      (g : Graph P) (k : String) (u : SemanticUnit P)
      → IsIndexed g
      → lookup k g.units ≡ some u
      → u.id ≡ k
  id-lookup g k u h e = key-eq-id k u g.units h.keyed (lookup-Among k u g.units e)

  pub get_each-Among :
      (g : Graph P) (u : SemanticUnit P) (is : List String)
      → Among u (get_each P g is)
      → (i : String) × Among i is × (lookup i g.units ≡ some u)
  unfolding get_each
  get_each-Among g u [] h = absurd h
  get_each-Among g u (i ∷ is) h = elim (Option-cases (lookup i g.units)) [
    | inl e ↦ let (j, a, b) = get_each-Among g u is (rw (e, get_each) at h) in (j, inr a, b)
    | inr (v, e) ↦ elim (seen v (rw (e, get_each) at h)) [
      | inl k ↦ (i, inl refl, e ∙ ap some (sym k))
      | inr k ↦ let (j, a, b) = get_each-Among g u is k in (j, inr a, b)
    ]
  ]
    where
      seen :
          (v : SemanticUnit P) → Among u (v ∷ get_each P g is) → (u ≡ v) ⊎ Among u (get_each P g is)
      seen v k = k

  -- What is referred to stands in the graph under the id of a reference.
  pub outgoing-Among :
      (g : Graph P) (x : String) (u : SemanticUnit P)
      → Among u (outgoing P g x)
      → (i : String) × (lookup i g.units ≡ some u)
  unfolding outgoing
  outgoing-Among g x u h = elim (Option-cases (lookup x g.units)) [
    | inl e ↦ absurd (rw (e, outgoing) at h)
    | inr (v, e) ↦ elim (Option-cases v.references) [
      | inl f ↦ absurd (rw (e, f, outgoing) at h)
      | inr (refs, f) ↦
          let (i, _, b) = get_each-Among g u (reference_ids P refs) (rw (e, f, outgoing) at h) in
          (i, b)
    ]
  ]

  pub neighbours-Among :
      (g : Graph P) (x : String) (d : Direction) (u : SemanticUnit P)
      → Among u (neighbours P g x d)
      → Among u (values g.units)
  unfolding neighbours incoming
  neighbours-Among g x outward u h =
      let (i, e) = outgoing-Among g x u h in Among-values i u g.units (lookup-Among i u g.units e)
  neighbours-Among g x inward u h = (Among-filter u _ (values g.units) h).0
