-- ===== src/Core/Graph/Subgraph.antt =====
-- `subgraph` of packages/core/src/graph.rs.
use symantic_weft.Prelude.{
  some, List, [], ◌∷◌, String, ◌≡◌, ◌≢◌, ◌↔◌, refl, sym, ◌∙◌, subst, ◌⊎◌, inl, inr, Among,
  Bool-cases, Option-cases, arith, if◌then◌else◌, ◌==◌, eq_iff, eq_refl,
}
use symantic_weft.Prelude.Map.{lookup, lookup-insert}
use symantic_weft.Platform.{Platform}
use symantic_weft.Core.Types.{SemanticUnit}
use symantic_weft.Core.Graph.{
  Graph, Direction, outward, inward, new, add, add_all, from_units, get_each, insert_id, insert_ids,
  ancestors, descendants, subgraph,
}
use symantic_weft.Core.Graph.Visit.{contains_iff, ids, ids-Among, Among-of_ids}
use symantic_weft.Core.Graph.Bfs.{IsIndexed, id-lookup, get_each-Among, from_units-IsIndexed}
use symantic_weft.Core.Graph.Bfs.Loop.{Reach, here, bfs_correct}

module _ {P : Platform} (g : Graph P) where
  -- The graph `h` holds only units of `g`.
  abbrev Within : Graph P → Type 0
  Within h =
      (x : String) (u : SemanticUnit P) → lookup x h.units ≡ some u → lookup x g.units ≡ some u

  abbrev IsFrom : List (SemanticUnit P) → Type 0
  IsFrom us = (v : SemanticUnit P) → Among v us → lookup v.id g.units ≡ some v

  add-lookup :
      (h : Graph P) (v : SemanticUnit P) (x : String)
      → lookup x (add P h v).units ≡ (if v.id == x then some v else lookup x h.units)
  unfolding add
  add-lookup h v x = lookup-insert v.id x v h.units

  add-Within :
      (h : Graph P) (v : SemanticUnit P)
      → lookup v.id g.units ≡ some v
      → Within h
      → Within (add P h v)
  add-Within h v e w x u f = elim (Bool-cases (v.id == x)) [
    | inl k ↦
        subst (λ y. lookup y g.units ≡ some u) ((eq_iff v.id x).0 k)
          (e ∙ (sym (add-lookup h v x ∙ rw k) ∙ f))
    | inr k ↦ w x u (sym (add-lookup h v x ∙ rw k) ∙ f)
  ]

  add-kept :
      (h : Graph P) (v : SemanticUnit P) (x : String) (u : SemanticUnit P)
      → lookup v.id g.units ≡ some v
      → Within h
      → lookup x h.units ≡ some u
      → lookup x (add P h v).units ≡ some u
  add-kept h v x u e w f = elim (Bool-cases (v.id == x)) [
    | inl k ↦
        add-lookup h v x
        ∙ (rw k
            (sym e ∙ subst (λ y. lookup y g.units ≡ some u) (sym ((eq_iff v.id x).0 k)) (w x u f)))
    | inr k ↦ add-lookup h v x ∙ rw k f
  ]

  add_all-origin :
      (h : Graph P) (us : List (SemanticUnit P)) (x : String) (u : SemanticUnit P)
      → IsFrom us
      → Within h
      → lookup x (add_all P h us).units ≡ some u
      → (lookup x h.units ≡ some u) ⊎ Among u us
  unfolding add_all
  add_all-origin h [] x u all w f = inl f
  add_all-origin h (v ∷ us) x u all w f = ground (
    arith,
    add-lookup h v x,
    add_all-origin (add P h v) us x u (λ y a. all y (inr a)) (add-Within h v (all v (inl refl)) w)
        f,
  )

  add_all-kept :
      (h : Graph P) (us : List (SemanticUnit P)) (x : String) (u : SemanticUnit P)
      → IsFrom us
      → Within h
      → lookup x h.units ≡ some u
      → lookup x (add_all P h us).units ≡ some u
  unfolding add_all
  add_all-kept h [] x u all w f = f
  add_all-kept h (v ∷ us) x u all w f =
      add_all-kept (add P h v) us x u (λ y a. all y (inr a)) (add-Within h v (all v (inl refl)) w)
        (add-kept h v x u (all v (inl refl)) w f)

  add_all-entered :
      (h : Graph P) (us : List (SemanticUnit P)) (u : SemanticUnit P)
      → IsFrom us
      → Within h
      → Among u us
      → lookup u.id (add_all P h us).units ≡ some u
  unfolding add_all
  add_all-entered h [] u all w m = absurd m
  add_all-entered h (v ∷ us) u all w (inl e) =
      add_all-kept (add P h v) us u.id u (λ y a. all y (inr a))
        (add-Within h v (all v (inl refl)) w)
        (subst (λ (y : SemanticUnit P). lookup y.id (add P h v).units ≡ some y) (sym e)
          (add-lookup h v v.id ∙ rw (eq_refl v.id)))
  add_all-entered h (v ∷ us) u all w (inr m) =
      add_all-entered (add P h v) us u (λ y a. all y (inr a)) (add-Within h v (all v (inl refl)) w)
        m

  Among-get_each :
      (u : SemanticUnit P) (i : String) (is : List String)
      → Among i is
      → lookup i g.units ≡ some u
      → Among u (get_each P g is)
  unfolding get_each
  Among-get_each u i [] m e = absurd m
  Among-get_each u i (j ∷ is) (inl f) e =
      rw (subst (λ y. lookup y g.units ≡ some u) f e, get_each) (inl refl)
  Among-get_each u i (j ∷ is) (inr m) e = elim (Option-cases (lookup j g.units)) [
    | inl k ↦ rw (k, get_each) (Among-get_each u i is m e)
    | inr (v, k) ↦ rw (k, get_each) (inr (Among-get_each u i is m e))
  ]

  insert_ids-kept :
      (x : String) (seen : List String) (us : List (SemanticUnit P))
      → Among x seen
      → Among x (insert_ids P seen us)
  unfolding insert_ids
  insert_ids-kept x seen [] m = m
  insert_ids-kept x seen (u ∷ us) m = insert_ids-kept x (insert_id P seen u) us (ground arith)

  insert_ids-entered :
      (x : String) (seen : List String) (us : List (SemanticUnit P))
      → Among x (ids us)
      → Among x (insert_ids P seen us)
  unfolding insert_ids
  insert_ids-entered x seen [] m = absurd m
  insert_ids-entered x seen (u ∷ us) (inl e) =
      insert_ids-kept x (insert_id P seen u) us (ground (arith, contains_iff seen u.id))
  insert_ids-entered x seen (u ∷ us) (inr m) = insert_ids-entered x (insert_id P seen u) us m

  insert_ids-origin :
      (x : String) (seen : List String) (us : List (SemanticUnit P))
      → Among x (insert_ids P seen us)
      → Among x seen ⊎ Among x (ids us)
  unfolding insert_ids
  insert_ids-origin x seen [] m = inl m
  insert_ids-origin x seen (u ∷ us) m =
      ground (arith, insert_ids-origin x (insert_id P seen u) us m)

  module _ (indexed : IsIndexed g) (id : String) (seen : List String) where
    sub : Graph P
    sub = from_units P (get_each P g seen)

    IsFrom-get_each : IsFrom (get_each P g seen)
    IsFrom-get_each v a =
        let (i, _, e) = get_each-Among g v seen a in
        subst (λ y. lookup y g.units ≡ some v) (sym (id-lookup g i v indexed e)) e

    sub_sound :
        (x : String) (u : SemanticUnit P)
        → lookup x sub.units ≡ some u
        → (lookup x g.units ≡ some u) × Among x seen
    unfolding sub from_units lookup
    sub_sound x u e =
        let key : u.id ≡ x = id-lookup sub x u (from_units-IsIndexed (get_each P g seen)) e in
        elim (add_all-origin (new P) (get_each P g seen) x u IsFrom-get_each (λ y v f. cc) e) [
          | inl f ↦ cc
          | inr a ↦
              let (i, m, f) = get_each-Among g u seen a in
              let same : i ≡ x = sym (id-lookup g i u indexed f) ∙ key in
              (subst (λ y. lookup y g.units ≡ some u) same f, subst (λ y. Among y seen) same m)
        ]

    sub_complete :
        (x : String) (u : SemanticUnit P)
        → lookup x g.units ≡ some u
        → Among x seen
        → lookup x sub.units ≡ some u
    unfolding sub from_units lookup
    sub_complete x u e m =
        subst (λ y. lookup y sub.units ≡ some u) (id-lookup g x u indexed e)
          (add_all-entered (new P) (get_each P g seen) u IsFrom-get_each (λ y v f. cc)
            (Among-get_each u x seen m e))

  -- The ids that `subgraph` collects from one direction are those of the units of the graph that
  -- are reachable in it.
  seen_of :
      (id : String) (d : Direction) (r : List (SemanticUnit P))
      → ((u : SemanticUnit P)
          → Among u r ↔ ((lookup u.id g.units ≡ some u) × (u.id ≢ id) × Reach P g d id u.id))
      → (x : String) → Among x (ids r)
      → Reach P g d id x
  seen_of id d r char x m =
      let (u, a, e) = Among-of_ids x r m in subst (Reach P g d id) e ((char u).0 a).2

  reached_seen :
      (id : String) (d : Direction) (r : List (SemanticUnit P))
      → IsIndexed g
      → ((u : SemanticUnit P)
          → Among u r ↔ ((lookup u.id g.units ≡ some u) × (u.id ≢ id) × Reach P g d id u.id))
      → (x : String) (u : SemanticUnit P) → lookup x g.units ≡ some u
      → Reach P g d id x
      → (x ≡ id) ⊎ Among x (ids r)
  reached_seen id d r indexed char x u e w = elim (Bool-cases (x == id)) [
    | inl k ↦ inl ((eq_iff x id).0 k)
    | inr k ↦
        let key : u.id ≡ x = id-lookup g x u indexed e in
        inr (
          subst (λ y. Among y (ids r)) key
            (ids-Among u r (
              (char u).1 (
                subst (λ y. lookup y g.units ≡ some u) (sym key) e,
                λ f. ground (arith, eq_iff x id),
                subst (Reach P g d id) (sym key) w,
              ))))
  ]

only : {x y : String} → Among x (y ∷ []) → x ≡ y
only (inl e) = e
only (inr m) = absurd m

-- On a graph whose units stand under their own ids, `subgraph` returns a graph that holds exactly
-- the units, under their ids, that edges followed onwards, or edges followed backwards, lead to
-- from `id`, the unit `id` itself among them.
pub subgraph_correct :
    (P : Platform) (g : Graph P) (id : String)
    → IsIndexed g
    → (s : Graph P) × (subgraph P g id ≡ some s)
      × ((x : String) (u : SemanticUnit P)
          → (lookup x s.units ≡ some u)
            ↔ ((lookup x g.units ≡ some u) × (Reach P g outward id x ⊎ Reach P g inward id x)))
unfolding subgraph ancestors descendants sub
subgraph_correct P g id indexed =
    let (up, e, char_up) = bfs_correct P g id outward indexed in
    let (down, f, char_down) = bfs_correct P g id inward indexed in
    let seen_up = insert_ids P (id ∷ []) up in
    let seen = insert_ids P seen_up down in
    (
      sub g indexed id seen,
      rw (e, f, subgraph) refl,
      λ x u. (
        λ h.
            let (a, m) = sub_sound g indexed id seen x u h in
            (
              a,
              elim (insert_ids-origin g x seen_up down m) [
                | inr k ↦ inr (seen_of g id inward down char_down x k)
                | inl k ↦ elim (insert_ids-origin g x (id ∷ []) up k) [
                  | inr n ↦ inl (seen_of g id outward up char_up x n)
                  | inl n ↦ inl (subst (Reach P g outward id) (sym (only n)) here)
                ]
              ],
            ),
        λ h. sub_complete g indexed id seen x u h.0 (elim h.1 [
          | inl w ↦ elim (reached_seen g id outward up indexed char_up x u h.0 w) [
            | inl n ↦ insert_ids-kept g x seen_up down (insert_ids-kept g x (id ∷ []) up (inl n))
            | inr n ↦ insert_ids-kept g x seen_up down (insert_ids-entered g x (id ∷ []) up n)
          ]
          | inr w ↦ elim (reached_seen g id inward down indexed char_down x u h.0 w) [
            | inl n ↦ insert_ids-kept g x seen_up down (insert_ids-kept g x (id ∷ []) up (inl n))
            | inr n ↦ insert_ids-entered g x seen_up down n
          ]
        ]),
      ),
    )
