-- ===== src/Core/Graph/Bfs/Loop.antt =====
-- The loop of `bfs` of packages/core/src/graph.rs and the units within reach.
use mathlib.Core.Option.{some-injective}
use symantic_weft.Prelude.{
  ℕ, zero, suc, ◌<◌, some, List, [], ◌∷◌, String, ◌≡◌, ◌≢◌, ◌↔◌, refl, sym, ap, ◌∙◌, subst, ◌⊎◌,
  inl, inr, Among, length, arith, List-cases,
}
use symantic_weft.Prelude.Map.{lookup, values}
use symantic_weft.Platform.{Platform}
use symantic_weft.Core.Types.{SemanticUnit}
use symantic_weft.Core.Graph.{
  Graph, Direction, Search, neighbours, visit_all, bfs_loop, seeded, bfs,
}
use symantic_weft.Core.Graph.Visit.{
  ids, ids-Among, Among-of_ids, Adds-visit_all, unseen-le, work, work-visit_all,
}
use symantic_weft.Core.Graph.Bfs.{IsIndexed, lookup-id, neighbours-Among}

-- The ids that a chain of edges leads to, the start among them.
pub data Reach (P : Platform) (g : Graph P) (d : Direction) (start : String) : String → Type 0 where
  here : Reach P g d start start
  step :
      {x y : String} (u : SemanticUnit P)
      → Reach P g d start x
      → Among u (neighbours P g x d)
      → u.id ≡ y
      → Reach P g d start y

module _ {P : Platform} (g : Graph P) (d : Direction) (start : String) where
  abbrev Found : SemanticUnit P → Type 0
  Found u = (u.id ≢ start) × Reach P g d start u.id × Among u (values g.units)

  record Inv (s : Search P) : Type 0 where
    source : Among start s.visited
    queued : (x : String) → Among x s.queue → Among x s.visited
    sound : (x : String) → Among x s.visited → Reach P g d start x
    listed : (x : String) → Among x s.visited → (x ≡ start) ⊎ Among x (ids s.result)
    found : (u : SemanticUnit P) → Among u s.result → Found u
    closed :
        (x : String)
        → Among x s.visited
        → Among x s.queue ⊎ ((y : String) → Among y (ids (neighbours P g x d)) → Among y s.visited)

  -- the state before the start is expanded
  abbrev opening : Search P
  opening = record { visited = start ∷ []; queue = start ∷ []; result = [] }

  Inv-opening : Inv opening
  Inv-opening = record {
    source = inl refl;
    queued = λ x h. h;
    sound = λ x h. elim h [ inl e ↦ subst (Reach P g d start) (sym e) here | inr k ↦ absurd k ];
    listed = λ x h. elim h [ inl e ↦ inl e | inr k ↦ absurd k ];
    found = λ u h. absurd h;
    closed = λ x h. inl h;
  }

  expand : Search P → String → List String → Search P
  expand s current rest = visit_all P (record s { queue = rest }) (neighbours P g current d)

  Inv-expand :
      (s : Search P) (current : String) (rest : List String)
      → s.queue ≡ current ∷ rest
      → Inv s
      → Inv (expand s current rest)
  unfolding expand
  Inv-expand s current rest e h =
      let ns = neighbours P g current d in
      let a = Adds-visit_all (record s { queue = rest }) ns in
      let t = expand s current rest in
      let at_current : Reach P g d start current =
        h.sound current (h.queued current (subst (Among current) (sym e) (inl refl))) in
      let onward = λ (x : String) (k : Among x (ids ns)).
        let (u, m, f) = Among-of_ids x ns k in step u at_current m f in
      record {
        source = a.kept start h.source;
        queued = λ x k. ground (arith, a.queue_origin x k, h.queued x, a.kept x, a.entered x);
        sound = λ x k. elim (a.origin x k) [ inl m ↦ h.sound x m | inr m ↦ onward x m ];
        listed = λ x k. ground (arith, a.fresh x k, h.listed x, a.result_kept x);
        found = λ u k. elim (a.result_origin u k) [
          | inl m ↦ h.found u m
          | inr (m, new) ↦ (
            λ f. new (subst (λ y. Among y s.visited) (sym f) h.source),
            step u at_current m refl,
            neighbours-Among g current d u m,
          )
        ];
        closed = λ x k. elim (a.fresh x k) [
          | inr m ↦ inl m.0
          | inl m ↦ elim (h.closed x m) [
            | inr done ↦ inr (λ y n. a.kept y (done y n))
            | inl q ↦ elim (subst (Among x) e q) [
              | inl f ↦
                  inr (λ y n. a.entered y (subst (λ z. Among y (ids (neighbours P g z d))) f n))
              | inr r ↦ inl (a.queue_kept x r)
            ]
          ]
        ];
      }

  done_at : (fuel : ℕ) (s : Search P) → s.queue ≡ [] → bfs_loop P g d (suc fuel) s ≡ some s.result
  unfolding bfs_loop
  done_at fuel s e = ground arith

  loop_ends :
      (fuel : ℕ) (s : Search P)
      → Inv s
      → work g.units s < fuel
      → (t : Search P) × (bfs_loop P g d fuel s ≡ some t.result) × Inv t × (t.queue ≡ [])
  unfolding bfs_loop expand
  loop_ends zero s h w = absurd (omega arith)
  loop_ends (suc fuel) s h w = elim (List-cases s.queue) [
    | inl e ↦ (s, done_at fuel s e, h, e)
    | inr (current, rest, e) ↦
        let less =
          work-visit_all g.units (record s { queue = rest }) (neighbours P g current d)
            (λ n. neighbours-Among g current d n) in
        let (t, r, i, f) =
          loop_ends fuel (expand s current rest) (Inv-expand s current rest e h)
            (omega (arith, ap length e)) in
        (t, rw (e, bfs_loop) r, i, f)
  ]

  bfs_ends : (t : Search P) × (bfs P g start d ≡ some t.result) × Inv t × (t.queue ≡ [])
  unfolding bfs expand
  bfs_ends =
      let less =
        work-visit_all g.units (seeded P start) (neighbours P g start d)
          (λ n. neighbours-Among g start d n) in
      loop_ends (suc (length g.units)) (expand opening start [])
        (Inv-expand opening start [] refl Inv-opening)
        (omega (arith, unseen-le g.units (start ∷ [])))

  all_reached :
      (t : Search P) → Inv t → t.queue ≡ [] → {x : String} → Reach P g d start x → Among x t.visited
  all_reached t h e here = h.source
  all_reached t h e (step {x} {y} u r a f) = elim (h.closed x (all_reached t h e r)) [
    | inl q ↦ absurd (subst (Among x) e q)
    | inr done ↦ subst (λ z. Among z t.visited) f (done u.id (ids-Among u (neighbours P g x d) a))
  ]

same_unit :
    {P : Platform} (g : Graph P) (v u : SemanticUnit P)
    → IsIndexed g
    → Among v (values g.units)
    → v.id ≡ u.id
    → lookup u.id g.units ≡ some u
    → v ≡ u
same_unit g v u h a f e =
    some-injective v u (sym (subst (λ x. lookup x g.units ≡ some v) f (lookup-id g v h a)) ∙ e)

-- On a graph whose units stand under their own ids, the traversal ends and returns exactly the
-- units of the graph, other than the start, that a chain of edges leads to.
pub bfs_correct :
    (P : Platform) (g : Graph P) (start : String) (d : Direction)
    → IsIndexed g
    → (r : List (SemanticUnit P)) × (bfs P g start d ≡ some r)
      × ((u : SemanticUnit P)
          → Among u r ↔ ((lookup u.id g.units ≡ some u) × (u.id ≢ start) × Reach P g d start u.id))
bfs_correct P g start d indexed =
    let (t, e, inv, empty) = bfs_ends g d start in
    (
      t.result,
      e,
      λ u. (
        λ m. let (ne, r, a) = inv.found u m in (lookup-id g u indexed a, ne, r),
        λ h. elim (inv.listed u.id (all_reached g d start t inv empty h.2)) [
          | inl f ↦ absurd (h.1 f)
          | inr m ↦
              let (v, a, f) = Among-of_ids u.id t.result m in
              subst (λ w. Among w t.result) (same_unit g v u indexed (inv.found v a).2 f h.0) a
        ],
      ),
    )
