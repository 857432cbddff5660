-- ===== src/Core/Graph/Visit.antt =====
-- In `bfs` of packages/core/src/graph.rs: what one pass over the neighbours of a unit does to the visited set, the queue and the result.
use symantic_weft.Prelude.{
  ℕ, ◌+◌, ◌≤◌, true, false, not, List, [], ◌∷◌, ◌++◌, String, ◌≡◌, refl, ◌↔◌, ◌⊎◌, inl, inr, Among,
  length, filter, length-append, length-filter-le, Among-append_left, Among-append_right,
  Among-append, Bool-cases, eq_iff, eq_refl, arith, sym, ap,
}
use symantic_weft.Prelude.Map.{Map, values, length-values}
use symantic_weft.Platform.{Platform}
use symantic_weft.Core.Types.{SemanticUnit}
use symantic_weft.Core.Graph.{Search, contains, visit, visit_all}

pub contains_iff : (l : List String) (x : String) → (contains l x ≡ true) ↔ Among x l
contains_iff [] x = (λ h. cc, λ h. absurd h)
contains_iff (y ∷ l) x = ground (arith, eq_iff y x, contains_iff l x)

module _ {P : Platform} where
  abbrev pub ids : List (SemanticUnit P) → List String
  ids [] = []
  ids (u ∷ us) = u.id ∷ ids us

  pub ids-Among :
      (u : SemanticUnit P) (us : List (SemanticUnit P)) → Among u us → Among u.id (ids us)
  ids-Among u [] h = absurd h
  ids-Among u (v ∷ us) (inl e) = inl (λ i. (e i).id)
  ids-Among u (v ∷ us) (inr h) = inr (ids-Among u us h)

  pub Among-of_ids :
      (x : String) (us : List (SemanticUnit P))
      → Among x (ids us)
      → (u : SemanticUnit P) × Among u us × (u.id ≡ x)
  Among-of_ids x [] h = absurd h
  Among-of_ids x (v ∷ us) (inl e) = (v, inl refl, sym e)
  Among-of_ids x (v ∷ us) (inr h) = let (u, a, e) = Among-of_ids x us h in (u, inr a, e)

  -- From `s` to `t` exactly the units `ns` that were not visited are added.
  pub record Adds (s : Search P) (ns : List (SemanticUnit P)) (t : Search P) : Type 0 where
    pub kept : (x : String) → Among x s.visited → Among x t.visited
    pub entered : (x : String) → Among x (ids ns) → Among x t.visited
    pub origin : (x : String) → Among x t.visited → Among x s.visited ⊎ Among x (ids ns)
    pub queue_kept : (x : String) → Among x s.queue → Among x t.queue
    pub queue_origin : (x : String) → Among x t.queue → Among x s.queue ⊎ Among x (ids ns)
    pub fresh :
        (x : String)
        → Among x t.visited
        → Among x s.visited ⊎ Among x t.queue × Among x (ids t.result)
    pub result_kept : (x : String) → Among x (ids s.result) → Among x (ids t.result)
    pub result_origin :
        (u : SemanticUnit P)
        → Among u t.result
        → Among u s.result ⊎ Among u ns × (¬ Among u.id s.visited)

  Adds-refl : (s : Search P) → Adds s [] s
  Adds-refl s = record {
    kept = λ x h. h;
    entered = λ x h. absurd h;
    origin = λ x h. inl h;
    queue_kept = λ x h. h;
    queue_origin = λ x h. inl h;
    fresh = λ x h. inl h;
    result_kept = λ x h. h;
    result_origin = λ u h. inl h;
  }

  ids-append_left :
      (x : String) (us vs : List (SemanticUnit P)) → Among x (ids us) → Among x (ids (us ++ vs))
  ids-append_left x [] vs h = absurd h
  ids-append_left x (u ∷ us) vs (inl e) = inl e
  ids-append_left x (u ∷ us) vs (inr h) = inr (ids-append_left x us vs h)

  ids-append_right :
      (x : String) (us vs : List (SemanticUnit P)) → Among x (ids vs) → Among x (ids (us ++ vs))
  ids-append_right x [] vs h = h
  ids-append_right x (u ∷ us) vs h = inr (ids-append_right x us vs h)

  Adds-visit : (s : Search P) (n : SemanticUnit P) → Adds s (n ∷ []) (visit P s n)
  unfolding visit
  Adds-visit s n = elim (Bool-cases (contains s.visited n.id)) [
    | inl e ↦
        rw (e, visit)
          (let old = (contains_iff s.visited n.id).0 e in
            record {
              kept = λ x h. h;
              entered = λ x h. ground arith;
              origin = λ x h. inl h;
              queue_kept = λ x h. h;
              queue_origin = λ x h. inl h;
              fresh = λ x h. inl h;
              result_kept = λ x h. h;
              result_origin = λ u h. inl h;
            })
    | inr e ↦
        rw (e, visit)
          (record {
            kept = λ x h. inr h;
            entered = λ x h. ground arith;
            origin = λ x h. ground arith;
            queue_kept = λ x h. Among-append_left x s.queue _ h;
            queue_origin = λ x h. ground (arith, Among-append x s.queue (n.id ∷ []));
            fresh = λ x h. elim h [
              | inl k ↦
                  inr
                    (Among-append_right x s.queue _ (inl k), ids-append_right x s.result _ (inl k))
              | inr k ↦ inl k
            ];
            result_kept = λ x h. ids-append_left x s.result _ h;
            result_origin = λ u h. elim (Among-append u s.result (n ∷ []) h) [
              | inl k ↦ inl k
              | inr k ↦ inr (k, λ m. ground (arith, contains_iff s.visited n.id))
            ];
          })
  ]

  Adds-cons :
      (s t : Search P) (n : SemanticUnit P) (ns : List (SemanticUnit P)) (r : Search P)
      → Adds s (n ∷ []) t
      → Adds t ns r
      → Adds s (n ∷ ns) r
  Adds-cons s t n ns r a b = record {
    kept = λ x h. b.kept x (a.kept x h);
    entered = λ x h. elim h [ inl e ↦ b.kept x (a.entered x (inl e)) | inr k ↦ b.entered x k ];
    origin = λ x h. ground (arith, b.origin x h, a.origin x);
    queue_kept = λ x h. b.queue_kept x (a.queue_kept x h);
    queue_origin = λ x h. ground (arith, b.queue_origin x h, a.queue_origin x);
    fresh = λ x h. ground (arith, b.fresh x h, a.fresh x, b.queue_kept x, b.result_kept x);
    result_kept = λ x h. b.result_kept x (a.result_kept x h);
    result_origin = λ u h. ground (arith, b.result_origin u h, a.result_origin u, a.kept u.id);
  }

  pub Adds-visit_all : (s : Search P) (ns : List (SemanticUnit P)) → Adds s ns (visit_all P s ns)
  unfolding visit_all
  Adds-visit_all s [] = Adds-refl s
  Adds-visit_all s (n ∷ ns) =
      Adds-cons s (visit P s n) n ns _ (Adds-visit s n) (Adds-visit_all (visit P s n) ns)

  -- The units of the graph that are not visited yet.
  abbrev pub unseen : Map (SemanticUnit P) → List String → ℕ
  unseen m visited =
      length (filter (λ (u : SemanticUnit P). not (contains visited u.id)) (values m))

  unseen_values : List (SemanticUnit P) → List String → ℕ
  unseen_values us visited =
      length (filter (λ (u : SemanticUnit P). not (contains visited u.id)) us)

  pub unseen-le : (m : Map (SemanticUnit P)) (visited : List String) → unseen m visited ≤ length m
  unseen-le m visited = omega (
    arith,
    length-filter-le (λ (u : SemanticUnit P). not (contains visited u.id)) (values m),
    length-values m,
  )

  unseen_mono :
      (us : List (SemanticUnit P)) (visited : List String) (x : String)
      → unseen_values us (x ∷ visited) ≤ unseen_values us visited
  unfolding unseen_values
  unseen_mono [] visited x = omega arith
  unseen_mono (u ∷ us) visited x = ground (arith, unseen_mono us visited x)

  unseen-visit :
      (us : List (SemanticUnit P)) (visited : List String) (n : SemanticUnit P)
      → Among n us
      → contains visited n.id ≡ false
      → unseen_values us (n.id ∷ visited) + 1 ≤ unseen_values us visited
  unfolding unseen_values
  unseen-visit [] visited n h e = absurd h
  unseen-visit (u ∷ us) visited n (inl k) e =
      ground (arith, unseen_mono us visited n.id, eq_refl n.id, ap (λ (v : SemanticUnit P). v.id) k)
  unseen-visit (u ∷ us) visited n (inr h) e =
      ground (arith, unseen_mono us visited n.id, unseen-visit us visited n h e)

  abbrev pub work : Map (SemanticUnit P) → Search P → ℕ
  work m s = unseen m s.visited + length s.queue

  work-visit :
      (m : Map (SemanticUnit P)) (s : Search P) (n : SemanticUnit P)
      → Among n (values m)
      → work m (visit P s n) ≤ work m s
  unfolding visit unseen_values
  work-visit m s n h =
      ground (arith, unseen-visit (values m) s.visited n h, length-append s.queue (n.id ∷ []))

  -- A pass over units of the graph does not add to the work left.
  pub work-visit_all :
      (m : Map (SemanticUnit P)) (s : Search P) (ns : List (SemanticUnit P))
      → ((n : SemanticUnit P) → Among n ns → Among n (values m))
      → work m (visit_all P s ns) ≤ work m s
  unfolding visit_all
  work-visit_all m s [] h = omega arith
  work-visit_all m s (n ∷ ns) h = omega (
    arith,
    work-visit m s n (h n (inl refl)),
    work-visit_all m (visit P s n) ns (λ k a. h k (inr a)),
  )
