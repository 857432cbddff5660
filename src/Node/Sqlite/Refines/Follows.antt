-- ===== src/Node/Sqlite/Refines/Follows.antt =====
-- The follow methods of packages/node/src/storage/sqlite.rs against those of memory.rs.
use symantic_weft.Prelude.{
  true, false, not, List, ◌∷◌, String, ◌==◌, ◌≡◌, refl, ap, ◌∙◌, sym, inl, inr, filter, Bool-cases,
  ok,
}
use symantic_weft.Platform.{Platform}
use symantic_weft.Node.Memory.{Inner}
use symantic_weft.Node.Memory.Follows as Follows
use symantic_weft.Node.Memory.Follows.{follows_pair, same_pair, seconds, firsts}
use symantic_weft.Node.Sqlite.{Engine, Tables}
use symantic_weft.Node.Sqlite.Follows.{
  add_follow, remove_follow, is_following, list_following, order_texts,
}
use symantic_weft.Node.Sqlite.Refines.Agree.{quiet, Agree, Simulates, simulated}

module _ {P : Platform} (E : Engine P) where
  Agree-follows :
      (l m : List (String × String)) (t : Tables P) (s : Inner P)
      → l ≡ m
      → Agree E t s
      → Agree E (record t { follows = l }) (record s { follows = m })
  Agree-follows l m t s e a = record {
    units = a.units;
    agents = a.agents;
    counts = a.counts;
    follows = e;
    peers = a.peers;
    cursors = a.cursors;
    node_config = a.node_config;
  }

  sql_add-known :
      (x y : String) (t : Tables P)
      → follows_pair x y t.follows ≡ true
      → add_follow P x y (quiet t) ≡ (ok tt, quiet t)
  unfolding add_follow
  sql_add-known x y t b = rw (b, add_follow) refl

  sql_add-new :
      (x y : String) (t : Tables P)
      → follows_pair x y t.follows ≡ false
      → add_follow P x y (quiet t) ≡ (ok tt, quiet (record t { follows = (x, y) ∷ t.follows }))
  unfolding add_follow
  sql_add-new x y t b = rw (b, add_follow) refl

  memory_add-known :
      (x y : String) (s : Inner P)
      → follows_pair x y s.follows ≡ true
      → Follows.add_follow P x y s ≡ (ok tt, s)
  unfolding Follows.add_follow
  memory_add-known x y s b = rw (b, Follows.add_follow) refl

  memory_add-new :
      (x y : String) (s : Inner P)
      → follows_pair x y s.follows ≡ false
      → Follows.add_follow P x y s ≡ (ok tt, record s { follows = (x, y) ∷ s.follows })
  unfolding Follows.add_follow
  memory_add-new x y s b = rw (b, Follows.add_follow) refl

  pub add_follow_refines :
      (x y : String) (t : Tables P) (s : Inner P)
      → Agree E t s
      → Simulates E (add_follow P x y (quiet t)) (Follows.add_follow P x y s)
  add_follow_refines x y t s a =
      let same : follows_pair x y s.follows ≡ follows_pair x y t.follows =
        ap (follows_pair x y) (sym a.follows) in
      elim (Bool-cases (follows_pair x y t.follows)) [
        | inl b ↦
            simulated E (ok tt) t s (sql_add-known x y t b) (memory_add-known x y s (same ∙ b)) a
        | inr b ↦
            simulated E (ok tt) _ _ (sql_add-new x y t b) (memory_add-new x y s (same ∙ b))
              (Agree-follows _ _ t s (ap (◌∷◌ (x, y)) a.follows) a)
      ]

  pub remove_follow_refines :
      (x y : String) (t : Tables P) (s : Inner P)
      → Agree E t s
      → Simulates E (remove_follow P x y (quiet t)) (Follows.remove_follow P x y s)
  unfolding remove_follow Follows.remove_follow
  remove_follow_refines x y t s a =
      simulated E (ok tt) _ _ refl refl
        (Agree-follows _ _ t s (ap (filter (λ p. not (same_pair p (x, y)))) a.follows) a)

  pub is_following_refines :
      (x y : String) (t : Tables P) (s : Inner P)
      → Agree E t s
      → Simulates E (is_following P x y (quiet t)) (Follows.is_following P x y s)
  unfolding is_following Follows.is_following
  is_following_refines x y t s a = (t, ap (λ l. (ok (follows_pair x y l), quiet t)) a.follows, a)

  -- SQLite answers in the order of the texts, the set of pairs in any order.
  pub list_following-ordered :
      (did : String) (t : Tables P) (s : Inner P)
      → Agree E t s
      → list_following P did (quiet t)
        ≡ (ok (order_texts (seconds (filter (λ p. p.0 == did) s.follows))), quiet t)
  unfolding list_following
  list_following-ordered did t s a =
      ap (λ l. (ok (order_texts (seconds (filter (λ p. p.0 == did) l))), quiet t)) a.follows
