-- ===== src/Node/Memory/Follows.antt =====
-- The follow methods of `MemoryStorage` (packages/node/src/storage/memory.rs); a `HashSet` of pairs as a list without repetitions.
pub mod Laws
use symantic_weft.Prelude.{
  Bool, ◌&&◌, not, List, [], ◌∷◌, String, ◌==◌, any, filter, if◌then◌else◌, ok,
}
use symantic_weft.Platform.{Platform}
use symantic_weft.Node.Memory.{Inner, Store}

abbrev pub same_pair : String × String → String × String → Bool
same_pair p q = (p.0 == q.0) && (p.1 == q.1)

-- `set.contains(&(a, b))`
unfoldable pub follows_pair : String → String → List (String × String) → Bool
follows_pair a b l = any (λ p. same_pair p (a, b)) l

abbrev pub firsts : List (String × String) → List String
firsts [] = []
firsts (p ∷ rest) = p.0 ∷ firsts rest

abbrev pub seconds : List (String × String) → List String
seconds [] = []
seconds (p ∷ rest) = p.1 ∷ seconds rest

module _ (P : Platform) where
  unfoldable pub add_follow : String → String → Store P (Unit {0})
  unfolding follows_pair
  add_follow follower followee s = (
    ok tt,
    (if follows_pair follower followee s.follows
        then s
        else record s { follows = (follower, followee) ∷ s.follows }),
  )

  unfoldable pub remove_follow : String → String → Store P (Unit {0})
  remove_follow follower followee s =
      (ok tt, record s { follows = filter (λ p. not (same_pair p (follower, followee))) s.follows })

  unfoldable pub list_following : String → Store P (List String)
  list_following did s = (ok (seconds (filter (λ p. p.0 == did) s.follows)), s)

  unfoldable pub list_followers : String → Store P (List String)
  list_followers did s = (ok (firsts (filter (λ p. p.1 == did) s.follows)), s)

  unfoldable pub is_following : String → String → Store P Bool
  unfolding follows_pair
  is_following follower followee s = (ok (follows_pair follower followee s.follows), s)
