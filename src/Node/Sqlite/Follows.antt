-- ===== src/Node/Sqlite/Follows.antt =====
-- The follow methods of packages/node/src/storage/sqlite.rs.
use symantic_weft.Prelude.{Bool, not, List, [], ◌∷◌, String, ◌==◌, filter, str_lt, if◌then◌else◌}
use symantic_weft.Platform.{Platform}
use symantic_weft.Node.Memory.Follows.{same_pair, follows_pair, firsts, seconds}
use symantic_weft.Node.Sqlite.{Sql, query, execute}

-- `ORDER BY … ASC` on a column of texts
unfoldable pub insert_text : String → List String → List String
insert_text s [] = s ∷ []
insert_text s (t ∷ l) = let rest = insert_text s l in if str_lt t s then t ∷ rest else s ∷ t ∷ l

unfoldable pub order_texts : List String → List String
unfolding insert_text
order_texts [] = []
order_texts (s ∷ l) = insert_text s (order_texts l)

module _ (P : Platform) where
  -- `INSERT OR IGNORE INTO follows`
  unfoldable pub add_follow : String → String → Sql P (Unit {0})
  add_follow follower followee = execute (λ t.
      if follows_pair follower followee t.follows
      then t
      else record t { follows = (follower, followee) ∷ t.follows })

  unfoldable pub remove_follow : String → String → Sql P (Unit {0})
  remove_follow follower followee =
      execute
        (λ t. record t { follows = filter (λ p. not (same_pair p (follower, followee))) t.follows })

  unfoldable pub list_following : String → Sql P (List String)
  list_following did = query (λ t. order_texts (seconds (filter (λ p. p.0 == did) t.follows)))

  unfoldable pub list_followers : String → Sql P (List String)
  list_followers did = query (λ t. order_texts (firsts (filter (λ p. p.1 == did) t.follows)))

  -- `SELECT COUNT(*) …` and `count > 0`
  unfoldable pub is_following : String → String → Sql P Bool
  is_following follower followee = query (λ t. follows_pair follower followee t.follows)
