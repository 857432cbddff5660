-- ===== src/Node/Memory/Follows/Laws.antt =====
-- The follow relation of `MemoryStorage` (packages/node/src/storage/memory.rs) as a set of pairs.
use symantic_weft.Prelude.{
  Bool, true, false, not, List, [], ◌∷◌, String, ◌==◌, ◌≡◌, ◌↔◌, ◌⊎◌, inl, inr, any, filter, Among,
  eq_iff, arith, ok, Bool-cases, sym, ◌∙◌, refl, subst, if◌then◌else◌, Result,
}
use symantic_weft.Platform.{Platform}
use symantic_weft.Node.Storage.{StorageError}
use symantic_weft.Node.Memory.{Inner}
use symantic_weft.Node.Memory.Follows.{
  add_follow, remove_follow, is_following, same_pair, follows_pair, firsts, seconds,
}

pub Among-text_iff : (s : String) (l : List String) → (any (λ t. t == s) l ≡ true) ↔ Among s l
Among-text_iff s [] = (λ h. cc, λ h. absurd h)
Among-text_iff s (t ∷ l) = ground (arith, eq_iff t s, Among-text_iff s l)

pub follows_pair_iff :
    (a b : String) (l : List (String × String)) → (follows_pair a b l ≡ true) ↔ Among (a, b) l
unfolding follows_pair
follows_pair_iff a b [] = (λ h. cc, λ h. absurd h)
follows_pair_iff a b (p ∷ l) = ground (arith, eq_iff p.0 a, eq_iff p.1 b, follows_pair_iff a b l)

pub Among-seconds_iff :
    (a b : String) (l : List (String × String))
    → Among b (seconds (filter (λ p. p.0 == a) l)) ↔ Among (a, b) l
Among-seconds_iff a b [] = (λ h. h, λ h. h)
Among-seconds_iff a b (p ∷ l) = ground (arith, eq_iff p.0 a, Among-seconds_iff a b l)

pub Among-firsts_iff :
    (a b : String) (l : List (String × String))
    → Among a (firsts (filter (λ p. p.1 == b) l)) ↔ Among (a, b) l
Among-firsts_iff a b [] = (λ h. h, λ h. h)
Among-firsts_iff a b (p ∷ l) = ground (arith, eq_iff p.1 b, Among-firsts_iff a b l)

follows_pair-cons :
    (x y a b : String) (l : List (String × String))
    → (follows_pair a b ((x, y) ∷ l) ≡ true) ↔ ((follows_pair a b l ≡ true) ⊎ ((x ≡ a) × (y ≡ b)))
unfolding follows_pair
follows_pair-cons x y a b l = grind (arith, eq_iff x a, eq_iff y b)

added_iff :
    (x y a b : String) (l : List (String × String))
    → (follows_pair a b (if follows_pair x y l then l else (x, y) ∷ l) ≡ true)
      ↔ ((follows_pair a b l ≡ true) ⊎ ((x ≡ a) × (y ≡ b)))
added_iff x y a b l = elim (Bool-cases (follows_pair x y l)) [
  | inl e ↦ rw e (
    λ h. inl h,
    λ h. elim h [ inl f ↦ f | inr f ↦ (λ i. follows_pair (sym f.0 i) (sym f.1 i) l) ∙ e ],
  )
  | inr e ↦ rw e (grind (arith, follows_pair-cons x y a b l))
]

removed_iff :
    (x y a b : String) (l : List (String × String))
    → (follows_pair a b (filter (λ p. not (same_pair p (x, y))) l) ≡ true)
      ↔ ((follows_pair a b l ≡ true) × (¬ ((x ≡ a) × (y ≡ b))))
unfolding follows_pair
removed_iff x y a b [] = (λ h. cc, λ h. cc h.0)
removed_iff x y a b ((p, q) ∷ l) =
    grind (arith, removed_iff x y a b l, eq_iff p x, eq_iff q y, eq_iff p a, eq_iff q b)

ok-eq_iff : (b : Bool) → (◌≡◌ {A = Result Bool StorageError} (ok b) (ok true)) ↔ (b ≡ true)
ok-eq_iff true = (λ h. refl, λ h. refl)
ok-eq_iff false = (λ h. cc, λ h. cc)

add_follow-follows :
    {P : Platform} (x y : String) (s : Inner P)
    → (add_follow P x y s).1.follows
      ≡ (if follows_pair x y s.follows then s.follows else (x, y) ∷ s.follows)
unfolding add_follow
add_follow-follows x y s = elim (Bool-cases (follows_pair x y s.follows)) [
  | inl e ↦ rw e refl
  | inr e ↦ rw e refl
]

-- After `add_follow`, `is_following` answers true for the new pair and for the pairs for which it
-- did before, and after `remove_follow` for the pairs for which it did before, without the one
-- removed.
pub is_following_lem :
    (P : Platform) (x y a b : String) (s : Inner P)
    → (((is_following P a b (add_follow P x y s).1).0 ≡ ok true)
        ↔ (((is_following P a b s).0 ≡ ok true) ⊎ ((x ≡ a) × (y ≡ b))))
      × (((is_following P a b (remove_follow P x y s).1).0 ≡ ok true)
          ↔ (((is_following P a b s).0 ≡ ok true) × (¬ ((x ≡ a) × (y ≡ b)))))
unfolding is_following remove_follow
is_following_lem P x y a b s =
    let kept = ok-eq_iff (follows_pair a b s.follows) in
    let after = (add_follow P x y s).1.follows in
    let new = ok-eq_iff (follows_pair a b after) in
    let left = ok-eq_iff (follows_pair a b (filter (λ p. not (same_pair p (x, y))) s.follows)) in
    let added : (follows_pair a b after ≡ true)
        ↔ ((follows_pair a b s.follows ≡ true) ⊎ ((x ≡ a) × (y ≡ b))) =
      subst
        (λ l.
          (follows_pair a b l ≡ true) ↔ ((follows_pair a b s.follows ≡ true) ⊎ ((x ≡ a) × (y ≡ b))))
        (sym (add_follow-follows x y s)) (added_iff x y a b s.follows) in
    let removed = removed_iff x y a b s.follows in
    (
      (
        λ h. elim (added.0 (new.0 h)) [ inl f ↦ inl (kept.1 f) | inr f ↦ inr f ],
        λ h. new.1 (added.1 (elim h [ inl f ↦ inl (kept.0 f) | inr f ↦ inr f ])),
      ),
      (
        λ h. let r = removed.0 (left.0 h) in (kept.1 r.0, r.1),
        λ h. left.1 (removed.1 (kept.0 h.0, h.1)),
      ),
    )
