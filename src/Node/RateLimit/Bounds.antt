-- ===== src/Node/RateLimit/Bounds.antt =====
-- How many requests the limiter of packages/node/src/middleware/rate_limit.rs lets pass.
use symantic_weft.Prelude.{
  ℕ, ◌+◌, ◌-◌, ◌*◌, ◌<◌, ◌≤◌, Option, none, some, false, List, [], ◌∷◌, String, ◌==◌, ◌≡◌, refl,
  sym, ap, ◌∙◌, subst, inl, inr, All, eqb, leb, u32_mod, if◌then◌else◌, Result, ok, err, arith,
  Bool-cases, Option-cases, eq_refl, eq_iff,
}
use symantic_weft.Prelude.Map.{Map, lookup, lookup-insert}
use symantic_weft.Node.RateLimit.{
  Bucket, RateLimiter, count_request, bucket_or_new, check, new_limiter,
}

abbrev pub one_if_ok : Result (Unit {0}) ℕ → ℕ
one_if_ok (ok _) = 1
one_if_ok (err _) = 0

-- How many of the requests, each an instant and an address, pass for one address.
pub passed : String → List (ℕ × String) → RateLimiter → ℕ
passed ip [] l = 0
passed ip ((now, key) ∷ rest) l =
    let more = passed ip rest (check now key l).1 in
    if key == ip then one_if_ok (check now key l).0 + more else more

-- How many more may pass for a bucket before an interval of one window, begun at `t`, is over.
abbrev pub budget : ℕ → ℕ → Option Bucket → ℕ
budget most t none = most
budget most t (some b) = if leb t b.window_start then most - b.count else (most - b.count) + most

abbrev pub IsWithin : ℕ → ℕ → ℕ × String → Type 0
IsWithin t window r = (t ≤ r.0) × (r.0 < t + window)

count_request-budget :
    (l : RateLimiter) (t now : ℕ) (b : Bucket)
    → 0 < l.max_per_window
    → l.max_per_window < u32_mod
    → t ≤ now
    → now < t + l.window
    → one_if_ok (count_request l now b).0
        + budget l.max_per_window t (some (count_request l now b).1)
      ≤ budget l.max_per_window t (some b)
unfolding count_request
count_request-budget l t now b pos small low high = ground arith

new_bucket-budget :
    (most t now : ℕ) (o : Option Bucket)
    → t ≤ now
    → budget most t (some (bucket_or_new now o)) ≤ budget most t o
new_bucket-budget most t now none low = ground arith
new_bucket-budget most t now (some b) low = omega arith

check-budget_own :
    (l : RateLimiter) (t now : ℕ) (ip : String)
    → 0 < l.max_per_window
    → l.max_per_window < u32_mod
    → t ≤ now
    → now < t + l.window
    → one_if_ok (check now ip l).0
        + budget l.max_per_window t (lookup ip (check now ip l).1.buckets)
      ≤ budget l.max_per_window t (lookup ip l.buckets)
unfolding check
check-budget_own l t now ip pos small low high =
    let b = bucket_or_new now (lookup ip l.buckets) in
    let off : eqb l.max_per_window 0 ≡ false = ground arith in
    rw off (
      rw (lookup-insert ip ip (count_request l now b).1 l.buckets, eq_refl ip)
        (omega (
          arith,
          count_request-budget l t now b pos small low high,
          new_bucket-budget l.max_per_window t now (lookup ip l.buckets) low,
        )))

check-other :
    (l : RateLimiter) (now : ℕ) (key ip : String)
    → (key == ip) ≡ false
    → lookup ip (check now key l).1.buckets ≡ lookup ip l.buckets
unfolding check
check-other l now key ip other = elim (Bool-cases (eqb l.max_per_window 0)) [
  | inl e ↦ rw e refl
  | inr e ↦ rw e (
      rw
        (
          lookup-insert key ip (count_request l now (bucket_or_new now (lookup key l.buckets))).1
              l.buckets,
          other,
        )
        refl)
]

check-settings :
    (l : RateLimiter) (now : ℕ) (key : String)
    → ((check now key l).1.max_per_window ≡ l.max_per_window)
      × ((check now key l).1.window ≡ l.window)
unfolding check
check-settings l now key = elim (Bool-cases (eqb l.max_per_window 0)) [
  | inl e ↦ rw e (refl, refl)
  | inr e ↦ rw e (refl, refl)
]

budget-le : (most t : ℕ) (o : Option Bucket) → budget most t o ≤ 2 * most
budget-le most t none = omega arith
budget-le most t (some b) = grind arith

passed-le-budget :
    (ip : String) (t : ℕ) (reqs : List (ℕ × String)) (l : RateLimiter)
    → 0 < l.max_per_window
    → l.max_per_window < u32_mod
    → All (IsWithin t l.window) reqs
    → passed ip reqs l ≤ budget l.max_per_window t (lookup ip l.buckets)
unfolding passed
passed-le-budget ip t [] l pos small h = omega arith
passed-le-budget ip t ((now, key) ∷ rest) l pos small h =
    let l' = (check now key l).1 in
    let settings = check-settings l now key in
    let most : l'.max_per_window ≡ l.max_per_window = settings.0 in
    let tail : passed ip rest l' ≤ budget l.max_per_window t (lookup ip l'.buckets) =
      subst (λ m. passed ip rest l' ≤ budget m t (lookup ip l'.buckets)) most
        (passed-le-budget ip t rest l' (omega (arith, most)) (omega (arith, most))
          (subst (λ w. All (IsWithin t w) rest) (sym settings.1) h.1)) in
    elim (Bool-cases (key == ip)) [
      | inl e ↦
          let same : key ≡ ip = (eq_iff key ip).0 e in
          rw e (
            subst
              (λ k.
                one_if_ok (check now k l).0 + passed ip rest (check now k l).1
                ≤ budget l.max_per_window t (lookup ip l.buckets))
              (sym same)
              (omega (
                arith,
                check-budget_own l t now ip pos small h.0.0 h.0.1,
                subst
                    (λ k.
                      passed ip rest (check now k l).1
                      ≤ budget l.max_per_window t (lookup ip (check now k l).1.buckets))
                    same tail,
              )))
      | inr e ↦ rw e (
          subst (λ o. passed ip rest l' ≤ budget l.max_per_window t o) (check-other l now key ip e)
            tail)
    ]

-- With a limit that is not zero and fits `u32`, whatever the limiter has seen before and in whatever
-- order the instants come: of requests within one interval as long as the window, at most twice the
-- limit pass for one address, and at most the limit where the address has no bucket yet.
pub passed_bounded :
    (l : RateLimiter) (ip : String) (t : ℕ) (reqs : List (ℕ × String))
    → 0 < l.max_per_window
    → l.max_per_window < u32_mod
    → All (IsWithin t l.window) reqs
    → (passed ip reqs l ≤ 2 * l.max_per_window)
      × (lookup ip l.buckets ≡ none → passed ip reqs l ≤ l.max_per_window)
passed_bounded l ip t reqs pos small h =
    let bound = passed-le-budget ip t reqs l pos small h in
    (
      omega (arith, bound, budget-le l.max_per_window t (lookup ip l.buckets)),
      λ fresh. subst (λ o. passed ip reqs l ≤ budget l.max_per_window t o) fresh bound,
    )

count_request-refused :
    (l : RateLimiter) (now wait : ℕ) (b : Bucket)
    → l.window ≡ 60000000000
    → (count_request l now b).0 ≡ err wait
    → ((1 ≤ wait) × (wait ≤ 60))
      × (l.max_per_window ≤ b.count)
      × (now - b.window_start < 60000000000)
      × ((count_request l now b).1 ≡ b)
unfolding count_request
count_request-refused l now wait b w h = ground arith

-- For a limiter made by `new`: a request is refused only where the limit is not zero and the bucket
-- of its address is full and younger than the window; the seconds to wait are then between 1 and 60,
-- and the bucket stays as it was.
pub refused_lem :
    (max now wait : ℕ) (ip : String) (buckets : Map Bucket)
    → (check now ip (record (new_limiter max) { buckets = buckets })).0 ≡ err wait
    → (0 < max)
      × ((1 ≤ wait) × (wait ≤ 60))
      × ((b : Bucket) × (lookup ip buckets ≡ some b)
          × (max ≤ b.count)
          × (now - b.window_start < 60000000000)
          × (lookup ip (check now ip (record (new_limiter max) { buckets = buckets })).1.buckets
              ≡ some b))
unfolding check new_limiter
refused_lem max now wait ip buckets h =
    let l = record (new_limiter max) { buckets = buckets } in
    elim (Bool-cases (eqb max 0)) [
      | inl e ↦ let passes : ok tt ≡ err wait = rw e at h in absurd (cc passes)
      | inr e ↦
          let counted : (count_request l now (bucket_or_new now (lookup ip buckets))).0 ≡ err wait =
            rw e at h in
          let (waits, is_full, young, kept) =
            count_request-refused l now wait (bucket_or_new now (lookup ip buckets)) refl counted in
          elim (Option-cases (lookup ip buckets)) [
            | inl none_yet ↦
                let empty : max ≤ 0 =
                  subst (λ o. max ≤ (bucket_or_new now o).count) none_yet is_full in
                absurd (grind arith)
            | inr (b, found) ↦ (
              grind arith,
              waits,
              (
                b,
                found,
                subst (λ o. max ≤ (bucket_or_new now o).count) found is_full,
                subst (λ o. now - (bucket_or_new now o).window_start < 60000000000) found young,
                rw
                    (
                      e,
                      lookup-insert ip ip
                          (count_request l now (bucket_or_new now (lookup ip buckets))).1 buckets,
                      eq_refl ip,
                    )
                    (ap some (kept ∙ ap (bucket_or_new now) found)),
              ),
            )
          ]
    ]
