-- ===== src/Node/RateLimit.antt =====
-- packages/node/src/middleware/rate_limit.rs: one fixed window for each address. An `Instant` is a
-- number of nanoseconds.
pub mod Bounds
use symantic_weft.Prelude.{
  ℕ, ◌+◌, ◌-◌, ◌/◌, ◌%◌, Option, none, some, String, ◌==◌, leb, eqb, u32_mod, [], max,
  if◌then◌else◌, Result, ok, err, before_char,
}
use symantic_weft.Prelude.Map.{Map, lookup, insert}

pub record Bucket : Type 0 where
  pub count : ℕ
  pub window_start : ℕ

pub record RateLimiter : Type 0 where
  pub buckets : Map Bucket
  pub max_per_window : ℕ
  pub window : ℕ

abbrev pub second : ℕ
second = 1000000000

-- `RateLimiter::new`
unfoldable pub new_limiter : ℕ → RateLimiter
new_limiter max_per_minute = record {
  buckets = [];
  max_per_window = max_per_minute;
  window = 60000000000;
}

-- What `check` does to the bucket of the address
unfoldable pub count_request : RateLimiter → ℕ → Bucket → Result (Unit {0}) ℕ × Bucket
count_request l now b =
    let elapsed = now - b.window_start in
    if leb l.window elapsed
    then (ok tt, record { count = 1; window_start = now })
    else if leb l.max_per_window b.count
    then (err (max ((l.window - elapsed) / second) 1), b)
    else (ok tt, record b { count = (b.count + 1) % u32_mod })

-- `entry(ip_key).or_insert_with(…)`
abbrev pub bucket_or_new : ℕ → Option Bucket → Bucket
bucket_or_new now none = record { count = 0; window_start = now }
bucket_or_new now (some b) = b

-- `RateLimiter::check` at an instant
unfoldable pub check : ℕ → String → RateLimiter → Result (Unit {0}) ℕ × RateLimiter
check now ip_key l =
    if eqb l.max_per_window 0
    then (ok tt, l)
    else let counted = count_request l now (bucket_or_new now (lookup ip_key l.buckets)) in
      (counted.0, record l { buckets = insert ip_key counted.1 l.buckets })

-- `extract_ip`, given `trim` and the two headers where they are text
abbrev pub real_ip : Option String → String
real_ip none = "unknown"
real_ip (some s) = if s == "" then "unknown" else s

unfoldable pub extract_ip : (String → String) → Option String → Option String → String
extract_ip trim none x_real_ip = real_ip x_real_ip
extract_ip trim (some s) x_real_ip =
    if trim (before_char b',' s) == "" then real_ip x_real_ip else trim (before_char b',' s)
