-- ===== src/Platform.antt =====
-- What the crates take from elsewhere: floating point, `serde_json::Value`, the `uuid` and
-- `chrono` parsers and Rust's debug format. Nothing is assumed of them.
use symantic_weft.Prelude.{ℕ, Bool, Option, String, if◌then◌else◌}

-- An IEEE 754 type, `f32` or `f64`, with the operations that the program applies.
pub record Float : Type 1 where
  pub Carrier : Type 0
  -- The literal n / d, nearest.
  pub literal : ℕ → ℕ → Carrier
  pub le : Carrier → Carrier → Bool
  pub lt : Carrier → Carrier → Bool
  pub eq : Carrier → Carrier → Bool
  pub add : Carrier → Carrier → Carrier
  pub sub : Carrier → Carrier → Carrier
  pub mul : Carrier → Carrier → Carrier
  pub div : Carrier → Carrier → Carrier
  pub sqrt : Carrier → Carrier
  -- `x.max(y)`
  pub max : Carrier → Carrier → Carrier
  -- `x.is_finite()`
  pub is_finite : Carrier → Bool

pub record Platform : Type 1 where
  pub f64 : Float
  pub f32 : Float
  -- `x as f64` and `x as f32`
  pub widen : f32.Carrier → f64.Carrier
  pub narrow : f64.Carrier → f32.Carrier
  -- `serde_json::Value` and its `==`
  pub Value : Type 0
  pub value_eq : Value → Value → Bool
  -- `uuid::Uuid::parse_str(s)` with `get_version_num()`; `none` where the parse fails
  pub uuid_version : String → Option ℕ
  -- `chrono::DateTime::parse_from_rfc3339(s).is_ok()`
  pub is_rfc3339 : String → Bool
  -- `s.trim()`, `s.trim_end_matches(pat)`
  pub trim : String → String
  pub trim_end_matches : String → String → String
  -- `format!("{:?}", s)`
  pub debug : String → String
  -- `format!("{}", n)`, `format!("{}", c)` and `format!("{:.3}", r)`
  pub decimal : ℕ → String
  pub display_f64 : f64.Carrier → String
  pub fixed3 : f32.Carrier → String

-- `x.clamp(0.0, 1.0)`: the identity on NaN, as in Rust
unfoldable pub clamp_unit : (F : Float) → F.Carrier → F.Carrier
clamp_unit F x =
    if F.lt x (F.literal 0 1)
    then F.literal 0 1
    else if F.lt (F.literal 1 1) x
    then F.literal 1 1
    else x
