-- ===== src/Node/Config.antt =====
-- packages/node/src/config.rs: the configuration of a node, from its environment.
use Prim.Native.Char.{code}
use symantic_weft.Prelude.{
  ℕ, ◌+◌, ◌-◌, ◌*◌, Bool, not, ◌&&◌, Option, none, some, List, ◌∷◌, map, String, ◌==◌, leb, ltb,
  eqb, concat, filter, split_char, if◌then◌else◌, Result, ok, ◌>>=◌, ok_or, unwrap_or, u32_mod,
}
use symantic_weft.Platform.{Platform}
use symantic_weft.Node.State.{NodeConfig}

-- The number of values of `u64`, and of `usize` on a machine of 64 bits
abbrev pub u64_mod : ℕ
u64_mod = 18446744073709551616

-- `std::env::var(…).ok()`, and the parsers of `SocketAddr` (as the text it displays) and `f32`
pub record Environment (P : Platform) : Type 0 where
  pub var : String → Option String
  pub parse_addr : String → Option String
  pub parse_f32 : String → Option P.f32.Carrier

-- the digits read so far stand for `n`
unfoldable pub digits : ℕ → String → Option ℕ
digits n String.[] = some n
digits n (String.◌∷◌ c s) =
    let rest = digits (n * 10 + (code c - 48)) s in
    if leb 48 (code c) && leb (code c) 57 then rest else none

below : ℕ → Option ℕ → Option ℕ
below bound none = none
below bound (some n) = if ltb n bound then some n else none

-- at least one digit
digits_of : String → Option ℕ
digits_of String.[] = none
digits_of (String.◌∷◌ c s) = digits 0 (String.◌∷◌ c s)

-- `s.parse()` into an unsigned type with that many values: digits, after an optional `+`
unfoldable pub parse_unsigned : ℕ → String → Option ℕ
unfolding below digits_of
parse_unsigned bound String.[] = none
parse_unsigned bound (String.◌∷◌ c s) =
    below bound (if eqb (code c) b'+' then digits_of s else digits_of (String.◌∷◌ c s))

-- `var(…).ok().and_then(|v| v.parse().ok()).unwrap_or(default)`
unfoldable pub number : ℕ → ℕ → Option String → ℕ
number bound default none = default
number bound default (some text) = unwrap_or (parse_unsigned bound text) default

module _ (P : Platform) where
  unfoldable pub bootstrap_list : String → List String
  bootstrap_list text =
      let parts = split_char b',' text in
      filter (λ s. not (s == "")) (map P.trim (parts.0 ∷ parts.1))

  abbrev sigma_factor : Environment P → Option String → P.f32.Carrier
  sigma_factor E none = P.f32.literal 1 1
  sigma_factor E (some text) = unwrap_or (E.parse_f32 text) (P.f32.literal 1 1)

  -- the fields, with the address to bind to
  abbrev pub config_at : Environment P → String → NodeConfig P
  config_at E bind_addr = record {
    node_id = unwrap_or (E.var "SWEFT_NODE_ID") "__generate__";
    name = E.var "SWEFT_NAME";
    api_base = unwrap_or (E.var "SWEFT_API_BASE") (concat "http://" bind_addr);
    contact = E.var "SWEFT_CONTACT";
    bind_addr = bind_addr;
    db_path = E.var "SWEFT_DB";
    sync_interval_secs = number u64_mod 60 (E.var "SWEFT_SYNC_INTERVAL_SECS");
    bootstrap_peers = bootstrap_list (unwrap_or (E.var "SWEFT_BOOTSTRAP_PEERS") "");
    max_peers = number u64_mod 100 (E.var "SWEFT_MAX_PEERS");
    public_key = none;
    rate_limit_per_minute = number u32_mod 60 (E.var "SWEFT_RATE_LIMIT");
    reputation_vote_sigma_factor = sigma_factor E (E.var "SWEFT_REPUTATION_VOTE_SIGMA_FACTOR");
    operator_webhook_url = E.var "SWEFT_OPERATOR_WEBHOOK";
    probation_threshold = number u32_mod 10 (E.var "SWEFT_PROBATION_THRESHOLD");
  }

  -- `NodeConfig::from_env`, which panics with the text where this is an error
  unfoldable pub from_env : Environment P → Result (NodeConfig P) String
  from_env E = do
    bind_addr ←
        ok_or (E.parse_addr (unwrap_or (E.var "SWEFT_BIND") "0.0.0.0:3000"))
          "SWEFT_BIND must be a valid socket address (e.g. 0.0.0.0:3000)"
    ok (config_at E bind_addr)

  abbrev pub node_id_needs_generation : NodeConfig P → Bool
  node_id_needs_generation config = config.node_id == "__generate__"
