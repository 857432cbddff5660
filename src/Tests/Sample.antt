-- ===== src/Tests/Sample.antt =====
-- A platform whose floating point is thousandths, and a few units, agents and peers.
use symantic_weft.Prelude.{
  ℕ, ◌+◌, ◌-◌, ◌*◌, ◌/◌, true, not, Option, none, some, List, [], ◌∷◌, String, ◌==◌, ltb, leb, eqb,
  max, if◌then◌else◌, Result, ok,
}
use symantic_weft.Platform.{Platform, Float}
use symantic_weft.Core.Types.{
  SemanticUnit, Reference, Visibility, network, limited, assertion, supports,
}
use symantic_weft.NodeApi.{AgentProfile, probationary}
use symantic_weft.Node.Storage.{UnitFilter}
use symantic_weft.Node.Memory.{Inner}
use symantic_weft.Node.State.{AppState, NodeConfig}

abbrev pub thousandths : Float
thousandths = record {
  Carrier = ℕ;
  literal = λ n d. (1000 * n) / d;
  le = leb;
  lt = ltb;
  eq = eqb;
  add = λ a b. a + b;
  sub = λ a b. a - b;
  mul = λ a b. (a * b) / 1000;
  div = λ a b. (1000 * a) / b;
  sqrt = λ a. a;
  max = max;
  is_finite = λ a. true;
}

abbrev pub demo : Platform
demo = record {
  f64 = thousandths;
  f32 = thousandths;
  widen = λ a. a;
  narrow = λ a. a;
  Value = String;
  value_eq = λ a b. a == b;
  uuid_version = λ s. if s == "" then none else some 7;
  is_rfc3339 = λ s. not (s == "");
  trim = λ s. s;
  trim_end_matches = λ pat s. s;
  debug = λ s. s;
  decimal = λ n. "n";
  display_f64 = λ a. "0";
  fixed3 = λ a. "0.000";
}

abbrev pub demo_unit :
    String
    → String
    → Option (List Reference)
    → Option Visibility
    → Option (List String)
    → SemanticUnit demo
demo_unit id author references visibility audience = record {
  id = id;
  unit_type = assertion;
  content = "text";
  created_at = "2026-01-01T00:00:00Z";
  author = author;
  confidence = some 900;
  assumptions = none;
  source = none;
  references = references;
  visibility = visibility;
  audience = audience;
  proof = none;
  extensions = ("x-com.example", "1") ∷ [];
}

abbrev pub first_unit : SemanticUnit demo
first_unit = demo_unit "a" "ann" none none none

abbrev pub second_unit : SemanticUnit demo
second_unit =
    demo_unit "b" "bob" (some (record { id = "a"; rel = supports } ∷ [])) (some network) none

abbrev pub third_unit : SemanticUnit demo
third_unit =
    demo_unit "c" "bob" (some (record { id = "b"; rel = supports } ∷ [])) (some limited)
      (some ("ann" ∷ []))

abbrev pub demo_agent : AgentProfile demo
demo_agent = record {
  did = "ann";
  inbox_url = "https://n/agents/ann/inbox";
  display_name = none;
  public_key = none;
  status = probationary;
  contribution_count = 0;
  reputation = 500;
}

abbrev pub demo_store : Inner demo
demo_store = record {
  units = ("a", first_unit) ∷ ("b", second_unit) ∷ ("c", third_unit) ∷ [];
  unit_credibility = [];
  agents = ("ann", demo_agent) ∷ [];
  follows = ("ann", "bob") ∷ [];
  peers = [];
  cursors = [];
  node_config = [];
  inbox = [];
}

abbrev pub demo_state : AppState demo
demo_state = record { storage = demo_store; broadcast = []; spawned = [] }

abbrev pub demo_filter : ℕ → UnitFilter
demo_filter limit = record {
  unit_types = [];
  author = none;
  since = none;
  after = none;
  limit = limit;
  visibilities = [];
  network_for_authors = [];
}

abbrev pub accepts : SemanticUnit demo → Result (Unit {0}) String
accepts u = ok tt

abbrev pub keep : String → String
keep s = s

abbrev pub demo_config : NodeConfig demo
demo_config = record {
  node_id = "me";
  name = none;
  api_base = "https://n/v1";
  contact = none;
  bind_addr = "127.0.0.1:3000";
  db_path = none;
  sync_interval_secs = 60;
  bootstrap_peers = [];
  max_peers = 100;
  public_key = none;
  rate_limit_per_minute = 60;
  reputation_vote_sigma_factor = 1000;
  operator_webhook_url = none;
  probation_threshold = 10;
}
