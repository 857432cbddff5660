-- ===== src/Tests/SqlExamples.antt =====
-- Examples for the theorems on packages/node/src/storage/sqlite.rs.
use symantic_weft.Prelude.{
  ◌+◌, ◌<◌, some, List, [], ◌∷◌, String, ◌==◌, ok, err, ◌≡◌, refl, arith, u32_mod, if◌then◌else◌,
  Result, subst,
}
use mathlib.Core.Option.{some-injective}
use symantic_weft.Prelude.Map.{lookup, insert, insert_sorted}
use symantic_weft.Core.Types.{SemanticUnit}
use symantic_weft.NodeApi.{AgentProfile, new_peer}
use symantic_weft.Node.Memory.{empty}
use symantic_weft.Node.Memory.Units.{put_unit, list_units}
use symantic_weft.Node.Memory.Agents.{put_agent}
use symantic_weft.Node.Storage.{internal}
use symantic_weft.Node.Sqlite.{Engine, Connection, schema}
use symantic_weft.Node.Sqlite.Agents.{get_agent}
use symantic_weft.Node.Sqlite.Instance.{sqlite}
use symantic_weft.Node.Handlers.Units.Fanout.{local_fanout}
use symantic_weft.Node.Handlers.Units.Aborts.{local_fanout_aborts}
use symantic_weft.Node.Sqlite.Refines.Agree.{quiet}
use symantic_weft.Node.Sqlite.Refines.Calls.{
  Call, on_sqlite, on_memory, replies, AreAllowed, sqlite_refines_memory,
}
use symantic_weft.Tests.Sample.{demo, first_unit, second_unit, third_unit, demo_agent, demo_filter}

abbrev from_text : String → Result (SemanticUnit demo) String
from_text s = if s == "a" then ok first_unit else if s == "b" then ok second_unit else err "unknown"

abbrev demo_engine : Engine demo
demo_engine = record {
  to_json = λ u. ok u.id;
  from_json = from_text;
  out_of_range = λ n. "out of range";
  average = λ l. 0;
}

-- Two units, a page of one, an agent that contributes, and a peer.
abbrev demo_calls : List (Call demo)
demo_calls =
    Call.put_unit second_unit
    ∷ Call.put_unit first_unit
    ∷ Call.put_unit first_unit
    ∷ Call.list_units (demo_filter 1)
    ∷ Call.put_agent demo_agent
    ∷ Call.increment_agent_contribution "ann" 1
    ∷ Call.add_peer (new_peer demo "p" "https://p/v1")
    ∷ []

count_below :
    (p : AgentProfile demo) → some demo_agent ≡ some p → p.contribution_count + 1 < u32_mod
count_below p h =
    subst (λ (a : AgentProfile demo). a.contribution_count + 1 < u32_mod)
      (some-injective demo_agent p h) (omega arith)

demo_calls-AreAllowed : AreAllowed demo_engine demo_calls (empty demo)
unfolding AreAllowed on_memory put_unit list_units put_agent lookup insert insert_sorted new_peer
demo_calls-AreAllowed = (
  ("b", refl, refl),
  (
    ("a", refl, refl),
    (("a", refl, refl), (tt, (omega arith, (λ p h. count_below p h, (refl, tt))))),
  ),
)

sqlite_refines_memory_example :
    replies (on_sqlite demo_engine) demo_calls (quiet (schema demo))
    ≡ replies on_memory demo_calls (empty demo)
sqlite_refines_memory_example =
    sqlite_refines_memory demo demo_engine (λ x. refl) demo_calls demo_calls-AreAllowed

-- A storage whose next statement fails
abbrev locked : Connection demo
locked = record { tables = schema demo; outcomes = some "locked" ∷ [] }

abbrev unlocked : Connection demo
unlocked = record { tables = schema demo; outcomes = [] }

ann_unknown : (sqlite demo demo_engine).get_agent "ann" locked ≡ (err (internal "locked"), unlocked)
unfolding get_agent
ann_unknown = refl

local_fanout_aborts_example :
    local_fanout demo (sqlite demo demo_engine) third_unit locked
    ≡ (err (internal "locked"), unlocked)
local_fanout_aborts_example =
    local_fanout_aborts demo (sqlite demo demo_engine) third_unit [] [] "ann" (internal "locked")
      locked locked locked unlocked (refl, refl) refl ann_unknown
