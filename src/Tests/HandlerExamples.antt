-- ===== src/Tests/HandlerExamples.antt =====
-- Examples for the theorems on packages/node/src/handlers.
use symantic_weft.Prelude.{
  err, false, ◌==◌, ℕ, ok, true, none, some, [], ◌∷◌, ◌++◌, ◌≡◌, ◌↔◌, ◌⊎◌, refl, if◌then◌else◌,
  is_some,
}
use symantic_weft.Prelude.Map.{insert, lookup}
use symantic_weft.Core.Types.{effective_visibility}
use symantic_weft.Core.Types.Equality.{unit_eq}
use symantic_weft.Core.Validation.{
  validate_unit, is_extension_name, is_uuid_v7, check_confidence, in_unit_interval,
  check_assumptions, check_references, check_extensions, check_audience, check_proof,
}
use symantic_weft.Core.Validation.Conforms.{Conforms}
use symantic_weft.Node.Memory.Units.{put_unit, get_unit, get_referencing_units}
use symantic_weft.Node.Memory.Instance.{memory}
use symantic_weft.Node.State.{fan_out}
use symantic_weft.Node.Handlers.Units.{
  submit, check_author, get_by_id, list, is_public, UnitQueryParams,
}
use symantic_weft.Node.Handlers.Units.Fanout.{local_fanout}
use symantic_weft.Node.Handlers.Units.Submit.{submit_ok, submit_keeps}
use symantic_weft.Node.Handlers.Units.Visible.{IsVisible, get_by_id_iff}
use symantic_weft.Node.Handlers.Units.Listed.{IsListed, memory-IsUnitStore, list-IsVisible}
use symantic_weft.Node.Handlers.Units.Recipients.{holds, IsRecipient, local_fanout_reaches}
use symantic_weft.NodeApi.{AgentProfile, ReputationUpdate}
use symantic_weft.Node.Error.{AppError}
use symantic_weft.Node.Handlers.Agents.{update_reputation, is_outside}
use symantic_weft.Node.Handlers.Agents.Votes.{
  threshold_in, voted, with_agent, update_reputation_cases,
}
use symantic_weft.Core.Graph.{
  add, get, subgraph, ancestors, bfs, bfs_loop, visit_all, neighbours, outgoing, descendants,
  incoming, visit, from_units, insert_ids, get_each,
}
use symantic_weft.Node.Handlers.Units.Subgraph.{show_subgraph}
use symantic_weft.Tests.Sample.{
  demo, demo_store, demo_state, first_unit, second_unit, third_unit, accepts, keep, demo_config,
}

get_by_id_iff_example :
    (get_by_id demo (some "ann") "b" demo_state ≡ (ok second_unit, demo_state)) ↔ (
      (is_some (demo.uuid_version "b") ≡ true)
      × (lookup "b" demo_state.storage.units ≡ some second_unit)
      × IsVisible demo_state.storage (some "ann") second_unit (effective_visibility second_unit)
      × (demo_state ≡ demo_state))
get_by_id_iff_example = get_by_id_iff demo (some "ann") "b" second_unit demo_state demo_state

abbrev no_params : UnitQueryParams
no_params = record { unit_type = []; author = none; since = none; after = none; limit = none }

list-IsVisible_example :
    IsListed
      (memory demo)
      memory-IsUnitStore
      keep
      no_params
      (some "ann")
      demo_store
      (list demo (memory demo) keep no_params (some "ann") demo_store)
list-IsVisible_example =
    list-IsVisible demo (memory demo) memory-IsUnitStore keep no_params (some "ann") demo_store

b_stored : lookup "b" demo_state.storage.units ≡ some second_unit
unfolding lookup
b_stored = refl

submit_keeps_example :
    lookup "b" (submit demo accepts none first_unit demo_state).1.storage.units ≡ some second_unit
submit_keeps_example = submit_keeps demo accepts none first_unit demo_state "b" second_unit b_stored

again : submit demo accepts none first_unit demo_state ≡ (ok (200, first_unit), demo_state)
unfolding submit validate_unit is_uuid_v7 check_confidence in_unit_interval check_assumptions
    check_references check_extensions is_extension_name check_audience check_proof check_author
    put_unit lookup get_unit unit_eq
again = refl

submit_ok_example :
    Conforms demo first_unit
    × ((is_public (effective_visibility first_unit) ≡ true) ⊎ (none ≡ some first_unit.author))
    × (((lookup "a" demo_state.storage.units ≡ none)
          × ◌≡◌ {A = ℕ} 200 201
          × (first_unit ≡ first_unit)
          × (lookup "a" demo_state.storage.units ≡ some first_unit)
          × (demo_state.broadcast ≡ (
              if is_public (effective_visibility first_unit)
              then demo_state.broadcast ++ (first_unit ∷ [])
              else demo_state.broadcast))
          × (demo_state.spawned ≡ demo_state.spawned ++ (fan_out first_unit ∷ [])))
        ⊎ ((lookup "a" demo_state.storage.units ≡ some first_unit)
            × (unit_eq demo first_unit first_unit ≡ true)
            × ◌≡◌ {A = ℕ} 200 200
            × (demo_state ≡ demo_state)))
submit_ok_example =
    submit_ok demo accepts none first_unit first_unit 200 demo_state demo_state again

local_fanout_reaches_example :
    ((local_fanout demo (memory demo) third_unit demo_store).0 ≡ ok tt)
    × ((holds (local_fanout demo (memory demo) third_unit demo_store).1 "ann" "c" ≡ true) ↔ (
        (holds demo_store "ann" "c" ≡ true)
        ⊎ (("c" ≡ third_unit.id)
            × IsRecipient demo_store third_unit (effective_visibility third_unit) "ann")))
local_fanout_reaches_example = local_fanout_reaches demo third_unit demo_store "ann" "c"

abbrev demo_vote : ReputationUpdate demo
demo_vote = record { reputation = 900 }

update_reputation_cases_example :
    ((e : AppError) × (update_reputation demo demo_config "bob" "ann" demo_vote demo_state
        ≡ (err e, demo_state)))
    ⊎ ((is_outside demo 900 ≡ false)
        × (("ann" == "bob") ≡ false)
        × (voter : AgentProfile demo) × (lookup "ann" demo_state.storage.agents ≡ some voter)
        × (demo.f32.lt voter.reputation (threshold_in demo_config demo_state) ≡ false)
        × (target : AgentProfile demo) × (lookup "bob" demo_state.storage.agents ≡ some target)
        × (update_reputation demo demo_config "bob" "ann" demo_vote demo_state ≡ (
          ok (200, voted target 900 voter),
          with_agent "bob" (voted target 900 voter) demo_state,
        )))
update_reputation_cases_example =
    update_reputation_cases demo demo_config "bob" "ann" demo_vote demo_state

-- Around the public first unit the subgraph holds a network unit and a limited one.
subgraph_shows_all :
    show_subgraph demo "a" none demo_state
    ≡ (ok (some (third_unit ∷ second_unit ∷ first_unit ∷ [])), demo_state)
unfolding show_subgraph get_unit lookup add get get_referencing_units subgraph insert ancestors bfs
    bfs_loop visit_all neighbours outgoing descendants incoming visit from_units insert_ids get_each
subgraph_shows_all = refl
