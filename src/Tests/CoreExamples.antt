-- ===== src/Tests/CoreExamples.antt =====
-- Examples for the theorems on packages/core.
use symantic_weft.Prelude.{
  none, ok, true, some, List, [], ◌∷◌, String, ◌≡◌, ◌≢◌, ◌↔◌, ◌⊎◌, refl, Among,
}
use symantic_weft.Prelude.Map.{lookup}
use symantic_weft.Core.Types.{SemanticUnit, inference, supports, network}
use symantic_weft.Core.Types.Names.{
  unit_type_from_str, rel_type_from_str, visibility_from_str, display_unit_type, display_rel_type,
  display_visibility, unit_type_from_str_iff, rel_type_from_str_iff, visibility_from_str_iff,
}
use symantic_weft.Core.Validation.{
  is_uuid_v7, check_confidence, in_unit_interval, check_assumptions, check_references,
  check_extensions, check_audience, check_proof, validate_unit, is_extension_name, IsExtensionName,
  is_extension_name_iff,
}
use symantic_weft.Core.Validation.Conforms.{Conforms, validate_unit_iff}
use symantic_weft.Core.Graph.{Graph, outward, inward, from_units, bfs, subgraph}
use symantic_weft.Core.Graph.Bfs.{from_units-IsIndexed}
use symantic_weft.Core.Graph.Bfs.Loop.{Reach, bfs_correct}
use symantic_weft.Core.Graph.Subgraph.{subgraph_correct}
use symantic_weft.Tests.Sample.{demo, demo_unit, first_unit, second_unit, third_unit}

abbrev demo_graph : Graph demo
demo_graph = from_units demo (first_unit ∷ second_unit ∷ third_unit ∷ [])

bfs_correct_example :
    (r : List (SemanticUnit demo)) × (bfs demo demo_graph "c" outward ≡ some r)
    × ((u : SemanticUnit demo)
        → Among u r ↔ (
            (lookup u.id demo_graph.units ≡ some u)
            × (u.id ≢ "c")
            × Reach demo demo_graph outward "c" u.id))
bfs_correct_example =
    bfs_correct demo demo_graph "c" outward
      (from_units-IsIndexed (first_unit ∷ second_unit ∷ third_unit ∷ []))

subgraph_correct_example :
    (s : Graph demo) × (subgraph demo demo_graph "b" ≡ some s)
    × ((x : String) (u : SemanticUnit demo)
        → (lookup x s.units ≡ some u) ↔ (
            (lookup x demo_graph.units ≡ some u)
            × (Reach demo demo_graph outward "b" x ⊎ Reach demo demo_graph inward "b" x)))
subgraph_correct_example =
    subgraph_correct demo demo_graph "b"
      (from_units-IsIndexed (first_unit ∷ second_unit ∷ third_unit ∷ []))

validate_unit_iff_example : (validate_unit demo first_unit ≡ ok tt) ↔ Conforms demo first_unit
validate_unit_iff_example = validate_unit_iff demo first_unit

abbrev specified_unit : SemanticUnit demo
specified_unit = demo_unit "019526b2-f68a-7c3e-a0b4-1d2e3f4a5b6c" "ann" none none none

is_extension_name_iff_example :
    (is_extension_name "x-com.example" ≡ true) ↔ IsExtensionName "x-com.example"
is_extension_name_iff_example = is_extension_name_iff "x-com.example"

unit_type_from_str_iff_example :
    (unit_type_from_str "inference" ≡ ok inference) ↔ ("inference" ≡ display_unit_type inference)
unit_type_from_str_iff_example = unit_type_from_str_iff "inference" inference

rel_type_from_str_iff_example :
    (rel_type_from_str "supports" ≡ ok supports) ↔ ("supports" ≡ display_rel_type supports)
rel_type_from_str_iff_example = rel_type_from_str_iff "supports" supports

visibility_from_str_iff_example :
    (visibility_from_str "network" ≡ ok network) ↔ ("network" ≡ display_visibility network)
visibility_from_str_iff_example = visibility_from_str_iff "network" network

-- A sample unit passes validation.
first_unit_passes : validate_unit demo first_unit ≡ ok tt
unfolding validate_unit is_uuid_v7 check_confidence in_unit_interval check_assumptions
    check_references check_extensions is_extension_name check_audience check_proof
first_unit_passes = refl
