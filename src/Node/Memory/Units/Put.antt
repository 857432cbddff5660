-- ===== src/Node/Memory/Units/Put.antt =====
-- `put_unit` of packages/node/src/storage/memory.rs and the map of the units.
use symantic_weft.Prelude.{
  none, some, String, ◌==◌, ◌≡◌, refl, ◌⊎◌, inl, inr, ok, err, if◌then◌else◌, Option-cases,
}
use symantic_weft.Prelude.Map.{lookup, lookup-insert_sorted}
use symantic_weft.Prelude.Map.Sorted.{insert_sorted-IsSorted, insert_sorted-All}
use symantic_weft.Platform.{Platform}
use symantic_weft.Core.Types.{SemanticUnit}
use symantic_weft.Node.Storage.{conflict}
use symantic_weft.Node.Memory.{Inner}
use symantic_weft.Node.Memory.Units.{put_unit}
use symantic_weft.Node.Memory.Units.Pages.{IsStored}

-- `put_unit` keeps the ids in order and the units under their own ids. Either the id was free, and
-- then the unit stands under it and every other id is as it was; or it was taken, and then the
-- answer is a conflict and the store is as it was.
pub put_unit_lem :
    (P : Platform) (u : SemanticUnit P) (s : Inner P)
    → IsStored s.units
    → IsStored (put_unit P u s).1.units
      × (((lookup u.id s.units ≡ none)
            × ((put_unit P u s).0 ≡ ok tt)
            × ((id : String)
                → lookup id (put_unit P u s).1.units
                  ≡ (if u.id == id then some u else lookup id s.units)))
          ⊎ ((v : SemanticUnit P) × (lookup u.id s.units ≡ some v)
              × (m : String) × (put_unit P u s ≡ (err (conflict m), s))))
unfolding put_unit
put_unit_lem P u s h = elim (Option-cases (lookup u.id s.units)) [
  | inl free ↦ rw free (
    record {
      sorted = insert_sorted-IsSorted u.id u s.units h.sorted;
      keyed = insert_sorted-All _ u.id u s.units refl h.keyed;
    },
    inl (refl, refl, λ id. lookup-insert_sorted u.id id u s.units),
  )
  | inr (v, taken) ↦ rw taken (h, inr (v, refl, _, refl))
]
