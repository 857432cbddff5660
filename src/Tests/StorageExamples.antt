-- ===== src/Tests/StorageExamples.antt =====
-- Examples for the theorems on packages/node/src/storage and the limiter.
use symantic_weft.Prelude.{
  ◌↔◌, ◌*◌, ◌-◌, ◌<◌, ◌≤◌, ok, err, true, false, none, some, [], ◌∷◌, ◌++◌, String, ◌≡◌, ◌⊎◌, refl,
  last?, length, if◌then◌else◌, ◌==◌, leb, eqb, arith,
}
use symantic_weft.Prelude.Map.{lookup}
use symantic_weft.Core.Types.{SemanticUnit}
use symantic_weft.NodeApi.{AgentProfile}
use symantic_weft.Node.Storage.{conflict}
use symantic_weft.Node.Memory.Units.{list_units, page, put_unit, passes}
use symantic_weft.Node.Memory.Units.Pages.{IsStored, remaining, list_units_pages}
use symantic_weft.Node.Memory.Units.Put.{put_unit_lem}
use symantic_weft.Node.Memory.Agents.{is_full, increment_agent_contribution}
use symantic_weft.Node.Memory.Agents.Laws.{contribute_times, graduation}
use symantic_weft.Node.Memory.Follows.{add_follow, remove_follow, is_following}
use symantic_weft.Node.Memory.Follows.Laws.{is_following_lem}
use symantic_weft.Node.RateLimit.{Bucket, RateLimiter, check, new_limiter, count_request}
use symantic_weft.Node.RateLimit.Bounds.{passed, passed_bounded, refused_lem}
use symantic_weft.Tests.Sample.{demo, demo_store, demo_filter, demo_agent, first_unit, second_unit}

demo_store-IsStored : IsStored demo_store.units
demo_store-IsStored = record {
  sorted = ((refl, (refl, tt)), ((refl, tt), (tt, tt)));
  keyed = (refl, (refl, (refl, tt)));
}

two_listed :
    list_units demo (demo_filter 2) demo_store
    ≡ (ok (first_unit ∷ second_unit ∷ [], true), demo_store)
unfolding list_units passes page
two_listed = refl

list_units_pages_example :
    (2 ≤ 2)
    × (demo_store ≡ demo_store)
    × (true ≡ false → first_unit ∷ second_unit ∷ [] ≡ remaining (demo_filter 2) demo_store)
    × (true ≡ true
        → (u : SemanticUnit demo) × (last? (first_unit ∷ second_unit ∷ []) ≡ some u)
          × (length (first_unit ∷ second_unit ∷ []) ≡ 2)
          × ((first_unit ∷ second_unit ∷ [])
                ++ remaining (record (demo_filter 2) { after = some u.id }) demo_store
              ≡ remaining (demo_filter 2) demo_store))
list_units_pages_example =
    list_units_pages demo (demo_filter 2) demo_store demo_store (first_unit ∷ second_unit ∷ []) true
      demo_store-IsStored (omega arith) two_listed

put_unit_lem_example :
    IsStored (put_unit demo first_unit demo_store).1.units
    × (((lookup first_unit.id demo_store.units ≡ none)
          × ((put_unit demo first_unit demo_store).0 ≡ ok tt)
          × ((id : String)
              → lookup id (put_unit demo first_unit demo_store).1.units
                ≡ (if first_unit.id == id then some first_unit else lookup id demo_store.units)))
        ⊎ ((v : SemanticUnit demo) × (lookup first_unit.id demo_store.units ≡ some v)
            × (m : String) × (put_unit demo first_unit demo_store
                ≡ (err (conflict m), demo_store))))
put_unit_lem_example = put_unit_lem demo first_unit demo_store demo_store-IsStored

ann_registered : lookup "ann" demo_store.agents ≡ some demo_agent
unfolding lookup
ann_registered = refl

graduation_example :
    ((q : AgentProfile demo) × (lookup "ann" (contribute_times 2 "ann" 3 demo_store).agents
        ≡ some q)
      × (q.contribution_count ≡ 2)
      × (q.did ≡ "ann")
      × (q.reputation ≡ 500)
      × (is_full q.status ≡ leb 3 2))
    × ((increment_agent_contribution demo "ann" 3 (contribute_times 2 "ann" 3 demo_store)).0
        ≡ ok (eqb 3 3))
graduation_example =
    graduation demo demo_agent 3 2 "ann" demo_store refl refl (omega arith) (omega arith)
      ann_registered

abbrev demo_limiter : RateLimiter
demo_limiter = record { buckets = []; max_per_window = 1; window = 60000000000 }

passed_bounded_example :
    (passed "ip" ((5, "ip") ∷ (6, "ip") ∷ []) demo_limiter ≤ 2 * 1)
    × (lookup "ip" demo_limiter.buckets ≡ none
        → passed "ip" ((5, "ip") ∷ (6, "ip") ∷ []) demo_limiter ≤ 1)
passed_bounded_example =
    passed_bounded demo_limiter "ip" 5 ((5, "ip") ∷ (6, "ip") ∷ []) (omega arith) (omega arith)
      ((omega arith, omega arith), ((omega arith, omega arith), tt))

abbrev full_bucket : Bucket
full_bucket = record { count = 1; window_start = 5 }

refused_now :
    (check 6 "ip" (record (new_limiter 1) { buckets = ("ip", full_bucket) ∷ [] })).0 ≡ err 59
unfolding check count_request new_limiter lookup
refused_now = refl

refused_lem_example :
    (0 < 1)
    × ((1 ≤ 59) × (59 ≤ 60))
    × ((b : Bucket) × (lookup "ip" (("ip", full_bucket) ∷ []) ≡ some b)
        × (1 ≤ b.count)
        × (6 - b.window_start < 60000000000)
        × (lookup "ip"
              (check 6 "ip"
                (record (new_limiter 1) { buckets = ("ip", full_bucket) ∷ [] })).1.buckets
            ≡ some b))
refused_lem_example = refused_lem 1 6 59 "ip" (("ip", full_bucket) ∷ []) refused_now

abbrev ann : String
ann = "ann"

abbrev cid : String
cid = "cid"

is_following_lem_example :
    (((is_following demo "ann" "cid" (add_follow demo "ann" "cid" demo_store).1).0 ≡ ok true)
      ↔ (((is_following demo "ann" "cid" demo_store).0 ≡ ok true) ⊎ ((ann ≡ ann) × (cid ≡ cid))))
    × (((is_following demo "ann" "cid" (remove_follow demo "ann" "cid" demo_store).1).0 ≡ ok true)
        ↔ (((is_following demo "ann" "cid" demo_store).0 ≡ ok true)
            × (¬ ((ann ≡ ann) × (cid ≡ cid)))))
is_following_lem_example = is_following_lem demo "ann" "cid" "ann" "cid" demo_store
