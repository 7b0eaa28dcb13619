-- ===== src/Examples/Runs.antt =====
-- Calls of the small runtime, and its tiles.
use text.Mathlib.Text.{starts_with}
use tile_mem.Common.{
  str_eq, if◌then◌else◌, is_empty, any, lookup, ok, contains, ◌+◌, String, ◌≡◌, refl, ◌↔◌, inl,
  ◌&&◌, ◌||◌, [],
}
use tile_mem.Runtime.States.{cpu_resident, TileStates, state_of, transition, mark_gpu_resident}
use tile_mem.Runtime.States.Moves.{Move, transition_iff, marked, mark_gpu_resident_lem}
use tile_mem.Runtime.Engine.{expert_prefix, lookup_tiles, plan, execute, prefetch_plan, new_runtime}
use tile_mem.Runtime.Engine.Residency.{Settled, Brought}
use tile_mem.Runtime.Engine.Calls.{answer, brought}
use tile_mem.Runtime.Engine.Plans.{lookup_tiles-contains, prefetch_plan-plan}
use tile_mem.Runtime.Engine.Service.{execute-answer, execute-Brought}
use tile_mem.Runtime.Engine.Reachable.{created, executed, prefetched, Reachable-Settled}
use tile_mem.Examples.{toy_manifest, toy_backends, toy_runtime, toy_request}

toy_runtime-Settled : Settled toy_runtime.tile_state
unfolding toy_runtime Settled state_of lookup
toy_runtime-Settled = λ k. inl refl

execute-answer_example :
    (execute toy_request toy_runtime).0
    ≡ answer toy_request (plan toy_request toy_runtime).0 toy_runtime
execute-answer_example = execute-answer toy_request toy_runtime toy_runtime-Settled

execute-Brought_example :
    Brought
      (brought toy_request (plan toy_request toy_runtime).0 toy_runtime)
      toy_runtime.tile_state
      (execute toy_request toy_runtime).1.tile_state
execute-Brought_example = execute-Brought toy_request toy_runtime toy_runtime-Settled

prefetch_plan-plan_example :
    ((plan toy_request (prefetch_plan toy_request toy_runtime)).0
      ≡ lookup_tiles toy_runtime.manifest toy_request)
    × ((plan toy_request (prefetch_plan toy_request toy_runtime)).1.metrics.async_plan_cache_hits
        ≡ toy_runtime.metrics.async_plan_cache_hits + 1)
unfolding toy_runtime
prefetch_plan-plan_example = prefetch_plan-plan toy_request toy_runtime refl

lookup_tiles-contains_example :
    contains "L0:E0:down:S1:N4-8" (lookup_tiles toy_manifest toy_request) ≡ (
      contains "L0:E0:down:S1:N4-8" toy_manifest.gpu_hot_tiles
      && (is_empty toy_request.topk
          || any (λ pair. starts_with "L0:E0:down:S1:N4-8" (expert_prefix pair)) toy_request.topk))
lookup_tiles-contains_example = lookup_tiles-contains toy_manifest toy_request "L0:E0:down:S1:N4-8"

transition_iff_example :
    ((s' : TileStates) × (transition "t" cpu_resident [] ≡ ok s'))
    ↔ Move (state_of "t" []) cpu_resident
transition_iff_example = transition_iff "t" cpu_resident []

mark_gpu_resident_lem_example :
    (s' : TileStates) × (mark_gpu_resident "t" [] ≡ ok s')
    × ((j : String)
        → state_of j s' ≡ (if str_eq "t" j then marked (state_of "t" []) else state_of j []))
mark_gpu_resident_lem_example = mark_gpu_resident_lem "t" []

Reachable-Settled_example :
    Settled
      (prefetch_plan toy_request
        (execute toy_request (new_runtime toy_manifest toy_backends)).1).tile_state
Reachable-Settled_example =
    Reachable-Settled toy_manifest toy_backends
      (prefetch_plan toy_request (execute toy_request (new_runtime toy_manifest toy_backends)).1)
      (prefetched toy_request (execute toy_request (new_runtime toy_manifest toy_backends)).1
        (executed toy_request (new_runtime toy_manifest toy_backends) created))
