-- ===== src/Runtime/Engine/Reachable.antt =====
-- The runtimes that calls lead to.
use tile_mem.Common.{lookup, ◌≡◌, refl, sym, subst, inl, Option, arith}
use tile_mem.Mir.Enums.{Backend}
use tile_mem.Mir.Manifest.{Manifest}
use tile_mem.Runtime.Engine.{Request, BackendHandle, Runtime, execute, prefetch_plan, new_runtime}
use tile_mem.Runtime.Engine.Residency.{Settled}
use tile_mem.Runtime.Engine.Service.{execute-Settled}
use tile_mem.Runtime.States.{state_of}

-- From a new runtime, by any sequence of calls of `execute` and `prefetch_plan`.
pub data Reachable {R : Type 0} (m : Manifest) (backends : Backend → Option (BackendHandle R))
    : Runtime R → Type 0 where
  created : Reachable m backends (new_runtime m backends)
  executed :
      (q : Request R) (rt : Runtime R)
      → Reachable m backends rt
      → Reachable m backends (execute q rt).1
  prefetched :
      (q : Request R) (rt : Runtime R)
      → Reachable m backends rt
      → Reachable m backends (prefetch_plan q rt)

module _ {R : Type 0} where
  prefetch_plan-tile_state :
      (q : Request R) (rt : Runtime R) → (prefetch_plan q rt).tile_state ≡ rt.tile_state
  unfolding prefetch_plan
  prefetch_plan-tile_state q rt = ground arith

  new_runtime-Settled :
      (m : Manifest) (backends : Backend → Option (BackendHandle R))
      → Settled (new_runtime m backends).tile_state
  unfolding Settled new_runtime state_of lookup
  new_runtime-Settled m backends = λ k. inl refl

  -- In every runtime that a sequence of calls leads to from a new one, each tile lies in cold storage
  -- or on the GPU: none is left on the way between them.
  pub Reachable-Settled :
      (m : Manifest) (backends : Backend → Option (BackendHandle R)) (rt : Runtime R)
      → Reachable m backends rt
      → Settled rt.tile_state
  Reachable-Settled m backends rt created = new_runtime-Settled m backends
  Reachable-Settled m backends rt (executed q rt₀ h) =
      execute-Settled q rt₀ (Reachable-Settled m backends rt₀ h)
  Reachable-Settled m backends rt (prefetched q rt₀ h) =
      subst Settled (sym (prefetch_plan-tile_state q rt₀)) (Reachable-Settled m backends rt₀ h)
