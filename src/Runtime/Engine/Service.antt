-- ===== src/Runtime/Engine/Service.antt =====
-- What `execute` guarantees to its caller.
use tile_mem.Common.{◌≡◌, sym, ap, subst}
use tile_mem.Runtime.Engine.{Request, Runtime, plan, execute}
use tile_mem.Runtime.Engine.Residency.{Settled, Brought, Brought-Settled}
use tile_mem.Runtime.Engine.Calls.{answer, brought, Effect}
use tile_mem.Runtime.Engine.Plans.{execute-Done}

module _ {R : Type 0} where
  -- From a runtime whose tiles lie in cold storage or on the GPU, `execute` answers with the fallback
  -- when a gate fails or no backend is there, and else with what the selected backend returns or
  -- raises: its own bookkeeping raises nothing.
  pub execute-answer :
      (q : Request R) (rt : Runtime R)
      → Settled rt.tile_state
      → (execute q rt).0 ≡ answer q (plan q rt).0 rt
  execute-answer q rt h = let (rt', e, effect) = execute-Done q rt h in ap (λ x. x.0) e

  execute-Effect :
      (q : Request R) (rt : Runtime R)
      → Settled rt.tile_state
      → Effect q (plan q rt).0 rt (execute q rt).1
  execute-Effect q rt h =
      let (rt', e, effect) = execute-Done q rt h in
      subst (λ x. Effect q (plan q rt).0 rt x) (sym (ap (λ x. x.1) e)) effect

  -- From a runtime whose tiles lie in cold storage or on the GPU: after `execute` the planned tiles
  -- are on the GPU if the gates passed, and every other tile is where it was.
  pub execute-Brought :
      (q : Request R) (rt : Runtime R)
      → Settled rt.tile_state
      → Brought (brought q (plan q rt).0 rt) rt.tile_state (execute q rt).1.tile_state
  execute-Brought q rt h = (execute-Effect q rt h).states

  -- If every tile lies in cold storage or on the GPU before `execute`, it does so after it.
  pub execute-Settled :
      (q : Request R) (rt : Runtime R) → Settled rt.tile_state → Settled (execute q rt).1.tile_state
  execute-Settled q rt h =
      Brought-Settled (brought q (plan q rt).0 rt) rt.tile_state (execute q rt).1.tile_state h
        (execute-Brought q rt h)
