-- ===== src/Runtime/Engine/Outcomes.antt =====
-- The whole of `execute`: the answer of each branch, the tiles and the counters it leaves.
use tile_mem.Common.{
  Bool-cases, Option-cases, ok, err, Result-cases, ◌+◌, String, ◌≡◌, refl, ◌∙◌, inl, inr, true,
  none, some, List,
}
use tile_mem.Runtime.Engine.{
  Request, launched, BackendHandle, Runtime, check_gates, missing_tiles, select_backend, fallback,
  make_resident, count_launch, launch, answered, execute_resident, execute_plan,
}
use tile_mem.Runtime.Engine.Residency.{Settled, Brought, materialize_missing_lem}
use tile_mem.Runtime.Engine.Launches.{Same, record_dtypes, settled, settle_tiles_lem}
use tile_mem.Runtime.Engine.Calls.{
  SameCounters, launch-SameCounters, answer, Effect, Effect-then, closed_gate-Effect, counted,
  resident, open_gate-Effect,
}
use tile_mem.Runtime.States.{TileStates}

module _ {R : Type 0} where
  -- What a call has done: it answered, and its effect is the one of its plan.
  unfoldable pub Done : Request R → List String → Runtime R → Type 0
  Done q planned rt =
      (rt' : Runtime R) × (execute_plan q planned rt ≡ (answer q planned rt, rt'))
      × Effect q planned rt rt'

  launch-Done :
      (q : Request R) (planned : List String) (rt rt' : Runtime R) (backend : BackendHandle R)
      → Effect q planned rt rt'
      → (rt'' : Runtime R) × (launch q planned backend rt' ≡ (
        elim (backend.run q rt'.manifest) [ ok result ↦ ok (launched result) | err e ↦ err e ],
        rt'',
      ))
        × Effect q planned rt rt''
  unfolding launch
  launch-Done q planned rt rt' backend h = elim (Result-cases (backend.run q rt'.manifest)) [
    | inr (e, fails) ↦ (rt', rw fails refl, h)
    | inl (result, runs) ↦
        let m = count_launch backend.name rt'.metrics in
        let counted = record rt' { metrics = m } in
        let (s, settles, same) = settle_tiles_lem planned counted in
        let m' = record_dtypes rt'.manifest.layout.tile_dtype_map planned m in
        (
          settled planned s counted,
          rw (runs, settles) refl,
          Effect-then q planned rt rt' s m' h same (
              launch-SameCounters backend.name rt'.manifest.layout.tile_dtype_map planned
                rt'.metrics),
        )
  ]

  open_gate :
      (q : Request R) (planned : List String) (rt rt' : Runtime R)
      → check_gates rt.manifest q planned ≡ true
      → make_resident planned rt ≡ ok rt'
      → execute_plan q planned rt ≡ execute_resident q planned rt'
  unfolding execute_plan
  open_gate q planned rt rt' gates moves = rw (gates, moves) refl

  no_backend :
      (q : Request R) (planned : List String) (rt : Runtime R)
      → select_backend rt.backends rt.manifest.backend_priority ≡ none
      → execute_resident q planned rt ≡ answered (fallback q "backend_unavailable" rt)
  unfolding execute_resident
  no_backend q planned rt e = rw (execute_resident, e) refl

  a_backend :
      (q : Request R) (planned : List String) (rt : Runtime R) (backend : BackendHandle R)
      → select_backend rt.backends rt.manifest.backend_priority ≡ some backend
      → execute_resident q planned rt ≡ launch q planned backend rt
  unfolding execute_resident
  a_backend q planned rt backend e = rw (execute_resident, e) refl

  execute_resident-Done :
      (q : Request R) (planned : List String) (s : TileStates) (rt : Runtime R)
      → check_gates rt.manifest q planned ≡ true
      → Brought (missing_tiles rt.tile_state planned) rt.tile_state s
      → (rt'' : Runtime R) × (execute_resident q planned (resident planned s rt)
          ≡ (answer q planned rt, rt''))
        × Effect q planned rt rt''
  unfolding fallback SameCounters Same
  execute_resident-Done q planned s rt gates b =
      let rt' = resident planned s rt in
      let effect = open_gate-Effect q planned s rt gates b in
      elim (Option-cases (select_backend rt.backends rt.manifest.backend_priority)) [
        | inl none_there ↦ (
          (fallback q "backend_unavailable" rt').1,
          rw (no_backend q planned rt' none_there, gates, none_there) refl,
          Effect-then q planned rt rt' s
              (record (rt'.metrics) { fallback_count = rt.metrics.fallback_count + 1 }) effect
              (λ j. refl) (refl, refl, refl),
        )
        | inr (backend, there) ↦
            let (rt'', runs, after) = launch-Done q planned rt rt' backend effect in
            (rt'', rw (a_backend q planned rt' backend there, gates, there) runs, after)
      ]

  pub execute_plan-Done :
      (q : Request R) (planned : List String) (rt : Runtime R)
      → Settled rt.tile_state
      → Done q planned rt
  unfolding Done execute_plan make_resident fallback
  execute_plan-Done q planned rt h = elim (Bool-cases (check_gates rt.manifest q planned)) [
    | inr closed ↦
        ((fallback q "gate_failed" rt).1, rw closed refl, closed_gate-Effect q planned rt closed)
    | inl gates ↦
        let missing = missing_tiles rt.tile_state planned in
        let (s, moves, b) = materialize_missing_lem missing (counted planned rt) h in
        let (rt'', answers, effect) = execute_resident-Done q planned s rt gates b in
        (rt'', open_gate q planned rt (resident planned s rt) gates moves ∙ answers, effect)
  ]
