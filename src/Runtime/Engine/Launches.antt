-- ===== src/Runtime/Engine/Launches.antt =====
-- The bookkeeping after a launch.
use tile_mem.Common.{
  str_eq_iff, Bool-cases, Dict, insert, get_or, ok, String, ◌≡◌, refl, ap, ◌∙◌, ◌↔◌, inl, inr, true,
  List, [], ◌∷◌, arith,
}
use tile_mem.Runtime.States.{
  Residency, cold_storage, cpu_resident, pinned_ready, gpu_prefetching, gpu_resident, gpu_executing,
  evicting, kt_fallback_state, residency_eq, TileStates, state_of,
}
use tile_mem.Runtime.States.Moves.{state_of-insert, state_of-insert_self, step}
use tile_mem.Runtime.Metrics.{RuntimeMetrics, record_dtype}
use tile_mem.Runtime.Engine.{Runtime, run_tile, settle_tile, settle_tiles}

run_tile_lem :
    (tile : String) (s : TileStates)
    → state_of tile s ≡ gpu_resident
    → run_tile tile s ≡ ok (insert tile gpu_resident (insert tile gpu_executing s))
unfolding run_tile
run_tile_lem tile s e =
    let s₁ = insert tile gpu_executing s in
    rw (step tile gpu_resident gpu_executing s e refl)
      (step tile gpu_executing gpu_resident s₁ (state_of-insert_self tile gpu_executing s) refl)

pub on_gpu_iff : (r : Residency) → (residency_eq r gpu_resident ≡ true) ↔ (r ≡ gpu_resident)
on_gpu_iff r = (on_gpu r, λ e. rw e refl)
  where
    on_gpu : (r : Residency) → residency_eq r gpu_resident ≡ true → r ≡ gpu_resident
    on_gpu gpu_resident h = refl
    on_gpu cold_storage h = cc
    on_gpu cpu_resident h = cc
    on_gpu pinned_ready h = cc
    on_gpu gpu_prefetching h = cc
    on_gpu gpu_executing h = cc
    on_gpu evicting h = cc
    on_gpu kt_fallback_state h = cc

-- The same tile states, key by key.
unfoldable pub Same : TileStates → TileStates → Type 0
Same s s' = (j : String) → state_of j s' ≡ state_of j s

run_tile-Same :
    (tile : String) (s : TileStates)
    → state_of tile s ≡ gpu_resident
    → Same s (insert tile gpu_resident (insert tile gpu_executing s))
unfolding Same
run_tile-Same tile s e = λ j.
    rw
      (
        state_of-insert tile j gpu_resident (insert tile gpu_executing s),
        state_of-insert tile j gpu_executing s,
      )
      (ground (arith, str_eq_iff tile j, ap (λ x. state_of x s) {x = tile} {y = j}))

-- The count of the tiles' types, by the manifest's map.
unfoldable pub record_dtypes : Dict String → List String → RuntimeMetrics → RuntimeMetrics
unfolding get_or
record_dtypes dtypes [] m = m
record_dtypes dtypes (tile ∷ tiles) m =
    record_dtypes dtypes tiles (record_dtype (get_or tile "unknown" dtypes) m)

module _ {R : Type 0} where
  abbrev pub settled : List String → TileStates → Runtime R → Runtime R
  settled tiles s rt = record rt {
    tile_state = s;
    metrics = record_dtypes rt.manifest.layout.tile_dtype_map tiles rt.metrics;
  }

  settle_tile_lem :
      (tile : String) (rt : Runtime R)
      → (s : TileStates) × (settle_tile tile rt ≡ ok (settled (tile ∷ []) s rt))
        × Same rt.tile_state s
  unfolding settle_tile Same record_dtypes
  settle_tile_lem tile rt =
      elim (Bool-cases (residency_eq (state_of tile rt.tile_state) gpu_resident)) [
        | inl e ↦
            let e' : state_of tile rt.tile_state ≡ gpu_resident =
              (on_gpu_iff (state_of tile rt.tile_state)).0 e in
            (
              insert tile gpu_resident (insert tile gpu_executing rt.tile_state),
              rw (e, run_tile_lem tile rt.tile_state e') refl,
              run_tile-Same tile rt.tile_state e',
            )
        | inr e ↦ (rt.tile_state, rw e refl, λ j. refl)
      ]

  -- The bookkeeping never raises.
  pub settle_tiles_lem :
      (tiles : List String) (rt : Runtime R)
      → (s : TileStates) × (settle_tiles tiles rt ≡ ok (settled tiles s rt)) × Same rt.tile_state s
  unfolding settle_tiles Same record_dtypes
  settle_tiles_lem [] rt = (rt.tile_state, refl, λ j. refl)
  settle_tiles_lem (tile ∷ tiles) rt =
      let (s, e, b) = settle_tile_lem tile rt in
      let (s', e', b') = settle_tiles_lem tiles (settled (tile ∷ []) s rt) in
      (s', rw e e', λ j. b' j ∙ b j)
