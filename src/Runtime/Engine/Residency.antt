-- ===== src/Runtime/Engine/Residency.antt =====
-- Where the tiles of a runtime lie between calls.
use tile_mem.Common.{
  if◌then◌else◌, ℤ, pos, ◌+ℤ◌, +ℤ_zero, +ℤ_assoc, Dict, get_or, ok, contains, String, ◌≡◌, refl, ap,
  ◌⊎◌, List, [], ◌∷◌, arith,
}
use tile_mem.Runtime.States.{
  Residency, cold_storage, gpu_resident, TileStates, state_of, mark_gpu_resident,
}
use tile_mem.Runtime.States.Moves.{marked, mark_gpu_resident_lem}
use tile_mem.Runtime.Engine.{Runtime, materialize, materialize_missing}

-- Each tile is in cold storage or on the GPU.
unfoldable pub Settled : TileStates → Type 0
Settled s = (k : String) → (state_of k s ≡ cold_storage) ⊎ (state_of k s ≡ gpu_resident)

-- The states after the tiles were brought to the GPU.
unfoldable pub Brought : List String → TileStates → TileStates → Type 0
Brought tiles s s' =
    (j : String) → state_of j s' ≡ (if contains j tiles then gpu_resident else state_of j s)

pub Brought-Settled :
    (tiles : List String) (s s' : TileStates) → Settled s → Brought tiles s s' → Settled s'
unfolding Settled Brought
Brought-Settled tiles s s' h b = λ k. ground (arith, b k, h k)

marked-settled : (r : Residency) → (r ≡ cold_storage) ⊎ (r ≡ gpu_resident) → marked r ≡ gpu_resident
marked-settled r h = ground arith

mark_gpu_resident-Brought :
    (tile : String) (s : TileStates)
    → Settled s
    → (s' : TileStates) × (mark_gpu_resident tile s ≡ ok s') × Brought (tile ∷ []) s s'
unfolding Settled Brought contains
mark_gpu_resident-Brought tile s h =
    let (s', e, b) = mark_gpu_resident_lem tile s in
    (s', e, λ j. ground (arith, b j, marked-settled (state_of tile s) (h tile)))

Brought-cons :
    (tile : String) (tiles : List String) (s s' s'' : TileStates)
    → Brought (tile ∷ []) s s'
    → Brought tiles s' s''
    → Brought (tile ∷ tiles) s s''
unfolding Brought contains
Brought-cons tile tiles s s' s'' b c = λ j. ground (arith, b j, c j)

-- The bytes of the tiles, by the manifest.
unfoldable pub total_bytes : Dict ℤ → List String → ℤ
unfolding get_or
total_bytes sizes [] = pos 0
total_bytes sizes (tile ∷ tiles) = get_or tile (pos 0) sizes +ℤ total_bytes sizes tiles

module _ {R : Type 0} where
  -- What a transfer leaves.
  abbrev pub transferred : List String → TileStates → Runtime R → Runtime R
  transferred tiles s rt = record rt {
    tile_state = s;
    metrics = record (rt.metrics) {
      h2d_bytes = rt.metrics.h2d_bytes +ℤ total_bytes rt.manifest.layout.tile_bytes tiles;
    };
  }

  materialize_lem :
      (tile : String) (s : TileStates) (rt : Runtime R)
      → mark_gpu_resident tile rt.tile_state ≡ ok s
      → materialize tile rt ≡ ok (transferred (tile ∷ []) s rt)
  unfolding materialize total_bytes
  materialize_lem tile s rt e =
      rw (e, +ℤ_zero (get_or tile (pos 0) rt.manifest.layout.tile_bytes)) refl

  transferred-cons :
      (tile : String) (tiles : List String) (s s' : TileStates) (rt : Runtime R)
      → transferred tiles s' (transferred (tile ∷ []) s rt) ≡ transferred (tile ∷ tiles) s' rt
  unfolding total_bytes
  transferred-cons tile tiles s s' rt =
      let b = get_or tile (pos 0) rt.manifest.layout.tile_bytes in
      let rest = total_bytes rt.manifest.layout.tile_bytes tiles in
      rw (+ℤ_zero b, +ℤ_assoc rt.metrics.h2d_bytes b rest) refl

  transferred-nil : (rt : Runtime R) → rt ≡ transferred [] rt.tile_state rt
  unfolding total_bytes
  transferred-nil rt = rw (+ℤ_zero rt.metrics.h2d_bytes) refl

  -- The transfer never raises.
  pub materialize_missing_lem :
      (tiles : List String) (rt : Runtime R)
      → Settled rt.tile_state
      → (s : TileStates) × (materialize_missing tiles rt ≡ ok (transferred tiles s rt))
        × Brought tiles rt.tile_state s
  unfolding materialize_missing Brought contains
  materialize_missing_lem [] rt h = (rt.tile_state, ap ok (transferred-nil rt), λ j. refl)
  materialize_missing_lem (tile ∷ tiles) rt h =
      let (s, e, b) = mark_gpu_resident-Brought tile rt.tile_state h in
      let rt' = transferred (tile ∷ []) s rt in
      let (s', e', b') =
        materialize_missing_lem tiles rt' (Brought-Settled (tile ∷ []) rt.tile_state s h b) in
      (
        s',
        rw (materialize_lem tile s rt e, e') (ap ok (transferred-cons tile tiles s s' rt)),
        Brought-cons tile tiles rt.tile_state s s' b b',
      )
