-- ===== src/Runtime/States.antt =====
-- tilepo/runtime/state.py: the residency state of each tile.
pub mod Moves
use tile_mem.Common.{
  str_eq, any, Dict, insert, get_or, value_error, Result, ok, ◌>>=◌, ◌>>◌, reject, String, Bool,
  not, ◌&&◌, List, [], ◌∷◌,
}

pub data Residency : Type 0 where
  cold_storage cpu_resident pinned_ready gpu_prefetching gpu_resident gpu_executing evicting
        kt_fallback_state :
      Residency

abbrev pub residency_text : Residency → String
residency_text cold_storage = "COLD_STORAGE"
residency_text cpu_resident = "CPU_RESIDENT"
residency_text pinned_ready = "PINNED_READY"
residency_text gpu_prefetching = "GPU_PREFETCHING"
residency_text gpu_resident = "GPU_RESIDENT"
residency_text gpu_executing = "GPU_EXECUTING"
residency_text evicting = "EVICTING"
residency_text kt_fallback_state = "KT_FALLBACK"

abbrev pub residency_eq : Residency → Residency → Bool
residency_eq a b = str_eq (residency_text a) (residency_text b)

-- `_ALLOWED`
abbrev pub allowed : Residency → List Residency
allowed cold_storage = cpu_resident ∷ kt_fallback_state ∷ []
allowed cpu_resident = pinned_ready ∷ evicting ∷ kt_fallback_state ∷ []
allowed pinned_ready = gpu_prefetching ∷ evicting ∷ kt_fallback_state ∷ []
allowed gpu_prefetching = gpu_resident ∷ kt_fallback_state ∷ []
allowed gpu_resident = gpu_executing ∷ evicting ∷ []
allowed gpu_executing = gpu_resident ∷ evicting ∷ []
allowed evicting = cpu_resident ∷ cold_storage ∷ []
allowed kt_fallback_state = cold_storage ∷ cpu_resident ∷ []

-- `next_state in _ALLOWED[current]`
unfoldable pub may_move : Residency → Residency → Bool
unfolding any
may_move current next = any (residency_eq next) (allowed current)

-- `TileState`: a tile that was never seen lies in cold storage.
abbrev pub TileStates : Type 0
TileStates = Dict Residency

unfoldable pub state_of : String → TileStates → Residency
unfolding get_or
state_of key states = get_or key cold_storage states

unfoldable pub transition : String → Residency → TileStates → Result TileStates
unfolding may_move insert
transition key next states = do
  reject
      (not (may_move (state_of key states) next) && not (residency_eq next (state_of key states)))
      (value_error "invalid tile state transition")
  ok (insert key next states)

-- `mark_gpu_resident`, by the state that the tile is in.
unfoldable pub mark_from : Residency → String → TileStates → Result TileStates
mark_from cold_storage key states = do
  s₁ ← transition key cpu_resident states
  s₂ ← transition key pinned_ready s₁
  s₃ ← transition key gpu_prefetching s₂
  transition key gpu_resident s₃
mark_from cpu_resident key states = do
  s₁ ← transition key pinned_ready states
  s₂ ← transition key gpu_prefetching s₁
  transition key gpu_resident s₂
mark_from pinned_ready key states = do
  s₁ ← transition key gpu_prefetching states
  transition key gpu_resident s₁
mark_from gpu_prefetching key states = transition key gpu_resident states
mark_from _ key states = ok states

unfoldable pub mark_gpu_resident : String → TileStates → Result TileStates
unfolding mark_from
mark_gpu_resident key states = mark_from (state_of key states) key states
