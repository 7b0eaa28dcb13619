-- ===== src/Mir/Model.antt =====
-- `TileIR`, `RouteIR`, `ResidencyIR`, `PrecisionIR`, `ScheduleIR` and `ModelIR` of
-- tilepo/mir/schema.py, with their `validate` methods. `F` is the type of floats.
use tile_mem.Common.{
  is_empty, any, ℤ, pos, ltb_ℤ, leb_ℤ, Dict, value_error, Result, ok, err, ◌>>◌, reject, check_each,
  String, Bool, not, ◌&&◌, ◌||◌, Option, none, some, List, [], ◌∷◌,
}
use tile_mem.Values.{Floats, int_of_text}
use tile_mem.Mir.Enums.{
  TileDType, fp8, fp6, fp4, mxfp4, RuntimeMode, Backend, kt_fallback, DeploymentMode, dtype_eq,
  backend_eq,
}
use tile_mem.Mir.TileId.{TileId}
use tile_mem.Mir.Formats.{TileFormat, is_blank, format_validate, ScaleLayout, scale_validate}

pub record TileIr : Type 0 where
  pub tile_id : TileId
  pub dtype : TileDType
  pub bytes : ℤ
  pub scale_bytes : ℤ
  pub format : Option TileFormat
  pub scale : Option ScaleLayout
  pub backend : Option String
  pub fallback_dtype : Option String
  pub fallback_backend : Option String

-- A check of an optional part.
abbrev pub if_some {ℓ} : {A : Type ℓ} → (A → Result (Unit {0})) → Option A → Result (Unit {0})
if_some f none = ok tt
if_some f (some a) = f a

unfoldable pub tile_validate : TileIr → Result (Unit {0})
unfolding format_validate scale_validate
tile_validate t = do
  reject (leb_ℤ t.bytes (pos 0)) (value_error "tile bytes must be positive")
  reject (ltb_ℤ t.scale_bytes (pos 0)) (value_error "scale bytes must be non-negative")
  if_some format_validate t.format
  if_some scale_validate t.scale
  if_some (λ b. reject (is_blank b) (value_error "tile backend must not be empty")) t.backend

pub record RouteIr : Type 0 where
  pub workload : String
  pub hot_experts : Dict (List ℤ)

-- One round of the loop over `hot_experts`.
abbrev pub check_layer : String × List ℤ → Result (Unit {0})
check_layer (layer, experts) = do
  elim (int_of_text layer) [ none ↦ err (value_error "invalid literal for int()") | some n ↦ ok tt ]
  reject (is_empty experts) (value_error "hot expert list must not be empty")

unfoldable pub route_validate : RouteIr → Result (Unit {0})
unfolding check_each
route_validate r = do
  reject (is_blank r.workload) (value_error "route workload is required")
  check_each check_layer r.hot_experts

-- `TileDType | str`
pub data ChainItem : Type 0 where
  dtype_item : TileDType → ChainItem
  text_item : String → ChainItem

pub record ResidencyIr (F : Type 0) : Type 0 where
  pub gpu_cache_budget_gib : F
  pub cpu_cache_budget_gib : F
  pub gpu_hot_tiles : List TileId
  pub fallback_chain : List ChainItem

pub record PrecisionIr : Type 0 where
  pub dtype_policy : String
  pub allowed : List TileDType
  pub calibration_required : Bool

abbrev pub low_precision : List TileDType
low_precision = fp8 ∷ fp6 ∷ fp4 ∷ mxfp4 ∷ []

unfoldable pub precision_validate : PrecisionIr → Result (Unit {0})
unfolding any
precision_validate p = do
  reject (is_empty p.allowed) (value_error "at least one dtype must be allowed")
  reject (any (λ d. any (dtype_eq d) p.allowed) low_precision && not p.calibration_required)
      (value_error "low-precision tile formats require calibration")

pub record ScheduleIr : Type 0 where
  pub mode : RuntimeMode
  pub deployment_mode : DeploymentMode
  pub backend_priority : List Backend
  pub runtime_gates : List String
  pub prewarm_policy : String
  pub miss_policy : String

unfoldable pub schedule_validate : ScheduleIr → Result (Unit {0})
unfolding any
schedule_validate s = do
  reject (is_empty s.backend_priority) (value_error "backend_priority must not be empty")
  reject (not (any (backend_eq kt_fallback) s.backend_priority))
      (value_error "backend_priority must include kt_fallback")

pub record ModelIr (F : Type 0) : Type 0 where
  pub name : String
  pub layers : ℤ
  pub experts_per_layer : ℤ
  pub hidden_size : ℤ
  pub intermediate_size : ℤ
  pub routes : List RouteIr
  pub tiles : List TileIr
  pub residency : ResidencyIr F
  pub precision : PrecisionIr
  pub schedule : ScheduleIr

module _ (fl : Floats) where
  open fl use {Float, lt, of_int}

  unfoldable pub residency_validate : ResidencyIr Float → Result (Unit {0})
  residency_validate r = do
    reject
        (lt r.gpu_cache_budget_gib (of_int (pos 0)) || lt r.cpu_cache_budget_gib (of_int (pos 0)))
        (value_error "memory budgets must be non-negative")
    reject (is_empty r.fallback_chain) (value_error "fallback_chain must not be empty")

  unfoldable pub model_validate : ModelIr Float → Result (Unit {0})
  unfolding check_each
  model_validate m = do
    reject (leb_ℤ m.layers (pos 0) || leb_ℤ m.experts_per_layer (pos 0))
        (value_error "model layers and experts_per_layer must be positive")
    reject (leb_ℤ m.hidden_size (pos 0) || leb_ℤ m.intermediate_size (pos 0))
        (value_error "model dimensions must be positive")
    reject (is_empty m.tiles) (value_error "MIR must contain tiles")
    check_each route_validate m.routes
    check_each tile_validate m.tiles
    residency_validate m.residency
    precision_validate m.precision
    schedule_validate m.schedule
