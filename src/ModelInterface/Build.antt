-- ===== src/ModelInterface/Build.antt =====
-- `build_mir_from_model_spec` of tilepo/model_interface.py.
pub mod Lowering
use tile_mem.Common.{
  is_empty, pos, pos_part, value_error, Result, ok, ◌>>=◌, ◌>>◌, reject, traverse, ℕ, String, false,
  List, [], ◌∷◌, map,
}
use tile_mem.Values.{
  bool, int, float, str, list, nil, Floats, get, iterate, to_float, to_str, to_bool,
}
use tile_mem.Mir.Enums.{TileDType, memory, to_dtype, to_mode, to_backend, to_deployment}
use tile_mem.Mir.Model.{TileIr, ResidencyIr, PrecisionIr, ScheduleIr, ModelIr, model_validate}
use tile_mem.Mir.Decode.{chain_item}
use tile_mem.Compiler.Shards.{Shard, spec_shards}
use tile_mem.Compiler.Tiles.{select_tile_dtype, extent_of, lower_tiles, hot_experts}
use tile_mem.ModelInterface.{
  ModelSpec, SpecSource, texts_of, allowed_value, coerce_model_spec, positive_int,
}

-- The sizes of the tiles and the projection groups.
pub record TileShape : Type 0 where
  pub hidden_tile : ℕ
  pub intermediate_tile : ℕ
  pub shard_count : ℕ
  pub projection_groups : List String

module _ (fl : Floats) where
  open fl use {Float, of_int}

  -- The shards of a projection group.
  abbrev pub spec_ranges : ModelSpec Float → ℕ → ℕ → ℕ → ℕ → String → Result (List Shard)
  spec_ranges s hidden_tile intermediate_tile shard_count expert group = ok (
      spec_shards (extent_of (pos_part s.hidden_size) (pos_part s.intermediate_size) group)
        (extent_of hidden_tile intermediate_tile group) shard_count)

  unfoldable pub spec_shape : ModelSpec Float → Result TileShape
  unfolding get to_str iterate positive_int
  spec_shape s = do
    hidden_tile ← positive_int fl (get "hidden_tile" (int s.hidden_size) s.tile) "tile.hidden_tile"
    intermediate_tile ←
        positive_int fl (get "intermediate_tile" (int s.intermediate_size) s.tile)
          "tile.intermediate_tile"
    shard_count ← positive_int fl (get "shard_count" (int (pos 1)) s.tile) "tile.shard_count"
    groups ← iterate (get "projection_groups" (texts_of fl ("gate_up" ∷ "down" ∷ [])) s.tile)
    reject (is_empty groups) (value_error "tile.projection_groups must not be empty")
    ok (record {
      hidden_tile = hidden_tile;
      intermediate_tile = intermediate_tile;
      shard_count = shard_count;
      projection_groups = map (to_str fl) groups;
    })

  -- The loops over the tiles.
  unfoldable pub spec_tiles : ModelSpec Float → TileShape → TileDType → Result (List TileIr)
  unfolding lower_tiles
  spec_tiles s shape dtype =
      lower_tiles (spec_ranges s shape.hidden_tile shape.intermediate_tile shape.shard_count)
        (pos_part s.hidden_size) dtype (pos_part s.layers) (pos_part s.expert_budget)
        shape.projection_groups

  abbrev pub spec_precision : ModelSpec Float → List TileDType → PrecisionIr
  spec_precision s allowed = record {
    dtype_policy = to_str fl (get "dtype_policy" (str "bf16") s.precision);
    allowed = allowed;
    calibration_required = to_bool fl (get "calibration_required" (bool false) s.precision);
  }

  unfoldable pub spec_schedule : ModelSpec Float → Result ScheduleIr
  unfolding get to_str iterate to_mode to_deployment to_backend
  spec_schedule s = do
    mode ← to_mode {F = Float} (str (to_str fl (get "mode" (str "verify") s.schedule)))
    deployment ←
        to_deployment {F = Float}
          (str (to_str fl (get "deployment_mode" (str "balanced") s.schedule)))
    names ←
        iterate (
          get "backend_priority" (texts_of fl ("cuda" ∷ "tilelang" ∷ "kt_fallback" ∷ []))
            s.schedule)
    backends ← traverse to_backend names
    gates ← iterate (get "runtime_gates" (list nil) s.schedule)
    ok (record {
      mode = mode;
      deployment_mode = deployment;
      backend_priority = backends;
      runtime_gates = map (to_str fl) gates;
      prewarm_policy = to_str fl (get "prewarm_policy" (str "hotset") s.schedule);
      miss_policy = to_str fl (get "miss_policy" (str "fallback") s.schedule);
    })

  unfoldable pub spec_allowed : ModelSpec Float → Result (List TileDType)
  unfolding iterate traverse to_dtype
  spec_allowed s = do dtypes ← iterate (allowed_value fl s.precision); traverse to_dtype dtypes

  unfoldable pub spec_residency : ModelSpec Float → List TileIr → Result (ResidencyIr Float)
  unfolding get to_float iterate traverse chain_item
  spec_residency s tiles = do
    items ← iterate (get "fallback_chain" (texts_of fl ("bf16" ∷ "kt" ∷ [])) s.schedule)
    chain ← traverse (chain_item fl) items
    gpu ← to_float fl (get "gpu_cache_budget_gib" (float (of_int (pos 0))) s.memory)
    cpu ← to_float fl (get "cpu_cache_budget_gib" (float (of_int (pos 0))) s.memory)
    ok (record {
      gpu_cache_budget_gib = gpu;
      cpu_cache_budget_gib = cpu;
      gpu_hot_tiles = map (λ (t : TileIr). t.tile_id) tiles;
      fallback_chain = chain;
    })

  abbrev pub model_of :
      ModelSpec Float
      → List TileDType
      → List TileIr
      → ResidencyIr Float
      → ScheduleIr
      → ModelIr Float
  unfolding hot_experts
  model_of s allowed tiles residency schedule = record {
    name = s.name;
    layers = s.layers;
    experts_per_layer = s.experts_per_layer;
    hidden_size = s.hidden_size;
    intermediate_size = s.intermediate_size;
    routes =
        record {
          workload = s.workload;
          hot_experts = hot_experts (pos_part s.layers) (pos_part s.expert_budget);
        }
        ∷ [];
    tiles = tiles;
    residency = residency;
    precision = spec_precision s allowed;
    schedule = schedule;
  }

  -- The model, and its check.
  unfoldable pub spec_model :
      ModelSpec Float
      → List TileDType
      → List TileIr
      → ResidencyIr Float
      → ScheduleIr
      → Result (ModelIr Float)
  unfolding model_of model_validate
  spec_model s allowed tiles residency schedule =
      let mir = model_of s allowed tiles residency schedule in model_validate fl mir >> ok mir

  -- `build_mir_from_model_spec`, once the specification is read. Every step may raise, and the first
  -- that does ends it.
  unfoldable pub lower_spec : ModelSpec Float → Result (ModelIr Float)
  unfolding select_tile_dtype spec_shape spec_tiles spec_schedule spec_allowed spec_residency
      spec_model
  lower_spec s = do
    shape ← spec_shape s
    allowed ← spec_allowed s
    dtype ←
        select_tile_dtype "no supported dtype in precision.allowed" allowed
          (spec_precision s allowed).dtype_policy
    tiles ← spec_tiles s shape dtype
    residency ← spec_residency s tiles
    schedule ← spec_schedule s
    spec_model s allowed tiles residency schedule

  unfoldable pub build_mir_from_model_spec : SpecSource Float → Result (ModelIr Float)
  unfolding coerce_model_spec lower_spec
  build_mir_from_model_spec source = do spec ← coerce_model_spec fl source; lower_spec spec
