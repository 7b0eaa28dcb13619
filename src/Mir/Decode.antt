-- ===== src/Mir/Decode.antt =====
-- The `from_dict` methods and `model_from_dict` of tilepo/mir/schema.py, and `validate_mir_dict` of
-- tilepo/mir/io.py.
use tile_mem.Common.{
  str_eq, ℤ, pos, value_error, type_error, Result, ok, err, ◌>>=◌, ◌>>◌, reject, traverse, String,
  not, Option, none, some, List, map,
}
use tile_mem.Values.{
  Value, int, str, list, dict, nil, Fields, Floats, find, index, get, as_dict, as_mapping, iterate,
  to_int, to_float, to_str, to_bool,
}
use tile_mem.Mir.Enums.{dtype_of, to_dtype, to_mode, to_backend, to_deployment}
use tile_mem.Mir.TileId.{tile_id_from_dict}
use tile_mem.Mir.Formats.{format_from_dict, scale_from_dict}
use tile_mem.Mir.Model.{
  TileIr, RouteIr, ChainItem, dtype_item, text_item, ResidencyIr, PrecisionIr, ScheduleIr, ModelIr,
  model_validate,
}
use tile_mem.Mir.Encode.{mir_schema_version, public_mir_interface}

module _ (fl : Floats) where
  open fl use {Float}

  -- `f(data[key]) if key in data else None`
  abbrev pub read_part :
      {A : Type 0} → (Value Float → Result A) → String → Fields Float → Result (Option A)
  read_part read key d = elim (find key d) [ none ↦ ok none | some v ↦ do a ← read v; ok (some a) ]

  abbrev read_text : Value Float → Result String
  read_text v = ok (to_str fl v)

  -- `from_dict` of a nested document.
  abbrev pub nested : {A : Type 0} → (Fields Float → Result A) → Value Float → Result A
  nested read v = do d ← as_dict v; read d

  unfoldable pub tile_from_dict : Fields Float → Result TileIr
  unfolding find index get as_dict to_int to_str
  tile_from_dict d = do
    tile_id ← nested (tile_id_from_dict fl) (← index "tile_id" d)
    dtype ← to_dtype (← index "dtype" d)
    bytes ← to_int fl (← index "bytes" d)
    scale_bytes ← to_int fl (get "scale_bytes" (int (pos 0)) d)
    format ← read_part (nested (format_from_dict fl)) "format" d
    scale ← read_part (nested (scale_from_dict fl)) "scale" d
    backend ← read_part read_text "backend" d
    fallback_dtype ← read_part read_text "fallback_dtype" d
    fallback_backend ← read_part read_text "fallback_backend" d
    ok (record {
      tile_id = tile_id;
      dtype = dtype;
      bytes = bytes;
      scale_bytes = scale_bytes;
      format = format;
      scale = scale;
      backend = backend;
      fallback_dtype = fallback_dtype;
      fallback_backend = fallback_backend;
    })

  abbrev pub read_layer : String × Value Float → Result (String × List ℤ)
  read_layer (layer, v) = do experts ← traverse (to_int fl) (← iterate v); ok (layer, experts)

  unfoldable pub route_from_dict : Fields Float → Result RouteIr
  unfolding index as_mapping to_str
  route_from_dict d = do
    workload ← index "workload" d
    layers ← as_mapping (← index "hot_experts" d)
    hot_experts ← traverse read_layer layers
    ok (record { workload = to_str fl workload; hot_experts = hot_experts })

  -- `TileDType(item) if item in {dtype.value …} else str(item)`; a list or a dictionary has no hash.
  unfoldable pub chain_item : Value Float → Result ChainItem
  unfolding dtype_of to_str
  chain_item (str s) = elim (dtype_of s) [ none ↦ ok (text_item s) | some d ↦ ok (dtype_item d) ]
  chain_item (list vs) = err (type_error "unhashable type: 'list'")
  chain_item (dict fs) = err (type_error "unhashable type: 'dict'")
  chain_item v = ok (text_item (to_str fl v))

  unfoldable pub residency_from_dict : Fields Float → Result (ResidencyIr Float)
  unfolding index get as_dict iterate to_float
  residency_from_dict d = do
    chain ← traverse chain_item (← iterate (← index "fallback_chain" d))
    gpu ← to_float fl (← index "gpu_cache_budget_gib" d)
    cpu ← to_float fl (← index "cpu_cache_budget_gib" d)
    hot ← traverse (nested (tile_id_from_dict fl)) (← iterate (get "gpu_hot_tiles" (list nil) d))
    ok (record {
      gpu_cache_budget_gib = gpu;
      cpu_cache_budget_gib = cpu;
      gpu_hot_tiles = hot;
      fallback_chain = chain;
    })

  unfoldable pub precision_from_dict : Fields Float → Result PrecisionIr
  unfolding index iterate to_str to_bool
  precision_from_dict d = do
    dtype_policy ← index "dtype_policy" d
    allowed ← traverse to_dtype (← iterate (← index "allowed" d))
    calibration_required ← index "calibration_required" d
    ok (record {
      dtype_policy = to_str fl dtype_policy;
      allowed = allowed;
      calibration_required = to_bool fl calibration_required;
    })

  unfoldable pub schedule_from_dict : Fields Float → Result ScheduleIr
  unfolding index get iterate to_str to_mode to_deployment
  schedule_from_dict d = do
    mode ← to_mode (← index "mode" d)
    deployment_mode ← to_deployment (← index "deployment_mode" d)
    backend_priority ← traverse to_backend (← iterate (← index "backend_priority" d))
    gates ← iterate (get "runtime_gates" (list nil) d)
    prewarm_policy ← index "prewarm_policy" d
    miss_policy ← index "miss_policy" d
    ok (record {
      mode = mode;
      deployment_mode = deployment_mode;
      backend_priority = backend_priority;
      runtime_gates = map (to_str fl) gates;
      prewarm_policy = to_str fl prewarm_policy;
      miss_policy = to_str fl miss_policy;
    })

  unfoldable pub model_from_dict : Fields Float → Result (ModelIr Float)
  unfolding index get as_dict iterate to_str to_int
  model_from_dict d = do
    name ← index "name" d
    layers ← to_int fl (← index "layers" d)
    experts_per_layer ← to_int fl (← index "experts_per_layer" d)
    hidden_size ← to_int fl (← index "hidden_size" d)
    intermediate_size ← to_int fl (← index "intermediate_size" d)
    routes ← traverse (nested route_from_dict) (← iterate (get "routes" (list nil) d))
    tiles ← traverse (nested tile_from_dict) (← iterate (← index "tiles" d))
    residency ← nested residency_from_dict (← index "residency" d)
    precision ← nested precision_from_dict (← index "precision" d)
    schedule ← nested schedule_from_dict (← index "schedule" d)
    ok (record {
      name = to_str fl name;
      layers = layers;
      experts_per_layer = experts_per_layer;
      hidden_size = hidden_size;
      intermediate_size = intermediate_size;
      routes = routes;
      tiles = tiles;
      residency = residency;
      precision = precision;
      schedule = schedule;
    })

  unfoldable pub validate_mir_dict : Fields Float → Result (Unit {0})
  unfolding get to_str
  validate_mir_dict d = do
    reject (not (str_eq (to_str fl (get "schema_version" (str "") d)) mir_schema_version))
        (value_error "unsupported MIR schema_version")
    reject
        (not (
          str_eq (to_str fl (get "public_interface" (str public_mir_interface) d))
            public_mir_interface))
        (value_error "unsupported MIR public_interface")
    model ← model_from_dict d
    model_validate fl model
