-- ===== src/Mir/Encode.antt =====
-- The `to_dict` methods of tilepo/mir/schema.py. A document is a `Value`; a method that calls the
-- checking `to_dict` of a format or a scale layout may raise.
use tile_mem.Common.{
  ℤ, Dict, Result, ok, ◌>>=◌, traverse, String, Option, none, some, List, [], ◌∷◌, ◌++◌, map,
}
use tile_mem.Values.{Value, bool, int, float, str, list, dict, Fields, Floats, items_of, fields_of}
use tile_mem.Mir.Enums.{dtype_text, mode_text, backend_text, deployment_text}
use tile_mem.Mir.TileId.{tile_id_to_dict}
use tile_mem.Mir.Formats.{format_to_dict, scale_to_dict}
use tile_mem.Mir.Model.{
  TileIr, RouteIr, ChainItem, dtype_item, text_item, ResidencyIr, PrecisionIr, ScheduleIr, ModelIr,
}

abbrev pub mir_schema_version : String
mir_schema_version = "tilepo_mir_v1"

abbrev pub public_mir_interface : String
public_mir_interface = "tilemem_public_mir_v0_1_1"

module _ (fl : Floats) where
  open fl use {Float}

  -- `if part is not None: data[key] = part.to_dict()`
  abbrev pub written_part :
      {A : Type 0} → String → (A → Result (Fields Float)) → Option A → Result (Dict (Value Float))
  written_part key write none = ok []
  written_part key write (some a) = do d ← write a; ok ((key, dict d) ∷ [])

  -- `if text is not None: data[key] = text`
  abbrev pub written_text : String → Option String → Dict (Value Float)
  written_text key none = []
  written_text key (some s) = (key, str s) ∷ []

  unfoldable pub tile_to_dict : TileIr → Result (Fields Float)
  tile_to_dict t = do
    format ← written_part "format" (format_to_dict fl) t.format
    scale ← written_part "scale" (scale_to_dict fl) t.scale
    ok (
        fields_of (
          ("tile_id", dict (tile_id_to_dict fl t.tile_id))
          ∷ ("dtype", str (dtype_text t.dtype))
          ∷ ("bytes", int t.bytes)
          ∷ ("scale_bytes", int t.scale_bytes)
          ∷ (format
              ++ (scale
                  ++ (written_text "backend" t.backend
                      ++ (written_text "fallback_dtype" t.fallback_dtype
                          ++ written_text "fallback_backend" t.fallback_backend))))))

  abbrev pub layer_entry : String × List ℤ → String × Value Float
  layer_entry (layer, experts) = (layer, list (items_of (map int experts)))

  unfoldable pub route_to_dict : RouteIr → Fields Float
  route_to_dict r = fields_of (
      ("workload", str r.workload)
      ∷ ("hot_experts", dict (fields_of (map layer_entry r.hot_experts)))
      ∷ [])

  abbrev pub chain_value : ChainItem → Value Float
  chain_value (dtype_item d) = str (dtype_text d)
  chain_value (text_item s) = str s

  unfoldable pub residency_to_dict : ResidencyIr Float → Fields Float
  residency_to_dict r = fields_of (
      ("gpu_cache_budget_gib", float r.gpu_cache_budget_gib)
      ∷ ("cpu_cache_budget_gib", float r.cpu_cache_budget_gib)
      ∷ ("gpu_hot_tiles", list (items_of (map (λ t. dict (tile_id_to_dict fl t)) r.gpu_hot_tiles)))
      ∷ ("fallback_chain", list (items_of (map chain_value r.fallback_chain)))
      ∷ [])

  unfoldable pub precision_to_dict : PrecisionIr → Fields Float
  precision_to_dict p = fields_of (
      ("dtype_policy", str p.dtype_policy)
      ∷ ("allowed", list (items_of (map (λ d. str (dtype_text d)) p.allowed)))
      ∷ ("calibration_required", bool p.calibration_required)
      ∷ [])

  unfoldable pub schedule_to_dict : ScheduleIr → Fields Float
  schedule_to_dict s = fields_of (
      ("mode", str (mode_text s.mode))
      ∷ ("deployment_mode", str (deployment_text s.deployment_mode))
      ∷ ("backend_priority", list (items_of (map (λ b. str (backend_text b)) s.backend_priority)))
      ∷ ("runtime_gates", list (items_of (map str s.runtime_gates)))
      ∷ ("prewarm_policy", str s.prewarm_policy)
      ∷ ("miss_policy", str s.miss_policy)
      ∷ [])

  unfoldable pub model_to_dict : ModelIr Float → Result (Fields Float)
  model_to_dict m = do
    tiles ← traverse tile_to_dict m.tiles
    ok (
        fields_of (
          ("schema_version", str mir_schema_version)
          ∷ ("public_interface", str public_mir_interface)
          ∷ ("name", str m.name)
          ∷ ("layers", int m.layers)
          ∷ ("experts_per_layer", int m.experts_per_layer)
          ∷ ("hidden_size", int m.hidden_size)
          ∷ ("intermediate_size", int m.intermediate_size)
          ∷ ("routes", list (items_of (map (λ r. dict (route_to_dict r)) m.routes)))
          ∷ ("tiles", list (items_of (map dict tiles)))
          ∷ ("residency", dict (residency_to_dict m.residency))
          ∷ ("precision", dict (precision_to_dict m.precision))
          ∷ ("schedule", dict (schedule_to_dict m.schedule))
          ∷ []))
