-- ===== src/Checkpoint/HfConfig.antt =====
-- `model_spec_from_hf_config`: the specification of a model, from its configuration file and the
-- arguments that change its parts.
pub mod Inferred
use Prim.Native.String.{◌++◌ as append}
use tile_mem.Common.{
  str_eq, if◌then◌else◌, ℤ, pos, str_int, Result, ◌>>=◌, String, false, Option, none, some, List,
  [], ◌∷◌, map,
}
use tile_mem.Values.{
  Value, bool, int, float, str, list, dict, Fields, end, field, Floats, items_of, fields_of,
}
use tile_mem.Dsl.{set_field}
use tile_mem.ModelInterface.{ModelSpec, model_spec_from_dict}
use tile_mem.Checkpoint.{min_ℤ}
use tile_mem.Checkpoint.Topology.{MoeTopology, infer_moe_topology}

-- `_safe_model_name`
unfoldable pub safe_model_name : MoeTopology → String
safe_model_name t = append t.family (
    append "_" (append (str_int t.layers) (append "l_" (append (str_int t.experts_per_layer) "e"))))

-- The arguments with names; `none` stands for one left out.
pub record HfOptions (F : Type 0) : Type 0 where
  pub name : Option String
  pub expert_budget : Option ℤ
  pub workload : String
  pub tile_changes : Fields F
  pub memory_changes : Fields F
  pub precision_changes : Fields F
  pub schedule_changes : Fields F

abbrev pub default_options : {F : Type 0} → HfOptions F
default_options = record {
  name = none;
  expert_budget = none;
  workload = "mixed";
  tile_changes = end;
  memory_changes = end;
  precision_changes = end;
  schedule_changes = end;
}

-- `{**base, **changes}`
unfoldable pub merge : {F : Type 0} → Fields F → Fields F → Fields F
unfolding set_field
merge base end = base
merge base (field k v changes) = merge (set_field k v base) changes

unfoldable pub model_name : {F : Type 0} → HfOptions F → MoeTopology → String
unfolding safe_model_name
model_name options t = elim options.name as (λ x. String) [
  | none ↦ safe_model_name t
  | some name ↦ if str_eq name "" then safe_model_name t else name
]

unfoldable pub budget_of : {F : Type 0} → HfOptions F → MoeTopology → ℤ
budget_of options t = elim options.expert_budget as (λ x. ℤ) [
  | none ↦ t.active_experts_per_token
  | some n ↦ n
]

module _ (fl : Floats) where
  open fl use {Float, of_int}

  abbrev pub texts : List String → Value Float
  texts names = list (items_of (map str names))

  abbrev pub tile_default : MoeTopology → Fields Float
  tile_default t = fields_of (
      ("hidden_tile", int (min_ℤ t.hidden_size (pos 256)))
      ∷ ("intermediate_tile", int (min_ℤ t.intermediate_size (pos 256)))
      ∷ ("shard_count", int (pos 4))
      ∷ ("projection_groups", texts ("gate_up" ∷ "down" ∷ []))
      ∷ [])

  abbrev pub memory_default : Fields Float
  memory_default = fields_of (
      ("gpu_cache_budget_gib", float (of_int (pos 8)))
      ∷ ("cpu_cache_budget_gib", float (of_int (pos 64)))
      ∷ [])

  abbrev pub precision_default : Fields Float
  precision_default = fields_of (
      ("dtype_policy", str "bf16")
      ∷ ("allowed", texts ("bf16" ∷ []))
      ∷ ("calibration_required", bool false)
      ∷ [])

  abbrev pub schedule_default : Fields Float
  schedule_default = fields_of (
      ("mode", str "verify")
      ∷ ("deployment_mode", str "balanced")
      ∷ ("backend_priority", texts ("cuda" ∷ "tilelang" ∷ "kt_fallback" ∷ []))
      ∷ ("runtime_gates", texts ("locality" ∷ "correctness" ∷ []))
      ∷ ("prewarm_policy", str "hotset")
      ∷ ("miss_policy", str "fallback")
      ∷ [])

  -- The document that is handed to `model_spec_from_dict`
  unfoldable pub hf_document : HfOptions Float → MoeTopology → Fields Float
  unfolding merge model_name budget_of
  hf_document options t = fields_of (
      ("schema_version", str "tilemem_model_spec_v1")
      ∷ ("name", str (model_name options t))
      ∷ ("layers", int t.layers)
      ∷ ("experts_per_layer", int t.experts_per_layer)
      ∷ ("hidden_size", int t.hidden_size)
      ∷ ("intermediate_size", int t.intermediate_size)
      ∷ ("expert_budget", int (budget_of options t))
      ∷ ("workload", str options.workload)
      ∷ ("tile", dict (merge (tile_default t) options.tile_changes))
      ∷ ("memory", dict (merge memory_default options.memory_changes))
      ∷ ("precision", dict (merge precision_default options.precision_changes))
      ∷ ("schedule", dict (merge schedule_default options.schedule_changes))
      ∷ [])

  unfoldable pub model_spec_from_hf_config :
      (String → String) → Fields Float → HfOptions Float → Result (ModelSpec Float)
  unfolding infer_moe_topology hf_document model_spec_from_dict
  model_spec_from_hf_config lower config options = do
    t ← infer_moe_topology lower fl config
    model_spec_from_dict fl (hf_document options t)
