-- ===== src/Sdk.antt =====
-- tilemem/sdk.py: the functions that a program calls to describe a model and to plan it. Reading the
-- published evidence is left out.
pub mod Plans
use tile_mem.Values.{int, float, str, dict, Fields, Floats, fields_of}
use tile_mem.Common.{ℤ, pos, Result, ok, ◌>>=◌, String, Option, none, some, List, [], ◌∷◌}
use tile_mem.ModelInterface.{
  model_spec_schema_version, ModelSpec, SpecSource, a_spec, model_spec_from_dict,
}
use tile_mem.ModelInterface.Build.{build_mir_from_model_spec}
use tile_mem.Mir.Model.{ModelIr}
use tile_mem.Mir.Manifest.{Manifest, build_manifest}
use tile_mem.Integration.{
  TileHandle, BackendRegistry, build_tile_handles, DispatchPlan, benchmark_dispatch_plan,
}
use tile_mem.Checkpoint.HfConfig.{
  HfOptions, merge, texts, precision_default, model_spec_from_hf_config,
}

pub record TileMemPlan (F : Type 0) : Type 0 where
  pub mir : ModelIr F
  pub manifest : Manifest
  pub handles : List TileHandle

-- The arguments of `model_spec`; `none` stands for one left out.
pub record SpecArguments (F : Type 0) : Type 0 where
  pub name : String
  pub layers : ℤ
  pub experts_per_layer : ℤ
  pub hidden_size : ℤ
  pub intermediate_size : ℤ
  pub expert_budget : Option ℤ
  pub workload : String
  pub tile_changes : Fields F
  pub memory_changes : Fields F
  pub precision_changes : Fields F
  pub schedule_changes : Fields F

module _ (fl : Floats) where
  open fl use {Float, of_int}

  abbrev pub sdk_tile : SpecArguments Float → Fields Float
  sdk_tile a = fields_of (
      ("hidden_tile", int a.hidden_size)
      ∷ ("intermediate_tile", int a.intermediate_size)
      ∷ ("shard_count", int (pos 1))
      ∷ ("projection_groups", texts fl ("gate_up" ∷ "down" ∷ []))
      ∷ [])

  abbrev pub sdk_memory : Fields Float
  sdk_memory = fields_of (
      ("gpu_cache_budget_gib", float (of_int (pos 0)))
      ∷ ("cpu_cache_budget_gib", float (of_int (pos 0)))
      ∷ [])

  abbrev pub sdk_schedule : Fields Float
  sdk_schedule = fields_of (
      ("mode", str "verify")
      ∷ ("deployment_mode", str "balanced")
      ∷ ("backend_priority", texts fl ("cuda" ∷ "tilelang" ∷ "kt_fallback" ∷ []))
      ∷ ("runtime_gates", texts fl [])
      ∷ ("prewarm_policy", str "hotset")
      ∷ ("miss_policy", str "fallback")
      ∷ [])

  -- The document that is handed to `model_spec_from_dict`
  unfoldable pub sdk_document : SpecArguments Float → Fields Float
  unfolding merge
  sdk_document a = fields_of (
      ("schema_version", str model_spec_schema_version)
      ∷ ("name", str a.name)
      ∷ ("layers", int a.layers)
      ∷ ("experts_per_layer", int a.experts_per_layer)
      ∷ ("hidden_size", int a.hidden_size)
      ∷ ("intermediate_size", int a.intermediate_size)
      ∷ (
        "expert_budget",
        int (elim a.expert_budget as (λ x. ℤ) [ none ↦ a.experts_per_layer | some n ↦ n ]),
      )
      ∷ ("workload", str a.workload)
      ∷ ("tile", dict (merge (sdk_tile a) a.tile_changes))
      ∷ ("memory", dict (merge sdk_memory a.memory_changes))
      ∷ ("precision", dict (merge (precision_default fl) a.precision_changes))
      ∷ ("schedule", dict (merge sdk_schedule a.schedule_changes))
      ∷ [])

  unfoldable pub model_spec : SpecArguments Float → Result (ModelSpec Float)
  unfolding sdk_document model_spec_from_dict
  model_spec a = model_spec_from_dict fl (sdk_document a)

  -- `build_mir`
  abbrev pub build_mir : SpecSource Float → Result (ModelIr Float)
  unfolding build_mir_from_model_spec
  build_mir source = build_mir_from_model_spec fl source

  module _ (digest : Manifest → String) (registry : BackendRegistry) where
    -- `plan`, in a registry of backends
    unfoldable pub plan : SpecSource Float → Result (TileMemPlan Float)
    unfolding build_mir build_manifest build_tile_handles
    plan source = do
      mir ← build_mir source
      manifest ← build_manifest digest fl mir
      ok (record { mir = mir; manifest = manifest; handles = build_tile_handles manifest registry })

    -- `TileMEMPlan.dispatch_summary`
    abbrev pub dispatch_summary : TileMemPlan Float → ℤ → Result DispatchPlan
    unfolding benchmark_dispatch_plan
    dispatch_summary p iterations = benchmark_dispatch_plan p.handles iterations

    -- `plan_from_hf_config` of tilemem/checkpoint.py
    unfoldable pub plan_from_hf_config :
        (String → String) → Fields Float → HfOptions Float → Result (TileMemPlan Float)
    unfolding plan model_spec_from_hf_config
    plan_from_hf_config lower config options = do
      spec ← model_spec_from_hf_config fl lower config options
      plan (a_spec spec)
