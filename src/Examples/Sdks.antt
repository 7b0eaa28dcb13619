-- ===== src/Examples/Sdks.antt =====
-- A plan from a small configuration.
use tile_mem.Common.{ℤ, pos, str_int, ok, String, ◌≡◌, refl, [], ◌∷◌}
use tile_mem.Values.{int, str, Fields, fields_of, int_of_text}
use tile_mem.ModelInterface.{ModelSpec, a_spec}
use tile_mem.Checkpoint.HfConfig.{default_options, model_spec_from_hf_config}
use tile_mem.Compiler.Shards.{spec_shards}
use tile_mem.Mir.Enums.{mode_of, backend_of, deployment_of}
use tile_mem.Mir.Model.{
  tile_validate, route_validate, precision_validate, schedule_validate, residency_validate,
}
use tile_mem.Sdk.{TileMemPlan, plan_from_hf_config}
use tile_mem.Sdk.Plans.{IsPlan, plan_from_hf_config-IsPlan}
use tile_mem.Examples.{ints, toy_model, value_or, toy_digest, toy_manifest}

abbrev tiny_config : Fields ℤ
tiny_config = fields_of (
    ("model_type", str "mixtral")
    ∷ ("num_hidden_layers", int (pos 1))
    ∷ ("num_experts", int (pos 2))
    ∷ ("top_k", int (pos 1))
    ∷ ("hidden_size", int (pos 2))
    ∷ ("intermediate_size", int (pos 4))
    ∷ [])

abbrev same_text : String → String
same_text s = s

abbrev no_plan : TileMemPlan ℤ
no_plan = record { mir = toy_model; manifest = toy_manifest; handles = [] }

tiny_plan : TileMemPlan ℤ
unfolding plan_from_hf_config
tiny_plan =
    value_or no_plan (plan_from_hf_config ints toy_digest [] same_text tiny_config default_options)

plan_from_hf_config-IsPlan_example :
    (s : ModelSpec ℤ) × (model_spec_from_hf_config ints same_text tiny_config default_options
      ≡ ok s)
    × IsPlan ints toy_digest [] (a_spec s) s tiny_plan
unfolding tiny_plan str_int spec_shards mode_of deployment_of backend_of route_validate int_of_text
    tile_validate residency_validate precision_validate schedule_validate
plan_from_hf_config-IsPlan_example =
    plan_from_hf_config-IsPlan ints toy_digest [] same_text tiny_config default_options tiny_plan
      refl
