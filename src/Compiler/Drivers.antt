-- ===== src/Compiler/Drivers.antt =====
-- `compile_plan` and `compile_model_spec` of tilepo/compiler.py, without the files that they write.
pub mod Layouts
use tile_mem.Common.{Result, ok, ◌>>=◌, String, Option, List}
use tile_mem.Values.{Value, Fields, Floats}
use tile_mem.Dsl.{parse_tmem}
use tile_mem.Mir.Model.{ModelIr}
use tile_mem.Mir.Manifest.{Manifest, build_manifest}
use tile_mem.ModelInterface.{a_spec, model_spec_from_dict}
use tile_mem.ModelInterface.Build.{build_mir_from_model_spec}
use tile_mem.Compiler.Lower.{lower_plan_to_mir, attach_ablation_metadata}

pub record CompileResult (F : Type 0) : Type 0 where
  pub mir : ModelIr F
  pub manifest : Manifest

-- `digest` stands for the checksum of a manifest's JSON text.
module _ (digest : Manifest → String) (fl : Floats) where
  open fl use {Float}

  -- `lower` and `literal_eval` are `str.lower` and `ast.literal_eval`; the plan is its lines.
  unfoldable pub compile_plan :
      (String → String)
      → (String → Option (Value Float))
      → List String
      → Result (CompileResult Float)
  unfolding parse_tmem lower_plan_to_mir build_manifest attach_ablation_metadata
  compile_plan lower literal_eval lines = do
    plan ← parse_tmem lower literal_eval lines
    mir ← lower_plan_to_mir fl plan
    built ← build_manifest digest fl mir
    manifest ← attach_ablation_metadata fl digest plan built
    ok (record { mir = mir; manifest = manifest })

  unfoldable pub compile_model_spec : Fields Float → Result (CompileResult Float)
  unfolding model_spec_from_dict build_mir_from_model_spec build_manifest
  compile_model_spec document = do
    spec ← model_spec_from_dict fl document
    mir ← build_mir_from_model_spec fl (a_spec spec)
    manifest ← build_manifest digest fl mir
    ok (record { mir = mir; manifest = manifest })
