-- ===== src/Examples.antt =====
-- Small inputs: a model of one layer with two tiles, its manifest, a runtime and a specification.
pub mod Documents
pub mod Runs
pub mod Plans
pub mod Choices
pub mod Admissions
pub mod Checkpoints
pub mod Sdks
pub mod Patches
pub mod Sweeps
use tile_mem.Common.{
  ℤ, pos, ltb_ℤ, eqb_ℤ, Result, ok, err, ℕ, ◌+◌, ◌*◌, String, true, false, not, Option, none, some,
  [], ◌∷◌,
}
use tile_mem.Values.{int, end, Floats, fields_of}
use tile_mem.Mir.Enums.{bf16, shadow, Backend, cuda, kt_fallback, memory, balanced}
use tile_mem.Mir.TileId.{TileId}
use tile_mem.Mir.Model.{TileIr, dtype_item, text_item, ModelIr}
use tile_mem.Mir.Manifest.{empty_layout, Manifest, build_manifest}
use tile_mem.Runtime.Engine.{Request, BackendHandle, Runtime, new_runtime}
use tile_mem.Integration.{BackendCapability}
use tile_mem.ModelInterface.{ModelSpec}

-- Floats that happen to be integers.
abbrev pub ints : Floats
ints = record {
  Float = ℤ;
  lt = ltb_ℤ;
  of_int = λ n. n;
  of_text = λ s. none;
  truncate = λ n. some n;
  truth = λ n. not (eqb_ℤ n (pos 0));
  text = λ v. "";
}

abbrev pub toy_id : ℕ → TileId
toy_id shard = record {
  layer = pos 0;
  expert = pos 0;
  projection_group = "down";
  shard_id = pos shard;
  n_start = pos (shard * 4);
  n_end = pos (shard * 4 + 4);
}

abbrev pub toy_tile : ℕ → TileIr
toy_tile shard = record {
  tile_id = toy_id shard;
  dtype = bf16;
  bytes = pos 16;
  scale_bytes = pos 0;
  format = none;
  scale = none;
  backend = none;
  fallback_dtype = none;
  fallback_backend = none;
}

abbrev pub toy_model : ModelIr ℤ
toy_model = record {
  name = "toy";
  layers = pos 1;
  experts_per_layer = pos 2;
  hidden_size = pos 2;
  intermediate_size = pos 8;
  routes = record { workload = "mixed"; hot_experts = ("0", pos 0 ∷ []) ∷ [] } ∷ [];
  tiles = toy_tile 0 ∷ toy_tile 1 ∷ [];
  residency = record {
    gpu_cache_budget_gib = pos 1;
    cpu_cache_budget_gib = pos 1;
    gpu_hot_tiles = toy_id 0 ∷ toy_id 1 ∷ [];
    fallback_chain = dtype_item bf16 ∷ text_item "kt" ∷ [];
  };
  precision = record { dtype_policy = "bf16"; allowed = bf16 ∷ []; calibration_required = false };
  schedule = record {
    mode = shadow;
    deployment_mode = balanced;
    backend_priority = cuda ∷ kt_fallback ∷ [];
    runtime_gates = [];
    prewarm_policy = "none";
    miss_policy = "fallback";
  };
}

abbrev blank_manifest : Manifest
blank_manifest = record {
  layout = empty_layout;
  gpu_hot_tiles = [];
  fallback_chain = [];
  backend_priority = [];
  runtime_gates = [];
  mode = "";
  deployment_mode = "";
  model = "";
  tilepo_plan = none;
  tilepo_policy = none;
  tilepo_async_planning = none;
  checksum = none;
}

-- The value of a result, or a default.
abbrev pub value_or {ℓ} : {A : Type ℓ} → A → Result A → A
value_or d (ok a) = a
value_or d (err e) = d

abbrev pub toy_digest : Manifest → String
toy_digest m = "digest"

unfoldable pub toy_manifest : Manifest
unfolding build_manifest
toy_manifest = value_or blank_manifest (build_manifest toy_digest ints toy_model)

-- A backend that answers with its name.
abbrev pub toy_backend : BackendHandle String
toy_backend = record { name = "cuda"; run = λ q m. ok "cuda" }

abbrev pub toy_backends : Backend → Option (BackendHandle String)
toy_backends cuda = some toy_backend
toy_backends _ = none

unfoldable pub toy_runtime : Runtime String
unfolding new_runtime toy_manifest
toy_runtime = new_runtime (record toy_manifest { tilepo_async_planning = some "on" }) toy_backends

abbrev pub toy_request : Request String
toy_request = record {
  topk = (pos 0, pos 0) ∷ [];
  force_gate_fail = false;
  require_tilemem = true;
  calibration_pass = true;
  kt_output = some "kt";
}

abbrev pub toy_capability : BackendCapability
toy_capability = record {
  name = "external";
  formats = "fp8" ∷ [];
  layouts = "none" ∷ [];
  scale_granularities = [];
  projection_groups = "down" ∷ [];
  runtime_entrypoint = "external.run";
  owns_quantization = true;
  owns_calibration = true;
  owns_quality = true;
  hardware_targets = [];
  fallback_dtype = "bf16";
}

abbrev pub toy_spec : ModelSpec ℤ
toy_spec = record {
  name = "toy";
  layers = pos 1;
  experts_per_layer = pos 2;
  hidden_size = pos 2;
  intermediate_size = pos 8;
  expert_budget = pos 1;
  workload = "mixed";
  tile = fields_of (("intermediate_tile", int (pos 4)) ∷ ("shard_count", int (pos 2)) ∷ []);
  memory = end;
  precision = end;
  schedule = end;
}
