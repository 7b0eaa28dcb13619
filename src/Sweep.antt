-- ===== src/Sweep.antt =====
-- tilepo/sweep.py: the commands of a sweep. Paths are texts, joined by a parameter; a port is a natural
-- number, as in TCP. What pathlib, uuid, `str.isalnum` and floats do are parameters too.
pub mod Bench
pub mod Runs
pub mod Ports
use Prim.Native.Char.{Char}
use Prim.Native.String.{◌++◌ as append}
use tile_mem.Common.{
  str_eq, if◌then◌else◌, ℤ, str_int, value_error, key_error, Result, err, ok, ◌>>=◌, ◌>>◌, reject,
  contains, ℕ, String, Bool, false, not, ◌&&◌, Option, none, some, List, [], ◌∷◌, ◌++◌, pos,
}

-- What the commands use of the host: `path / part`, `os.pathsep`, `char.isalnum()`, and of floats
-- `int(number)` where it is integral and `str(number)`
pub record Host : Type 1 where
  pub Float : Type 0
  pub slash : String → String → String
  pub pathsep : String
  pub is_alnum : Char → Bool
  pub integral : Float → Option ℤ
  pub str_float : Float → String

abbrev pub c_mode_choices : List String
c_mode_choices = "hook" ∷ "kt_native" ∷ []

-- `_validate_c_mode`
unfoldable pub validate_c_mode : String → Result (Unit {0})
unfolding contains
validate_c_mode c_mode =
    reject (not (contains c_mode c_mode_choices)) (value_error "unsupported c_mode")

unfoldable pub system_name_of : String → Result String
system_name_of system =
    if str_eq system "A"
    then ok "kt_uniform"
    else if str_eq system "B"
    then ok "kt_tilemem_placement"
    else if str_eq system "C"
    then ok "kt_sglang_tilepo"
    else err (key_error system)

-- The texts of a formatted string, one after the other
unfoldable pub joined : List String → String
joined [] = ""
joined (s ∷ parts) = append s (joined parts)

-- `_row_is_real_success`, on the fields of a row; none is a field that is missing or of another type.
unfoldable pub row_is_real_success : Option String → Option Bool → Option String → Bool
row_is_real_success status simulated evidence =
    elim status as (λ x. Bool) [ none ↦ false | some s ↦ str_eq s "success" ]
    && elim simulated as (λ x. Bool) [ none ↦ false | some b ↦ not b ]
    && elim evidence as (λ x. Bool) [ none ↦ false | some s ↦ str_eq s "real" ]

-- The arguments of `build_kt_sglang_server_command` that it reads
pub record ServerArguments : Type 0 where
  pub port : ℕ
  pub experts : ℤ
  pub system : String
  pub model_dir : String
  pub init_path : String
  pub kt_env : String

unfoldable pub build_kt_sglang_server_command : ServerArguments → List String
unfolding str_int contains
build_kt_sglang_server_command a =
    let strategy = if str_eq a.system "A" then "uniform" else "frequency" in
    let location =
      if contains a.system ("B" ∷ "C" ∷ [])
      then "--init-expert-location" ∷ a.init_path ∷ []
      else [] in
    ("conda"
      ∷ "run"
      ∷ "--no-capture-output"
      ∷ "-n"
      ∷ a.kt_env
      ∷ "python"
      ∷ "-m"
      ∷ "sglang.launch_server"
      ∷ "--host"
      ∷ "127.0.0.1"
      ∷ "--port"
      ∷ str_int (pos a.port)
      ∷ "--model-path"
      ∷ a.model_dir
      ∷ "--served-model-name"
      ∷ "tilemem-active"
      ∷ "--trust-remote-code"
      ∷ "--tensor-parallel-size"
      ∷ "1"
      ∷ "--context-length"
      ∷ "64"
      ∷ "--dtype"
      ∷ "bfloat16"
      ∷ "--mem-fraction-static"
      ∷ "0.70"
      ∷ "--max-running-requests"
      ∷ "1"
      ∷ "--max-total-tokens"
      ∷ "128"
      ∷ "--max-prefill-tokens"
      ∷ "64"
      ∷ "--kt-weight-path"
      ∷ a.model_dir
      ∷ "--kt-method"
      ∷ "BF16"
      ∷ "--kt-cpuinfer"
      ∷ "0"
      ∷ "--kt-threadpool-count"
      ∷ "1"
      ∷ "--kt-num-gpu-experts"
      ∷ str_int a.experts
      ∷ "--kt-expert-placement-strategy"
      ∷ strategy
      ∷ [])
    ++ location
    ++ ("--skip-server-warmup" ∷ "--disable-radix-cache" ∷ "--disable-overlap-schedule"
        ∷ "--disable-cuda-graph" ∷ "--disable-shared-experts-fusion" ∷ [])

-- What all runs of a sweep share. `tool_root` is `bench_tool.resolve().parents[1]`; the least memory
-- of Linux is passed on and never read.
pub record Settings (Float : Type 0) : Type 0 where
  pub out_dir : String
  pub model_dir : String
  pub init_path : String
  pub c_init_path : Option String
  pub tilepo_manifest_path : String
  pub mode : String
  pub bench_tool : String
  pub tool_root : String
  pub repo_root : String
  pub kt_env : String
  pub request_count : ℤ
  pub warmup_request_count : ℤ
  pub output_tokens : ℤ
  pub startup_timeout_sec : ℤ
  pub min_c_free_gib : Float
  pub min_d_free_gib : Float
  pub max_host_commit_percent : Float
  pub max_vmmem_gib : Float
  pub c_mode : String
  pub ablation_policy : String
  pub async_planning_mode : String

-- What one run has of its own. `token` is what `uuid.uuid4().hex` is for this run.
pub record Cell : Type 0 where
  pub workload : String
  pub experts : ℤ
  pub repeat : ℕ
  pub system : String
  pub port : ℕ
  pub token : String

-- The dictionary of a run; `tilepo_policy` and `tilepo_async_planning` repeat two of its fields.
pub record CommandRun : Type 0 where
  pub system : String
  pub system_name : String
  pub c_mode : String
  pub workload : String
  pub repeat : ℕ
  pub experts_per_layer : ℤ
  pub port : ℕ
  pub jsonl : String
  pub log : String
  pub plugin : String
  pub command : List String
  pub server_command : List String
  pub init_path : String
  pub effective_init_path : String
  pub c_init_path : Option String
  pub run_id : String
  pub ablation_policy : String
  pub async_planning_mode : String
