-- ===== src/Checkpoint/Serving.antt =====
-- `build_serving_command` and `run_serving_backend`: the command that serves a checkpoint, and what
-- comes of it. Paths are texts; `str.lower`, `sys.executable`, the root of the repository and the run
-- of the command are parameters.
use Prim.Native.Char.{code}
use Prim.Native.String.{◌++◌ as append}
use tile_mem.Common.{
  ◌==◌, str_eq, if◌then◌else◌, ℤ, pos, eqb_ℤ, str_int, Dict, value_error, Result, err, ok, ◌>>=◌,
  contains, String, Bool, true, not, Option, none, some, List, [], ◌∷◌,
}

pub record ServingCommand : Type 0 where
  pub backend : String
  pub command : List String
  pub cwd : String
  pub env : Dict String
  pub execute_supported : Bool

pub record ServingResult : Type 0 where
  pub backend : String
  pub status : String
  pub returncode : ℤ
  pub command : List String
  pub stdout : String
  pub stderr : String

-- How `subprocess.run` ends: with a return code and two texts, or by a timeout with what had been
-- written until then.
pub data Run : Type 0 where
  completed : ℤ → String → String → Run
  timed_out : Option String → Option String → Run

-- `text.replace("-", "_")`
unfoldable pub underscored : String → String
underscored String.[] = String.[]
underscored (String.◌∷◌ c s) = String.◌∷◌ (if code c == 45 then "_" else c) (underscored s)

-- What the functions take of their arguments
pub record ServingRequest : Type 0 where
  pub checkpoint_dir : String
  pub backend : String
  pub plan_path : String
  pub out_dir : Option String
  pub expert_budget : Option ℤ
  pub port : ℤ
  pub python_executable : Option String

-- `value or default` for a text
abbrev pub text_or : Option String → String → String
text_or none default = default
text_or (some s) default = if str_eq s "" then default else s

-- `str(expert_budget or 0)`
abbrev pub budget_text : Option ℤ → String
unfolding str_int
budget_text none = "0"
budget_text (some n) = str_int n

module _ (lower : String → String) (executable root : String) where
  -- `_normalize_backend`
  unfoldable pub normalize_backend : String → String
  unfolding underscored contains
  normalize_backend backend =
      let name = underscored (lower backend) in
      if contains name ("kt" ∷ "kt_native" ∷ "ktransformers" ∷ [])
      then "kt_native"
      else if contains name ("sglang" ∷ "sglang_kt" ∷ [])
      then "sglang"
      else name

  unfoldable pub sglang_command : ServingRequest → List String
  sglang_command r =
      text_or r.python_executable executable
      ∷ "-m"
      ∷ "sglang.launch_server"
      ∷ "--model-path"
      ∷ r.checkpoint_dir
      ∷ "--host"
      ∷ "127.0.0.1"
      ∷ "--port"
      ∷ str_int r.port
      ∷ "--kt-method"
      ∷ "BF16"
      ∷ "--kt-num-gpu-experts"
      ∷ budget_text r.expert_budget
      ∷ "--kt-expert-placement-strategy"
      ∷ "frequency"
      ∷ []

  abbrev pub default_out_dir : String
  default_out_dir = append root "/build/tilemem_checkpoint_serving"

  unfoldable pub kt_command : ServingRequest → Bool → List String
  kt_command r dry_run =
      text_or r.python_executable executable
      ∷ append root "/tools/run_tilepo_sweep"
      ∷ "--mode"
      ∷ "serve"
      ∷ "--c-mode"
      ∷ "kt_native"
      ∷ "--plan"
      ∷ r.plan_path
      ∷ "--out-dir"
      ∷ elim r.out_dir as (λ x. String) [ none ↦ default_out_dir | some dir ↦ dir ]
      ∷ "--workloads"
      ∷ "mixed"
      ∷ "--experts"
      ∷ budget_text r.expert_budget
      ∷ "--systems"
      ∷ "B,C"
      ∷ "--repeats"
      ∷ "1"
      ∷ "--request-count"
      ∷ "1"
      ∷ "--warmup-request-count"
      ∷ "0"
      ∷ "--output-tokens"
      ∷ "4"
      ∷ "--model-dir"
      ∷ r.checkpoint_dir
      ∷ "--min-linux-available-gib"
      ∷ "8"
      ∷ (if dry_run then "--dry-run-commands" else "--execute")
      ∷ []

  serving_command : ServingRequest → String → List String → ServingCommand
  serving_command r backend command = record {
    backend = backend;
    command = command;
    cwd = root;
    env = ("TILEMEM_MODEL_PATH", r.checkpoint_dir) ∷ ("TILEMEM_PLAN", r.plan_path) ∷ [];
    execute_supported = true;
  }

  unfoldable pub build_serving_command : ServingRequest → Bool → Result ServingCommand
  unfolding normalize_backend serving_command sglang_command kt_command
  build_serving_command r dry_run =
      let backend = normalize_backend r.backend in
      if str_eq backend "sglang"
      then ok (serving_command r backend (sglang_command r))
      else if str_eq backend "kt_native"
      then ok (serving_command r backend (kt_command r dry_run))
      else err (value_error (append "unsupported serving backend: " backend))

  -- `_decode_timeout_stream` of a text
  abbrev decoded : Option String → String
  decoded none = ""
  decoded (some s) = s

  finished : ServingCommand → Run → ServingResult
  finished c (completed code out errors) = record {
    backend = c.backend;
    status = if eqb_ℤ code (pos 0) then "completed" else "failed";
    returncode = code;
    command = c.command;
    stdout = out;
    stderr = errors;
  }
  finished c (timed_out out errors) = record {
    backend = c.backend;
    status = "timeout";
    returncode = pos 124;
    command = c.command;
    stdout = decoded out;
    stderr = decoded errors;
  }

  dry_run_result : ServingCommand → ServingResult
  dry_run_result c = record {
    backend = c.backend;
    status = "dry_run";
    returncode = pos 0;
    command = c.command;
    stdout = "";
    stderr = "";
  }

  -- `run_serving_backend` leaves the port and the interpreter to their defaults.
  abbrev pub backend_request : ServingRequest → ServingRequest
  backend_request r = record r { port = pos 34000; python_executable = none }

  -- The command is run only when `execute` is set.
  unfoldable pub run_serving_backend :
      (ServingCommand → Run) → ServingRequest → Bool → Result ServingResult
  unfolding build_serving_command finished dry_run_result
  run_serving_backend run r execute =
      build_serving_command (backend_request r) (not execute)
      >>= (λ c. ok (if execute then finished c (run c) else dry_run_result c))
