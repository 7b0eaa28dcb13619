-- ===== src/Sweep/Bench.antt =====
-- `build_tilepo_bench_command`: the names, the files and the command of one run.
use Prim.Native.Char.{code}
use Prim.Native.String.{◌++◌ as append}
use tile_mem.Common.{
  str_eq, if◌then◌else◌, str_int, Result, ok, ◌>>=◌, ◌>>◌, String, ◌&&◌, none, some, List, [], ◌∷◌,
  ◌++◌, pos, ◌||◌, ◌==◌,
}
use tile_mem.Checkpoint.Serving.{text_or}
use tile_mem.Sweep.{
  Host, validate_c_mode, system_name_of, joined, ServerArguments, build_kt_sglang_server_command,
  Settings, Cell, CommandRun,
}

module _ (host : Host) where
  open host use {Float, slash, pathsep, is_alnum, integral, str_float}

  -- `_format_number`
  unfoldable pub format_number : Float → String
  unfolding str_int
  format_number x = elim (integral x) as (λ o. String) [ none ↦ str_float x | some n ↦ str_int n ]

  -- `_safe_name`
  unfoldable pub safe_name : String → String
  safe_name String.[] = String.[]
  safe_name (String.◌∷◌ c s) =
      String.◌∷◌ (if is_alnum c || (code c == 45) || (code c == 95) then c else "_") (safe_name s)

  unfoldable pub suffix_of : Settings Float → String
  unfolding safe_name joined
  suffix_of s =
      let policy =
        if str_eq s.ablation_policy "" then "" else append "_" (safe_name s.ablation_policy) in
      let async =
        if str_eq s.async_planning_mode ""
        then ""
        else append "_async" (safe_name s.async_planning_mode) in
      append policy async

  unfoldable pub run_name_of : Settings Float → Cell → String → String
  unfolding joined str_int suffix_of
  run_name_of s c system_name = joined (
      system_name
      ∷ "_experts"
      ∷ str_int c.experts
      ∷ "_"
      ∷ c.workload
      ∷ suffix_of s
      ∷ "_rep"
      ∷ str_int (pos c.repeat)
      ∷ [])

  -- A file of the run in the directory of the raw results
  unfoldable pub raw_file : Settings Float → String → String → String
  raw_file s run_name extension = slash (slash s.out_dir "raw") (append run_name extension)

  unfoldable pub effective_init_path_of : Settings Float → Cell → String
  effective_init_path_of s c =
      if str_eq c.system "C" then text_or s.c_init_path s.init_path else s.init_path

  unfoldable pub server_arguments : Settings Float → Cell → ServerArguments
  unfolding effective_init_path_of
  server_arguments s c = record {
    port = c.port;
    experts = c.experts;
    system = if str_eq c.system "C" && str_eq s.c_mode "kt_native" then "B" else c.system;
    model_dir = s.model_dir;
    init_path = effective_init_path_of s c;
    kt_env = s.kt_env;
  }

  -- The hook's environment, for a run of system C through the hook
  unfoldable pub extra_env_of : Settings Float → Cell → String → String → List String
  unfolding raw_file joined
  extra_env_of s c run_name run_id =
      if str_eq c.system "C" && str_eq s.c_mode "hook"
      then ("--extra-env"
          ∷ "TILEPO_ENABLE=1"
          ∷ "--extra-env"
          ∷ append "TILEPO_MANIFEST=" s.tilepo_manifest_path
          ∷ "--extra-env"
          ∷ append "TILEPO_MODE=" s.mode
          ∷ "--extra-env"
          ∷ "TILEPO_BACKEND=cuda,tilelang,kt_fallback"
          ∷ "--extra-env"
          ∷ append "TILEPO_BOOTSTRAP_MARKER=" (raw_file s run_name ".tilepo_bootstrap.json")
          ∷ "--extra-env"
          ∷ append "TILEPO_RUN_ID=" run_id
          ∷ "--extra-env"
          ∷ append "TILEPO_POLICY=" s.ablation_policy
          ∷ "--extra-env"
          ∷ append "TILEPO_ASYNC_PLANNING=" s.async_planning_mode
          ∷ "--extra-env"
          ∷ joined ("PYTHONPATH=" ∷ s.repo_root ∷ pathsep ∷ s.tool_root ∷ [])
          ∷ [])
      else []

  unfoldable pub bench_command : Settings Float → Cell → String → String → List String → List String
  unfolding raw_file extra_env_of format_number str_int
  bench_command s c run_name run_id server =
      ("python3"
        ∷ s.bench_tool
        ∷ "--out"
        ∷ raw_file s run_name ".jsonl"
        ∷ "--log"
        ∷ raw_file s run_name ".log"
        ∷ "--system"
        ∷ c.system
        ∷ "--run-name"
        ∷ run_name
        ∷ "--model"
        ∷ "OLMoE-1B-7B"
        ∷ "--host"
        ∷ "127.0.0.1"
        ∷ "--served-model-name"
        ∷ "tilemem-active"
        ∷ "--request-count"
        ∷ str_int s.request_count
        ∷ "--warmup-request-count"
        ∷ str_int s.warmup_request_count
        ∷ "--output-tokens"
        ∷ str_int s.output_tokens
        ∷ "--startup-timeout-sec"
        ∷ str_int s.startup_timeout_sec
        ∷ "--request-timeout-sec"
        ∷ "300"
        ∷ "--evidence-level"
        ∷ "real"
        ∷ "--port"
        ∷ str_int (pos c.port)
        ∷ "--prompts-file"
        ∷ slash (slash s.out_dir "prompts") (append c.workload ".txt")
        ∷ "--runtime-dir"
        ∷ slash (slash s.out_dir "runtime") run_name
        ∷ "--native-tmp-dir"
        ∷ slash "/tmp" (append "tilepo_" run_name)
        ∷ "--plugin-out"
        ∷ raw_file s run_name ".plugin.json"
        ∷ "--min-c-free-gib"
        ∷ format_number s.min_c_free_gib
        ∷ "--min-d-free-gib"
        ∷ format_number s.min_d_free_gib
        ∷ "--max-host-commit-percent"
        ∷ format_number s.max_host_commit_percent
        ∷ "--max-vmmem-gib"
        ∷ format_number s.max_vmmem_gib
        ∷ [])
      ++ extra_env_of s c run_name run_id
      ++ ("--server-command" ∷ server)

  unfoldable pub command_run_of : Settings Float → Cell → String → CommandRun
  unfolding run_name_of raw_file server_arguments build_kt_sglang_server_command bench_command
  command_run_of s c system_name =
      let run_name = run_name_of s c system_name in
      let server = build_kt_sglang_server_command (server_arguments s c) in
      let run_id = joined (run_name ∷ "-" ∷ c.token ∷ []) in
      record {
        system = c.system;
        system_name = system_name;
        c_mode = s.c_mode;
        workload = c.workload;
        repeat = c.repeat;
        experts_per_layer = c.experts;
        port = c.port;
        jsonl = raw_file s run_name ".jsonl";
        log = raw_file s run_name ".log";
        plugin = raw_file s run_name ".plugin.json";
        command = bench_command s c run_name run_id server;
        server_command = server;
        init_path = s.init_path;
        effective_init_path = effective_init_path_of s c;
        c_init_path = s.c_init_path;
        run_id = run_id;
        ablation_policy = s.ablation_policy;
        async_planning_mode = s.async_planning_mode;
      }

  unfoldable pub build_tilepo_bench_command : Settings Float → Cell → Result CommandRun
  unfolding validate_c_mode system_name_of command_run_of
  build_tilepo_bench_command s c = do
    validate_c_mode s.c_mode
    system_name ← system_name_of c.system
    ok (command_run_of s c system_name)
