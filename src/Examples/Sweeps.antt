-- ===== src/Examples/Sweeps.antt =====
-- The runs of a small sweep.
use Prim.Native.Char.{code}
use Prim.Native.String.{◌++◌ as append}
use tile_mem.Common.{
  leb, all, contains, length, range_from, ℤ, pos, str_int, Result, err, ok, String, ◌≡◌, refl, ◌&&◌,
  none, some, List, [], ◌∷◌, map,
}
use tile_mem.Sweep.{Host, Settings, CommandRun}
use tile_mem.Sweep.Runs.{command_runs}
use tile_mem.Sweep.Ports.{place, places, command_runs-HasPlaces}

abbrev toy_host : Host
toy_host = record {
  Float = ℤ;
  slash = λ a b. append a (append "/" b);
  pathsep = ":";
  is_alnum = λ c. leb 97 (code c) && leb (code c) 122;
  integral = some;
  str_float = str_int;
}

abbrev toy_settings : Settings ℤ
toy_settings = record {
  out_dir = "out";
  model_dir = "model";
  init_path = "init.pt";
  c_init_path = none;
  tilepo_manifest_path = "manifest.json";
  mode = "serve";
  bench_tool = "bench";
  tool_root = "tools";
  repo_root = "repo";
  kt_env = "kt";
  request_count = pos 4;
  warmup_request_count = pos 2;
  output_tokens = pos 4;
  startup_timeout_sec = pos 900;
  min_c_free_gib = pos 20;
  min_d_free_gib = pos 20;
  max_host_commit_percent = pos 95;
  max_vmmem_gib = pos 0;
  c_mode = "hook";
  ablation_policy = "";
  async_planning_mode = "";
}

abbrev workloads : List String
workloads = "mixed" ∷ "long_output" ∷ []

abbrev systems : List String
systems = "A" ∷ "C" ∷ []

abbrev budgets : List ℤ
budgets = pos 4 ∷ pos 8 ∷ []

command_runs-HasPlaces_example :
    (runs : List CommandRun) × (command_runs toy_host
        (λ n. str_int (pos n))
        toy_settings
        workloads
        budgets
        (pos 2)
        systems
        34000
      ≡ ok runs)
    × (map (λ (r : CommandRun). r.port) runs
        ≡ range_from 34000 (length (places workloads budgets (pos 2) systems)))
    × (map place runs ≡ places workloads budgets (pos 2) systems)
unfolding contains all
command_runs-HasPlaces_example =
    command_runs-HasPlaces toy_host (λ n. str_int (pos n)) toy_settings refl workloads budgets
      (pos 2) systems 34000 refl

abbrev runs_or : Result (List CommandRun) → List CommandRun
runs_or (err e) = []
runs_or (ok runs) = runs

-- The logs of two runs
log_names :
    map
      (λ (r : CommandRun). r.log)
      (runs_or (
        command_runs toy_host
          (λ n. str_int (pos n))
          toy_settings
          ("mixed" ∷ [])
          (pos 4 ∷ [])
          (pos 1)
          systems
          34000))
    ≡ "out/raw/kt_uniform_experts4_mixed_rep0.log"
      ∷ "out/raw/kt_sglang_tilepo_experts4_mixed_rep0.log" ∷ []
unfolding command_runs
log_names = refl
