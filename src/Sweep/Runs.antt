-- ===== src/Sweep/Runs.antt =====
-- `_command_runs`: the loops over workloads, budgets, repeats and systems, and the ports they give out.
use tile_mem.Common.{range, pos_part, ℤ, Result, ok, ◌>>=◌, ℕ, ◌+◌, String, List, [], ◌∷◌, ◌++◌}
use tile_mem.Sweep.{Host, Settings, CommandRun}
use tile_mem.Sweep.Bench.{build_tilepo_bench_command}

-- The runs so far and the next port
abbrev pub Numbered : Type 0
Numbered = List CommandRun × ℕ

-- `for x in xs`, around a body that appends runs and moves the port on
unfoldable pub for_each : {A : Type 0} → (A → ℕ → Result Numbered) → List A → ℕ → Result Numbered
for_each body [] port = ok ([], port)
for_each body (x ∷ xs) port = do
  first ← body x port
  others ← for_each body xs first.1
  ok (first.0 ++ others.0, others.1)

module _ (host : Host) (token : ℕ → String) (s : Settings host.Float) where
  -- The body of the innermost loop. `token` is the identifier drawn for the run on a port.
  unfoldable pub one_run : String → ℤ → ℕ → String → ℕ → Result Numbered
  unfolding build_tilepo_bench_command
  one_run workload experts repeat system port = do
    run ← build_tilepo_bench_command host s (record {
      workload = workload;
      experts = experts;
      repeat = repeat;
      system = system;
      port = port;
      token = token port;
    })
    ok (run ∷ [], port + 1)

  unfoldable pub command_runs :
      List String → List ℤ → ℤ → List String → ℕ → Result (List CommandRun)
  unfolding for_each one_run range
  command_runs workloads experts repeats systems base_port = do
    runs ←
        for_each
          (λ workload.
            for_each
              (λ budget.
                for_each (λ repeat. for_each (one_run workload budget repeat) systems)
                  (range (pos_part repeats)))
              experts)
          workloads base_port
    ok runs.0
