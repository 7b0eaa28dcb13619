-- ===== src/Examples/Patches.antt =====
-- The patch, the finalizer, the profile, the reference computations and the settings on small inputs.
use tile_mem.Common.{
  contains, All, if◌then◌else◌, length, ℤ, pos, pos_part, ◌+ℤ◌, ◌-ℤ◌, leb_ℤ, Dict, lookup, Result,
  ok, ℕ, suc, ◌+◌, ◌*◌, ◌≤◌, ◌<◌, String, ◌≡◌, refl, true, false, none, some, List, [], ◌∷◌, arith,
}
use tile_mem.Values.{Value, int, Fields, end, field, int_of_text}
use tile_mem.Mir.Model.{
  tile_validate, route_validate, precision_validate, schedule_validate, residency_validate,
}
use tile_mem.Mir.Enums.{verify}
use tile_mem.Runtime.Engine.{Request, new_runtime}
use tile_mem.KtPatch.{ErrorFloats, Patch, run, new_patch}
use tile_mem.KtPatch.Served.{handled, Serves, run-Serves}
use tile_mem.Finalizer.{InputFile, copy_inputs}
use tile_mem.Finalizer.Names.{all_different, copy_inputs-all_different}
use tile_mem.Kernels.{Arithmetic, has_width, routed_moe}
use tile_mem.Kernels.Returns.{Yields, routed_moe-Yields}
use tile_mem.Kernels.Routed.{Fits, IsRouted, routed_moe-IsRouted}
use tile_mem.Profiling.{Ratios, ProfileRow, total_count, rows_of, ProfileSummary, profile_rows}
use tile_mem.Profiling.Hits.{row_total, profile_rows-total}
use tile_mem.Env.{hook_flush_interval, should_flush}
use tile_mem.Env.Limits.{should_flush-recurs}
use tile_mem.Examples.{ints, value_or, toy_manifest}

abbrev int_errors : ErrorFloats ℤ
int_errors = record {
  infinity = pos 1000;
  distance = λ x y. if leb_ℤ x y then y -ℤ x else x -ℤ y;
  le = leb_ℤ;
}

abbrev server_call : Request (Value ℤ) → Result (Fields ℤ)
server_call q = ok (field "output" (int (pos 7)) end)

abbrev patch_request : Request (Value ℤ)
patch_request = record {
  topk = (pos 0, pos 0) ∷ [];
  force_gate_fail = false;
  require_tilemem = false;
  calibration_pass = true;
  kt_output = none;
}

toy_patch : Patch ℤ
unfolding new_patch new_runtime
toy_patch = new_patch ints (new_runtime toy_manifest (λ b. none)) verify (pos 0)

run-Serves_example :
    Serves ints int_errors server_call toy_patch.mode patch_request toy_patch
      (field "output" (int (pos 7)) end)
    × (handled ints int_errors server_call
          (run ints int_errors server_call patch_request toy_patch).1.metrics
        ≡ suc (handled ints int_errors server_call toy_patch.metrics))
unfolding toy_patch run toy_manifest route_validate int_of_text tile_validate residency_validate
    precision_validate schedule_validate
run-Serves_example =
    run-Serves ints int_errors server_call patch_request toy_patch
      (field "output" (int (pos 7)) end) refl

abbrev toy_files : List InputFile
toy_files =
    record { name = "plan.json"; exists = true }
    ∷ record { name = "plan.json"; exists = true }
    ∷ record { name = "report.json"; exists = true }
    ∷ []

copy_inputs-all_different_example :
    (names : List String) × (copy_inputs toy_files [] ≡ ok names)
    × (length names ≡ length toy_files)
    × (all_different names ≡ true)
copy_inputs-all_different_example =
    copy_inputs-all_different toy_files (refl, (refl, (refl, tt))) (omega arith)

abbrev naturals : Arithmetic
naturals = record {
  Float = ℕ;
  nought = 0;
  add = λ x y. x + y;
  mul = λ x y. x * y;
  rounded = λ k x. ok x;
  silu = λ x. ok x;
}

abbrev one_score : List ℕ
one_score = 1 ∷ []

abbrev two_hidden : List ℕ
two_hidden = 1 ∷ 2 ∷ []

abbrev two_outputs : List ℕ
two_outputs = 6 ∷ 8 ∷ []

abbrev gate_up_weights : List (List (List ℕ))
gate_up_weights = ((1 ∷ 0 ∷ []) ∷ (0 ∷ 1 ∷ []) ∷ []) ∷ []

abbrev down_weights : List (List (List ℕ))
down_weights = ((3 ∷ 4 ∷ []) ∷ []) ∷ []

routed_moe-Yields_example :
    Yields naturals
      (λ (out : List ℕ). length out ≡ length two_hidden)
      (routed_moe naturals two_hidden gate_up_weights down_weights (pos 0 ∷ []) one_score "bf16")
unfolding contains IsRouted Fits has_width
routed_moe-Yields_example =
    routed_moe-Yields naturals two_hidden gate_up_weights down_weights (pos 0 ∷ []) one_score "bf16"
      refl refl refl refl refl
      (
        (
          (1 ∷ 0 ∷ []) ∷ (0 ∷ 1 ∷ []) ∷ [],
          (3 ∷ 4 ∷ []) ∷ [],
          refl,
          refl,
          refl,
          (refl, refl, refl, refl, refl, refl),
        ),
        tt,
      )

routed_moe-IsRouted_example :
    (length (pos 0 ∷ []) ≡ length one_score)
    × (length two_outputs ≡ length two_hidden)
    × All (IsRouted naturals (length two_hidden) gate_up_weights down_weights) (pos 0 ∷ [])
unfolding routed_moe
routed_moe-IsRouted_example =
    routed_moe-IsRouted naturals two_hidden gate_up_weights down_weights (pos 0 ∷ []) one_score
      "bf16" two_outputs refl refl

abbrev toy_environ : Dict String
toy_environ = ("TILEPO_HOOK_FLUSH_INTERVAL", "5") ∷ []

should_flush-recurs_example :
    (m : ℕ) × (7 ≤ m)
    × (m < 7 + pos_part (hook_flush_interval toy_environ))
    × (should_flush m toy_environ ≡ true)
should_flush-recurs_example = should_flush-recurs toy_environ 7

abbrev int_ratios : Ratios
int_ratios = record {
  Float = ℤ;
  nought = pos 0;
  one = pos 1;
  ratio = λ x y. x;
  sub = λ x y. x -ℤ y;
  add = λ x y. x +ℤ y;
  mul = λ x y. x;
  div = λ x y. x;
  log = λ x. ok x;
  of_count = λ n. pos n;
}

abbrev toy_rows : List ProfileRow
toy_rows =
    record {
      workload = none;
      route_trace = [];
      routed = some (pos 0, pos 3);
      count = pos 2;
      request_id = some "a";
    }
    ∷ record {
      workload = some "mixed";
      route_trace = record { layer = pos 0; expert = pos 1; count = pos 5 } ∷ [];
      routed = none;
      count = pos 1;
      request_id = none;
    }
    ∷ []

abbrev blank_summary : ProfileSummary int_ratios
blank_summary = record {
  workload_label = "";
  routing_entropy = pos 0;
  hotset_coverage = [];
  expert_hits = [];
  layer_hotness = [];
  expert_churn_rate = pos 0;
}

toy_summary : ProfileSummary int_ratios
unfolding profile_rows
toy_summary = value_or blank_summary (profile_rows int_ratios toy_rows "mixed" (1 ∷ 2 ∷ []))

profile_rows-total_example :
    (total_count toy_summary.expert_hits ≡ row_total (rows_of "mixed" toy_rows))
    × (total_count toy_summary.layer_hotness ≡ row_total (rows_of "mixed" toy_rows))
unfolding toy_summary ◌+ℤ◌ lookup
profile_rows-total_example =
    profile_rows-total int_ratios toy_rows "mixed" (1 ∷ 2 ∷ []) toy_summary refl
