-- ===== src/Examples/Admissions.antt =====
-- An admission over two budgets of one workload.
use tile_mem.Common.{
  ℤ, pos, ◌+ℤ◌, ltb_ℤ, leb_ℤ, lookup, get_or, String, refl, true, false, none, some, List, [], ◌∷◌,
}
use tile_mem.Admission.{
  FloatOps, Row, Decision, Selection, group_rows, aggregate, strict_win_of, per_budget_decisions,
  select_workload_plans,
}
use tile_mem.Admission.Selected.{IsChosen, of_workload, select_workload_plans-IsChosen}

first_of : List ℤ → ℤ
first_of [] = pos 0
first_of (x ∷ xs) = x

toy_ops : FloatOps ℤ
unfolding first_of
toy_ops = record {
  literal = λ s. pos 1;
  plus = λ a b. a +ℤ b;
  minus = λ a b. a;
  times = λ a b. a;
  negate = λ a. a;
  at_least = λ a b. leb_ℤ b a;
  greater = λ a b. ltb_ℤ b a;
  is_finite = λ a. true;
  median = first_of;
}

toy_row : String → ℤ → ℤ → Row ℤ
toy_row system expert tok = record {
  workload = "mixed";
  experts_per_layer = expert;
  system = system;
  tok_per_sec = some tok;
  p95_ms = some (pos 10);
  p99_ms = some (pos 20);
  gpu_peak_gib = none;
}

toy_rows : String → ℤ → String → List (Row ℤ)
unfolding group_rows toy_row
toy_rows =
    group_rows
      (toy_row "B" (pos 4) (pos 100)
        ∷ toy_row "C" (pos 4) (pos 130)
        ∷ toy_row "B" (pos 8) (pos 100)
        ∷ [])
      ("mixed" ∷ []) (pos 4 ∷ pos 8 ∷ []) ("B" ∷ "C" ∷ [])

toy_decisions : List (Decision ℤ)
unfolding per_budget_decisions toy_rows toy_ops
toy_decisions =
    (per_budget_decisions toy_ops toy_rows 1 (pos 0) ("mixed" ∷ []) (pos 4 ∷ pos 8 ∷ [])).0

-- A decision to fall back on where there is none.
spare : Decision ℤ
unfolding aggregate strict_win_of toy_ops
spare = record {
  workload = "";
  experts_per_layer = pos 0;
  admitted_tilepo = false;
  kt_metrics = aggregate toy_ops [];
  tilepo_metrics = aggregate toy_ops [];
  strict_win = strict_win_of toy_ops (pos 0) (aggregate toy_ops []) (aggregate toy_ops []);
}

toy_selection : Selection ℤ
unfolding select_workload_plans toy_decisions spare
toy_selection =
    get_or "mixed" (record { selected_tilepo = false; chosen = spare })
      (select_workload_plans toy_ops toy_decisions "balanced" ("mixed" ∷ []))

select_workload_plans-IsChosen_example :
    IsChosen toy_ops (of_workload toy_ops "mixed" toy_decisions) toy_selection
unfolding toy_selection lookup get_or
select_workload_plans-IsChosen_example =
    select_workload_plans-IsChosen toy_ops toy_decisions "balanced" ("mixed" ∷ []) "mixed"
      toy_selection refl
