-- ===== src/Admission.antt =====
-- tilepo/admission/scheduler.py: which system is admitted for an expert budget, and which plan a
-- workload gets. Float arithmetic and `statistics.median` are parameters; of the metrics the four that
-- the decisions read are modelled.
pub mod Selected
use tile_mem.Common.{
  ltb, str_eq, if◌then◌else◌, length, take, is_empty, any, keep, ℤ, eqb_ℤ, Dict, insert, contains,
  ℕ, String, Bool, true, false, ◌&&◌, ◌||◌, Option, none, some, List, [], ◌∷◌, ◌++◌,
}

pub record FloatOps (F : Type 0) : Type 0 where
  pub literal : String → F
  pub plus : F → F → F
  pub minus : F → F → F
  pub times : F → F → F
  pub negate : F → F
  pub at_least : F → F → Bool
  pub greater : F → F → Bool
  pub is_finite : F → Bool
  pub median : List F → F

-- A measured run.
pub record Row (F : Type 0) : Type 0 where
  pub workload : String
  pub experts_per_layer : ℤ
  pub system : String
  pub tok_per_sec : Option F
  pub p95_ms : Option F
  pub p99_ms : Option F
  pub gpu_peak_gib : Option F

-- The medians of the runs of one system.
pub record Aggregate (F : Type 0) : Type 0 where
  pub repeats : ℕ
  pub median_tok : Option F
  pub median_p95 : Option F
  pub median_p99 : Option F
  pub median_gpu : Option F

pub record StrictWin : Type 0 where
  pub tok_pass : Bool
  pub p95_pass : Bool
  pub p99_pass : Bool

pub record Decision (F : Type 0) : Type 0 where
  pub workload : String
  pub experts_per_layer : ℤ
  pub admitted_tilepo : Bool
  pub kt_metrics : Aggregate F
  pub tilepo_metrics : Aggregate F
  pub strict_win : StrictWin

pub record Selection (F : Type 0) : Type 0 where
  pub selected_tilepo : Bool
  pub chosen : Decision F

abbrev pub passes : StrictWin → Bool
passes s = s.tok_pass && s.p95_pass && s.p99_pass

module _ {F : Type 0} where
  -- `grouped.get((workload, expert, system), [])`, of the rows that `_group_rows` lets in
  unfoldable pub group_rows :
      List (Row F) → List String → List ℤ → List String → String → ℤ → String → List (Row F)
  unfolding keep contains any
  group_rows rows workloads experts systems workload expert system =
      keep
        (λ (r : Row F).
          contains r.workload workloads
          && any (eqb_ℤ r.experts_per_layer) experts
          && contains r.system systems
          && str_eq r.workload workload
          && eqb_ℤ r.experts_per_layer expert
          && str_eq r.system system)
        rows

  -- The values that are there.
  unfoldable pub present : (Row F → Option F) → List (Row F) → List F
  present metric [] = []
  present metric (r ∷ rows) =
      let rest = present metric rows in elim (metric r) [ none ↦ rest | some x ↦ x ∷ rest ]

module _ {F : Type 0} (ops : FloatOps F) where
  open ops use {literal, plus, minus, times, negate, at_least, greater, is_finite, median}

  abbrev median_of : List F → Option F
  median_of [] = none
  median_of (x ∷ xs) = some (median (x ∷ xs))

  unfoldable pub aggregate : List (Row F) → Aggregate F
  unfolding present
  aggregate rows = record {
    repeats = length rows;
    median_tok = median_of (present (λ r. r.tok_per_sec) rows);
    median_p95 = median_of (present (λ r. r.p95_ms) rows);
    median_p99 = median_of (present (λ r. r.p99_ms) rows);
    median_gpu = median_of (present (λ r. r.gpu_peak_gib) rows);
  }

  abbrev both : (F → F → Bool) → Option F → Option F → Bool
  both test (some x) (some y) = test x y
  both test _ _ = false

  -- `_strict_win`: the throughput gains the threshold, and neither tail latency is worse.
  unfoldable pub strict_win_of : F → Aggregate F → Aggregate F → StrictWin
  strict_win_of threshold b c = record {
    tok_pass =
        both (λ x y. at_least x (times y (plus (literal "1.0") threshold))) c.median_tok
          b.median_tok;
    p95_pass = both (λ x y. at_least y x) c.median_p95 b.median_p95;
    p99_pass = both (λ x y. at_least y x) c.median_p99 b.median_p99;
  }

  -- One round of the inner loop of `_per_budget_decisions`: none without enough repeats.
  unfoldable pub decide : ℕ → F → String → ℤ → List (Row F) → List (Row F) → Option (Decision F)
  unfolding aggregate strict_win_of
  decide repeats threshold workload expert b_rows c_rows =
      if ltb (length b_rows) repeats || ltb (length c_rows) repeats
      then none
      else (let b = aggregate (take repeats b_rows) in
          let c = aggregate (take repeats c_rows) in
          let strict = strict_win_of threshold b c in
          some (record {
            workload = workload;
            experts_per_layer = expert;
            admitted_tilepo = passes strict;
            kt_metrics = b;
            tilepo_metrics = c;
            strict_win = strict;
          }))

  module _ (rows : String → ℤ → String → List (Row F)) (repeats : ℕ) (threshold : F) where
    unfoldable pub workload_decisions : String → List ℤ → List (Decision F)
    unfolding decide
    workload_decisions workload [] = []
    workload_decisions workload (expert ∷ experts) =
        let rest = workload_decisions workload experts in
        elim (decide repeats threshold workload expert (rows workload expert "B")
          (rows workload expert "C")) [ none ↦ rest | some d ↦ d ∷ rest ]

    -- `_per_budget_decisions`: the decisions, and the workloads without a candidate.
    unfoldable pub per_budget_decisions : List String → List ℤ → List (Decision F) × List String
    unfolding workload_decisions
    per_budget_decisions [] experts = ([], [])
    per_budget_decisions (workload ∷ workloads) experts =
        let (decisions, failures) = per_budget_decisions workloads experts in
        let own = workload_decisions workload experts in
        (own ++ decisions, if is_empty own then workload ∷ failures else failures)

  -- `_finite`
  abbrev finite_or : F → Option F → F
  finite_or default none = default
  finite_or default (some x) = if is_finite x then x else default

  -- `_score`, of the metrics of the system
  unfoldable pub score : String → Aggregate F → F
  score policy m =
      let tok = finite_or (literal "0.0") m.median_tok in
      let p95 = finite_or (literal "1000000.0") m.median_p95 in
      let gpu = finite_or (literal "1000000.0") m.median_gpu in
      if str_eq policy "tail_latency"
      then negate p95
      else if str_eq policy "memory_saving"
      then negate gpu
      else if str_eq policy "balanced"
      then minus (minus tok (times (literal "0.01") p95)) (times (literal "0.1") gpu)
      else tok

  -- `max(items, key=…)`: the first of the greatest.
  unfoldable pub best : (Decision F → F) → Decision F → List (Decision F) → Decision F
  best key d [] = d
  best key d (e ∷ es) = best key (if greater (key e) (key d) then e else d) es

  -- The choice for the decisions of one workload.
  unfoldable pub choose : String → List (Decision F) → Option (Selection F)
  unfolding best score keep
  choose policy items = elim (keep (λ (d : Decision F). d.admitted_tilepo) items) [
    | d ∷ ds ↦ some (record {
      selected_tilepo = true;
      chosen = best (λ (e : Decision F). score policy e.tilepo_metrics) d ds;
    })
    | [] ↦ elim items [
      | d ∷ ds ↦ some (record {
        selected_tilepo = false;
        chosen = best (λ (e : Decision F). score policy e.kt_metrics) d ds;
      })
      | [] ↦ none
    ]
  ]

  -- The loop of `_select_workload_plans`, over the selections so far.
  unfoldable pub select_from :
      List (Decision F) → String → Dict (Selection F) → List String → Dict (Selection F)
  unfolding choose keep insert
  select_from per_budget policy selections [] = selections
  select_from per_budget policy selections (workload ∷ workloads) =
      let items = keep (λ (d : Decision F). str_eq d.workload workload) per_budget in
      let selections' : Dict (Selection F) = elim (choose policy items) [
        | none ↦ selections
        | some s ↦ insert workload s selections
      ] in
      select_from per_budget policy selections' workloads

  -- `_select_workload_plans`
  unfoldable pub select_workload_plans :
      List (Decision F) → String → List String → Dict (Selection F)
  unfolding select_from
  select_workload_plans per_budget policy workloads = select_from per_budget policy [] workloads
