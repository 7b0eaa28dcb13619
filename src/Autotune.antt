-- ===== src/Autotune.antt =====
-- tilepo/autotune.py: the four deployment plans of a profile, and the choice among them. Float
-- arithmetic is a parameter: the literals, the product, the maximum and the comparison.
pub mod Choices
use tile_mem.Common.{
  leb, str_eq, if◌then◌else◌, ℤ, pos, leb_ℤ, eqb_ℤ, key_error, Result, ok, err, sort_by, ℕ, String,
  Bool, not, ◌||◌, Option, none, some, List, [], ◌∷◌, map,
}
use tile_mem.Mir.Enums.{bf16, fp8, mxfp4, cuda, tilelang, kt_fallback, dtype_text, backend_text}

pub record DeploymentPlan (F : Type 0) : Type 0 where
  pub name : String
  pub deployment_mode : String
  pub gpu_cache_budget_gib : F
  pub experts_per_layer : ℤ
  pub intermediate_tile : ℤ
  pub hidden_tile : ℤ
  pub dtype_policy : String
  pub hotset_coverage_threshold : F
  pub backend : String
  pub prewarm_policy : String
  pub miss_policy : String
  pub expected_hotset_coverage : F
  pub pareto_rank : ℤ

-- What `autotune_from_profile` reads of a `ProfileSummary`: the coverages, by increasing budget.
pub record ProfileSummary (F : Type 0) : Type 0 where
  pub budgets : List (ℤ × F)
  pub expert_churn_rate : F
  pub routing_entropy : F

pub record FloatArithmetic (F : Type 0) : Type 0 where
  pub literal : String → F
  pub product : F → F → F
  pub maximum : F → F → F
  pub less : F → F → Bool
  pub at_least : F → F → Bool

module _ {F : Type 0} (arithmetic : FloatArithmetic F) where
  open arithmetic use {literal, product, maximum, less, at_least}

  -- `_first_budget_at_or_above`
  unfoldable pub first_budget_at_or_above : List (ℤ × F) → F → Option ℤ
  first_budget_at_or_above [] threshold = none
  first_budget_at_or_above ((budget, coverage) ∷ rest) threshold =
      let later = first_budget_at_or_above rest threshold in
      if at_least coverage threshold then some budget else later

  -- `_coverage`
  unfoldable pub coverage_of : List (ℤ × F) → ℤ → F
  coverage_of [] budget = literal "0.0"
  coverage_of ((candidate, coverage) ∷ rest) budget =
      let later = coverage_of rest budget in if eqb_ℤ candidate budget then coverage else later

  -- `budgets[0][0] if budgets else 1` and `budgets[-1][0] if budgets else 1`
  abbrev first_budget : List (ℤ × F) → ℤ
  first_budget [] = pos 1
  first_budget ((budget, coverage) ∷ rest) = budget

  unfoldable pub last_budget : List (ℤ × F) → ℤ
  last_budget [] = pos 1
  last_budget ((budget, coverage) ∷ rest) = elim rest [ [] ↦ budget | _ ∷ _ ↦ last_budget rest ]

  -- `found or default`: a budget of zero counts as none.
  abbrev pub or_budget : Option ℤ → ℤ → ℤ
  or_budget none default = default
  or_budget (some n) default = if eqb_ℤ n (pos 0) then default else n

  abbrev min_ℤ : ℤ → ℤ → ℤ
  min_ℤ a b = if leb_ℤ a b then a else b

  -- The budgets of the four modes.
  pub record ModeBudgets : Type 0 where
    pub speed_budget : ℤ
    pub memory_budget : ℤ
    pub balanced_budget : ℤ
    pub safe_budget : ℤ

  unfoldable pub mode_budgets : List (ℤ × F) → ModeBudgets
  unfolding first_budget_at_or_above last_budget
  mode_budgets budgets =
      let best = last_budget budgets in
      let fast = or_budget (first_budget_at_or_above budgets (literal "0.80")) best in
      record {
        speed_budget = fast;
        memory_budget = first_budget budgets;
        balanced_budget = or_budget (first_budget_at_or_above budgets (literal "0.70")) fast;
        safe_budget = min_ℤ fast best;
      }

  abbrev pub high_churn : ProfileSummary F → Bool
  high_churn s =
      less (literal "0.65") s.expert_churn_rate || less (literal "0.85") s.routing_entropy

  unfoldable pub speed_plan : List (ℤ × F) → F → ℤ → DeploymentPlan F
  unfolding coverage_of
  speed_plan budgets gib budget = record {
    name = "speed_mode";
    deployment_mode = "speed";
    gpu_cache_budget_gib = gib;
    experts_per_layer = budget;
    intermediate_tile = pos 256;
    hidden_tile = pos 128;
    dtype_policy = dtype_text mxfp4;
    hotset_coverage_threshold = literal "0.80";
    backend = backend_text cuda;
    prewarm_policy = "hotset";
    miss_policy = "fallback";
    expected_hotset_coverage = coverage_of budgets budget;
    pareto_rank = pos 0;
  }

  unfoldable pub memory_plan : List (ℤ × F) → F → ℤ → DeploymentPlan F
  unfolding coverage_of
  memory_plan budgets gib budget = record {
    name = "memory_mode";
    deployment_mode = "memory";
    gpu_cache_budget_gib = maximum (literal "0.5") (product gib (literal "0.55"));
    experts_per_layer = budget;
    intermediate_tile = pos 128;
    hidden_tile = pos 64;
    dtype_policy = dtype_text fp8;
    hotset_coverage_threshold = literal "0.55";
    backend = backend_text cuda;
    prewarm_policy = "lazy";
    miss_policy = "fallback";
    expected_hotset_coverage = coverage_of budgets budget;
    pareto_rank = pos 0;
  }

  unfoldable pub balanced_plan : List (ℤ × F) → F → Bool → ℤ → DeploymentPlan F
  unfolding coverage_of
  balanced_plan budgets gib churns budget = record {
    name = "balanced_mode";
    deployment_mode = "balanced";
    gpu_cache_budget_gib = maximum (literal "1.0") (product gib (literal "0.75"));
    experts_per_layer = budget;
    intermediate_tile = pos 192;
    hidden_tile = pos 96;
    dtype_policy = if churns then dtype_text fp8 else dtype_text mxfp4;
    hotset_coverage_threshold = literal "0.70";
    backend = backend_text cuda;
    prewarm_policy = "hotset";
    miss_policy = "fallback";
    expected_hotset_coverage = coverage_of budgets budget;
    pareto_rank = pos 0;
  }

  unfoldable pub safe_plan : List (ℤ × F) → F → ℤ → DeploymentPlan F
  unfolding coverage_of
  safe_plan budgets gib budget = record {
    name = "safe_mode";
    deployment_mode = "safe";
    gpu_cache_budget_gib = gib;
    experts_per_layer = budget;
    intermediate_tile = pos 128;
    hidden_tile = pos 64;
    dtype_policy = dtype_text bf16;
    hotset_coverage_threshold = literal "0.0";
    backend = backend_text tilelang;
    prewarm_policy = "none";
    miss_policy = "kt_fallback";
    expected_hotset_coverage = coverage_of budgets budget;
    pareto_rank = pos 0;
  }

  -- `order[plan.name]`; the four names are the only ones.
  unfoldable pub mode_order : String → ℕ
  mode_order name =
      if str_eq name "speed_mode"
      then 0
      else if str_eq name "memory_mode"
      then 1
      else if str_eq name "balanced_mode"
      then 2
      else 3

  -- `_rank_pareto`
  unfoldable pub rank_pareto : List (DeploymentPlan F) → List (DeploymentPlan F)
  unfolding sort_by mode_order
  rank_pareto plans =
      sort_by (λ a b. leb (mode_order a.name) (mode_order b.name))
        (map (λ (p : DeploymentPlan F). record p { pareto_rank = pos 0 }) plans)

  unfoldable pub autotune_from_profile : ProfileSummary F → F → List (DeploymentPlan F)
  unfolding mode_budgets speed_plan memory_plan balanced_plan safe_plan rank_pareto
  autotune_from_profile s gib =
      let b = mode_budgets s.budgets in
      rank_pareto (
        speed_plan s.budgets gib b.speed_budget
        ∷ memory_plan s.budgets gib b.memory_budget
        ∷ balanced_plan s.budgets gib (high_churn s) b.balanced_budget
        ∷ safe_plan s.budgets gib b.safe_budget
        ∷ [])

  -- `{plan.name: plan for plan in plans}[name]`: the last plan of a name.
  unfoldable pub by_name : String → List (DeploymentPlan F) → Option (DeploymentPlan F)
  by_name name [] = none
  by_name name (plan ∷ plans) = elim (by_name name plans) [
    | some later ↦ some later
    | none ↦ if str_eq plan.name name then some plan else none
  ]

  abbrev named : String → List (DeploymentPlan F) → Result (DeploymentPlan F)
  unfolding by_name
  named name plans = elim (by_name name plans) [ none ↦ err (key_error name) | some p ↦ ok p ]

  abbrev pub kt_plan : DeploymentPlan F
  kt_plan = record {
    name = "kt_fallback";
    deployment_mode = "safe";
    gpu_cache_budget_gib = literal "0.0";
    experts_per_layer = pos 0;
    intermediate_tile = pos 0;
    hidden_tile = pos 0;
    dtype_policy = "kt";
    hotset_coverage_threshold = literal "0.0";
    backend = backend_text kt_fallback;
    prewarm_policy = "none";
    miss_policy = "kt_fallback";
    expected_hotset_coverage = literal "0.0";
    pareto_rank = pos 99;
  }

  unfoldable pub select_runtime_plan :
      List (DeploymentPlan F) → Bool → Bool → Bool → Result (DeploymentPlan F)
  unfolding named
  select_runtime_plan plans locality correct pressure =
      if not correct
      then ok kt_plan
      else if not locality
      then named "safe_mode" plans
      else if pressure
      then named "balanced_mode" plans
      else named "speed_mode" plans
