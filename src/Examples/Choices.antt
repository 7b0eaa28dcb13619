-- ===== src/Examples/Choices.antt =====
-- Profiles, rankings, calibration and a compiled plan.
use mathlib.Core.List.{Perm}
use tile_mem.Common.{
  ℕ, map, str_eq, if◌then◌else◌, contains, min, ◌≤◌, length, range, All, ℤ, pos, ◌+ℤ◌, ltb_ℤ, leb_ℤ,
  dec, ok, String, ◌≡◌, refl, true, not, Option, none, some, List, [], ◌∷◌,
}
use tile_mem.Mir.Enums.{mode_of, backend_of, deployment_of}
use tile_mem.Ablation.{hot_budget, render_tilepo_plan}
use tile_mem.Ablation.Rendered.{promised, Holds, render_tilepo_plan-IsRendered}
use tile_mem.Dsl.{DslBlock, parse_tmem}
use tile_mem.Dsl.Blocks.{HasBlocks, parse_tmem-HasBlocks}
use tile_mem.Values.{Value, int, str, int_of_text}
use tile_mem.Mir.Model.{
  tile_validate, route_validate, precision_validate, schedule_validate, residency_validate,
  model_validate,
}
use tile_mem.Mir.Manifest.Packing.{IsLaidOut}
use tile_mem.Autotune.{
  DeploymentPlan, ProfileSummary, FloatArithmetic, mode_budgets, high_churn, speed_plan,
  balanced_plan, safe_plan, autotune_from_profile, kt_plan, select_runtime_plan,
}
use tile_mem.Autotune.Choices.{IsLast, Reaches, select_runtime_plan-autotune_from_profile}
use tile_mem.Hotset.{numbered, ScoreArithmetic, rank_layer}
use tile_mem.Hotset.Ranking.{HotFirst, rank_layer-HotFirst}
use tile_mem.Compiler.Drivers.{CompileResult, compile_plan}
use tile_mem.Compiler.Drivers.Layouts.{compile_plan-IsLaidOut}
use tile_mem.Examples.{ints, toy_model, value_or, toy_digest, toy_manifest}

-- Percent as integers: a literal is read as 70 where it is not known.
toy_arithmetic : FloatArithmetic ℤ
toy_arithmetic = record {
  literal = λ s. if str_eq s "0.80" then pos 80 else pos 70;
  product = λ a b. a;
  maximum = λ a b. a;
  less = ltb_ℤ;
  at_least = λ a b. leb_ℤ b a;
}

toy_budgets : List (ℤ × ℤ)
toy_budgets = (pos 2, pos 60) ∷ (pos 4, pos 75) ∷ (pos 8, pos 90) ∷ []

toy_profile : ProfileSummary ℤ
unfolding toy_budgets
toy_profile = record { budgets = toy_budgets; expert_churn_rate = pos 10; routing_entropy = pos 10 }

select_runtime_plan-autotune_from_profile_example :
    (let b = mode_budgets toy_arithmetic toy_profile.budgets in
      (map
          (λ (p : DeploymentPlan ℤ). p.name)
          (autotune_from_profile toy_arithmetic toy_profile (pos 4))
        ≡ "speed_mode" ∷ "memory_mode" ∷ "balanced_mode" ∷ "safe_mode" ∷ [])
      × (select_runtime_plan toy_arithmetic
            (autotune_from_profile toy_arithmetic toy_profile (pos 4))
            true
            true
            true
          ≡ ok (
              if not true
              then kt_plan toy_arithmetic
              else if not true
              then safe_plan toy_arithmetic toy_profile.budgets (pos 4) b.safe_budget
              else if true
              then balanced_plan toy_arithmetic toy_profile.budgets
                  (pos 4)
                  (high_churn toy_arithmetic toy_profile)
                  b.balanced_budget
              else speed_plan toy_arithmetic toy_profile.budgets (pos 4) b.speed_budget))
      × ((best : ℤ) × IsLast toy_arithmetic toy_profile.budgets best
          × Reaches toy_arithmetic toy_profile.budgets
              (toy_arithmetic.literal "0.80")
              best
              b.speed_budget)
      × Reaches toy_arithmetic toy_profile.budgets
          (toy_arithmetic.literal "0.70")
          b.speed_budget
          b.balanced_budget)
unfolding toy_profile
select_runtime_plan-autotune_from_profile_example =
    select_runtime_plan-autotune_from_profile toy_arithmetic toy_profile (pos 4) true true true
      (refl, (refl, (refl, tt)))

toy_scores : ScoreArithmetic ℤ
toy_scores = record {
  literal = λ s. pos 1;
  of_count = λ n. pos n;
  sum = λ a b. a +ℤ b;
  product = λ a b. a;
  less = ltb_ℤ;
}

toy_counts : List ℤ
toy_counts = pos 5 ∷ pos 9 ∷ pos 5 ∷ []

rank_layer-HotFirst_example :
    (ranked : List (ℕ × ℤ)) × (rank_layer toy_scores toy_counts ≡ map (λ p. p.0) ranked)
    × Perm ranked (numbered toy_scores 0 toy_counts)
    × Perm (rank_layer toy_scores toy_counts) (range (length toy_counts))
    × HotFirst toy_scores ranked
rank_layer-HotFirst_example = rank_layer-HotFirst toy_scores toy_counts

-- Integers are read; any other text stands for itself.
toy_literal : String → Option (Value ℤ)
unfolding int_of_text
toy_literal s = elim (int_of_text s) as (λ x. Option (Value ℤ)) [
  | none ↦ some (str s)
  | some n ↦ some (int n)
]

toy_lines : List String
toy_lines =
    "model toy {" ∷ "  layers = 1" ∷ "  experts_per_layer = 2  # two experts" ∷ "  hidden_size = 2"
    ∷ "  intermediate_size = 8" ∷ "}" ∷ "workload mixed {" ∷ "}" ∷ "tile cut {"
    ∷ "  shard_count = 2" ∷ "  hidden_tile = 4" ∷ "  intermediate_tile = 4"
    ∷ "  tile_policy = tilepo_hybrid" ∷ "}" ∷ "memory small {" ∷ "  experts_per_layer = 1" ∷ "}"
    ∷ "precision plain {" ∷ "}" ∷ "schedule plain {" ∷ "  async_planning = true" ∷ "}"
    ∷ "autotune plain {" ∷ "}" ∷ "runtime plain {" ∷ "}" ∷ []

lower_nothing : String → String
lower_nothing s = s

toy_compiled : CompileResult ℤ
unfolding compile_plan toy_lines toy_literal lower_nothing toy_manifest
toy_compiled =
    value_or (record { mir = toy_model; manifest = toy_manifest })
      (compile_plan toy_digest ints lower_nothing toy_literal toy_lines)

compile_plan-IsLaidOut_example :
    (model_validate ints toy_compiled.mir ≡ ok tt) × IsLaidOut toy_compiled.manifest.layout
unfolding toy_compiled mode_of deployment_of backend_of dec route_validate tile_validate
    residency_validate precision_validate schedule_validate
compile_plan-IsLaidOut_example =
    compile_plan-IsLaidOut toy_digest ints lower_nothing toy_literal toy_lines toy_compiled refl

toy_blocks : List (DslBlock ℤ)
unfolding parse_tmem toy_lines toy_literal lower_nothing
toy_blocks = value_or [] (parse_tmem lower_nothing toy_literal toy_lines)

parse_tmem-HasBlocks_example : HasBlocks toy_blocks
unfolding toy_blocks
parse_tmem-HasBlocks_example =
    parse_tmem-HasBlocks lower_nothing toy_literal toy_lines toy_blocks refl

render_tilepo_plan-IsRendered_example :
    (out : List (DslBlock ℤ)) × (render_tilepo_plan lower_nothing toy_literal toy_lines
        (pos 4)
        "tilepo_hybrid"
        true
      ≡ ok out)
    × HasBlocks out
    × All (λ b. Holds (promised "tilepo_hybrid" (pos 4) true b.kind) b) out
    × (1 ≤ hot_budget 4)
    × (hot_budget 4 ≤ min 4 4)
unfolding toy_blocks contains
render_tilepo_plan-IsRendered_example =
    render_tilepo_plan-IsRendered lower_nothing toy_literal toy_lines toy_blocks "tilepo_hybrid"
      (pos 4) true refl refl refl
