-- ===== src/Autotune/Choices.antt =====
-- The choice among the plans of a profile.
use tile_mem.Common.{
  if◌then◌else◌, Bool-cases, All, ℤ, ok, pos, eqb_ℤ, Option-cases, none, map, subst, ◌⊎◌, ◌≡◌, refl,
  ap, inl, inr, Bool, true, false, not, some, List, [], ◌∷◌, ◌++◌,
}
use tile_mem.Autotune.{
  last_budget, or_budget, DeploymentPlan, ProfileSummary, FloatArithmetic, first_budget_at_or_above,
  mode_budgets, high_churn, speed_plan, balanced_plan, safe_plan, autotune_from_profile, kt_plan,
  select_runtime_plan,
}

found : (m n : ℤ) → some m ≡ some n → m ≡ n
found m n h = cc

nothing : {n : ℤ} → some n ≡ none → ⊥
nothing h = cc

middle :
    {F : Type 0} (n : ℤ) (x : F) (before after budgets : List (ℤ × F))
    → budgets ≡ before ++ ((n, x) ∷ after)
    → All (λ entry. eqb_ℤ entry.0 (pos 0) ≡ false) budgets
    → eqb_ℤ n (pos 0) ≡ false
middle n x before after budgets e h =
    at before (subst (All (λ entry. eqb_ℤ entry.0 (pos 0) ≡ false)) e h)
  where
    at :
        (l : List _)
        → All (λ entry. eqb_ℤ entry.0 (pos 0) ≡ false) (l ++ ((n, x) ∷ after))
        → eqb_ℤ n (pos 0) ≡ false
    at [] (here, _) = here
    at (y ∷ ys) (_, there) = at ys there

module _ {F : Type 0} (arithmetic : FloatArithmetic F) where
  -- A budget that is found is one of the profile's, its coverage reaches the threshold, and no budget
  -- before it does.
  pub first_budget_at_or_above_lem :
      (budgets : List (ℤ × F)) (threshold : F) (n : ℤ)
      → first_budget_at_or_above arithmetic budgets threshold ≡ some n
      → (before after : List (ℤ × F)) × (x : F) × (budgets ≡ before ++ ((n, x) ∷ after))
        × (arithmetic.at_least x threshold ≡ true)
        × All (λ entry. arithmetic.at_least entry.1 threshold ≡ false) before
  unfolding first_budget_at_or_above
  first_budget_at_or_above_lem [] threshold n h = cc
  first_budget_at_or_above_lem ((m, x) ∷ rest) threshold n h =
      elim (Bool-cases (arithmetic.at_least x threshold)) [
        | inl e ↦ ([], rest, x, ap (λ k. (k, x) ∷ rest) (found m n (rw e at h)), e, tt)
        | inr e ↦
            let (before, after, y, split, reaches, none_before) =
              first_budget_at_or_above_lem rest threshold n (rw e at h) in
            ((m, x) ∷ before, after, y, ap (λ l. (m, x) ∷ l) split, reaches, (e, none_before))
      ]

  -- The budget is the first of the profile's whose coverage reaches the threshold.
  IsFirst : List (ℤ × F) → F → ℤ → Type 0
  IsFirst budgets threshold n =
      (before after : List (ℤ × F)) × (x : F) × (budgets ≡ before ++ ((n, x) ∷ after))
      × (arithmetic.at_least x threshold ≡ true)
      × All (λ entry. arithmetic.at_least entry.1 threshold ≡ false) before

  -- It is the first that reaches the threshold, or none does and it is the given one.
  pub Reaches : List (ℤ × F) → F → ℤ → ℤ → Type 0
  Reaches budgets threshold otherwise n =
      IsFirst budgets threshold n
      ⊎ (All (λ entry. arithmetic.at_least entry.1 threshold ≡ false) budgets × (n ≡ otherwise))

  -- It is the last of the profile's budgets, or one where there are none.
  pub IsLast : List (ℤ × F) → ℤ → Type 0
  IsLast budgets n =
      ((before : List (ℤ × F)) × (x : F) × (budgets ≡ before ++ ((n, x) ∷ [])))
      ⊎ ((budgets ≡ []) × (n ≡ pos 1))

  none_reaches :
      (budgets : List (ℤ × F)) (threshold : F)
      → first_budget_at_or_above arithmetic budgets threshold ≡ none
      → All (λ entry. arithmetic.at_least entry.1 threshold ≡ false) budgets
  unfolding first_budget_at_or_above
  none_reaches [] threshold h = tt
  none_reaches ((m, x) ∷ rest) threshold h = elim (Bool-cases (arithmetic.at_least x threshold)) [
    | inl e ↦ absurd (nothing (rw e at h))
    | inr e ↦ (e, none_reaches rest threshold (rw e at h))
  ]

  last_budget-IsLast : (budgets : List (ℤ × F)) → IsLast budgets (last_budget arithmetic budgets)
  unfolding last_budget IsLast
  last_budget-IsLast [] = inr (refl, refl)
  last_budget-IsLast ((n, x) ∷ []) = inl ([], x, refl)
  last_budget-IsLast ((n, x) ∷ (m, y) ∷ rest) = elim (last_budget-IsLast ((m, y) ∷ rest)) [
    | inl (before, z, e) ↦ inl ((n, x) ∷ before, z, ap (λ l. (n, x) ∷ l) e)
    | inr (e, _) ↦ cc
  ]

  -- A budget that was looked for, where no budget is zero.
  or_budget-Reaches :
      (budgets : List (ℤ × F)) (threshold : F) (otherwise : ℤ)
      → All (λ entry. eqb_ℤ entry.0 (pos 0) ≡ false) budgets
      → Reaches budgets threshold otherwise
          (or_budget arithmetic (first_budget_at_or_above arithmetic budgets threshold) otherwise)
  unfolding Reaches IsFirst
  or_budget-Reaches budgets threshold otherwise nonzero =
      elim (Option-cases (first_budget_at_or_above arithmetic budgets threshold)) [
        | inl e ↦ rw e (inr (none_reaches budgets threshold e, refl))
        | inr (n, e) ↦
            let (before, after, x, split, reaches, below) =
              first_budget_at_or_above_lem budgets threshold n e in
            let kept : eqb_ℤ n (pos 0) ≡ false = middle n x before after budgets split nonzero in
            rw (e, kept) (inl (before, after, x, split, reaches, below))
      ]

  select_runtime_plan-made :
      (s : ProfileSummary F) (gib : F) (locality correct pressure : Bool)
      → (let b = mode_budgets arithmetic s.budgets in
          select_runtime_plan arithmetic
            (autotune_from_profile arithmetic s gib)
            locality
            correct
            pressure
          ≡ ok (
              if not correct
              then kt_plan arithmetic
              else if not locality
              then safe_plan arithmetic s.budgets gib b.safe_budget
              else if pressure
              then balanced_plan arithmetic s.budgets gib
                  (high_churn arithmetic s)
                  b.balanced_budget
              else speed_plan arithmetic s.budgets gib b.speed_budget))
  unfolding select_runtime_plan autotune_from_profile
  select_runtime_plan-made s gib locality false pressure = refl
  select_runtime_plan-made s gib false true pressure = refl
  select_runtime_plan-made s gib true true true = refl
  select_runtime_plan-made s gib true true false = refl

  -- The plans of a profile without a budget of zero come in the order speed, memory, balanced, safe. The
  -- choice among them never fails: without correctness it is the KT fallback, without locality the safe
  -- plan, under memory pressure the balanced one, and else the speed plan. The speed plan's budget is
  -- the first whose coverage reaches "0.80", or where none does the last budget, which is one where there
  -- are no budgets. The balanced plan's is the first whose coverage reaches "0.70", or where none does
  -- that of the speed plan.
  pub select_runtime_plan-autotune_from_profile :
      (s : ProfileSummary F) (gib : F) (locality correct pressure : Bool)
      → All (λ entry. eqb_ℤ entry.0 (pos 0) ≡ false) s.budgets
      → (let b = mode_budgets arithmetic s.budgets in
          (map (λ (p : DeploymentPlan F). p.name) (autotune_from_profile arithmetic s gib)
            ≡ "speed_mode" ∷ "memory_mode" ∷ "balanced_mode" ∷ "safe_mode" ∷ [])
          × (select_runtime_plan arithmetic
                (autotune_from_profile arithmetic s gib)
                locality
                correct
                pressure
              ≡ ok (
                  if not correct
                  then kt_plan arithmetic
                  else if not locality
                  then safe_plan arithmetic s.budgets gib b.safe_budget
                  else if pressure
                  then balanced_plan arithmetic s.budgets gib
                      (high_churn arithmetic s)
                      b.balanced_budget
                  else speed_plan arithmetic s.budgets gib b.speed_budget))
          × ((best : ℤ) × IsLast s.budgets best
              × Reaches s.budgets (arithmetic.literal "0.80") best b.speed_budget)
          × Reaches s.budgets (arithmetic.literal "0.70") b.speed_budget b.balanced_budget)
  unfolding autotune_from_profile mode_budgets
  select_runtime_plan-autotune_from_profile s gib locality correct pressure nonzero = (
    refl,
    select_runtime_plan-made s gib locality correct pressure,
    (
      last_budget arithmetic s.budgets,
      last_budget-IsLast s.budgets,
      or_budget-Reaches s.budgets _ _ nonzero,
    ),
    or_budget-Reaches s.budgets _ _ nonzero,
  )
