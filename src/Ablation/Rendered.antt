-- ===== src/Ablation/Rendered.antt =====
-- What the blocks of a rendered plan hold.
use tile_mem.Common.{
  str_eq, str_eq_iff, if◌then◌else◌, Bool-cases, length, keep, All, ℤ, pos, pos_part, leb_ℤ, ok,
  contains, ◌≤◌, min, String, ◌≡◌, refl, sym, ap, ◌∙◌, subst, inl, inr, Bool, true, false, Option,
  some, List, [], ◌∷◌, arith,
}
use tile_mem.Values.{Value, bool, int, str, Fields, end, field, find}
use tile_mem.Dsl.{required_blocks, DslBlock, set_field, parse_tmem}
use tile_mem.Dsl.Blocks.{HasBlocks, parse_tmem-HasBlocks}
use tile_mem.Ablation.{
  ablation_tile_policies, deployment_mode, hot_budget, label_of, with_values, coarse_values,
  fine_values, hybrid_values, update, tile_values, render_block, render_blocks, render_tilepo_plan,
}
use tile_mem.Ablation.Tiles.{
  hot_budget-bounds, find-updated, tile_promise, Keeps, coarse-Keeps, fine-Keeps, hybrid-Keeps,
}

-- Coarse tiles are for speed, fine ones save memory, and the hybrid ones are between the two.
unfoldable pub mode_promise : String → String
mode_promise policy =
    if str_eq policy "tilepo_coarse"
    then "speed"
    else if str_eq policy "tilepo_fine"
    then "memory"
    else "balanced"

module _ {F : Type 0} where
  -- The values that a block of a kind is to hold
  unfoldable pub promised : String → ℤ → Bool → String → List (String × Value F)
  unfolding mode_promise
  promised policy budget async_planning kind =
      if str_eq kind "workload"
      then ("label", str (label_of policy budget)) ∷ []
      else if str_eq kind "tile"
      then tile_promise policy budget
      else if str_eq kind "memory"
      then ("experts_per_layer", int budget) ∷ []
      else if str_eq kind "schedule"
      then ("async_planning", bool async_planning)
        ∷ ("deployment_mode", str (mode_promise policy))
        ∷ []
      else []

  unfoldable pub Holds : List (String × Value F) → DslBlock F → Type 0
  Holds expected block = All (λ e. find e.0 block.values ≡ some e.1) expected

  module _ (policy : String) (budget : ℤ) (async_planning : Bool)
      (known : contains policy ablation_tile_policies ≡ true) where
    tile_values-Holds :
        (values : Fields F)
        → (new : Fields F) × (tile_values policy budget ≡ ok new) × Keeps policy budget values new
    unfolding tile_values contains
    tile_values-Holds values = elim (Bool-cases (str_eq policy "tilepo_coarse")) [
      | inl c ↦ (
        coarse_values,
        rw (c) refl,
        at "tilepo_coarse" coarse_values c (coarse-Keeps budget values),
      )
      | inr c ↦ elim (Bool-cases (str_eq policy "tilepo_fine")) [
        | inl f ↦
            (fine_values, rw (c, f) refl, at "tilepo_fine" fine_values f (fine-Keeps budget values))
        | inr f ↦
            let h : str_eq policy "tilepo_hybrid" ≡ true = ground (
              arith,
              str_eq_iff policy "tilepo_coarse",
              str_eq_iff "tilepo_coarse" policy,
              str_eq_iff policy "tilepo_fine",
              str_eq_iff "tilepo_fine" policy,
              str_eq_iff policy "tilepo_hybrid",
              str_eq_iff "tilepo_hybrid" policy,
            ) in
            (
              hybrid_values budget,
              rw (c, f, h) refl,
              at "tilepo_hybrid" (hybrid_values budget) h (hybrid-Keeps budget values),
            )
      ]
    ]
      where
        at :
            (name : String) (new : Fields F)
            → str_eq policy name ≡ true
            → Keeps name budget values new
            → Keeps policy budget values new
        at name new e kept =
            subst (λ p. Keeps p budget values new) (sym ((str_eq_iff policy name).0 e)) kept

    render_block-Holds :
        (block : DslBlock F)
        → (out : DslBlock F) × (render_block policy budget async_planning block ≡ ok out)
          × (out.kind ≡ block.kind)
          × Holds (promised policy budget async_planning block.kind) out
    unfolding render_block Holds promised mode_promise deployment_mode Keeps update find
    render_block-Holds block = elim (Bool-cases (str_eq block.kind "workload")) [
      | inl w ↦ (
        with_values block (set_field "label" (str (label_of policy budget)) block.values),
        rw (w) refl,
        refl,
        rw (w) (find-updated "label" _ block.values end refl, tt),
      )
      | inr w ↦ elim (Bool-cases (str_eq block.kind "tile")) [
        | inl t ↦
            let (new, e, held) = tile_values-Holds block.values in
            (with_values block (update block.values new), rw (w, t, e) refl, refl, rw (w, t) held)
        | inr t ↦ elim (Bool-cases (str_eq block.kind "memory")) [
          | inl m ↦ (
            with_values block (set_field "experts_per_layer" (int budget) block.values),
            rw (w, t, m) refl,
            refl,
            rw (w, t, m) (find-updated "experts_per_layer" _ block.values end refl, tt),
          )
          | inr m ↦ elim (Bool-cases (str_eq block.kind "schedule")) [
            | inl s ↦ (
              with_values block (
                  set_field "deployment_mode" (str (deployment_mode policy))
                    (set_field "async_planning" (bool async_planning) block.values)),
              rw (w, t, m, s) refl,
              refl,
              rw (w, t, m, s)
                  (
                    find-updated "async_planning" _ block.values
                        (field "deployment_mode" (str (deployment_mode policy)) end) refl,
                    (
                      find-updated "deployment_mode" _
                          (set_field "async_planning" (bool async_planning) block.values) end refl,
                      tt,
                    ),
                  ),
            )
            | inr s ↦ (block, rw (w, t, m, s) refl, refl, rw (w, t, m, s) tt)
          ]
        ]
      ]
    ]

    -- The blocks keep their kinds, and each holds what is promised for its kind.
    Rendered : List (DslBlock F) → List (DslBlock F) → Type 0
    Rendered blocks out =
        ((kind : String)
          → length (keep (λ b. str_eq b.kind kind) out)
            ≡ length (keep (λ (b : DslBlock F). str_eq b.kind kind) blocks))
        × All (λ b. Holds (promised policy budget async_planning b.kind) b) out

    render_blocks-Rendered :
        (blocks : List (DslBlock F))
        → (out : List (DslBlock F)) × (render_blocks policy budget async_planning blocks ≡ ok out)
          × Rendered blocks out
    unfolding render_blocks Rendered keep
    render_blocks-Rendered [] = ([], refl, (λ kind. refl, tt))
    render_blocks-Rendered (block ∷ blocks) =
        let (b, e, same, held) = render_block-Holds block in
        let (out, e', (kinds, holds)) = render_blocks-Rendered blocks in
        (
          b ∷ out,
          rw (e, e') refl,
          (
            λ kind. rw (same) (ground (arith, kinds kind)),
            (subst (λ k. Holds (promised policy budget async_planning k) b) (sym same) held, holds),
          ),
        )

singleton : {A : Type 0} (xs : List A) → length xs ≡ 1 → (x : A) × (xs ≡ x ∷ [])
singleton [] h = absurd (omega (arith, h))
singleton (x ∷ []) h = (x, refl)
singleton (x ∷ y ∷ xs) h = absurd (omega (arith, h))

once_each :
    {F : Type 0} (kinds : List String) (blocks out : List (DslBlock F))
    → ((kind : String)
        → length (keep (λ (b : DslBlock F). str_eq b.kind kind) out)
          ≡ length (keep (λ (b : DslBlock F). str_eq b.kind kind) blocks))
    → All (λ kind. (b : DslBlock F) × (keep (λ b. str_eq b.kind kind) blocks ≡ b ∷ [])) kinds
    → All (λ kind. (b : DslBlock F) × (keep (λ b. str_eq b.kind kind) out ≡ b ∷ [])) kinds
once_each [] blocks out same h = tt
once_each (kind ∷ kinds) blocks out same ((b, e), h) =
    (singleton _ (same kind ∙ ap length e), once_each kinds blocks out same h)

module _ {F : Type 0} (lower : String → String) (literal_eval : String → Option (Value F)) where
  -- For one of the three policies, a positive budget and a base plan that parses, a plan is rendered. In
  -- its blocks each of the eight kinds stands exactly once, and the workload, tile, memory and schedule
  -- blocks hold the label, the tile policy with its shards, the budget, and the asynchronous planning
  -- that was asked for with the deployment mode of the policy: speed for coarse tiles, memory for fine
  -- ones, balanced for hybrid ones. The hot experts of a hybrid plan are at least one, at most four, and
  -- no more than the budget.
  pub render_tilepo_plan-IsRendered :
      (lines : List String) (base : List (DslBlock F)) (policy : String) (budget : ℤ)
      (async_planning : Bool)
      → contains policy ablation_tile_policies ≡ true
      → leb_ℤ budget (pos 0) ≡ false
      → parse_tmem lower literal_eval lines ≡ ok base
      → (out : List (DslBlock F)) × (render_tilepo_plan lower literal_eval lines budget policy
            async_planning
          ≡ ok out)
        × HasBlocks out
        × All (λ b. Holds (promised policy budget async_planning b.kind) b) out
        × (1 ≤ hot_budget (pos_part budget))
        × (hot_budget (pos_part budget) ≤ min 4 (pos_part budget))
  unfolding render_tilepo_plan Rendered HasBlocks
  render_tilepo_plan-IsRendered lines base policy budget async_planning known positive parsed =
      let (out, e, (kinds, holds)) =
        render_blocks-Rendered policy budget async_planning known base in
      let least : 1 ≤ pos_part budget = ground arith in
      let (low, four, high) = hot_budget-bounds (pos_part budget) least in
      (
        out,
        rw (known, positive, parsed) e,
        once_each required_blocks base out kinds
            (parse_tmem-HasBlocks lower literal_eval lines base parsed),
        holds,
        low,
        omega (arith, four, high),
      )
