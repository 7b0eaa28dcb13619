-- ===== src/Ablation/Tiles.antt =====
-- The values of the three tile policies, and what is found after they are written into a block.
use tile_mem.Common.{
  str_eq, str_eq_iff, if◌then◌else◌, All, ℤ, pos, pos_part, ℕ, suc, ◌≤◌, String, ◌≡◌, refl, ◌∙◌,
  true, false, none, some, List, [], ◌∷◌, arith,
}
use tile_mem.Values.{Value, int, str, Fields, end, field, find}
use tile_mem.Dsl.{set_field}
use tile_mem.Ablation.{hot_budget, coarse_values, fine_values, hybrid_values, update}

pub hot_budget-bounds :
    (n : ℕ) → suc 0 ≤ n → (1 ≤ hot_budget n) × (hot_budget n ≤ 4) × (hot_budget n ≤ n)
unfolding hot_budget
hot_budget-bounds n h = (omega arith, omega arith, omega arith)

module _ {F : Type 0} where
  find-set_field :
      (k j : String) (v : Value F) (fs : Fields F)
      → find j (set_field k v fs) ≡ (if str_eq k j then some v else find j fs)
  unfolding find set_field
  find-set_field k j v end = refl
  find-set_field k j v (field i w fs) =
      ground (arith, str_eq_iff k j, str_eq_iff i k, str_eq_iff i j, find-set_field k j v fs)

  find-update :
      (j : String) (values new : Fields F)
      → find j new ≡ none
      → find j (update values new) ≡ find j values
  unfolding find update
  find-update j values end h = refl
  find-update j values (field k v new) h =
      let (other, rest) : (str_eq k j ≡ false) × (find j new ≡ none) = ground arith in
      find-update j (set_field k v values) new rest ∙ find-set_field k j v values ∙ rw (other) refl

  -- What an update assigns last to a key is found there.
  pub find-updated :
      (j : String) (v : Value F) (values new : Fields F)
      → find j new ≡ none
      → find j (update (set_field j v values) new) ≡ some v
  find-updated j v values new h =
      let self : str_eq j j ≡ true = (str_eq_iff j j).1 refl in
      find-update j (set_field j v values) new h ∙ find-set_field j j v values ∙ rw (self) refl

  -- The values that a tile block is to hold
  unfoldable pub tile_promise : String → ℤ → List (String × Value F)
  tile_promise policy budget =
      ("tile_policy", str policy)
      ∷ ("shard_count", int (pos (if str_eq policy "tilepo_coarse" then 1 else 64)))
      ∷ (if str_eq policy "tilepo_hybrid"
          then ("hot_expert_budget", int (pos (hot_budget (pos_part budget)))) ∷ []
          else [])

  unfoldable pub Keeps : String → ℤ → Fields F → Fields F → Type 0
  Keeps policy budget values new =
      All (λ e. find e.0 (update values new) ≡ some e.1) (tile_promise policy budget)

  -- The values once the policy and the two tile sizes are in
  abbrev sized : String → ℕ → ℕ → Fields F → Fields F
  unfolding update
  sized policy hidden intermediate values = update values (
      field "tile_policy" (str policy) (
        field "hidden_tile" (int (pos hidden))
          (field "intermediate_tile" (int (pos intermediate)) end)))

  pub coarse-Keeps :
      (budget : ℤ) (values : Fields F) → Keeps "tilepo_coarse" budget values coarse_values
  unfolding Keeps tile_promise update find
  coarse-Keeps budget values = (
    find-updated "tile_policy" _ values
        (field "hidden_tile" (int (pos 2048))
          (field "intermediate_tile" (int (pos 8192)) (field "shard_count" (int (pos 1)) end)))
        refl,
    (find-updated "shard_count" _ (sized "tilepo_coarse" 2048 8192 values) end refl, tt),
  )

  pub fine-Keeps : (budget : ℤ) (values : Fields F) → Keeps "tilepo_fine" budget values fine_values
  unfolding Keeps tile_promise update find
  fine-Keeps budget values = (
    find-updated "tile_policy" _ values
        (field "hidden_tile" (int (pos 64))
          (field "intermediate_tile" (int (pos 128)) (field "shard_count" (int (pos 64)) end)))
        refl,
    (find-updated "shard_count" _ (sized "tilepo_fine" 64 128 values) end refl, tt),
  )

  -- The values that the hybrid policy gives its cold tiles, and its hot ones
  abbrev hot_and_cold : Fields F
  hot_and_cold = field "hot_hidden_tile" (int (pos 2048)) (
      field "hot_intermediate_tile" (int (pos 8192)) (
        field "hot_shard_count" (int (pos 1)) (
          field "cold_hidden_tile" (int (pos 64)) (
            field "cold_intermediate_tile" (int (pos 128))
              (field "cold_shard_count" (int (pos 64)) end)))))

  pub hybrid-Keeps :
      (budget : ℤ) (values : Fields F) → Keeps "tilepo_hybrid" budget values (hybrid_values budget)
  unfolding Keeps tile_promise update find
  hybrid-Keeps budget values =
      let cold : Fields F = sized "tilepo_hybrid" 64 128 values in
      let hot : Fields F =
        field "hot_expert_budget" (int (pos (hot_budget (pos_part budget)))) hot_and_cold in
      (
        find-updated "tile_policy" _ values
            (field "hidden_tile" (int (pos 64))
              (field "intermediate_tile" (int (pos 128)) (field "shard_count" (int (pos 64)) hot)))
            refl,
        (
          find-updated "shard_count" _ cold hot refl,
          (
            find-updated "hot_expert_budget" _ (set_field "shard_count" (int (pos 64)) cold)
                hot_and_cold refl,
            tt,
          ),
        ),
      )
