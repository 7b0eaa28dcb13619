-- ===== src/Ablation.antt =====
-- tilepo/ablation.py: the plan of one policy and budget, over the blocks of the base plan.

pub mod Tiles
pub mod Rendered
use tile_mem.Common.{
  str_eq, if◌then◌else◌, ℤ, pos, pos_part, leb_ℤ, str_int, value_error, Result, err, ok, ◌>>=◌,
  ◌>>◌, reject, contains, ℕ, ◌+◌, ◌/◌, min, max, String, Bool, not, Option, List, [], ◌∷◌,
}
use Prim.Native.String.{◌++◌ as append}
use tile_mem.Values.{Value, bool, int, str, Fields, end, field}
use tile_mem.Dsl.{DslBlock, set_field, parse_tmem}

abbrev pub ablation_tile_policies : List String
ablation_tile_policies = "tilepo_coarse" ∷ "tilepo_fine" ∷ "tilepo_hybrid" ∷ []

-- `_deployment_mode`
unfoldable pub deployment_mode : String → String
deployment_mode policy =
    if str_eq policy "tilepo_coarse"
    then "speed"
    else if str_eq policy "tilepo_fine"
    then "memory"
    else "balanced"

-- `max(1, min(4, (expert_budget + 2) // 3))`, for a budget that passed its check
unfoldable pub hot_budget : ℕ → ℕ
hot_budget budget = max 1 (min 4 ((budget + 2) / 3))

-- The label of the workload
abbrev pub label_of : String → ℤ → String
unfolding str_int
label_of policy budget = append "tilepo_" (append policy (append "_experts" (str_int budget)))

module _ {F : Type 0} where
  -- `values.update(new)`
  unfoldable pub update : Fields F → Fields F → Fields F
  unfolding set_field
  update values end = values
  update values (field k v new) = update (set_field k v values) new

  abbrev number : String → ℕ → Fields F → Fields F
  number k n fs = field k (int (pos n)) fs

  -- The three dictionaries of `_tile_values`
  abbrev pub coarse_values : Fields F
  coarse_values =
      field "tile_policy" (str "tilepo_coarse")
        (number "hidden_tile" 2048 (number "intermediate_tile" 8192 (number "shard_count" 1 end)))

  abbrev pub fine_values : Fields F
  fine_values =
      field "tile_policy" (str "tilepo_fine")
        (number "hidden_tile" 64 (number "intermediate_tile" 128 (number "shard_count" 64 end)))

  abbrev pub hybrid_values : ℤ → Fields F
  hybrid_values budget = field "tile_policy" (str "tilepo_hybrid") (
      number "hidden_tile" 64 (
        number "intermediate_tile" 128 (
          number "shard_count" 64 (
            number "hot_expert_budget" (hot_budget (pos_part budget)) (
              number "hot_hidden_tile" 2048 (
                number "hot_intermediate_tile" 8192 (
                  number "hot_shard_count" 1 (
                    number "cold_hidden_tile" 64 (
                      number "cold_intermediate_tile" 128
                        (number "cold_shard_count" 64 end))))))))))

  -- `_tile_values`
  unfoldable pub tile_values : String → ℤ → Result (Fields F)
  tile_values policy budget =
      if str_eq policy "tilepo_coarse"
      then ok coarse_values
      else if str_eq policy "tilepo_fine"
      then ok fine_values
      else if str_eq policy "tilepo_hybrid"
      then ok (hybrid_values budget)
      else err (value_error "unsupported V0.1 tile policy")

  -- `replace(block, values=values)`
  abbrev pub with_values : DslBlock F → Fields F → DslBlock F
  with_values block values = record block { values = values }

  -- The body of the loop over the blocks
  unfoldable pub render_block : String → ℤ → Bool → DslBlock F → Result (DslBlock F)
  unfolding set_field update tile_values deployment_mode
  render_block policy budget async_planning block =
      if str_eq block.kind "workload"
      then ok (with_values block (set_field "label" (str (label_of policy budget)) block.values))
      else if str_eq block.kind "tile"
      then (tile_values policy budget >>= (λ new. ok (with_values block (update block.values new))))
      else if str_eq block.kind "memory"
      then ok (with_values block (set_field "experts_per_layer" (int budget) block.values))
      else if str_eq block.kind "schedule"
      then ok (
          with_values block (
            set_field "deployment_mode" (str (deployment_mode policy))
              (set_field "async_planning" (bool async_planning) block.values)))
      else ok block

  unfoldable pub render_blocks : String → ℤ → Bool → List (DslBlock F) → Result (List (DslBlock F))
  unfolding render_block
  render_blocks policy budget async_planning [] = ok []
  render_blocks policy budget async_planning (block ∷ blocks) = do
    rendered ← render_block policy budget async_planning block
    others ← render_blocks policy budget async_planning blocks
    ok (rendered ∷ others)

  -- `render_tilepo_plan`, from the lines of the base plan to the blocks whose text it returns
  unfoldable pub render_tilepo_plan :
      (String → String)
      → (String → Option (Value F))
      → List String
      → ℤ
      → String
      → Bool
      → Result (List (DslBlock F))
  unfolding contains parse_tmem render_blocks
  render_tilepo_plan lower literal_eval lines budget policy async_planning = do
    reject (not (contains policy ablation_tile_policies)) (value_error "policy must be one of")
    reject (leb_ℤ budget (pos 0)) (value_error "expert_budget must be positive")
    blocks ← parse_tmem lower literal_eval lines
    render_blocks policy budget async_planning blocks
