-- ===== src/Compiler/Ranges.antt =====
-- `_required_int`, `_tile_ranges` and `_ablation_tile_shape` of tilepo/compiler.py, and the sizes that
-- the lowering reads.
use text.Mathlib.Text.{starts_with}
use Prim.Native.String.{◌++◌ as append}
use tile_mem.Common.{
  leb, str_eq, if◌then◌else◌, ℤ, pos, pos_part, ltb_ℤ, leb_ℤ, value_error, Result, ok, err, ◌>>=◌,
  ◌>>◌, reject, ℕ, min, max, String, Bool, false, not, none, some, List, [], ◌∷◌,
}
use tile_mem.Values.{int, Fields, Floats, find, get, to_int}
use tile_mem.Compiler.Shards.{Shard, fixed_shards, covering_shards}
use tile_mem.Compiler.Tiles.{is_intermediate, extent_of}

-- The sizes that the blocks give.
pub record PlanSizes : Type 0 where
  pub layers : ℕ
  pub experts : ℕ
  pub hidden_size : ℕ
  pub intermediate_size : ℕ
  pub experts_budget : ℕ
  pub shard_count : ℕ
  pub hidden_tile : ℕ
  pub intermediate_tile : ℕ

module _ (fl : Floats) where
  open fl use {Float, of_int}

  -- `_required_int`: the number is positive, and kept as a natural one.
  unfoldable pub required_int : Fields Float → String → Result ℕ
  unfolding find to_int
  required_int values key = elim (find key values) [
    | none ↦ err (value_error (append "missing required DSL key: " key))
    | some v ↦ to_int fl v >>= (λ n.
        reject (leb_ℤ n (pos 0)) (value_error (append key " must be positive")) >> ok (pos_part n))
  ]

  unfoldable pub plan_sizes : Fields Float → Fields Float → Fields Float → Result PlanSizes
  unfolding required_int
  plan_sizes model memory_values tile = do
    layers ← required_int model "layers"
    experts ← required_int model "experts_per_layer"
    hidden ← required_int model "hidden_size"
    intermediate ← required_int model "intermediate_size"
    budget ← required_int memory_values "experts_per_layer"
    shards ← required_int tile "shard_count"
    hidden_tile ← required_int tile "hidden_tile"
    intermediate_tile ← required_int tile "intermediate_tile"
    ok (record {
      layers = layers;
      experts = experts;
      hidden_size = hidden;
      intermediate_size = intermediate;
      experts_budget = min budget experts;
      shard_count = max 1 shards;
      hidden_tile = hidden_tile;
      intermediate_tile = intermediate_tile;
    })

  -- `max(1, int(value))`
  abbrev at_least_one : ℤ → ℕ
  at_least_one n = max 1 (pos_part n)

  -- `int(tile_values.get(key, default))`, where a hybrid policy names the key
  abbrev policy_int : Fields Float → Bool → String → ℕ → Result ℤ
  unfolding get to_int
  policy_int tile hybrid key default =
      if hybrid then to_int fl (get key (int (pos default)) tile) else ok (pos default)

  abbrev is_hot : Fields Float → Bool → ℕ → Result Bool
  unfolding get to_int
  is_hot tile hybrid expert =
      if hybrid
      then to_int fl (get "hot_expert_budget" (int (pos 1)) tile)
        >>= (λ budget. ok (ltb_ℤ (pos expert) budget))
      else ok false

  -- `_ablation_tile_shape`
  unfoldable pub ablation_tile_shape :
      Fields Float → String → PlanSizes → ℕ → String → Result (ℕ × ℕ)
  unfolding policy_int is_hot
  ablation_tile_shape tile policy sizes expert group = do
    let hybrid = str_eq policy "tilepo_hybrid"
    hot ← is_hot tile hybrid expert
    let prefix : String = if hot then "hot" else "cold"
    hidden ← policy_int tile hybrid (append prefix "_hidden_tile") sizes.hidden_tile
    intermediate ←
        policy_int tile hybrid (append prefix "_intermediate_tile") sizes.intermediate_tile
    shards ← policy_int tile hybrid (append prefix "_shard_count") sizes.shard_count
    ok (at_least_one (if is_intermediate group then intermediate else hidden), at_least_one shards)

  -- `_tile_ranges`
  unfoldable pub tile_ranges : Fields Float → String → PlanSizes → ℕ → String → Result (List Shard)
  unfolding fixed_shards covering_shards ablation_tile_shape
  tile_ranges tile policy sizes expert group =
      let extent = extent_of sizes.hidden_size sizes.intermediate_size group in
      if not (starts_with policy "tilepo_")
      then ok (
          fixed_shards extent (extent_of sizes.hidden_tile sizes.intermediate_tile group)
            sizes.shard_count)
      else ablation_tile_shape tile policy sizes expert group >>= (λ (tile_width, shards). ok (
          if leb extent tile_width
          then (0, 0, extent) ∷ []
          else covering_shards extent tile_width shards))
