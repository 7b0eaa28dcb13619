-- ===== src/Compiler/Tiles.antt =====
-- The tiles that tilepo/compiler.py and tilepo/model_interface.py generate: their loops over layers,
-- experts, projection groups and shards are the same.
pub mod Ids
pub mod Generated
use tile_mem.Common.{
  str_eq, if◌then◌else◌, any, range, ℤ, pos, pos_part, ◌-ℤ◌, dec, Dict, value_error, Result, ok,
  err, ◌>>=◌, traverse, ℕ, ◌*◌, ◌/◌, max, String, Bool, ◌||◌, none, List, [], ◌∷◌, ◌++◌, map,
}
use tile_mem.Mir.Enums.{TileDType, bf16, fp8, mxfp4, dtype_eq}
use tile_mem.Mir.TileId.{TileId, new_tile_id}
use tile_mem.Mir.Model.{TileIr}
use tile_mem.Compiler.Shards.{Shard}

-- `dtype in allowed`
abbrev allows : TileDType → List TileDType → Bool
unfolding any
allows d ds = any (dtype_eq d) ds

-- `_select_tile_dtype`, in both modules; `message` is what each says when nothing is supported.
unfoldable pub select_tile_dtype : String → List TileDType → String → Result TileDType
unfolding allows
select_tile_dtype message allowed dtype_policy =
    if str_eq dtype_policy "bf16"
    then ok bf16
    else if allows mxfp4 allowed
    then ok mxfp4
    else if allows fp8 allowed
    then ok fp8
    else if allows bf16 allowed
    then ok bf16
    else err (value_error message)

-- The bytes of a tile, whose `n_end` lies above its `n_start`.
unfoldable pub tile_bytes : TileId → ℕ → TileDType → ℕ
unfolding ◌-ℤ◌
tile_bytes t hidden_size dtype =
    let elements = max 1 (pos_part (t.n_end -ℤ t.n_start) * hidden_size) in
    if dtype_eq dtype bf16
    then elements * 2
    else if dtype_eq dtype fp8
    then elements
    else max 1 (elements / 2)

-- `projection_group in {"gate_up", "up", "down"}`
abbrev pub is_intermediate : String → Bool
is_intermediate group = str_eq group "gate_up" || str_eq group "up" || str_eq group "down"

abbrev pub extent_of : ℕ → ℕ → String → ℕ
extent_of hidden_size intermediate_size group =
    if is_intermediate group then intermediate_size else hidden_size

unfoldable pub scale_bytes_of : TileDType → ℤ
scale_bytes_of dtype = if dtype_eq dtype fp8 || dtype_eq dtype mxfp4 then pos 16 else pos 0

-- The innermost loop body.
unfoldable pub make_tile : ℕ → TileDType → ℕ → ℕ → String → Shard → Result TileIr
unfolding new_tile_id tile_bytes scale_bytes_of
make_tile hidden_size dtype layer expert group (shard, n_start, n_end) = do
  t ← new_tile_id (pos layer) (pos expert) group (pos shard) (pos n_start) (pos n_end)
  ok (record {
    tile_id = t;
    dtype = dtype;
    bytes = pos (tile_bytes t hidden_size dtype);
    scale_bytes = scale_bytes_of dtype;
    format = none;
    scale = none;
    backend = none;
    fallback_dtype = none;
    fallback_backend = none;
  })

-- `for x in xs: out.extend(f(x))`
unfoldable pub traverse_concat : {A B : Type 0} → (A → Result (List B)) → List A → Result (List B)
traverse_concat f [] = ok []
traverse_concat f (x ∷ xs) = do ys ← f x; zs ← traverse_concat f xs; ok (ys ++ zs)

-- The four loops. `ranges` gives the shards of an expert's projection group.
module _ (ranges : ℕ → String → Result (List Shard)) (hidden_size : ℕ) (dtype : TileDType)
    (layers budget : ℕ) (groups : List String) where
  unfoldable pub group_tiles : ℕ → ℕ → String → Result (List TileIr)
  unfolding make_tile traverse
  group_tiles layer expert group = do
    shards ← ranges expert group
    traverse (make_tile hidden_size dtype layer expert group) shards

  unfoldable pub expert_tiles : ℕ → ℕ → Result (List TileIr)
  unfolding group_tiles traverse_concat
  expert_tiles layer expert = traverse_concat (group_tiles layer expert) groups

  unfoldable pub layer_tiles : ℕ → Result (List TileIr)
  unfolding expert_tiles traverse_concat range
  layer_tiles layer = traverse_concat (expert_tiles layer) (range budget)

  unfoldable pub lower_tiles : Result (List TileIr)
  unfolding layer_tiles traverse_concat range
  lower_tiles = traverse_concat layer_tiles (range layers)

-- `hot_experts`: each layer has the first `budget` experts.
unfoldable pub hot_experts : ℕ → ℕ → Dict (List ℤ)
unfolding range
hot_experts layers budget = map (λ layer. (dec layer, map pos (range budget))) (range layers)
