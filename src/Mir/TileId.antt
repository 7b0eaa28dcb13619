-- ===== src/Mir/TileId.antt =====
-- `TileId` of tilepo/mir/schema.py.
use Prim.Native.String.{◌++◌}
use tile_mem.Common.{
  ℤ, pos, ◌≤ℤ◌, ◌<ℤ◌, ltb_ℤ, leb_ℤ, str_int, value_error, Result, ok, ◌>>=◌, ◌>>◌, reject, String,
  ◌≡◌, ◌↔◌, ◌||◌, [], ◌∷◌, arith,
}
use tile_mem.Values.{int, str, Fields, Floats, fields_of, index, to_int, to_str}

pub record TileId : Type 0 where
  pub layer : ℤ
  pub expert : ℤ
  pub projection_group : String
  pub shard_id : ℤ
  pub n_start : ℤ
  pub n_end : ℤ

-- `__post_init__`
unfoldable pub post_init : TileId → Result (Unit {0})
post_init t = do
  reject (ltb_ℤ t.layer (pos 0) || ltb_ℤ t.expert (pos 0) || ltb_ℤ t.shard_id (pos 0))
      (value_error "tile id indices must be non-negative")
  reject (leb_ℤ t.n_end t.n_start) (value_error "tile n_end must be greater than n_start")

-- `TileId(…)`: the constructor runs the checks.
unfoldable pub new_tile_id : ℤ → ℤ → String → ℤ → ℤ → ℤ → Result TileId
unfolding post_init
new_tile_id layer expert projection_group shard_id n_start n_end =
    let t : TileId = record {
      layer = layer;
      expert = expert;
      projection_group = projection_group;
      shard_id = shard_id;
      n_start = n_start;
      n_end = n_end;
    } in
    do post_init t; ok t

-- What the constructor lets through.
pub record IsTileId (t : TileId) : Type 0 where
  pub layer_nonneg : pos 0 ≤ℤ t.layer
  pub expert_nonneg : pos 0 ≤ℤ t.expert
  pub shard_nonneg : pos 0 ≤ℤ t.shard_id
  pub nonempty : t.n_start <ℤ t.n_end

unfoldable pub stable_key : TileId → String
stable_key t =
    "L"
    ++ str_int t.layer
    ++ ":E"
    ++ str_int t.expert
    ++ ":"
    ++ t.projection_group
    ++ ":S"
    ++ str_int t.shard_id
    ++ ":N"
    ++ str_int t.n_start
    ++ "-"
    ++ str_int t.n_end

module _ (fl : Floats) where
  open fl use {Float}

  unfoldable pub tile_id_to_dict : TileId → Fields Float
  tile_id_to_dict t = fields_of (
      ("layer", int t.layer)
      ∷ ("expert", int t.expert)
      ∷ ("projection_group", str t.projection_group)
      ∷ ("shard_id", int t.shard_id)
      ∷ ("n_start", int t.n_start)
      ∷ ("n_end", int t.n_end)
      ∷ [])

  unfoldable pub tile_id_from_dict : Fields Float → Result TileId
  unfolding index to_int to_str new_tile_id
  tile_id_from_dict d = do
    layer ← to_int fl (← index "layer" d)
    expert ← to_int fl (← index "expert" d)
    projection_group ← index "projection_group" d
    shard_id ← to_int fl (← index "shard_id" d)
    n_start ← to_int fl (← index "n_start" d)
    n_end ← to_int fl (← index "n_end" d)
    new_tile_id layer expert (to_str fl projection_group) shard_id n_start n_end

-- The constructor accepts exactly the tile ids with nonnegative indices and a nonempty range.
pub post_init_iff : (t : TileId) → (post_init t ≡ ok tt) ↔ IsTileId t
unfolding post_init
post_init_iff t = (λ h. ground arith, λ v. ground arith)

module _ (fl : Floats) where
  -- What `to_dict` wrote of a tile id that passes the constructor's checks, `from_dict` reads back.
  pub tile_id_from_dict-to_dict :
      (t : TileId) → IsTileId t → tile_id_from_dict fl (tile_id_to_dict fl t) ≡ ok t
  unfolding tile_id_from_dict tile_id_to_dict
  tile_id_from_dict-to_dict t v = rw ((post_init_iff t).1 v)
