-- ===== src/Checkpoint/TileMap.antt =====
-- `build_tile_checkpoint_map`: which tensors and files of a checkpoint each tile comes from.
pub mod Sources
use tile_mem.Common.{
  str_eq, if◌then◌else◌, ℤ, pos, Dict, lookup, insert, get_or, text_leb, sort_by, String, none,
  some, List, [], ◌∷◌,
}
use tile_mem.Mir.TileId.{TileId}
use tile_mem.Mir.Manifest.{Layout, Manifest}
use tile_mem.Checkpoint.{Groups, WeightMatchResult, owner_key, projection_group}

-- `tiles[stable_key]`
pub record TileSource : Type 0 where
  pub layer : ℤ
  pub expert : ℤ
  pub projection_group : String
  pub shard_id : ℤ
  pub n_start : ℤ
  pub n_end : ℤ
  pub tile_weight_offset : ℤ
  pub tile_weight_bytes : ℤ
  pub source_tensors : List String
  pub source_shards : List String
  pub source_checkpoint : String
  pub materialized_shards : List String

pub record TileCheckpointMap : Type 0 where
  pub model : String
  pub source_checkpoint : String
  pub tiles : Dict TileSource

-- `[m[name] for name in names if name in m]`
unfoldable pub lookup_all : Dict String → List String → List String
unfolding lookup
lookup_all m [] = []
lookup_all m (name ∷ names) = elim (lookup name m) as (λ x. List String) [
  | none ↦ lookup_all m names
  | some v ↦ v ∷ lookup_all m names
]

-- `groups.get(projection_group, [])`
unfoldable pub group_at : String → Groups → List String
group_at projection groups =
    if str_eq projection "gate_up"
    then groups.gate_up_names
    else if str_eq projection "down"
    then groups.down_names
    else []

-- `match.resolved.get(owner_key, {}).get(projection_group, [])`
unfoldable pub tensors_of : Dict Groups → TileId → List String
unfolding lookup owner_key group_at
tensors_of resolved t = elim (lookup (owner_key t.layer t.expert) resolved) as (λ x. List String) [
  | none ↦ []
  | some groups ↦ group_at t.projection_group groups
]

module _ (layout : Layout) (resolved : Dict Groups) (weight_map materialized : Dict String)
    (checkpoint : String) where
  -- One round of the loop over the tiles.
  unfoldable pub tile_source : String × TileId → TileSource
  unfolding tensors_of lookup_all get_or
  tile_source (key, t) =
      let tensors = tensors_of resolved t in
      let shards = lookup_all weight_map tensors in
      record {
        layer = t.layer;
        expert = t.expert;
        projection_group = t.projection_group;
        shard_id = t.shard_id;
        n_start = t.n_start;
        n_end = t.n_end;
        tile_weight_offset = get_or key (pos 0) layout.tile_offsets;
        tile_weight_bytes = get_or key (pos 0) layout.tile_bytes;
        source_tensors = tensors;
        source_shards = shards;
        source_checkpoint = checkpoint;
        materialized_shards = lookup_all materialized shards;
      }

  unfoldable pub tile_sources : List (String × TileId) → Dict TileSource → Dict TileSource
  unfolding insert tile_source
  tile_sources [] tiles = tiles
  tile_sources ((key, t) ∷ items) tiles =
      tile_sources items (insert key (tile_source (key, t)) tiles)

unfoldable pub build_tile_checkpoint_map :
    Manifest → WeightMatchResult → Dict String → Dict String → String → TileCheckpointMap
unfolding tile_sources sort_by
build_tile_checkpoint_map manifest match weight_map materialized checkpoint = record {
  model = manifest.model;
  source_checkpoint = checkpoint;
  tiles =
      tile_sources manifest.layout match.resolved weight_map materialized checkpoint
        (sort_by (λ a b. text_leb a.0 b.0) manifest.layout.tile_ids) [];
}
