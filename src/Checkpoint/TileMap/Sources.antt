-- ===== src/Checkpoint/TileMap/Sources.antt =====
-- The tensors that `build_tile_checkpoint_map` names for a tile.
use tile_mem.Common.{
  if◌then◌else◌, All, ℤ, Dict, text_leb, sort_by, String, ◌≡◌, ◌&&◌, Option, List, [],
}
use tile_mem.ModelInterface.{ModelSpec}
use tile_mem.Mir.TileId.{TileId}
use tile_mem.Mir.Manifest.{Manifest}
use tile_mem.Checkpoint.{
  WeightMatchResult, has_int, selected_layers, selected_experts, match_checkpoint_weights,
}
use tile_mem.Checkpoint.Resolved.{groups_of}
use tile_mem.Checkpoint.TileMap.{TileSource, lookup_all, group_at}

module _ (P : TileSource → Type 0) where
  abbrev EachEntry : Dict TileSource → Type 0
  EachEntry d = All (λ (entry : String × TileSource). P entry.1) d

module _ {F : Type 0} (lower : String → String) (names : List String) (spec : ModelSpec F)
    (family : String) (layers experts : Option (List ℤ))
    (weight_map materialized : Dict String) where
  -- The entry names the tensors that read as its own, the files that hold them, and the copies of
  -- these files.
  abbrev pub IsTraced : TileSource → Type 0
  IsTraced s =
      (s.source_tensors ≡ (
        if has_int s.layer (selected_layers spec layers)
          && has_int s.expert (selected_experts spec experts)
        then group_at s.projection_group (groups_of s.layer s.expert (sort_by text_leb names))
        else []))
      × (s.source_shards ≡ lookup_all weight_map s.source_tensors)
      × (s.materialized_shards ≡ lookup_all materialized s.source_shards)

  abbrev pub matched : WeightMatchResult
  matched = match_checkpoint_weights lower names spec family layers experts
