-- ===== src/Mir/Manifest.antt =====
-- `build_manifest` of tilepo/mir/schema.py: where each tile lies in the weight and scale files.
pub mod Packing
use Prim.Native.Nat.{Ordering, compare}
use Prim.Native.String.{compare as compare_text}
use tile_mem.Common.{
  if◌then◌else◌, ℤ, pos, pos_part, neg_part, ◌+ℤ◌, eqb_ℤ, Dict, insert, Result, ok, ◌>>◌, sort_by,
  ℕ, ◌+◌, String, Bool, true, false, Option, none, some, List, [], ◌∷◌, map,
}
use tile_mem.Values.{Floats}
use tile_mem.Mir.Enums.{dtype_text, mode_text, backend_text, deployment_text}
use tile_mem.Mir.TileId.{TileId, stable_key}
use tile_mem.Mir.Formats.{TileFormat, is_blank, ScaleLayout}
use tile_mem.Mir.Model.{TileIr, ChainItem, dtype_item, text_item, ModelIr, model_validate}

-- The order of the generated comparison methods of `TileId`: by the fields, first to last.
abbrev compare_ℤ : ℤ → ℤ → Ordering
compare_ℤ a b = compare (pos_part a + neg_part b) (pos_part b + neg_part a)

abbrev or_else : Ordering → Ordering → Ordering
or_else Ordering.lt o = Ordering.lt
or_else Ordering.eq o = o
or_else Ordering.gt o = Ordering.gt

unfoldable pub tile_id_leb : TileId → TileId → Bool
tile_id_leb a b =
    elim (or_else (compare_ℤ a.layer b.layer) (
      or_else (compare_ℤ a.expert b.expert) (
        or_else (compare_text a.projection_group b.projection_group) (
          or_else (compare_ℤ a.shard_id b.shard_id)
            (or_else (compare_ℤ a.n_start b.n_start) (compare_ℤ a.n_end b.n_end)))))) [
              | Ordering.gt ↦ false
              | _ ↦ true
            ]

-- The variables of the loop over the tiles.
pub record Layout : Type 0 where
  pub tile_offsets : Dict ℤ
  pub tile_bytes : Dict ℤ
  pub tile_dtype_map : Dict String
  pub tile_ids : Dict TileId
  pub tile_format_map : Dict TileFormat
  pub scale_offsets : Dict ℤ
  pub scale_bytes : Dict ℤ
  pub scale_layout_map : Dict String
  pub backend_owner_map : Dict String
  pub tile_fallback_map : Dict (String × String)
  pub offset : ℤ
  pub scale_offset : ℤ

abbrev pub empty_layout : Layout
empty_layout = record {
  tile_offsets = [];
  tile_bytes = [];
  tile_dtype_map = [];
  tile_ids = [];
  tile_format_map = [];
  scale_offsets = [];
  scale_bytes = [];
  scale_layout_map = [];
  backend_owner_map = [];
  tile_fallback_map = [];
  offset = pos 0;
  scale_offset = pos 0;
}

-- `if value is not None: map[key] = value`
abbrev insert_some : {V : Type 0} → String → Option V → Dict V → Dict V
insert_some key none m = m
insert_some key (some v) m = insert key v m

-- `text or default`
abbrev or_text : Option String → String → String
or_text none default = default
or_text (some s) default = if is_blank s then default else s

abbrev fallback_entry : Option String → Option String → Option (String × String)
fallback_entry none none = none
fallback_entry dtype backend = some (or_text dtype "bf16", or_text backend "kt_fallback")

abbrev scale_layout : Option ScaleLayout → Option String
scale_layout none = none
scale_layout (some s) = some s.layout

-- The scale entries: nothing is recorded for a tile with no scale bytes.
unfoldable pub place_scale : String → ℤ → Layout → Layout
unfolding insert
place_scale key bytes l = if eqb_ℤ bytes (pos 0) then l else record l {
  scale_offsets = insert key l.scale_offset l.scale_offsets;
  scale_bytes = insert key bytes l.scale_bytes;
  scale_offset = l.scale_offset +ℤ bytes;
}

-- One round of the loop.
unfoldable pub place_tile : Layout → TileIr → Layout
unfolding insert stable_key
place_tile l t =
    let key = stable_key t.tile_id in
    place_scale key t.scale_bytes (record l {
      tile_offsets = insert key l.offset l.tile_offsets;
      tile_bytes = insert key t.bytes l.tile_bytes;
      tile_dtype_map = insert key (dtype_text t.dtype) l.tile_dtype_map;
      tile_ids = insert key t.tile_id l.tile_ids;
      tile_format_map = insert_some key t.format l.tile_format_map;
      scale_layout_map = insert_some key (scale_layout t.scale) l.scale_layout_map;
      backend_owner_map = insert_some key t.backend l.backend_owner_map;
      tile_fallback_map =
          insert_some key (fallback_entry t.fallback_dtype t.fallback_backend) l.tile_fallback_map;
      offset = l.offset +ℤ t.bytes;
    })

unfoldable pub place_tiles : Layout → List TileIr → Layout
unfolding place_tile
place_tiles l [] = l
place_tiles l (t ∷ ts) = place_tiles (place_tile l t) ts

-- What `_attach_ablation_metadata` adds under "tilepo_plan".
pub record TilepoPlan : Type 0 where
  pub policy : String
  pub async_planning : Bool
  pub expert_budget : ℤ
  pub tile_count : ℕ
  pub gpu_hot_tile_count : ℕ
  pub hot_expert_budget : ℤ

pub record Manifest : Type 0 where
  pub layout : Layout
  pub gpu_hot_tiles : List String
  pub fallback_chain : List String
  pub backend_priority : List String
  pub runtime_gates : List String
  pub mode : String
  pub deployment_mode : String
  pub model : String
  pub tilepo_plan : Option TilepoPlan
  pub tilepo_policy : Option String
  pub tilepo_async_planning : Option String
  pub checksum : Option String

abbrev chain_text : ChainItem → String
chain_text (dtype_item d) = dtype_text d
chain_text (text_item s) = s

-- `digest` stands for the SHA-256 sum of the manifest's JSON text.
module _ (digest : Manifest → String) (fl : Floats) where
  open fl use {Float}

  abbrev unsigned : ModelIr Float → Manifest
  unfolding place_tiles sort_by
  unsigned m = record {
    layout = place_tiles empty_layout (sort_by (λ a b. tile_id_leb a.tile_id b.tile_id) m.tiles);
    gpu_hot_tiles = map stable_key (sort_by tile_id_leb m.residency.gpu_hot_tiles);
    fallback_chain = map chain_text m.residency.fallback_chain;
    backend_priority = map backend_text m.schedule.backend_priority;
    runtime_gates = m.schedule.runtime_gates;
    mode = mode_text m.schedule.mode;
    deployment_mode = deployment_text m.schedule.deployment_mode;
    model = m.name;
    tilepo_plan = none;
    tilepo_policy = none;
    tilepo_async_planning = none;
    checksum = none;
  }

  unfoldable pub build_manifest : ModelIr Float → Result Manifest
  unfolding model_validate tile_id_leb unsigned
  build_manifest m = do
    model_validate fl m
    ok (record (unsigned m) { checksum = some (digest (unsigned m)) })
