-- ===== src/Integration.antt =====
-- tilepo/integration.py: the capabilities of kernel backends, their registry, and the handles that a
-- manifest's tiles are dispatched by.
pub mod Handles
use tile_mem.Common.{
  str_eq, if◌then◌else◌, length, is_empty, keep, ℤ, pos, negsuc, ◌+ℤ◌, leb_ℤ, Dict, lookup, insert,
  get_or, value_error, Result, ok, ◌>>◌, reject, text_leb, contains, sort_by, ℕ, ◌-◌, String, Bool,
  false, ◌&&◌, ◌||◌, Option, none, some, List, [], ◌∷◌, map,
}
use tile_mem.Mir.Formats.{TileFormat, is_blank}
use tile_mem.Mir.TileId.{TileId, stable_key}
use tile_mem.Mir.Manifest.{Manifest}
use tile_mem.Values.{Value, bool, int, str, list, Fields, Floats, items_of, fields_of}

pub record BackendCapability : Type 0 where
  pub name : String
  pub formats : List String
  pub layouts : List String
  pub scale_granularities : List String
  pub projection_groups : List String
  pub runtime_entrypoint : String
  pub owns_quantization : Bool
  pub owns_calibration : Bool
  pub owns_quality : Bool
  pub hardware_targets : List String
  pub fallback_dtype : String

unfoldable pub capability_validate : BackendCapability → Result (Unit {0})
capability_validate c = do
  reject (is_blank c.name) (value_error "backend name is required")
  reject (is_empty c.formats) (value_error "backend formats must not be empty")
  reject (is_empty c.layouts) (value_error "backend layouts must not be empty")
  reject (is_empty c.projection_groups) (value_error "backend projection_groups must not be empty")
  reject (is_blank c.runtime_entrypoint) (value_error "backend runtime_entrypoint is required")

pub record TileHandle : Type 0 where
  pub stable_key : String
  pub layer : ℤ
  pub expert : ℤ
  pub projection_group : String
  pub shard_id : ℤ
  pub n_start : ℤ
  pub n_end : ℤ
  pub dtype : String
  pub format : String
  pub weight_offset : ℤ
  pub weight_bytes : ℤ
  pub scale_offset : ℤ
  pub scale_bytes : ℤ
  pub scale_layout : String
  pub residency : String
  pub backend : String
  pub fallback_dtype : String
  pub fallback_backend : String
  pub dispatchable : Bool

unfoldable pub supports_format : BackendCapability → String → Bool
unfolding contains
supports_format c name = contains name c.formats

unfoldable pub supports_layout : BackendCapability → String → Bool
unfolding contains
supports_layout c layout = contains layout c.layouts

unfoldable pub supports_scale_granularity : BackendCapability → String → Bool
unfolding contains
supports_scale_granularity c granularity = contains granularity c.scale_granularities

unfoldable pub supports_projection_group : BackendCapability → String → Bool
unfolding contains
supports_projection_group c group = contains group c.projection_groups

unfoldable pub supports_handle : BackendCapability → TileHandle → Bool
unfolding supports_format supports_layout supports_projection_group
supports_handle c h =
    supports_format c h.format
    && supports_layout c h.scale_layout
    && supports_projection_group c h.projection_group

-- `BackendRegistry`: the capabilities by their names.
abbrev pub BackendRegistry : Type 0
BackendRegistry = Dict BackendCapability

unfoldable pub register : BackendCapability → BackendRegistry → Result BackendRegistry
unfolding capability_validate insert
register c registry = do capability_validate c; ok (insert c.name c registry)

unfoldable pub get_capability : String → BackendRegistry → Option BackendCapability
unfolding lookup
get_capability name registry = lookup name registry

unfoldable pub default_backend : String → String
default_backend dtype = if str_eq dtype "bf16" then "kt_fallback" else "external"

-- `tile_ids.get(key, {})`, with the defaults of its fields
abbrev pub no_tile_id : TileId
no_tile_id = record {
  layer = negsuc 0;
  expert = negsuc 0;
  projection_group = "";
  shard_id = negsuc 0;
  n_start = pos 0;
  n_end = pos 0;
}

-- `_replace_dispatchable`
unfoldable pub replace_dispatchable : TileHandle → Bool → TileHandle
replace_dispatchable h dispatchable = record h { dispatchable = dispatchable }

abbrev pub format_name : String → Option TileFormat → String
format_name dtype none = dtype
format_name dtype (some f) = f.name

-- One round of the loop of `build_tile_handles`, up to `dispatchable`.
unfoldable pub tile_handle : Manifest → String × ℤ → TileHandle
unfolding get_or default_backend lookup contains
tile_handle m (key, weight_offset) =
    let l = m.layout in
    let tile_id = get_or key no_tile_id l.tile_ids in
    let fallback = get_or key ("bf16", "kt_fallback") l.tile_fallback_map in
    let dtype = get_or key "bf16" l.tile_dtype_map in
    record {
      stable_key = key;
      layer = tile_id.layer;
      expert = tile_id.expert;
      projection_group = tile_id.projection_group;
      shard_id = tile_id.shard_id;
      n_start = tile_id.n_start;
      n_end = tile_id.n_end;
      dtype = dtype;
      format = format_name dtype (lookup key l.tile_format_map);
      weight_offset = weight_offset;
      weight_bytes = get_or key (pos 0) l.tile_bytes;
      scale_offset = get_or key (negsuc 0) l.scale_offsets;
      scale_bytes = get_or key (pos 0) l.scale_bytes;
      scale_layout = get_or key "none" l.scale_layout_map;
      residency = if contains key m.gpu_hot_tiles then "vram" else "dram";
      backend = get_or key (default_backend dtype) l.backend_owner_map;
      fallback_dtype = fallback.0;
      fallback_backend = fallback.1;
      dispatchable = false;
    }

-- `dispatchable`, against the registry
unfoldable pub is_dispatchable : BackendRegistry → TileHandle → Bool
unfolding get_capability supports_handle
is_dispatchable registry h =
    str_eq h.backend "kt_fallback"
    || elim (get_capability h.backend registry) [ none ↦ false | some c ↦ supports_handle c h ]

unfoldable pub resolve : Manifest → BackendRegistry → String × ℤ → TileHandle
unfolding tile_handle is_dispatchable replace_dispatchable
resolve m registry item =
    let h = tile_handle m item in replace_dispatchable h (is_dispatchable registry h)

unfoldable pub build_tile_handles : Manifest → BackendRegistry → List TileHandle
unfolding resolve sort_by
build_tile_handles m registry =
    map (resolve m registry) (sort_by (λ a b. text_leb a.0 b.0) m.layout.tile_offsets)

-- What `benchmark_dispatch_plan` counts; its two timings are read off the clock.
pub record DispatchPlan : Type 0 where
  pub tiles : ℕ
  pub dispatchable_tiles : ℕ
  pub fallback_tiles : ℕ
  pub iterations : ℤ
  pub estimated_payload_bytes : ℤ

unfoldable pub payload_bytes : List TileHandle → ℤ
payload_bytes [] = pos 0
payload_bytes (h ∷ hs) =
    (h.weight_bytes +ℤ (if leb_ℤ (pos 0) h.scale_bytes then h.scale_bytes else pos 0))
    +ℤ payload_bytes hs

unfoldable pub benchmark_dispatch_plan : List TileHandle → ℤ → Result DispatchPlan
unfolding keep payload_bytes
benchmark_dispatch_plan handles iterations = do
  reject (leb_ℤ iterations (pos 0)) (value_error "iterations must be positive")
  let dispatchable = length (keep (λ (h : TileHandle). h.dispatchable) handles)
  ok (record {
    tiles = length handles;
    dispatchable_tiles = dispatchable;
    fallback_tiles = length handles - dispatchable;
    iterations = iterations;
    estimated_payload_bytes = payload_bytes handles;
  })

module _ (fl : Floats) where
  open fl use {Float}

  texts : List String → Value Float
  texts xs = list (items_of (map str xs))

  unfoldable pub capability_to_dict : BackendCapability → Result (Fields Float)
  unfolding capability_validate texts
  capability_to_dict c = do
    capability_validate c
    ok (
        fields_of (
          ("name", str c.name)
          ∷ ("formats", texts c.formats)
          ∷ ("layouts", texts c.layouts)
          ∷ ("scale_granularities", texts c.scale_granularities)
          ∷ ("projection_groups", texts c.projection_groups)
          ∷ ("runtime_entrypoint", str c.runtime_entrypoint)
          ∷ ("owns_quantization", bool c.owns_quantization)
          ∷ ("owns_calibration", bool c.owns_calibration)
          ∷ ("owns_quality", bool c.owns_quality)
          ∷ ("hardware_targets", texts c.hardware_targets)
          ∷ ("fallback_dtype", str c.fallback_dtype)
          ∷ []))

  unfoldable pub handle_to_dict : TileHandle → Fields Float
  handle_to_dict h = fields_of (
      ("stable_key", str h.stable_key)
      ∷ ("layer", int h.layer)
      ∷ ("expert", int h.expert)
      ∷ ("projection_group", str h.projection_group)
      ∷ ("shard_id", int h.shard_id)
      ∷ ("n_start", int h.n_start)
      ∷ ("n_end", int h.n_end)
      ∷ ("dtype", str h.dtype)
      ∷ ("format", str h.format)
      ∷ ("weight_offset", int h.weight_offset)
      ∷ ("weight_bytes", int h.weight_bytes)
      ∷ ("scale_offset", int h.scale_offset)
      ∷ ("scale_bytes", int h.scale_bytes)
      ∷ ("scale_layout", str h.scale_layout)
      ∷ ("residency", str h.residency)
      ∷ ("backend", str h.backend)
      ∷ ("fallback_dtype", str h.fallback_dtype)
      ∷ ("fallback_backend", str h.fallback_backend)
      ∷ ("dispatchable", bool h.dispatchable)
      ∷ [])
