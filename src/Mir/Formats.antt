-- ===== src/Mir/Formats.antt =====
-- `TileFormat` and `ScaleLayout` of tilepo/integration.py.
use tile_mem.Common.{
  str_eq, ℤ, pos, leb_ℤ, value_error, Result, ok, ◌>>=◌, ◌>>◌, reject, >>-eq-ok, ok-injective,
  String, ◌≡◌, refl, subst, Bool, ◌&&◌, [], ◌∷◌,
}
use tile_mem.Values.{bool, int, str, Fields, Floats, fields_of, index, get, to_int, to_str, to_bool}

pub record TileFormat : Type 0 where
  pub name : String
  pub storage_bits : ℤ
  pub compute_dtype : String
  pub accum_dtype : String
  pub layout_owner : String

-- `not text`
abbrev pub is_blank : String → Bool
is_blank s = str_eq s ""

unfoldable pub format_validate : TileFormat → Result (Unit {0})
format_validate f = do
  reject (is_blank f.name) (value_error "tile format name is required")
  reject (leb_ℤ f.storage_bits (pos 0)) (value_error "tile format storage_bits must be positive")
  reject (is_blank f.compute_dtype) (value_error "tile format compute_dtype is required")
  reject (is_blank f.accum_dtype) (value_error "tile format accum_dtype is required")
  reject (is_blank f.layout_owner) (value_error "tile format layout_owner is required")

pub record ScaleLayout : Type 0 where
  pub required : Bool
  pub granularity : String
  pub block_size : ℤ
  pub scale_dtype : String
  pub axis : String
  pub layout : String

unfoldable pub scale_validate : ScaleLayout → Result (Unit {0})
scale_validate s = do
  reject (is_blank s.granularity) (value_error "scale granularity is required")
  reject (s.required && leb_ℤ s.block_size (pos 0))
      (value_error "required scale layout needs positive block_size")
  reject (s.required && is_blank s.scale_dtype)
      (value_error "required scale layout needs scale_dtype")
  reject (is_blank s.axis) (value_error "scale axis is required")
  reject (is_blank s.layout) (value_error "scale layout is required")

module _ (fl : Floats) where
  open fl use {Float}

  format_fields : TileFormat → Fields Float
  format_fields f = fields_of (
      ("format", str f.name)
      ∷ ("storage_bits", int f.storage_bits)
      ∷ ("compute_dtype", str f.compute_dtype)
      ∷ ("accum_dtype", str f.accum_dtype)
      ∷ ("layout_owner", str f.layout_owner)
      ∷ [])

  unfoldable pub format_to_dict : TileFormat → Result (Fields Float)
  unfolding format_fields
  format_to_dict f = do format_validate f; ok (format_fields f)

  unfoldable pub format_from_dict : Fields Float → Result TileFormat
  unfolding index get to_int to_str
  format_from_dict d = do
    let name = to_str fl (get "format" (get "name" (str "") d) d)
    storage_bits ← to_int fl (← index "storage_bits" d)
    compute_dtype ← index "compute_dtype" d
    accum_dtype ← index "accum_dtype" d
    layout_owner ← index "layout_owner" d
    ok (record {
      name = name;
      storage_bits = storage_bits;
      compute_dtype = to_str fl compute_dtype;
      accum_dtype = to_str fl accum_dtype;
      layout_owner = to_str fl layout_owner;
    })

  scale_fields : ScaleLayout → Fields Float
  scale_fields s = fields_of (
      ("required", bool s.required)
      ∷ ("granularity", str s.granularity)
      ∷ ("block_size", int s.block_size)
      ∷ ("scale_dtype", str s.scale_dtype)
      ∷ ("axis", str s.axis)
      ∷ ("layout", str s.layout)
      ∷ [])

  unfoldable pub scale_to_dict : ScaleLayout → Result (Fields Float)
  unfolding scale_fields
  scale_to_dict s = do scale_validate s; ok (scale_fields s)

  unfoldable pub scale_from_dict : Fields Float → Result ScaleLayout
  unfolding index get to_int to_str to_bool
  scale_from_dict d = do
    required ← index "required" d
    granularity ← index "granularity" d
    block_size ← to_int fl (get "block_size" (int (pos 0)) d)
    axis ← index "axis" d
    layout ← index "layout" d
    ok (record {
      required = to_bool fl required;
      granularity = to_str fl granularity;
      block_size = block_size;
      scale_dtype = to_str fl (get "scale_dtype" (str "") d);
      axis = to_str fl axis;
      layout = to_str fl layout;
    })

  -- What a successful `to_dict` of a format wrote, `from_dict` reads back.
  pub format_from_dict-to_dict :
      (f : TileFormat) (d : Fields Float) → format_to_dict f ≡ ok d → format_from_dict d ≡ ok f
  unfolding format_from_dict format_to_dict
  format_from_dict-to_dict f d h =
      let (u, written) = >>-eq-ok (format_validate f) (ok (format_fields f)) h in
      subst (λ x. format_from_dict x ≡ ok f) (ok-injective written) refl

  -- What a successful `to_dict` of a scale layout wrote, `from_dict` reads back.
  pub scale_from_dict-to_dict :
      (s : ScaleLayout) (d : Fields Float) → scale_to_dict s ≡ ok d → scale_from_dict d ≡ ok s
  unfolding scale_from_dict scale_to_dict
  scale_from_dict-to_dict s d h =
      let (u, written) = >>-eq-ok (scale_validate s) (ok (scale_fields s)) h in
      subst (λ x. scale_from_dict x ≡ ok s) (ok-injective written) refl
