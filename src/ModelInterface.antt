-- ===== src/ModelInterface.antt =====
-- tilepo/model_interface.py: the public model specification and its lowering.
pub mod Specs
pub mod Build
use Prim.Native.String
use Prim.Native.String.{◌++◌ as append}
use tile_mem.Common.{
  str_eq, is_empty, all, ℤ, pos, pos_part, ltb_ℤ, leb_ℤ, value_error, type_error, Result, ok, err,
  ◌>>=◌, ◌>>◌, reject, ℕ, String, Bool, not, ◌||◌, List, [], ◌∷◌, map,
}
use tile_mem.Values.{
  Value, int, str, list, dict, nil, Fields, end, Floats, items_of, fields_of, index, get, iterate,
  to_int, to_str,
}
use tile_mem.Mir.Formats.{is_blank}
use tile_mem.Mir.Enums.{memory}

abbrev pub model_spec_schema_version : String
model_spec_schema_version = "tilemem_model_spec_v1"

pub record ModelSpec (F : Type 0) : Type 0 where
  pub name : String
  pub layers : ℤ
  pub experts_per_layer : ℤ
  pub hidden_size : ℤ
  pub intermediate_size : ℤ
  pub expert_budget : ℤ
  pub workload : String
  pub tile : Fields F
  pub memory : Fields F
  pub precision : Fields F
  pub schedule : Fields F

unfoldable pub require_positive : ℤ → String → Result (Unit {0})
require_positive value name =
    reject (leb_ℤ value (pos 0)) (value_error (append name " must be positive"))

-- What `build_mir_from_model_spec` takes: a specification, a document, or an adapter, which stands
-- here for the specification that its `to_tilemem_model_spec` returns.
pub data SpecSource (F : Type 0) : Type 0 where
  a_spec : ModelSpec F → SpecSource F
  a_document : Fields F → SpecSource F
  an_adapter : ModelSpec F → SpecSource F

module _ (fl : Floats) where
  open fl use {Float, of_int}

  abbrev bf16_list : Value Float
  bf16_list = list (items_of (str "bf16" ∷ []))

  abbrev pub texts_of : List String → Value Float
  texts_of names = list (items_of (map str names))

  -- `precision.get("allowed", precision.get("allow", ["bf16"]))`
  abbrev pub allowed_value : Fields Float → Value Float
  allowed_value precision = get "allowed" (get "allow" bf16_list precision) precision

  -- `{…} != {"bf16"}` for the set of the values' texts
  abbrev pub not_bf16_only : List (Value Float) → Bool
  not_bf16_only dtypes = is_empty dtypes || not (all (λ d. str_eq (to_str fl d) "bf16") dtypes)

  unfoldable pub spec_validate : ModelSpec Float → Result (Unit {0})
  unfolding require_positive iterate get to_str all
  spec_validate s = do
    require_positive s.layers "layers"
    require_positive s.experts_per_layer "experts_per_layer"
    require_positive s.hidden_size "hidden_size"
    require_positive s.intermediate_size "intermediate_size"
    require_positive s.expert_budget "expert_budget"
    reject (ltb_ℤ s.experts_per_layer s.expert_budget)
        (value_error "expert_budget must be <= experts_per_layer")
    reject (is_blank s.name) (value_error "model name is required")
    reject (is_blank s.workload) (value_error "workload is required")
    dtypes ← iterate (allowed_value s.precision)
    reject
        (not (str_eq (to_str fl (get "dtype_policy" (str "bf16") s.precision)) "bf16")
          || not_bf16_only dtypes)
        (value_error
          "public model spec v1 is BF16-only; mixed precision is out of scope for v0.1.1")

  -- `dict(value)`; a list of pairs is not read.
  unfoldable pub to_dict : Value Float → Result (Fields Float)
  to_dict (dict fs) = ok fs
  to_dict (list nil) = ok end
  to_dict (str String.[]) = ok end
  to_dict _ = err (type_error "value is not a dictionary")

  -- The fields of a document, before `validate`.
  unfoldable pub read_spec : Fields Float → Result (ModelSpec Float)
  unfolding index get to_int to_str to_dict
  read_spec d = do
    reject
        (not (
          str_eq (to_str fl (get "schema_version" (str model_spec_schema_version) d))
            model_spec_schema_version))
        (value_error "unsupported model spec schema_version")
    name ← index "name" d
    layers ← to_int fl (← index "layers" d)
    experts ← to_int fl (← index "experts_per_layer" d)
    hidden ← to_int fl (← index "hidden_size" d)
    intermediate ← to_int fl (← index "intermediate_size" d)
    budget ← to_int fl (get "expert_budget" (get "experts_per_layer" (int (pos 0)) d) d)
    tile ← to_dict (get "tile" (dict end) d)
    mem ← to_dict (get "memory" (dict end) d)
    precision ← to_dict (get "precision" (dict end) d)
    schedule ← to_dict (get "schedule" (dict end) d)
    ok (record {
      name = to_str fl name;
      layers = layers;
      experts_per_layer = experts;
      hidden_size = hidden;
      intermediate_size = intermediate;
      expert_budget = budget;
      workload = to_str fl (get "workload" (str "mixed") d);
      tile = tile;
      memory = mem;
      precision = precision;
      schedule = schedule;
    })

  unfoldable pub model_spec_from_dict : Fields Float → Result (ModelSpec Float)
  unfolding read_spec spec_validate
  model_spec_from_dict d = do spec ← read_spec d; spec_validate spec; ok spec

  unfoldable pub model_spec_to_dict : ModelSpec Float → Result (Fields Float)
  unfolding spec_validate
  model_spec_to_dict s = do
    spec_validate s
    ok (
        fields_of (
          ("schema_version", str model_spec_schema_version)
          ∷ ("name", str s.name)
          ∷ ("layers", int s.layers)
          ∷ ("experts_per_layer", int s.experts_per_layer)
          ∷ ("hidden_size", int s.hidden_size)
          ∷ ("intermediate_size", int s.intermediate_size)
          ∷ ("expert_budget", int s.expert_budget)
          ∷ ("workload", str s.workload)
          ∷ ("tile", dict s.tile)
          ∷ ("memory", dict s.memory)
          ∷ ("precision", dict s.precision)
          ∷ ("schedule", dict s.schedule)
          ∷ []))

  unfoldable pub coerce_model_spec : SpecSource Float → Result (ModelSpec Float)
  unfolding spec_validate model_spec_from_dict
  coerce_model_spec (a_spec s) = do spec_validate s; ok s
  coerce_model_spec (a_document d) = model_spec_from_dict d
  coerce_model_spec (an_adapter s) = do spec_validate s; ok s

  -- `_positive_int`: the number is kept as a natural one.
  unfoldable pub positive_int : Value Float → String → Result ℕ
  unfolding to_int require_positive
  positive_int value name = do n ← to_int fl value; require_positive n name; ok (pos_part n)
