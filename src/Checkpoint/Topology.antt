-- ===== src/Checkpoint/Topology.antt =====
-- `infer_moe_topology` and `model_spec_from_hf_config`: a specification read off the configuration
-- file of a model. `str.lower` is a parameter.
use Prim.Native.Char.{code}
use Prim.Native.String.{◌++◌ as append}
use tile_mem.Common.{
  ◌==◌, if◌then◌else◌, ℤ, pos, leb_ℤ, Dict, lookup, insert, value_error, key_error, type_error,
  index_error, Result, err, ok, ◌>>=◌, ◌>>◌, reject, String, Bool, true, false, ◌&&◌, ◌||◌, Option,
  none, some, List, [], ◌∷◌,
}
use tile_mem.Values.{
  Value, null, str, list, dict, nil, cons, Fields, end, field, Floats, find, get, to_int, to_str,
}
use tile_mem.Checkpoint.{min_ℤ}

pub record MoeTopology : Type 0 where
  pub family : String
  pub model_type : String
  pub layers : ℤ
  pub experts_per_layer : ℤ
  pub active_experts_per_token : ℤ
  pub hidden_size : ℤ
  pub intermediate_size : ℤ
  pub source_fields : Dict String

-- `text.startswith(part)`
unfoldable pub starts : String → String → Bool
starts String.[] text = true
starts (String.◌∷◌ c part) String.[] = false
starts (String.◌∷◌ c part) (String.◌∷◌ d text) = code c == code d && starts part text

-- `part in text`
unfoldable pub occurs : String → String → Bool
unfolding starts
occurs part String.[] = starts part String.[]
occurs part (String.◌∷◌ c s) = let later = occurs part s in starts part (String.◌∷◌ c s) || later

abbrev pub layer_keys : List String
layer_keys = "num_hidden_layers" ∷ "n_layers" ∷ "num_layers" ∷ []

abbrev pub expert_keys : List String
expert_keys =
    "num_experts" ∷ "num_local_experts" ∷ "n_routed_experts" ∷ "moe_num_experts"
    ∷ "num_experts_per_layer" ∷ []

abbrev pub active_keys : List String
active_keys =
    "num_experts_per_tok" ∷ "num_experts_per_token" ∷ "moe_top_k" ∷ "top_k" ∷ "router_top_k" ∷ []

abbrev pub hidden_keys : List String
hidden_keys = "hidden_size" ∷ "d_model" ∷ "n_embd" ∷ []

abbrev pub intermediate_keys : List String
intermediate_keys =
    "moe_intermediate_size" ∷ "intermediate_size" ∷ "ffn_hidden_size" ∷ "expert_intermediate_size"
    ∷ []

abbrev pub is_null : {F : Type 0} → Value F → Bool
is_null null = true
is_null _ = false

module _ (lower : String → String) where
  -- `_family_from_model_type`
  unfoldable pub family_from_model_type : String → String
  unfolding occurs
  family_from_model_type model_type =
      if occurs "olmoe" (lower model_type)
      then "olmoe"
      else if occurs "qwen" (lower model_type) && occurs "moe" (lower model_type)
      then "qwen_moe"
      else if occurs "mixtral" (lower model_type)
      then "mixtral"
      else "generic_moe"

  module _ {F : Type 0} where
    -- `{str(key).lower(): value for key, value in config.items()}`
    unfoldable pub lowered : Fields F → Dict (Value F) → Dict (Value F)
    unfolding insert
    lowered end d = d
    lowered (field k v fs) d = lowered fs (insert (lower k) v d)

    -- The first key that the configuration has, as it is
    unfoldable pub exact_key : Fields F → List String → Option (Value F × String)
    unfolding find
    exact_key config [] = none
    exact_key config (key ∷ keys) = elim (find key config) as (λ x. Option (Value F × String)) [
      | some v ↦ some (v, key)
      | none ↦ exact_key config keys
    ]

    -- The first key that it has in small letters
    unfoldable pub lowered_key : Dict (Value F) → List String → Option (Value F × String)
    unfolding lookup
    lowered_key config [] = none
    lowered_key config (key ∷ keys) =
        elim (lookup (lower key) config) as (λ x. Option (Value F × String)) [
          | some v ↦ some (v, lower key)
          | none ↦ lowered_key config keys
        ]

    -- `_lookup`
    unfoldable pub lookup_key : Fields F → List String → Value F × String
    unfolding exact_key lowered lowered_key
    lookup_key config keys = elim (exact_key config keys) as (λ x. Value F × String) [
      | some found ↦ found
      | none ↦ elim (lowered_key (lowered config []) keys) as (λ x. Value F × String) [
        | some found ↦ found
        | none ↦ (null, "")
      ]
    ]

  module _ (fl : Floats) where
    open fl use {Float, of_int}

    -- `result = int(value)`, which has to be positive
    unfoldable pub positive_value : Value Float → String → String → Result (ℤ × String)
    unfolding to_int
    positive_value value key label = do
      n ← to_int fl value
      reject (leb_ℤ n (pos 0)) (value_error (append label " must be positive"))
      ok (n, key)

    unfoldable pub required_int_from : Fields Float → List String → String → Result (ℤ × String)
    unfolding lookup_key positive_value
    required_int_from config keys label =
        let (value, key) = lookup_key config keys in
        if is_null value
        then err (value_error (append "cannot infer MoE topology field: " label))
        else positive_value value key label

    unfoldable pub optional_int_from : Fields Float → List String → ℤ → Result (ℤ × String)
    unfolding lookup_key positive_value
    optional_int_from config keys default =
        let (value, key) = lookup_key config keys in
        if is_null value then ok (default, "default") else positive_value value key key

    -- `value[0]`
    unfoldable pub first_item : Value Float → Result (Value Float)
    first_item (list nil) = err (index_error "list index out of range")
    first_item (list (cons v vs)) = ok v
    first_item (str String.[]) = err (index_error "string index out of range")
    first_item (str (String.◌∷◌ c s)) = ok (str (String.◌∷◌ c String.[]))
    first_item (dict fs) = err (key_error "0")
    first_item _ = err (type_error "object is not subscriptable")

    -- `config.get("model_type", config.get("architectures", ["unknown"])[0])`: the default is
    -- computed even where there is a model type.
    unfoldable pub model_type_of : Fields Float → Result String
    unfolding get first_item to_str
    model_type_of config = do
      default ← first_item (get "architectures" (list (cons (str "unknown") nil)) config)
      ok (lower (to_str fl (get "model_type" default config)))

    unfoldable pub infer_moe_topology : Fields Float → Result MoeTopology
    unfolding model_type_of family_from_model_type required_int_from optional_int_from
    infer_moe_topology config = do
      model_type ← model_type_of config
      layers ← required_int_from config layer_keys "layers"
      experts ← required_int_from config expert_keys "experts_per_layer"
      active ← optional_int_from config active_keys (min_ℤ (pos 2) experts.0)
      hidden ← required_int_from config hidden_keys "hidden_size"
      intermediate ← required_int_from config intermediate_keys "intermediate_size"
      ok (record {
        family = family_from_model_type model_type;
        model_type = model_type;
        layers = layers.0;
        experts_per_layer = experts.0;
        active_experts_per_token = active.0;
        hidden_size = hidden.0;
        intermediate_size = intermediate.0;
        source_fields =
            ("layers", layers.1)
            ∷ ("experts_per_layer", experts.1)
            ∷ ("active_experts_per_token", active.1)
            ∷ ("hidden_size", hidden.1)
            ∷ ("intermediate_size", intermediate.1)
            ∷ [];
      })
