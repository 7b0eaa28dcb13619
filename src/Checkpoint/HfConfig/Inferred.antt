-- ===== src/Checkpoint/HfConfig/Inferred.antt =====
-- What is inferred from the configuration of a model, and the specification that is built of it.
use Prim.Native.String.{◌++◌ as append}
use text.Mathlib.TextLemmas.{append-ne-nil_of_right_ne-nil}
use tile_mem.Common.{
  str_eq, if◌then◌else◌, Bool-cases, Option-cases, str_ne, all, ℤ, pos, ◌<ℤ◌, ltb_ℤ, leb_ℤ, str_int,
  Error, value_error, Result, err, ok, ◌>>◌, reject, >>=-eq-ok, >>-eq-ok, reject-eq-ok,
  ok-injective, String, ◌≡◌, refl, ap, ◌∙◌, subst, ◌≢◌, inl, inr, Bool, true, false, List, arith,
}
use tile_mem.Values.{Value, Fields, end, Floats, find, index, get, iterate, to_int, to_str}
use tile_mem.Checkpoint.{min_ℤ}
use tile_mem.Checkpoint.Topology.{
  MoeTopology, layer_keys, expert_keys, active_keys, hidden_keys, intermediate_keys, is_null,
  lookup_key, positive_value, required_int_from, optional_int_from, model_type_of,
  infer_moe_topology,
}
use tile_mem.ModelInterface.{
  ModelSpec, require_positive, spec_validate, to_dict, read_spec, model_spec_from_dict,
}
use tile_mem.Checkpoint.HfConfig.{
  safe_model_name, HfOptions, merge, model_name, budget_of, tile_default, memory_default,
  precision_default, schedule_default, hf_document, model_spec_from_hf_config,
}

e-not_empty : ◌≢◌ {A = String} "e" ""
e-not_empty h = cc

family-not_empty : (t : MoeTopology) → str_eq (safe_model_name t) "" ≡ false
unfolding safe_model_name
family-not_empty t = str_ne (safe_model_name t) "" (
    append-ne-nil_of_right_ne-nil t.family (
      append-ne-nil_of_right_ne-nil "_" (
        append-ne-nil_of_right_ne-nil (str_int t.layers) (
          append-ne-nil_of_right_ne-nil "l_"
            (append-ne-nil_of_right_ne-nil (str_int t.experts_per_layer) e-not_empty)))))

model_name-not_empty :
    {F : Type 0} (options : HfOptions F) (t : MoeTopology)
    → str_eq (model_name options t) "" ≡ false
unfolding model_name
model_name-not_empty options t = elim (Option-cases options.name) [
  | inl e ↦ rw (model_name, e) (family-not_empty t)
  | inr (name, e) ↦ elim (Bool-cases (str_eq name "")) [
    | inl e' ↦ rw (model_name, e, e') (family-not_empty t)
    | inr e' ↦ rw (model_name, e, e') e'
  ]
]

-- All numbers of a topology are positive.
abbrev pub HasPositiveSizes : MoeTopology → Type 0
HasPositiveSizes t =
    (pos 0 <ℤ t.layers)
    × (pos 0 <ℤ t.experts_per_layer)
    × (pos 0 <ℤ t.active_experts_per_token)
    × (pos 0 <ℤ t.hidden_size)
    × (pos 0 <ℤ t.intermediate_size)

module _ (lower : String → String) (fl : Floats) where
  open fl use {Float}

  positive_value-positive :
      (value : Value Float) (key label : String) (n : ℤ × String)
      → positive_value lower fl value key label ≡ ok n
      → pos 0 <ℤ n.0
  unfolding positive_value
  positive_value-positive value key label n h =
      let (m, _, checked) = >>=-eq-ok (to_int fl value) _ h in
      let (passed, same) = >>-eq-ok (reject (leb_ℤ m (pos 0)) _) _ checked in
      let above = reject-eq-ok (leb_ℤ m (pos 0)) _ passed in
      subst (λ (r : ℤ × String). pos 0 <ℤ r.0) (ok-injective same) (ground (arith, above))

  required_int_from-positive :
      (config : Fields Float) (keys : List String) (label : String) (n : ℤ × String)
      → required_int_from lower fl config keys label ≡ ok n
      → pos 0 <ℤ n.0
  unfolding required_int_from
  required_int_from-positive config keys label n h =
      let (value, key) = lookup_key lower config keys in
      elim (Bool-cases (is_null value)) [
        | inl e ↦
            let raised : err (value_error (append "cannot infer MoE topology field: " label))
                ≡ ok n =
              rw (e) at h in
            absurd (cc)
        | inr e ↦ positive_value-positive value key label n (rw (e) at h)
      ]

  optional_int_from-positive :
      (config : Fields Float) (keys : List String) (default : ℤ) (n : ℤ × String)
      → pos 0 <ℤ default
      → optional_int_from lower fl config keys default ≡ ok n
      → pos 0 <ℤ n.0
  unfolding optional_int_from
  optional_int_from-positive config keys default n p h =
      let (value, key) = lookup_key lower config keys in
      elim (Bool-cases (is_null value)) [
        | inl e ↦
            let same : ok (default, "default") ≡ ok n = rw (e) at h in
            subst (λ (r : ℤ × String). pos 0 <ℤ r.0) (ok-injective same) p
        | inr e ↦ positive_value-positive value key key n (rw (e) at h)
      ]

  -- Whatever topology is inferred from a configuration, its numbers of layers, experts and active
  -- experts, and its two sizes, are positive.
  pub infer_moe_topology-HasPositiveSizes :
      (config : Fields Float) (t : MoeTopology)
      → infer_moe_topology lower fl config ≡ ok t
      → HasPositiveSizes t
  unfolding infer_moe_topology
  infer_moe_topology-HasPositiveSizes config t h =
      let (model_type, _, h₁) = >>=-eq-ok (model_type_of lower fl config) _ h in
      let (layers, e₁, h₂) =
        >>=-eq-ok (required_int_from lower fl config layer_keys "layers") _ h₁ in
      let (experts, e₂, h₃) =
        >>=-eq-ok (required_int_from lower fl config expert_keys "experts_per_layer") _ h₂ in
      let (active, e₃, h₄) =
        >>=-eq-ok (optional_int_from lower fl config active_keys (min_ℤ (pos 2) experts.0)) _ h₃ in
      let (hidden, e₄, h₅) =
        >>=-eq-ok (required_int_from lower fl config hidden_keys "hidden_size") _ h₄ in
      let (intermediate, e₅, h₆) =
        >>=-eq-ok (required_int_from lower fl config intermediate_keys "intermediate_size") _ h₅ in
      let experts_positive =
        required_int_from-positive config expert_keys "experts_per_layer" experts e₂ in
      subst HasPositiveSizes (ok-injective h₆) (
        required_int_from-positive config layer_keys "layers" layers e₁,
        experts_positive,
        optional_int_from-positive config active_keys (min_ℤ (pos 2) experts.0) active
            (ground (arith, experts_positive)) e₃,
        required_int_from-positive config hidden_keys "hidden_size" hidden e₄,
        required_int_from-positive config intermediate_keys "intermediate_size" intermediate e₅,
      )

  -- The specification with the sizes of a topology
  abbrev pub inferred_spec : HfOptions Float → MoeTopology → ModelSpec Float
  inferred_spec options t = record {
    name = model_name options t;
    layers = t.layers;
    experts_per_layer = t.experts_per_layer;
    hidden_size = t.hidden_size;
    intermediate_size = t.intermediate_size;
    expert_budget = budget_of options t;
    workload = options.workload;
    tile = merge (tile_default fl t) options.tile_changes;
    memory = merge (memory_default fl) options.memory_changes;
    precision = precision_default fl;
    schedule = merge (schedule_default fl) options.schedule_changes;
  }

  read_spec-hf_document :
      (options : HfOptions Float) (t : MoeTopology)
      → options.precision_changes ≡ end
      → read_spec fl (hf_document fl options t) ≡ ok (inferred_spec options t)
  unfolding read_spec hf_document merge index get find to_int to_str to_dict
  read_spec-hf_document options t h = rw (h) refl

  require_positive_lem : (n : ℤ) (label : String) → pos 0 <ℤ n → require_positive n label ≡ ok tt
  unfolding require_positive
  require_positive_lem n label h =
      let above : leb_ℤ n (pos 0) ≡ false = ground arith in rw (above) refl

  abbrev passed : Result (Unit {0})
  passed = ok tt

  -- What the two checks of the budget come to
  abbrev verdict : ℤ → ℤ → Result (Unit {0})
  verdict experts budget =
      if leb_ℤ budget (pos 0)
      then err (value_error "expert_budget must be positive")
      else if ltb_ℤ experts budget
      then err (value_error "expert_budget must be <= experts_per_layer")
      else ok tt

  budget_checks :
      (experts budget : ℤ)
      → (require_positive budget "expert_budget"
          >> (reject
                (ltb_ℤ experts budget)
                (value_error "expert_budget must be <= experts_per_layer")
              >> passed))
        ≡ verdict experts budget
  unfolding require_positive
  budget_checks experts budget = elim (Bool-cases (leb_ℤ budget (pos 0))) [
    | inl low ↦ rw (low) refl
    | inr fine ↦ elim (Bool-cases (ltb_ℤ experts budget)) [
      | inl high ↦ rw (fine, high) refl
      | inr fits ↦ rw (fine, fits) refl
    ]
  ]

  spec_validate-inferred :
      (options : HfOptions Float) (t : MoeTopology)
      → HasPositiveSizes t
      → str_eq options.workload "" ≡ false
      → spec_validate fl (inferred_spec options t)
        ≡ verdict t.experts_per_layer (budget_of options t)
  unfolding spec_validate get find iterate to_str all
  spec_validate-inferred options t (layers, experts, active, hidden, intermediate) work =
      rw
        (
          require_positive_lem t.layers "layers" layers,
          require_positive_lem t.experts_per_layer "experts_per_layer" experts,
          require_positive_lem t.hidden_size "hidden_size" hidden,
          require_positive_lem t.intermediate_size "intermediate_size" intermediate,
          model_name-not_empty options t,
          work,
        )
        (budget_checks t.experts_per_layer (budget_of options t))

  checked_spec :
      (d : Fields Float) (spec : ModelSpec Float)
      → read_spec fl d ≡ ok spec
      → model_spec_from_dict fl d ≡ (spec_validate fl spec >> ok spec)
  unfolding model_spec_from_dict
  checked_spec d spec h = rw (h) refl

  validated :
      (low high : Bool) (e₁ e₂ : Error) (spec : ModelSpec Float)
      → ((if low then err e₁ else if high then err e₂ else ok tt) >> ok spec)
        ≡ (if low then err e₁ else if high then err e₂ else ok spec)
  validated true high e₁ e₂ spec = refl
  validated false true e₁ e₂ spec = refl
  validated false false e₁ e₂ spec = refl

  -- For a topology that is inferred from a configuration, with a workload and with no change to the
  -- precision: the specification is refused when the budget of experts is not positive, refused when
  -- it is above the number of experts, and is otherwise the one with the sizes of the topology.
  pub model_spec_from_hf_config_lem :
      (config : Fields Float) (options : HfOptions Float) (t : MoeTopology)
      → infer_moe_topology lower fl config ≡ ok t
      → str_eq options.workload "" ≡ false
      → options.precision_changes ≡ end
      → model_spec_from_hf_config fl lower config options ≡ (
          if leb_ℤ (budget_of options t) (pos 0)
          then err (value_error "expert_budget must be positive")
          else if ltb_ℤ t.experts_per_layer (budget_of options t)
          then err (value_error "expert_budget must be <= experts_per_layer")
          else ok (inferred_spec options t))
  unfolding model_spec_from_hf_config
  model_spec_from_hf_config_lem config options t h work bf16 =
      let sizes = infer_moe_topology-HasPositiveSizes config t h in
      let spec = inferred_spec options t in
      rw (h) (
        checked_spec (hf_document fl options t) spec (read_spec-hf_document options t bf16)
        ∙ ap (λ (check : Result (Unit {0})). check >> ok spec)
            (spec_validate-inferred options t sizes work)
        ∙ validated (leb_ℤ (budget_of options t) (pos 0))
            (ltb_ℤ t.experts_per_layer (budget_of options t)) _ _ spec)
