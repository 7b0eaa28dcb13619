-- ===== src/ModelInterface/Specs.antt =====
-- The documents of model specifications.
use tile_mem.Common.{
  str_eq, ok, ◌>>=◌, ◌>>◌, >>=-eq-ok, >>-eq-ok, ok-injective, ◌≡◌, refl, subst, true, arith,
}
use tile_mem.Values.{str, Floats, find, index, get, to_int, to_str}
use tile_mem.ModelInterface.{
  ModelSpec, SpecSource, a_spec, a_document, an_adapter, spec_validate, to_dict, read_spec,
  model_spec_from_dict, model_spec_to_dict, coerce_model_spec,
}

module _ (fl : Floats) where
  open fl use {Float}

  -- What `model_spec_to_dict` wrote of a specification that passes `validate`, `model_spec_from_dict`
  -- reads back.
  pub model_spec_from_dict-to_dict :
      (s : ModelSpec Float)
      → spec_validate fl s ≡ ok tt
      → (model_spec_to_dict fl s >>= model_spec_from_dict fl) ≡ ok s
  unfolding model_spec_from_dict read_spec model_spec_to_dict index get find to_int to_str to_dict
  model_spec_from_dict-to_dict s h = rw (h) (rw (h) refl)

  -- A specification that passes `validate` asks for "bf16".
  pub spec_validate-bf16 :
      (s : ModelSpec Float)
      → spec_validate fl s ≡ ok tt
      → str_eq (to_str fl (get "dtype_policy" (str "bf16") s.precision)) "bf16" ≡ true
  unfolding spec_validate
  spec_validate-bf16 s h = ground arith

  coerced :
      (s s' : ModelSpec Float) → (spec_validate fl s >> ok s) ≡ ok s' → spec_validate fl s' ≡ ok tt
  coerced s s' h =
      let (valid, same) = >>-eq-ok (spec_validate fl s) (ok s) h in
      subst (λ x. spec_validate fl x ≡ ok tt) (ok-injective same) valid

  -- Whatever a specification is read from, it passed `validate`.
  pub coerce_model_spec-validate :
      (source : SpecSource Float) (s : ModelSpec Float)
      → coerce_model_spec fl source ≡ ok s
      → spec_validate fl s ≡ ok tt
  unfolding coerce_model_spec model_spec_from_dict
  coerce_model_spec-validate (a_spec s₀) s h = coerced s₀ s h
  coerce_model_spec-validate (an_adapter s₀) s h = coerced s₀ s h
  coerce_model_spec-validate (a_document d) s h =
      let (s₀, e, h') = >>=-eq-ok (read_spec fl d) _ h in coerced s₀ s h'
