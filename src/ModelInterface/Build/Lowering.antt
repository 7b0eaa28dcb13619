-- ===== src/ModelInterface/Build/Lowering.antt =====
-- What `build_mir_from_model_spec` returns.
use tile_mem.Common.{
  str_eq, All, pos, pos_part, ok, traverse, >>=-eq-ok, >>-eq-ok, ok-injective, String, ◌≡◌, refl,
  sym, ◌∙◌, subst, true, List, [], ◌∷◌, map,
}
use tile_mem.Values.{Value, float, Floats, get, iterate, to_float}
use tile_mem.Mir.Enums.{TileDType, bf16}
use tile_mem.Mir.Model.{TileIr, ResidencyIr, ScheduleIr, ModelIr, model_validate}
use tile_mem.Compiler.Tiles.{select_tile_dtype}
use tile_mem.Compiler.Tiles.Generated.{IsGenerated, lower_tiles-All}
use tile_mem.ModelInterface.{ModelSpec, SpecSource, texts_of, spec_validate, coerce_model_spec}
use tile_mem.ModelInterface.Specs.{spec_validate-bf16, coerce_model_spec-validate}
use tile_mem.ModelInterface.Build.{
  TileShape, spec_ranges, spec_shape, spec_tiles, spec_precision, spec_schedule, spec_allowed,
  spec_residency, model_of, spec_model, lower_spec, build_mir_from_model_spec,
}
use tile_mem.Mir.Decode.{chain_item}

module _ (fl : Floats) where
  open fl use {Float, of_int}

  -- What a model owes to the specification it was lowered from.
  pub record IsLowered (s : ModelSpec Float) (m : ModelIr Float) : Type 0 where
    pub valid : model_validate fl m ≡ ok tt
    pub tiles :
        All
          (IsGenerated (pos_part s.hidden_size) bf16 (pos_part s.layers) (pos_part s.expert_budget))
          m.tiles
    pub hot : m.residency.gpu_hot_tiles ≡ map (λ (t : TileIr). t.tile_id) m.tiles
    pub policy : str_eq m.precision.dtype_policy "bf16" ≡ true

  spec_residency-hot :
      (s : ModelSpec Float) (tiles : List TileIr) (r : ResidencyIr Float)
      → spec_residency fl s tiles ≡ ok r
      → r.gpu_hot_tiles ≡ map (λ (t : TileIr). t.tile_id) tiles
  unfolding spec_residency
  spec_residency-hot s tiles r h =
      let (items, e, h₁) =
        >>=-eq-ok (iterate (get "fallback_chain" (texts_of fl ("bf16" ∷ "kt" ∷ [])) s.schedule)) _
          h in
      let (chain, e₁, h₂) = >>=-eq-ok (traverse (chain_item fl) items) _ h₁ in
      let nought : Value Float = float (of_int (pos 0)) in
      let (gpu, e₂, h₃) =
        >>=-eq-ok (to_float fl (get "gpu_cache_budget_gib" nought s.memory)) _ h₂ in
      let (cpu, e₃, h₄) =
        >>=-eq-ok (to_float fl (get "cpu_cache_budget_gib" nought s.memory)) _ h₃ in
      subst (λ (x : ResidencyIr Float). x.gpu_hot_tiles ≡ map (λ (t : TileIr). t.tile_id) tiles)
        (ok-injective h₄) refl

  spec_tiles-IsGenerated :
      (s : ModelSpec Float) (shape : TileShape) (message : String) (allowed : List TileDType)
      (policy : String) (dtype : TileDType) (tiles : List TileIr)
      → str_eq policy "bf16" ≡ true
      → select_tile_dtype message allowed policy ≡ ok dtype
      → spec_tiles fl s shape dtype ≡ ok tiles
      → All
          (IsGenerated (pos_part s.hidden_size) bf16 (pos_part s.layers) (pos_part s.expert_budget))
          tiles
  unfolding select_tile_dtype spec_tiles
  spec_tiles-IsGenerated s shape message allowed policy dtype tiles b e h =
      let is_bf16 : dtype ≡ bf16 = ok-injective (sym e ∙ rw b refl) in
      lower_tiles-All (spec_ranges fl s shape.hidden_tile shape.intermediate_tile shape.shard_count)
        _ _ _ _ shape.projection_groups tiles
        (subst (λ d. spec_tiles fl s shape d ≡ ok tiles) is_bf16 h)

  spec_model-IsLowered :
      (s : ModelSpec Float) (allowed : List TileDType) (tiles : List TileIr) (r : ResidencyIr Float)
      (schedule : ScheduleIr) (m : ModelIr Float)
      → spec_validate fl s ≡ ok tt
      → All
          (IsGenerated (pos_part s.hidden_size) bf16 (pos_part s.layers) (pos_part s.expert_budget))
          tiles
      → r.gpu_hot_tiles ≡ map (λ (t : TileIr). t.tile_id) tiles
      → spec_model fl s allowed tiles r schedule ≡ ok m
      → IsLowered s m
  unfolding spec_model
  spec_model-IsLowered s allowed tiles r schedule m v g hot h =
      let mir = model_of fl s allowed tiles r schedule in
      let (valid, same) = >>-eq-ok (model_validate fl mir) (ok mir) h in
      subst (IsLowered s) (ok-injective same)
        (record { valid = valid; tiles = g; hot = hot; policy = spec_validate-bf16 fl s v })

  lower_spec-IsLowered :
      (s : ModelSpec Float) (m : ModelIr Float)
      → spec_validate fl s ≡ ok tt
      → lower_spec fl s ≡ ok m
      → IsLowered s m
  unfolding lower_spec
  lower_spec-IsLowered s m v h =
      let message : String = "no supported dtype in precision.allowed" in
      let (shape, e₀, h₀) = >>=-eq-ok (spec_shape fl s) _ h in
      let (allowed, e₁, h₁) = >>=-eq-ok (spec_allowed fl s) _ h₀ in
      let policy = (spec_precision fl s allowed).dtype_policy in
      let (dtype, e₂, h₂) = >>=-eq-ok (select_tile_dtype message allowed policy) _ h₁ in
      let (tiles, e₃, h₃) = >>=-eq-ok (spec_tiles fl s shape dtype) _ h₂ in
      let (r, e₄, h₄) = >>=-eq-ok (spec_residency fl s tiles) _ h₃ in
      let (schedule, e₅, h₅) = >>=-eq-ok (spec_schedule fl s) _ h₄ in
      spec_model-IsLowered s allowed tiles r schedule m v
        (spec_tiles-IsGenerated s shape message allowed policy dtype tiles
          (spec_validate-bf16 fl s v) e₂ e₃)
        (spec_residency-hot s tiles r e₄) h₅

  -- Whatever `build_mir_from_model_spec` returns passes `validate`, has "bf16" tiles alone, each with
  -- a layer and an expert inside the specification's bounds and the size that goes with its range,
  -- and takes all of them for hot. The specification it was read from passes `validate`.
  pub build_mir_from_model_spec-IsLowered :
      (source : SpecSource Float) (m : ModelIr Float)
      → build_mir_from_model_spec fl source ≡ ok m
      → (s : ModelSpec Float) × (coerce_model_spec fl source ≡ ok s)
        × (spec_validate fl s ≡ ok tt)
        × IsLowered s m
  unfolding build_mir_from_model_spec
  build_mir_from_model_spec-IsLowered source m h =
      let (s, e, h') = >>=-eq-ok (coerce_model_spec fl source) _ h in
      let v = coerce_model_spec-validate fl source s e in (s, e, v, lower_spec-IsLowered s m v h')
