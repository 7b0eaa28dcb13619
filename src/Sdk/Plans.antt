-- ===== src/Sdk/Plans.antt =====
-- What a plan of `tilemem` is made of.
use mathlib.Core.List.{Perm}
use tile_mem.Common.{All, ok, refl, map, >>=-eq-ok, >>-eq-ok, ok-injective, String, ◌≡◌, sym, subst}
use tile_mem.Values.{Fields, Floats}
use tile_mem.ModelInterface.{ModelSpec, SpecSource, a_spec, spec_validate, coerce_model_spec}
use tile_mem.ModelInterface.Build.{build_mir_from_model_spec}
use tile_mem.ModelInterface.Build.Lowering.{IsLowered, build_mir_from_model_spec-IsLowered}
use tile_mem.Mir.Manifest.{Manifest, build_manifest}
use tile_mem.Mir.Manifest.Packing.{IsLaidOut, build_manifest-IsLaidOut}
use tile_mem.Integration.{TileHandle, BackendRegistry, build_tile_handles}
use tile_mem.Integration.Handles.{IsHandle, build_tile_handles-All}
use tile_mem.Checkpoint.HfConfig.{HfOptions, model_spec_from_hf_config}
use tile_mem.Checkpoint.Topology.{lowered}
use tile_mem.Sdk.{TileMemPlan, plan, plan_from_hf_config}

module _ (fl : Floats) (digest : Manifest → String) (registry : BackendRegistry) where
  open fl use {Float}

  -- The model of the plan is the one that is lowered from the specification, its manifest is built from
  -- that model with disjoint ranges, and its handles are those of the manifest in the registry: one for
  -- each tile, dispatchable exactly if the tile has somewhere to run.
  pub record IsPlan (source : SpecSource Float) (s : ModelSpec Float) (p : TileMemPlan Float)
      : Type 0 where
    pub its_model : build_mir_from_model_spec fl source ≡ ok p.mir
    pub lowered : IsLowered fl s p.mir
    pub built : build_manifest digest fl p.mir ≡ ok p.manifest
    pub laid_out : IsLaidOut p.manifest.layout
    pub its_handles : p.handles ≡ build_tile_handles p.manifest registry
    pub one_each :
        Perm
          (map (λ (h : TileHandle). (h.stable_key, h.weight_offset)) p.handles)
          p.manifest.layout.tile_offsets
    pub handled : All (IsHandle p.manifest registry) p.handles

  plan-IsPlan :
      (source : SpecSource Float) (p : TileMemPlan Float)
      → plan fl digest registry source ≡ ok p
      → (s : ModelSpec Float) × (coerce_model_spec fl source ≡ ok s) × IsPlan source s p
  unfolding plan
  plan-IsPlan source p h =
      let (mir, e₁, h₁) = >>=-eq-ok (build_mir_from_model_spec fl source) _ h in
      let (manifest, e₂, h₂) = >>=-eq-ok (build_manifest digest fl mir) _ h₁ in
      let (s, coerced, _, lowered) = build_mir_from_model_spec-IsLowered fl source mir e₁ in
      let (one_each, handled) = build_tile_handles-All manifest registry in
      let made : TileMemPlan Float = record {
        mir = mir;
        manifest = manifest;
        handles = build_tile_handles manifest registry;
      } in
      let facts : IsPlan source s made = record {
        its_model = e₁;
        lowered = lowered;
        built = e₂;
        laid_out = build_manifest-IsLaidOut digest fl mir manifest e₂;
        its_handles = refl;
        one_each = one_each;
        handled = handled;
      } in
      (s, coerced, subst (IsPlan source s) (ok-injective h₂) facts)

  -- A plan that is made from a configuration file has the model that the specification read from that
  -- file is lowered to, a manifest built from this model, with disjoint ranges, and the handles of this
  -- manifest: one for each of its tiles, with the tile's offset, dispatchable exactly if the tile has
  -- somewhere to run.
  pub plan_from_hf_config-IsPlan :
      (lower : String → String) (config : Fields Float) (options : HfOptions Float)
      (p : TileMemPlan Float)
      → plan_from_hf_config fl digest registry lower config options ≡ ok p
      → (s : ModelSpec Float) × (model_spec_from_hf_config fl lower config options ≡ ok s)
        × IsPlan (a_spec s) s p
  unfolding plan_from_hf_config coerce_model_spec
  plan_from_hf_config-IsPlan lower config options p h =
      let (spec, e₁, h₁) = >>=-eq-ok (model_spec_from_hf_config fl lower config options) _ h in
      let (s, coerced, facts) = plan-IsPlan (a_spec spec) p h₁ in
      let (_, same) = >>-eq-ok (spec_validate fl spec) (ok spec) coerced in
      (
        spec,
        e₁,
        subst (λ (x : ModelSpec Float). IsPlan (a_spec spec) x p) (sym (ok-injective same)) facts,
      )
