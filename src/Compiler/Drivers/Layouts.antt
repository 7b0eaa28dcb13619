-- ===== src/Compiler/Drivers/Layouts.antt =====
-- The manifest of a compiled plan.
use text.Mathlib.Text.{starts_with}
use tile_mem.Common.{
  Bool-cases, pos, ok, >>=-eq-ok, >>-eq-ok, ok-injective, String, ◌≡◌, ap, subst, inl, inr, Option,
  List,
}
use tile_mem.Values.{Value, int, str, Fields, Floats, get, to_int, to_str}
use tile_mem.Dsl.{DslBlock, required_block, parse_tmem}
use tile_mem.Mir.Model.{model_validate}
use tile_mem.Mir.Manifest.{Manifest, build_manifest}
use tile_mem.Mir.Manifest.Packing.{IsLaidOut, build_manifest-IsLaidOut}
use tile_mem.Compiler.Lower.{lower_plan_to_mir, ablation_manifest, attach_ablation_metadata}
use tile_mem.Compiler.Drivers.{CompileResult, compile_plan}

module _ (digest : Manifest → String) (fl : Floats) where
  open fl use {Float}

  ablation_manifest-layout :
      (policy : String) (tile : Fields Float) (plan : List (DslBlock Float)) (m m' : Manifest)
      → ablation_manifest fl digest policy tile plan m ≡ ok m'
      → m.layout ≡ m'.layout
  unfolding ablation_manifest
  ablation_manifest-layout policy tile plan m m' h =
      let (mem, e₁, h₁) = >>=-eq-ok (required_block "memory" plan) _ h in
      let (schedule, e₂, h₂) = >>=-eq-ok (required_block "schedule" plan) _ h₁ in
      let (budget, e₃, h₃) =
        >>=-eq-ok (to_int fl (get "experts_per_layer" (int (pos 0)) mem.values)) _ h₂ in
      let (hot, e₄, h₄) = >>=-eq-ok (to_int fl (get "hot_expert_budget" (int (pos 0)) tile)) _ h₃ in
      ap (λ (x : Manifest). x.layout) (ok-injective h₄)

  attach_ablation_metadata-layout :
      (plan : List (DslBlock Float)) (m m' : Manifest)
      → attach_ablation_metadata fl digest plan m ≡ ok m'
      → m.layout ≡ m'.layout
  unfolding attach_ablation_metadata
  attach_ablation_metadata-layout plan m m' h =
      let (tile, e, h') = >>=-eq-ok (required_block "tile" plan) _ h in
      let policy = to_str fl (get "tile_policy" (str "") tile.values) in
      elim (Bool-cases (starts_with policy "tilepo_")) [
        | inl is_ablation ↦
            ablation_manifest-layout policy tile.values plan m m' (rw is_ablation at h')
        | inr other ↦ ap (λ (x : Manifest). x.layout) (ok-injective (rw other at h'))
      ]

  -- Of a plan that compiles, the model passes `validate`'s checks on the way to its manifest, and in
  -- the manifest the ranges of different tiles are disjoint, whatever the ablation adds to it.
  pub compile_plan-IsLaidOut :
      (lower : String → String) (literal_eval : String → Option (Value Float)) (lines : List String)
      (r : CompileResult Float)
      → compile_plan digest fl lower literal_eval lines ≡ ok r
      → (model_validate fl r.mir ≡ ok tt) × IsLaidOut r.manifest.layout
  unfolding compile_plan build_manifest
  compile_plan-IsLaidOut lower literal_eval lines r h =
      let (plan, e₁, h₁) = >>=-eq-ok (parse_tmem lower literal_eval lines) _ h in
      let (mir, e₂, h₂) = >>=-eq-ok (lower_plan_to_mir fl plan) _ h₁ in
      let (built, e₃, h₃) = >>=-eq-ok (build_manifest digest fl mir) _ h₂ in
      let (manifest, e₄, h₄) = >>=-eq-ok (attach_ablation_metadata fl digest plan built) _ h₃ in
      let (valid, e) = >>-eq-ok (model_validate fl mir) _ e₃ in
      subst
        (λ (x : CompileResult Float).
          (model_validate fl x.mir ≡ ok tt) × IsLaidOut x.manifest.layout)
        (ok-injective h₄)
        (
          valid,
          subst IsLaidOut (attach_ablation_metadata-layout plan built manifest e₄)
              (build_manifest-IsLaidOut digest fl mir built e₃),
        )
