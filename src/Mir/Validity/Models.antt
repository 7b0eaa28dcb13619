-- ===== src/Mir/Validity/Models.antt =====
-- Which whole models `ModelIR.validate` accepts.
use tile_mem.Common.{
  Bool-cases, any, All, ℤ, pos, ◌<ℤ◌, leb_ℤ, Error, value_error, ok, reject, ◌≡◌, refl, ◌≢◌, ◌↔◌,
  ◌⊎◌, inl, inr, Bool, true, false, not, ◌&&◌, ◌||◌, List, [], ◌∷◌, arith,
}
use tile_mem.Mir.Enums.{
  TileDType, bf16, fp8, fp6, fp4, mxfp4, Backend, cuda, tilelang, kt_fallback, dtype_eq, backend_eq,
}
use tile_mem.Mir.Model.{
  tile_validate, route_validate, ResidencyIr, PrecisionIr, low_precision, precision_validate,
  ScheduleIr, schedule_validate, ModelIr, residency_validate, model_validate,
}
use tile_mem.Mir.Validity.{
  IsTile, >>_iff, check_each_iff, tile_validate_iff, IsRoute, not_empty_iff, route_validate_iff,
}
use tile_mem.Values.{Floats}

abbrev pub Includes : {A : Type 0} → A → List A → Type 0
Includes a [] = ⊥
Includes a (x ∷ xs) = (x ≡ a) ⊎ Includes a xs

-- Calibration may be left out only if every allowed dtype is bf16.
pub record IsPrecision (p : PrecisionIr) : Type 0 where
  pub some_allowed : p.allowed ≢ []
  pub calibrated : All (λ d. d ≡ bf16) p.allowed ⊎ (p.calibration_required ≡ true)

low_allowed : List TileDType → Bool
low_allowed allowed = any (λ d. any (dtype_eq d) allowed) low_precision

low_allowed-cons :
    (d : TileDType) (ds : List TileDType)
    → low_allowed (d ∷ ds) ≡ (not (dtype_eq d bf16) || low_allowed ds)
unfolding low_allowed any
low_allowed-cons bf16 ds = refl
low_allowed-cons fp8 ds = refl
low_allowed-cons fp6 ds = ground arith
low_allowed-cons fp4 ds = ground arith
low_allowed-cons mxfp4 ds = ground arith

low_allowed_iff :
    (allowed : List TileDType) → (low_allowed allowed ≡ false) ↔ All (λ d. d ≡ bf16) allowed
unfolding low_allowed any
low_allowed_iff [] = (λ h. tt, λ h. refl)
low_allowed_iff (bf16 ∷ ds) =
    let (to, from) = low_allowed_iff ds in (λ h. (refl, to h), λ h. from h.1)
low_allowed_iff (fp8 ∷ ds) = (λ h. cc, λ h. cc (h.0))
low_allowed_iff (fp6 ∷ ds) = (λ h. cc (low_allowed-cons fp6 ds), λ h. cc (h.0))
low_allowed_iff (fp4 ∷ ds) = (λ h. cc (low_allowed-cons fp4 ds), λ h. cc (h.0))
low_allowed_iff (mxfp4 ∷ ds) = (λ h. cc (low_allowed-cons mxfp4 ds), λ h. cc (h.0))

precision_iff :
    (p : PrecisionIr) (e : Error)
    → (reject (low_allowed p.allowed && not p.calibration_required) e ≡ ok tt)
      ↔ (All (λ d. d ≡ bf16) p.allowed ⊎ (p.calibration_required ≡ true))
precision_iff p e = (
  λ h. elim (Bool-cases p.calibration_required) [
    | inl c ↦ inr c
    | inr c ↦ inl ((low_allowed_iff p.allowed).0 (ground arith))
  ],
  λ h. elim h [
    | inl a ↦ let low = (low_allowed_iff p.allowed).1 a in rw low
    | inr c ↦ ground arith
  ],
)

-- A precision policy is accepted exactly if it allows some dtype, and allows only bf16 or requires
-- calibration.
pub precision_validate_iff : (p : PrecisionIr) → (precision_validate p ≡ ok tt) ↔ IsPrecision p
unfolding precision_validate low_allowed
precision_validate_iff p =
    let checks =
      >>_iff _ _ (not_empty_iff (value_error "at least one dtype must be allowed") p.allowed)
        (precision_iff p (value_error "low-precision tile formats require calibration")) in
    (
      λ h. record { some_allowed = (checks.0 h).0; calibrated = (checks.0 h).1 },
      λ v. checks.1 (v.some_allowed, v.calibrated),
    )

kt_included_iff :
    (e : Error) (bs : List Backend)
    → (reject (not (any (backend_eq kt_fallback) bs)) e ≡ ok tt) ↔ Includes kt_fallback bs
unfolding any
kt_included_iff e [] = (λ h. cc, λ h. absurd h)
kt_included_iff e (kt_fallback ∷ bs) = (λ h. inl refl, λ h. refl)
kt_included_iff e (cuda ∷ bs) =
    let (to, from) = kt_included_iff e bs in
    (λ h. inr (to h), λ h. elim h [ inl p ↦ cc | inr i ↦ from i ])
kt_included_iff e (tilelang ∷ bs) =
    let (to, from) = kt_included_iff e bs in
    (λ h. inr (to h), λ h. elim h [ inl p ↦ cc | inr i ↦ from i ])

Includes-ne-nil : (xs : List Backend) → Includes kt_fallback xs → xs ≢ []
Includes-ne-nil [] i = absurd i
Includes-ne-nil (x ∷ xs) i = λ p. cc

-- A schedule is accepted exactly if its backends include the KT fallback.
pub schedule_validate_iff :
    (s : ScheduleIr) → (schedule_validate s ≡ ok tt) ↔ Includes kt_fallback s.backend_priority
unfolding schedule_validate
schedule_validate_iff s =
    let checks =
      >>_iff _ _
        (not_empty_iff (value_error "backend_priority must not be empty") s.backend_priority)
        (kt_included_iff (value_error "backend_priority must include kt_fallback")
          s.backend_priority) in
    (λ h. (checks.0 h).1, λ v. checks.1 (Includes-ne-nil s.backend_priority v, v))

module _ (fl : Floats) where
  open fl use {Float, lt, of_int}

  pub record IsResidency (r : ResidencyIr Float) : Type 0 where
    pub gpu_nonneg : lt r.gpu_cache_budget_gib (of_int (pos 0)) ≡ false
    pub cpu_nonneg : lt r.cpu_cache_budget_gib (of_int (pos 0)) ≡ false
    pub has_fallback : r.fallback_chain ≢ []

  neither_iff : (a b : Bool) (e : Error) → (reject (a || b) e ≡ ok tt) ↔ ((a ≡ false) × (b ≡ false))
  neither_iff a b e = (λ h. ground arith, λ h. ground arith)

  pub residency_validate_iff :
      (r : ResidencyIr Float) → (residency_validate fl r ≡ ok tt) ↔ IsResidency r
  unfolding residency_validate
  residency_validate_iff r =
      let checks =
        >>_iff _ _ (neither_iff _ _ (value_error "memory budgets must be non-negative"))
          (not_empty_iff (value_error "fallback_chain must not be empty") r.fallback_chain) in
      (
        λ h.
            let (floats, chain) = checks.0 h in
            record { gpu_nonneg = floats.0; cpu_nonneg = floats.1; has_fallback = chain },
        λ v. checks.1 ((v.gpu_nonneg, v.cpu_nonneg), v.has_fallback),
      )

  both_positive_iff :
      (a b : ℤ) (e : Error)
      → (reject (leb_ℤ a (pos 0) || leb_ℤ b (pos 0)) e ≡ ok tt) ↔ ((pos 0 <ℤ a) × (pos 0 <ℤ b))
  both_positive_iff a b e = (λ h. ground arith, λ h. ground arith)

  pub record IsModel (m : ModelIr Float) : Type 0 where
    pub counts_positive : (pos 0 <ℤ m.layers) × (pos 0 <ℤ m.experts_per_layer)
    pub sizes_positive : (pos 0 <ℤ m.hidden_size) × (pos 0 <ℤ m.intermediate_size)
    pub has_tiles : m.tiles ≢ []
    pub routes_valid : All IsRoute m.routes
    pub tiles_valid : All IsTile m.tiles
    pub residency_valid : IsResidency m.residency
    pub precision_valid : IsPrecision m.precision
    pub schedule_valid : Includes kt_fallback m.schedule.backend_priority

  -- A model is accepted exactly if its counts and sizes are positive, it has tiles, and each of its
  -- parts is valid.
  pub model_validate_iff : (m : ModelIr Float) → (model_validate fl m ≡ ok tt) ↔ IsModel m
  unfolding model_validate
  model_validate_iff m =
      let checks =
        >>_iff _ _
          (both_positive_iff m.layers m.experts_per_layer
            (value_error "model layers and experts_per_layer must be positive"))
          (>>_iff _ _
            (both_positive_iff m.hidden_size m.intermediate_size
              (value_error "model dimensions must be positive"))
            (>>_iff _ _ (not_empty_iff (value_error "MIR must contain tiles") m.tiles) (
              >>_iff _ _ (check_each_iff route_validate route_validate_iff m.routes) (
                >>_iff _ _ (check_each_iff tile_validate tile_validate_iff m.tiles) (
                  >>_iff _ _ (residency_validate_iff m.residency) (
                    >>_iff _ _ (precision_validate_iff m.precision)
                      (schedule_validate_iff m.schedule))))))) in
      (
        λ h.
            let (c, (s, (n, (r, (t, (rs, (p, sc))))))) = checks.0 h in
            record {
              counts_positive = c;
              sizes_positive = s;
              has_tiles = n;
              routes_valid = r;
              tiles_valid = t;
              residency_valid = rs;
              precision_valid = p;
              schedule_valid = sc;
            },
        λ v. checks.1 (
          v.counts_positive,
          (
            v.sizes_positive,
            (
              v.has_tiles,
              (
                v.routes_valid,
                (v.tiles_valid, (v.residency_valid, (v.precision_valid, v.schedule_valid))),
              ),
            ),
          ),
        ),
      )
