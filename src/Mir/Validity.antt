-- ===== src/Mir/Validity.antt =====
-- Which models, tiles, formats and schedules `validate` accepts: each check against a description
-- by plain statements.
pub mod Models
use tile_mem.Common.{
  str_eq_iff, is_empty, All, ℤ, pos, ◌≤ℤ◌, ◌<ℤ◌, ltb_ℤ, leb_ℤ, Error, value_error, Result, ok, err,
  ◌>>◌, reject, check_each, String, ◌≡◌, refl, ◌≢◌, ◌↔◌, true, Option, none, some, List, [], ◌∷◌,
  arith,
}
use tile_mem.Mir.Formats.{TileFormat, is_blank, format_validate, ScaleLayout, scale_validate}
use tile_mem.Mir.Model.{TileIr, if_some, tile_validate, RouteIr, check_layer, route_validate}
use tile_mem.Values.{int_of_text}

pub record IsFormat (f : TileFormat) : Type 0 where
  pub named : f.name ≢ ""
  pub bits_positive : pos 0 <ℤ f.storage_bits
  pub compute_given : f.compute_dtype ≢ ""
  pub accum_given : f.accum_dtype ≢ ""
  pub owner_given : f.layout_owner ≢ ""

-- A tile format is accepted exactly if its texts are not empty and its bits are positive.
pub format_validate_iff : (f : TileFormat) → (format_validate f ≡ ok tt) ↔ IsFormat f
unfolding format_validate
format_validate_iff f = (
  λ h. ground (
    arith,
    str_eq_iff f.name "",
    str_eq_iff f.compute_dtype "",
    str_eq_iff f.accum_dtype "",
    str_eq_iff f.layout_owner "",
  ),
  λ v. ground (
    arith,
    str_eq_iff f.name "",
    str_eq_iff f.compute_dtype "",
    str_eq_iff f.accum_dtype "",
    str_eq_iff f.layout_owner "",
  ),
)

pub record IsScale (s : ScaleLayout) : Type 0 where
  pub granular : s.granularity ≢ ""
  pub block_positive : s.required ≡ true → pos 0 <ℤ s.block_size
  pub scale_typed : s.required ≡ true → s.scale_dtype ≢ ""
  pub axis_given : s.axis ≢ ""
  pub layout_given : s.layout ≢ ""

-- A scale layout is accepted exactly if its texts are not empty and, where scales are required, its
-- block size is positive and its dtype given.
pub scale_validate_iff : (s : ScaleLayout) → (scale_validate s ≡ ok tt) ↔ IsScale s
unfolding scale_validate
scale_validate_iff s = (
  λ h. ground (
    arith,
    str_eq_iff s.granularity "",
    str_eq_iff s.scale_dtype "",
    str_eq_iff s.axis "",
    str_eq_iff s.layout "",
  ),
  λ v. ground (
    arith,
    str_eq_iff s.granularity "",
    str_eq_iff s.scale_dtype "",
    str_eq_iff s.axis "",
    str_eq_iff s.layout "",
    v.block_positive,
    v.scale_typed,
  ),
)

abbrev pub OnSome {ℓ} : {A : Type 0} → (A → Type ℓ) → Option A → Type ℓ
OnSome P none = Unit
OnSome P (some a) = P a

pub record IsTile (t : TileIr) : Type 0 where
  pub bytes_positive : pos 0 <ℤ t.bytes
  pub scale_nonneg : pos 0 ≤ℤ t.scale_bytes
  pub format_valid : OnSome IsFormat t.format
  pub scale_valid : OnSome IsScale t.scale
  pub backend_named : OnSome (λ b. b ≢ "") t.backend

if_some_iff :
    {A : Type 0} {P : A → Type 0} (f : A → Result (Unit {0}))
    → ((a : A) → (f a ≡ ok tt) ↔ P a)
    → (o : Option A) → (if_some f o ≡ ok tt) ↔ OnSome P o
if_some_iff f e none = (λ h. tt, λ h. refl)
if_some_iff f e (some a) = e a

not_blank_iff : (e : Error) (b : String) → (reject (is_blank b) e ≡ ok tt) ↔ (b ≢ "")
not_blank_iff e b = (λ h. ground (arith, str_eq_iff b ""), λ h. ground (arith, str_eq_iff b ""))

pub >>_iff :
    {P Q : Type 0} (m k : Result (Unit {0}))
    → ((m ≡ ok tt) ↔ P)
    → ((k ≡ ok tt) ↔ Q)
    → ((m >> k) ≡ ok tt) ↔ (P × Q)
>>_iff (ok tt) k p q = (λ h. (p.0 refl, q.0 h), λ h. q.1 h.1)
>>_iff (err e) k p q = (λ h. cc, λ h. absurd (cc (p.1 h.0)))

pub check_each_iff :
    {A : Type 0} {P : A → Type 0} (f : A → Result (Unit {0}))
    → ((a : A) → (f a ≡ ok tt) ↔ P a)
    → (xs : List A) → (check_each f xs ≡ ok tt) ↔ All P xs
unfolding check_each
check_each_iff f e [] = (λ h. tt, λ h. refl)
check_each_iff f e (x ∷ xs) = >>_iff (f x) (check_each f xs) (e x) (check_each_iff f e xs)

pub positive_iff : (n : ℤ) (e : Error) → (reject (leb_ℤ n (pos 0)) e ≡ ok tt) ↔ (pos 0 <ℤ n)
positive_iff n e = (λ h. ground arith, λ h. ground arith)

nonneg_iff : (n : ℤ) (e : Error) → (reject (ltb_ℤ n (pos 0)) e ≡ ok tt) ↔ (pos 0 ≤ℤ n)
nonneg_iff n e = (λ h. ground arith, λ h. ground arith)

-- A tile is accepted exactly if its size is positive, its scale size not negative, and its format,
-- scale layout and backend, where given, are valid.
pub tile_validate_iff : (t : TileIr) → (tile_validate t ≡ ok tt) ↔ IsTile t
unfolding tile_validate
tile_validate_iff t =
    let checks = >>_iff _ _ (positive_iff t.bytes (value_error "tile bytes must be positive")) (
      >>_iff _ _ (nonneg_iff t.scale_bytes (value_error "scale bytes must be non-negative")) (
        >>_iff _ _ (if_some_iff format_validate format_validate_iff t.format) (
          >>_iff _ _ (if_some_iff scale_validate scale_validate_iff t.scale) (
            if_some_iff _ (not_blank_iff (value_error "tile backend must not be empty"))
              t.backend)))) in
    (
      λ h.
          let (b, (s, (f, (sc, n)))) = checks.0 h in
          record {
            bytes_positive = b;
            scale_nonneg = s;
            format_valid = f;
            scale_valid = sc;
            backend_named = n;
          },
      λ v.
          checks.1 (
            v.bytes_positive,
            (v.scale_nonneg, (v.format_valid, (v.scale_valid, v.backend_named))),
          ),
    )

pub record IsRoute (r : RouteIr) : Type 0 where
  pub workload_given : r.workload ≢ ""
  pub layers_valid :
      All (λ (l : String × List ℤ). (int_of_text l.0 ≢ none) × (l.1 ≢ [])) r.hot_experts

pub not_empty_iff :
    {A : Type 0} (e : Error) (xs : List A) → (reject (is_empty xs) e ≡ ok tt) ↔ (xs ≢ [])
not_empty_iff e [] = (λ h. cc, λ h. absurd (h refl))
not_empty_iff e (x ∷ xs) = (λ h. λ p. cc, λ h. refl)

is_int_iff :
    (e : Error) (o : Option ℤ)
    → (◌≡◌ {A = Result (Unit {0})} (elim o [ none ↦ err e | some n ↦ ok tt ]) (ok tt)) ↔ (o ≢ none)
is_int_iff e none = (λ h. cc, λ h. absurd (h refl))
is_int_iff e (some n) = (λ h. λ p. cc, λ h. refl)

-- A route is accepted exactly if its workload is named, and every layer is a number with at least
-- one hot expert.
pub route_validate_iff : (r : RouteIr) → (route_validate r ≡ ok tt) ↔ IsRoute r
unfolding route_validate
route_validate_iff r =
    let checks = >>_iff _ _ (not_blank_iff (value_error "route workload is required") r.workload) (
      check_each_iff check_layer
        (λ l. >>_iff _ _ (is_int_iff _ (int_of_text l.0)) (not_empty_iff _ l.1)) r.hot_experts) in
    (
      λ h. record { workload_given = (checks.0 h).0; layers_valid = (checks.0 h).1 },
      λ v. checks.1 (v.workload_given, v.layers_valid),
    )
