-- ===== src/Mir/Enums.antt =====
-- The enumerations of tilepo/mir/schema.py, with their text values.
use tile_mem.Common.{
  str_eq, if◌then◌else◌, value_error, Result, ok, err, String, ◌≡◌, refl, Bool, Option, none, some,
}
use tile_mem.Values.{Value, str}

pub data TileDType : Type 0 where
  bf16 fp8 fp6 fp4 mxfp4 : TileDType

pub data RuntimeMode : Type 0 where
  shadow verify serve : RuntimeMode

pub data Backend : Type 0 where
  cuda tilelang kt_fallback : Backend

pub data DeploymentMode : Type 0 where
  speed memory balanced safe : DeploymentMode

abbrev pub dtype_text : TileDType → String
dtype_text bf16 = "bf16"
dtype_text fp8 = "fp8"
dtype_text fp6 = "fp6"
dtype_text fp4 = "fp4"
dtype_text mxfp4 = "mxfp4"

abbrev pub mode_text : RuntimeMode → String
mode_text shadow = "shadow"
mode_text verify = "verify"
mode_text serve = "serve"

abbrev pub backend_text : Backend → String
backend_text cuda = "cuda"
backend_text tilelang = "tilelang"
backend_text kt_fallback = "kt_fallback"

abbrev pub deployment_text : DeploymentMode → String
deployment_text speed = "speed"
deployment_text memory = "memory"
deployment_text balanced = "balanced"
deployment_text safe = "safe"

-- `TileDType(text)`; none where it raises `ValueError`
unfoldable pub dtype_of : String → Option TileDType
dtype_of s =
    if str_eq s "bf16"
    then some bf16
    else if str_eq s "fp8"
    then some fp8
    else if str_eq s "fp6"
    then some fp6
    else if str_eq s "fp4"
    then some fp4
    else if str_eq s "mxfp4"
    then some mxfp4
    else none

unfoldable pub mode_of : String → Option RuntimeMode
mode_of s =
    if str_eq s "shadow"
    then some shadow
    else if str_eq s "verify"
    then some verify
    else if str_eq s "serve"
    then some serve
    else none

unfoldable pub backend_of : String → Option Backend
backend_of s =
    if str_eq s "cuda"
    then some cuda
    else if str_eq s "tilelang"
    then some tilelang
    else if str_eq s "kt_fallback"
    then some kt_fallback
    else none

unfoldable pub deployment_of : String → Option DeploymentMode
deployment_of s =
    if str_eq s "speed"
    then some speed
    else if str_eq s "memory"
    then some memory
    else if str_eq s "balanced"
    then some balanced
    else if str_eq s "safe"
    then some safe
    else none

-- `Enum(value)` for a value of a document: `ValueError` unless it is the text of a member.
abbrev pub member_of {ℓ} :
    {A : Type 0} {F : Type ℓ} → (F → Option String) → (String → Option A) → F → Result A
member_of as_text of v = elim (as_text v) [
  | none ↦ err (value_error "not a valid member")
  | some s ↦ elim (of s) [ none ↦ err (value_error "not a valid member") | some a ↦ ok a ]
]

module _ {F : Type 0} where
  abbrev pub text_value : Value F → Option String
  text_value (str s) = some s
  text_value _ = none

  unfoldable pub to_dtype : Value F → Result TileDType
  to_dtype = member_of text_value dtype_of

  unfoldable pub to_mode : Value F → Result RuntimeMode
  to_mode = member_of text_value mode_of

  unfoldable pub to_backend : Value F → Result Backend
  to_backend = member_of text_value backend_of

  unfoldable pub to_deployment : Value F → Result DeploymentMode
  to_deployment = member_of text_value deployment_of

abbrev pub dtype_eq : TileDType → TileDType → Bool
dtype_eq a b = str_eq (dtype_text a) (dtype_text b)

abbrev pub backend_eq : Backend → Backend → Bool
backend_eq a b = str_eq (backend_text a) (backend_text b)

pub dtype_of-text : (d : TileDType) → dtype_of (dtype_text d) ≡ some d
unfolding dtype_of
dtype_of-text bf16 = refl
dtype_of-text fp8 = refl
dtype_of-text fp6 = refl
dtype_of-text fp4 = refl
dtype_of-text mxfp4 = refl

pub mode_of-text : (m : RuntimeMode) → mode_of (mode_text m) ≡ some m
unfolding mode_of
mode_of-text shadow = refl
mode_of-text verify = refl
mode_of-text serve = refl

pub backend_of-text : (b : Backend) → backend_of (backend_text b) ≡ some b
unfolding backend_of
backend_of-text cuda = refl
backend_of-text tilelang = refl
backend_of-text kt_fallback = refl

pub deployment_of-text : (m : DeploymentMode) → deployment_of (deployment_text m) ≡ some m
unfolding deployment_of
deployment_of-text speed = refl
deployment_of-text memory = refl
deployment_of-text balanced = refl
deployment_of-text safe = refl

module _ (F : Type 0) where
  pub to_dtype-text : (d : TileDType) → to_dtype {F = F} (str (dtype_text d)) ≡ ok d
  unfolding to_dtype dtype_of
  to_dtype-text bf16 = refl
  to_dtype-text fp8 = refl
  to_dtype-text fp6 = refl
  to_dtype-text fp4 = refl
  to_dtype-text mxfp4 = refl

  pub to_mode-text : (m : RuntimeMode) → to_mode {F = F} (str (mode_text m)) ≡ ok m
  unfolding to_mode mode_of
  to_mode-text shadow = refl
  to_mode-text verify = refl
  to_mode-text serve = refl

  pub to_backend-text : (b : Backend) → to_backend {F = F} (str (backend_text b)) ≡ ok b
  unfolding to_backend backend_of
  to_backend-text cuda = refl
  to_backend-text tilelang = refl
  to_backend-text kt_fallback = refl

  pub to_deployment-text :
      (m : DeploymentMode) → to_deployment {F = F} (str (deployment_text m)) ≡ ok m
  unfolding to_deployment deployment_of
  to_deployment-text speed = refl
  to_deployment-text memory = refl
  to_deployment-text balanced = refl
  to_deployment-text safe = refl
