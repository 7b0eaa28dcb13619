-- ===== src/Env.antt =====
-- tilepo/env.py: the settings that are read from the environment, a dictionary of texts. `str.lower`
-- and `math.isfinite` are parameters.
pub mod Limits
use tile_mem.Common.{
  ◌==◌, str_eq, if◌then◌else◌, ℤ, pos, pos_part, ltb_ℤ, Dict, lookup, insert, get_or, contains, ℕ,
  ◌%◌, String, Bool, false, ◌||◌, Option, none, some, [], ◌∷◌,
}
use tile_mem.Values.{Floats, int_of_text}

-- A setting that is there and not empty
unfoldable pub setting : String → Dict String → Option String
unfolding lookup
setting name environ = elim (lookup name environ) as (λ x. Option String) [
  | none ↦ none
  | some value ↦ if str_eq value "" then none else some value
]

unfoldable pub get_text : String → String → Dict String → String
unfolding get_or
get_text name default environ = get_or name default environ

unfoldable pub get_bool : (String → String) → String → Bool → Dict String → Bool
unfolding setting contains
get_bool lower name default environ = elim (setting name environ) as (λ x. Bool) [
  | none ↦ default
  | some value ↦ contains (lower value) ("1" ∷ "true" ∷ "yes" ∷ "on" ∷ [])
]

-- `max(min_value, parsed)`, where there is a minimum
abbrev pub at_least : Option ℤ → ℤ → ℤ
at_least none n = n
at_least (some least) n = if ltb_ℤ least n then n else least

abbrev pub int_or : ℤ → Option String → ℤ
unfolding int_of_text
int_or default none = default
int_or default (some value) = elim (int_of_text value) as (λ x. ℤ) [ none ↦ default | some n ↦ n ]

unfoldable pub get_int : String → ℤ → Option ℤ → Dict String → ℤ
unfolding setting int_or
get_int name default min_value environ = at_least min_value (int_or default (setting name environ))

module _ (fl : Floats) (is_finite : fl.Float → Bool) where
  open fl use {Float, lt, of_int, of_text}

  abbrev pub float_at_least : Option Float → Float → Float
  float_at_least none x = x
  float_at_least (some least) x = if lt least x then x else least

  abbrev pub float_or : Float → Option String → Float
  float_or default none = default
  float_or default (some value) = elim (of_text value) as (λ x. Float) [
    | none ↦ default
    | some x ↦ x
  ]

  unfoldable pub get_float : String → Float → Option Float → Dict String → Float
  unfolding setting
  get_float name default min_value environ =
      let parsed = float_or default (setting name environ) in
      float_at_least min_value (if is_finite parsed then parsed else default)

  unfoldable pub verify_atol : Dict String → Float
  unfolding get_float
  verify_atol environ =
      get_float "TILEPO_VERIFY_ATOL" (of_int (pos 0)) (some (of_int (pos 0))) environ

unfoldable pub mode : Dict String → String
unfolding get_text
mode environ = get_text "TILEPO_MODE" "shadow" environ

unfoldable pub backend_priority : Dict String → String
unfolding get_text
backend_priority environ = get_text "TILEPO_BACKEND" "" environ

unfoldable pub run_id : Dict String → String
unfolding get_text
run_id environ = get_text "TILEPO_RUN_ID" "" environ

unfoldable pub manifest_path : Dict String → String
unfolding get_text
manifest_path environ = get_text "TILEPO_MANIFEST" "" environ

-- A path, where the setting is not empty
unfoldable pub bootstrap_marker_path : Dict String → Option String
unfolding get_text
bootstrap_marker_path environ =
    let marker = get_text "TILEPO_BOOTSTRAP_MARKER" "" environ in
    if str_eq marker "" then none else some marker

unfoldable pub tilemem_repo_root : Dict String → Option String
unfolding get_text
tilemem_repo_root environ =
    let root = get_text "TILEMEM_REPO_ROOT" "" environ in if str_eq root "" then none else some root

unfoldable pub hook_backend_probe_limit : Dict String → ℤ
unfolding get_int
hook_backend_probe_limit environ =
    get_int "TILEPO_HOOK_BACKEND_PROBE_LIMIT" (pos 1) (some (pos 0)) environ

unfoldable pub hook_flush_interval : Dict String → ℤ
unfolding get_int
hook_flush_interval environ = get_int "TILEPO_HOOK_FLUSH_INTERVAL" (pos 128) (some (pos 1)) environ

unfoldable pub require_native_backend : (String → String) → Dict String → Bool
unfolding get_bool
require_native_backend lower environ = get_bool lower "TILEPO_REQUIRE_NATIVE_BACKEND" false environ

unfoldable pub serve_replace_enabled : (String → String) → Dict String → Bool
unfolding get_bool
serve_replace_enabled lower environ = get_bool lower "TILEPO_SERVE_REPLACE" false environ

unfoldable pub policy : String → Dict String → String
unfolding get_text
policy default environ = get_text "TILEPO_POLICY" default environ

unfoldable pub async_planning : String → Dict String → String
unfolding get_text
async_planning default environ = get_text "TILEPO_ASYNC_PLANNING" default environ

unfoldable pub mark_bootstrapped : String → Dict String → Dict String
unfolding insert
mark_bootstrapped checksum environ =
    insert "TILEPO_MANIFEST_CHECKSUM" checksum (insert "TILEPO_BOOTSTRAPPED" "1" environ)

-- `_should_flush` of tilepo/kt_patch/sglang_hook.py
-- (the count of invocations and the interval are not negative).
unfoldable pub should_flush : ℕ → Dict String → Bool
unfolding hook_flush_interval
should_flush invocations environ =
    invocations == 1 || (invocations % pos_part (hook_flush_interval environ)) == 0
