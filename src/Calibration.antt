-- ===== src/Calibration.antt =====
-- tilepo/backends/calibration.py: the calibration gate and its fallback types.
use tile_mem.Common.{
  str_eq, if◌then◌else◌, String, ◌≡◌, ◌↔◌, Bool, true, ◌&&◌, Option, none, some, arith,
}

pub record CalibrationResult (F : Type 0) : Type 0 where
  pub dtype : String
  pub max_abs_error : F
  pub max_rel_error : F
  pub pass_gate : Option Bool
  pub fallback_dtype : Option String

-- The type that a failing one falls back to.
unfoldable pub fallback_of : String → String
fallback_of dtype =
    if str_eq dtype "mxfp4" then "fp8" else if str_eq dtype "fp8" then "bf16" else "kt"

-- `at_most` is `<=` on floats.
unfoldable pub calibration_gate :
    {F : Type 0} → (F → F → Bool) → CalibrationResult F → F → F → CalibrationResult F
unfolding fallback_of
calibration_gate at_most r abs_threshold rel_threshold =
    let passed = at_most r.max_abs_error abs_threshold && at_most r.max_rel_error rel_threshold in
    record {
      dtype = r.dtype;
      max_abs_error = r.max_abs_error;
      max_rel_error = r.max_rel_error;
      pass_gate = some passed;
      fallback_dtype = if passed then none else some (fallback_of r.dtype);
    }

-- A result passes exactly if both errors are within their thresholds, and a fallback type is named
-- exactly if it does not pass.
pub calibration_gate_lem :
    {F : Type 0} (at_most : F → F → Bool) (r : CalibrationResult F) (a b : F)
    → ((calibration_gate at_most r a b).pass_gate ≡ some true
        ↔ ((at_most r.max_abs_error a ≡ true) × (at_most r.max_rel_error b ≡ true)))
      × ((calibration_gate at_most r a b).pass_gate ≡ some true
          ↔ ((calibration_gate at_most r a b).fallback_dtype ≡ none))
unfolding calibration_gate
calibration_gate_lem at_most r a b =
    ((λ h. ground arith, λ h. ground arith), (λ h. ground arith, λ h. ground arith))
