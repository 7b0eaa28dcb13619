-- ===== src/Finalizer.antt =====
-- tilepo/admission/finalizer.py: which files a deployment is finalized with, and under which names
-- they are copied. Reading, copying and hashing the files are left out.
pub mod Names
use Prim.Native.Char.{code}
use Prim.Native.String
use Prim.Native.String.{◌++◌ as append}
use tile_mem.Common.{
  ◌==◌, str_eq, if◌then◌else◌, pos, str_int, attribute_error, runtime_error, Result, err, ok, ◌>>=◌,
  text_leb, contains, sort_by, ℕ, zero, suc, ◌+◌, String, Bool, false, ◌||◌, Option, none, some,
  List, [], ◌∷◌, ◌++◌,
}
use tile_mem.Values.{Value, str, dict, Fields, end, field, find, index, get}

-- A path that is to be copied: its last part, and whether there is a file.
pub record InputFile : Type 0 where
  pub name : String
  pub exists : Bool

pub record FinalizerSummary (F : Type 0) : Type 0 where
  pub release_name : String
  pub gate : Fields F
  pub selected_plan : String
  pub fallback_plan : String
  pub admission_report : String
  pub files : List String
  pub checksum_file : String

-- What stands before and after the last dot of a name
unfoldable pub last_dot : String → Option (String × String)
last_dot String.[] = none
last_dot (String.◌∷◌ c s) = elim (last_dot s) as (λ x. Option (String × String)) [
  | some (before, after) ↦ some (String.◌∷◌ c before, after)
  | none ↦ if code c == 46 then some (String.[], s) else none
]

-- `path.stem` and `path.suffix`: a dot at either end parts nothing.
unfoldable pub stem_suffix : String → String × String
unfolding last_dot
stem_suffix name = elim (last_dot name) as (λ x. String × String) [
  | none ↦ (name, "")
  | some (before, after) ↦
      if str_eq before "" || str_eq after "" then (name, "") else (before, append "." after)
]

-- `f"{path.stem}_{index}{path.suffix}"`
unfoldable pub candidate : String × String → ℕ → String
candidate (stem, suffix) index = append stem (append "_" (append (str_int (pos index)) suffix))

-- The loop over the indices, of which `fuel` are left
unfoldable pub search_name : String × String → List String → ℕ → ℕ → Result String
unfolding contains candidate
search_name parts used zero index = err (runtime_error "too many duplicate input names")
search_name parts used (suc fuel) index =
    let rest = search_name parts used fuel (index + 1) in
    if contains (candidate parts index) used then rest else ok (candidate parts index)

-- `_unique_name`; the indices are those of `range(2, 1000)`.
unfoldable pub unique_name : String → List String → Result String
unfolding contains stem_suffix search_name
unique_name name used =
    if contains name used then search_name (stem_suffix name) used 998 2 else ok name

-- `_copy_inputs`: the names of the copies
unfoldable pub copy_inputs : List InputFile → List String → Result (List String)
unfolding unique_name
copy_inputs [] used = ok []
copy_inputs (file ∷ files) used =
    if file.exists
    then (do
      name ← unique_name file.name used
      names ← copy_inputs files (name ∷ used)
      ok (name ∷ names))
    else err (runtime_error "missing required file")

module _ {F : Type 0} where
  abbrev unknown_gate : Value F
  unknown_gate = dict (field "status" (str "UNKNOWN") end)

  abbrev passes : Option (Value F) → Bool
  passes (some (str s)) = str_eq s "PASS"
  passes _ = false

  -- The gate of a plan, which has to be passed
  unfoldable pub passed_gate : Fields F → Result (Fields F)
  unfolding get find
  passed_gate plan = elim (get "gate" unknown_gate plan) as (λ x. Result (Fields F)) [
    | dict gate ↦
        if passes (find "status" gate)
        then ok gate
        else err (runtime_error "cannot finalize non-PASS selected plan")
    | _ ↦ err (attribute_error "gate has no attribute get")
  ]

  -- `finalize_tilepo_deployment`, for the plan that was read and the files named
  unfoldable pub finalize_tilepo_deployment :
      Fields F
      → InputFile
      → InputFile
      → InputFile
      → List InputFile
      → String
      → Result (FinalizerSummary F)
  unfolding passed_gate copy_inputs sort_by
  finalize_tilepo_deployment plan selected fallback report others release_name = do
    gate ← passed_gate plan
    copied ← copy_inputs (selected ∷ fallback ∷ report ∷ others) []
    ok (record {
      release_name = release_name;
      gate = gate;
      selected_plan = selected.name;
      fallback_plan = fallback.name;
      admission_report = report.name;
      files = sort_by text_leb (copied ++ ("README.md" ∷ "CLAIM_CHECKLIST.md" ∷ []));
      checksum_file = "raw_files.sha256";
    })
