-- ===== src/KtPatch.antt =====
-- tilepo/kt_patch/patch.py: the patch that stands between a server and the runtime. The server's own
-- call is a parameter, and so are the float operations of `_max_abs_error`.
pub mod Served
use tile_mem.Common.{
  ◌==◌, str_eq, if◌then◌else◌, length, pos, attribute_error, Result, err, ok, ◌>>=◌, ℕ, ◌+◌, String,
  Bool, true, false, not, ◌||◌, Option, none, some, List, [], ◌∷◌, ◌++◌,
}
use tile_mem.Values.{
  Value, null, bool, int, float, str, list, dict, Items, nil, cons, Fields, Floats, fields_of, find,
  get,
}
use tile_mem.Mir.Enums.{RuntimeMode, shadow, verify, serve}
use tile_mem.Runtime.Engine.{Request, Response, fell_back, launched, Runtime, execute}

-- What `_max_abs_error` uses of floats: infinity, `abs(x - y)` and `x <= y`.
pub record ErrorFloats (F : Type 0) : Type 0 where
  pub infinity : F
  pub distance : F → F → F
  pub le : F → F → Bool

pub record PatchMetrics (F : Type 0) : Type 0 where
  pub shadow_evaluations : ℕ
  pub verify_pass_count : ℕ
  pub verify_fail_count : ℕ
  pub max_abs_error : F
  pub serve_count : ℕ
  pub kt_fallback_count : ℕ

-- `self`, with the runtime that it calls
pub record Patch (F : Type 0) : Type 0 where
  pub runtime : Runtime (Value F)
  pub mode : RuntimeMode
  pub verify_abs_threshold : F
  pub metrics : PatchMetrics F

abbrev or_null : {F : Type 0} → Option (Value F) → Value F
or_null none = null
or_null (some v) = v

-- What a runtime answers, as the dictionary that it is
unfoldable pub response_fields : {F : Type 0} → Response (Value F) → Result (Fields F)
response_fields (fell_back output reason) = ok (
    fields_of
      (("output", or_null output) ∷ ("source", str "kt_fallback") ∷ ("reason", str reason) ∷ []))
response_fields (launched (dict fs)) = ok fs
response_fields (launched v) = err (attribute_error "output has no attribute get")

-- `request` with `kt_output`
unfoldable pub with_output : {F : Type 0} → Request (Value F) → Value F → Request (Value F)
with_output q null = record q { kt_output = none }
with_output q v = record q { kt_output = some v }

abbrev pub is_text : {F : Type 0} → String → Option (Value F) → Bool
is_text s (some (str t)) = str_eq t s
is_text s _ = false

module _ (fl : Floats) (ops : ErrorFloats fl.Float) where
  open fl use {Float, lt, of_int}

  -- `_flatten`; a Boolean is an integer.
  unfoldable mutual
    pub flatten : Value Float → List Float
    flatten (bool true) = of_int (pos 1) ∷ []
    flatten (bool false) = of_int (pos 0) ∷ []
    flatten (int n) = of_int n ∷ []
    flatten (float x) = x ∷ []
    flatten (list vs) = flatten_items vs
    flatten _ = []

    pub flatten_items : Items Float → List Float
    flatten_items nil = []
    flatten_items (cons v vs) = flatten v ++ flatten_items vs

  -- Python's `max(x, y)`
  abbrev pub larger : Float → Float → Float
  larger x y = if lt x y then y else x

  -- `max(abs(x - y) for x, y in zip(xs, ys))`, from the largest so far
  unfoldable pub max_distance : Float → List Float → List Float → Float
  max_distance most [] ys = most
  max_distance most (x ∷ xs) [] = most
  max_distance most (x ∷ xs) (y ∷ ys) = max_distance (larger most (ops.distance x y)) xs ys

  abbrev pub distance_of : List Float → List Float → Float
  unfolding max_distance
  distance_of [] ys = of_int (pos 0)
  distance_of (x ∷ xs) [] = of_int (pos 0)
  distance_of (x ∷ xs) (y ∷ ys) = max_distance (ops.distance x y) xs ys

  abbrev pub is_none : Value Float → Bool
  is_none null = true
  is_none _ = false

  -- `_max_abs_error`; an output that is missing is null.
  unfoldable pub max_abs_error_of : Value Float → Value Float → Float
  unfolding flatten flatten_items
  max_abs_error_of a b =
      if is_none a || is_none b
      then ops.infinity
      else if not (length (flatten a) == length (flatten b))
      then ops.infinity
      else distance_of (flatten a) (flatten b)

  -- The counts of one verified call
  unfoldable pub count_error : Float → Float → PatchMetrics Float → PatchMetrics Float
  count_error threshold error m =
      let most = larger m.max_abs_error error in
      if ops.le error threshold
      then record m { max_abs_error = most; verify_pass_count = m.verify_pass_count + 1 }
      else record m { max_abs_error = most; verify_fail_count = m.verify_fail_count + 1 }

  abbrev pub Answer : Type 0
  Answer = Result (Fields Float) × Patch Float

  -- What follows the server's answer in shadow mode
  unfoldable pub after_shadow : Result (Fields Float) → Patch Float → Answer
  after_shadow (err e) p = (err e, p)
  after_shadow (ok out) p = (
    ok out,
    record p {
      metrics = record (p.metrics) { shadow_evaluations = p.metrics.shadow_evaluations + 1 };
    },
  )

  -- What follows the runtime's answer in verify mode
  unfoldable pub compare_outputs : Fields Float → Result (Fields Float) → Patch Float → Answer
  unfolding get max_abs_error_of count_error
  compare_outputs out (err e) p = (err e, p)
  compare_outputs out (ok answer) p =
      let error = max_abs_error_of (get "output" null out) (get "output" null answer) in
      (ok out, record p { metrics = count_error p.verify_abs_threshold error p.metrics })

  -- What follows the server's answer in verify mode
  unfoldable pub after_verify : Request (Value Float) → Result (Fields Float) → Patch Float → Answer
  unfolding execute get with_output response_fields compare_outputs
  after_verify q (err e) p = (err e, p)
  after_verify q (ok out) p =
      let (response, rt) = execute (with_output q (get "output" null out)) p.runtime in
      compare_outputs out (response >>= response_fields) (record p { runtime = rt })

  module _ (kt_call : Request (Value Float) → Result (Fields Float)) where
    -- What follows the runtime's answer in serve mode
    unfoldable pub serve_answer :
        Request (Value Float) → Result (Fields Float) → Patch Float → Answer
    unfolding find
    serve_answer q (err e) p = (err e, p)
    serve_answer q (ok answer) p =
        if is_text "kt_fallback" (find "source" answer)
        then (
          kt_call q,
          record p {
            metrics = record (p.metrics) { kt_fallback_count = p.metrics.kt_fallback_count + 1 };
          },
        )
        else (
          ok answer,
          record p { metrics = record (p.metrics) { serve_count = p.metrics.serve_count + 1 } },
        )

    unfoldable pub run_serve : Request (Value Float) → Patch Float → Answer
    unfolding execute response_fields serve_answer
    run_serve q p =
        let (response, rt) = execute q p.runtime in
        serve_answer q (response >>= response_fields) (record p { runtime = rt })

    unfoldable pub run_in : RuntimeMode → Request (Value Float) → Patch Float → Answer
    unfolding after_shadow after_verify run_serve
    run_in shadow q p = after_shadow (kt_call q) p
    run_in verify q p = after_verify q (kt_call q) p
    run_in serve q p = run_serve q p

    -- `run`
    unfoldable pub run : Request (Value Float) → Patch Float → Answer
    unfolding run_in
    run q p = run_in p.mode q p

-- `__init__`
unfoldable pub new_patch :
    (fl : Floats) → Runtime (Value fl.Float) → RuntimeMode → fl.Float → Patch fl.Float
new_patch fl rt mode threshold = record {
  runtime = rt;
  mode = mode;
  verify_abs_threshold = threshold;
  metrics = record {
    shadow_evaluations = 0;
    verify_pass_count = 0;
    verify_fail_count = 0;
    max_abs_error = fl.of_int (pos 0);
    serve_count = 0;
    kt_fallback_count = 0;
  };
}
