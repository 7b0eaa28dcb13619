-- ===== src/KtPatch/Served.antt =====
-- What the patch serves, and what it counts.
use tile_mem.Common.{
  Bool-cases, Result, err, ok, ◌>>=◌, ok-injective, ℕ, suc, ◌+◌, ◌≡◌, subst, ◌⊎◌, inl, inr, false,
  arith,
}
use tile_mem.Values.{Value, Fields, Floats, find}
use tile_mem.Mir.Enums.{RuntimeMode, shadow, verify, serve}
use tile_mem.Runtime.Engine.{Request, execute}
use tile_mem.KtPatch.{
  ErrorFloats, PatchMetrics, Patch, response_fields, is_text, count_error, Answer, after_shadow,
  compare_outputs, after_verify, serve_answer, run_serve, run_in, run,
}

module _ (fl : Floats) (ops : ErrorFloats fl.Float)
    (kt_call : Request (Value fl.Float) → Result (Fields fl.Float)) where
  open fl use {Float}

  -- All calls that are counted
  unfoldable pub handled : PatchMetrics Float → ℕ
  handled m =
      m.shadow_evaluations + m.verify_pass_count + m.verify_fail_count + m.serve_count
      + m.kt_fallback_count

  -- What is served in a mode
  abbrev pub Serves : RuntimeMode → Request (Value Float) → Patch Float → Fields Float → Type 0
  Serves shadow q p out = kt_call q ≡ ok out
  Serves verify q p out = kt_call q ≡ ok out
  Serves serve q p out =
      (kt_call q ≡ ok out)
      ⊎ (((execute q p.runtime).0 >>= response_fields ≡ ok out)
          × (is_text "kt_fallback" (find "source" out) ≡ false))

  -- If something is served, it is as it should be, and one call more is counted than before.
  abbrev IsSound : PatchMetrics Float → (Fields Float → Type 0) → Answer fl ops → Type 0
  IsSound m S a =
      (out : Fields Float) → a.0 ≡ ok out → S out × (handled a.1.metrics ≡ suc (handled m))

  after_shadow-IsSound :
      (r : Result (Fields Float)) (p : Patch Float)
      → IsSound p.metrics (λ out. r ≡ ok out) (after_shadow fl ops r p)
  unfolding after_shadow handled
  after_shadow-IsSound (err e) p out h = absurd (cc)
  after_shadow-IsSound (ok o) p out h = (h, omega arith)

  count_error-handled :
      (threshold error : Float) (m : PatchMetrics Float)
      → handled (count_error fl ops threshold error m) ≡ suc (handled m)
  unfolding count_error handled
  count_error-handled threshold error m = elim (Bool-cases (ops.le error threshold)) [
    | inl e ↦ rw (e) (omega arith)
    | inr e ↦ rw (e) (omega arith)
  ]

  compare_outputs-IsSound :
      (o : Fields Float) (r : Result (Fields Float)) (p : Patch Float)
      → IsSound p.metrics (λ out. ok o ≡ ok out) (compare_outputs fl ops o r p)
  unfolding compare_outputs
  compare_outputs-IsSound o (err e) p out h = absurd (cc)
  compare_outputs-IsSound o (ok answer) p out h =
      (h, count_error-handled p.verify_abs_threshold _ p.metrics)

  after_verify-IsSound :
      (q : Request (Value Float)) (r : Result (Fields Float)) (p : Patch Float)
      → IsSound p.metrics (λ out. r ≡ ok out) (after_verify fl ops q r p)
  unfolding after_verify
  after_verify-IsSound q (err e) p out h = absurd (cc)
  after_verify-IsSound q (ok o) p out h =
      compare_outputs-IsSound o _ (record p { runtime = _ }) out h

  serve_answer-IsSound :
      (q : Request (Value Float)) (r : Result (Fields Float)) (p : Patch Float)
      → IsSound p.metrics
          (λ out.
            (kt_call q ≡ ok out)
            ⊎ ((r ≡ ok out) × (is_text "kt_fallback" (find "source" out) ≡ false)))
          (serve_answer fl ops kt_call q r p)
  unfolding serve_answer handled
  serve_answer-IsSound q (err e) p out h = absurd (cc)
  serve_answer-IsSound q (ok answer) p out h =
      elim (Bool-cases (is_text "kt_fallback" (find "source" answer))) [
        | inl e ↦ let served : kt_call q ≡ ok out = rw (e) at h in rw (e) (inl served, omega arith)
        | inr e ↦
            let same : ok answer ≡ ok out = rw (e) at h in
            let own =
              subst (λ fs. is_text "kt_fallback" (find "source" fs) ≡ false) (ok-injective same)
                e in
            rw (e) (inr (same, own), omega arith)
      ]

  served :
      (mode : RuntimeMode) (q : Request (Value Float)) (p : Patch Float)
      → IsSound p.metrics (Serves mode q p) (run_in fl ops kt_call mode q p)
  unfolding run_in run_serve
  served shadow q p = after_shadow-IsSound (kt_call q) p
  served verify q p = after_verify-IsSound q (kt_call q) p
  served serve q p =
      serve_answer-IsSound q ((execute q p.runtime).0 >>= response_fields)
        (record p { runtime = _ })

  -- `run` serves, in shadow and in verify mode, nothing but what the server's own call returns; in
  -- serve mode it serves that, or an answer of the runtime whose source is not "kt_fallback". Each
  -- call that returns something is counted exactly once.
  pub run-Serves :
      (q : Request (Value Float)) (p : Patch Float) (out : Fields Float)
      → (run fl ops kt_call q p).0 ≡ ok out
      → Serves p.mode q p out
        × (handled (run fl ops kt_call q p).1.metrics ≡ suc (handled p.metrics))
  unfolding run
  run-Serves q p out h = served p.mode q p out h
