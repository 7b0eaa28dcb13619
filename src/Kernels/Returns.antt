-- ===== src/Kernels/Returns.antt =====
-- What comes of a routed computation whose experts have matrices that fit.
use tile_mem.Common.{
  ◌==◌, ==_iff, Bool-cases, length, is_empty, All, str_eq, contains, ℤ, Result, err, ok, ◌>>=◌,
  traverse, ℕ, ◌+◌, ◌/◌, ◌%◌, String, ◌≡◌, refl, sym, ap, subst, ◌⊎◌, Error, Result-cases, ◌∙◌, inl,
  inr, true, false, List, [], ◌∷◌, map, arith, range, str_eq_iff,
}
use tile_mem.Kernels.{
  Arithmetic, Vector, Matrix, width_of, has_width, row_times, quantize_value, quantize_matrix,
  vec_matmul, activate, accumulate, entry, expert_weights, expert_output, add_expert, add_experts,
  zip, routed_moe,
}
use tile_mem.Kernels.Shapes.{length-map, length-row_times, length-traverse, length-accumulate}
use tile_mem.Kernels.Routed.{Fits, IsRouted, quantize_matrix-shape, length-activate}

-- The types that `quantize_value` knows
abbrev pub known_dtypes : List String
known_dtypes = "bf16" ∷ "fp8" ∷ "mxfp4" ∷ []

module _ (ar : Arithmetic) where
  open ar use {Float, nought, mul, rounded, silu}

  -- What an operation on floats raises
  unfoldable pub IsFloatError : Error → Type 0
  IsFloatError e =
      ((k : ℕ) × (x : Float) × (rounded k x ≡ err e)) ⊎ ((x : Float) × (silu x ≡ err e))

  -- A value with the property, or what an operation on floats raises
  unfoldable pub Yields : {A : Type 0} → (A → Type 0) → Result A → Type 0
  unfolding IsFloatError
  Yields {A = A} P m = ((a : A) × (m ≡ ok a) × P a) ⊎ ((e : Error) × (m ≡ err e) × IsFloatError e)

  Yields-ok : {A : Type 0} (P : A → Type 0) (a : A) → P a → Yields P (ok a)
  unfolding Yields
  Yields-ok P a p = inl (a, refl, p)

  Yields->>= :
      {A B : Type 0} (P : A → Type 0) (Q : B → Type 0) (m : Result A) (f : A → Result B)
      → Yields P m
      → ((a : A) → m ≡ ok a → P a → Yields Q (f a))
      → Yields Q (m >>= f)
  unfolding Yields
  Yields->>= P Q m f (inl (a, e, p)) h = rw (e) (h a e p)
  Yields->>= P Q m f (inr (e, raised, float)) h = inr (e, rw (raised) refl, float)

  -- Any value
  abbrev Any : {A : Type 0} → A → Type 0
  Any a = Unit {0}

  traverse-Yields :
      {A B : Type 0} (f : A → Result B)
      → ((x : A) → Yields (Any {A = B}) (f x))
      → (xs : List A) → Yields (Any {A = List B}) (traverse f xs)
  unfolding traverse
  traverse-Yields f h [] = Yields-ok _ [] tt
  traverse-Yields f h (x ∷ xs) = Yields->>= _ _ (f x) _ (h x) (λ y e u.
      Yields->>= _ _ (traverse f xs) _ (traverse-Yields f h xs)
        (λ ys e' u'. Yields-ok _ (y ∷ ys) tt))

  rounded-Yields : (k : ℕ) (x : Float) → Yields (Any {A = Float}) (rounded k x)
  unfolding Yields IsFloatError
  rounded-Yields k x = elim (Result-cases (rounded k x)) [
    | inl (y, e) ↦ inl (y, e, tt)
    | inr (e, raised) ↦ inr (e, raised, inl (k, x, raised))
  ]

  silu-Yields : (x : Float) → Yields (Any {A = Float}) (silu x)
  unfolding Yields IsFloatError
  silu-Yields x = elim (Result-cases (silu x)) [
    | inl (y, e) ↦ inl (y, e, tt)
    | inr (e, raised) ↦ inr (e, raised, inr (x, raised))
  ]

  vec_matmul-ok :
      (v : Vector ar) (m : Matrix ar)
      → length v ≡ length m
      → has_width ar (width_of ar m) m ≡ true
      → vec_matmul ar v m ≡ ok (row_times ar v m (width_of ar m))
  unfolding vec_matmul
  vec_matmul-ok v m long wide =
      let same : (length v == length m) ≡ true = (==_iff _ _).1 long in rw (same, wide) refl

  activate-Yields : (fused : Vector ar) (n : ℕ) → Yields (Any {A = Vector ar}) (activate ar fused n)
  unfolding activate
  activate-Yields fused n =
      traverse-Yields _
        (λ i.
          Yields->>= _ _ (silu (entry ar i fused)) _ (silu-Yields (entry ar i fused))
            (λ y e u. Yields-ok _ (mul y (entry ar (i + n) fused)) tt))
        (range n)

  module _ (dtype : String) (known : contains dtype known_dtypes ≡ true) where
    quantize_value-Yields : (x : Float) → Yields (Any {A = Float}) (quantize_value ar dtype x)
    unfolding quantize_value contains
    quantize_value-Yields x = elim (Bool-cases (str_eq dtype "bf16")) [
      | inl b ↦ rw (b) (Yields-ok _ x tt)
      | inr b ↦ elim (Bool-cases (str_eq dtype "fp8")) [
        | inl f ↦ rw (b, f) (rounded-Yields 16 x)
        | inr f ↦
            let m : str_eq dtype "mxfp4" ≡ true = ground (
              arith,
              str_eq_iff dtype "bf16",
              str_eq_iff "bf16" dtype,
              str_eq_iff dtype "fp8",
              str_eq_iff "fp8" dtype,
              str_eq_iff dtype "mxfp4",
              str_eq_iff "mxfp4" dtype,
            ) in
            rw (b, f, m) (rounded-Yields 4 x)
      ]
    ]

    quantize_matrix-Yields :
        (m : Matrix ar) → Yields (Any {A = Matrix ar}) (quantize_matrix ar dtype m)
    unfolding quantize_matrix
    quantize_matrix-Yields m =
        traverse-Yields (traverse (quantize_value ar dtype))
          (traverse-Yields (quantize_value ar dtype) quantize_value-Yields) m

    -- As many values as there are
    HasLength : ℕ → Vector ar → Type 0
    HasLength n out = length out ≡ n

    expert_output-Yields :
        (hidden : Vector ar) (g d : Matrix ar)
        → Fits ar (length hidden) g d
        → Yields (HasLength (length hidden)) (expert_output ar dtype hidden g d)
    unfolding expert_output Fits HasLength
    expert_output-Yields hidden g d (g₁, g₂, g₃, d₁, d₂, d₃) =
        Yields->>= _ _ (quantize_matrix ar dtype g) _ (quantize_matrix-Yields g) (λ g' e₁ u₁.
          Yields->>= _ _ (quantize_matrix ar dtype d) _ (quantize_matrix-Yields d) (λ d' e₂ u₂.
            let (glong, gwide, gwidths) = quantize_matrix-shape ar dtype g g' e₁ in
            let (dlong, dwide, dwidths) = quantize_matrix-shape ar dtype d d' e₂ in
            let fused = row_times ar hidden g' (width_of ar g') in
            let columns : length fused ≡ width_of ar g = length-row_times ar hidden g' _ ∙ gwide in
            let made =
              vec_matmul-ok hidden g' (sym g₁ ∙ sym glong)
                (ap (λ w. has_width ar w g') gwide ∙ gwidths (width_of ar g) ∙ g₂) in
            let even : ((length fused % 2) == 0) ≡ true =
              (==_iff _ _).1 (ap (λ k. k % 2) columns ∙ g₃) in
            rw (made, even)
              (Yields->>= _ _ (activate ar fused (length fused / 2)) _
                (activate-Yields fused (length fused / 2))
                (λ activated e₄ u₄.
                  let out =
                    vec_matmul-ok activated d'
                      (length-activate ar fused activated _ e₄
                        ∙ ap (λ k. k / 2) columns
                        ∙ sym d₁
                        ∙ sym dlong)
                      (ap (λ w. has_width ar w d') dwide ∙ dwidths (width_of ar d) ∙ d₂) in
                  rw (out) (
                    Yields-ok _ (row_times ar activated d' (width_of ar d'))
                      (length-row_times ar activated d' _ ∙ dwide ∙ d₃))))))

    add_expert-Yields :
        (gate_up down : List (Matrix ar)) (hidden : Vector ar) (expert : ℤ) (score : Float)
        (output : Vector ar)
        → length output ≡ length hidden
        → IsRouted ar (length hidden) gate_up down expert
        → Yields
            (HasLength (length hidden))
            (add_expert ar dtype gate_up down hidden (expert, score) output)
    unfolding add_expert IsRouted expert_weights HasLength
    add_expert-Yields gate_up down hidden expert score output fit (g, d, low, there, also, fits) =
        rw (low, there, also)
          (Yields->>= _ _ (expert_output ar dtype hidden g d) _
            (expert_output-Yields hidden g d fits)
            (λ values e long.
              let same : (length values == length output) ≡ true =
                (==_iff _ _).1 (long ∙ sym fit) in
              rw (same) (
                Yields-ok _ (accumulate ar score output values)
                  (length-accumulate ar score output values ∙ fit))))

    add_experts-Yields :
        (gate_up down : List (Matrix ar)) (hidden : Vector ar) (experts : List ℤ)
        (scores output : Vector ar)
        → length output ≡ length hidden
        → All (IsRouted ar (length hidden) gate_up down) experts
        → Yields
            (HasLength (length hidden))
            (add_experts ar dtype gate_up down hidden (zip ar experts scores) output)
    unfolding add_experts HasLength
    add_experts-Yields gate_up down hidden [] scores output fit h = Yields-ok _ output fit
    add_experts-Yields gate_up down hidden (x ∷ xs) [] output fit h = Yields-ok _ output fit
    add_experts-Yields gate_up down hidden (x ∷ xs) (y ∷ ys) output fit (routed, h) =
        Yields->>= _ _ (add_expert ar dtype gate_up down hidden (x, y) output) _
          (add_expert-Yields gate_up down hidden x y output fit routed)
          (λ next e fit'. add_experts-Yields gate_up down hidden xs ys next fit' h)

  -- For one of the three types, as many scores as experts, weights of both kinds, and experts that are in
  -- both lists with matrices that fit: a routed computation over a hidden vector that is not empty
  -- returns as many values as the vector has, or raises what rounding or the activation of a float
  -- raises. None of its own checks fails.
  pub routed_moe-Yields :
      (hidden : Vector ar) (gate_up down : List (Matrix ar)) (experts : List ℤ) (scores : Vector ar)
      (dtype : String)
      → contains dtype known_dtypes ≡ true
      → is_empty hidden ≡ false
      → is_empty gate_up ≡ false
      → is_empty down ≡ false
      → length experts ≡ length scores
      → All (IsRouted ar (length hidden) gate_up down) experts
      → Yields
          (λ (out : Vector ar). length out ≡ length hidden)
          (routed_moe ar hidden gate_up down experts scores dtype)
  unfolding routed_moe HasLength
  routed_moe-Yields hidden gate_up down experts scores dtype known full some_gate some_down same h =
      let counts : (length experts == length scores) ≡ true = (==_iff _ _).1 same in
      rw (counts, full, some_gate, some_down)
        (Yields->>= _ _ (traverse (quantize_value ar dtype) hidden) _
          (traverse-Yields (quantize_value ar dtype) (quantize_value-Yields dtype known) hidden)
          (λ values e u.
            let kept = length-traverse ar (quantize_value ar dtype) hidden values e in
            subst
              (λ n.
                Yields (λ (out : Vector ar). length out ≡ n)
                  (add_experts ar dtype gate_up down values (zip ar experts scores)
                    (map (λ x. nought) values)))
              kept
              (add_experts-Yields dtype known gate_up down values experts scores
                (map (λ x. nought) values) (length-map ar _ values) (rw (kept) h))))
