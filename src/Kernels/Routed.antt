-- ===== src/Kernels/Routed.antt =====
-- What the weights of the routed experts look like when a routed computation returns something.
use tile_mem.Common.{
  ◌==◌, ==_iff, Bool-cases, length, get_elem?, is_empty, All, ℤ, pos, pos_part, ltb_ℤ, ok, traverse,
  >>=-eq-ok, reject-not-eq-ok, ok-injective, ℕ, suc, ◌/◌, ◌%◌, String, ◌≡◌, refl, sym, ap, ◌∙◌,
  subst, inl, inr, true, false, ◌||◌, some, List, [], ◌∷◌, arith, range, range_from,
}
use tile_mem.Kernels.{
  Arithmetic, Vector, Matrix, width_of, has_width, quantize_value, quantize_matrix, vec_matmul,
  activate, expert_weights, expert_output, add_expert, add_experts, zip, routed_moe,
}
use tile_mem.Kernels.Shapes.{
  length-map, length-range_from, length-row_times, length-traverse, raised, add_expert-length,
  routed_moe-length,
}

module _ (ar : Arithmetic) where
  open ar use {Float, nought}

  -- The two matrices of an expert fit a hidden vector of this length: the first has a row for each
  -- value and an even number of columns, the second a row for each pair of columns of the first and a
  -- column for each value, and neither is ragged.
  unfoldable pub Fits : ℕ → Matrix ar → Matrix ar → Type 0
  unfolding has_width
  Fits n g d =
      (length g ≡ n)
      × (has_width ar (width_of ar g) g ≡ true)
      × (width_of ar g % 2 ≡ 0)
      × (length d ≡ width_of ar g / 2)
      × (has_width ar (width_of ar d) d ≡ true)
      × (width_of ar d ≡ n)

  -- The expert is in both lists, with matrices that fit.
  unfoldable pub IsRouted : ℕ → List (Matrix ar) → List (Matrix ar) → ℤ → Type 0
  unfolding Fits
  IsRouted n gate_up down expert =
      (g d : Matrix ar) × (ltb_ℤ expert (pos 0) ≡ false)
      × (get_elem? gate_up (pos_part expert) ≡ some g)
      × (get_elem? down (pos_part expert) ≡ some d)
      × Fits n g d

  pub quantize_matrix-shape :
      (dtype : String) (m q : Matrix ar)
      → quantize_matrix ar dtype m ≡ ok q
      → (length q ≡ length m)
        × (width_of ar q ≡ width_of ar m)
        × ((w : ℕ) → has_width ar w q ≡ has_width ar w m)
  unfolding quantize_matrix traverse has_width
  quantize_matrix-shape dtype [] q h =
      let same : [] ≡ q = ok-injective h in rw (sym same) (refl, refl, λ w. refl)
  quantize_matrix-shape dtype (row ∷ rows) q h =
      let (r, e₁, h₁) = >>=-eq-ok (traverse (quantize_value ar dtype) row) _ h in
      let (rs, e₂, h₂) = >>=-eq-ok (traverse (traverse (quantize_value ar dtype)) rows) _ h₁ in
      let same : r ∷ rs ≡ q = ok-injective h₂ in
      let wide = length-traverse ar (quantize_value ar dtype) row r e₁ in
      let (long, _, widths) = quantize_matrix-shape dtype rows rs e₂ in
      rw (sym same) (ap suc long, wide, λ w. rw (wide, widths w) refl)

  vec_matmul-shape :
      (v : Vector ar) (m : Matrix ar) (out : Vector ar)
      → vec_matmul ar v m ≡ ok out
      → (length v ≡ length m)
        × (has_width ar (width_of ar m) m ≡ true)
        × (length out ≡ width_of ar m)
  unfolding vec_matmul
  vec_matmul-shape v m out h =
      let (e₁, h₁) = reject-not-eq-ok (length v == length m) _ _ h in
      let (e₂, same) = reject-not-eq-ok (has_width ar (width_of ar m) m) _ _ h₁ in
      (
        (==_iff _ _).0 e₁,
        e₂,
        ap (λ (x : Vector ar). length x) (sym (ok-injective same))
            ∙ length-row_times ar v m (width_of ar m),
      )

  pub length-activate :
      (fused out : Vector ar) (n : ℕ) → activate ar fused n ≡ ok out → length out ≡ n
  unfolding activate range
  length-activate fused out n h =
      length-traverse ar _ (range_from 0 n) out h ∙ length-range_from ar 0 n

  expert_output-Fits :
      (dtype : String) (hidden out : Vector ar) (g d : Matrix ar)
      → expert_output ar dtype hidden g d ≡ ok out
      → length out ≡ length hidden
      → Fits (length hidden) g d
  unfolding expert_output Fits
  expert_output-Fits dtype hidden out g d h fit =
      let (g', e₁, h₁) = >>=-eq-ok (quantize_matrix ar dtype g) _ h in
      let (d', e₂, h₂) = >>=-eq-ok (quantize_matrix ar dtype d) _ h₁ in
      let (fused, e₃, h₃) = >>=-eq-ok (vec_matmul ar hidden g') _ h₂ in
      let (e₄, h₄) = reject-not-eq-ok ((length fused % 2) == 0) _ _ h₃ in
      let (glong, gwide, gwidths) = quantize_matrix-shape dtype g g' e₁ in
      let (dlong, dwide, dwidths) = quantize_matrix-shape dtype d d' e₂ in
      let (g₁, g₂, g₃) = vec_matmul-shape hidden g' fused e₃ in
      let (activated, e₅, h₅) = >>=-eq-ok (activate ar fused (length fused / 2)) _ h₄ in
      let (d₁, d₂, d₃) = vec_matmul-shape activated d' out h₅ in
      let columns : length fused ≡ width_of ar g = g₃ ∙ gwide in
      (
        sym glong ∙ sym g₁,
        sym (gwidths (width_of ar g)) ∙ ap (λ w. has_width ar w g') (sym gwide) ∙ g₂,
        ap (λ k. k % 2) (sym columns) ∙ (==_iff _ _).0 e₄,
        sym dlong ∙ sym d₁ ∙ length-activate fused activated _ e₅ ∙ ap (λ k. k / 2) columns,
        sym (dwidths (width_of ar d)) ∙ ap (λ w. has_width ar w d') (sym dwide) ∙ d₂,
        sym dwide ∙ sym d₃ ∙ fit,
      )

  expert_weights-found :
      (gate_up down : List (Matrix ar)) (expert : ℤ) (g d : Matrix ar)
      → expert_weights ar gate_up down expert ≡ ok (g, d)
      → (ltb_ℤ expert (pos 0) ≡ false)
        × (get_elem? gate_up (pos_part expert) ≡ some g)
        × (get_elem? down (pos_part expert) ≡ some d)
  unfolding expert_weights
  expert_weights-found gate_up down expert g d h = (ground arith, ground arith, ground arith)

  add_expert-IsRouted :
      (dtype : String) (gate_up down : List (Matrix ar)) (hidden : Vector ar) (expert : ℤ)
      (score : Float) (output out : Vector ar)
      → add_expert ar dtype gate_up down hidden (expert, score) output ≡ ok out
      → length output ≡ length hidden
      → IsRouted (length hidden) gate_up down expert
  unfolding add_expert IsRouted
  add_expert-IsRouted dtype gate_up down hidden expert score output out h fit =
      let ((g, d), e₁, h₁) = >>=-eq-ok (expert_weights ar gate_up down expert) _ h in
      let (values, e₂, h₂) = >>=-eq-ok (expert_output ar dtype hidden g d) _ h₁ in
      let (e₃, _) = reject-not-eq-ok (length values == length output) _ _ h₂ in
      let (low, there, also) = expert_weights-found gate_up down expert g d e₁ in
      (
        g,
        d,
        low,
        there,
        also,
        expert_output-Fits dtype hidden values g d e₂ ((==_iff _ _).0 e₃ ∙ fit),
      )

  add_experts-All :
      (dtype : String) (gate_up down : List (Matrix ar)) (hidden : Vector ar) (experts : List ℤ)
      (scores output out : Vector ar)
      → length experts ≡ length scores
      → add_experts ar dtype gate_up down hidden (zip ar experts scores) output ≡ ok out
      → length output ≡ length hidden
      → All (IsRouted (length hidden) gate_up down) experts
  unfolding add_experts
  add_experts-All dtype gate_up down hidden [] scores output out same h fit = tt
  add_experts-All dtype gate_up down hidden (x ∷ xs) [] output out same h fit =
      absurd (omega (arith, same))
  add_experts-All dtype gate_up down hidden (x ∷ xs) (y ∷ ys) output out same h fit =
      let (next, e, h₁) = >>=-eq-ok (add_expert ar dtype gate_up down hidden (x, y) output) _ h in
      (
        add_expert-IsRouted dtype gate_up down hidden x y output next e fit,
        add_experts-All dtype gate_up down hidden xs ys next out (omega (arith, same)) h₁
            (add_expert-length ar dtype gate_up down hidden (x, y) output next e ∙ fit),
      )

  -- A routed computation over a hidden vector that is not empty, if it returns something, was given as
  -- many scores as experts, and returns as many values as the vector has. Each expert is in both lists
  -- of weights, with matrices that fit: neither is ragged, the first has a row for each value of the
  -- vector and an even number of columns, the second a row for each pair of these columns and a column
  -- for each value.
  pub routed_moe-IsRouted :
      (hidden : Vector ar) (gate_up down : List (Matrix ar)) (experts : List ℤ) (scores : Vector ar)
      (dtype : String) (out : Vector ar)
      → is_empty hidden ≡ false
      → routed_moe ar hidden gate_up down experts scores dtype ≡ ok out
      → (length experts ≡ length scores)
        × (length out ≡ length hidden)
        × All (IsRouted (length hidden) gate_up down) experts
  unfolding routed_moe
  routed_moe-IsRouted hidden gate_up down experts scores dtype out full h =
      let (same, long) = routed_moe-length ar hidden gate_up down experts scores dtype out h in
      let counts : (length experts == length scores) ≡ true = (==_iff _ _).1 same in
      let missing : (is_empty gate_up || is_empty down) ≡ false =
        elim (Bool-cases (is_empty gate_up || is_empty down)) [
          | inr e ↦ e
          | inl e ↦ raised ar _ out (rw (counts, full, e) at h)
        ] in
      let (values, e, h₁) =
        >>=-eq-ok (traverse (quantize_value ar dtype) hidden) _ (rw (counts, full, missing) at h) in
      let kept = length-traverse ar (quantize_value ar dtype) hidden values e in
      (
        same,
        long,
        subst (λ n. All (IsRouted n gate_up down) experts) kept
            (add_experts-All dtype gate_up down values experts scores _ out same h₁
              (length-map ar _ values)),
      )
