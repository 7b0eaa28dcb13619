-- ===== src/Kernels/Shapes.antt =====
-- The shapes of what the reference computations return.
use tile_mem.Common.{
  ◌==◌, ==_iff, Bool-cases, length, is_empty, range_from, range, ℤ, Error, Result, err, ok, ◌>>=◌,
  reject, traverse, >>=-eq-ok, >>-eq-ok, ok-injective, ℕ, zero, suc, ◌+◌, String, ◌≡◌, refl, sym,
  ap, ◌∙◌, subst, inl, inr, true, ◌||◌, List, [], ◌∷◌, map,
}
use tile_mem.Kernels.{
  Arithmetic, Vector, Matrix, row_times, quantize_value, accumulate, expert_weights, expert_output,
  add_expert, add_experts, zip, routed_moe,
}

module _ (ar : Arithmetic) where
  open ar use {Float, nought}

  pub length-map {κ} :
      {A : Type 0} {B : Type κ} (f : A → B) (xs : List A) → length (map f xs) ≡ length xs
  length-map f [] = refl
  length-map f (x ∷ xs) = ap suc (length-map f xs)

  pub length-range_from : (from n : ℕ) → length (range_from from n) ≡ n
  unfolding range_from
  length-range_from from zero = refl
  length-range_from from (suc n) = ap suc (length-range_from (from + 1) n)

  pub length-row_times :
      (row : Vector ar) (b : Matrix ar) (cols : ℕ) → length (row_times ar row b cols) ≡ cols
  unfolding row_times range
  length-row_times row b cols = length-map _ (range_from 0 cols) ∙ length-range_from 0 cols

  pub length-accumulate :
      (score : Float) (output values : Vector ar)
      → length (accumulate ar score output values) ≡ length output
  unfolding accumulate
  length-accumulate score [] values = refl
  length-accumulate score (x ∷ output) [] = refl
  length-accumulate score (x ∷ output) (v ∷ values) = ap suc (length-accumulate score output values)

  pub add_expert-length :
      (dtype : String) (gate_up down : List (Matrix ar)) (hidden : Vector ar) (item : ℤ × Float)
      (output out : Vector ar)
      → add_expert ar dtype gate_up down hidden item output ≡ ok out
      → length out ≡ length output
  unfolding add_expert
  add_expert-length dtype gate_up down hidden (expert, score) output out h =
      let (weights, _, h₁) = >>=-eq-ok (expert_weights ar gate_up down expert) _ h in
      let (values, _, h₂) = >>=-eq-ok (expert_output ar dtype hidden weights.0 weights.1) _ h₁ in
      let (_, same) = >>-eq-ok (reject _ _) (ok (accumulate ar score output values)) h₂ in
      subst (λ (x : Vector ar). length x ≡ length output) (ok-injective same)
        (length-accumulate score output values)

  add_experts-length :
      (dtype : String) (gate_up down : List (Matrix ar)) (hidden : Vector ar)
      (items : List (ℤ × Float)) (output out : Vector ar)
      → add_experts ar dtype gate_up down hidden items output ≡ ok out
      → length out ≡ length output
  unfolding add_experts
  add_experts-length dtype gate_up down hidden [] output out h =
      ap (λ (x : Vector ar). length x) (sym (ok-injective h))
  add_experts-length dtype gate_up down hidden (item ∷ items) output out h =
      let (next, e, h₁) = >>=-eq-ok (add_expert ar dtype gate_up down hidden item output) _ h in
      add_experts-length dtype gate_up down hidden items next out h₁
      ∙ add_expert-length dtype gate_up down hidden item output next e

  pub length-traverse :
      {A : Type 0} {B : Type 0} (f : A → Result B) (xs : List A) (ys : List B)
      → traverse f xs ≡ ok ys
      → length ys ≡ length xs
  unfolding traverse
  length-traverse f [] ys h = let same : [] ≡ ys = ok-injective h in rw (sym same) refl
  length-traverse f (x ∷ xs) ys h =
      let (y, _, h₁) = >>=-eq-ok (f x) _ h in
      let (rest, e, h₂) = >>=-eq-ok (traverse f xs) _ h₁ in
      let same : y ∷ rest ≡ ys = ok-injective h₂ in
      rw (sym same) (ap suc (length-traverse f xs rest e))

  pub raised : {B : Type 0} (e : Error) (out : Vector ar) → err e ≡ ok out → B
  raised e out h = absurd (cc)

  empty-length : (xs : Vector ar) → is_empty xs ≡ true → 0 ≡ length xs
  empty-length [] h = refl
  empty-length (x ∷ xs) h = absurd (cc)

  -- Past the checks, the values are those of the hidden vector, and the output begins with as many.
  computed-length :
      (hidden : Vector ar) (gate_up down : List (Matrix ar)) (items : List (ℤ × Float))
      (dtype : String) (out : Vector ar)
      → (traverse (quantize_value ar dtype) hidden >>= (λ values.
            add_experts ar dtype gate_up down values items (map (λ x. nought) values))
          ≡ ok out)
      → length out ≡ length hidden
  computed-length hidden gate_up down items dtype out h =
      let (values, e, h₁) = >>=-eq-ok (traverse (quantize_value ar dtype) hidden) _ h in
      add_experts-length dtype gate_up down values items (map (λ x. nought) values) out h₁
      ∙ length-map _ values
      ∙ length-traverse (quantize_value ar dtype) hidden values e

  -- A routed computation that returns something was given as many scores as experts, and returns as
  -- many values as the hidden vector has.
  pub routed_moe-length :
      (hidden : Vector ar) (gate_up down : List (Matrix ar)) (experts : List ℤ) (scores : Vector ar)
      (dtype : String) (out : Vector ar)
      → routed_moe ar hidden gate_up down experts scores dtype ≡ ok out
      → (length experts ≡ length scores) × (length out ≡ length hidden)
  unfolding routed_moe
  routed_moe-length hidden gate_up down experts scores dtype out h =
      elim (Bool-cases (length experts == length scores)) [
        | inr differs ↦ raised _ out (rw (differs) at h)
        | inl same ↦ (
          (==_iff _ _).0 same,
          elim (Bool-cases (is_empty hidden)) [
            | inl empty ↦
                ap (λ (x : Vector ar). length x) (sym (ok-injective (rw (same, empty) at h)))
                ∙ empty-length hidden empty
            | inr full ↦ elim (Bool-cases (is_empty gate_up || is_empty down)) [
              | inl missing ↦ raised _ out (rw (same, full, missing) at h)
              | inr there ↦
                  computed-length hidden gate_up down (zip ar experts scores) dtype out
                    (rw (same, full, there) at h)
            ]
          ],
        )
      ]
