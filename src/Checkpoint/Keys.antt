-- ===== src/Checkpoint/Keys.antt =====
-- The keys `L{layer}:E{expert}` of the experts.
use Prim.Native.String.append
use Prim.Native.String.{◌∷◌ as ◌∷ˢ◌, ◌++◌ as append}
use text.Mathlib.TextLemmas.{append_assoc, append_cancel_left}
use tile_mem.Common.{
  str_eq, str_eq_iff, str_eq_refl, Bool-cases, ℤ, eqb_ℤ, eq_of_parts, str_int, split, free_of,
  free_of-append, split-append, split-free, ◌≡◌, refl, sym, ap, ◌∙◌, inl, inr, true, ◌&&◌, [], ◌∷◌,
  arith,
}
use tile_mem.Values.Decimal.{str_int-injective, free_of-str_int}
use tile_mem.Checkpoint.{owner_key}

split-owner_key :
    (l e : ℤ) → split ":" (owner_key l e) ≡ append "L" (str_int l) ∷ append "E" (str_int e) ∷ []
unfolding owner_key free_of
split-owner_key l e =
    rw
      (
        append.cons ":" "E" (str_int e),
        sym (append_assoc "L" (str_int l) (":" ∷ˢ append "E" (str_int e))),
      )
      (split-append ":" (append "L" (str_int l)) (append "E" (str_int e))
          (free_of-append ":" "L" (str_int l) refl (free_of-str_int ":" refl l refl))
        ∙ ap (λ ps. append "L" (str_int l) ∷ ps)
            (split-free ":" (append "E" (str_int e))
              (free_of-append ":" "E" (str_int e) refl (free_of-str_int ":" refl e refl))))

-- Two experts with one key are one expert of one layer.
pub owner_key-injective : (l e l' e' : ℤ) → owner_key l e ≡ owner_key l' e' → (l ≡ l') × (e ≡ e')
owner_key-injective l e l' e' h =
    let same = sym (split-owner_key l e) ∙ ap (split ":") h ∙ split-owner_key l' e' in
    let heads : append "L" (str_int l) ≡ append "L" (str_int l') = cc in
    let tails : append "E" (str_int e) ≡ append "E" (str_int e') = cc in
    (
      str_int-injective l l' (append_cancel_left "L" (str_int l) (str_int l') heads),
      str_int-injective e e' (append_cancel_left "E" (str_int e) (str_int e') tails),
    )

eqb_ℤ-true : (a b : ℤ) → eqb_ℤ a b ≡ true → a ≡ b
eqb_ℤ-true a b h = eq_of_parts a b (ground arith)

eqb_ℤ_refl : (a : ℤ) → eqb_ℤ a a ≡ true
eqb_ℤ_refl a = ground arith

-- Keys are compared as the numbers in them.
pub str_eq-owner_key :
    (l e l' e' : ℤ) → str_eq (owner_key l e) (owner_key l' e') ≡ (eqb_ℤ l l' && eqb_ℤ e e')
str_eq-owner_key l e l' e' = elim (Bool-cases (str_eq (owner_key l e) (owner_key l' e'))) [
  | inl same ↦
      let (layers, experts) = owner_key-injective l e l' e' ((str_eq_iff _ _).0 same) in
      same ∙ rw (layers, experts, eqb_ℤ_refl l', eqb_ℤ_refl e') refl
  | inr differs ↦ elim (Bool-cases (eqb_ℤ l l' && eqb_ℤ e e')) [
    | inr other ↦ differs ∙ sym other
    | inl both ↦
        let layers = eqb_ℤ-true l l' (ground arith) in
        let experts = eqb_ℤ-true e e' (ground arith) in
        let same : str_eq (owner_key l e) (owner_key l' e') ≡ true =
          rw (layers, experts) (str_eq_refl (owner_key l' e')) in
        cc
  ]
]
