-- ===== src/Values/Decimal.antt =====
-- `int(str(n))`: how `int` reads the decimals that `str` prints.
use Prim.Native.Char.{Char, code}
use Prim.Native.String.append
use Prim.Native.String.{◌++◌ as append}
use tile_mem.Common.{
  ltb, leb, ◌==◌, ltb→lt, le→leb, Bool-cases, ℤ, pos, negsuc, digit, emit, dec, str_int, free_of,
  free_of-append, ℕ, zero, suc, ◌+◌, ◌*◌, ◌/◌, ◌%◌, ◌<◌, String, ◌≡◌, refl, sym, ap, ◌∙◌, subst,
  inl, inr, Bool, true, false, ◌&&◌, none, some, arith,
}
use tile_mem.Values.{is_space, read_digits, negated, int_of_text}

digit-code : (d : ℕ) → d < 10 → code (digit d) ≡ 48 + d
unfolding digit
digit-code zero h = refl
digit-code (suc zero) h = refl
digit-code (suc (suc zero)) h = refl
digit-code (suc (suc (suc zero))) h = refl
digit-code (suc (suc (suc (suc zero)))) h = refl
digit-code (suc (suc (suc (suc (suc zero))))) h = refl
digit-code (suc (suc (suc (suc (suc (suc zero)))))) h = refl
digit-code (suc (suc (suc (suc (suc (suc (suc zero))))))) h = refl
digit-code (suc (suc (suc (suc (suc (suc (suc (suc zero)))))))) h = refl
digit-code (suc (suc (suc (suc (suc (suc (suc (suc (suc zero))))))))) h = refl
digit-code (suc (suc (suc (suc (suc (suc (suc (suc (suc (suc d)))))))))) h = absurd (omega arith)

read_digits-digit :
    (d n : ℕ) (s : String) (seen : Bool)
    → d < 10
    → read_digits (String.◌∷◌ (digit d) s) n seen ≡ read_digits s (n * 10 + d) true
unfolding read_digits
read_digits-digit d n s seen h =
    rw (digit-code d h, le→leb 48 (48 + d) (omega arith), le→leb (48 + d) 57 (omega arith))
      (ap (λ k. read_digits s (n * 10 + k) true) (omega arith))

-- Reading the digits of `n`, and then what follows them, with `n` read.
read_digits-emit :
    (fuel n : ℕ) (out : String) (seen : Bool)
    → n < fuel
    → read_digits (emit fuel n out) 0 seen ≡ read_digits out n true
unfolding emit read_digits
read_digits-emit zero n out seen h = absurd (omega arith)
read_digits-emit (suc fuel) n out seen h = elim (Bool-cases (ltb n 10)) [
  | inl e ↦ rw (e) (
      read_digits-digit n 0 out seen (ltb→lt n 10 e)
      ∙ ap (λ k. read_digits out k true) (omega arith))
  | inr e ↦ rw (e) (
      read_digits-emit fuel (n / 10) (String.◌∷◌ (digit (n % 10)) out) seen (ground arith)
      ∙ read_digits-digit (n % 10) (n / 10) out true (omega arith)
      ∙ ap (λ k. read_digits out k true) (omega arith))
]

-- The first character of a decimal is a digit.
emit-head :
    (fuel n : ℕ) (out : String)
    → (d : ℕ) × (s : String) × (d < 10) × (emit (suc fuel) n out ≡ String.◌∷◌ (digit d) s)
unfolding emit
emit-head zero n out = elim (Bool-cases (ltb n 10)) [
  | inl e ↦ (n, out, ltb→lt n 10 e, rw (e) refl)
  | inr e ↦ (n % 10, out, omega arith, rw (e) refl)
]
emit-head (suc fuel) n out = elim (Bool-cases (ltb n 10)) [
  | inl e ↦ (n, out, ltb→lt n 10 e, rw (e) refl)
  | inr e ↦
      let (d, s, h, same) = emit-head fuel (n / 10) (String.◌∷◌ (digit (n % 10)) out) in
      (d, s, h, rw (e) same)
]

int_of_text-digit :
    (d : ℕ) (s : String)
    → d < 10
    → int_of_text (String.◌∷◌ (digit d) s) ≡ (elim (read_digits (String.◌∷◌ (digit d) s) 0 false) [
      | none ↦ none
      | some n ↦ some (pos n)
    ])
unfolding int_of_text is_space
int_of_text-digit d s h = ground (arith, digit-code d h)

read_digits-dec : (n : ℕ) → read_digits (dec n) 0 false ≡ some n
unfolding dec read_digits
read_digits-dec n = read_digits-emit (suc n) n String.[] false (omega arith)

int_of_text-dec : (n : ℕ) → int_of_text (dec n) ≡ some (pos n)
unfolding dec
int_of_text-dec n =
    let (d, s, h, same) = emit-head n n String.[] in
    let read : read_digits (String.◌∷◌ (digit d) s) 0 false ≡ some n =
      subst (λ t. read_digits t 0 false ≡ some n) same (read_digits-dec n) in
    rw (same) (int_of_text-digit d s h ∙ rw (read) refl)

int_of_text-minus :
    (s : String)
    → int_of_text (append "-" s)
      ≡ (elim (read_digits s 0 false) [ none ↦ none | some n ↦ some (negated n) ])
unfolding int_of_text is_space
int_of_text-minus s = rw (append.cons "-" "" s, append.nil s) refl

-- What `str` prints of an integer, `int` reads back.
pub int_of_text-str_int : (z : ℤ) → int_of_text (str_int z) ≡ some z
unfolding str_int negated
int_of_text-str_int (pos n) = int_of_text-dec n
int_of_text-str_int (negsuc n) = int_of_text-minus (dec (suc n)) ∙ rw (read_digits-dec (suc n)) refl

pub str_int-injective : (a b : ℤ) → str_int a ≡ str_int b → a ≡ b
str_int-injective a b h =
    let same : some a ≡ some b =
      sym (int_of_text-str_int a) ∙ ap int_of_text h ∙ int_of_text-str_int b in
    cc

-- No decimal holds a character that is neither a digit nor a sign.
module _ (sep : Char) (out_of_range : (leb 48 (code sep) && leb (code sep) 57) ≡ false) where
  free_of-digit :
      (d : ℕ) (s : String)
      → d < 10
      → free_of sep s ≡ true
      → free_of sep (String.◌∷◌ (digit d) s) ≡ true
  unfolding free_of
  free_of-digit d s below rest = ground (arith, digit-code d below)

  free_of-emit :
      (fuel n : ℕ) (out : String) → free_of sep out ≡ true → free_of sep (emit fuel n out) ≡ true
  unfolding emit
  free_of-emit zero n out h = h
  free_of-emit (suc fuel) n out h = elim (Bool-cases (ltb n 10)) [
    | inl e ↦ rw (e) (free_of-digit n out (ltb→lt n 10 e) h)
    | inr e ↦ rw (e) (
        free_of-emit fuel (n / 10) (String.◌∷◌ (digit (n % 10)) out)
          (free_of-digit (n % 10) out (omega arith) h))
  ]

  free_of-dec : (n : ℕ) → free_of sep (dec n) ≡ true
  unfolding dec free_of
  free_of-dec n = free_of-emit (suc n) n "" refl

  free_of-minus : (code sep == 45) ≡ false → free_of sep "-" ≡ true
  unfolding free_of
  free_of-minus h = ground arith

  pub free_of-str_int : (z : ℤ) → (code sep == 45) ≡ false → free_of sep (str_int z) ≡ true
  unfolding str_int
  free_of-str_int (pos n) h = free_of-dec n
  free_of-str_int (negsuc n) h =
      free_of-append sep "-" (dec (suc n)) (free_of-minus h) (free_of-dec (suc n))
