-- ===== src/Common/Errors.antt =====
-- Exceptions as values: a function that may raise returns a `Result`.
use Prim.Native.String.{String}
use mathlib.Core.Path.{◌≡◌, refl}
use mathlib.Core.Logic.{◌⊎◌, inl, inr}
use mathlib.Core.Bool.{Bool, true, false, not}
use mathlib.Core.List.{List, [], ◌∷◌}

-- The exception classes that the code raises, with their messages. A `DSLParseError` is a
-- `ValueError`, an `AdmissionError` and a `FinalizerError` are `RuntimeError`s.
pub data Error : Type 0 where
  value_error key_error type_error attribute_error runtime_error index_error overflow_error
        dsl_error :
      String → Error

pub data Result {ℓ} (A : Type ℓ) : Type ℓ where
  err : Error → Result A
  ok : A → Result A

-- The rest of a function runs on the value, unless an exception came before.
infixl 5 ◌>>=◌ ◌>>◌
abbrev pub ◌>>=◌ {ℓ μ} : {A : Type ℓ} {C : Type μ} → Result A → (A → Result C) → Result C
err raised >>= rest = err raised
ok value >>= rest = rest value

abbrev pub ◌>>◌ {μ} : {C : Type μ} → Result (Unit {0}) → Result C → Result C
check >> rest = check >>= λ _. rest

-- `if b: raise e`
abbrev pub reject : Bool → Error → Result (Unit {0})
reject true e = err e
reject false e = ok tt

-- `[f(x) for x in xs]`, where `f` may raise
unfoldable pub traverse {ℓ κ} :
    {A : Type ℓ} {B : Type κ} → (A → Result B) → List A → Result (List B)
traverse f [] = ok []
traverse f (x ∷ xs) = do y ← f x; ys ← traverse f xs; ok (y ∷ ys)

-- `for x in xs: f(x)`, where `f` only checks
unfoldable pub check_each {ℓ} : {A : Type ℓ} → (A → Result (Unit {0})) → List A → Result (Unit {0})
check_each f [] = ok tt
check_each f (x ∷ xs) = f x >> check_each f xs

pub >>=-eq-ok {ℓ μ} :
    {A : Type ℓ} {C : Type μ} (first : Result A) (rest : A → Result C) {c : C}
    → (first >>= rest) ≡ ok c
    → (value : A) × (first ≡ ok value) × (rest value ≡ ok c)
>>=-eq-ok (err raised) rest h = cc
>>=-eq-ok (ok value) rest h = (value, refl, h)

pub >>-eq-ok {μ} :
    {C : Type μ} (check : Result (Unit {0})) (rest : Result C) {c : C}
    → (check >> rest) ≡ ok c
    → (check ≡ ok tt) × (rest ≡ ok c)
>>-eq-ok (err raised) rest h = cc
>>-eq-ok (ok tt) rest h = (refl, h)

pub reject-eq-ok : (b : Bool) (e : Error) → reject b e ≡ ok tt → b ≡ false
reject-eq-ok true e h = cc
reject-eq-ok false e h = refl

-- What comes after a check that something holds.
pub reject-not-eq-ok {μ} :
    {C : Type μ} (b : Bool) (e : Error) (rest : Result C) {c : C}
    → (reject (not b) e >> rest) ≡ ok c
    → (b ≡ true) × (rest ≡ ok c)
reject-not-eq-ok true e rest h = (refl, h)
reject-not-eq-ok false e rest h = cc

pub ok-injective {ℓ} : {A : Type ℓ} {a b : A} → ok a ≡ ok b → a ≡ b
ok-injective h = cc

pub Result-cases {ℓ} :
    {A : Type ℓ} (m : Result A) → ((a : A) × (m ≡ ok a)) ⊎ ((e : Error) × (m ≡ err e))
Result-cases (ok a) = inl (a, refl)
Result-cases (err e) = inr (e, refl)
