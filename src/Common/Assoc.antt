-- ===== src/Common/Assoc.antt =====
-- A dictionary with text keys, in insertion order: an assignment to a key that is there replaces
-- its value where it stands, one to a new key appends.
use Prim.Native.String.{String}
use mathlib.Core.Path.{◌≡◌, refl, sym}
use mathlib.Core.Bool.{Bool, true, false}
use mathlib.Core.Logic.{◌⊎◌, ◌≢◌, inl, inr}
use mathlib.Core.Option.{Option, none, some}
use mathlib.Core.List.{List, [], ◌∷◌}
use native.Mathlib.Omega.{arith}
use tile_mem.Common.Tests.{str_eq, if◌then◌else◌, str_eq_iff}

abbrev pub Dict {ℓ} : Type ℓ → Type ℓ
Dict V = List (String × V)

module _ {ℓ} {V : Type ℓ} where
  unfoldable pub lookup : String → Dict V → Option V
  lookup k [] = none
  lookup k ((j, v) ∷ m) = if str_eq j k then some v else lookup k m

  unfoldable pub insert : String → V → Dict V → Dict V
  insert k v [] = (k, v) ∷ []
  insert k v ((j, w) ∷ m) = if str_eq j k then (k, v) ∷ m else (j, w) ∷ insert k v m

  unfoldable pub has_key : String → Dict V → Bool
  has_key k m = elim (lookup k m) [ none ↦ false | some v ↦ true ]

  -- `m.get(k, d)`
  unfoldable pub get_or : String → V → Dict V → V
  get_or k d m = elim (lookup k m) [ none ↦ d | some v ↦ v ]

  pub lookup-insert :
      (k j : String) (v : V) (m : Dict V)
      → lookup j (insert k v m) ≡ (if str_eq k j then some v else lookup j m)
  unfolding lookup insert
  lookup-insert k j v [] = refl
  lookup-insert k j v ((i, w) ∷ m) =
      ground (arith, str_eq_iff k j, str_eq_iff i k, str_eq_iff i j, lookup-insert k j v m)

  -- What is found after an assignment is what was assigned, or what was there under another key.
  pub insert_cases :
      (k j : String) (v w : V) (m : Dict V)
      → lookup j (insert k v m) ≡ some w
      → ((k ≡ j) × (v ≡ w)) ⊎ ((k ≢ j) × (lookup j m ≡ some w))
  insert_cases k j v w m h = ground (arith, lookup-insert k j v m, str_eq_iff k j)

  pub has_key-insert :
      (k j : String) (v : V) (m : Dict V)
      → has_key j (insert k v m) ≡ (if str_eq k j then true else has_key j m)
  unfolding has_key
  has_key-insert k j v m = ground (arith, lookup-insert k j v m)

  -- What a key stands for: the value that is there, or the default where none is.
  unfoldable pub StandsFor : Dict V → String → V → V → Type ℓ
  StandsFor m k d v = (lookup k m ≡ some v) ⊎ ((lookup k m ≡ none) × (v ≡ d))

  pub get_or-StandsFor : (m : Dict V) (k : String) (d : V) → StandsFor m k d (get_or k d m)
  unfolding StandsFor get_or
  get_or-StandsFor m k d = found (lookup k m) refl
    where
      found : (o : Option V) → lookup k m ≡ o → StandsFor m k d (get_or k d m)
      found none e = inr (e, rw (get_or, e) refl)
      found (some v) e = inl (rw (get_or, e) refl)

  pub StandsFor-unique : (m : Dict V) (k : String) (d v : V) → StandsFor m k d v → get_or k d m ≡ v
  unfolding StandsFor get_or
  StandsFor-unique m k d v (inl e) = rw (get_or, e) refl
  StandsFor-unique m k d v (inr (e, same)) = rw (get_or, e) (sym same)
