-- ===== src/Common/Splitting.antt =====
-- `text.split(sep)` and `sep.join(parts)`, for a separator of one character.
use Prim.Native.Char.{Char, code}
use Prim.Native.String.append
use Prim.Native.String.{String, ◌++◌ as append}
use mathlib.Core.Path.{◌≡◌, refl, subst}
use mathlib.Core.Bool.{Bool, true, false, not, ◌&&◌}
use mathlib.Core.List.{List, [], ◌∷◌, ◌++◌}
use text.Mathlib.TextLemmas.{append-nil, append_assoc}
use mathlib.Core.Logic.{inl, inr}
use native.Mathlib.Omega.{arith}
use tile_mem.Common.Tests.{Bool-cases, ◌==◌, if◌then◌else◌}

-- The first part, and the parts after it.
unfoldable pub split_parts : Char → String → String × List String
split_parts sep String.[] = (String.[], [])
split_parts sep (String.◌∷◌ c s) =
    let (first, others) = split_parts sep s in
    if code c == code sep then (String.[], first ∷ others) else (String.◌∷◌ c first, others)

-- `text.split(sep)`
unfoldable pub split : Char → String → List String
unfolding split_parts
split sep s = let (first, others) = split_parts sep s in first ∷ others

-- The separator is not in the text.
unfoldable pub free_of : Char → String → Bool
free_of sep String.[] = true
free_of sep (String.◌∷◌ c s) = not (code c == code sep) && free_of sep s

pub free_of-append :
    (sep : Char) (s t : String)
    → free_of sep s ≡ true
    → free_of sep t ≡ true
    → free_of sep (append s t) ≡ true
unfolding free_of
free_of-append sep String.[] t hs ht = rw (append.nil t) ht
free_of-append sep (String.◌∷◌ c s) t hs ht =
    rw (append.cons c s t) (ground (arith, free_of-append sep s t))

split_parts-free :
    (sep : Char) (s t : String)
    → free_of sep s ≡ true
    → split_parts sep (append s t) ≡ (append s (split_parts sep t).0, (split_parts sep t).1)
unfolding split_parts free_of
split_parts-free sep String.[] t h = rw (append.nil t, append.nil (split_parts sep t).0) refl
split_parts-free sep (String.◌∷◌ c s) t h =
    let (other, rest) : (code c == code sep ≡ false) × (free_of sep s ≡ true) = ground arith in
    rw (append.cons c s t, append.cons c s (split_parts sep t).0)
      (rw (other, split_parts-free sep s t rest) refl)

sep_eq : (c : Char) → (code c == code c) ≡ true
sep_eq c = ground arith

-- A part without the separator, the separator, and a text: the part, and the parts of the text.
pub split-append :
    (sep : Char) (s t : String)
    → free_of sep s ≡ true
    → split sep (append s (String.◌∷◌ sep t)) ≡ s ∷ split sep t
unfolding split
split-append sep s t h =
    rw (split_parts-free sep s (String.◌∷◌ sep t) h, sep_eq sep) (rw (append-nil s) refl)

pub split-free : (sep : Char) (s : String) → free_of sep s ≡ true → split sep s ≡ s ∷ []
unfolding split
split-free sep s h =
    subst (λ x. split sep x ≡ s ∷ []) (append-nil s)
      (rw (split_parts-free sep s String.[] h) (rw (append-nil s) refl))

split_parts-concat :
    (sep : Char) (s t : String)
    → split_parts sep (append s (String.◌∷◌ sep t))
      ≡ ((split_parts sep s).0, (split_parts sep s).1 ++ split sep t)
unfolding split_parts split
split_parts-concat sep String.[] t = rw (append.nil (String.◌∷◌ sep t), sep_eq sep) refl
split_parts-concat sep (String.◌∷◌ c s) t = elim (Bool-cases (code c == code sep)) [
  | inl e ↦ rw (append.cons c s (String.◌∷◌ sep t)) (rw (e, split_parts-concat sep s t) refl)
  | inr e ↦ rw (append.cons c s (String.◌∷◌ sep t)) (rw (e, split_parts-concat sep s t) refl)
]

-- A text that ends in the separator, and one after it: the parts of both.
pub split-concat :
    (sep : Char) (s t : String)
    → split sep (append (append s (String.◌∷◌ sep "")) t) ≡ split sep s ++ split sep t
unfolding split
split-concat sep s t =
    rw (append_assoc s (String.◌∷◌ sep "") t, append.cons sep "" t, append.nil t)
      (rw (split_parts-concat sep s t) refl)
