-- ===== src/Common/Sorting.antt =====
-- `sorted(xs, key=…)`: a stable insertion sort by a Boolean order.
use mathlib.Core.Bool.{Bool, true, false}
use mathlib.Core.Path.{◌≡◌}
use mathlib.Core.List.{List, [], ◌∷◌, Perm}
use mathlib.Core.List.Perm
use mathlib.Core.Logic.{inl, inr}
use tile_mem.Common.Tests.{if◌then◌else◌, Bool-cases}
use tile_mem.Common.Lists.{All}

module _ {ℓ} {A : Type ℓ} (before : A → A → Bool) where
  -- `x` stood in front of the list, so it stays in front of its equals.
  unfoldable pub place : A → List A → List A
  place x [] = x ∷ []
  place x (y ∷ ys) = let later = place x ys in if before x y then x ∷ y ∷ ys else y ∷ later

  unfoldable pub sort_by : List A → List A
  unfolding place
  sort_by [] = []
  sort_by (x ∷ xs) = place x (sort_by xs)

  pub place-perm : (x : A) (ys : List A) → Perm (place x ys) (x ∷ ys)
  unfolding place
  place-perm x [] = Perm.refl (x ∷ [])
  place-perm x (y ∷ ys) = elim (Bool-cases (before x y)) [
    | inl e ↦ rw e (Perm.refl (x ∷ y ∷ ys))
    | inr e ↦ rw e (Perm.trans (Perm.cons y (place-perm x ys)) (Perm.swap x y ys))
  ]

  pub sort_by-perm : (xs : List A) → Perm (sort_by xs) xs
  unfolding sort_by
  sort_by-perm [] = Perm.refl []
  sort_by-perm (x ∷ xs) = Perm.trans (place-perm x (sort_by xs)) (Perm.cons x (sort_by-perm xs))

  -- The element stands before the first of a list.
  abbrev pub Leads : A → List A → Type 0
  Leads x [] = Unit
  Leads x (y ∷ ys) = before x y ≡ true

  -- Every element stands before the next one.
  abbrev pub Ordered : List A → Type 0
  Ordered [] = Unit
  Ordered (x ∷ xs) = Leads x xs × Ordered xs

  module _ (total : (x y : A) → before x y ≡ false → before y x ≡ true) where
    Leads-place : (x y : A) (ys : List A) → before y x ≡ true → Leads y ys → Leads y (place x ys)
    unfolding place
    Leads-place x y [] e h = e
    Leads-place x y (z ∷ zs) e h = elim (Bool-cases (before x z)) [
      | inl b ↦ rw b e
      | inr b ↦ rw b h
    ]

    place-Ordered : (x : A) (ys : List A) → Ordered ys → Ordered (place x ys)
    unfolding place
    place-Ordered x [] h = (tt, tt)
    place-Ordered x (y ∷ ys) (first, h) = elim (Bool-cases (before x y)) [
      | inl e ↦ rw e (e, (first, h))
      | inr e ↦ rw e (Leads-place x y ys (total x y e) first, place-Ordered x ys h)
    ]

    -- A sorted list is in order, where of any two elements one stands before the other.
    pub sort_by-Ordered : (xs : List A) → Ordered (sort_by xs)
    unfolding sort_by
    sort_by-Ordered [] = tt
    sort_by-Ordered (x ∷ xs) = place-Ordered x (sort_by xs) (sort_by-Ordered xs)

  module _ {κ} (P : A → Type κ) where
    place-All : (x : A) (ys : List A) → P x → All P ys → All P (place x ys)
    unfolding place
    place-All x [] p h = (p, tt)
    place-All x (y ∷ ys) p (q, h) = elim (Bool-cases (before x y)) [
      | inl e ↦ rw e (p, (q, h))
      | inr e ↦ rw e (q, place-All x ys p h)
    ]

    pub sort_by-All : (xs : List A) → All P xs → All P (sort_by xs)
    unfolding sort_by
    sort_by-All [] h = tt
    sort_by-All (x ∷ xs) (p, h) = place-All x (sort_by xs) p (sort_by-All xs h)

    All-place : (x : A) (ys : List A) → All P (place x ys) → All P (x ∷ ys)
    unfolding place
    All-place x [] h = h
    All-place x (y ∷ ys) h = elim (Bool-cases (before x y)) [
      | inl e ↦ rw e at h
      | inr e ↦
          let (q, rest) : P y × All P (place x ys) = rw e at h in
          let (p, tail) = All-place x ys rest in (p, (q, tail))
    ]

    -- What holds of every element of the sorted list holds of every element.
    pub All-sort_by : (xs : List A) → All P (sort_by xs) → All P xs
    unfolding sort_by
    All-sort_by [] h = tt
    All-sort_by (x ∷ xs) h = let (p, rest) = All-place x (sort_by xs) h in (p, All-sort_by xs rest)
