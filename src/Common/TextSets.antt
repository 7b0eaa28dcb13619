-- ===== src/Common/TextSets.antt =====
-- Sets of texts: a set is a list without repetition, and `sorted(set(xs))` fixes its order.
use Prim.Native.Nat.{Ordering}
use Prim.Native.String.{String, compare}
use mathlib.Core.Path.{◌≡◌, refl, ap, ◌∙◌}
use mathlib.Core.Bool.{Bool, true, false, ◌||◌, ◌&&◌}
use mathlib.Core.List.{List, [], ◌∷◌, ◌++◌}
use native.Mathlib.Omega.{arith}
use tile_mem.Common.Tests.{str_eq, if◌then◌else◌, str_eq_iff}
use tile_mem.Common.Lists.{keep}
use tile_mem.Common.Sorting.{place, sort_by}

-- The order of texts: by their code points.
abbrev pub text_leb : String → String → Bool
text_leb a b = elim (compare a b) [ Ordering.gt ↦ false | _ ↦ true ]

-- `x in xs`
unfoldable pub contains : String → List String → Bool
contains x [] = false
contains x (y ∷ ys) = str_eq y x || contains x ys

-- `set(xs)`
unfoldable pub unique : List String → List String
unfolding contains
unique [] = []
unique (x ∷ xs) = let rest = unique xs in if contains x rest then rest else x ∷ rest

-- `sorted(set(xs))`
unfoldable pub sorted_set : List String → List String
unfolding unique sort_by
sorted_set xs = sort_by text_leb (unique xs)

pub contains-append :
    (x : String) (xs ys : List String) → contains x (xs ++ ys) ≡ (contains x xs || contains x ys)
unfolding contains
contains-append x [] ys = refl
contains-append x (y ∷ xs) ys = ground (arith, contains-append x xs ys)

pub contains-keep :
    (p : String → Bool) (x : String) (xs : List String)
    → contains x (keep p xs) ≡ (contains x xs && p x)
unfolding contains keep
contains-keep p x [] = refl
contains-keep p x (y ∷ xs) = ground (arith, contains-keep p x xs, str_eq_iff y x)

pub contains-unique : (x : String) (xs : List String) → contains x (unique xs) ≡ contains x xs
unfolding contains unique
contains-unique x [] = refl
contains-unique x (y ∷ xs) = ground (arith, contains-unique x xs, str_eq_iff y x)

contains-place :
    (x y : String) (ys : List String) → contains x (place text_leb y ys) ≡ contains x (y ∷ ys)
unfolding contains place
contains-place x y [] = refl
contains-place x y (z ∷ ys) = ground (arith, contains-place x y ys)

contains-sort_by :
    (x : String) (ys : List String) → contains x (sort_by text_leb ys) ≡ contains x ys
unfolding contains sort_by
contains-sort_by x [] = refl
contains-sort_by x (y ∷ ys) =
    contains-place x y (sort_by text_leb ys) ∙ ap (λ b. str_eq y x || b) (contains-sort_by x ys)

pub contains-sorted_set :
    (x : String) (xs : List String) → contains x (sorted_set xs) ≡ contains x xs
unfolding sorted_set
contains-sorted_set x xs = contains-sort_by x (unique xs) ∙ contains-unique x xs
