-- ===== src/Values/RoundTrip.antt =====
-- Lists of values: what is written as a list is read back element by element.
use tile_mem.Common.{All, Dict, Result, ok, traverse, ◌≡◌, refl, ap, List, [], ◌∷◌, map}
use tile_mem.Values.{Value, items_of, list_of, fields_of, entries}

pub list_of-items_of : {F : Type 0} (vs : List (Value F)) → list_of (items_of vs) ≡ vs
list_of-items_of [] = refl
list_of-items_of (v ∷ vs) = ap (λ l. v ∷ l) (list_of-items_of vs)

pub entries-fields_of : {F : Type 0} (d : Dict (Value F)) → entries (fields_of d) ≡ d
unfolding entries
entries-fields_of [] = refl
entries-fields_of ((k, v) ∷ d) = ap (λ l. (k, v) ∷ l) (entries-fields_of d)

module _ {ℓ κ} {A : Type ℓ} {B : Type κ} (write : A → B) (read : B → Result A) where
  pub traverse-map :
      (xs : List A) → All (λ x. read (write x) ≡ ok x) xs → traverse read (map write xs) ≡ ok xs
  unfolding traverse
  traverse-map [] h = refl
  traverse-map (x ∷ xs) (e, h) = rw (e, traverse-map xs h)

  pub traverse-map_every :
      (xs : List A) → ((x : A) → read (write x) ≡ ok x) → traverse read (map write xs) ≡ ok xs
  unfolding traverse
  traverse-map_every [] h = refl
  traverse-map_every (x ∷ xs) h = rw (h x, traverse-map_every xs h)
