-- ===== src/Finalizer/Names.antt =====
-- The names of the copies: they are found, and no two are the same.
use text.Mathlib.TextLemmas.{append_cancel_left, append_cancel_right}
use tile_mem.Common.{
  ◌==◌, str_eq, ==_iff, str_eq_refl, Bool-cases, str_ne, length, keep, length-keep-le, All, pos,
  str_int, ok, contains, contains-keep, ℕ, zero, suc, ◌+◌, ◌≤◌, ◌<◌, String, ◌≡◌, refl, sym, ◌∙◌,
  subst, ◌⊎◌, inl, inr, Bool, true, false, not, ◌&&◌, ◌||◌, List, [], ◌∷◌, arith,
}
use tile_mem.Values.Decimal.{str_int-injective}
use tile_mem.Finalizer.{InputFile, stem_suffix, candidate, search_name, unique_name, copy_inputs}

candidate-injective :
    (parts : String × String) (i j : ℕ) → candidate parts i ≡ candidate parts j → i ≡ j
unfolding candidate
candidate-injective (stem, suffix) i j h =
    let after_stem = append_cancel_left stem _ _ h in
    let after_line = append_cancel_left "_" _ _ after_stem in
    let numbers = append_cancel_right (str_int (pos i)) (str_int (pos j)) suffix after_line in
    let same = str_int-injective (pos i) (pos j) numbers in cc

-- A list gets shorter when a text that is in it is taken out.
length-without :
    (x : String) (xs : List String)
    → contains x xs ≡ true
    → suc (length (keep (λ y. not (str_eq y x)) xs)) ≤ length xs
unfolding contains keep
length-without x [] h = absurd (cc)
length-without x (y ∷ xs) h = elim (Bool-cases (str_eq y x)) [
  | inl e ↦ rw (e) (omega (arith, length-keep-le (λ z. not (str_eq z x)) xs))
  | inr e ↦
      let later : contains x xs ≡ true = ground (arith, h, e) in
      rw (e) (omega (arith, length-without x xs later))
]

other-candidate :
    (parts : String × String) (i j : ℕ)
    → suc i ≤ j
    → str_eq (candidate parts j) (candidate parts i) ≡ false
other-candidate parts i j h =
    str_ne (candidate parts j) (candidate parts i)
      (λ same. let equal = candidate-injective parts j i same in absurd (omega arith))

-- As many different candidates as are in a list, so long it is at least.
length-candidates :
    (parts : String × String) (k i : ℕ) (used : List String)
    → ((j : ℕ) → i ≤ j → j < i + k → contains (candidate parts j) used ≡ true)
    → k ≤ length used
length-candidates parts zero i used h = omega arith
length-candidates parts (suc k) i used h =
    let x = candidate parts i in
    let others : List String = keep (λ y. not (str_eq y x)) used in
    let first = h i (omega arith) (omega arith) in
    let later : (j : ℕ) → suc i ≤ j → j < suc i + k → contains (candidate parts j) others ≡ true =
      λ j low high.
        contains-keep (λ y. not (str_eq y x)) (candidate parts j) used
        ∙ rw (h j (omega arith) (omega arith), other-candidate parts i j low) refl in
    omega (arith, length-without x used first, length-candidates parts k (suc i) others later)

-- The search ends with a name that is free, or all the candidates are taken.
search_name-cases :
    (parts : String × String) (used : List String) (fuel i : ℕ)
    → ((n : String) × (search_name parts used fuel i ≡ ok n) × (contains n used ≡ false))
      ⊎ ((j : ℕ) → i ≤ j → j < i + fuel → contains (candidate parts j) used ≡ true)
unfolding search_name
search_name-cases parts used zero i = inr (λ j low high. absurd (omega arith))
search_name-cases parts used (suc fuel) i = elim (Bool-cases (contains (candidate parts i) used)) [
  | inr free ↦ inl (candidate parts i, rw (free) refl, free)
  | inl taken ↦ elim (search_name-cases parts used fuel (i + 1)) [
    | inl (n, found, free) ↦ inl (n, rw (taken) found, free)
    | inr all_taken ↦ inr (λ j low high. elim (Bool-cases (i == j)) [
      | inl same ↦
          let equal : i ≡ j = (==_iff i j).0 same in
          subst (λ k. contains (candidate parts k) used ≡ true) equal taken
      | inr other ↦ all_taken j (ground arith) (omega arith)
    ])
  ]
]

-- While fewer than 998 names are in use, `_unique_name` returns a name, and one that is not in use.
pub unique_name-free :
    (name : String) (used : List String)
    → length used < 998
    → (n : String) × (unique_name name used ≡ ok n) × (contains n used ≡ false)
unfolding unique_name
unique_name-free name used h = elim (Bool-cases (contains name used)) [
  | inr free ↦ (name, rw (free) refl, free)
  | inl taken ↦ elim (search_name-cases (stem_suffix name) used 998 2) [
    | inl (n, found, free) ↦ (n, rw (taken) found, free)
    | inr all_taken ↦
        absurd (omega (arith, length-candidates (stem_suffix name) 998 2 used all_taken))
  ]
]

-- No text of the list is there twice.
unfoldable pub all_different : List String → Bool
unfolding contains
all_different [] = true
all_different (x ∷ xs) = not (contains x xs) && all_different xs

-- There is a file behind every path of the list.
abbrev pub AllExist : List InputFile → Type 0
AllExist files = All (λ (f : InputFile). f.exists ≡ true) files

either : (a b : Bool) → b ≡ true → (a || b) ≡ true
either true b h = refl
either false b h = h

neither : (a b : Bool) → a ≡ false → b ≡ false → (a || b) ≡ false
neither a b p q = rw (p, q) refl

-- A text in the list differs from one that is not.
free-ne :
    (name n : String) (used : List String)
    → contains name used ≡ false
    → contains n used ≡ true
    → str_eq name n ≡ false
free-ne name n used free there =
    str_ne name n
      (λ same. let held = subst (λ x. contains x used ≡ true) (sym same) there in absurd (cc))

-- The names of the copies differ from each other and from those in use.
copied :
    (files : List InputFile) (used : List String)
    → AllExist files
    → length used + length files < 998
    → (names : List String) × (copy_inputs files used ≡ ok names)
      × (length names ≡ length files)
      × (all_different names ≡ true)
      × ((n : String) → contains n used ≡ true → contains n names ≡ false)
unfolding copy_inputs all_different contains
copied [] used there few = ([], refl, refl, refl, λ n h. refl)
copied (file ∷ files) used (here, there) few =
    let (name, found, free) = unique_name-free file.name used (omega (arith, few)) in
    let (names, e, long, different, apart) =
      copied files (name ∷ used) there (omega (arith, few)) in
    let new : contains name names ≡ false = apart name (rw (str_eq_refl name) refl) in
    (
      name ∷ names,
      rw (here, found, e) refl,
      omega (arith, long),
      rw (new, different) refl,
      λ n h.
          neither (str_eq name n) (contains n names) (free-ne name n used free h)
            (apart n (either (str_eq name n) (contains n used) h)),
    )

-- Of fewer than 998 files that are all there, every one is copied, under names no two of which are the
-- same: no copy overwrites another.
pub copy_inputs-all_different :
    (files : List InputFile)
    → AllExist files
    → length files < 998
    → (names : List String) × (copy_inputs files [] ≡ ok names)
      × (length names ≡ length files)
      × (all_different names ≡ true)
copy_inputs-all_different files there few =
    let (names, e, long, different, apart) = copied files [] there (omega (arith, few)) in
    (names, e, long, different)
