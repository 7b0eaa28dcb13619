-- ===== src/Hotset/Ranking.antt =====
-- The order of a layer's experts.
use mathlib.Core.List.{Perm}
use mathlib.Core.List.Perm
use tile_mem.Common.{
  Bool-cases, length, range_from, range, sort_by, sort_by-perm, sort_by-Ordered, Ordered, ℕ, ◌+◌,
  ◌≤◌, ◌≡◌, refl, ap, subst, ◌⊎◌, inl, inr, true, false, List, [], ◌∷◌, map, arith,
}
use tile_mem.Hotset.{ScoreArithmetic, numbered, ranks_before, rank_layer}

module _ {F : Type 0} (arithmetic : ScoreArithmetic F) where
  numbered-experts :
      (i : ℕ) (counts : List F)
      → map (λ (p : ℕ × F). p.0) (numbered arithmetic i counts) ≡ range_from i (length counts)
  unfolding range_from
  numbered-experts i [] = refl
  numbered-experts i (x ∷ xs) = ap (λ l. i ∷ l) (numbered-experts (i + 1) xs)

  ranks_before-total :
      (p q : ℕ × F) → ranks_before arithmetic p q ≡ false → ranks_before arithmetic q p ≡ true
  unfolding ranks_before
  ranks_before-total (i, x) (j, y) h = ground arith

  -- Of two experts that follow each other the first has the higher count, or the second has not and its
  -- number is not the lower one.
  pub HotFirst : List (ℕ × F) → Type 0
  HotFirst [] = Unit
  HotFirst ((i, x) ∷ ranked) = elim ranked as (λ r. Type 0) [
    | [] ↦ Unit
    | (j, y) ∷ later ↦
        ((arithmetic.less y x ≡ true) ⊎ ((arithmetic.less x y ≡ false) × (i ≤ j))) × HotFirst ranked
  ]

  hot_first :
      (i j : ℕ) (x y : F)
      → ranks_before arithmetic (i, x) (j, y) ≡ true
      → (arithmetic.less y x ≡ true) ⊎ ((arithmetic.less x y ≡ false) × (i ≤ j))
  unfolding ranks_before
  hot_first i j x y h = elim (Bool-cases (arithmetic.less y x)) [
    | inl e ↦ inl e
    | inr e ↦ inr (ground (arith, e, h), ground (arith, e, h))
  ]

  Ordered-HotFirst :
      (ranked : List (ℕ × F)) → Ordered (ranks_before arithmetic) ranked → HotFirst ranked
  unfolding HotFirst
  Ordered-HotFirst [] h = tt
  Ordered-HotFirst ((i, x) ∷ []) h = tt
  Ordered-HotFirst ((i, x) ∷ (j, y) ∷ later) (e, h) =
      (hot_first i j x y e, Ordered-HotFirst ((j, y) ∷ later) h)

  -- The ranking of a layer lists each of its experts once. With its counts beside it, of two experts that
  -- follow each other the first has the higher count, or the second has not and its number is not the
  -- lower one.
  pub rank_layer-HotFirst :
      (counts : List F)
      → (ranked : List (ℕ × F)) × (rank_layer arithmetic counts ≡ map (λ p. p.0) ranked)
        × Perm ranked (numbered arithmetic 0 counts)
        × Perm (rank_layer arithmetic counts) (range (length counts))
        × HotFirst ranked
  unfolding rank_layer range
  rank_layer-HotFirst counts =
      let before = ranks_before arithmetic in
      let items = numbered arithmetic 0 counts in
      (
        sort_by before items,
        refl,
        sort_by-perm before items,
        subst (Perm (rank_layer arithmetic counts)) (numbered-experts 0 counts)
            (Perm.map (λ (p : ℕ × F). p.0) (sort_by-perm before items)),
        Ordered-HotFirst (sort_by before items) (sort_by-Ordered before ranks_before-total items),
      )
