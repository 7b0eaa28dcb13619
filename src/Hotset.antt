-- ===== src/Hotset.antt =====
-- tilepo/kt_hotset.py: the ranking of a layer's experts. A layer's counts are a list of floats, and
-- float arithmetic is a parameter; loading and saving tensors is left out.
pub mod Ranking
use tile_mem.Common.{
  ltb, leb, str_eq, if◌then◌else◌, take, is_empty, keep, ℤ, value_error, Result, ok, err, ◌>>=◌,
  ◌>>◌, reject, traverse, sort_by, ℕ, ◌+◌, ◌-◌, String, Bool, true, false, not, none, some, List,
  [], ◌∷◌, map,
}
use tile_mem.Values.{int_of_text}

-- The float operations of `_rank_banded_score`.
pub record ScoreArithmetic (F : Type 0) : Type 0 where
  pub literal : String → F
  pub of_count : ℕ → F
  pub sum : F → F → F
  pub product : F → F → F
  pub less : F → F → Bool

-- `parse_expert_list` of a text that was split at its commas.
unfoldable pub parse_expert_list : List String → Result (List ℤ)
unfolding keep traverse int_of_text
parse_expert_list parts = do
  experts ←
      traverse
        (λ (item : String). elim (int_of_text item) as (λ x. Result ℤ) [
          | none ↦ err (value_error "invalid literal for int()")
          | some n ↦ ok n
        ])
        (keep (λ item. not (str_eq item "")) parts)
  reject (is_empty experts) (value_error "experts must contain at least one budget")
  ok experts

module _ {F : Type 0} (arithmetic : ScoreArithmetic F) where
  open arithmetic use {literal, of_count, sum, product, less}

  abbrev pub numbered : ℕ → List F → List (ℕ × F)
  numbered i [] = []
  numbered i (x ∷ xs) = (i, x) ∷ numbered (i + 1) xs

  -- The key `(-count, expert)`: higher counts first, then lower experts.
  unfoldable pub ranks_before : ℕ × F → ℕ × F → Bool
  ranks_before (i, x) (j, y) = if less y x then true else if less x y then false else leb i j

  -- `_rank_layer`
  unfoldable pub rank_layer : List F → List ℕ
  unfolding sort_by ranks_before
  rank_layer counts = map (λ (p : ℕ × F). p.0) (sort_by ranks_before (numbered 0 counts))

  abbrev band_base : ℕ → F
  band_base rank =
      if ltb rank 4
      then literal "3.0"
      else if ltb rank 8
      then literal "2.0"
      else if ltb rank 16
      then literal "1.0"
      else literal "0.0"

  -- `_rank_banded_score`, for a rank and an expert below 64 and a layer below 16
  unfoldable pub rank_banded_score : ℕ → ℕ → ℕ → F
  rank_banded_score rank layer expert =
      let rank_bonus = product (of_count (64 - rank)) (literal "1.0e-4") in
      let layer_bonus = product (of_count (15 - layer)) (literal "1.0e-7") in
      let expert_bonus = product (of_count (63 - expert)) (literal "1.0e-9") in
      sum (sum (sum (band_base rank) rank_bonus) layer_bonus) expert_bonus

  -- What a layer contributes: its scores, and its first 4, 8 and 16 experts.
  pub record LayerRanks : Type 0 where
    pub scores : List (ℕ × F)
    pub top4 : List ℕ
    pub top8 : List ℕ
    pub top16 : List ℕ

  unfoldable pub score_from : ℕ → ℕ → List ℕ → List (ℕ × F)
  unfolding rank_banded_score
  score_from rank layer [] = []
  score_from rank layer (expert ∷ experts) =
      (expert, rank_banded_score rank layer expert) ∷ score_from (rank + 1) layer experts

  unfoldable pub rank_one : ℕ → List F → LayerRanks
  unfolding rank_layer score_from
  rank_one layer counts =
      let order = rank_layer counts in
      record {
        scores = score_from 0 layer order;
        top4 = take 4 order;
        top8 = take 8 order;
        top16 = take 16 order;
      }

  -- `rank_banded_logical_count`, over the layers from `layer` on
  unfoldable pub rank_banded_logical_count : ℕ → List (List F) → List LayerRanks
  unfolding rank_one
  rank_banded_logical_count layer [] = []
  rank_banded_logical_count layer (counts ∷ rest) =
      rank_one layer counts ∷ rank_banded_logical_count (layer + 1) rest
