-- ===== src/Kernels.antt =====
-- tilepo/backends/common.py: the reference computations of the backends, over matrices as lists of
-- rows. The arithmetic of floats is a parameter; all numbers are floats.
pub mod Shapes
pub mod Routed
pub mod Returns
use tile_mem.Common.{
  ◌==◌, str_eq, if◌then◌else◌, length, get_elem?, is_empty, keep, range, ℤ, pos, pos_part, ltb_ℤ,
  value_error, Result, err, ok, ◌>>=◌, ◌>>◌, reject, traverse, contains, ℕ, ◌+◌, ◌/◌, ◌%◌, String,
  Bool, true, not, ◌&&◌, ◌||◌, none, some, List, [], ◌∷◌, map,
}

-- The operations on floats that the code uses: `round(x * k) / k` is `rounded`, which raises where `x`
-- is infinite or not a number, and `value / (1 + exp(-value))` is `silu`, which raises where the
-- exponential overflows.
pub record Arithmetic : Type 1 where
  pub Float : Type 0
  pub nought : Float
  pub add : Float → Float → Float
  pub mul : Float → Float → Float
  pub rounded : ℕ → Float → Result Float
  pub silu : Float → Result Float

-- `validate_manifest`, over the keys of a manifest
abbrev pub required_fields : List String
required_fields =
    "tile_offsets" ∷ "tile_bytes" ∷ "tile_dtype_map" ∷ "scale_offsets" ∷ "gpu_hot_tiles"
    ∷ "fallback_chain" ∷ "backend_priority" ∷ "runtime_gates" ∷ "checksum" ∷ []

unfoldable pub validate_manifest : List String → Result (List String)
unfolding keep contains
validate_manifest fields =
    if is_empty (keep (λ name. not (contains name fields)) required_fields)
    then ok fields
    else err (value_error "manifest missing fields")

module _ (ar : Arithmetic) where
  open ar use {Float, nought, add, mul, rounded, silu}

  abbrev pub Vector : Type 0
  Vector = List Float

  abbrev pub Matrix : Type 0
  Matrix = List Vector

  -- `sum(x * y for …)` over two rows of one length
  unfoldable pub dot_from : Float → Vector → Vector → Float
  dot_from total [] ys = total
  dot_from total (x ∷ xs) [] = total
  dot_from total (x ∷ xs) (y ∷ ys) = dot_from (add total (mul x y)) xs ys

  -- `row[col]`, where the row is long enough
  unfoldable pub entry : ℕ → Vector → Float
  entry col row = elim (get_elem? row col) as (λ x. Float) [ some x ↦ x | none ↦ nought ]

  unfoldable pub column : Matrix → ℕ → Vector
  unfolding entry
  column b col = map (entry col) b

  -- Every row has this length.
  unfoldable pub has_width : ℕ → Matrix → Bool
  has_width width [] = true
  has_width width (row ∷ rows) = (length row == width) && has_width width rows

  unfoldable pub row_times : Vector → Matrix → ℕ → Vector
  unfolding dot_from column range
  row_times row b cols = map (λ col. dot_from nought row (column b col)) (range cols)

  abbrev pub width_of : Matrix → ℕ
  width_of [] = 0
  width_of (row ∷ rows) = length row

  unfoldable pub matmul : Matrix → Matrix → Result Matrix
  unfolding has_width row_times
  matmul a b = if is_empty a || is_empty b then ok [] else (do
    reject (not (has_width (length b) a)) (value_error "left matrix has incompatible shape")
    reject (not (has_width (width_of b) b)) (value_error "right matrix is ragged")
    ok (map (λ row. row_times row b (width_of b)) a))

  unfoldable pub quantize_value : String → Float → Result Float
  quantize_value dtype value =
      if str_eq dtype "bf16"
      then ok value
      else if str_eq dtype "fp8"
      then rounded 16 value
      else if str_eq dtype "mxfp4"
      then rounded 4 value
      else err (value_error "unsupported dtype")

  -- `_quantize_matrix`
  unfoldable pub quantize_matrix : String → Matrix → Result Matrix
  unfolding traverse quantize_value
  quantize_matrix dtype matrix = traverse (traverse (quantize_value dtype)) matrix

  unfoldable pub quantized_matmul : Matrix → Matrix → String → Result Matrix
  unfolding quantize_matrix matmul
  quantized_matmul a b dtype = do
    qa ← quantize_matrix dtype a
    qb ← quantize_matrix dtype b
    matmul qa qb

  -- `_vec_matmul`
  unfoldable pub vec_matmul : Vector → Matrix → Result Vector
  unfolding has_width row_times
  vec_matmul vector matrix = do
    reject (not (length vector == length matrix))
        (value_error "vector and matrix have incompatible shape")
    reject (not (has_width (width_of matrix) matrix)) (value_error "matrix is ragged")
    ok (row_times vector matrix (width_of matrix))

  -- `[_silu(fused[i]) * fused[i + inter] for i in range(inter)]`
  unfoldable pub activate : Vector → ℕ → Result Vector
  unfolding entry range traverse
  activate fused inter =
      traverse (λ i. do gate ← silu (entry i fused); ok (mul gate (entry (i + inter) fused)))
        (range inter)

  -- `output[index] += score * value`
  unfoldable pub accumulate : Float → Vector → Vector → Vector
  accumulate score [] values = []
  accumulate score (x ∷ output) [] = x ∷ output
  accumulate score (x ∷ output) (v ∷ values) = add x (mul score v) ∷ accumulate score output values

  -- The weights of an expert, whose number has to be in both lists
  unfoldable pub expert_weights : List Matrix → List Matrix → ℤ → Result (Matrix × Matrix)
  expert_weights gate_up down expert =
      if ltb_ℤ expert (pos 0)
      then err (value_error "expert id out of range")
      else elim (get_elem? gate_up (pos_part expert)) as (λ x. Result (Matrix × Matrix)) [
        | none ↦ err (value_error "expert id out of range")
        | some g ↦ elim (get_elem? down (pos_part expert)) as (λ x. Result (Matrix × Matrix)) [
          | none ↦ err (value_error "expert id out of range")
          | some d ↦ ok (g, d)
        ]
      ]

  -- What one expert makes of the hidden values
  unfoldable pub expert_output : String → Vector → Matrix → Matrix → Result Vector
  unfolding quantize_matrix vec_matmul activate
  expert_output dtype hidden gate_up down = do
    gate_up_matrix ← quantize_matrix dtype gate_up
    down_matrix ← quantize_matrix dtype down
    fused ← vec_matmul hidden gate_up_matrix
    reject (not ((length fused % 2) == 0)) (value_error "gate_up projection width must be even")
    activated ← activate fused (length fused / 2)
    vec_matmul activated down_matrix

  -- One round of the loop over the experts
  unfoldable pub add_expert :
      String → List Matrix → List Matrix → Vector → ℤ × Float → Vector → Result Vector
  unfolding expert_weights expert_output accumulate
  add_expert dtype gate_up down hidden (expert, score) output = do
    weights ← expert_weights gate_up down expert
    values ← expert_output dtype hidden weights.0 weights.1
    reject (not (length values == length output))
        (value_error "down projection output width must match hidden size")
    ok (accumulate score output values)

  unfoldable pub add_experts :
      String → List Matrix → List Matrix → Vector → List (ℤ × Float) → Vector → Result Vector
  unfolding add_expert
  add_experts dtype gate_up down hidden [] output = ok output
  add_experts dtype gate_up down hidden (item ∷ items) output = do
    next ← add_expert dtype gate_up down hidden item output
    add_experts dtype gate_up down hidden items next

  abbrev pub zip : List ℤ → Vector → List (ℤ × Float)
  zip [] ys = []
  zip (x ∷ xs) [] = []
  zip (x ∷ xs) (y ∷ ys) = (x, y) ∷ zip xs ys

  unfoldable pub routed_moe :
      Vector → List Matrix → List Matrix → List ℤ → Vector → String → Result Vector
  unfolding traverse quantize_value add_experts
  routed_moe hidden gate_up down expert_ids router_scores dtype =
      if not (length expert_ids == length router_scores)
      then err (value_error "expert_ids and router_scores must have the same length")
      else if is_empty hidden
      then ok []
      else if is_empty gate_up || is_empty down
      then err (value_error "gate_up and down weights must not be empty")
      else (do
        values ← traverse (quantize_value dtype) hidden
        add_experts dtype gate_up down values (zip expert_ids router_scores)
            (map (λ x. nought) values))
