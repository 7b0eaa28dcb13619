-- ===== src/Compiler/Tiles/Generated.antt =====
-- What every generated tile is: its place in the loops and its size.
use tile_mem.Common.{
  range_from, range, All, All-append, All-map, pos, pos_part, ◌-ℤ◌, ◌*◌, ◌/◌, max, ap, ◌<ℤ◌, Result,
  ok, ◌>>=◌, traverse, >>=-eq-ok, >>-eq-ok, ok-injective, ℕ, zero, suc, ◌+◌, ◌<◌, String, ◌≡◌, refl,
  subst, List, [], ◌∷◌, ◌++◌, arith,
}
use tile_mem.Mir.Enums.{TileDType, bf16, fp8, fp6, fp4, mxfp4}
use tile_mem.Mir.TileId.{TileId, post_init, new_tile_id, IsTileId, post_init_iff}
use tile_mem.Mir.Model.{TileIr}
use tile_mem.Compiler.Shards.{Shard}
use tile_mem.Compiler.Tiles.{
  tile_bytes, make_tile, traverse_concat, group_tiles, expert_tiles, layer_tiles, lower_tiles,
}

traverse-All :
    {A B : Type 0} (P : B → Type 0) (f : A → Result B)
    → ((x : A) (y : B) → f x ≡ ok y → P y)
    → (xs : List A) (ys : List B) → traverse f xs ≡ ok ys
    → All P ys
unfolding traverse
traverse-All P f h [] ys e = subst (All P) (ok-injective e) tt
traverse-All P f h (x ∷ xs) ys e =
    let (y, ey, e') = >>=-eq-ok (f x) (λ y. do zs ← traverse f xs; ok (y ∷ zs)) e in
    let (zs, ezs, e'') = >>=-eq-ok (traverse f xs) (λ zs. ok (y ∷ zs)) e' in
    subst (All P) (ok-injective e'') (h x y ey, traverse-All P f h xs zs ezs)

traverse_concat-All :
    {A B : Type 0} (Q : A → Type 0) (P : B → Type 0) (f : A → Result (List B))
    → ((x : A) (ys : List B) → Q x → f x ≡ ok ys → All P ys)
    → (xs : List A) (ys : List B) → All Q xs
    → traverse_concat f xs ≡ ok ys
    → All P ys
unfolding traverse_concat
traverse_concat-All Q P f h [] ys q e = subst (All P) (ok-injective e) tt
traverse_concat-All Q P f h (x ∷ xs) ys (qx, q) e =
    let (us, eu, e') = >>=-eq-ok (f x) (λ us. do vs ← traverse_concat f xs; ok (us ++ vs)) e in
    let (vs, ev, e'') = >>=-eq-ok (traverse_concat f xs) (λ vs. ok (us ++ vs)) e' in
    subst (All P) (ok-injective e'')
      (All-append P us vs (h x us qx eu) (traverse_concat-All Q P f h xs vs q ev))

range_from-below : (from n : ℕ) → All (λ i. i < from + n) (range_from from n)
unfolding range_from
range_from-below from zero = tt
range_from-below from (suc n) = (
  omega arith,
  All-map (λ i h. omega (arith, h)) (range_from (from + 1) n) (range_from-below (from + 1) n),
)

range-below : (n : ℕ) → All (λ i. i < n) (range n)
unfolding range
range-below n = All-map (λ i h. omega (arith, h)) (range_from 0 n) (range_from-below 0 n)

All-any : {A : Type 0} (xs : List A) → All (λ (x : A). Unit {0}) xs
All-any [] = tt
All-any (x ∷ xs) = (tt, All-any xs)

-- How many bits the code counts for a weight of a type: whatever is not "bf16" or "fp8" takes four.
abbrev pub bits_of : TileDType → ℕ
bits_of bf16 = 16
bits_of fp8 = 8
bits_of fp6 = 4
bits_of fp4 = 4
bits_of mxfp4 = 4

-- Where a generated tile stands, and what it holds.
pub record IsGenerated (hidden_size : ℕ) (dtype : TileDType) (layers budget : ℕ) (t : TileIr)
    : Type 0 where
  pub well_formed : IsTileId t.tile_id
  pub layer_below : t.tile_id.layer <ℤ pos layers
  pub expert_below : t.tile_id.expert <ℤ pos budget
  pub its_dtype : t.dtype ≡ dtype
  pub its_bytes :
      t.bytes
      ≡ pos (
          max 1 (
            max 1 (pos_part (t.tile_id.n_end -ℤ t.tile_id.n_start) * hidden_size)
            * bits_of dtype
            / 8))

half : (n : ℕ) → n / 2 ≡ n * 4 / 8
half n = omega arith

tile_bytes-bits :
    (t : TileId) (hidden_size : ℕ) (dtype : TileDType)
    → tile_bytes t hidden_size dtype
      ≡ max 1 (max 1 (pos_part (t.n_end -ℤ t.n_start) * hidden_size) * bits_of dtype / 8)
unfolding tile_bytes
tile_bytes-bits t hidden_size bf16 = omega arith
tile_bytes-bits t hidden_size fp8 = omega arith
tile_bytes-bits t hidden_size fp6 = ap (max 1) (half _)
tile_bytes-bits t hidden_size fp4 = ap (max 1) (half _)
tile_bytes-bits t hidden_size mxfp4 = ap (max 1) (half _)

make_tile-IsGenerated :
    (hidden_size : ℕ) (dtype : TileDType) (layers budget layer expert : ℕ) (group : String)
    → layer < layers
    → expert < budget
    → (s : Shard) (t : TileIr) → make_tile hidden_size dtype layer expert group s ≡ ok t
    → IsGenerated hidden_size dtype layers budget t
unfolding make_tile new_tile_id
make_tile-IsGenerated hidden_size dtype layers budget layer expert group hl he (n, a, b) t e =
    let t₀ : TileId = record {
      layer = pos layer;
      expert = pos expert;
      projection_group = group;
      shard_id = pos n;
      n_start = pos a;
      n_end = pos b;
    } in
    let (id, made, e') =
      >>=-eq-ok (new_tile_id (pos layer) (pos expert) group (pos n) (pos a) (pos b)) _ e in
    let (valid, same) = >>-eq-ok (post_init t₀) (ok t₀) made in
    let is : t₀ ≡ id = ok-injective same in
    subst (IsGenerated hidden_size dtype layers budget) (ok-injective e') (record {
      well_formed = subst IsTileId is ((post_init_iff t₀).0 valid);
      layer_below = subst (λ x. x.layer <ℤ pos layers) is (omega (arith, hl));
      expert_below = subst (λ x. x.expert <ℤ pos budget) is (omega (arith, he));
      its_dtype = refl;
      its_bytes = ap pos (tile_bytes-bits id hidden_size dtype);
    })

pub lower_tiles-All :
    (ranges : ℕ → String → Result (List Shard)) (hidden_size : ℕ) (dtype : TileDType)
    (layers budget : ℕ) (groups : List String) (tiles : List TileIr)
    → lower_tiles ranges hidden_size dtype layers budget groups ≡ ok tiles
    → All (IsGenerated hidden_size dtype layers budget) tiles
unfolding lower_tiles layer_tiles expert_tiles group_tiles
lower_tiles-All ranges hidden_size dtype layers budget groups tiles e =
    let P = IsGenerated hidden_size dtype layers budget in
    traverse_concat-All (λ i. i < layers) P _
      (λ layer ts hl.
        traverse_concat-All (λ i. i < budget) P _
          (λ expert us he.
            traverse_concat-All (λ (g : String). Unit {0}) P _
              (λ group vs h d.
                let (shards, found, made) = >>=-eq-ok (ranges expert group) _ d in
                traverse-All P _
                  (make_tile-IsGenerated hidden_size dtype layers budget layer expert group hl he)
                  shards vs made)
              groups us (All-any groups))
          (range budget) ts (range-below budget))
      (range layers) tiles (range-below layers) e
