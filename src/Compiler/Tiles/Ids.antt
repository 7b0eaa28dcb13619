-- ===== src/Compiler/Tiles/Ids.antt =====
-- The ids of the generated tiles, in the order of the loops.
use mathlib.Core.List.{map-append}
use tile_mem.Common.{
  range, pos, ap, sym, ◌∙◌, map, concat_map, err, Result, ok, ◌>>=◌, traverse, >>=-eq-ok, >>-eq-ok,
  ok-injective, ℕ, String, ◌≡◌, refl, subst, List, [], ◌∷◌, ◌++◌,
}
use tile_mem.Mir.Enums.{TileDType}
use tile_mem.Mir.TileId.{TileId, post_init, new_tile_id}
use tile_mem.Mir.Model.{TileIr}
use tile_mem.Compiler.Shards.{Shard}
use tile_mem.Compiler.Tiles.{
  make_tile, traverse_concat, group_tiles, expert_tiles, layer_tiles, lower_tiles,
}

traverse-map :
    {A B C : Type 0} (g : B → C) (k : A → C) (f : A → Result B)
    → ((x : A) (y : B) → f x ≡ ok y → g y ≡ k x)
    → (xs : List A) (ys : List B) → traverse f xs ≡ ok ys
    → map g ys ≡ map k xs
unfolding traverse
traverse-map g k f h [] ys e = ap (map g) (sym (ok-injective e))
traverse-map g k f h (x ∷ xs) ys e =
    let (y, ey, e') = >>=-eq-ok (f x) (λ y. do zs ← traverse f xs; ok (y ∷ zs)) e in
    let (zs, ezs, e'') = >>=-eq-ok (traverse f xs) (λ zs. ok (y ∷ zs)) e' in
    ap (map g) (sym (ok-injective e'')) ∙ rw (h x y ey, traverse-map g k f h xs zs ezs) refl

traverse_concat-map :
    {A B C : Type 0} (g : B → C) (k : A → List C) (f : A → Result (List B))
    → ((x : A) (ys : List B) → f x ≡ ok ys → map g ys ≡ k x)
    → (xs : List A) (ys : List B) → traverse_concat f xs ≡ ok ys
    → map g ys ≡ concat_map k xs
unfolding traverse_concat concat_map
traverse_concat-map g k f h [] ys e = ap (map g) (sym (ok-injective e))
traverse_concat-map g k f h (x ∷ xs) ys e =
    let (us, eu, e') = >>=-eq-ok (f x) (λ us. do vs ← traverse_concat f xs; ok (us ++ vs)) e in
    let (vs, ev, e'') = >>=-eq-ok (traverse_concat f xs) (λ vs. ok (us ++ vs)) e' in
    ap (map g) (sym (ok-injective e''))
    ∙ map-append g us vs
    ∙ rw (h x us eu, traverse_concat-map g k f h xs vs ev) refl

-- The id of the tile of a shard
abbrev pub id_at : ℕ → ℕ → String → Shard → TileId
id_at layer expert group (shard, n_start, n_end) = record {
  layer = pos layer;
  expert = pos expert;
  projection_group = group;
  shard_id = pos shard;
  n_start = pos n_start;
  n_end = pos n_end;
}

-- The shards that were found
abbrev pub shards_or : Result (List Shard) → List Shard
shards_or (err e) = []
shards_or (ok shards) = shards

-- The ids of the tiles: the layers, in each its experts, of each its groups, and of each its shards.
unfoldable pub all_ids : (ℕ → String → Result (List Shard)) → ℕ → ℕ → List String → List TileId
unfolding concat_map range
all_ids ranges layers budget groups =
    concat_map
      (λ layer.
        concat_map
          (λ expert.
            concat_map (λ group. map (id_at layer expert group) (shards_or (ranges expert group)))
              groups)
          (range budget))
      (range layers)

make_tile-id :
    (hidden_size : ℕ) (dtype : TileDType) (layer expert : ℕ) (group : String) (s : Shard)
    (t : TileIr)
    → make_tile hidden_size dtype layer expert group s ≡ ok t
    → t.tile_id ≡ id_at layer expert group s
unfolding make_tile new_tile_id
make_tile-id hidden_size dtype layer expert group (n, a, b) t e =
    let t₀ = id_at layer expert group (n, a, b) in
    let (id, made, e') =
      >>=-eq-ok (new_tile_id (pos layer) (pos expert) group (pos n) (pos a) (pos b)) _ e in
    let (_, same) = >>-eq-ok (post_init t₀) (ok t₀) made in
    subst (λ (x : TileIr). x.tile_id ≡ t₀) (ok-injective e') (sym (ok-injective same))

pub lower_tiles-ids :
    (ranges : ℕ → String → Result (List Shard)) (hidden_size : ℕ) (dtype : TileDType)
    (layers budget : ℕ) (groups : List String) (tiles : List TileIr)
    → lower_tiles ranges hidden_size dtype layers budget groups ≡ ok tiles
    → map (λ (t : TileIr). t.tile_id) tiles ≡ all_ids ranges layers budget groups
unfolding lower_tiles layer_tiles expert_tiles group_tiles all_ids
lower_tiles-ids ranges hidden_size dtype layers budget groups tiles e =
    let id : TileIr → TileId = λ t. t.tile_id in
    traverse_concat-map id _ _
      (λ layer ts d.
        traverse_concat-map id _ _
          (λ expert us d.
            traverse_concat-map id _ _
              (λ group vs d.
                let (shards, found, made) = >>=-eq-ok (ranges expert group) _ d in
                rw (found) (
                  traverse-map id _ _ (make_tile-id hidden_size dtype layer expert group) shards vs
                    made))
              groups us d)
          (range budget) ts d)
      (range layers) tiles e
