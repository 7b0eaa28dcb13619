-- ===== src/Mir/Manifest/Packing.antt =====
-- No two tiles of a manifest share a byte.
use tile_mem.Common.{
  Bool-cases, All, All-map, ℤ, pos, ◌+ℤ◌, ◌≤ℤ◌, ◌<ℤ◌, eqb_ℤ, +ℤ_parts, int_laws, Dict, lookup,
  insert, insert_cases, ok, >>-eq-ok, ok-injective, sort_by-All, String, ◌≡◌, subst, ◌≢◌, ◌⊎◌, inl,
  inr, some, List, [], ◌∷◌, arith,
}
use tile_mem.Mir.TileId.{stable_key}
use tile_mem.Mir.Model.{TileIr, ModelIr, model_validate}
use tile_mem.Mir.Validity.Models.{model_validate_iff}
use tile_mem.Mir.Manifest.{
  Layout, empty_layout, place_scale, place_tile, place_tiles, Manifest, build_manifest,
}
use tile_mem.Values.{Floats}

-- Ranges of a file, one under each key: `offsets` says where they begin, `sizes` how long they are.
-- All of them end at most at `total`, and those of different keys are disjoint.
pub record IsPacked (offsets sizes : Dict ℤ) (total : ℤ) : Type 0 where
  pub total_nonneg : pos 0 ≤ℤ total
  pub within :
      (k : String) (o b : ℤ)
      → lookup k offsets ≡ some o
      → lookup k sizes ≡ some b
      → (pos 0 ≤ℤ o) × (o +ℤ b ≤ℤ total)
  pub apart :
      (j k : String) (o₁ b₁ o₂ b₂ : ℤ)
      → j ≢ k
      → lookup j offsets ≡ some o₁
      → lookup j sizes ≡ some b₁
      → lookup k offsets ≡ some o₂
      → lookup k sizes ≡ some b₂
      → (o₁ +ℤ b₁ ≤ℤ o₂) ⊎ (o₂ +ℤ b₂ ≤ℤ o₁)

IsPacked-empty : IsPacked [] [] (pos 0)
unfolding lookup
IsPacked-empty = record {
  total_nonneg = omega arith;
  within = λ k o b p q. cc;
  apart = λ j k o₁ b₁ o₂ b₂ ne p q r s. cc;
}

module _ {offsets sizes : Dict ℤ} {total : ℤ} (h : IsPacked offsets sizes total) (key : String)
    (bytes : ℤ) (positive : pos 0 ≤ℤ bytes) where
  within_append :
      (k : String) (o b : ℤ)
      → lookup k (insert key total offsets) ≡ some o
      → lookup k (insert key bytes sizes) ≡ some b
      → (pos 0 ≤ℤ o) × (o +ℤ b ≤ℤ total +ℤ bytes)
  within_append k o b p q = ground (
    arith,
    insert_cases key k total o offsets p,
    insert_cases key k bytes b sizes q,
    h.within k o b,
    h.total_nonneg,
    +ℤ_parts total bytes,
    +ℤ_parts o b,
  )

  apart_append :
      (j k : String) (o₁ b₁ o₂ b₂ : ℤ)
      → j ≢ k
      → lookup j (insert key total offsets) ≡ some o₁
      → lookup j (insert key bytes sizes) ≡ some b₁
      → lookup k (insert key total offsets) ≡ some o₂
      → lookup k (insert key bytes sizes) ≡ some b₂
      → (o₁ +ℤ b₁ ≤ℤ o₂) ⊎ (o₂ +ℤ b₂ ≤ℤ o₁)
  apart_append j k o₁ b₁ o₂ b₂ ne p q r s = ground (
    arith,
    insert_cases key j total o₁ offsets p,
    insert_cases key j bytes b₁ sizes q,
    insert_cases key k total o₂ offsets r,
    insert_cases key k bytes b₂ sizes s,
    h.within j o₁ b₁,
    h.within k o₂ b₂,
    h.apart j k o₁ b₁ o₂ b₂,
  )

  IsPacked-append : IsPacked (insert key total offsets) (insert key bytes sizes) (total +ℤ bytes)
  IsPacked-append = record {
    total_nonneg = let nonneg = h.total_nonneg in omega int_laws;
    within = within_append;
    apart = apart_append;
  }

-- The weight ranges and the scale ranges of a layout.
pub record IsLaidOut (l : Layout) : Type 0 where
  pub weights : IsPacked l.tile_offsets l.tile_bytes l.offset
  pub scales : IsPacked l.scale_offsets l.scale_bytes l.scale_offset

-- What `validate` guarantees of a tile's sizes.
abbrev HasSizes : TileIr → Type 0
HasSizes t = (pos 0 <ℤ t.bytes) × (pos 0 ≤ℤ t.scale_bytes)

place_scale-IsPacked :
    (key : String) (bytes : ℤ) (l : Layout)
    → pos 0 ≤ℤ bytes
    → IsPacked l.scale_offsets l.scale_bytes l.scale_offset
    → let l' = place_scale key bytes l in IsPacked l'.scale_offsets l'.scale_bytes l'.scale_offset
unfolding place_scale
place_scale-IsPacked key bytes l nonneg h = elim (Bool-cases (eqb_ℤ bytes (pos 0))) [
  | inl e ↦ rw e h
  | inr e ↦ rw e (IsPacked-append h key bytes nonneg)
]

place_scale-weights :
    (key : String) (bytes : ℤ) (l : Layout)
    → IsPacked l.tile_offsets l.tile_bytes l.offset
    → let l' = place_scale key bytes l in IsPacked l'.tile_offsets l'.tile_bytes l'.offset
unfolding place_scale
place_scale-weights key bytes l h = elim (Bool-cases (eqb_ℤ bytes (pos 0))) [
  | inl e ↦ rw e h
  | inr e ↦ rw e h
]

place_tile-IsLaidOut :
    (l : Layout) (t : TileIr) → HasSizes t → IsLaidOut l → IsLaidOut (place_tile l t)
unfolding place_tile
place_tile-IsLaidOut l t (size, scale) h = record {
  weights =
      place_scale-weights (stable_key t.tile_id) t.scale_bytes _
        (IsPacked-append h.weights (stable_key t.tile_id) t.bytes (omega arith));
  scales = place_scale-IsPacked (stable_key t.tile_id) t.scale_bytes _ scale h.scales;
}

place_tiles-IsLaidOut :
    (l : Layout) (ts : List TileIr) → All HasSizes ts → IsLaidOut l → IsLaidOut (place_tiles l ts)
unfolding place_tiles
place_tiles-IsLaidOut l [] s h = h
place_tiles-IsLaidOut l (t ∷ ts) (p, s) h =
    place_tiles-IsLaidOut (place_tile l t) ts s (place_tile-IsLaidOut l t p h)

-- In a manifest that was built, the weight ranges of two tiles with different keys are disjoint and
-- end at most at the final offset, and so are their scale ranges.
pub build_manifest-IsLaidOut :
    (digest : Manifest → String) (fl : Floats) (m : ModelIr fl.Float) (manifest : Manifest)
    → build_manifest digest fl m ≡ ok manifest
    → IsLaidOut manifest.layout
unfolding build_manifest
build_manifest-IsLaidOut digest fl m manifest h =
    let (valid, e) = >>-eq-ok (model_validate fl m) _ h in
    subst (λ (x : Manifest). IsLaidOut x.layout) (ok-injective e)
      (place_tiles-IsLaidOut empty_layout _
        (sort_by-All _ HasSizes m.tiles (
          All-map (λ t v. (v.bytes_positive, v.scale_nonneg)) m.tiles
            ((model_validate_iff fl m).0 valid).tiles_valid))
        (record { weights = IsPacked-empty; scales = IsPacked-empty }))
