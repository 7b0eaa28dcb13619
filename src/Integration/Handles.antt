-- ===== src/Integration/Handles.antt =====
-- The handles of a manifest, the dispatch plan and the registry.
use mathlib.Core.List.{Perm}
use tile_mem.Common.{
  str_eq, if◌then◌else◌, str_eq_iff, Bool-cases, Option-cases, length, keep, length-keep-le, All, ℤ,
  pos, ◌<ℤ◌, leb_ℤ, lookup, ok, text_leb, contains, sort_by, sort_by-perm, get_or, StandsFor,
  get_or-StandsFor, StandsFor-unique, none, sym, ap, ◌+◌, ◌-◌, String, ◌≡◌, refl, subst, ◌↔◌, ◌⊎◌,
  inl, inr, Bool, true, false, some, List, [], ◌∷◌, map, arith,
}
use tile_mem.Integration.{
  no_tile_id, format_name, default_backend, BackendCapability, TileHandle, supports_format,
  supports_layout, supports_projection_group, supports_handle, BackendRegistry, get_capability,
  replace_dispatchable, tile_handle, is_dispatchable, resolve, build_tile_handles, DispatchPlan,
  payload_bytes, benchmark_dispatch_plan,
}
use tile_mem.Mir.Manifest.{Manifest}
use tile_mem.Mir.Formats.{TileFormat}
use tile_mem.Mir.TileId.{TileId}

-- A dispatched tile has somewhere to run: the fallback, or a registered backend that lists its
-- format, its scale layout and its projection group.
pub Runs : BackendRegistry → TileHandle → Type 0
Runs registry h =
    (h.backend ≡ "kt_fallback")
    ⊎ ((c : BackendCapability) × (lookup h.backend registry ≡ some c)
        × (contains h.format c.formats ≡ true)
        × (contains h.scale_layout c.layouts ≡ true)
        × (contains h.projection_group c.projection_groups ≡ true))

is_dispatchable_iff :
    (registry : BackendRegistry) (h : TileHandle)
    → (is_dispatchable registry h ≡ true) ↔ Runs registry h
unfolding is_dispatchable Runs get_capability supports_handle supports_format supports_layout
    supports_projection_group
is_dispatchable_iff registry h = (runs, dispatched)
  where
    runs : is_dispatchable registry h ≡ true → Runs registry h
    runs e = elim (Bool-cases (str_eq h.backend "kt_fallback")) [
      | inl same ↦ inl ((str_eq_iff h.backend "kt_fallback").0 same)
      | inr other ↦ inr (elim (Option-cases (lookup h.backend registry)) [
        | inl absent ↦ ground (arith, e, other, absent)
        | inr (c, there) ↦ (
          c,
          there,
          ground (arith, e, other, there),
          ground (arith, e, other, there),
          ground (arith, e, other, there),
        )
      ])
    ]

    dispatched : Runs registry h → is_dispatchable registry h ≡ true
    dispatched (inl e) = ground (arith, str_eq_iff h.backend "kt_fallback", e)
    dispatched (inr (c, there, f, l, g)) = ground (arith, there, f, l, g)

-- The name of a tile's format: that of the format that is mapped to it, or of its type.
HasFormat : Manifest → String → String → String → Type 0
HasFormat m key dtype name =
    ((f : TileFormat) × (lookup key m.layout.tile_format_map ≡ some f) × (name ≡ f.name))
    ⊎ ((lookup key m.layout.tile_format_map ≡ none) × (name ≡ dtype))

-- A tile of a manifest has somewhere to run: its owner, which by default is the fallback for "bf16" and
-- an external backend for other types, is the fallback, or is registered with the tile's format, scale
-- layout and projection group among its own.
unfoldable pub RunsIn : Manifest → BackendRegistry → String → Type 0
unfolding HasFormat
RunsIn m registry key =
    (dtype owner format layout : String) × (id : TileId) × StandsFor m.layout.tile_dtype_map key
      "bf16" dtype
    × StandsFor m.layout.backend_owner_map key
        (if str_eq dtype "bf16" then "kt_fallback" else "external") owner
    × HasFormat m key dtype format
    × StandsFor m.layout.scale_layout_map key "none" layout
    × StandsFor m.layout.tile_ids key no_tile_id id
    × ((owner ≡ "kt_fallback")
        ⊎ ((c : BackendCapability) × (lookup owner registry ≡ some c)
            × (contains format c.formats ≡ true)
            × (contains layout c.layouts ≡ true)
            × (contains id.projection_group c.projection_groups ≡ true)))

format_name-HasFormat :
    (m : Manifest) (key dtype : String)
    → HasFormat m key dtype (format_name dtype (lookup key m.layout.tile_format_map))
unfolding HasFormat
format_name-HasFormat m key dtype = elim (Option-cases (lookup key m.layout.tile_format_map)) [
  | inl e ↦ inr (e, rw e refl)
  | inr (f, e) ↦ inl (f, e, rw e refl)
]

HasFormat-unique :
    (m : Manifest) (key dtype name : String)
    → HasFormat m key dtype name
    → format_name dtype (lookup key m.layout.tile_format_map) ≡ name
unfolding HasFormat
HasFormat-unique m key dtype name (inl (f, e, same)) = rw e (sym same)
HasFormat-unique m key dtype name (inr (e, same)) = rw e (sym same)

-- What a handle says of its tile.
unfoldable pub IsHandle : Manifest → BackendRegistry → TileHandle → Type 0
unfolding RunsIn
IsHandle m registry h =
    ((h.dispatchable ≡ true) ↔ RunsIn m registry h.stable_key)
    × ((str_eq h.residency "vram" ≡ true) ↔ (contains h.stable_key m.gpu_hot_tiles ≡ true))

in_vram_iff : (hot : Bool) → (str_eq (if hot then "vram" else "dram") "vram" ≡ true) ↔ (hot ≡ true)
in_vram_iff true = (λ h. refl, λ h. refl)
in_vram_iff false = (λ h. h, λ h. h)

module _ (m : Manifest) (registry : BackendRegistry) where
  Runs-RunsIn : (item : String × ℤ) → Runs registry (tile_handle m item) → RunsIn m registry item.0
  unfolding Runs RunsIn tile_handle default_backend
  Runs-RunsIn (key, offset) runs =
      let h = tile_handle m (key, offset) in
      let l = m.layout in
      (
        h.dtype,
        h.backend,
        h.format,
        h.scale_layout,
        get_or key no_tile_id l.tile_ids,
        get_or-StandsFor l.tile_dtype_map key "bf16",
        get_or-StandsFor l.backend_owner_map key _,
        format_name-HasFormat m key h.dtype,
        get_or-StandsFor l.scale_layout_map key "none",
        get_or-StandsFor l.tile_ids key no_tile_id,
        runs,
      )

  RunsIn-Runs : (item : String × ℤ) → RunsIn m registry item.0 → Runs registry (tile_handle m item)
  unfolding Runs RunsIn tile_handle default_backend
  RunsIn-Runs (key, offset)
        (
          dtype, owner, format, layout, id, its_dtype, its_owner, its_format, its_layout, its_id,
          runs,
        ) =
      let l = m.layout in
      let e₁ = StandsFor-unique l.tile_dtype_map key "bf16" dtype its_dtype in
      let e₂ = StandsFor-unique l.backend_owner_map key _ owner its_owner in
      let e₃ = HasFormat-unique m key dtype format its_format in
      let e₄ = StandsFor-unique l.scale_layout_map key "none" layout its_layout in
      let e₅ = StandsFor-unique l.tile_ids key no_tile_id id its_id in
      rw (e₁) (rw (e₂, e₃, e₄, e₅) runs)

  resolve-IsHandle : (item : String × ℤ) → IsHandle m registry (resolve m registry item)
  unfolding IsHandle resolve tile_handle replace_dispatchable
  resolve-IsHandle item =
      let h = tile_handle m item in
      let (runs, dispatched) = is_dispatchable_iff registry h in
      (
        (λ e. Runs-RunsIn item (runs e), λ there. dispatched (RunsIn-Runs item there)),
        in_vram_iff (contains item.0 m.gpu_hot_tiles),
      )

  resolve-All :
      (items : List (String × ℤ)) → All (IsHandle m registry) (map (resolve m registry) items)
  resolve-All [] = tt
  resolve-All (item ∷ items) = (resolve-IsHandle item, resolve-All items)

  resolve-items :
      (items : List (String × ℤ))
      → map (λ (h : TileHandle). (h.stable_key, h.weight_offset)) (map (resolve m registry) items)
        ≡ items
  unfolding resolve tile_handle replace_dispatchable
  resolve-items [] = refl
  resolve-items (item ∷ items) = ap (λ rest. item ∷ rest) (resolve-items items)

  -- There is one handle for each tile of the manifest, with its key and its offset. A handle is
  -- dispatchable exactly if its tile has somewhere to run by what the manifest maps to its key, and lies
  -- in "vram" exactly if its tile is hot.
  pub build_tile_handles-All :
      Perm
        (map (λ (h : TileHandle). (h.stable_key, h.weight_offset)) (build_tile_handles m registry))
        m.layout.tile_offsets
      × All (IsHandle m registry) (build_tile_handles m registry)
  unfolding build_tile_handles
  build_tile_handles-All =
      let before : String × ℤ → String × ℤ → Bool = λ a b. text_leb a.0 b.0 in
      let items = sort_by before m.layout.tile_offsets in
      (
        subst (λ l. Perm l m.layout.tile_offsets) (sym (resolve-items items))
            (sort_by-perm before m.layout.tile_offsets),
        resolve-All items,
      )

-- The dispatch plan of a positive number of iterations parts the handles in two.
pub benchmark_dispatch_plan_lem :
    (handles : List TileHandle) (iterations : ℤ)
    → pos 0 <ℤ iterations
    → (p : DispatchPlan) × (benchmark_dispatch_plan handles iterations ≡ ok p)
      × (p.dispatchable_tiles + p.fallback_tiles ≡ length handles)
unfolding benchmark_dispatch_plan
benchmark_dispatch_plan_lem handles iterations h =
    let positive : leb_ℤ iterations (pos 0) ≡ false = ground arith in
    let dispatchable = length (keep (λ (t : TileHandle). t.dispatchable) handles) in
    (
      record {
        tiles = length handles;
        dispatchable_tiles = dispatchable;
        fallback_tiles = length handles - dispatchable;
        iterations = iterations;
        estimated_payload_bytes = payload_bytes handles;
      },
      rw positive refl,
      omega (arith, length-keep-le (λ (t : TileHandle). t.dispatchable) handles),
    )
