-- ===== src/Mir/RoundTrip.antt =====
-- What the `to_dict` methods write, `from_dict` and `model_from_dict` read back.
use tile_mem.Common.{
  All, All-map, ℤ, Dict, Result, ok, ◌>>=◌, traverse, >>=-eq-ok, ok-injective, String, ◌≡◌, refl,
  sym, ◌∙◌, subst, Option, none, some, List, [], ◌∷◌, ◌++◌, map, arith,
}
use tile_mem.Values.{
  Value, int, str, dict, Fields, Floats, fields_of, as_dict, iterate, to_int, to_str,
}
use tile_mem.Values.RoundTrip.{
  list_of-items_of, entries-fields_of, traverse-map, traverse-map_every,
}
use tile_mem.Mir.Enums.{
  dtype_text, backend_text, dtype_of, to_dtype, to_backend, dtype_of-text, to_dtype-text,
  to_mode-text, to_backend-text, to_deployment-text,
}
use tile_mem.Mir.TileId.{
  TileId, IsTileId, tile_id_to_dict, tile_id_from_dict, tile_id_from_dict-to_dict,
}
use tile_mem.Mir.Formats.{
  format_to_dict, format_from_dict, scale_to_dict, scale_from_dict, format_from_dict-to_dict,
  scale_from_dict-to_dict,
}
use tile_mem.Mir.Model.{
  TileIr, RouteIr, ChainItem, dtype_item, text_item, ResidencyIr, PrecisionIr, ScheduleIr,
}
use tile_mem.Mir.Encode.{
  written_part, written_text, tile_to_dict, layer_entry, route_to_dict, chain_value,
  residency_to_dict, precision_to_dict, schedule_to_dict,
}
use tile_mem.Mir.Decode.{
  nested, tile_from_dict, read_layer, route_from_dict, chain_item, residency_from_dict,
  precision_from_dict, schedule_from_dict,
}

-- A text in a fallback chain is no text of a dtype, as `from_dict` would turn it into the dtype.
abbrev pub IsChainItem : ChainItem → Type 0
IsChainItem (dtype_item d) = Unit
IsChainItem (text_item s) = dtype_of s ≡ none

module _ (fl : Floats) where
  open fl use {Float}

  chain_item-value : (c : ChainItem) → IsChainItem c → chain_item fl (chain_value fl c) ≡ ok c
  unfolding chain_item
  chain_item-value (dtype_item d) h = rw (dtype_of-text d, chain_item)
  chain_item-value (text_item s) h = rw (h, chain_item)

  -- The document of an optional part, as an entry.
  abbrev doc_part : String → Option (Fields Float) → Dict (Value Float)
  doc_part key none = []
  doc_part key (some d) = (key, dict d) ∷ []

  abbrev read_doc :
      {A : Type 0} → (Fields Float → Result A) → Option (Fields Float) → Result (Option A)
  read_doc read none = ok none
  read_doc read (some d) = do a ← read d; ok (some a)

  part_written :
      {A : Type 0} (write : A → Result (Fields Float)) (read : Fields Float → Result A)
      (back : (a : A) (d : Fields Float) → write a ≡ ok d → read d ≡ ok a) (key : String)
      (o : Option A) (l : Dict (Value Float))
      → written_part fl key write o ≡ ok l
      → (od : Option (Fields Float)) × (l ≡ doc_part key od) × (read_doc read od ≡ ok o)
  part_written write read back key none l h = (none, sym (ok-injective h), refl)
  part_written write read back key (some a) l h =
      let (d, e, p) = >>=-eq-ok (write a) _ h in (some d, sym (ok-injective p), rw (back a d e))

  abbrev optional_texts : Option String → Option String → Option String → Dict (Value Float)
  optional_texts backend fallback_dtype fallback_backend =
      written_text fl "backend" backend
      ++ (written_text fl "fallback_dtype" fallback_dtype
          ++ written_text fl "fallback_backend" fallback_backend)

  abbrev document :
      Fields Float
      → String
      → ℤ
      → ℤ
      → Option (Fields Float)
      → Option (Fields Float)
      → Dict (Value Float)
      → Fields Float
  document tile_id dtype bytes scale_bytes format scale texts = fields_of (
      ("tile_id", dict tile_id)
      ∷ ("dtype", str dtype)
      ∷ ("bytes", int bytes)
      ∷ ("scale_bytes", int scale_bytes)
      ∷ (doc_part "format" format ++ (doc_part "scale" scale ++ texts)))

  -- Every part of a tile's document is found under its key.
  parts_found :
      (id : Fields Float) (dtype : String) (b s : ℤ) (format scale : Option (Fields Float))
      (backend fallback_dtype fallback_backend : Option String)
      → tile_from_dict fl (
          document id dtype b s format scale
            (optional_texts backend fallback_dtype fallback_backend))
        ≡ (do
          tile_id ← tile_id_from_dict fl id
          dt ← to_dtype {F = Float} (str dtype)
          f ← read_doc (format_from_dict fl) format
          sc ← read_doc (scale_from_dict fl) scale
          ok (record {
            tile_id = tile_id;
            dtype = dt;
            bytes = b;
            scale_bytes = s;
            format = f;
            scale = sc;
            backend = backend;
            fallback_dtype = fallback_dtype;
            fallback_backend = fallback_backend;
          }))
  unfolding tile_from_dict
  parts_found id dtype b s format scale backend fallback_dtype fallback_backend = ground arith

  assembled :
      (t : TileIr) (lf ls : Dict (Value Float)) (df ds : Option (Fields Float))
      → IsTileId t.tile_id
      → lf ≡ doc_part "format" df
      → ls ≡ doc_part "scale" ds
      → read_doc (format_from_dict fl) df ≡ ok t.format
      → read_doc (scale_from_dict fl) ds ≡ ok t.scale
      → tile_from_dict fl (
          fields_of (
            ("tile_id", dict (tile_id_to_dict fl t.tile_id))
            ∷ ("dtype", str (dtype_text t.dtype))
            ∷ ("bytes", int t.bytes)
            ∷ ("scale_bytes", int t.scale_bytes)
            ∷ (lf ++ (ls ++ optional_texts t.backend t.fallback_dtype t.fallback_backend))))
        ≡ ok t
  assembled t lf ls df ds v pf ps rf rs =
      rw (pf, ps)
        (parts_found (tile_id_to_dict fl t.tile_id) (dtype_text t.dtype) t.bytes t.scale_bytes df ds
            t.backend t.fallback_dtype t.fallback_backend
          ∙ rw (tile_id_from_dict-to_dict fl t.tile_id v, to_dtype-text Float t.dtype, rf, rs))

  -- What a successful `to_dict` of a tile wrote, `from_dict` reads back.
  pub tile_from_dict-to_dict :
      (t : TileIr) (d : Fields Float)
      → IsTileId t.tile_id
      → tile_to_dict fl t ≡ ok d
      → tile_from_dict fl d ≡ ok t
  unfolding tile_to_dict
  tile_from_dict-to_dict t d v h =
      let (lf, ef, h1) = >>=-eq-ok (written_part fl "format" (format_to_dict fl) t.format) _ h in
      let (ls, es, h2) = >>=-eq-ok (written_part fl "scale" (scale_to_dict fl) t.scale) _ h1 in
      let (df, pf, rf) =
        part_written (format_to_dict fl) (format_from_dict fl) (format_from_dict-to_dict fl)
          "format" t.format lf ef in
      let (ds, ps, rs) =
        part_written (scale_to_dict fl) (scale_from_dict fl) (scale_from_dict-to_dict fl) "scale"
          t.scale ls es in
      subst (λ x. tile_from_dict fl x ≡ ok t) (ok-injective h2)
        (assembled t lf ls df ds v pf ps rf rs)

  -- The other parts of a model.
  ints_read : (xs : List ℤ) → traverse (to_int fl) (map int xs) ≡ ok xs
  unfolding traverse to_int
  ints_read [] = refl
  ints_read (x ∷ xs) = rw (ints_read xs)

  layers_read : (l : Dict (List ℤ)) → traverse (read_layer fl) (map (layer_entry fl) l) ≡ ok l
  unfolding traverse iterate
  layers_read [] = refl
  layers_read ((k, xs) ∷ l) = rw (list_of-items_of (map int xs), ints_read xs, layers_read l)

  pub route_from_dict-to_dict : (r : RouteIr) → route_from_dict fl (route_to_dict fl r) ≡ ok r
  unfolding route_from_dict route_to_dict
  route_from_dict-to_dict r =
      rw (entries-fields_of (map (layer_entry fl) r.hot_experts), layers_read r.hot_experts)

  hot_tiles_read :
      (ts : List TileId)
      → All IsTileId ts
      → traverse (nested fl (tile_id_from_dict fl)) (map (λ t. dict (tile_id_to_dict fl t)) ts)
        ≡ ok ts
  unfolding traverse as_dict
  hot_tiles_read [] h = refl
  hot_tiles_read (t ∷ ts) (v, h) = rw (tile_id_from_dict-to_dict fl t v, hot_tiles_read ts h)

  pub residency_from_dict-to_dict :
      (r : ResidencyIr Float)
      → All IsTileId r.gpu_hot_tiles
      → All IsChainItem r.fallback_chain
      → residency_from_dict fl (residency_to_dict fl r) ≡ ok r
  unfolding residency_from_dict residency_to_dict
  residency_from_dict-to_dict r ht hc = rw (
    list_of-items_of (map (chain_value fl) r.fallback_chain),
    traverse-map (chain_value fl) (chain_item fl) r.fallback_chain
        (All-map chain_item-value r.fallback_chain hc),
    list_of-items_of (map (λ t. dict (tile_id_to_dict fl t)) r.gpu_hot_tiles),
    hot_tiles_read r.gpu_hot_tiles ht,
  )

  pub precision_from_dict-to_dict :
      (p : PrecisionIr) → precision_from_dict fl (precision_to_dict fl p) ≡ ok p
  unfolding precision_from_dict precision_to_dict
  precision_from_dict-to_dict p = rw (
    list_of-items_of {F = Float} (map (λ d. str (dtype_text d)) p.allowed),
    traverse-map_every (λ d. str (dtype_text d)) to_dtype p.allowed (to_dtype-text Float),
  )

  texts_read : (xs : List String) → map (to_str fl) (map str xs) ≡ xs
  unfolding to_str
  texts_read [] = refl
  texts_read (x ∷ xs) = rw (texts_read xs)

  pub schedule_from_dict-to_dict :
      (s : ScheduleIr) → schedule_from_dict fl (schedule_to_dict fl s) ≡ ok s
  unfolding schedule_from_dict schedule_to_dict
  schedule_from_dict-to_dict s = rw (
    to_mode-text Float s.mode,
    to_deployment-text Float s.deployment_mode,
    list_of-items_of {F = Float} (map (λ b. str (backend_text b)) s.backend_priority),
    traverse-map_every (λ b. str (backend_text b)) to_backend s.backend_priority
        (to_backend-text Float),
    list_of-items_of {F = Float} (map str s.runtime_gates),
    texts_read s.runtime_gates,
  )

  pub tiles_read :
      (ts : List TileIr) (ds : List (Fields Float))
      → All (λ t. IsTileId t.tile_id) ts
      → traverse (tile_to_dict fl) ts ≡ ok ds
      → traverse (nested fl (tile_from_dict fl)) (map dict ds) ≡ ok ts
  unfolding traverse as_dict
  tiles_read [] ds h e =
      subst (λ x. traverse (nested fl (tile_from_dict fl)) (map dict x) ≡ ok []) (ok-injective e)
        refl
  tiles_read (t ∷ ts) ds (v, h) e =
      let (d, et, e1) = >>=-eq-ok (tile_to_dict fl t) _ e in
      let (rest, er, e2) = >>=-eq-ok (traverse (tile_to_dict fl) ts) _ e1 in
      subst (λ x. traverse (nested fl (tile_from_dict fl)) (map dict x) ≡ ok (t ∷ ts))
        (ok-injective e2) (rw (tile_from_dict-to_dict t d v et, tiles_read ts rest h er))
