-- ===== src/Mir/Documents.antt =====
-- `ModelIR.to_dict`, `model_from_dict` and `validate_mir_dict` together: a model survives the way
-- through its document.
use tile_mem.Common.{
  All, ok, traverse, >>=-eq-ok, ok-injective, ◌≡◌, refl, subst, List, [], ◌∷◌, map,
}
use tile_mem.Values.{str, dict, Fields, Floats, get, as_dict, to_str}
use tile_mem.Values.RoundTrip.{list_of-items_of}
use tile_mem.Mir.TileId.{IsTileId}
use tile_mem.Mir.Model.{RouteIr, ModelIr, model_validate}
use tile_mem.Mir.Encode.{
  mir_schema_version, public_mir_interface, tile_to_dict, route_to_dict, model_to_dict,
}
use tile_mem.Mir.Decode.{nested, route_from_dict, model_from_dict, validate_mir_dict}
use tile_mem.Mir.RoundTrip.{
  IsChainItem, route_from_dict-to_dict, residency_from_dict-to_dict, precision_from_dict-to_dict,
  schedule_from_dict-to_dict, tiles_read,
}

-- What the constructors guarantee of a model: its tile ids passed their checks, and the texts of
-- its fallback chain are no dtypes.
pub record IsBuilt {F : Type 0} (m : ModelIr F) : Type 0 where
  pub tile_ids : All (λ t. IsTileId t.tile_id) m.tiles
  pub hot_tile_ids : All IsTileId m.residency.gpu_hot_tiles
  pub chain_items : All IsChainItem m.residency.fallback_chain

module _ (fl : Floats) where
  open fl use {Float}

  routes_read :
      (rs : List RouteIr)
      → traverse (nested fl (route_from_dict fl)) (map (λ r. dict (route_to_dict fl r)) rs) ≡ ok rs
  unfolding traverse as_dict
  routes_read [] = refl
  routes_read (r ∷ rs) = rw (route_from_dict-to_dict fl r, routes_read rs)

  -- The document of a model whose tile ids passed their checks and whose fallback chain spells no
  -- dtype as a text is read back as the same model.
  pub model_from_dict-to_dict :
      (m : ModelIr Float) (d : Fields Float)
      → IsBuilt m
      → model_to_dict fl m ≡ ok d
      → model_from_dict fl d ≡ ok m
  unfolding model_to_dict model_from_dict
  model_from_dict-to_dict m d b h =
      let (ds, et, e) = >>=-eq-ok (traverse (tile_to_dict fl) m.tiles) _ h in
      subst (λ x. model_from_dict fl x ≡ ok m) (ok-injective e)
        (rw (
          list_of-items_of (map (λ r. dict (route_to_dict fl r)) m.routes),
          routes_read m.routes,
          list_of-items_of {F = Float} (map dict ds),
          tiles_read fl m.tiles ds b.tile_ids et,
          residency_from_dict-to_dict fl m.residency b.hot_tile_ids b.chain_items,
          precision_from_dict-to_dict fl m.precision,
          schedule_from_dict-to_dict fl m.schedule,
        ))

  header_read :
      (m : ModelIr Float) (d : Fields Float)
      → model_to_dict fl m ≡ ok d
      → (to_str fl (get "schema_version" (str "") d) ≡ mir_schema_version)
        × (to_str fl (get "public_interface" (str public_mir_interface) d) ≡ public_mir_interface)
  unfolding model_to_dict get to_str
  header_read m d h =
      let (ds, et, e) = >>=-eq-ok (traverse (tile_to_dict fl) m.tiles) _ h in
      subst
        (λ x.
          (to_str fl (get "schema_version" (str "") x) ≡ mir_schema_version)
          × (to_str fl (get "public_interface" (str public_mir_interface) x)
              ≡ public_mir_interface))
        (ok-injective e) (refl, refl)

  -- The document of such a model passes or fails `validate_mir_dict` as the model passes or fails
  -- `validate`, with the same error.
  pub validate_mir_dict-to_dict :
      (m : ModelIr Float) (d : Fields Float)
      → IsBuilt m
      → model_to_dict fl m ≡ ok d
      → validate_mir_dict fl d ≡ model_validate fl m
  unfolding validate_mir_dict
  validate_mir_dict-to_dict m d b h =
      let (version, interface) = header_read m d h in
      rw (version, interface, model_from_dict-to_dict m d b h)
