-- ===== src/Examples/Documents.antt =====
-- Documents, manifests and specifications of the small model.
use tile_mem.Common.{ℤ, ok, traverse, ℕ, ◌≡◌, refl, ◌↔◌, arith}
use tile_mem.Values.{Fields, end, int_of_text}
use tile_mem.Mir.TileId.{IsTileId}
use tile_mem.Mir.Model.{
  tile_validate, route_validate, precision_validate, schedule_validate, residency_validate,
  model_validate,
}
use tile_mem.Mir.Encode.{tile_to_dict, model_to_dict}
use tile_mem.Mir.Decode.{model_from_dict, validate_mir_dict}
use tile_mem.Mir.Documents.{IsBuilt, model_from_dict-to_dict, validate_mir_dict-to_dict}
use tile_mem.Mir.Validity.Models.{IsModel, model_validate_iff}
use tile_mem.Mir.Manifest.Packing.{IsLaidOut, build_manifest-IsLaidOut}
use tile_mem.Examples.{ints, toy_id, toy_model, value_or, toy_digest, toy_manifest}
use tile_mem.Mir.Enums.{dtype_of}

toy_document : Fields ℤ
unfolding model_to_dict
toy_document = value_or end (model_to_dict ints toy_model)

toy_id-IsTileId : (n : ℕ) → IsTileId (toy_id n)
toy_id-IsTileId n = record {
  layer_nonneg = omega arith;
  expert_nonneg = omega arith;
  shard_nonneg = omega arith;
  nonempty = omega arith;
}

toy_model-IsBuilt : IsBuilt toy_model
unfolding dtype_of
toy_model-IsBuilt = record {
  tile_ids = (toy_id-IsTileId 0, (toy_id-IsTileId 1, tt));
  hot_tile_ids = (toy_id-IsTileId 0, (toy_id-IsTileId 1, tt));
  chain_items = (tt, (refl, tt));
}

model_from_dict-to_dict_example : model_from_dict ints toy_document ≡ ok toy_model
unfolding toy_document traverse tile_to_dict
model_from_dict-to_dict_example =
    model_from_dict-to_dict ints toy_model toy_document toy_model-IsBuilt refl

validate_mir_dict-to_dict_example :
    validate_mir_dict ints toy_document ≡ model_validate ints toy_model
unfolding toy_document traverse tile_to_dict
validate_mir_dict-to_dict_example =
    validate_mir_dict-to_dict ints toy_model toy_document toy_model-IsBuilt refl

model_validate_iff_example : (model_validate ints toy_model ≡ ok tt) ↔ IsModel ints toy_model
model_validate_iff_example = model_validate_iff ints toy_model

build_manifest-IsLaidOut_example : IsLaidOut toy_manifest.layout
unfolding toy_manifest route_validate int_of_text tile_validate residency_validate
    precision_validate schedule_validate
build_manifest-IsLaidOut_example =
    build_manifest-IsLaidOut toy_digest ints toy_model toy_manifest refl
