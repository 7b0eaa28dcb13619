-- ===== src/Examples/Plans.antt =====
-- Shards, generated tiles, specifications and handles.
use mathlib.Core.List.{Perm}
use tile_mem.Common.{
  map, All, ℤ, dec, Result, ok, ◌>>=◌, ℕ, ◌*◌, ◌≤◌, min, max, String, ◌≡◌, refl, ◌↔◌, List, [], ◌∷◌,
  arith,
}
use tile_mem.Mir.Enums.{bf16, mode_of, backend_of, deployment_of}
use tile_mem.Mir.Model.{
  TileIr, tile_validate, route_validate, precision_validate, schedule_validate, ModelIr,
  residency_validate,
}
use tile_mem.Compiler.Shards.{Shard, fixed_shards, spec_shards, covering_shards}
use tile_mem.Compiler.Shards.Partition.{
  Covers, fixed_shards-Covers, covering_shards-eq-fixed_shards, covering_shards-Covers_iff,
}
use tile_mem.Compiler.Tiles.{lower_tiles}
use tile_mem.ModelInterface.{
  ModelSpec, a_spec, spec_validate, model_spec_from_dict, model_spec_to_dict, coerce_model_spec,
}
use tile_mem.ModelInterface.Specs.{model_spec_from_dict-to_dict}
use tile_mem.ModelInterface.Build.{build_mir_from_model_spec}
use tile_mem.ModelInterface.Build.Lowering.{IsLowered, build_mir_from_model_spec-IsLowered}
use tile_mem.Integration.{TileHandle, BackendRegistry, build_tile_handles}
use tile_mem.Integration.Handles.{IsHandle, build_tile_handles-All}
use tile_mem.Examples.{ints, toy_model, value_or, toy_manifest, toy_capability, toy_spec}
use tile_mem.Values.{int_of_text}

fixed_shards-Covers_example : Covers 0 (min 10 (max 1 3 * 4)) (fixed_shards 10 4 3)
fixed_shards-Covers_example = fixed_shards-Covers 10 4 3 (omega arith)

covering_shards-eq-fixed_shards_example : covering_shards 10 4 2 ≡ fixed_shards 10 4 2
covering_shards-eq-fixed_shards_example =
    covering_shards-eq-fixed_shards 10 4 2 (omega arith) (omega arith)

covering_shards-Covers_iff_example :
    Covers 0 (min 10 (max 1 2 * 4)) (covering_shards 10 4 2)
    × (Covers 0 10 (covering_shards 10 4 2) ↔ (10 ≤ max 1 2 * 4))
covering_shards-Covers_iff_example = covering_shards-Covers_iff 10 4 2 (omega arith) (omega arith)

toy_ranges : ℕ → String → Result (List Shard)
unfolding fixed_shards
toy_ranges expert group = ok (fixed_shards 8 4 2)

toy_tiles : List TileIr
unfolding lower_tiles toy_ranges
toy_tiles = value_or [] (lower_tiles toy_ranges 2 bf16 1 1 ("down" ∷ []))

built : ModelIr ℤ
unfolding build_mir_from_model_spec
built = value_or toy_model (build_mir_from_model_spec ints (a_spec toy_spec))

build_mir_from_model_spec-IsLowered_example :
    (s : ModelSpec ℤ) × (coerce_model_spec ints (a_spec toy_spec) ≡ ok s)
    × (spec_validate ints s ≡ ok tt)
    × IsLowered ints s built
unfolding built spec_shards mode_of deployment_of backend_of dec route_validate int_of_text
    tile_validate residency_validate precision_validate schedule_validate
build_mir_from_model_spec-IsLowered_example =
    build_mir_from_model_spec-IsLowered ints (a_spec toy_spec) built refl

model_spec_from_dict-to_dict_example :
    (model_spec_to_dict ints toy_spec >>= model_spec_from_dict ints) ≡ ok toy_spec
unfolding spec_validate
model_spec_from_dict-to_dict_example = model_spec_from_dict-to_dict ints toy_spec refl

abbrev toy_registry : BackendRegistry
toy_registry = (toy_capability.name, toy_capability) ∷ []

build_tile_handles-All_example :
    Perm
      (map
        (λ (h : TileHandle). (h.stable_key, h.weight_offset))
        (build_tile_handles toy_manifest toy_registry))
      toy_manifest.layout.tile_offsets
    × All (IsHandle toy_manifest toy_registry) (build_tile_handles toy_manifest toy_registry)
build_tile_handles-All_example = build_tile_handles-All toy_manifest toy_registry
