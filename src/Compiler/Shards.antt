-- ===== src/Compiler/Shards.antt =====
-- `_fixed_shards` and `_covering_shards` of tilepo/compiler.py, and `_fixed_shards` of
-- tilepo/model_interface.py: how an extent is cut into shards `(shard, n_start, n_end)`.
pub mod Partition
use tile_mem.Common.{
  ltb, ◌==◌, if◌then◌else◌, range, ℕ, ◌+◌, ◌-◌, ◌*◌, ◌/◌, min, max, List, [], ◌∷◌,
}

abbrev pub Shard : Type 0
Shard = ℕ × ℕ × ℕ

-- The loop body of `_fixed_shards`, over the shard numbers that are left.
unfoldable pub fixed_loop : ℕ → ℕ → List ℕ → List Shard
fixed_loop extent tile_width [] = []
fixed_loop extent tile_width (shard ∷ shards) =
    let n_start = min extent (shard * tile_width) in
    let n_end = min extent (n_start + tile_width) in
    let rest = fixed_loop extent tile_width shards in
    if n_start == n_end then rest else (shard, n_start, n_end) ∷ rest

-- `_fixed_shards` of compiler.py: at least one shard.
unfoldable pub fixed_shards : ℕ → ℕ → ℕ → List Shard
unfolding fixed_loop range
fixed_shards extent tile_width shard_count =
    fixed_loop extent tile_width (range (max 1 shard_count))

-- `_fixed_shards` of model_interface.py: the count was checked to be positive before.
unfoldable pub spec_shards : ℕ → ℕ → ℕ → List Shard
unfolding fixed_loop range
spec_shards extent tile_width shard_count = fixed_loop extent tile_width (range shard_count)

-- The comprehension of `_covering_shards`.
unfoldable pub covering_loop : ℕ → ℕ → List ℕ → List Shard
covering_loop extent tile_width [] = []
covering_loop extent tile_width (shard ∷ shards) =
    let rest = covering_loop extent tile_width shards in
    if ltb (shard * tile_width) extent
    then (shard, shard * tile_width, min extent ((shard + 1) * tile_width)) ∷ rest
    else rest

unfoldable pub covering_shards : ℕ → ℕ → ℕ → List Shard
unfolding covering_loop range
covering_shards extent tile_width shard_count =
    let needed = (extent + tile_width - 1) / tile_width in
    let count = max 1 (min (max 1 shard_count) needed) in
    covering_loop extent tile_width (range count)
