-- ===== src/Runtime/Metrics.antt =====
-- tilepo/runtime/metrics.py: the counters of a runtime. The four timings, which are read off the
-- wall clock, are left out.
use tile_mem.Common.{ℤ, pos, Dict, insert, get_or, ℕ, ◌+◌, String, []}

pub record RuntimeMetrics : Type 0 where
  pub cache_hits : ℕ
  pub cache_misses : ℕ
  pub h2d_bytes : ℤ
  pub fallback_count : ℕ
  pub tilemem_backend_launch_count : ℕ
  pub tilelang_launch_count : ℕ
  pub cuda_launch_count : ℕ
  pub dtype_counts : Dict ℕ
  pub ablation_policy : String
  pub async_planning_mode : String
  pub tile_count : ℕ
  pub async_plan_cache_hits : ℕ
  pub async_plan_cache_misses : ℕ

abbrev pub fresh_metrics : RuntimeMetrics
fresh_metrics = record {
  cache_hits = 0;
  cache_misses = 0;
  h2d_bytes = pos 0;
  fallback_count = 0;
  tilemem_backend_launch_count = 0;
  tilelang_launch_count = 0;
  cuda_launch_count = 0;
  dtype_counts = [];
  ablation_policy = "";
  async_planning_mode = "";
  tile_count = 0;
  async_plan_cache_hits = 0;
  async_plan_cache_misses = 0;
}

unfoldable pub record_dtype : String → RuntimeMetrics → RuntimeMetrics
unfolding insert get_or
record_dtype dtype m = record m {
  dtype_counts = insert dtype (get_or dtype 0 m.dtype_counts + 1) m.dtype_counts;
}
