-- ===== src/Runtime/Engine.antt =====
-- `TileMEMRuntime` of tilepo/runtime/runtime.py. What a request's fallback and a backend's launch
-- deliver is a parameter, and a backend is its name with its `execute`.
pub mod Residency
pub mod Launches
pub mod Calls
pub mod Outcomes
pub mod Plans
pub mod Service
pub mod Reachable
use text.Mathlib.Text.{starts_with}
use Prim.Native.String.{◌++◌ as append}
use tile_mem.Common.{
  str_eq, if◌then◌else◌, length, is_empty, keep, ℤ, pos, ◌+ℤ◌, str_int, Dict, lookup, insert,
  get_or, Result, ok, err, ◌>>=◌, contains, unique, sorted_set, ◌+◌, ◌-◌, String, Bool, true, false,
  not, ◌&&◌, Option, none, some, List, [], ◌∷◌, ◌++◌,
}
use tile_mem.Mir.Enums.{Backend, kt_fallback, backend_of, backend_eq}
use tile_mem.Mir.Manifest.{Manifest}
use tile_mem.Runtime.Metrics.{RuntimeMetrics, fresh_metrics, record_dtype}
use tile_mem.Runtime.States.{
  gpu_resident, gpu_executing, residency_eq, TileStates, state_of, transition, mark_gpu_resident,
}

-- A request, with its keys' defaults where they are absent.
pub record Request (R : Type 0) : Type 0 where
  pub topk : List (ℤ × ℤ)
  pub force_gate_fail : Bool
  pub require_tilemem : Bool
  pub calibration_pass : Bool
  pub kt_output : Option R

-- `{"output": …, "source": "kt_fallback", "reason": …}`, or what a backend returned.
pub data Response (R : Type 0) : Type 0 where
  fell_back : Option R → String → Response R
  launched : R → Response R

pub record BackendHandle (R : Type 0) : Type 0 where
  pub name : String
  pub run : Request R → Manifest → Result R

-- `self`. The fields of `TileState` and `RuntimeMetrics` lie in it.
pub record Runtime (R : Type 0) : Type 0 where
  pub manifest : Manifest
  pub backends : Backend → Option (BackendHandle R)
  pub tile_state : TileStates
  pub metrics : RuntimeMetrics
  pub async_planning_enabled : Bool
  pub plan_cache : Dict (List String)

-- `ablation.get("policy", manifest.get("tilepo_policy", ""))`
abbrev ablation_policy_of : Manifest → String
ablation_policy_of m = elim m.tilepo_plan [
  | some plan ↦ plan.policy
  | none ↦ elim m.tilepo_policy [ some policy ↦ policy | none ↦ "" ]
]

abbrev async_mode_of : Manifest → String
async_mode_of m = elim m.tilepo_async_planning [
  | some mode ↦ mode
  | none ↦ elim m.tilepo_plan [
    | some plan ↦ if plan.async_planning then "on" else "off"
    | none ↦ "off"
  ]
]

-- `f"L{int(layer)}:E{int(expert)}:"`
abbrev pub expert_prefix : ℤ × ℤ → String
unfolding str_int
expert_prefix (layer, expert) =
    append "L" (append (str_int layer) (append ":E" (append (str_int expert) ":")))

-- `planned`, over the experts that the request names
unfoldable pub with_prefixes : List (ℤ × ℤ) → List String → List String
unfolding keep expert_prefix
with_prefixes [] hot = []
with_prefixes (pair ∷ pairs) hot =
    keep (λ tile. starts_with tile (expert_prefix pair)) hot ++ with_prefixes pairs hot

unfoldable pub lookup_tiles : {R : Type 0} → Manifest → Request R → List String
unfolding sorted_set unique with_prefixes
lookup_tiles m q =
    if is_empty q.topk
    then sorted_set m.gpu_hot_tiles
    else sorted_set (with_prefixes q.topk (unique m.gpu_hot_tiles))

unfoldable pub check_gates : {R : Type 0} → Manifest → Request R → List String → Bool
unfolding contains
check_gates m q planned =
    if q.force_gate_fail
    then false
    else if is_empty planned && q.require_tilemem
    then false
    else if contains "calibration" m.runtime_gates && not q.calibration_pass
    then false
    else true

-- `f"{int(layer)}:{int(expert)}"`
abbrev pair_key : ℤ × ℤ → String
unfolding str_int
pair_key (layer, expert) = append (str_int layer) (append ":" (str_int expert))

-- `"|".join(…)`
unfoldable pub join_keys : List (ℤ × ℤ) → String
unfolding pair_key
join_keys [] = ""
join_keys (pair ∷ pairs) = elim pairs [
  | [] ↦ pair_key pair
  | _ ∷ _ ↦ append (pair_key pair) (append "|" (join_keys pairs))
]

unfoldable pub plan_cache_key : {R : Type 0} → Request R → String
unfolding join_keys
plan_cache_key q = if is_empty q.topk then "__hotset__" else join_keys q.topk

-- One round of the loop of `_materialize_missing`; the bytes are counted whatever `mark_gpu_resident` did.
unfoldable pub materialize : {R : Type 0} → String → Runtime R → Result (Runtime R)
unfolding get_or mark_gpu_resident
materialize tile rt = do
  states ← mark_gpu_resident tile rt.tile_state
  ok (record rt {
    tile_state = states;
    metrics = record (rt.metrics) {
      h2d_bytes = rt.metrics.h2d_bytes +ℤ get_or tile (pos 0) rt.manifest.layout.tile_bytes;
    };
  })

unfoldable pub materialize_missing : {R : Type 0} → List String → Runtime R → Result (Runtime R)
unfolding materialize
materialize_missing [] rt = ok rt
materialize_missing (tile ∷ tiles) rt = do rt' ← materialize tile rt; materialize_missing tiles rt'

-- The tiles of the plan that are not on the GPU.
unfoldable pub missing_tiles : TileStates → List String → List String
unfolding keep state_of
missing_tiles states planned =
    keep (λ tile. not (residency_eq (state_of tile states) gpu_resident)) planned

-- `_select_backend`: names that are no backend, and the fallback, are passed over.
unfoldable pub select_backend :
    {R : Type 0} → (Backend → Option (BackendHandle R)) → List String → Option (BackendHandle R)
unfolding backend_of
select_backend backends [] = none
select_backend backends (name ∷ names) =
    let later = select_backend backends names in
    elim (backend_of name) [
      | none ↦ later
      | some backend ↦
          if backend_eq backend kt_fallback
          then later
          else elim (backends backend) [ some handle ↦ some handle | none ↦ later ]
    ]

-- The planned tiles, out of the plan cache when asynchronous planning is on.
unfoldable pub plan : {R : Type 0} → Request R → Runtime R → List String × Runtime R
unfolding lookup insert lookup_tiles plan_cache_key
plan q rt =
    let key = plan_cache_key q in
    let fresh = lookup_tiles rt.manifest q in
    if rt.async_planning_enabled
    then elim (lookup key rt.plan_cache) [
      | some cached ↦ (
        cached,
        record rt {
          metrics = record (rt.metrics) {
            async_plan_cache_hits = rt.metrics.async_plan_cache_hits + 1;
          };
        },
      )
      | none ↦ (
        fresh,
        record rt {
          metrics = record (rt.metrics) {
            async_plan_cache_misses = rt.metrics.async_plan_cache_misses + 1;
          };
          plan_cache = insert key fresh rt.plan_cache;
        },
      )
    ]
    else (fresh, rt)

unfoldable pub fallback : {R : Type 0} → Request R → String → Runtime R → Response R × Runtime R
fallback q reason rt = (
  fell_back q.kt_output reason,
  record rt { metrics = record (rt.metrics) { fallback_count = rt.metrics.fallback_count + 1 } },
)

-- The counting of hits and misses, and the transfer of the tiles that miss.
unfoldable pub make_resident : {R : Type 0} → List String → Runtime R → Result (Runtime R)
unfolding missing_tiles materialize_missing
make_resident planned rt =
    let missing = missing_tiles rt.tile_state planned in
    materialize_missing missing (record rt {
      metrics = record (rt.metrics) {
        cache_hits = rt.metrics.cache_hits + (length planned - length missing);
        cache_misses = rt.metrics.cache_misses + length missing;
      };
    })

-- The counters of a launch.
unfoldable pub count_launch : String → RuntimeMetrics → RuntimeMetrics
count_launch name m =
    let m' = record m { tilemem_backend_launch_count = m.tilemem_backend_launch_count + 1 } in
    if str_eq name "cuda"
    then record m' { cuda_launch_count = m.cuda_launch_count + 1 }
    else if str_eq name "tilelang"
    then record m' { tilelang_launch_count = m.tilelang_launch_count + 1 }
    else m'

-- `transition(tile, GPU_EXECUTING)` and back
unfoldable pub run_tile : String → TileStates → Result TileStates
unfolding transition
run_tile tile states = do s₁ ← transition tile gpu_executing states; transition tile gpu_resident s₁

-- One round of the loop after a launch.
unfoldable pub settle_tile : {R : Type 0} → String → Runtime R → Result (Runtime R)
unfolding run_tile get_or record_dtype state_of
settle_tile tile rt =
    let dtype = get_or tile "unknown" rt.manifest.layout.tile_dtype_map in
    let rt' = record rt { metrics = record_dtype dtype rt.metrics } in
    if residency_eq (state_of tile rt.tile_state) gpu_resident
    then run_tile tile rt.tile_state >>= (λ states. ok (record rt' { tile_state = states }))
    else ok rt'

unfoldable pub settle_tiles : {R : Type 0} → List String → Runtime R → Result (Runtime R)
unfolding settle_tile
settle_tiles [] rt = ok rt
settle_tiles (tile ∷ tiles) rt = do rt' ← settle_tile tile rt; settle_tiles tiles rt'

-- The outcome of a call, with the runtime that it leaves. An exception of the bookkeeping would
-- leave the runtime of before it.
abbrev pub either :
    {R A : Type 0}
    → Result A
    → Runtime R
    → (A → Result (Response R) × Runtime R)
    → Result (Response R) × Runtime R
either (ok a) rt f = f a
either (err e) rt f = (err e, rt)

unfoldable pub launch :
    {R : Type 0}
    → Request R
    → List String
    → BackendHandle R
    → Runtime R
    → Result (Response R) × Runtime R
unfolding count_launch settle_tiles
launch q planned backend rt = either (backend.run q rt.manifest) rt (λ result.
    let rt' = record rt { metrics = count_launch backend.name rt.metrics } in
    either (settle_tiles planned rt') rt' (λ rt''. (ok (launched result), rt'')))

abbrev pub answered : {R : Type 0} → Response R × Runtime R → Result (Response R) × Runtime R
answered (response, rt) = (ok response, rt)

-- What `execute` does once the planned tiles are on the GPU.
unfoldable pub execute_resident :
    {R : Type 0} → Request R → List String → Runtime R → Result (Response R) × Runtime R
unfolding select_backend launch fallback
execute_resident q planned rt = elim (select_backend rt.backends rt.manifest.backend_priority) [
  | none ↦ answered (fallback q "backend_unavailable" rt)
  | some backend ↦ launch q planned backend rt
]

-- What `execute` does once the tiles are planned.
unfoldable pub execute_plan :
    {R : Type 0} → Request R → List String → Runtime R → Result (Response R) × Runtime R
unfolding check_gates make_resident execute_resident fallback
execute_plan q planned rt =
    if check_gates rt.manifest q planned
    then either (make_resident planned rt) rt (execute_resident q planned)
    else answered (fallback q "gate_failed" rt)

unfoldable pub execute : {R : Type 0} → Request R → Runtime R → Result (Response R) × Runtime R
unfolding plan execute_plan
execute q rt = let (planned, rt') = plan q rt in execute_plan q planned rt'

unfoldable pub prefetch_plan : {R : Type 0} → Request R → Runtime R → Runtime R
unfolding insert lookup_tiles plan_cache_key
prefetch_plan q rt =
    if rt.async_planning_enabled
    then record rt {
      plan_cache = insert (plan_cache_key q) (lookup_tiles rt.manifest q) rt.plan_cache;
    }
    else rt

-- `__init__`
unfoldable pub new_runtime :
    {R : Type 0} → Manifest → (Backend → Option (BackendHandle R)) → Runtime R
new_runtime m backends = record {
  manifest = m;
  backends = backends;
  tile_state = [];
  metrics = record fresh_metrics {
    ablation_policy = ablation_policy_of m;
    async_planning_mode = async_mode_of m;
    tile_count = length m.layout.tile_offsets;
  };
  async_planning_enabled = str_eq (async_mode_of m) "on";
  plan_cache = [];
}
