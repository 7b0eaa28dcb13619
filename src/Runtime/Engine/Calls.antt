-- ===== src/Runtime/Engine/Calls.antt =====
-- What a call of `execute` answers, and where it leaves the tiles and the counters.
use tile_mem.Common.{
  if◌then◌else◌, length, length-keep-le, ◌+ℤ◌, +ℤ_zero, Dict, get_or, Result, ok, err, contains,
  contains-keep, ◌+◌, ◌-◌, ◌≤◌, String, ◌≡◌, refl, ◌∙◌, true, false, not, none, some, List, [], ◌∷◌,
  arith,
}
use tile_mem.Runtime.States.{gpu_resident, residency_eq, TileStates, state_of}
use tile_mem.Runtime.Metrics.{RuntimeMetrics, record_dtype}
use tile_mem.Runtime.Engine.{
  Request, Response, fell_back, launched, Runtime, check_gates, missing_tiles, select_backend,
  fallback, count_launch,
}
use tile_mem.Runtime.Engine.Residency.{Brought, total_bytes, transferred}
use tile_mem.Runtime.Engine.Launches.{on_gpu_iff, Same, record_dtypes}

-- missing first, then present: the tiles that are not brought are on the GPU already
Brought-missing :
    (planned : List String) (s s' : TileStates)
    → Brought (missing_tiles s planned) s s'
    → Brought planned s s'
unfolding Brought missing_tiles
Brought-missing planned s s' b = λ j. ground (
  arith,
  b j,
  contains-keep (λ tile. not (residency_eq (state_of tile s) gpu_resident)) j planned,
  on_gpu_iff (state_of j s),
)

-- Three counters that the bookkeeping of a launch leaves as they are.
unfoldable pub SameCounters : RuntimeMetrics → RuntimeMetrics → Type 0
SameCounters m m' =
    (m'.cache_hits ≡ m.cache_hits)
    × (m'.cache_misses ≡ m.cache_misses)
    × (m'.h2d_bytes ≡ m.h2d_bytes)

count_launch-SameCounters :
    (name : String) (m : RuntimeMetrics) → SameCounters m (count_launch name m)
unfolding SameCounters count_launch
count_launch-SameCounters name m = (ground arith, ground arith, ground arith)

record_dtypes-SameCounters :
    (dtypes : Dict String) (tiles : List String) (m : RuntimeMetrics)
    → SameCounters m (record_dtypes dtypes tiles m)
unfolding record_dtypes record_dtype SameCounters
record_dtypes-SameCounters dtypes [] m = (refl, refl, refl)
record_dtypes-SameCounters dtypes (tile ∷ tiles) m =
    record_dtypes-SameCounters dtypes tiles (record_dtype (get_or tile "unknown" dtypes) m)

pub launch-SameCounters :
    (name : String) (dtypes : Dict String) (tiles : List String) (m : RuntimeMetrics)
    → SameCounters m (record_dtypes dtypes tiles (count_launch name m))
unfolding SameCounters
launch-SameCounters name dtypes tiles m =
    let (h, k, b) = count_launch-SameCounters name m in
    let (h', k', b') = record_dtypes-SameCounters dtypes tiles (count_launch name m) in
    (h' ∙ h, k' ∙ k, b' ∙ b)

module _ {R : Type 0} where
  -- The answer, with no word of the bookkeeping: the fallback if a gate fails or no backend is
  -- there, else what the backend returns or raises.
  abbrev pub answer : Request R → List String → Runtime R → Result (Response R)
  answer q planned rt =
      if check_gates rt.manifest q planned
      then elim (select_backend rt.backends rt.manifest.backend_priority) [
        | none ↦ ok (fell_back q.kt_output "backend_unavailable")
        | some backend ↦ elim (backend.run q rt.manifest) [
          | ok result ↦ ok (launched result)
          | err e ↦ err e
        ]
      ]
      else ok (fell_back q.kt_output "gate_failed")

  -- The tiles that the call brings to the GPU.
  abbrev pub brought : Request R → List String → Runtime R → List String
  brought q planned rt = if check_gates rt.manifest q planned then planned else []

  -- The transfers of a call.
  abbrev pub moved : Request R → List String → Runtime R → List String
  moved q planned rt =
      if check_gates rt.manifest q planned then missing_tiles rt.tile_state planned else []

  -- What a call with those planned tiles does to a runtime.
  pub record Effect (q : Request R) (planned : List String) (rt rt' : Runtime R) : Type 0 where
    pub keeps_manifest : rt'.manifest ≡ rt.manifest
    pub keeps_backends : rt'.backends ≡ rt.backends
    pub states : Brought (brought q planned rt) rt.tile_state rt'.tile_state
    pub hits :
        rt'.metrics.cache_hits
        ≡ rt.metrics.cache_hits + (length (brought q planned rt) - length (moved q planned rt))
    pub misses : rt'.metrics.cache_misses ≡ rt.metrics.cache_misses + length (moved q planned rt)
    pub bytes :
        rt'.metrics.h2d_bytes
        ≡ rt.metrics.h2d_bytes +ℤ total_bytes rt.manifest.layout.tile_bytes (moved q planned rt)

  -- What the two ends of a call add to the transfer: nothing that an effect speaks of.
  pub Effect-then :
      (q : Request R) (planned : List String) (rt rt' : Runtime R) (s : TileStates)
      (m : RuntimeMetrics)
      → Effect q planned rt rt'
      → Same rt'.tile_state s
      → SameCounters rt'.metrics m
      → Effect q planned rt (record rt' { tile_state = s; metrics = m })
  unfolding Brought Same SameCounters
  Effect-then q planned rt rt' s m h same (hits, misses, bytes) = record {
    keeps_manifest = h.keeps_manifest;
    keeps_backends = h.keeps_backends;
    states = λ j. same j ∙ h.states j;
    hits = hits ∙ h.hits;
    misses = misses ∙ h.misses;
    bytes = bytes ∙ h.bytes;
  }

  pub closed_gate-Effect :
      (q : Request R) (planned : List String) (rt : Runtime R)
      → check_gates rt.manifest q planned ≡ false
      → Effect q planned rt (fallback q "gate_failed" rt).1
  unfolding fallback Brought contains total_bytes
  closed_gate-Effect q planned rt e = record {
    keeps_manifest = refl;
    keeps_backends = refl;
    states = λ j. rw e refl;
    hits = rw e (omega arith);
    misses = rw e (omega arith);
    bytes = rw (e, +ℤ_zero rt.metrics.h2d_bytes) refl;
  }

  -- The runtime once the hits and misses are counted.
  abbrev pub counted : List String → Runtime R → Runtime R
  counted planned rt = record rt {
    metrics = record (rt.metrics) {
      cache_hits =
          rt.metrics.cache_hits + (length planned - length (missing_tiles rt.tile_state planned));
      cache_misses = rt.metrics.cache_misses + length (missing_tiles rt.tile_state planned);
    };
  }

  abbrev pub resident : List String → TileStates → Runtime R → Runtime R
  resident planned s rt = transferred (missing_tiles rt.tile_state planned) s (counted planned rt)

  pub open_gate-Effect :
      (q : Request R) (planned : List String) (s : TileStates) (rt : Runtime R)
      → check_gates rt.manifest q planned ≡ true
      → Brought (missing_tiles rt.tile_state planned) rt.tile_state s
      → Effect q planned rt (resident planned s rt)
  open_gate-Effect q planned s rt e b = record {
    keeps_manifest = refl;
    keeps_backends = refl;
    states = rw e (Brought-missing planned rt.tile_state s b);
    hits = rw e refl;
    misses = rw e refl;
    bytes = rw e refl;
  }

  pub length-moved :
      (q : Request R) (planned : List String) (rt : Runtime R)
      → length (moved q planned rt) ≤ length (brought q planned rt)
  unfolding missing_tiles
  length-moved q planned rt = ground (
    arith,
    length-keep-le (λ tile. not (residency_eq (state_of tile rt.tile_state) gpu_resident)) planned,
  )
