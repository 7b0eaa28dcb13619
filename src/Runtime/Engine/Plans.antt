-- ===== src/Runtime/Engine/Plans.antt =====
-- The planned tiles of a request, and the calls that use them.
use text.Mathlib.Text.{starts_with}
use tile_mem.Common.{
  str_eq_refl, Bool-cases, Option-cases, is_empty, any, keep, ℤ, Dict, lookup, insert,
  lookup-insert, contains, unique, contains-append, contains-keep, contains-unique,
  contains-sorted_set, ◌+◌, String, ◌≡◌, refl, sym, ap, ◌∙◌, inl, inr, Bool, true, false, ◌&&◌,
  ◌||◌, some, List, [], ◌∷◌, arith,
}
use tile_mem.Mir.Manifest.{Manifest}
use tile_mem.Runtime.Engine.{
  Request, Runtime, expert_prefix, with_prefixes, lookup_tiles, plan_cache_key, plan, execute_plan,
  execute, prefetch_plan,
}
use tile_mem.Runtime.Metrics.{RuntimeMetrics}
use tile_mem.Runtime.Engine.Residency.{Settled}
use tile_mem.Runtime.Engine.Calls.{SameCounters, answer, Effect}
use tile_mem.Runtime.Engine.Outcomes.{Done, execute_plan-Done}

contains-with_prefixes :
    (tile : String) (pairs : List (ℤ × ℤ)) (hot : List String)
    → contains tile (with_prefixes pairs hot)
      ≡ (contains tile hot && any (λ pair. starts_with tile (expert_prefix pair)) pairs)
unfolding with_prefixes any contains
contains-with_prefixes tile [] hot = ground arith
contains-with_prefixes tile (pair ∷ pairs) hot =
    let p : String → Bool = λ t. starts_with t (expert_prefix pair) in
    rw
      (
        contains-append tile (keep p hot) (with_prefixes pairs hot),
        contains-keep p tile hot,
        contains-with_prefixes tile pairs hot,
      )
      (ground arith)

module _ {R : Type 0} where
  -- A tile is planned exactly if it is a hot tile of the manifest and, when the request names
  -- experts, its key begins with the prefix of one of them.
  pub lookup_tiles-contains :
      (m : Manifest) (q : Request R) (tile : String)
      → contains tile (lookup_tiles m q) ≡ (
          contains tile m.gpu_hot_tiles
          && (is_empty q.topk || any (λ pair. starts_with tile (expert_prefix pair)) q.topk))
  unfolding lookup_tiles
  lookup_tiles-contains m q tile = elim (Bool-cases (is_empty q.topk)) [
    | inl e ↦ rw (e, contains-sorted_set tile m.gpu_hot_tiles) (ground arith)
    | inr e ↦
        rw
          (
            e,
            contains-sorted_set tile (with_prefixes q.topk (unique m.gpu_hot_tiles)),
            contains-with_prefixes tile q.topk (unique m.gpu_hot_tiles),
            contains-unique tile m.gpu_hot_tiles,
          )
          (ground arith)
  ]

  off_lem :
      (q : Request R) (rt : Runtime R) → rt.async_planning_enabled ≡ false → (plan q rt).1 ≡ rt
  unfolding plan
  off_lem q rt off = simp (off) refl

  -- Planning touches the plan cache and two counters, and leaves what the rest of a call reads.
  planned_runtime :
      (q : Request R) (rt : Runtime R)
      → (m : RuntimeMetrics) × (cache : Dict (List String)) × ((plan q rt).1
          ≡ record rt { metrics = m; plan_cache = cache })
        × SameCounters rt.metrics m
  unfolding SameCounters plan
  planned_runtime q rt = elim (Bool-cases rt.async_planning_enabled) [
    | inr off ↦ (rt.metrics, rt.plan_cache, off_lem q rt off, (refl, refl, refl))
    | inl on ↦ elim (Option-cases (lookup (plan_cache_key q) rt.plan_cache)) [
      | inl absent ↦ (
        record (rt.metrics) { async_plan_cache_misses = rt.metrics.async_plan_cache_misses + 1 },
        insert (plan_cache_key q) (lookup_tiles rt.manifest q) rt.plan_cache,
        simp (on, absent) refl,
        (refl, refl, refl),
      )
      | inr (cached, there) ↦ (
        record (rt.metrics) { async_plan_cache_hits = rt.metrics.async_plan_cache_hits + 1 },
        rt.plan_cache,
        simp (on, there) refl,
        (refl, refl, refl),
      )
    ]
  ]

  Effect-rebase :
      (q : Request R) (planned : List String) (rt rt' : Runtime R) (m : RuntimeMetrics)
      (cache : Dict (List String))
      → SameCounters rt.metrics m
      → Effect q planned (record rt { metrics = m; plan_cache = cache }) rt'
      → Effect q planned rt rt'
  unfolding SameCounters
  Effect-rebase q planned rt rt' m cache (hits, misses, bytes) h = record {
    keeps_manifest = h.keeps_manifest;
    keeps_backends = h.keeps_backends;
    states = h.states;
    hits = rw (sym hits) h.hits;
    misses = rw (sym misses) h.misses;
    bytes = rw (sym bytes) h.bytes;
  }

  pub execute-Done :
      (q : Request R) (rt : Runtime R)
      → Settled rt.tile_state
      → (rt' : Runtime R) × (execute q rt ≡ (answer q (plan q rt).0 rt, rt'))
        × Effect q (plan q rt).0 rt rt'
  unfolding execute Done
  execute-Done q rt h =
      let planned = (plan q rt).0 in
      let (m, cache, e, same) = planned_runtime q rt in
      let (rt', answers, effect) =
        execute_plan-Done q planned (record rt { metrics = m; plan_cache = cache }) h in
      (
        rt',
        ap (execute_plan q planned) e ∙ answers,
        Effect-rebase q planned rt rt' m cache same effect,
      )

  -- After `prefetch_plan`, with asynchronous planning on, `execute` plans the request's tiles out of
  -- the cache, and they are the tiles that the lookup finds.
  pub prefetch_plan-plan :
      (q : Request R) (rt : Runtime R)
      → rt.async_planning_enabled ≡ true
      → ((plan q (prefetch_plan q rt)).0 ≡ lookup_tiles rt.manifest q)
        × ((plan q (prefetch_plan q rt)).1.metrics.async_plan_cache_hits
            ≡ rt.metrics.async_plan_cache_hits + 1)
  unfolding plan prefetch_plan
  prefetch_plan-plan q rt on =
      let key = plan_cache_key q in
      let found : lookup key (insert key (lookup_tiles rt.manifest q) rt.plan_cache)
          ≡ some (lookup_tiles rt.manifest q) =
        ground (
          arith,
          lookup-insert key key (lookup_tiles rt.manifest q) rt.plan_cache,
          str_eq_refl key,
        ) in
      (simp (on, found) refl, simp (on, found) refl)
