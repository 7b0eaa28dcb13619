-- ===== src/Profiling.antt =====
-- tilepo/profiling/profiler.py: the summary of the rows of a profile. Finding and reading the files of
-- a profile is left out; the division and the logarithm of floats are parameters.
pub mod Hits
use Prim.Native.String.{◌++◌ as append}
use tile_mem.Common.{
  leb, str_eq, if◌then◌else◌, length, take, is_empty, keep, ℤ, pos, ◌+ℤ◌, leb_ℤ, eqb_ℤ, str_int,
  Dict, insert, get_or, Result, ok, ◌>>=◌, text_leb, contains, sort_by, ℕ, ◌+◌, max, String, Bool,
  true, not, ◌||◌, Option, none, some, List, [], ◌∷◌, ◌++◌, map,
}

-- The float arithmetic that the summary uses
pub record Ratios : Type 1 where
  pub Float : Type 0
  pub nought : Float
  pub one : Float
  pub ratio : ℤ → ℤ → Float
  pub sub : Float → Float → Float
  pub add : Float → Float → Float
  pub mul : Float → Float → Float
  pub div : Float → Float → Float
  -- `math.log`, which raises where its argument is not positive
  pub log : Float → Result Float
  pub of_count : ℕ → Float

-- A route of a trace, with its `count` (1 where it has none)
pub record Route : Type 0 where
  pub layer : ℤ
  pub expert : ℤ
  pub count : ℤ

-- A row: its `workload`, where it has one, its `route_trace`, its own `layer` and `expert`, where it
-- has both, its count (its `count`, or its `hits`, or 1), and its `request_id`, where it has one.
pub record ProfileRow : Type 0 where
  pub workload : Option String
  pub route_trace : List Route
  pub routed : Option (ℤ × ℤ)
  pub count : ℤ
  pub request_id : Option String

-- The variables of the loop over the rows
pub record Tally : Type 0 where
  pub expert_hits : Dict ℤ
  pub layer_hotness : Dict ℤ
  pub request_experts : Dict (List String)

-- `counter[key] += n`
unfoldable pub add_count : String → ℤ → Dict ℤ → Dict ℤ
unfolding insert get_or
add_count key n counter = insert key (get_or key (pos 0) counter +ℤ n) counter

-- `sets[key].add(x)`
unfoldable pub add_member : String → String → Dict (List String) → Dict (List String)
unfolding insert get_or contains
add_member key x sets =
    let members = get_or key [] sets in
    insert key (if contains x members then members else members ++ (x ∷ [])) sets

-- `f"{layer}:{expert}"`
unfoldable pub hit_key : ℤ → ℤ → String
unfolding str_int
hit_key layer expert = append (str_int layer) (append ":" (str_int expert))

unfoldable pub tally_hit : String → Route → Tally → Tally
unfolding add_count add_member hit_key
tally_hit request r t =
    let key = hit_key r.layer r.expert in
    record {
      expert_hits = add_count key r.count t.expert_hits;
      layer_hotness = add_count (str_int r.layer) r.count t.layer_hotness;
      request_experts = add_member request key t.request_experts;
    }

unfoldable pub tally_routes : String → List Route → Tally → Tally
unfolding tally_hit
tally_routes request [] t = t
tally_routes request (r ∷ rs) t = tally_routes request rs (tally_hit request r t)

-- The routes that a row counts: those of its trace, or its own.
unfoldable pub routes_of : ProfileRow → List Route
routes_of row =
    if is_empty row.route_trace
    then elim row.routed as (λ x. List Route) [
      | none ↦ []
      | some (layer, expert) ↦ record { layer = layer; expert = expert; count = row.count } ∷ []
    ]
    else row.route_trace

-- `str(row.get("request_id", index))`
unfoldable pub request_of : ℕ → ProfileRow → String
unfolding str_int
request_of index row = elim row.request_id as (λ x. String) [
  | none ↦ str_int (pos index)
  | some s ↦ s
]

-- The loop over the rows, from an index on
unfoldable pub tally_rows : ℕ → List ProfileRow → Tally → Tally
unfolding tally_routes routes_of request_of
tally_rows index [] t = t
tally_rows index (row ∷ rows) t =
    tally_rows (index + 1) rows (tally_routes (request_of index row) (routes_of row) t)

-- `sum(counter.values())`
unfoldable pub total_count : Dict ℤ → ℤ
total_count [] = pos 0
total_count ((k, n) ∷ d) = n +ℤ total_count d

unfoldable pub sum_ints : List ℤ → ℤ
sum_ints [] = pos 0
sum_ints (n ∷ ns) = n +ℤ sum_ints ns

-- `counter.most_common(budget)`, the counts alone
unfoldable pub most_common : ℕ → Dict ℤ → List ℤ
unfolding sort_by
most_common budget counter = take budget (map (λ e. e.1) (sort_by (λ a b. leb_ℤ b.1 a.1) counter))

abbrev pub empty_tally : Tally
empty_tally = record { expert_hits = []; layer_hotness = []; request_experts = [] }

-- The rows of the workload, or all where there are none
unfoldable pub rows_of : String → List ProfileRow → List ProfileRow
unfolding keep
rows_of label rows =
    let filtered =
      keep (λ row. elim row.workload as (λ x. Bool) [ none ↦ true | some w ↦ str_eq w label ])
        rows in
    if is_empty filtered then rows else filtered

abbrev pub by_key {κ} : {V : Type κ} → Dict V → Dict V
unfolding sort_by
by_key d = sort_by (λ a b. text_leb a.0 b.0) d

module _ (ar : Ratios) where
  open ar use {Float, nought, one, ratio, sub, add, mul, div, log, of_count}

  unfoldable pub coverage_for_budget : Dict ℤ → ℕ → Float
  unfolding total_count most_common sum_ints
  coverage_for_budget hits budget =
      if leb_ℤ (total_count hits) (pos 0)
      then nought
      else ratio (sum_ints (most_common budget hits)) (total_count hits)

  unfoldable pub entropy_of : ℤ → List ℤ → Float → Result Float
  entropy_of total [] entropy = ok entropy
  entropy_of total (n ∷ ns) entropy = do
    logarithm ← log (ratio n total)
    entropy_of total ns (sub entropy (mul (ratio n total) logarithm))

  unfoldable pub normalized_entropy : List ℤ → Result Float
  unfolding sum_ints entropy_of
  normalized_entropy counts =
      if leb_ℤ (sum_ints counts) (pos 0) || leb (length counts) 1 then ok nought else (do
        entropy ← entropy_of (sum_ints counts) counts nought
        scale ← log (of_count (length counts))
        ok (div entropy scale))

  -- The churn from one request's set of experts to the next one's
  unfoldable pub churn_between : List String → List String → Float
  unfolding keep contains
  churn_between prev curr =
      let common = keep (λ x. contains x curr) prev in
      let both = prev ++ keep (λ x. not (contains x prev)) curr in
      if is_empty both then nought else sub one (ratio (pos (length common)) (pos (length both)))

  unfoldable pub churns : List (List String) → List Float
  unfolding churn_between
  churns [] = []
  churns (prev ∷ sets) = elim sets as (λ x. List Float) [
    | [] ↦ []
    | curr ∷ others ↦ churn_between prev curr ∷ churns sets
  ]

  unfoldable pub sum_floats : Float → List Float → Float
  sum_floats total [] = total
  sum_floats total (x ∷ xs) = sum_floats (add total x) xs

  unfoldable pub churn_rate : List (List String) → Float
  unfolding churns sum_floats
  churn_rate sets =
      if leb (length sets) 1
      then nought
      else div (sum_floats nought (churns sets)) (of_count (length (churns sets)))

  pub record ProfileSummary : Type 0 where
    pub workload_label : String
    pub routing_entropy : Float
    pub hotset_coverage : Dict Float
    pub expert_hits : Dict ℤ
    pub layer_hotness : Dict ℤ
    pub expert_churn_rate : Float

  -- `profile_directory`, for the rows that were read and budgets in order
  unfoldable pub profile_rows : List ProfileRow → String → List ℕ → Result ProfileSummary
  unfolding rows_of tally_rows normalized_entropy coverage_for_budget churn_rate total_count by_key
  profile_rows rows label budgets = do
    let tally = tally_rows 0 (rows_of label rows) empty_tally
    entropy ← normalized_entropy (map (λ e. e.1) tally.expert_hits)
    ok (record {
      workload_label = label;
      routing_entropy = if eqb_ℤ (total_count tally.expert_hits) (pos 0) then nought else entropy;
      hotset_coverage =
          map
            (λ budget. (str_int (pos budget), coverage_for_budget tally.expert_hits (max 1 budget)))
            budgets;
      expert_hits = by_key tally.expert_hits;
      layer_hotness = by_key tally.layer_hotness;
      expert_churn_rate = churn_rate (map (λ e. e.1) (by_key tally.request_experts));
    })
