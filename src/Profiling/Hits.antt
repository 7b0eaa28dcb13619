-- ===== src/Profiling/Hits.antt =====
-- What the counters of a profile add up to.
use tile_mem.Common.{
  str_eq, Bool-cases, ℤ, pos, ◌+ℤ◌, +ℤ_parts, eq_of_parts, +ℤ_zero, zero_+ℤ, +ℤ_assoc, str_int,
  Dict, lookup, insert, get_or, ok, >>=-eq-ok, ok-injective, place, sort_by, ℕ, ◌+◌, String, ◌≡◌,
  refl, sym, ap, ◌∙◌, subst, inl, inr, Bool, true, false, List, [], ◌∷◌, map, arith,
}
use tile_mem.Profiling.{
  Ratios, Route, ProfileRow, Tally, add_count, hit_key, tally_hit, tally_routes, routes_of,
  request_of, tally_rows, total_count, empty_tally, rows_of, by_key, normalized_entropy,
  ProfileSummary, profile_rows,
}

+ℤ_swap : (a b c : ℤ) → (a +ℤ b) +ℤ c ≡ (a +ℤ c) +ℤ b
+ℤ_swap a b c =
    eq_of_parts ((a +ℤ b) +ℤ c) ((a +ℤ c) +ℤ b)
      (omega (arith, +ℤ_parts (a +ℤ b) c, +ℤ_parts a b, +ℤ_parts (a +ℤ c) b, +ℤ_parts a c))

+ℤ_comm : (a b : ℤ) → a +ℤ b ≡ b +ℤ a
+ℤ_comm a b = eq_of_parts (a +ℤ b) (b +ℤ a) (omega (arith, +ℤ_parts a b, +ℤ_parts b a))

get_or-none : (key : String) → get_or key (pos 0) [] ≡ pos 0
unfolding get_or lookup
get_or-none key = refl

module _ (key j : String) (m : ℤ) (d : Dict ℤ) where
  get_or-first : str_eq j key ≡ true → get_or key (pos 0) ((j, m) ∷ d) ≡ m
  unfolding get_or lookup
  get_or-first e = rw (get_or, e) refl

  get_or-later : str_eq j key ≡ false → get_or key (pos 0) ((j, m) ∷ d) ≡ get_or key (pos 0) d
  unfolding get_or lookup
  get_or-later e = rw (get_or, e) refl

total_count-insert :
    (key : String) (v n : ℤ) (d : Dict ℤ)
    → get_or key (pos 0) d +ℤ n ≡ v
    → total_count (insert key v d) ≡ total_count d +ℤ n
unfolding insert total_count
total_count-insert key v n [] h =
    let new : pos 0 +ℤ n ≡ v = sym (ap (λ t. t +ℤ n) (get_or-none key)) ∙ h in +ℤ_zero v ∙ sym new
total_count-insert key v n ((j, m) ∷ d) h = elim (Bool-cases (str_eq j key)) [
  | inl e ↦
      let new : m +ℤ n ≡ v = sym (ap (λ t. t +ℤ n) (get_or-first key j m d e)) ∙ h in
      rw (e) (ap (λ t. t +ℤ total_count d) (sym new) ∙ +ℤ_swap m n (total_count d))
  | inr e ↦
      let new : get_or key (pos 0) d +ℤ n ≡ v =
        sym (ap (λ t. t +ℤ n) (get_or-later key j m d e)) ∙ h in
      rw (e)
        (ap (λ t. m +ℤ t) (total_count-insert key v n d new) ∙ sym (+ℤ_assoc m (total_count d) n))
]

total_count-add_count :
    (key : String) (n : ℤ) (d : Dict ℤ) → total_count (add_count key n d) ≡ total_count d +ℤ n
unfolding add_count
total_count-add_count key n d = total_count-insert key _ n d refl

-- `sum` of the counts of the routes
unfoldable pub route_total : List Route → ℤ
route_total [] = pos 0
route_total (r ∷ rs) = r.count +ℤ route_total rs

unfoldable pub row_total : List ProfileRow → ℤ
unfolding route_total routes_of
row_total [] = pos 0
row_total (row ∷ rows) = route_total (routes_of row) +ℤ row_total rows

-- What a counter grows by, seen through one of the two counters of a tally
module _ (counter : Tally → Dict ℤ)
    (step : (request : String) (r : Route) (t : Tally)
      → total_count (counter (tally_hit request r t)) ≡ total_count (counter t) +ℤ r.count) where
  total-tally_routes :
      (request : String) (rs : List Route) (t : Tally)
      → total_count (counter (tally_routes request rs t))
        ≡ total_count (counter t) +ℤ route_total rs
  unfolding tally_routes route_total
  total-tally_routes request [] t = sym (+ℤ_zero (total_count (counter t)))
  total-tally_routes request (r ∷ rs) t =
      total-tally_routes request rs (tally_hit request r t)
      ∙ ap (λ n. n +ℤ route_total rs) (step request r t)
      ∙ +ℤ_assoc (total_count (counter t)) r.count (route_total rs)

  total-tally_rows :
      (index : ℕ) (rows : List ProfileRow) (t : Tally)
      → total_count (counter (tally_rows index rows t)) ≡ total_count (counter t) +ℤ row_total rows
  unfolding tally_rows row_total
  total-tally_rows index [] t = sym (+ℤ_zero (total_count (counter t)))
  total-tally_rows index (row ∷ rows) t =
      let request = request_of index row in
      total-tally_rows (index + 1) rows (tally_routes request (routes_of row) t)
      ∙ ap (λ n. n +ℤ row_total rows) (total-tally_routes request (routes_of row) t)
      ∙ +ℤ_assoc (total_count (counter t)) (route_total (routes_of row)) (row_total rows)

expert-step :
    (request : String) (r : Route) (t : Tally)
    → total_count (tally_hit request r t).expert_hits ≡ total_count t.expert_hits +ℤ r.count
unfolding tally_hit
expert-step request r t = total_count-add_count (hit_key r.layer r.expert) r.count t.expert_hits

layer-step :
    (request : String) (r : Route) (t : Tally)
    → total_count (tally_hit request r t).layer_hotness ≡ total_count t.layer_hotness +ℤ r.count
unfolding tally_hit
layer-step request r t = total_count-add_count (str_int r.layer) r.count t.layer_hotness

-- Sorting does not change a sum.
total_count-place :
    (before : String × ℤ → String × ℤ → Bool) (e : String × ℤ) (d : Dict ℤ)
    → total_count (place before e d) ≡ e.1 +ℤ total_count d
unfolding total_count place
total_count-place before (k, n) [] = refl
total_count-place before (k, n) ((j, m) ∷ d) = elim (Bool-cases (before (k, n) (j, m))) [
  | inl first ↦ rw (first) refl
  | inr later ↦ rw (later) (
      ap (λ t. m +ℤ t) (total_count-place before (k, n) d)
      ∙ sym (+ℤ_assoc m n (total_count d))
      ∙ ap (λ t. t +ℤ total_count d) (+ℤ_comm m n)
      ∙ +ℤ_assoc n m (total_count d))
]

total_count-sort_by :
    (before : String × ℤ → String × ℤ → Bool) (d : Dict ℤ)
    → total_count (sort_by before d) ≡ total_count d
unfolding total_count sort_by
total_count-sort_by before [] = refl
total_count-sort_by before ((k, n) ∷ d) =
    total_count-place before (k, n) (sort_by before d)
    ∙ ap (λ t. n +ℤ t) (total_count-sort_by before d)

tally-total :
    (counter : Tally → Dict ℤ)
    → ((request : String) (r : Route) (t : Tally)
        → total_count (counter (tally_hit request r t)) ≡ total_count (counter t) +ℤ r.count)
    → total_count (counter empty_tally) ≡ pos 0
    → (rows : List ProfileRow)
    → total_count (by_key (counter (tally_rows 0 rows empty_tally))) ≡ row_total rows
unfolding by_key sort_by
tally-total counter step start rows =
    total_count-sort_by _ (counter (tally_rows 0 rows empty_tally))
    ∙ total-tally_rows counter step 0 rows empty_tally
    ∙ ap (λ n. n +ℤ row_total rows) start
    ∙ zero_+ℤ (row_total rows)

-- The hits of the experts and the hotness of the layers in the summary of a profile both add up to the
-- counts of the routes of the rows that are summarised: no hit is lost or counted twice.
pub profile_rows-total :
    (ar : Ratios) (rows : List ProfileRow) (label : String) (budgets : List ℕ)
    (s : ProfileSummary ar)
    → profile_rows ar rows label budgets ≡ ok s
    → (total_count s.expert_hits ≡ row_total (rows_of label rows))
      × (total_count s.layer_hotness ≡ row_total (rows_of label rows))
unfolding profile_rows total_count
profile_rows-total ar rows label budgets s h =
    let used = rows_of label rows in
    let tally = tally_rows 0 used empty_tally in
    let (entropy, _, made) =
      >>=-eq-ok (normalized_entropy ar (map (λ e. e.1) tally.expert_hits)) _ h in
    subst
      (λ (x : ProfileSummary ar).
        (total_count x.expert_hits ≡ row_total used)
        × (total_count x.layer_hotness ≡ row_total used))
      (ok-injective made)
      (
        tally-total (λ t. t.expert_hits) expert-step refl used,
        tally-total (λ t. t.layer_hotness) layer-step refl used,
      )
