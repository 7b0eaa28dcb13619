-- ===== src/Sweep/Ports.antt =====
-- What the runs of a sweep are, and on which ports.
use mathlib.Core.List.{map-append}
use tile_mem.Common.{
  str_eq, Bool-cases, length, length-append, all, range_from, range, pos_part, ℤ, Result, ok,
  contains, concat_map, ℕ, zero, suc, ◌+◌, String, ◌≡◌, refl, sym, ap, ◌∙◌, inl, inr, Bool, true,
  ◌||◌, List, [], ◌∷◌, ◌++◌, map, arith,
}
use tile_mem.Sweep.{Host, Settings, CommandRun, c_mode_choices, validate_c_mode, system_name_of}
use tile_mem.Sweep.Bench.{command_run_of, build_tilepo_bench_command}
use tile_mem.Sweep.Runs.{Numbered, for_each, one_run, command_runs}

abbrev pub Place : Type 0
Place = String × ℤ × ℕ × String

-- Where a run stands in the sweep
abbrev pub place : CommandRun → Place
place r = (r.workload, r.experts_per_layer, r.repeat, r.system)

-- The places of a sweep, in the order of the loops
abbrev pub places : List String → List ℤ → ℤ → List String → List Place
unfolding concat_map range
places workloads experts repeats systems =
    concat_map
      (λ workload.
        concat_map
          (λ budget.
            concat_map
              (λ repeat. concat_map (λ system. (workload, budget, repeat, system) ∷ []) systems)
              (range (pos_part repeats)))
          experts)
      workloads

abbrev pub is_system : String → Bool
is_system system = str_eq system "A" || str_eq system "B" || str_eq system "C"

range_from-+ :
    (port m n : ℕ) → range_from port (m + n) ≡ range_from port m ++ range_from (port + m) n
unfolding range_from
range_from-+ port zero n =
    let left : 0 + n ≡ n = omega arith in
    let right : port + 0 ≡ port = omega arith in rw (left, right) refl
range_from-+ port (suc m) n =
    let same : (port + 1) + m ≡ port + suc m = omega arith in
    let left : suc m + n ≡ suc (m + n) = omega arith in
    rw (left) (
      ap (λ l. port ∷ l)
        (range_from-+ (port + 1) m n ∙ ap (λ p. range_from (port + 1) m ++ range_from p n) same))

-- A loop that starts on a port gives out the ports from there on, one to each place.
HasPlaces : List Place → ℕ → Result Numbered → Type 0
HasPlaces expected port m =
    (runs : List CommandRun) × (m ≡ ok (runs, port + length expected))
    × (map (λ (r : CommandRun). r.port) runs ≡ range_from port (length expected))
    × (map place runs ≡ expected)

for_each-HasPlaces :
    {A : Type 0} (good : A → Bool) (body : A → ℕ → Result Numbered) (f : A → List Place)
    → ((x : A) (port : ℕ) → good x ≡ true → HasPlaces (f x) port (body x port))
    → (xs : List A) (port : ℕ) → all good xs ≡ true
    → HasPlaces (concat_map f xs) port (for_each body xs port)
unfolding for_each concat_map all HasPlaces range_from
for_each-HasPlaces good body f h [] port hx =
    let same : port ≡ port + 0 = omega arith in ([], ap (λ p. ok ([], p)) same, refl, refl)
for_each-HasPlaces good body f h (x ∷ xs) port hx =
    let (hd, tl) : (good x ≡ true) × (all good xs ≡ true) = ground arith in
    let (runs, e, ports, placed) = h x port hd in
    let (others, e', ports', placed') =
      for_each-HasPlaces good body f h xs (port + length (f x)) tl in
    let count = length-append (f x) (concat_map f xs) in
    let total : (port + length (f x)) + length (concat_map f xs)
        ≡ port + length (f x ++ concat_map f xs) =
      omega (arith, count) in
    (
      runs ++ others,
      rw (e, e') (ap (λ p. ok (runs ++ others, p)) total),
      map-append (λ (r : CommandRun). r.port) runs others
          ∙ rw (ports, ports') refl
          ∙ sym (range_from-+ port (length (f x)) (length (concat_map f xs)))
          ∙ ap (range_from port) (sym count),
      map-append place runs others ∙ rw (placed, placed') refl,
    )

all-true : {A : Type 0} (xs : List A) → all (λ x. true) xs ≡ true
unfolding all
all-true [] = refl
all-true (x ∷ xs) = all-true xs

-- Each of the three systems has a name.
system_name_of-known :
    (system : String)
    → is_system system ≡ true
    → (name : String) × (system_name_of system ≡ ok name)
unfolding system_name_of
system_name_of-known system h = elim (Bool-cases (str_eq system "A")) [
  | inl a ↦ ("kt_uniform", rw (a) refl)
  | inr a ↦ elim (Bool-cases (str_eq system "B")) [
    | inl b ↦ ("kt_tilemem_placement", rw (a, b) refl)
    | inr b ↦
        let c : str_eq system "C" ≡ true = ground arith in ("kt_sglang_tilepo", rw (a, b, c) refl)
  ]
]

module _ (host : Host) (token : ℕ → String) (s : Settings host.Float)
    (known : contains s.c_mode c_mode_choices ≡ true) where
  build-known :
      (workload : String) (experts : ℤ) (repeat : ℕ) (system : String) (port : ℕ)
      → is_system system ≡ true
      → HasPlaces
          ((workload, experts, repeat, system) ∷ [])
          port
          (one_run host token s workload experts repeat system port)
  unfolding HasPlaces one_run build_tilepo_bench_command command_run_of validate_c_mode
      system_name_of range_from
  build-known workload experts repeat system port h =
      let (name, e) = system_name_of-known system h in
      (
        command_run_of host s
              (record {
                workload = workload;
                experts = experts;
                repeat = repeat;
                system = system;
                port = port;
                token = token port;
              })
              name
            ∷ [],
        rw (known) (rw (e) refl),
        refl,
        refl,
      )

  -- When the mode is one of the two and every system is one of the three, `_command_runs` raises
  -- nothing and makes one run for each workload, budget, repeat and system, in the order of the four
  -- loops, the first on the base port and each further one on the port after the one before it.
  pub command_runs-HasPlaces :
      (workloads : List String) (experts : List ℤ) (repeats : ℤ) (systems : List String)
      (base_port : ℕ)
      → all is_system systems ≡ true
      → (runs : List CommandRun) × (command_runs host token s workloads experts repeats systems
            base_port
          ≡ ok runs)
        × (map (λ (r : CommandRun). r.port) runs
            ≡ range_from base_port (length (places workloads experts repeats systems)))
        × (map place runs ≡ places workloads experts repeats systems)
  unfolding command_runs HasPlaces places concat_map
  command_runs-HasPlaces workloads experts repeats systems base_port h =
      let (runs, e, ports, placed) =
        for_each-HasPlaces (λ w. true) _ _
          (λ w p u.
            for_each-HasPlaces (λ b. true) _ _
              (λ b p' u'.
                for_each-HasPlaces (λ r. true) _ _
                  (λ r p'' u''. for_each-HasPlaces is_system _ _ (build-known w b r) systems p'' h)
                  (range (pos_part repeats)) p' (all-true (range (pos_part repeats))))
              experts p (all-true experts))
          workloads base_port (all-true workloads) in
      (runs, rw (e) refl, ports, placed)
