-- ===== src/Admission/Selected.antt =====
-- What is selected for a workload.
use tile_mem.Common.{
  str_eq, Bool-cases, Option-cases, is_empty, keep, All, Dict, lookup, insert, insert_cases, String,
  ◌≡◌, refl, sym, ap, ◌∙◌, subst, inl, inr, Bool, true, false, not, some, List, [], ◌∷◌, arith,
}
use tile_mem.Admission.{
  FloatOps, Decision, Selection, score, best, choose, select_from, select_workload_plans,
}

module _ {F : Type 0} (ops : FloatOps F) where
  best-All :
      (P : Decision F → Type 0) (key : Decision F → F) (d : Decision F) (ds : List (Decision F))
      → P d
      → All P ds
      → P (best ops key d ds)
  unfolding best
  best-All P key d [] h hs = h
  best-All P key d (e ∷ es) h (k, hs) = elim (Bool-cases (ops.greater (key e) (key d))) [
    | inl g ↦ rw g (best-All P key e es k hs)
    | inr g ↦ rw g (best-All P key d es h hs)
  ]

  keep-All : (p : Decision F → Bool) (ds : List (Decision F)) → All (λ d. p d ≡ true) (keep p ds)
  unfolding keep
  keep-All p [] = tt
  keep-All p (d ∷ ds) = elim (Bool-cases (p d)) [
    | inl e ↦ rw e (e, keep-All p ds)
    | inr e ↦ rw e (keep-All p ds)
  ]

  keep-keeps :
      (P : Decision F → Type 0) (p : Decision F → Bool) (ds : List (Decision F))
      → All P ds
      → All P (keep p ds)
  unfolding keep
  keep-keeps P p [] h = tt
  keep-keeps P p (d ∷ ds) (h, hs) = elim (Bool-cases (p d)) [
    | inl e ↦ rw e (h, keep-keeps P p ds hs)
    | inr e ↦ rw e (keep-keeps P p ds hs)
  ]

  -- Whether TilePO was admitted for one of the decisions.
  unfoldable pub some_admitted : List (Decision F) → Bool
  unfolding keep
  some_admitted items = not (is_empty (keep (λ (d : Decision F). d.admitted_tilepo) items))

  none_admitted :
      (items : List (Decision F))
      → keep (λ (d : Decision F). d.admitted_tilepo) items ≡ []
      → All (λ (d : Decision F). d.admitted_tilepo ≡ false) items
  unfolding keep
  none_admitted [] h = tt
  none_admitted (d ∷ ds) h = elim (Bool-cases d.admitted_tilepo) [
    | inl e ↦ ground (arith, h, e)
    | inr e ↦ (e, none_admitted ds (rw e at h))
  ]

  -- What a selection owes to the decisions it was made from.
  pub record IsChosen (items : List (Decision F)) (s : Selection F) : Type 1 where
    pub as_admitted : s.chosen.admitted_tilepo ≡ s.selected_tilepo
    pub tilepo_first : s.selected_tilepo ≡ some_admitted items
    pub from_items : (P : Decision F → Type 0) → All P items → P s.chosen

  abbrev is_tilepo : Decision F → Bool
  is_tilepo d = d.admitted_tilepo

  abbrev of_tilepo : String → Decision F → List (Decision F) → Selection F
  of_tilepo policy d ds = record {
    selected_tilepo = true;
    chosen = best ops (λ (e : Decision F). score ops policy e.tilepo_metrics) d ds;
  }

  abbrev of_kt : String → Decision F → List (Decision F) → Selection F
  of_kt policy d ds = record {
    selected_tilepo = false;
    chosen = best ops (λ (e : Decision F). score ops policy e.kt_metrics) d ds;
  }

  of_tilepo-IsChosen :
      (policy : String) (items : List (Decision F)) (d : Decision F) (ds : List (Decision F))
      → keep is_tilepo items ≡ d ∷ ds
      → IsChosen items (of_tilepo policy d ds)
  unfolding some_admitted
  of_tilepo-IsChosen policy items d ds e =
      let key : Decision F → F = λ (x : Decision F). score ops policy x.tilepo_metrics in
      let Admitted : Decision F → Type 0 = λ (x : Decision F). x.admitted_tilepo ≡ true in
      let (h, hs) = subst (All Admitted) e (keep-All is_tilepo items) in
      record {
        as_admitted = best-All Admitted key d ds h hs;
        tilepo_first = rw e refl;
        from_items = λ P all_items.
            let (k, ks) = subst (All P) e (keep-keeps P is_tilepo items all_items) in
            best-All P key d ds k ks;
      }

  of_kt-IsChosen :
      (policy : String) (d : Decision F) (ds : List (Decision F))
      → keep is_tilepo (d ∷ ds) ≡ []
      → IsChosen (d ∷ ds) (of_kt policy d ds)
  unfolding some_admitted
  of_kt-IsChosen policy d ds e =
      let key : Decision F → F = λ (x : Decision F). score ops policy x.kt_metrics in
      let (h, hs) = none_admitted (d ∷ ds) e in
      record {
        as_admitted = best-All (λ (x : Decision F). x.admitted_tilepo ≡ false) key d ds h hs;
        tilepo_first = ap (λ l. not (is_empty l)) (sym e);
        from_items = λ P (k, ks). best-All P key d ds k ks;
      }

  some-eq : (s t : Selection F) → some s ≡ some t → s ≡ t
  some-eq s t h = cc

  kt_case :
      (policy : String) (items : List (Decision F)) (d : Decision F) (ds : List (Decision F))
      → items ≡ d ∷ ds
      → keep is_tilepo items ≡ []
      → choose ops policy items ≡ some (of_kt policy d ds)
  unfolding choose
  kt_case policy items d ds i e = rw (choose, e, i) refl

  choose-IsChosen :
      (policy : String) (items : List (Decision F)) (s : Selection F)
      → choose ops policy items ≡ some s
      → IsChosen items s
  unfolding choose
  choose-IsChosen policy items s h = from_kept items s h (keep is_tilepo items) refl
    where
      from_kept :
          (items : List (Decision F)) (s : Selection F)
          → choose ops policy items ≡ some s
          → (ks : List (Decision F)) → keep is_tilepo items ≡ ks
          → IsChosen items s
      from_kept items s h (d ∷ ds) e =
          subst (IsChosen items) (some-eq (of_tilepo policy d ds) s (rw (choose, e) at h))
            (of_tilepo-IsChosen policy items d ds e)
      from_kept [] s h [] e = cc
      from_kept (d ∷ ds) s h [] e =
          subst (IsChosen (d ∷ ds))
            (some-eq (of_kt policy d ds) s (sym (kt_case policy (d ∷ ds) d ds refl e) ∙ h))
            (of_kt-IsChosen policy d ds e)

  abbrev pub of_workload : String → List (Decision F) → List (Decision F)
  of_workload workload per_budget = keep (λ (d : Decision F). str_eq d.workload workload) per_budget

  select_from-IsChosen :
      (per_budget : List (Decision F)) (policy : String) (selections : Dict (Selection F))
      (workloads : List String)
      → ((w : String) (s : Selection F)
          → lookup w selections ≡ some s
          → IsChosen (of_workload w per_budget) s)
      → (w : String) (s : Selection F)
      → lookup w (select_from ops per_budget policy selections workloads) ≡ some s
      → IsChosen (of_workload w per_budget) s
  unfolding select_from
  select_from-IsChosen per_budget policy selections [] inv w s h = inv w s h
  select_from-IsChosen per_budget policy selections (v ∷ vs) inv w s h =
      elim (Option-cases (choose ops policy (of_workload v per_budget))) [
        | inl e ↦ select_from-IsChosen per_budget policy selections vs inv w s (rw e at h)
        | inr (t, e) ↦
            select_from-IsChosen per_budget policy (insert v t selections) vs
              (λ x u k. elim (insert_cases v x t u selections k) [
                | inl (same, taken) ↦
                    subst (λ y. IsChosen (of_workload y per_budget) u) same
                      (subst (IsChosen (of_workload v per_budget)) taken
                        (choose-IsChosen policy (of_workload v per_budget) t e))
                | inr (other, before) ↦ inv x u before
              ])
              w s (rw e at h)
      ]

  -- The plan that a workload gets is chosen from its own decisions: it is a TilePO plan exactly if
  -- TilePO was admitted for one of them, then the chosen decision admitted TilePO, and else it did not.
  pub select_workload_plans-IsChosen :
      (per_budget : List (Decision F)) (policy : String) (workloads : List String) (w : String)
      (s : Selection F)
      → lookup w (select_workload_plans ops per_budget policy workloads) ≡ some s
      → IsChosen (of_workload w per_budget) s
  unfolding select_workload_plans lookup
  select_workload_plans-IsChosen per_budget policy workloads w s h =
      select_from-IsChosen per_budget policy [] workloads (λ x u k. nothing x u k) w s h
    where
      nothing :
          (x : String) (u : Selection F)
          → lookup x [] ≡ some u
          → IsChosen (of_workload x per_budget) u
      nothing x u k = cc
