-- ===== src/Checkpoint/Experts.antt =====
-- The names that read as weights of one expert, and the groups that collect them.
use mathlib.Core.List.{append-nil, append_assoc}
use tile_mem.Common.{
  str_eq, if◌then◌else◌, str_eq_iff, Bool-cases, keep, ℤ, eqb_ℤ, Dict, lookup, insert,
  lookup-insert, String, ◌≡◌, refl, sym, ap, ◌∙◌, inl, inr, Bool, true, false, ◌&&◌, none, some,
  List, [], ◌∷◌, ◌++◌, arith,
}
use tile_mem.Checkpoint.{
  Projection, gate_up, down, Groups, WeightOwner, owner_key, parse_weight_name, no_groups, has_int,
  with_experts, with_layers, add_name,
}
use tile_mem.Checkpoint.Keys.{str_eq-owner_key}

abbrev pub same_group : Projection → Projection → Bool
same_group gate_up gate_up = true
same_group down down = true
same_group _ _ = false

-- The name reads as a weight of this group of this expert.
unfoldable pub owned : ℤ → ℤ → Projection → String → Bool
owned l e p name = elim (parse_weight_name name) [
  | none ↦ false
  | some owner ↦ eqb_ℤ owner.layer l && eqb_ℤ owner.expert e && same_group owner.group p
]

-- The groups of an expert, with the names of the list that are its own at their ends.
unfoldable pub gather : ℤ → ℤ → List String → Groups → Groups
unfolding keep owned
gather l e names g = record {
  gate_up_names = g.gate_up_names ++ keep (owned l e gate_up) names;
  down_names = g.down_names ++ keep (owned l e down) names;
}

-- The name reads as a weight of an expert that is among the given ones.
unfoldable pub is_wanted : List ℤ → List ℤ → String → Bool
unfolding has_int
is_wanted ls es name = elim (parse_weight_name name) [
  | none ↦ false
  | some owner ↦ has_int owner.layer ls && has_int owner.expert es
]

pub lookup-with_experts :
    (l e layer : ℤ) (es : List ℤ) (d : Dict Groups)
    → lookup (owner_key l e) (with_experts layer es d)
      ≡ (if eqb_ℤ layer l && has_int e es then some no_groups else lookup (owner_key l e) d)
unfolding with_experts has_int
lookup-with_experts l e layer [] d = ground arith
lookup-with_experts l e layer (x ∷ es) d = ground (
  arith,
  lookup-with_experts l e layer es (insert (owner_key layer x) no_groups d),
  lookup-insert (owner_key layer x) (owner_key l e) no_groups d,
  str_eq-owner_key layer x l e,
)

pub lookup-with_layers :
    (l e : ℤ) (ls es : List ℤ) (d : Dict Groups)
    → lookup (owner_key l e) (with_layers ls es d)
      ≡ (if has_int l ls && has_int e es then some no_groups else lookup (owner_key l e) d)
unfolding with_layers has_int
lookup-with_layers l e [] es d = refl
lookup-with_layers l e (x ∷ ls) es d =
    ground
      (arith, lookup-with_layers l e ls es (with_experts x es d), lookup-with_experts l e x es d)

pub gather-nil : (l e : ℤ) (g : Groups) → gather l e [] g ≡ g
unfolding gather keep
gather-nil l e g = rw (append-nil g.gate_up_names, append-nil g.down_names) refl

pub keep-step :
    (name : String) (b : Bool) (xs ys : List String)
    → (xs ++ (if b then name ∷ [] else [])) ++ ys ≡ xs ++ (if b then name ∷ ys else ys)
keep-step name true xs ys = append_assoc xs (name ∷ []) ys
keep-step name false xs ys = rw (append-nil xs) refl

pub gather-cons :
    (l e : ℤ) (name : String) (names : List String) (g : Groups)
    → gather l e names (gather l e (name ∷ []) g) ≡ gather l e (name ∷ names) g
unfolding gather keep
gather-cons l e name names g =
    rw
      (
        keep-step name (owned l e gate_up name) g.gate_up_names (keep (owned l e gate_up) names),
        keep-step name (owned l e down name) g.down_names (keep (owned l e down) names),
      )
      refl

pub owned-none :
    (l e : ℤ) (p : Projection) (name : String)
    → parse_weight_name name ≡ none
    → owned l e p name ≡ false
unfolding owned
owned-none l e p name h = rw (owned, h) refl

pub owned-some :
    (l e : ℤ) (p : Projection) (name : String) (owner : WeightOwner)
    → parse_weight_name name ≡ some owner
    → owned l e p name ≡ (eqb_ℤ owner.layer l && eqb_ℤ owner.expert e && same_group owner.group p)
unfolding owned
owned-some l e p name owner h = rw (owned, h) refl

pub gather-other :
    (l e : ℤ) (name : String) (g : Groups)
    → ((p : Projection) → owned l e p name ≡ false)
    → some g ≡ some (gather l e (name ∷ []) g)
unfolding gather keep
gather-other l e name g other = ap some (sym (rw (other gate_up, other down) (gather-nil l e g)))

pub gather-own :
    (l e : ℤ) (name : String) (p : Projection) (g : Groups)
    → ((q : Projection) → owned l e q name ≡ same_group p q)
    → some (add_name p name g) ≡ some (gather l e (name ∷ []) g)
unfolding gather keep add_name
gather-own l e name gate_up g own = rw (own gate_up, own down) (rw (append-nil g.down_names) refl)
gather-own l e name down g own = rw (own gate_up, own down) (rw (append-nil g.gate_up_names) refl)

module _ (l e : ℤ) (name : String) (owner : WeightOwner) (d : Dict Groups) (g : Groups) where
  unfoldable pub own_key : String
  own_key = owner_key owner.layer owner.expert

  -- A name whose expert has no groups belongs to another expert than one that has.
  pub other-key :
      lookup (owner_key l e) d ≡ some g
      → lookup own_key d ≡ none
      → (eqb_ℤ owner.layer l && eqb_ℤ owner.expert e) ≡ false
  unfolding own_key
  other-key h none_there = elim (Bool-cases (str_eq own_key (owner_key l e))) [
    | inl same ↦ let keys : own_key ≡ owner_key l e = (str_eq_iff _ _).0 same in absurd (cc)
    | inr differs ↦ sym (str_eq-owner_key owner.layer owner.expert l e) ∙ differs
  ]

  -- The groups of the expert that the name belongs to get the name.
  pub lookup-own :
      (g' : Groups)
      → parse_weight_name name ≡ some owner
      → lookup (owner_key l e) d ≡ some g
      → lookup own_key d ≡ some g'
      → lookup (owner_key l e) (insert own_key (add_name owner.group name g') d)
        ≡ some (gather l e (name ∷ []) g)
  unfolding own_key
  lookup-own g' parsed h there =
      let new = add_name owner.group name g' in
      let key = str_eq-owner_key owner.layer owner.expert l e in
      elim (Bool-cases (eqb_ℤ owner.layer l && eqb_ℤ owner.expert e)) [
        | inl both ↦
            let keys : own_key ≡ owner_key l e = (str_eq_iff _ _).0 (key ∙ both) in
            let same : g' ≡ g = cc in
            lookup-insert own_key (owner_key l e) new d
            ∙ rw (key, both, same)
                (gather-own l e name owner.group g
                  (λ q. owned-some l e q name owner parsed ∙ ground (arith, both)))
        | inr differs ↦
            lookup-insert own_key (owner_key l e) new d
            ∙ rw (key, differs)
                (h
                  ∙ gather-other l e name g
                      (λ p. owned-some l e p name owner parsed ∙ ground (arith, differs)))
      ]
