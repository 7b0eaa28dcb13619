-- ===== src/Checkpoint/Resolved.antt =====
-- Which names `match_checkpoint_weights` resolves to which expert, and which it passes over.
use mathlib.Core.List.{append-nil}
use tile_mem.Common.{
  if◌then◌else◌, str_eq_iff, Bool-cases, Option-cases, keep, ℤ, Dict, lookup, insert, has_key,
  has_key-insert, text_leb, sort_by, String, ◌≡◌, refl, sym, ap, ◌∙◌, inl, inr, Bool, false, not,
  ◌&&◌, Option, none, some, List, [], ◌∷◌, ◌++◌, arith,
}
use tile_mem.ModelInterface.{ModelSpec}
use tile_mem.Checkpoint.{
  gate_up, down, Groups, WeightOwner, owner_key, parse_weight_name, no_groups, has_int, with_layers,
  add_name, MatchLoop, pass_over, match_name, match_names, selected_layers, selected_experts,
  match_checkpoint_weights,
}
use tile_mem.Checkpoint.Experts.{
  owned, gather, is_wanted, lookup-with_layers, gather-nil, keep-step, gather-cons, owned-none,
  owned-some, gather-other, own_key, other-key, lookup-own,
}

match_name-unread :
    (name : String) (m : MatchLoop)
    → parse_weight_name name ≡ none
    → match_name name m ≡ pass_over name m
unfolding match_name
match_name-unread name m h = rw (match_name, h) refl

module _ (name : String) (owner : WeightOwner) (m : MatchLoop)
    (parsed : parse_weight_name name ≡ some owner) where
  match_name-unknown :
      lookup (owner_key owner.layer owner.expert) m.found ≡ none
      → match_name name m ≡ pass_over name m
  unfolding match_name
  match_name-unknown h = rw (match_name, parsed, h) refl

  match_name-known :
      (g : Groups)
      → lookup (owner_key owner.layer owner.expert) m.found ≡ some g
      → match_name name m ≡ record m {
        found = insert (owner_key owner.layer owner.expert) (add_name owner.group name g) m.found;
      }
  unfolding match_name
  match_name-known g h = rw (match_name, parsed, h) refl

-- What one name does to the groups of an expert.
lookup-match_name :
    (l e : ℤ) (name : String) (m : MatchLoop) (g : Groups)
    → lookup (owner_key l e) m.found ≡ some g
    → lookup (owner_key l e) (match_name name m).found ≡ some (gather l e (name ∷ []) g)
unfolding pass_over own_key
lookup-match_name l e name m g h = elim (Option-cases (parse_weight_name name)) [
  | inl e₁ ↦
      rw (match_name-unread name m e₁) (h ∙ gather-other l e name g (λ p. owned-none l e p name e₁))
  | inr (owner, e₁) ↦ elim (Option-cases (lookup (owner_key owner.layer owner.expert) m.found)) [
    | inl e₂ ↦
        let other = other-key l e name owner m.found g h e₂ in
        rw (match_name-unknown name owner m e₁ e₂) (
          h ∙ gather-other l e name g (λ p. owned-some l e p name owner e₁ ∙ ground (arith, other)))
    | inr (g', e₂) ↦
        rw (match_name-known name owner m e₁ g' e₂) (lookup-own l e name owner m.found g g' e₁ h e₂)
  ]
]

lookup-match_names :
    (l e : ℤ) (names : List String) (m : MatchLoop) (g : Groups)
    → lookup (owner_key l e) m.found ≡ some g
    → lookup (owner_key l e) (match_names names m).found ≡ some (gather l e names g)
unfolding match_names
lookup-match_names l e [] m g h = h ∙ ap some (sym (gather-nil l e g))
lookup-match_names l e (name ∷ names) m g h =
    lookup-match_names l e names (match_name name m) (gather l e (name ∷ []) g)
      (lookup-match_name l e name m g h)
    ∙ ap some (gather-cons l e name names g)

-- The keys of the result stay those it began with.
has_key-match_name :
    (key name : String) (m : MatchLoop)
    → has_key key (match_name name m).found ≡ has_key key m.found
unfolding pass_over has_key
has_key-match_name key name m = elim (Option-cases (parse_weight_name name)) [
  | inl e₁ ↦ rw (match_name-unread name m e₁) refl
  | inr (owner, e₁) ↦
      let owns = owner_key owner.layer owner.expert in
      elim (Option-cases (lookup owns m.found)) [
        | inl e₂ ↦ rw (match_name-unknown name owner m e₁ e₂) refl
        | inr (g, e₂) ↦ rw (match_name-known name owner m e₁ g e₂) (
            ground (
              arith,
              has_key-insert owns key (add_name owner.group name g) m.found,
              str_eq_iff owns key,
            ))
      ]
]

has_key-match_names :
    (key : String) (names : List String) (m : MatchLoop)
    → has_key key (match_names names m).found ≡ has_key key m.found
unfolding match_names
has_key-match_names key [] m = refl
has_key-match_names key (name ∷ names) m =
    has_key-match_names key names (match_name name m) ∙ has_key-match_name key name m

lookup-match_names-none :
    (key : String) (names : List String) (m : MatchLoop)
    → lookup key m.found ≡ none
    → lookup key (match_names names m).found ≡ none
unfolding has_key
lookup-match_names-none key names m h = ground (arith, has_key-match_names key names m, h)

-- The name reads as a weight of an expert that has groups.
unfoldable has_owner : Dict Groups → String → Bool
has_owner d name = elim (parse_weight_name name) [
  | none ↦ false
  | some owner ↦ has_key (owner_key owner.layer owner.expert) d
]

left_over-match_name :
    (name : String) (m : MatchLoop)
    → (match_name name m).left_over
      ≡ m.left_over ++ keep (λ n. not (has_owner m.found n)) (name ∷ [])
unfolding pass_over has_owner keep has_key
left_over-match_name name m = elim (Option-cases (parse_weight_name name)) [
  | inl e₁ ↦ rw (match_name-unread name m e₁, has_owner, e₁) refl
  | inr (owner, e₁) ↦ elim (Option-cases (lookup (owner_key owner.layer owner.expert) m.found)) [
    | inl e₂ ↦ rw (match_name-unknown name owner m e₁ e₂, has_owner, e₁, has_key, e₂) refl
    | inr (g, e₂) ↦
        rw (match_name-known name owner m e₁ g e₂, has_owner, e₁, has_key, e₂)
          (sym (append-nil m.left_over))
  ]
]

has_owner-match_name :
    (name : String) (m : MatchLoop) (n : String)
    → has_owner (match_name name m).found n ≡ has_owner m.found n
unfolding has_owner
has_owner-match_name name m n = elim (Option-cases (parse_weight_name n)) [
  | inl e ↦ rw (has_owner, e) refl
  | inr (owner, e) ↦
      rw (has_owner, e) (has_key-match_name (owner_key owner.layer owner.expert) name m)
]

module _ (p : String → Bool) where
  left_over-match_names :
      (names : List String) (m : MatchLoop)
      → ((n : String) → has_owner m.found n ≡ p n)
      → (match_names names m).left_over ≡ m.left_over ++ keep (λ n. not (p n)) names
  unfolding match_names keep
  left_over-match_names [] m h = sym (append-nil m.left_over)
  left_over-match_names (name ∷ names) m h =
      left_over-match_names names (match_name name m) (λ n. has_owner-match_name name m n ∙ h n)
      ∙ rw (left_over-match_name name m, h name)
          (keep-step name (not (p name)) m.left_over (keep (λ n. not (p n)) names))

has_owner-with_layers :
    (ls es : List ℤ) (name : String) → has_owner (with_layers ls es []) name ≡ is_wanted ls es name
unfolding has_owner is_wanted has_key lookup
has_owner-with_layers ls es name = elim (Option-cases (parse_weight_name name)) [
  | inl e ↦ rw (has_owner, is_wanted, e) refl
  | inr (owner, e) ↦
      rw (has_owner, is_wanted, e)
        (ground (arith, lookup-with_layers owner.layer owner.expert ls es []))
]

-- The groups that the names of the list make up for one expert, from nothing
abbrev pub groups_of : ℤ → ℤ → List String → Groups
unfolding keep owned
groups_of l e names = record {
  gate_up_names = keep (owned l e gate_up) names;
  down_names = keep (owned l e down) names;
}

module _ {F : Type 0} (lower : String → String) (names : List String) (spec : ModelSpec F)
    (family : String) (layers experts : Option (List ℤ)) where
  -- An expert is a key of `resolved` just when its layer and its number are among the selected ones;
  -- it then holds, group by group and in the order of the texts, the weight names that read as its
  -- own, and `unmatched` holds, in that order, the names that do not read as a weight of a selected
  -- expert.
  pub match_checkpoint_weights-resolved :
      (l e : ℤ)
      → (lookup
            (owner_key l e)
            (match_checkpoint_weights lower names spec family layers experts).resolved
          ≡ (if has_int l (selected_layers spec layers) && has_int e (selected_experts spec experts)
              then some (groups_of l e (sort_by text_leb names))
              else none))
        × ((match_checkpoint_weights lower names spec family layers experts).unmatched
            ≡ keep
                (λ n.
                  not (is_wanted (selected_layers spec layers) (selected_experts spec experts) n))
                (sort_by text_leb names))
  unfolding match_checkpoint_weights groups_of gather
  match_checkpoint_weights-resolved l e =
      let ls = selected_layers spec layers in
      let es = selected_experts spec experts in
      let sorted = sort_by text_leb names in
      let start : MatchLoop = record { found = with_layers ls es []; left_over = [] } in
      let at_start = lookup-with_layers l e ls es [] in
      (
        elim (Bool-cases (has_int l ls && has_int e es)) [
          | inl chosen ↦
              let there : lookup (owner_key l e) start.found ≡ some no_groups =
                at_start ∙ rw (chosen) refl in
              lookup-match_names l e sorted start no_groups there ∙ rw (chosen) refl
          | inr passed ↦
              let absent : lookup (owner_key l e) start.found ≡ none =
                at_start ∙ rw (passed) refl in
              lookup-match_names-none (owner_key l e) sorted start absent ∙ rw (passed) refl
        ],
        left_over-match_names (is_wanted ls es) sorted start (has_owner-with_layers ls es),
      )
