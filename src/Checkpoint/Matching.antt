-- ===== src/Checkpoint/Matching.antt =====
-- What `match_checkpoint_weights` finds.
use mathlib.Core.List.Perm
use mathlib.Core.List.{
  Perm, perm_append_singleton, perm-append_right_iff, perm-append_left_iff, perm_middle, append-nil,
}
use tile_mem.Common.{
  str_eq, Bool-cases, Option-cases, ℤ, Dict, lookup, insert, text_leb, sort_by, sort_by-perm,
  String, ◌≡◌, refl, inl, inr, Option, some, List, [], ◌∷◌, ◌++◌, arith,
}
use tile_mem.Checkpoint.{
  Projection, gate_up, down, Groups, owner_key, parse_weight_name, no_groups, with_experts,
  with_layers, add_name, MatchLoop, pass_over, match_name, match_names, selected_layers,
  selected_experts, match_checkpoint_weights,
}
use tile_mem.ModelInterface.{ModelSpec}

-- The names of both groups of every expert
unfoldable pub all_names : Dict Groups → List String
all_names [] = []
all_names ((key, groups) ∷ rest) = groups.gate_up_names ++ (groups.down_names ++ all_names rest)

module _ {A : Type 0} where
  -- An element comes to the front of a list that another stands in front of.
  bring-front :
      (a : A) (before : List A) {xs ys : List A}
      → Perm xs (a ∷ ys)
      → Perm (before ++ xs) (a ∷ (before ++ ys))
  bring-front a [] h = h
  bring-front a (b ∷ before) {xs} {ys} h =
      Perm.trans (Perm.cons b (bring-front a before h)) (Perm.swap a b (before ++ ys))

  append-last : (a : A) (xs ys : List A) → Perm ((xs ++ (a ∷ [])) ++ ys) (a ∷ (xs ++ ys))
  append-last a [] ys = Perm.refl (a ∷ ys)
  append-last a (x ∷ xs) ys =
      Perm.trans (Perm.cons x (append-last a xs ys)) (Perm.swap a x (xs ++ ys))

add_name-perm :
    (p : Projection) (name : String) (g : Groups) (rest : List String)
    → Perm
        (((add_name p name g).gate_up_names ++ ((add_name p name g).down_names ++ rest)))
        (name ∷ (g.gate_up_names ++ (g.down_names ++ rest)))
unfolding add_name
add_name-perm gate_up name g rest = append-last name g.gate_up_names (g.down_names ++ rest)
add_name-perm down name g rest =
    bring-front name g.gate_up_names (append-last name g.down_names rest)

insert-perm :
    (key : String) (p : Projection) (name : String) (g : Groups) (d : Dict Groups)
    → lookup key d ≡ some g
    → Perm (all_names (insert key (add_name p name g) d)) (name ∷ all_names d)
unfolding lookup insert all_names
insert-perm key p name g [] h = absurd (cc)
insert-perm key p name g ((j, w) ∷ d) h = elim (Bool-cases (str_eq j key)) [
  | inl e ↦ let same : w ≡ g = ground arith in rw (e, same) (add_name-perm p name g (all_names d))
  | inr e ↦
      let found : lookup key d ≡ some g = rw (e) at h in
      rw (e) (
        bring-front name w.gate_up_names
          (bring-front name w.down_names (insert-perm key p name g d found)))
]

Perm-append_right :
    {xs ys : List String} (zs : List String) → Perm xs ys → Perm (xs ++ zs) (ys ++ zs)
Perm-append_right zs h = (perm-append_right_iff zs).1 h

-- All the names that a state of the loop holds
abbrev held : Dict Groups → List String → List String
held found left_over = all_names found ++ left_over

append-name :
    (name : String) (names left : List String)
    → Perm (names ++ (left ++ (name ∷ []))) (name ∷ (names ++ left))
append-name name names left = bring-front name names (perm_append_singleton name left)

match_name-perm :
    (name : String) (m : MatchLoop)
    → Perm
        (held (match_name name m).found (match_name name m).left_over)
        (name ∷ held m.found m.left_over)
unfolding match_name pass_over
match_name-perm name m = elim (Option-cases (parse_weight_name name)) [
  | inl e ↦ rw (match_name, e) (append-name name (all_names m.found) m.left_over)
  | inr (owner, e) ↦ elim (Option-cases (lookup (owner_key owner.layer owner.expert) m.found)) [
    | inl e' ↦ rw (match_name, e, e') (append-name name (all_names m.found) m.left_over)
    | inr (g, e') ↦
        rw (match_name, e, e')
          (Perm-append_right m.left_over
            (insert-perm (owner_key owner.layer owner.expert) owner.group name g m.found e'))
  ]
]

Perm-append_left :
    {xs ys : List String} (zs : List String) → Perm xs ys → Perm (zs ++ xs) (zs ++ ys)
Perm-append_left zs h = (perm-append_left_iff zs).1 h

match_names-perm :
    (names : List String) (m : MatchLoop)
    → Perm
        (held (match_names names m).found (match_names names m).left_over)
        (names ++ held m.found m.left_over)
unfolding match_names
match_names-perm [] m = Perm.refl (held m.found m.left_over)
match_names-perm (name ∷ names) m = Perm.trans (match_names-perm names (match_name name m)) (
    Perm.trans (Perm-append_left names (match_name-perm name m))
      (perm_middle names (held m.found m.left_over)))

empty-append : (xs ys : List String) → xs ++ ys ≡ [] → (xs ≡ []) × (ys ≡ [])
empty-append [] ys h = (refl, h)
empty-append (x ∷ xs) ys h = absurd (cc)

all_names-insert :
    (key : String) (d : Dict Groups) → all_names d ≡ [] → all_names (insert key no_groups d) ≡ []
unfolding all_names insert
all_names-insert key [] h = refl
all_names-insert key ((j, w) ∷ d) h =
    let (ups, others) = empty-append w.gate_up_names (w.down_names ++ all_names d) h in
    let (downs, rest) = empty-append w.down_names (all_names d) others in
    elim (Bool-cases (str_eq j key)) [
      | inl e ↦ rw (e) rest
      | inr e ↦ rw (e) (rw (ups, downs) (all_names-insert key d rest))
    ]

-- At the start, no group holds a name.
all_names-with_experts :
    (layer : ℤ) (experts : List ℤ) (d : Dict Groups)
    → all_names d ≡ []
    → all_names (with_experts layer experts d) ≡ []
unfolding with_experts
all_names-with_experts layer [] d h = h
all_names-with_experts layer (e ∷ es) d h =
    all_names-with_experts layer es (insert (owner_key layer e) no_groups d)
      (all_names-insert (owner_key layer e) d h)

all_names-with_layers :
    (layers experts : List ℤ) (d : Dict Groups)
    → all_names d ≡ []
    → all_names (with_layers layers experts d) ≡ []
unfolding with_layers
all_names-with_layers [] experts d h = h
all_names-with_layers (l ∷ ls) experts d h =
    all_names-with_layers ls experts (with_experts l experts d)
      (all_names-with_experts l experts d h)

-- Whatever is looked for, every weight name of the checkpoint is in exactly one place of the result:
-- the names of all the groups of `resolved` and the `unmatched` ones are a permutation of the names
-- that were given.
pub match_checkpoint_weights-Perm :
    {F : Type 0} (lower : String → String) (names : List String) (spec : ModelSpec F)
    (family : String) (layers experts : Option (List ℤ))
    → Perm
        (all_names (match_checkpoint_weights lower names spec family layers experts).resolved
          ++ (match_checkpoint_weights lower names spec family layers experts).unmatched)
        names
unfolding match_checkpoint_weights all_names
match_checkpoint_weights-Perm lower names spec family layers experts =
    let empty = with_layers (selected_layers spec layers) (selected_experts spec experts) [] in
    let sorted = sort_by text_leb names in
    let none_held : all_names empty ≡ [] =
      all_names-with_layers (selected_layers spec layers) (selected_experts spec experts) [] refl in
    Perm.trans (match_names-perm sorted (record { found = empty; left_over = [] }))
      (rw (none_held) (rw (append-nil sorted) (sort_by-perm text_leb names)))
