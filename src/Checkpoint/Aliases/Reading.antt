-- ===== src/Checkpoint/Aliases/Reading.antt =====
-- How `_parse_weight_name` reads the names that `build_runtime_weight_aliases` writes.
use Prim.Native.String.append
use Prim.Native.String.{◌∷◌ as ◌∷ˢ◌, ◌++◌ as append}
use text.Mathlib.TextLemmas.{append_assoc}
use tile_mem.Common.{
  str_eq, str_eq_iff, Bool-cases, All, ℤ, str_int, Dict, lookup, insert, insert_cases, split_parts,
  split, free_of, split-append, split-concat, contains, String, ◌≡◌, refl, sym, ap, ◌∙◌, subst, inl,
  inr, true, false, none, some, List, [], ◌∷◌,
}
use tile_mem.Values.{int_of_text}
use tile_mem.Values.Decimal.{int_of_text-str_int, free_of-str_int}
use tile_mem.Checkpoint.Keys.{owner_key-injective}
use tile_mem.Checkpoint.Aliases.{
  RuntimeAliases, alias_prefix, aliases_of, layer_aliases, all_aliases,
  build_runtime_weight_aliases,
}
use tile_mem.Checkpoint.{
  Projection, gate_up, down, owner_key, ends_with, projection_group, is_suffix_part,
  projection_leaf, number_after, parse_weight_name, sorted_ints,
}

after_dot : (t : String) → append "." t ≡ "." ∷ˢ t
after_dot t = append.cons "." "" t ∙ ap (λ s. "." ∷ˢ s) (append.nil t)

after_dot-experts : (t : String) → append ".experts." t ≡ "." ∷ˢ append "experts." t
after_dot-experts t = append.cons "." "experts." t

-- No number is spelled like the marker.
number_ne : (z : ℤ) → str_eq (str_int z) "experts" ≡ false
unfolding int_of_text
number_ne z = elim (Bool-cases (str_eq (str_int z) "experts")) [
  | inr e ↦ e
  | inl e ↦
      let same : str_int z ≡ "experts" = (str_eq_iff _ _).0 e in
      let read : some z ≡ none = sym (int_of_text-str_int z) ∙ ap int_of_text same in absurd (cc)
]

split-model : split "." "model.layers" ≡ "model" ∷ "layers" ∷ []
unfolding split split_parts
split-model = refl

split-experts : split "." "experts" ≡ "experts" ∷ []
unfolding split split_parts
split-experts = refl

module _ (block : String) (l e : ℤ) (rest : String) where
  alias_prefix-append :
      append (alias_prefix block l e) ("." ∷ˢ rest)
      ≡ append "model.layers." (
          append
            (str_int l)
            ("." ∷ˢ append block ("." ∷ˢ append "experts." (append (str_int e) ("." ∷ˢ rest)))))
  unfolding alias_prefix
  alias_prefix-append = simp (append_assoc) (simp (after_dot, after_dot-experts) refl)

  expert_parts : List String
  expert_parts = "model" ∷ "layers" ∷ str_int l ∷ block ∷ "experts" ∷ str_int e ∷ split "." rest

  split-alias_prefix :
      free_of "." block ≡ true
      → split "." (append (alias_prefix block l e) ("." ∷ˢ rest)) ≡ expert_parts
  unfolding expert_parts
  split-alias_prefix free =
      let dotless : (z : ℤ) → free_of "." (str_int z) ≡ true =
        λ z. free_of-str_int "." refl z refl in
      let tail = append (str_int e) ("." ∷ˢ rest) in
      let middle = append block ("." ∷ˢ append "experts." tail) in
      ap (split ".") alias_prefix-append
      ∙ rw
          (
            split-concat "." "model.layers" (append (str_int l) ("." ∷ˢ middle)),
            split-model,
            split-append "." (str_int l) middle (dotless l),
            split-append "." block (append "experts." tail) free,
            split-concat "." "experts" tail,
            split-experts,
            split-append "." (str_int e) rest (dotless e),
          )
          refl

  layer_number : str_eq block "layers" ≡ false → number_after expert_parts "layers" ≡ some l
  unfolding expert_parts number_after
  layer_number h = int_of_text-str_int l

  expert_number : str_eq block "experts" ≡ false → number_after expert_parts "experts" ≡ some e
  unfolding expert_parts number_after
  expert_number h = rw (number_ne l, h) (int_of_text-str_int e)

  leaf_part :
      (leaf : String)
      → projection_leaf (split "." rest) ≡ some leaf
      → projection_leaf expert_parts ≡ some leaf
  unfolding expert_parts projection_leaf
  leaf_part leaf h = rw (projection_leaf, h) refl

  -- A name with a block, a number of a layer and of an expert, and a leaf.
  parse_weight_name-prefix :
      (leaf : String) (p : Projection)
      → free_of "." block ≡ true
      → str_eq block "layers" ≡ false
      → str_eq block "experts" ≡ false
      → projection_leaf (split "." rest) ≡ some leaf
      → projection_group leaf ≡ some p
      → parse_weight_name (append (alias_prefix block l e) ("." ∷ˢ rest))
        ≡ some (record { layer = l; expert = e; group = p })
  unfolding parse_weight_name
  parse_weight_name-prefix leaf p free a b leaf_found group_found =
      rw
        (
          split-alias_prefix free,
          layer_number a,
          expert_number b,
          leaf_part leaf leaf_found,
          group_found,
        )
        refl

-- The name reads as a weight of this group of this expert.
abbrev pub Reads : ℤ → ℤ → Projection → String → Type 0
Reads l e p name = parse_weight_name name ≡ some (record { layer = l; expert = e; group = p })

-- All names of the two backends read as weights of the expert, each of its own group.
abbrev pub AreAliases : ℤ → ℤ → RuntimeAliases → Type 0
AreAliases l e a =
    All (Reads l e gate_up) a.kt.gate_up_names
    × All (Reads l e down) a.kt.down_names
    × All (Reads l e gate_up) a.sglang.gate_up_names
    × All (Reads l e down) a.sglang.down_names

aliases_of-Reads : (l e : ℤ) → AreAliases l e (aliases_of l e)
unfolding aliases_of projection_leaf projection_group split split_parts is_suffix_part free_of
    contains ends_with
aliases_of-Reads l e =
    let reads : (rest leaf : String) (p : Projection)
        → projection_leaf (split "." rest) ≡ some leaf
        → projection_group leaf ≡ some p
        → Reads l e p (append (alias_prefix "mlp" l e) ("." ∷ˢ rest)) =
      λ rest leaf p. parse_weight_name-prefix "mlp" l e rest leaf p refl refl refl in
    let mixtral : (rest leaf : String) (p : Projection)
        → projection_leaf (split "." rest) ≡ some leaf
        → projection_group leaf ≡ some p
        → Reads l e p (append (alias_prefix "block_sparse_moe" l e) ("." ∷ˢ rest)) =
      λ rest leaf p. parse_weight_name-prefix "block_sparse_moe" l e rest leaf p refl refl refl in
    (
      (reads "w1.weight" "w1" gate_up refl refl, (reads "w3.weight" "w3" gate_up refl refl, tt)),
      (reads "w2.weight" "w2" down refl refl, tt),
      (
        reads "gate_proj.weight" "gate_proj" gate_up refl refl,
        (
          reads "up_proj.weight" "up_proj" gate_up refl refl,
          (
            mixtral "w1.weight" "w1" gate_up refl refl,
            (mixtral "w3.weight" "w3" gate_up refl refl, tt),
          ),
        ),
      ),
      (
        reads "down_proj.weight" "down_proj" down refl refl,
        (mixtral "w2.weight" "w2" down refl refl, tt),
      ),
    )

-- A dictionary that has, under the key of an expert, only the aliases of that expert
unfoldable IsOwn : Dict RuntimeAliases → Type 0
IsOwn d = (l e : ℤ) (a : RuntimeAliases) → lookup (owner_key l e) d ≡ some a → a ≡ aliases_of l e

insert-IsOwn :
    (l e : ℤ) (d : Dict RuntimeAliases)
    → IsOwn d
    → IsOwn (insert (owner_key l e) (aliases_of l e) d)
unfolding IsOwn
insert-IsOwn l e d h l' e' a found =
    elim (insert_cases (owner_key l e) (owner_key l' e') (aliases_of l e) a d found) [
      | inl (keys, same) ↦
          let (layers, experts) = owner_key-injective l e l' e' keys in
          sym same ∙ rw (layers, experts) refl
      | inr (_, there) ↦ h l' e' a there
    ]

layer_aliases-IsOwn :
    (l : ℤ) (es : List ℤ) (d : Dict RuntimeAliases) → IsOwn d → IsOwn (layer_aliases l es d)
unfolding layer_aliases
layer_aliases-IsOwn l [] d h = h
layer_aliases-IsOwn l (e ∷ es) d h =
    layer_aliases-IsOwn l es (insert (owner_key l e) (aliases_of l e) d) (insert-IsOwn l e d h)

all_aliases-IsOwn :
    (ls es : List ℤ) (d : Dict RuntimeAliases) → IsOwn d → IsOwn (all_aliases ls es d)
unfolding all_aliases
all_aliases-IsOwn [] es d h = h
all_aliases-IsOwn (l ∷ ls) es d h =
    all_aliases-IsOwn ls es (layer_aliases l es d) (layer_aliases-IsOwn l es d h)

empty-IsOwn : IsOwn []
unfolding IsOwn lookup
empty-IsOwn l e a h = absurd (cc)

-- Whatever the layers and experts: each name that `build_runtime_weight_aliases` writes for an
-- expert, for the gate and up projections or the down projection, is read by `_parse_weight_name` as
-- a weight of that layer, that expert and that projection group.
pub build_runtime_weight_aliases-Reads :
    (ls es : List ℤ) (l e : ℤ) (a : RuntimeAliases)
    → lookup (owner_key l e) (build_runtime_weight_aliases ls es) ≡ some a
    → AreAliases l e a
unfolding build_runtime_weight_aliases IsOwn
build_runtime_weight_aliases-Reads ls es l e a h =
    let own = all_aliases-IsOwn (sorted_ints ls) (sorted_ints es) [] empty-IsOwn in
    subst (AreAliases l e) (sym (own l e a h)) (aliases_of-Reads l e)
