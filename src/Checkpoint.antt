-- ===== src/Checkpoint.antt =====
-- tilemem/checkpoint.py: checkpoints of models. This file has the names of the weights, and how
-- they are matched to the experts; the modules below it have the topology, the map of tiles and the
-- command that serves a checkpoint. `str.lower` is a parameter of the functions that use it.
pub mod Keys
pub mod Experts
pub mod Aliases
pub mod TileMap
pub mod HfConfig
pub mod Topology
pub mod Serving
pub mod Matching
pub mod Resolved
use Prim.Native.String.{◌++◌ as append}
use tile_mem.Common.{
  str_eq, if◌then◌else◌, is_empty, range, ℤ, pos, pos_part, leb_ℤ, eqb_ℤ, str_int, Dict, lookup,
  insert, split, text_leb, contains, sort_by, String, Bool, false, ◌||◌, Option, none, some, List,
  [], ◌∷◌, ◌++◌, map,
}
use tile_mem.Values.{int_of_text}
use tile_mem.ModelInterface.{ModelSpec}

-- A projection group of an expert; in the code it is one of two texts.
pub data Projection : Type 0 where
  gate_up down : Projection

-- `resolved[key]`
pub record Groups : Type 0 where
  pub gate_up_names : List String
  pub down_names : List String

pub record WeightMatchResult : Type 0 where
  pub family : String
  pub resolved : Dict Groups
  pub missing : List String
  pub unmatched : List String

-- What `_parse_weight_name` reads off a name: a layer, an expert and a group.
pub record WeightOwner : Type 0 where
  pub layer : ℤ
  pub expert : ℤ
  pub group : Projection

abbrev pub projection_text : Projection → String
projection_text gate_up = "gate_up"
projection_text down = "down"

-- `f"L{layer}:E{expert}"`
unfoldable pub owner_key : ℤ → ℤ → String
owner_key layer expert = append "L" (append (str_int layer) (append ":E" (str_int expert)))

abbrev pub group_names : Projection → Groups → List String
group_names gate_up groups = groups.gate_up_names
group_names down groups = groups.down_names

-- `text.endswith(tail)`
unfoldable pub ends_with : String → String → Bool
ends_with tail String.[] = str_eq tail ""
ends_with tail (String.◌∷◌ c s) =
    let shorter = ends_with tail s in str_eq (String.◌∷◌ c s) tail || shorter

-- An exception of `_number_after` ends `_parse_weight_name`, and so does a missing value.
infixl 5 ◌>>=◌
abbrev ◌>>=◌ {ℓ κ} : {A : Type ℓ} {B : Type κ} → Option A → (A → Option B) → Option B
none >>= rest = none
some a >>= rest = rest a

-- `_projection_group`, which ignores the family.
unfoldable pub projection_group : String → Option Projection
unfolding contains
projection_group leaf =
    if contains leaf ("w1" ∷ "gate_proj" ∷ "gate" ∷ "gate_up" ∷ [])
    then some gate_up
    else if contains leaf ("w3" ∷ "up_proj" ∷ "up" ∷ [])
    then some gate_up
    else if contains leaf ("w2" ∷ "down_proj" ∷ "down" ∷ [])
    then some down
    else none

-- A part of a name that `_projection_leaf` passes over
unfoldable pub is_suffix_part : String → Bool
unfolding ends_with
is_suffix_part part = str_eq part "weight" || str_eq part "bias" || ends_with "weight" part

-- `_projection_leaf`: the last part that is not passed over.
unfoldable pub projection_leaf : List String → Option String
unfolding is_suffix_part
projection_leaf [] = none
projection_leaf (part ∷ parts) = elim (projection_leaf parts) [
  | some leaf ↦ some leaf
  | none ↦ if is_suffix_part part then none else some part
]

-- `_number_after`: a marker that is not there and a part that `int` does not read raise the same
-- exception. The loop ends at the first marker that another part follows.
unfoldable pub number_after : List String → String → Option ℤ
unfolding int_of_text
number_after [] marker = none
number_after (part ∷ parts) marker = elim parts [
  | [] ↦ none
  | next ∷ others ↦ if str_eq part marker then int_of_text next else number_after parts marker
]

unfoldable pub parse_weight_name : String → Option WeightOwner
unfolding split number_after projection_leaf projection_group
parse_weight_name name = do
  layer ← number_after (split "." name) "layers"
  expert ← number_after (split "." name) "experts"
  leaf ← projection_leaf (split "." name)
  group ← projection_group leaf
  some (record { layer = layer; expert = expert; group = group })

abbrev pub no_groups : Groups
no_groups = record { gate_up_names = []; down_names = [] }

-- `sorted(set(int(item) for item in items))`
unfoldable pub has_int : ℤ → List ℤ → Bool
has_int n [] = false
has_int n (m ∷ ms) = eqb_ℤ m n || has_int n ms

unfoldable pub unique_ints : List ℤ → List ℤ
unfolding has_int
unique_ints [] = []
unique_ints (n ∷ ns) = let rest = unique_ints ns in if has_int n rest then rest else n ∷ rest

unfoldable pub sorted_ints : List ℤ → List ℤ
unfolding sort_by unique_ints
sorted_ints ns = sort_by leb_ℤ (unique_ints ns)

-- `range(n)`
abbrev pub int_range : ℤ → List ℤ
unfolding range
int_range n = map pos (range (pos_part n))

-- `resolved[key] = {"gate_up": [], "down": []}` for the pairs of a layer and an expert
unfoldable pub with_experts : ℤ → List ℤ → Dict Groups → Dict Groups
unfolding insert owner_key
with_experts layer [] resolved = resolved
with_experts layer (expert ∷ experts) resolved =
    with_experts layer experts (insert (owner_key layer expert) no_groups resolved)

unfoldable pub with_layers : List ℤ → List ℤ → Dict Groups → Dict Groups
unfolding with_experts
with_layers [] experts resolved = resolved
with_layers (layer ∷ layers) experts resolved =
    with_layers layers experts (with_experts layer experts resolved)

-- `groups[group].append(name)`
unfoldable pub add_name : Projection → String → Groups → Groups
add_name gate_up name groups = record groups { gate_up_names = groups.gate_up_names ++ (name ∷ []) }
add_name down name groups = record groups { down_names = groups.down_names ++ (name ∷ []) }

-- The variables of the loop over the names
pub record MatchLoop : Type 0 where
  pub found : Dict Groups
  pub left_over : List String

unfoldable pub pass_over : String → MatchLoop → MatchLoop
pass_over name m = record m { left_over = m.left_over ++ (name ∷ []) }

-- One name of the loop.
unfoldable pub match_name : String → MatchLoop → MatchLoop
unfolding parse_weight_name owner_key lookup insert add_name pass_over
match_name name m = elim (parse_weight_name name) [
  | none ↦ pass_over name m
  | some owner ↦
      let key = owner_key owner.layer owner.expert in
      elim (lookup key m.found) [
        | none ↦ pass_over name m
        | some groups ↦ record m { found = insert key (add_name owner.group name groups) m.found }
      ]
]

unfoldable pub match_names : List String → MatchLoop → MatchLoop
unfolding match_name
match_names [] m = m
match_names (name ∷ names) m = match_names names (match_name name m)

-- The loop over `resolved.items()` that collects what is missing
unfoldable pub missing_of : Dict Groups → List String
missing_of [] = []
missing_of ((key, groups) ∷ rest) =
    (if is_empty groups.gate_up_names then append key ":gate_up" ∷ [] else [])
    ++ (if is_empty groups.down_names then append key ":down" ∷ [] else [])
    ++ missing_of rest

-- `_normalize_family`
unfoldable pub normalize_family : (String → String) → String → String
unfolding contains
normalize_family lower family =
    if contains (lower family) ("auto" ∷ "" ∷ [])
    then "generic_moe"
    else if contains (lower family) ("qwen" ∷ "qwen2_moe" ∷ "qwen3_moe" ∷ [])
    then "qwen_moe"
    else lower family

abbrev pub min_ℤ : ℤ → ℤ → ℤ
min_ℤ a b = if leb_ℤ a b then a else b

-- The layers and the experts that are looked for; `none` stands for an argument left out.
unfoldable pub selected_layers : {F : Type 0} → ModelSpec F → Option (List ℤ) → List ℤ
unfolding sorted_ints
selected_layers spec layers =
    sorted_ints (elim layers [ none ↦ int_range spec.layers | some ns ↦ ns ])

unfoldable pub selected_experts : {F : Type 0} → ModelSpec F → Option (List ℤ) → List ℤ
unfolding sorted_ints
selected_experts spec experts = sorted_ints (elim experts [
  | none ↦ int_range (min_ℤ spec.expert_budget spec.experts_per_layer)
  | some ns ↦ ns
])

unfoldable pub match_checkpoint_weights :
    {F : Type 0}
    → (String → String)
    → List String
    → ModelSpec F
    → String
    → Option (List ℤ)
    → Option (List ℤ)
    → WeightMatchResult
unfolding normalize_family selected_layers selected_experts with_layers sort_by match_names
    missing_of
match_checkpoint_weights lower names spec family layers experts =
    let empty = with_layers (selected_layers spec layers) (selected_experts spec experts) [] in
    let matched = match_names (sort_by text_leb names) (record { found = empty; left_over = [] }) in
    record {
      family = normalize_family lower family;
      resolved = matched.found;
      missing = missing_of matched.found;
      unmatched = matched.left_over;
    }
