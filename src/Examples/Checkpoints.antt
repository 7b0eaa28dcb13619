-- ===== src/Examples/Checkpoints.antt =====
-- Weight names, aliases and configurations of a small checkpoint.
use mathlib.Core.List.{Perm}
use tile_mem.Common.{
  if◌then◌else◌, keep, ℤ, pos, str_int, Dict, lookup, ok, text_leb, sort_by, String, ◌≡◌, refl, not,
  ◌&&◌, Option, none, some, List, [], ◌∷◌, ◌++◌,
}
use tile_mem.Values.{int, str, Fields, fields_of, find, get, to_int, to_str}
use tile_mem.Checkpoint.{
  WeightMatchResult, owner_key, has_int, selected_layers, selected_experts,
  match_checkpoint_weights,
}
use tile_mem.Checkpoint.Matching.{all_names, match_checkpoint_weights-Perm}
use tile_mem.Checkpoint.Experts.{is_wanted}
use tile_mem.Checkpoint.Resolved.{groups_of, match_checkpoint_weights-resolved}
use tile_mem.Checkpoint.Aliases.{aliases_of, build_runtime_weight_aliases}
use tile_mem.Checkpoint.Aliases.Reading.{AreAliases, build_runtime_weight_aliases-Reads}
use tile_mem.Checkpoint.Topology.{
  MoeTopology, occurs, lowered, exact_key, lowered_key, lookup_key, infer_moe_topology,
}
use tile_mem.Checkpoint.HfConfig.{default_options, budget_of, model_spec_from_hf_config}
use tile_mem.Checkpoint.HfConfig.Inferred.{
  HasPositiveSizes, infer_moe_topology-HasPositiveSizes, inferred_spec,
  model_spec_from_hf_config_lem,
}
use tile_mem.Examples.{ints, toy_spec}

abbrev toy_names : List String
toy_names =
    "model.layers.0.mlp.experts.1.w2.weight" ∷ "model.layers.0.mlp.experts.1.w1.weight"
    ∷ "model.norm.weight" ∷ []

abbrev same_text : String → String
same_text s = s

abbrev one_layer : Option (List ℤ)
one_layer = some (pos 0 ∷ [])

abbrev two_experts : Option (List ℤ)
two_experts = some (pos 1 ∷ pos 0 ∷ pos 1 ∷ [])

abbrev toy_match : WeightMatchResult
toy_match = match_checkpoint_weights same_text toy_names toy_spec "auto" one_layer two_experts

match_checkpoint_weights-Perm_example :
    Perm (all_names toy_match.resolved ++ toy_match.unmatched) toy_names
match_checkpoint_weights-Perm_example =
    match_checkpoint_weights-Perm same_text toy_names toy_spec "auto" one_layer two_experts

match_checkpoint_weights-resolved_example :
    (lookup (owner_key (pos 0) (pos 1)) toy_match.resolved ≡ (
      if has_int (pos 0) (selected_layers toy_spec one_layer)
        && has_int (pos 1) (selected_experts toy_spec two_experts)
      then some (groups_of (pos 0) (pos 1) (sort_by text_leb toy_names))
      else none))
    × (toy_match.unmatched
        ≡ keep
            (λ n. not (
              is_wanted
                (selected_layers toy_spec one_layer)
                (selected_experts toy_spec two_experts)
                n))
            (sort_by text_leb toy_names))
match_checkpoint_weights-resolved_example =
    match_checkpoint_weights-resolved same_text toy_names toy_spec "auto" one_layer two_experts
      (pos 0) (pos 1)

build_runtime_weight_aliases-Reads_example :
    AreAliases (pos 0) (pos 12) (aliases_of (pos 0) (pos 12))
unfolding build_runtime_weight_aliases lookup str_int
build_runtime_weight_aliases-Reads_example =
    build_runtime_weight_aliases-Reads (pos 0 ∷ []) (pos 12 ∷ []) (pos 0) (pos 12)
      (aliases_of (pos 0) (pos 12)) refl

abbrev toy_files : Dict String
toy_files = ("model.layers.0.mlp.experts.1.w1.weight", "a.safetensors") ∷ []

abbrev toy_config : Fields ℤ
toy_config = fields_of (
    ("model_type", str "olmoe")
    ∷ ("num_hidden_layers", int (pos 4))
    ∷ ("num_experts", int (pos 8))
    ∷ ("hidden_size", int (pos 512))
    ∷ ("intermediate_size", int (pos 64))
    ∷ [])

abbrev toy_topology : MoeTopology
toy_topology = record {
  family = "olmoe";
  model_type = "olmoe";
  layers = pos 4;
  experts_per_layer = pos 8;
  active_experts_per_token = pos 2;
  hidden_size = pos 512;
  intermediate_size = pos 64;
  source_fields =
      ("layers", "num_hidden_layers")
      ∷ ("experts_per_layer", "num_experts")
      ∷ ("active_experts_per_token", "default")
      ∷ ("hidden_size", "hidden_size")
      ∷ ("intermediate_size", "intermediate_size")
      ∷ [];
}

toy_inferred : infer_moe_topology same_text ints toy_config ≡ ok toy_topology
unfolding infer_moe_topology get to_str to_int lookup_key exact_key lowered_key lowered find occurs
toy_inferred = refl

infer_moe_topology-HasPositiveSizes_example : HasPositiveSizes toy_topology
infer_moe_topology-HasPositiveSizes_example =
    infer_moe_topology-HasPositiveSizes same_text ints toy_config toy_topology toy_inferred

model_spec_from_hf_config_lem_example :
    model_spec_from_hf_config ints same_text toy_config default_options
    ≡ ok (inferred_spec same_text ints default_options toy_topology)
unfolding budget_of
model_spec_from_hf_config_lem_example =
    model_spec_from_hf_config_lem same_text ints toy_config default_options toy_topology
      toy_inferred refl refl
