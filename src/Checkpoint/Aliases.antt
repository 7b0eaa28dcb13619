-- ===== src/Checkpoint/Aliases.antt =====
-- `build_runtime_weight_aliases`: the names that the serving backends give to the weights of an expert.
pub mod Reading
use Prim.Native.String.{◌++◌ as append}
use tile_mem.Common.{ℤ, str_int, Dict, insert, String, List, [], ◌∷◌}
use tile_mem.Checkpoint.{Groups, owner_key, sorted_ints}

-- `aliases[key]`
pub record RuntimeAliases : Type 0 where
  pub kt : Groups
  pub sglang : Groups

-- `f"model.layers.{layer}.mlp.experts.{expert}"`, or with the block of Mixtral
unfoldable pub alias_prefix : String → ℤ → ℤ → String
alias_prefix block layer expert =
    append "model.layers."
      (append (str_int layer) (append "." (append block (append ".experts." (str_int expert)))))

unfoldable pub aliases_of : ℤ → ℤ → RuntimeAliases
unfolding alias_prefix
aliases_of layer expert =
    let prefix = alias_prefix "mlp" layer expert in
    let mixtral_prefix = alias_prefix "block_sparse_moe" layer expert in
    record {
      kt = record {
        gate_up_names = append prefix ".w1.weight" ∷ append prefix ".w3.weight" ∷ [];
        down_names = append prefix ".w2.weight" ∷ [];
      };
      sglang = record {
        gate_up_names =
            append prefix ".gate_proj.weight"
            ∷ append prefix ".up_proj.weight"
            ∷ append mixtral_prefix ".w1.weight"
            ∷ append mixtral_prefix ".w3.weight"
            ∷ [];
        down_names = append prefix ".down_proj.weight" ∷ append mixtral_prefix ".w2.weight" ∷ [];
      };
    }

unfoldable pub layer_aliases : ℤ → List ℤ → Dict RuntimeAliases → Dict RuntimeAliases
unfolding insert owner_key aliases_of
layer_aliases layer [] aliases = aliases
layer_aliases layer (expert ∷ experts) aliases =
    layer_aliases layer experts (insert (owner_key layer expert) (aliases_of layer expert) aliases)

unfoldable pub all_aliases : List ℤ → List ℤ → Dict RuntimeAliases → Dict RuntimeAliases
unfolding layer_aliases
all_aliases [] experts aliases = aliases
all_aliases (layer ∷ layers) experts aliases =
    all_aliases layers experts (layer_aliases layer experts aliases)

unfoldable pub build_runtime_weight_aliases : List ℤ → List ℤ → Dict RuntimeAliases
unfolding all_aliases sorted_ints
build_runtime_weight_aliases layers experts =
    all_aliases (sorted_ints layers) (sorted_ints experts) []
