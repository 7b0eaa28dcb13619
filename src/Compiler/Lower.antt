-- ===== src/Compiler/Lower.antt =====
-- `lower_plan_to_mir` and `_attach_ablation_metadata` of tilepo/compiler.py.
use text.Mathlib.Text.{starts_with}
use tile_mem.Common.{
  str_eq, if◌then◌else◌, length, pos, Result, ok, ◌>>=◌, ◌>>◌, traverse, String, false, some, List,
  [], ◌∷◌, map,
}
use tile_mem.Values.{
  Value, bool, int, float, str, list, nil, Fields, Floats, items_of, get, iterate, to_int, to_float,
  to_str, to_bool,
}
use tile_mem.Dsl.{DslBlock, required_block}
use tile_mem.Mir.Enums.{
  TileDType, RuntimeMode, Backend, DeploymentMode, to_dtype, to_mode, to_backend, to_deployment,
}
use tile_mem.Mir.Model.{TileIr, ChainItem, ModelIr, model_validate}
use tile_mem.Mir.Decode.{chain_item}
use tile_mem.Compiler.Tiles.{select_tile_dtype, lower_tiles, hot_experts}
use tile_mem.Compiler.Ranges.{PlanSizes, plan_sizes, tile_ranges}
use tile_mem.Mir.Manifest.{Manifest}

-- `mode_text[:-5] if mode_text.endswith("_mode") else mode_text`
unfoldable pub drop_mode : String → String
drop_mode String.[] = String.[]
drop_mode (String.◌∷◌ c s) =
    let rest = String.◌∷◌ c (drop_mode s) in
    if str_eq (String.◌∷◌ c s) "_mode" then String.[] else rest

module _ (fl : Floats) where
  open fl use {Float, of_int}

  abbrev names : List String → Value Float
  names xs = list (items_of (map str xs))

  -- The mode, the deployment mode and the backends.
  unfoldable pub plan_modes :
      Fields Float → Fields Float → Result (RuntimeMode × DeploymentMode × List Backend)
  unfolding get to_str iterate to_mode to_deployment to_backend traverse drop_mode
  plan_modes schedule runtime = do
    mode ← to_mode {F = Float} (str (drop_mode (to_str fl (get "mode" (str "shadow") runtime))))
    deployment ←
        to_deployment {F = Float}
          (str (to_str fl (get "deployment_mode" (str "balanced") schedule)))
    items ←
        iterate (get "backend_priority" (names ("cuda" ∷ "tilelang" ∷ "kt_fallback" ∷ [])) schedule)
    backends ← traverse to_backend items
    ok (mode, deployment, backends)

  unfoldable pub plan_chain : Fields Float → Result (List ChainItem)
  unfolding get iterate traverse chain_item
  plan_chain runtime = do
    items ← iterate (get "fallback_chain" (names ("mxfp4" ∷ "fp8" ∷ "bf16" ∷ "kt" ∷ [])) runtime)
    traverse (chain_item fl) items

  -- The seven blocks that the lowering reads.
  pub record PlanBlocks : Type 0 where
    pub model : DslBlock Float
    pub workload : DslBlock Float
    pub tile : DslBlock Float
    pub memory_block : DslBlock Float
    pub precision : DslBlock Float
    pub schedule : DslBlock Float
    pub runtime : DslBlock Float

  unfoldable pub plan_blocks : List (DslBlock Float) → Result PlanBlocks
  unfolding required_block
  plan_blocks plan = do
    model ← required_block "model" plan
    workload ← required_block "workload" plan
    tile ← required_block "tile" plan
    mem ← required_block "memory" plan
    precision ← required_block "precision" plan
    schedule ← required_block "schedule" plan
    runtime ← required_block "runtime" plan
    ok (record {
      model = model;
      workload = workload;
      tile = tile;
      memory_block = mem;
      precision = precision;
      schedule = schedule;
      runtime = runtime;
    })

  -- The projection groups, the allowed types and the type of the tiles.
  unfoldable pub plan_types :
      Fields Float → Fields Float → Result (List String × List TileDType × TileDType)
  unfolding get to_str iterate to_dtype traverse select_tile_dtype
  plan_types tile precision = do
    groups ← iterate (get "projection_groups" (names ("gate_up" ∷ "down" ∷ [])) tile)
    items ← iterate (get "allow" (names ("bf16" ∷ [])) precision)
    allowed ← traverse to_dtype items
    dtype ←
        select_tile_dtype "no supported dtype in precision allow list" allowed
          (to_str fl (get "dtype_policy" (str "bf16") precision))
    ok (map (to_str fl) groups, allowed, dtype)

  -- The two budgets and the gates, which are read last.
  unfoldable pub plan_limits : Fields Float → Fields Float → Result (Float × Float × List String)
  unfolding get to_str iterate to_float
  plan_limits memory_values runtime = do
    let nought : Value Float = float (of_int (pos 0))
    gpu ← to_float fl (get "gpu_cache_budget_gib" nought memory_values)
    cpu ← to_float fl (get "cpu_cache_budget_gib" nought memory_values)
    gates ← iterate (get "gates" (list nil) runtime)
    ok (gpu, cpu, map (to_str fl) gates)

  -- The tile loops, by the tile block.
  unfoldable pub plan_tiles :
      Fields Float → PlanSizes → List String → TileDType → Result (List TileIr)
  unfolding get to_str lower_tiles tile_ranges
  plan_tiles tile sizes groups dtype =
      lower_tiles (tile_ranges fl tile (to_str fl (get "tile_policy" (str "uniform") tile)) sizes)
        sizes.hidden_size dtype sizes.layers sizes.experts_budget groups

  -- `lower_plan_to_mir`
  unfoldable pub lower_plan_to_mir : List (DslBlock Float) → Result (ModelIr Float)
  unfolding plan_blocks plan_sizes plan_types plan_tiles plan_modes plan_chain plan_limits
      hot_experts get to_str to_bool model_validate
  lower_plan_to_mir plan = do
    b ← plan_blocks plan
    sizes ← plan_sizes fl b.model.values b.memory_block.values b.tile.values
    (groups, allowed, dtype) ← plan_types b.tile.values b.precision.values
    tiles ← plan_tiles b.tile.values sizes groups dtype
    (mode, deployment, backends) ← plan_modes b.schedule.values b.runtime.values
    chain ← plan_chain b.runtime.values
    (gpu, cpu, gates) ← plan_limits b.memory_block.values b.runtime.values
    let mir : ModelIr Float = record {
      name = b.model.name;
      layers = pos sizes.layers;
      experts_per_layer = pos sizes.experts;
      hidden_size = pos sizes.hidden_size;
      intermediate_size = pos sizes.intermediate_size;
      routes =
          record {
            workload = to_str fl (get "label" (str b.workload.name) b.workload.values);
            hot_experts = hot_experts sizes.layers sizes.experts_budget;
          }
          ∷ [];
      tiles = tiles;
      residency = record {
        gpu_cache_budget_gib = gpu;
        cpu_cache_budget_gib = cpu;
        gpu_hot_tiles = map (λ (t : TileIr). t.tile_id) tiles;
        fallback_chain = chain;
      };
      precision = record {
        dtype_policy = to_str fl (get "dtype_policy" (str "bf16") b.precision.values);
        allowed = allowed;
        calibration_required =
            to_bool fl (get "calibration_required" (bool false) b.precision.values);
      };
      schedule = record {
        mode = mode;
        deployment_mode = deployment;
        backend_priority = backends;
        runtime_gates = gates;
        prewarm_policy = to_str fl (get "prewarm_policy" (str "none") b.schedule.values);
        miss_policy = to_str fl (get "miss_policy" (str "fallback") b.schedule.values);
      };
    }
    model_validate fl mir
    ok mir

  -- `_attach_ablation_metadata`, once the policy is seen to be an ablation
  unfoldable pub ablation_manifest :
      (Manifest → String)
      → String
      → Fields Float
      → List (DslBlock Float)
      → Manifest
      → Result Manifest
  unfolding required_block get to_int to_bool
  ablation_manifest digest policy tile plan m = do
    mem ← required_block "memory" plan
    schedule ← required_block "schedule" plan
    let asynchronous = to_bool fl (get "async_planning" (bool false) schedule.values)
    budget ← to_int fl (get "experts_per_layer" (int (pos 0)) mem.values)
    hot ← to_int fl (get "hot_expert_budget" (int (pos 0)) tile)
    let m' : Manifest = record m {
      tilepo_plan = some (record {
        policy = policy;
        async_planning = asynchronous;
        expert_budget = budget;
        tile_count = length m.layout.tile_offsets;
        gpu_hot_tile_count = length m.gpu_hot_tiles;
        hot_expert_budget = hot;
      });
      tilepo_policy = some policy;
      tilepo_async_planning = some (if asynchronous then "on" else "off");
    }
    ok (record m' { checksum = some (digest m') })

  -- `_attach_ablation_metadata`; `digest` stands for the checksum of the manifest's JSON text.
  unfoldable pub attach_ablation_metadata :
      (Manifest → String) → List (DslBlock Float) → Manifest → Result Manifest
  unfolding required_block get to_str ablation_manifest
  attach_ablation_metadata digest plan m = do
    tile ← required_block "tile" plan
    let policy = to_str fl (get "tile_policy" (str "") tile.values)
    let attached = ablation_manifest digest policy tile.values plan m
    if starts_with policy "tilepo_" then attached else ok m
