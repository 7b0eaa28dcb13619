-- ===== src/Lib.antt =====
-- A verification library for TileMEM: the Python packages tilepo/ and tilemem/ that cut the experts of a
-- mixture-of-experts model into tiles, plans where they lie, and runs them.
--
-- The parts, and how they meet:
--   * A `.tmem` plan (tilepo/dsl/parser.py) or a model specification (tilepo/model_interface.py) is
--     lowered to the intermediate representation MIR (tilepo/mir/schema.py) by tilepo/compiler.py or
--     by the specification's own builder. `build_manifest` lays the tiles of a model out in files.
--   * The runtime (tilepo/runtime/) loads a manifest and serves requests: it plans the hot tiles of a
--     request, checks the gates, brings the missing tiles to the GPU through a state machine, and
--     launches a backend or falls back.
--   * tilemem/checkpoint.py reads a specification off the configuration of a published model and finds
--     the weights of each tile by their names; tilemem/sdk.py plans such a specification.
--   * tilepo/integration.py turns a manifest into handles and asks a registry which backend takes them.
--
-- The files:
--   Common     shared helpers: Boolean tests, lists, integers over the native numbers, dictionaries in
--              insertion order, exceptions as results, sorting, sets of texts.
--   Values     the dynamic values of documents, with `int`, `float`, `str` and `bool` on them.
--   Mir        tilepo/mir/schema.py and io.py: Mir/Enums, Mir/TileId, Mir/Formats (the formats of
--              tilepo/integration.py), Mir/Model (the data classes and `validate`), Mir/Encode and
--              Mir/Decode (`to_dict` and `from_dict`), Mir/Manifest (`build_manifest`); the proofs lie
--              in Mir/RoundTrip, Mir/Documents, Mir/Validity and Mir/Manifest/Packing.
--   Compiler   tilepo/compiler.py: Compiler/Shards (`_fixed_shards`, `_covering_shards`), Compiler/Tiles
--              (the tile loops, shared with the model interface), Compiler/Ranges (`_tile_ranges`),
--              Compiler/Lower (`lower_plan_to_mir`, `_attach_ablation_metadata`),
--              Compiler/Drivers (`compile_plan` and `compile_model_spec`, without their files).
--   Dsl        tilepo/dsl/parser.py, over the lines of a text.
--   ModelInterface  tilepo/model_interface.py: the documents, and in ModelInterface/Build the lowering.
--   Runtime    tilepo/runtime/: Runtime/States (`TileState`), Runtime/Metrics, Runtime/Engine
--              (`TileMEMRuntime`, each method a function from the runtime to the runtime it leaves).
--   Admission  tilepo/admission/scheduler.py: the decisions and the plan of each workload.
--   Autotune, Calibration, Hotset  tilepo/autotune.py, tilepo/backends/calibration.py and the ranking
--              of tilepo/kt_hotset.py.
--   Integration  tilepo/integration.py: capabilities, the registry and the tile handles.
--   Checkpoint tilemem/checkpoint.py: the names of the weights and how they are matched to experts
--              (Checkpoint itself), Checkpoint/Aliases (`build_runtime_weight_aliases`),
--              Checkpoint/TileMap (`build_tile_checkpoint_map`), Checkpoint/Topology and
--              Checkpoint/HfConfig (`infer_moe_topology`, `model_spec_from_hf_config`),
--              Checkpoint/Serving (the serving command); the proofs lie in Checkpoint/Keys,
--              Checkpoint/Experts, Checkpoint/Matching and Checkpoint/Resolved.
--   KtPatch    tilepo/kt_patch/patch.py: the patch between a server and the runtime, mode by mode.
--   Kernels    tilepo/backends/common.py: the reference computations, over lists of rows; the proofs lie
--              in Kernels/Shapes, Kernels/Routed and Kernels/Returns.
--   Profiling  tilepo/profiling/profiler.py: the summary of the rows of a profile.
--   Finalizer  tilepo/admission/finalizer.py: the gate and the names of the copies.
--   Env        tilepo/env.py, and `_should_flush` of tilepo/kt_patch/sglang_hook.py.
--   Ablation   tilepo/ablation.py: the plan of one policy, as blocks; the proofs lie in Ablation/Tiles
--              and Ablation/Rendered.
--   Sweep      tilepo/sweep.py: the server's command, in Sweep/Bench the command of one run and in
--              Sweep/Runs the loops over the runs; the proofs lie in Sweep/Ports.
--   Sdk        tilemem/sdk.py: `model_spec` and `plan`, which join the parts above.
--   Examples   small inputs, and the theorems applied to them.
--
-- How the model is made: a Python exception is an `err` of `Result` that carries its class; a method
-- that changes `self` returns the new state; a dictionary is a list in insertion order; a Python int is
-- an integer over the native numbers, and a natural number where a check before it makes it positive.
-- Parameters stand for code outside the repository, or that only calls such code: the floats
-- (`Floats`), the SHA-256 digest, a backend's `execute`, `ast.literal_eval`, `str.lower`, how paths
-- are joined and the run of a serving command. No loop needs fuel but the printing of decimals, whose
-- fuel is the number itself, which bounds its digits.
--
-- Not modelled: wall-clock timings, files, subprocesses, the CUDA and TileLang backends, the C++
-- engine, the reporting, the execution of sweeps and the patching tools, which call other programs.
-- Text is read as ASCII where blanks and digits are meant. A request to the runtime is typed: its `topk`
-- is a list of pairs of integers, and a malformed one, at which Python raises, is left out; so is a
-- specification document whose parts are lists of pairs, which `dict` accepts.
mod Common
pub mod Values
pub mod Compiler
pub mod Mir
pub mod Runtime
pub mod Integration
pub mod Autotune
pub mod Admission
pub mod Calibration
pub mod Checkpoint
pub mod Finalizer
pub mod Env
pub mod Kernels
pub mod Profiling
pub mod Sdk
pub mod Sweep
pub mod Ablation
pub mod KtPatch
pub mod Hotset
pub mod Dsl
pub mod ModelInterface
pub mod Examples
