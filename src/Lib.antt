-- ===== src/Lib.antt =====
-- SWLP streams the weights of a transformer from disk block by block, and saves sweeps over the disk
-- by drafting tokens, by keeping key/value tensors and by reusing prefixes. This development models
-- the parts of src/swlp that decide which tokens come out and which data is kept.
--
-- Parts and files:
--   * Prelude: shared names, lists over the native numbers, results.
--   * Speculative: src/swlp/core/speculative.py. `NgramDrafter.propose` is `propose`, with its two
--     loops `back_off` and `scan`; `verify_greedy` is `verify_greedy`.
--   * Model: the interface of the streamed transformer (torch and transformers), a parameter.
--   * Decode: the decode loops of src/swlp/runner/swlp.py and src/swlp/runner/speculative.py, the
--     penalty of src/swlp/runner/hf.py; Decode/Prealloc: `PreallocBuffer` of
--     src/swlp/core/decode_cache.py and the loop that uses it.
--     Decode/Prefill: the prefill of `SWLPRunner.run`, in chunks and after a prefix hit.
--   * PrefixCache: `PrefixKVCache` of src/swlp/core/prefix_cache.py; PrefixCache/Tensors is the
--     interface of its tensors, PrefixCache/History runs sequences of its calls.
--   * Draft: src/swlp/runner/draft.py, the adaptive draft length and the resident draft model.
--   * KvCache: `KVCacheManager` of src/swlp/core/kv_cache.py. Its methods are `set_layer` (`set`),
--     `get_layer` (`get`), `maybe_evict`, `clear`, and the private steps under their own names.
--     KvCache/Backend is the interface of torch.save, zlib and the INT4 quantiser, which may refuse
--     tensors; KvCache/Written follows a call of `set`, also when the quantiser raises.
--   * ExpertCache: `MlxExpertCache` of src/swlp/runner/mlx_expert_cache.py; `get_many`, `prefetch`
--     and the private steps under their own names. The reads, the conversion of what was read and the
--     attribute `quant` are a parameter (`ExpertSource`), in which a read or a conversion may raise.
--   * ActivationCache: the class of this name in src/swlp/core/decode_cache.py.
--   * Codec: src/swlp/codec.py, the `.swz` container; Codec/Library is the interface of zlib, hashlib
--     and zipnn.
--   * Scheduling: what `SWLPRunner._run_blocks` of src/swlp/runner/swlp.py asks of a layer scheduler, as
--     an interface of operations and laws; Scheduling/Run is `_run_blocks` over it.
--   * Streaming: `StreamingScheduler` of src/swlp/core/streaming.py, with its operations under their own
--     names; `worker` is what its two thread pools do for one layer. Streaming/Reliable fills the
--     interface, for blocks that never refuse their state; Streaming/Errors has a block that does.
--     Streaming/Released follows the window of a sweep. A move to the meta device may fail.
--     Streaming/Buffers: the read buffers of the same class, a list of events being an interleaving of
--     its tasks; Streaming/Owned follows who may write to a buffer.
--   * ShardIo: src/swlp/core/shard_io.py, `read_into_tensor`, `read_shard_payload` and
--     `parse_safetensors_views` under their own names; `read_state` is the streaming path.
--   * ExpertBank: src/swlp/model/expert_bank.py. `_stacked_slices` is `stacked_slices`, in ExpertBank/Own are
--     the tensors of single experts, in ExpertBank/Index `_index_safetensors`, `build` and the split of a
--     layer, in ExpertBank/Read `_read_range` and `read_expert`. A file is the list of its bytes, and the
--     number of bytes that each read returns is a parameter.
--   * Threaded: `ThreadedScheduler` of src/swlp/core/scheduler.py; Threaded/Filled fills the same
--     interface.
--   * Experts, ExpertScheduler: the expert slots of src/swlp/runner/experts.py, and the recency list, the
--     staged reads and `ensure` of src/swlp/runner/expert_scheduler.py; ExpertScheduler/Routed joins them with
--     the routing history.
--   * Routing: `RoutingHistory` of src/swlp/core/moe_policy.py.
--   * CompressedCache: src/swlp/core/compressed_cache.py, the layers of the generation over KvCache.
--   * KvQuant: the integers of src/swlp/core/kv_quant.py, from the rounded values to the packed bytes.
--   * Batch: the lockstep loop of src/swlp/runner/batch.py.
--   * Rollback: `rollback_hybrid_cache` of src/swlp/runner/hybrid_rollback.py, with what a recorded sweep
--     keeps for it.
--   * Tests: the theorems at concrete inputs, with concrete instances of the parameters.
--
-- The runner holds a drafter, a cache and the model: a speculative sweep feeds the last token and the
-- draft (Decode.verify_step), verifies the picks (Speculative.verify_greedy), crops the cache and
-- reports to the drafter (Draft.observe).
-- A sweep itself is Scheduling.Run: before each block it asks the scheduler to prefetch the next ones,
-- ensures the block, calls it and evicts it. Background threads are steps (`worker`) that a schedule
-- places between the calls, in any order and number. Reads and copies to the device are numbered, and
-- a parameter gives the outcome of each, so that a later attempt may succeed.
--
-- Fuel: the `while` loop of the speculative runner runs on `max_new_tokens + 1` rounds. Each round
-- emits at least one token, and the result that it equals greedy decoding shows that they suffice.
-- The eviction loops of PrefixCache and ExpertCache run on a round for each entry, which their
-- results show to be enough. The loops that read a file run on a round for each byte: every read but
-- the last returns one at least. All other loops are structural: over lists, or over the rounds that a
-- `for` loop counts.
--
-- Not modelled: sampling, floating-point scores (a parameter), interleavings inside one call of a
-- scheduler other than those over the read buffers of plain shards, files that change while they are
-- read, mapped files, the JSON form of an expert index, the profiler, the resizing of expert slots,
-- clocks (an argument), file errors other than the ones that the code handles by a different path, log
-- records, the MLX back end, the command line, the servers, and the benchmarks.
pub mod Prelude
pub mod Speculative
pub mod Model
pub mod Decode
pub mod Draft
pub mod KvCache
pub mod PrefixCache
pub mod ExpertBank
pub mod ExpertCache
pub mod Codec
pub mod ActivationCache
pub mod Scheduling
pub mod Streaming
pub mod Threaded
pub mod ShardIo
pub mod Experts
pub mod ExpertScheduler
pub mod CompressedCache
pub mod Batch
pub mod KvQuant
pub mod Rollback
pub mod Routing
pub mod Tests
