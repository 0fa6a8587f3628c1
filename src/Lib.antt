-- ===== src/Lib.antt =====
-- DiSpec: a language model server with a paged KV cache, continuous batching, prefix reuse and
-- disaggregated workers. This library models the parts that decide who owns which memory, in which
-- order requests run, and what crosses a connection.
--
-- The parts, with the files of the repository:
-- * Prelude (Prelude/*): Booleans, lists, numbers and dictionaries, and `Outcome`, a Python call on a
--   mutable state that returns or raises and leaves a state either way.
-- * BlockManager, of dispec/kv/block_manager.py: the pool of physical blocks, reference counts and block
--   tables. `_free` and `_ref_count` are `Pool`; each method is a function of its name. IsValid says
--   that a stored count is exactly the number of references from the tables and from `pins`, the
--   references that others hold, and that a block is free exactly when it has none.
-- * PrefixCache, of dispec/kv/prefix_cache.py: `match` is match_blocks and `insert` is insert_blocks.
--   The cache and the engine share one manager, which is a field of the state here. Python's `hash`
--   is a parameter; where it matters that keys are distinct, that is a hypothesis.
-- * PagedCache, of dispec/kv/paged_cache.py: the map from positions to slots and the export and
--   import of a sequence. The record Tensors states what is used of PyTorch.
-- * Scheduler, of dispec/sched/scheduler.py: add_request, step and run_until_done. Requests are objects
--   that several lists name, so a store holds them and the lists hold ids. `step` is split along its
--   numbered phases: Step has phases 1 and 2, Finish has 3 to 5. The record Runner stands for the
--   forward pass, the logits and the sampling kernel.
-- * Rejection, of dispec/spec/rejection.py: the acceptance of draft tokens over exact weights, with the
--   generator as a state and its two draws as parameters.
-- * Speculative, of dispec/spec/speculative.py: `_forward`, on the cache of one model.
-- * CudaGraph, of dispec/engine/cuda_graph.py: the choice of a bucket and the padding of its inputs.
-- * KvTransfer, of dispec/kv/transfer.py: rotary turns in and out (strip_rope, apply_rope), the maps with
--   the checks of `_check` (Maps), and `load` (Files). Numbers are the elements of a commutative ring;
--   the record Linear states what is used of PyTorch on one row.
-- * Attention, of dispec/engine/triton_attn.py: both kernels. Pointers are functions of offsets, `-inf`
--   is `none`, and the record Floats states what is used of `exp`, `max` and division.
-- * ModelRunner, of dispec/engine/model_runner.py: the fusing of projections, the attention of a layer
--   with and without a decode batch, the forward pass and the logits. Modules of transformers and the
--   attention kernels are parameters, and the records of their operations say what is used of them.
-- * Engine, of dispec/engine/engine.py: `generate` of the single-sequence engine, with the reuse of the
--   prefix cache, the choice between the forward pass and a captured graph, and the clean-up. The calls
--   of the model and the replay of a graph are parameters, and each of them may raise.
-- * Workers, of dispec/workers: both stages of disaggregated.py and their helpers, the loops of the
--   two processes as turns over their queues (Disaggregated), and escalation.py (Escalation).
-- * Server, of dispec/router/server.py: a submit and a round of the scheduler thread are steps on the
--   scheduler, the autoscaler and a desk of pending requests, with what was sent to each.
-- * Autoscale, of dispec/router/autoscale.py. Thresholds are exact ratios instead of floats.
-- * Transport, of dispec/transport/tcp.py, cuda_ipc.py and base.py: a socket hands over a schedule of
--   pieces, of a byte at least; the IPC queue holds the dictionaries that payloads are packed into.
--
-- Bounds: recv_n runs its loop with fuel n + 1, which is enough since each round reads a byte or
-- raises. run_until_done has the source's own max_steps. Dictionaries are association lists, and the
-- free list is kept with its end first.
--
-- The loop of a kernel has fuel for a round for each token of the context, and a round takes a block of
-- one token at least. decode_from_kv and generate have fuel for max_new rounds, each of which adds a
-- token.
--
-- The parts that call the model runner (Scheduler, Speculative, Workers, Engine) take it as a parameter.
--
-- Not modelled: sampling, the HTTP front end, metrics and dashboards, loading and benchmarks. Element
-- types, devices and the starting of threads and processes do not appear.
pub mod Prelude
pub mod Attention
pub mod Autoscale
pub mod BlockManager
pub mod CudaGraph
pub mod Engine
pub mod KvTransfer
pub mod ModelRunner
pub mod PagedCache
pub mod PrefixCache
pub mod Rejection
pub mod Scheduler
pub mod Server
pub mod Speculative
pub mod Transport
pub mod Workers
