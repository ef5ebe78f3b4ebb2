-- ===== src/Lib.antt =====
-- Verification of the core of vllm-ascend, the Ascend backend of vllm.
--
-- Parts, and the files that model them (paths from the repository's root):
-- * vllm_ascend/core/scheduler.py, AscendScheduler: Scheduler. Scheduler/State has the state, the
--   locals of `schedule` (Plan, Frame) and vllm as a parameter (Vllm); Scheduler/Limits the prompt
--   limit and the watermark; Scheduler/Prefill and Scheduler/Decode the two loops of `schedule`, a
--   round each and its loop; Scheduler/Schedule the step as a whole, finish_requests and
--   update_from_output.
-- * vllm_ascend/worker/npu_input_batch.py, the input batch: InputBatch. InputBatch/State has the
--   state, and as a parameter what is called of vllm and torch (Ext: floats, the update builder,
--   the block table); InputBatch/Requests has add_request, InputBatch/Moves remove_request and
--   swap_states, and InputBatch/Condense the loop over the holes, whose fuel is one more than
--   there are holes. InputBatch/View is the abstract view, a map from request ids to rows (the
--   arrays, block table, mask, generators and bad words at the index of the request), which
--   Dense, Exchange and Vacate relate to condense, swap_states and remove_request.
-- * vllm_ascend/distributed/mooncake_connector.py, the Mooncake connector: Mooncake.
--   Mooncake/Tracker has KVCacheTaskTracker and the messages of the sending thread;
--   Mooncake/Transfer the grouping of blocks and the lists of transfers of _transfer_kv_cache;
--   Mooncake/Connector the scheduler side, where the metadata that one engine's request_finished
--   returns come in as the kv_transfer_params of another's request; Mooncake/Sockets the retries,
--   with zmq, msgspec and the transfer engine as a parameter (Transport) that acts on the outside
--   world as it likes; Mooncake/Receiver the receiving thread, its queue, its pool of sockets and
--   _transfer_kv_cache; Mooncake/Worker the worker side: sizes, ports, registered memory and
--   start_load_kv, with random.sample as a parameter.
-- * vllm_ascend/device_allocator/camem.py, the memory pool of the sleep mode: Allocator, with the
--   driver as a parameter (Driver); Allocator/Memory is about the device's memory.
-- * vllm_ascend/sample/rejection_sampler.py, the rejection sampler: RejectionSampler, with floats
--   as a parameter (Floats): random sampling, the recovered tokens, the expansion to tokens, and
--   the greedy case of one draft each. RejectionSampler/Emitted has the rule that the rows follow,
--   and RejectionSampler/Drawn that of a single draft.
-- * vllm_ascend/compilation/acl_graph.py, the cache of captured graphs: AclGraph, with the runnable,
--   the capture and the replay as a parameter (Runtime) that acts on the outside world.
-- * vllm_ascend/ops/expert_load_balancer.py, the expert load balancer: ExpertLoadBalancer, with
--   random.choice as a parameter.
-- * vllm_ascend/multistream/ms_split.py, the split of a batch into two micro batches: Multistream,
--   with the comparison of floats as a parameter; Multistream/Parts has the prefills and decodes of
--   the halves, and Multistream/MicroBatch the split and merge of
--   the tensors in vllm_ascend/multistream/metadata.py.
-- * vllm_ascend/utils.py, the limit on the batch sizes of captured graphs: Utils, with the rounding
--   of floats and vllm's own treatment of the sizes as a parameter (Outside).
-- * vllm_ascend/ascend_forward_context.py, the padding, mask and expert state of a forward pass:
--   ForwardContext.
-- * vllm_ascend/core/schedule_config.py, the scheduler's configuration: ScheduleConfig.
-- * Prelude has the shared names, Boolean tests, lists, arrays, dicts and integers.
--
-- How code becomes a definition: a request is an object in a map under its id, and lists of
-- requests are lists of ids, so that aliases see one another's writes. A text that is only
-- compared (a request id, an engine id, a host) is a number. An exception is an `err`; the state
-- at the raise is kept where a context manager is left by one (Allocator) and where code goes on
-- after it (Step, in Mooncake/Receiver, AclGraph and Utils), and elsewhere it is not. Counts are
-- natural numbers; where Python's difference may be negative, the definition says what happens
-- there; what the token budget lacks below 0 is a field of its own (Plan.overdraft). Logging,
-- timing and statistics are left out.
--
-- Loops and fuel: the prefill loop is a recursion on the waiting queue. The decode loop and the
-- preemption loop in it take fuel, one more than the running requests, and as many as there are:
-- Scheduler/Faults shows that neither runs out. The retries of the connector are a recursion on
-- those left; the rounds of its receiving thread are those over the queue it finds (run), after
-- which it waits.
--
-- Not modelled: networks, attention, operators and quantization, which are tensor and float
-- code; the sockets and encodings of the connector, and the interleaving of its threads; the
-- transfer engine, the device driver and vllm's own classes, which are parameters; the
-- vectorised greedy rejection sampling; the streams and events of micro batches; the device
-- copies of the input batch and its sampling metadata.
pub mod Prelude
pub mod Scheduler
pub mod Mooncake
pub mod InputBatch
pub mod Allocator
pub mod AclGraph
pub mod ExpertLoadBalancer
pub mod RejectionSampler
pub mod ScheduleConfig
pub mod Multistream
pub mod Utils
pub mod ForwardContext
