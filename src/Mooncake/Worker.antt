-- ===== src/Mooncake/Worker.antt =====
-- vllm_ascend/distributed/mooncake_connector.py, MooncakeConnectorWorker: its sizes and ports, the
-- memory it registers, and what it asks the receiving thread for.
pub mod Ranks
pub mod Ports
use vllm_ascend_origin.Prelude.{
  ℕ, zero, suc, ◌+◌, ◌*◌, ◌-◌, ◌%◌, Bool, true, false, not, Option, none, some, List, [], ◌∷◌, ◌++◌,
  ◌==◌, if◌then◌else◌, ltb, length, get_elem?, drop,
}
use vllm_ascend_origin.Prelude.Result.{
  assertion_error, runtime_error, value_error, index_error, Result, ok, err, guard, or_fail, ◌>>=◌,
  ◌>>◌,
}
use vllm_ascend_origin.Prelude.Step.{Step}
use vllm_ascend_origin.Mooncake.Connector.{ReqMeta}
use vllm_ascend_origin.Mooncake.Tracker.{
  KvCacheTaskTracker, init_tracker, get_and_clear_finished_requests,
}
use vllm_ascend_origin.Mooncake.Sockets.{PullRequest, RecvingThread}
use vllm_ascend_origin.Mooncake.Receiver.{add_request, insert_port}

-- `prefill` or `decode` of the extra config: a key that is absent is `none`.
pub record SideConfig : Type 0 where
  pub tp_size : Option ℕ
  pub dp_size : Option ℕ

pub record SideSizes : Type 0 where
  pub prefill_tp_size : ℕ
  pub prefill_dp_size : ℕ
  pub decode_tp_size : ℕ
  pub decode_dp_size : ℕ

unfoldable pub get_prefill_decode_size : SideConfig → SideConfig → Result SideSizes
get_prefill_decode_size prefill decode =
    or_fail prefill.tp_size assertion_error >>= λ prefill_tp_size.
    or_fail prefill.dp_size assertion_error >>= λ prefill_dp_size.
    or_fail decode.tp_size assertion_error >>= λ decode_tp_size.
    or_fail decode.dp_size assertion_error >>= λ decode_dp_size. ok (record {
      prefill_tp_size = prefill_tp_size;
      prefill_dp_size = prefill_dp_size;
      decode_tp_size = decode_tp_size;
      decode_dp_size = decode_dp_size;
    })

-- range(start, start + count)
unfoldable pub range : ℕ → ℕ → List ℕ
range start zero = []
range start (suc count) = start ∷ range (suc start) count

-- What the constructor reads of the configuration and of its process.
pub record WorkerConfig : Type 0 where
  pub prefill : SideConfig
  pub decode : SideConfig
  pub tp_rank : ℕ
  pub tp_size : ℕ
  pub dp_rank : ℕ
  pub kv_port : ℕ
  -- ASCEND_RT_VISIBLE_DEVICES, parsed
  pub visible_devices : Option (List ℕ)

pub record ConnectorWorker : Type 0 where
  pub sizes : SideSizes
  pub tp_rank : ℕ
  pub side_channel_port : ℕ
  pub handshake_port : ℕ
  pub device_id : ℕ

unfoldable pub side_channel_port_of : ℕ → ℕ → ℕ → ℕ
side_channel_port_of kv_port dp_rank tp_size = kv_port + dp_rank * tp_size

unfoldable pub device_ids : WorkerConfig → List ℕ
device_ids c = elim c.visible_devices [
  | none ↦ range (c.dp_rank * c.tp_size) c.tp_size
  | some ids ↦ ids
]

unfoldable pub build_worker : WorkerConfig → SideSizes → ℕ → ConnectorWorker
build_worker c sizes device_id = record {
  sizes = sizes;
  tp_rank = c.tp_rank;
  side_channel_port = side_channel_port_of c.kv_port c.dp_rank c.tp_size;
  handshake_port = side_channel_port_of c.kv_port c.dp_rank c.tp_size + c.tp_rank;
  device_id = device_id;
}

-- `available`: mooncake could be imported; `initialize` is the engine's, on the device.
unfoldable pub init_worker : Bool → (ℕ → ℕ) → WorkerConfig → Result ConnectorWorker
init_worker available initialize c = get_prefill_decode_size c.prefill c.decode >>= λ sizes.
    guard (not (ltb sizes.prefill_tp_size sizes.decode_tp_size)) value_error >>= λ _.
    guard available runtime_error >>= λ _.
    guard (ltb c.tp_rank (length (device_ids c))) assertion_error >>= λ _.
    or_fail (get_elem? (device_ids c) c.tp_rank) index_error >>= λ device_id.
    guard (initialize device_id == 0) runtime_error >>= λ _. ok (build_worker c sizes device_id)

-- A tensor of a KV cache, as far as it is registered.
pub record Cache : Type 0 where
  pub element_size : ℕ
  pub shape : List ℕ
  pub data_ptr : ℕ

unfoldable pub prod : List ℕ → ℕ
prod [] = 1
prod (n ∷ ns) = n * prod ns

-- `cache.size(-1)`
unfoldable pub last_size : List ℕ → Option ℕ
last_size [] = none
last_size (n ∷ []) = some n
last_size (n ∷ (m ∷ ns)) = last_size (m ∷ ns)

-- `math.prod(cache.shape[-3:])`
unfoldable pub block_items : Cache → ℕ
block_items cache = prod (drop (length cache.shape - 3) cache.shape)

pub record CacheLayout : Type 0 where
  pub use_mla : Bool
  pub num_blocks : ℕ
  pub block_len_0 : ℕ
  pub block_len_1 : ℕ

-- The layout, from the first tuple. With MLA the second block length is read off `first_kv_cache[1]`,
-- which is the second block of the first cache and must exist. Without, there is no second length.
unfoldable pub cache_layout : Cache → Cache → Result CacheLayout
cache_layout first second = or_fail (last_size first.shape) index_error >>= λ dim_0.
    or_fail (last_size second.shape) index_error >>= λ dim_1.
    or_fail (get_elem? first.shape 0) index_error >>= λ num_blocks.
    if dim_0 == dim_1
    then ok (record {
      use_mla = false;
      num_blocks = num_blocks;
      block_len_0 = first.element_size * block_items first;
      block_len_1 = 0;
    })
    else (guard (ltb 1 num_blocks) index_error
        >> ok (record {
          use_mla = true;
          num_blocks = num_blocks;
          block_len_0 = first.element_size * block_items first;
          block_len_1 = first.element_size * block_items second;
        }))

-- The base address and the length of each region, for the caches of one layer, from index `i` on.
unfoldable pub layer_regions : CacheLayout → ℕ → List Cache → List (ℕ × ℕ)
layer_regions layout i [] = []
layer_regions layout i (cache ∷ caches) =
    let block_len =
      if layout.use_mla
      then (if i % 2 == 0 then layout.block_len_0 else layout.block_len_1)
      else layout.block_len_0 in
    (cache.data_ptr, layout.num_blocks * block_len) ∷ layer_regions layout (suc i) caches

unfoldable pub regions : CacheLayout → List (List Cache) → List (ℕ × ℕ)
regions layout [] = []
regions layout (caches ∷ layers) = layer_regions layout 0 caches ++ regions layout layers

-- `register_memory` is the engine's; all regions before one that fails are registered.
unfoldable pub register_all : (ℕ → ℕ → ℕ) → List (ℕ × ℕ) → Result (List ℕ)
register_all register_memory [] = ok []
register_all register_memory ((ptr, size) ∷ rest) =
    guard (register_memory ptr size == 0) runtime_error
    >> (register_all register_memory rest >>= λ addresses. ok (ptr ∷ addresses))

-- The layout and the base addresses that the thread is started with.
unfoldable pub register_kv_caches : (ℕ → ℕ → ℕ) → List (List Cache) → Result (CacheLayout × List ℕ)
register_kv_caches register_memory [] = err runtime_error
register_kv_caches register_memory ([] ∷ layers) = err index_error
register_kv_caches register_memory ((first ∷ []) ∷ layers) = err index_error
register_kv_caches register_memory ((first ∷ (second ∷ caches)) ∷ layers) =
    cache_layout first second >>= λ layout.
    register_all register_memory (regions layout ((first ∷ second ∷ caches) ∷ layers))
    >>= λ addresses. ok (layout, addresses)

-- KVCacheRecvingThread.__init__: it knows its own addresses, and nothing waits.
unfoldable pub init_thread :
    {World Socket : Type 0}
    → ConnectorWorker
    → ℕ
    → ℕ
    → CacheLayout × List ℕ
    → World
    → RecvingThread World Socket
init_thread w tp_size engine_id (layout, addresses) world = record {
  tp_rank = w.tp_rank;
  local_engine_id = engine_id;
  local_handshake_port = w.handshake_port;
  kv_caches_base_addr = insert_port engine_id w.handshake_port addresses [];
  remote_te_port = [];
  use_mla = layout.use_mla;
  block_len_0 = layout.block_len_0;
  block_len_1 = layout.block_len_1;
  task_tracker = init_tracker w.tp_rank tp_size;
  signals = [];
  remote_sockets = [];
  request_queue = [];
  unfinished_tasks = 0;
  world = world;
}

-- The random.Random(seed).sample(range(n), k) and string_to_int64_hash of a request's id.
module _ (sample : ℕ → ℕ → ℕ → List ℕ) (string_to_int64_hash : ℕ → ℕ) where
  unfoldable pub get_remote_tp_ranks_for_req : SideSizes → ℕ → List ℕ
  get_remote_tp_ranks_for_req sizes request =
      if sizes.prefill_tp_size == sizes.decode_tp_size
      then range 0 sizes.prefill_tp_size
      else sample (string_to_int64_hash request) sizes.prefill_tp_size sizes.decode_tp_size

  unfoldable pub get_remote_tp_rank : ConnectorWorker → ℕ → Result ℕ
  get_remote_tp_rank w request =
      or_fail (get_elem? (get_remote_tp_ranks_for_req w.sizes request) w.tp_rank) index_error

  -- Over the requests of the metadata; what has been added stays when a later one raises.
  unfoldable pub pull_request : ConnectorWorker → ℕ → ReqMeta → Result PullRequest
  pull_request w request meta = get_remote_tp_rank w request >>= λ rank. ok (record {
    request_id = request;
    local_block_ids = meta.local_block_ids;
    remote_block_ids = meta.remote_block_ids;
    remote_engine_id = meta.remote_engine_id;
    remote_host = meta.remote_host;
    remote_handshake_port = meta.remote_port + rank;
  })

  unfoldable pub start_load_kv :
      {World Socket : Type 0}
      → ConnectorWorker
      → List (ℕ × ReqMeta)
      → Step (RecvingThread World Socket) (Unit {0})
  start_load_kv w [] t = (ok tt, t)
  start_load_kv w ((request, meta) ∷ requests) t = elim (pull_request w request meta) [
    | ok req ↦ start_load_kv w requests (add_request req t)
    | err e ↦ (err e, t)
  ]

pub data KvRole : Type 0 where
  kv_producer kv_consumer kv_both : KvRole

-- The trackers are those of the sending and of the receiving thread.
unfoldable pub get_finished :
    KvRole
    → KvCacheTaskTracker
    → KvCacheTaskTracker
    → (List ℕ × List ℕ) × KvCacheTaskTracker × KvCacheTaskTracker
get_finished kv_producer sending recving =
    let (done, sending') = get_and_clear_finished_requests sending in
    ((done, []), sending', recving)
get_finished kv_consumer sending recving =
    let (done, recving') = get_and_clear_finished_requests recving in
    (([], done), sending, recving')
get_finished kv_both sending recving = (([], []), sending, recving)
