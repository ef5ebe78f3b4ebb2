-- ===== src/Allocator.antt =====
-- vllm_ascend/device_allocator/camem.py: CaMemAllocator, the memory pool of the sleep mode.
pub mod Memory
pub mod Sleep
mod Tests
use vllm_ascend_origin.Prelude.{
  ℕ, ◌+◌, Bool, true, not, Option, none, some, List, [], ◌∷◌, elem, lookup, insert, erase,
  if◌then◌else◌,
}
use vllm_ascend_origin.Prelude.Result.{
  Fault, Result, ok, ◌>>=◌, ◌>>◌, guard, or_fail, key_error, assertion_error,
}

-- py_device, py_alignedSize, py_d_mem, py_p_memHandle
pub record HandleType : Type 0 where
  pub device : ℕ
  pub aligned_size : ℕ
  pub d_mem : ℕ
  pub mem_handle : ℕ

-- The driver and torch: `Device` is the state of the device's memory, `Host` a pinned tensor.
pub record Driver : Type 1 where
  pub Device : Type 0
  pub Host : Type 0
  pub Pool : Type 0
  -- memcpy of a number of bytes from a device address to a new tensor, and back from a tensor.
  pub memcpy_to_host : ℕ → ℕ → Device → Host
  pub memcpy_to_device : ℕ → Host → Device → Device
  pub create_and_map : HandleType → Device → Device
  pub unmap_and_release : HandleType → Device → Device

pub record AllocationData (D : Driver) : Type 0 where
  pub handle : HandleType
  pub tag : ℕ
  pub cpu_backup_tensor : Option D.Host

-- Tags are numbers.
pub record CaMemAllocator (D : Driver) : Type 0 where
  pub pointer_to_data : List (ℕ × AllocationData D)
  pub current_tag : ℕ
  pub allocator_and_pools : List (ℕ × D.Pool)
  pub device : D.Device

-- The argument of sleep: None, one tag or a tuple of tags.
pub data OffloadTags : Type 0 where
  default : OffloadTags
  one : ℕ → OffloadTags
  tuple : List ℕ → OffloadTags

abbrev pub default_tag : ℕ
default_tag = 0

unfoldable pub tags_of : OffloadTags → List ℕ
tags_of default = default_tag ∷ []
tags_of (one tag) = tag ∷ []
tags_of (tuple tags) = tags

-- `tags is None or data.tag in tags`
unfoldable pub is_woken : Option (List ℕ) → ℕ → Bool
is_woken none tag = true
is_woken (some tags) tag = elem tag tags

module _ {D : Driver} where
  -- `expandable`: PYTORCH_NPU_ALLOC_CONF has expandable_segments:True.
  unfoldable pub init_allocator : Bool → D.Device → Result (CaMemAllocator D)
  init_allocator expandable device =
      guard (not expandable) assertion_error
      >> ok (record {
        pointer_to_data = [];
        current_tag = default_tag;
        allocator_and_pools = [];
        device = device;
      })

  unfoldable pub python_malloc_callback : HandleType → CaMemAllocator D → CaMemAllocator D
  python_malloc_callback handle a = record a {
    pointer_to_data =
        insert handle.d_mem
          (record { handle = handle; tag = a.current_tag; cpu_backup_tensor = none })
          a.pointer_to_data;
  }

  -- The tensor of the popped data is dropped with it.
  unfoldable pub python_free_callback :
      ℕ → CaMemAllocator D → Result (HandleType × CaMemAllocator D)
  python_free_callback ptr a = or_fail (lookup ptr a.pointer_to_data) key_error >>= λ entry.
      ok (entry.handle, record a { pointer_to_data = erase ptr a.pointer_to_data })

  unfoldable pub sleep_data : List ℕ → ℕ → AllocationData D → D.Device → AllocationData D × D.Device
  sleep_data tags ptr entry device = (
    if elem entry.tag tags
        then record entry {
          cpu_backup_tensor = some (D.memcpy_to_host ptr entry.handle.aligned_size device);
        }
        else entry,
    D.unmap_and_release entry.handle device,
  )

  unfoldable pub sleep_all :
      List (ℕ × AllocationData D) → List ℕ → D.Device → List (ℕ × AllocationData D) × D.Device
  sleep_all [] tags device = ([], device)
  sleep_all ((ptr, entry) ∷ rest) tags device =
      let (entry', device') = sleep_data tags ptr entry device in
      let (rest', device'') = sleep_all rest tags device' in ((ptr, entry') ∷ rest', device'')

  unfoldable pub sleep : OffloadTags → CaMemAllocator D → CaMemAllocator D
  sleep tags a =
      let (entries, device) = sleep_all a.pointer_to_data (tags_of tags) a.device in
      record a { pointer_to_data = entries; device = device }

  unfoldable pub restore : ℕ → AllocationData D → D.Device → AllocationData D × D.Device
  restore ptr entry device =
      let mapped : D.Device = D.create_and_map entry.handle device in
      elim entry.cpu_backup_tensor [
        | none ↦ (entry, mapped)
        | some host ↦
            (record entry { cpu_backup_tensor = none }, D.memcpy_to_device ptr host mapped)
      ]

  unfoldable pub wake_data :
      Option (List ℕ) → ℕ → AllocationData D → D.Device → AllocationData D × D.Device
  wake_data tags ptr entry device =
      if is_woken tags entry.tag then restore ptr entry device else (entry, device)

  unfoldable pub wake_all :
      List (ℕ × AllocationData D)
      → Option (List ℕ)
      → D.Device
      → List (ℕ × AllocationData D) × D.Device
  wake_all [] tags device = ([], device)
  wake_all ((ptr, entry) ∷ rest) tags device =
      let (entry', device') = wake_data tags ptr entry device in
      let (rest', device'') = wake_all rest tags device' in ((ptr, entry') ∷ rest', device'')

  unfoldable pub wake_up : Option (List ℕ) → CaMemAllocator D → CaMemAllocator D
  wake_up tags a =
      let (entries, device) = wake_all a.pointer_to_data tags a.device in
      record a { pointer_to_data = entries; device = device }

  unfoldable pub sum_sizes : List (ℕ × AllocationData D) → ℕ
  sum_sizes [] = 0
  sum_sizes ((ptr, entry) ∷ rest) = entry.handle.aligned_size + sum_sizes rest

  unfoldable pub get_current_usage : CaMemAllocator D → ℕ
  get_current_usage a = sum_sizes a.pointer_to_data

  -- The context around a body, which may end in an exception: the code behind the `yield` is then
  -- not run. `pool` is what torch returns for the new allocator.
  unfoldable pub use_memory_pool :
      Option ℕ
      → D.Pool
      → (CaMemAllocator D → CaMemAllocator D × Option Fault)
      → CaMemAllocator D
      → CaMemAllocator D × Option Fault
  use_memory_pool tag pool body a =
      let used : ℕ = elim tag [ none ↦ default_tag | some t ↦ t ] in
      let inside : CaMemAllocator D × Option Fault = body (record a {
        current_tag = used;
        allocator_and_pools = insert used pool a.allocator_and_pools;
      }) in
      elim inside.1 [
        | none ↦ (record (inside.0) { current_tag = a.current_tag }, none)
        | some e ↦ (inside.0, some e)
      ]
