-- ===== src/Allocator/Sleep.antt =====
-- vllm_ascend/device_allocator/camem.py, CaMemAllocator: what sleeping and waking up keep, and what an
-- allocation adds to the usage.
use vllm_ascend_origin.Prelude.{
  ℕ, ◌+◌, ◌≡◌, refl, false, Option, none, some, List, [], ◌∷◌, ◌++◌, inl, inr, arith, ap, ◌∙◌,
  Option-cases, Bool-cases, elem, keys, lookup, insert, insert-fresh, erase, lookup-insert,
}
use vllm_ascend_origin.Allocator.Memory.{
  Placed, DriverLaws, Restored, sleep_all-unmapped, wake_all-Restored,
}
use vllm_ascend_origin.Prelude.{All}
use vllm_ascend_origin.Prelude.Result.{Fault, ok}
use vllm_ascend_origin.Allocator.{
  HandleType, Driver, AllocationData, CaMemAllocator, OffloadTags, tags_of, python_malloc_callback,
  python_free_callback, sleep_data, sleep_all, sleep, is_woken, restore, wake_data, wake_all,
  wake_up, sum_sizes, get_current_usage, use_memory_pool,
}

erase-insert :
    {V : Type 0} (k : ℕ) (v : V) (d : List (ℕ × V))
    → elem k (keys d) ≡ false
    → erase k (insert k v d) ≡ d
unfolding erase insert
erase-insert k v [] h = ground arith
erase-insert k v ((j, w) ∷ d) h = ground (arith, erase-insert k v d, h)

module _ {D : Driver} where
  abbrev pub without_backups : List (ℕ × AllocationData D) → List (ℕ × AllocationData D)
  without_backups [] = []
  without_backups ((ptr, entry) ∷ rest) =
      (ptr, record entry { cpu_backup_tensor = none }) ∷ without_backups rest

  restore-none :
      (ptr : ℕ) (entry : AllocationData D) (device : D.Device)
      → (restore ptr entry device).0 ≡ record entry { cpu_backup_tensor = none }
  unfolding restore
  restore-none ptr entry device = elim (Option-cases entry.cpu_backup_tensor) [
    | inl e ↦ rw e
    | inr (host, e) ↦ rw e
  ]

  wake_all-none :
      (entries : List (ℕ × AllocationData D)) (device : D.Device)
      → (wake_all entries none device).0 ≡ without_backups entries
  unfolding wake_all wake_data is_woken
  wake_all-none [] device = refl
  wake_all-none ((ptr, entry) ∷ rest) device =
      rw (restore-none ptr entry device, wake_all-none rest (restore ptr entry device).1)

  sleep_all-without_backups :
      (entries : List (ℕ × AllocationData D)) (tags : List ℕ) (device : D.Device)
      → without_backups (sleep_all entries tags device).0 ≡ without_backups entries
  unfolding sleep_all sleep_data
  sleep_all-without_backups [] tags device = refl
  sleep_all-without_backups ((ptr, entry) ∷ rest) tags device =
      elim (Bool-cases (elem entry.tag tags)) [
        | inl e ↦
            rw (e, sleep_all-without_backups rest tags (D.unmap_and_release entry.handle device))
        | inr e ↦
            rw (e, sleep_all-without_backups rest tags (D.unmap_and_release entry.handle device))
      ]

  wake_all-none-sleep :
      (entries : List (ℕ × AllocationData D)) (tags : List ℕ) (device : D.Device)
      → (wake_all (sleep_all entries tags device).0 none (sleep_all entries tags device).1).0
        ≡ without_backups entries
  wake_all-none-sleep entries tags device =
      wake_all-none (sleep_all entries tags device).0 (sleep_all entries tags device).1
      ∙ sleep_all-without_backups entries tags device

  sum_sizes-without_backups :
      (entries : List (ℕ × AllocationData D))
      → sum_sizes (without_backups entries) ≡ sum_sizes entries
  unfolding sum_sizes
  sum_sizes-without_backups [] = refl
  sum_sizes-without_backups ((ptr, entry) ∷ rest) = rw (sum_sizes-without_backups rest)

  sum_sizes-append :
      (entries : List (ℕ × AllocationData D)) (ptr : ℕ) (entry : AllocationData D)
      → sum_sizes (entries ++ (ptr, entry) ∷ []) ≡ sum_sizes entries + entry.handle.aligned_size
  unfolding sum_sizes
  sum_sizes-append [] ptr entry = omega arith
  sum_sizes-append ((p, e) ∷ rest) ptr entry = omega (arith, sum_sizes-append rest ptr entry)

  -- Let an allocator be awake, with blocks that do not overlap and no backups. Behind sleep with any
  -- tags none of its blocks is mapped. Behind waking up all of them every block is mapped again, a block
  -- whose tag was named for sleep holds what it held before, and the table of allocations (with no
  -- backup), the current tag and the usage are as before. The driver is taken to leave other blocks
  -- alone and to keep what is copied to a mapped block.
  pub wake_up-sleep :
      (laws : DriverLaws D) (tags : OffloadTags) (a : CaMemAllocator D)
      → Placed a.pointer_to_data
      → All (λ x. laws.mapped x.1.handle (sleep tags a).device ≡ false) a.pointer_to_data
        × All
            (Restored laws (tags_of tags) a.device (wake_up none (sleep tags a)).device)
            a.pointer_to_data
        × ((wake_up none (sleep tags a)).pointer_to_data ≡ without_backups a.pointer_to_data)
        × ((wake_up none (sleep tags a)).current_tag ≡ a.current_tag)
        × (get_current_usage (wake_up none (sleep tags a)) ≡ get_current_usage a)
  unfolding wake_up sleep get_current_usage
  wake_up-sleep laws tags a p =
      let asleep : List (ℕ × AllocationData D) × D.Device =
        sleep_all a.pointer_to_data (tags_of tags) a.device in
      let table : (wake_all asleep.0 none asleep.1).0 ≡ without_backups a.pointer_to_data =
        wake_all-none-sleep a.pointer_to_data (tags_of tags) a.device in
      (
        sleep_all-unmapped laws a.pointer_to_data (tags_of tags) a.device p,
        wake_all-Restored laws a.pointer_to_data (tags_of tags) a.device asleep.1 p,
        table,
        refl,
        ap (λ t. sum_sizes t) table ∙ sum_sizes-without_backups a.pointer_to_data,
      )

  -- A handle whose address is not in the table adds its size to the usage, and freeing the address
  -- returns the handle as it was stored.
  pub python_free_callback-python_malloc_callback :
      (handle : HandleType) (a : CaMemAllocator D)
      → elem handle.d_mem (keys a.pointer_to_data) ≡ false
      → (get_current_usage (python_malloc_callback handle a)
          ≡ get_current_usage a + handle.aligned_size)
        × (python_free_callback handle.d_mem (python_malloc_callback handle a) ≡ ok (handle, a))
  unfolding get_current_usage python_malloc_callback python_free_callback
  python_free_callback-python_malloc_callback handle a h =
      let entry : AllocationData D = record {
        handle = handle;
        tag = a.current_tag;
        cpu_backup_tensor = none;
      } in
      let found : lookup handle.d_mem (insert handle.d_mem entry a.pointer_to_data) ≡ some entry =
        ground (arith, lookup-insert handle.d_mem handle.d_mem entry a.pointer_to_data) in
      (
        rw (insert-fresh handle.d_mem entry a.pointer_to_data h)
            (sum_sizes-append a.pointer_to_data handle.d_mem entry),
        rw (found, erase-insert handle.d_mem entry a.pointer_to_data h),
      )

-- With a body that leaves the current tag alone, the tag behind use_memory_pool is the one before it
-- if the body ends normally, and the tag of the pool if it raises.
pub use_memory_pool-tag :
    {D : Driver} (t : ℕ) (pool : D.Pool) (body : CaMemAllocator D → CaMemAllocator D × Option Fault)
    (a : CaMemAllocator D)
    → ((c : CaMemAllocator D) → (body c).0.current_tag ≡ c.current_tag)
    → (use_memory_pool (some t) pool body a).0.current_tag
      ≡ (elim (use_memory_pool (some t) pool body a).1 [ none ↦ a.current_tag | some e ↦ t ])
unfolding use_memory_pool
use_memory_pool-tag t pool body a h =
    let inside : CaMemAllocator _ = record a {
      current_tag = t;
      allocator_and_pools = insert t pool a.allocator_and_pools;
    } in
    elim (Option-cases (body inside).1) [
      | inl e ↦ rw (e, use_memory_pool)
      | inr (fault, e) ↦ rw (e, use_memory_pool) (h inside)
    ]
