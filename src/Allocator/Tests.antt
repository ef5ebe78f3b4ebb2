-- ===== src/Allocator/Tests.antt =====
-- Runs of the allocator's model on small inputs.
use vllm_ascend_origin.Prelude.{
  ℕ, ◌+◌, ◌≡◌, refl, Bool, true, false, inl, inr, Option, none, some, List, [], ◌∷◌, All, ◌==◌,
  ==_self, update, arith,
}
use vllm_ascend_origin.Allocator.Memory.{Apart, DriverLaws, Placed, Restored}
use vllm_ascend_origin.Prelude.Result.{Fault, key_error, ok}
use vllm_ascend_origin.Allocator.{
  HandleType, Driver, AllocationData, tags_of, CaMemAllocator, default, python_malloc_callback,
  python_free_callback, sleep, wake_up, get_current_usage, use_memory_pool,
}
use vllm_ascend_origin.Allocator.Sleep.{
  without_backups, wake_up-sleep, python_free_callback-python_malloc_callback, use_memory_pool-tag,
}

-- The device: which addresses are mapped, and a number at each. Unmapping loses the number.
abbrev plain : Driver
plain = record {
  Device = (ℕ → Bool) × (ℕ → ℕ);
  Host = ℕ;
  Pool = Unit {0};
  memcpy_to_host = λ ptr n d. d.1 ptr;
  memcpy_to_device = λ ptr host d. (d.0, update d.1 ptr host);
  create_and_map = λ h d. (update d.0 h.d_mem true, d.1);
  unmap_and_release = λ h d. (update d.0 h.d_mem false, update d.1 h.d_mem 0);
}

apart-distinct : (g h : HandleType) → Apart g h → (h.d_mem == g.d_mem) ≡ false
apart-distinct g h (inl p) = ground (arith, p.0)
apart-distinct g h (inr p) = ground (arith, p.0)

abbrev plain-DriverLaws : DriverLaws plain
plain-DriverLaws = record {
  mapped = λ h d. d.0 h.d_mem;
  mapped_created = λ h d. rw (==_self h.d_mem);
  mapped_released = λ h d. rw (==_self h.d_mem);
  mapped_copied = λ g h e d. refl;
  created_other = λ g h d a. (rw (apart-distinct g h a), refl);
  released_other = λ g h d a. (rw (apart-distinct g h a), rw (apart-distinct g h a));
  copied_other = λ g h e d a. rw (apart-distinct g h a);
  copied = λ h e d m. rw (==_self h.d_mem);
}

abbrev handle : HandleType
handle = record { device = 0; aligned_size = 64; d_mem = 4096; mem_handle = 1 }

abbrev fresh : CaMemAllocator plain
fresh = record {
  pointer_to_data = [];
  current_tag = 3;
  allocator_and_pools = [];
  device = (λ ptr. false, λ ptr. ptr);
}

python_free_callback-python_malloc_callback_example :
    (get_current_usage (python_malloc_callback handle fresh) ≡ get_current_usage fresh + 64)
    × (python_free_callback 4096 (python_malloc_callback handle fresh) ≡ ok (handle, fresh))
python_free_callback-python_malloc_callback_example =
    python_free_callback-python_malloc_callback handle fresh refl

-- Two blocks, of which that of the tag 0 is offloaded.
abbrev blocks : List (ℕ × AllocationData plain)
blocks =
    (4096, record { handle = handle; tag = 0; cpu_backup_tensor = none })
    ∷ (8192, record { handle = record handle { d_mem = 8192 }; tag = 3; cpu_backup_tensor = none })
    ∷ []

abbrev awake : CaMemAllocator plain
awake = record fresh { pointer_to_data = blocks; device = (λ ptr. true, λ ptr. ptr) }

awake-Placed : Placed awake.pointer_to_data
awake-Placed = (refl, refl, (inl (omega arith, omega arith), tt), (refl, refl, tt, tt))

wake_up-sleep_example :
    All (λ x. (sleep default awake).device.0 x.1.handle.d_mem ≡ false) blocks
    × All
        (Restored plain-DriverLaws
          (0 ∷ [])
          awake.device
          (wake_up none (sleep default awake)).device)
        blocks
    × ((wake_up none (sleep default awake)).pointer_to_data ≡ without_backups blocks)
    × ((wake_up none (sleep default awake)).current_tag ≡ 3)
    × (get_current_usage (wake_up none (sleep default awake)) ≡ get_current_usage awake)
unfolding tags_of
wake_up-sleep_example = wake_up-sleep plain-DriverLaws default awake awake-Placed

-- A body that raises: the tag of the pool stays.
abbrev raises : CaMemAllocator plain → CaMemAllocator plain × Option Fault
raises a = (a, some key_error)

use_memory_pool-tag_example :
    (use_memory_pool (some 5) tt raises fresh).0.current_tag
    ≡ (elim (use_memory_pool (some 5) tt raises fresh).1 [ none ↦ 3 | some e ↦ 5 ])
use_memory_pool-tag_example = use_memory_pool-tag 5 tt raises fresh (λ c. refl)
