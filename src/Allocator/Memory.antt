-- ===== src/Allocator/Memory.antt =====
-- vllm_ascend/device_allocator/camem.py, CaMemAllocator: what sleeping and waking up do to the device's
-- memory.
use vllm_ascend_origin.Prelude.{
  ℕ, ◌+◌, ◌<◌, ◌≤◌, ◌≡◌, refl, ◌∙◌, true, false, Bool, ◌⊎◌, inl, inr, none, List, [], ◌∷◌, elem,
  All, Bool-cases, arith,
}
use vllm_ascend_origin.Allocator.{
  HandleType, Driver, AllocationData, sleep_data, sleep_all, is_woken, restore, wake_data, wake_all,
}

-- The blocks do not overlap.
abbrev pub Apart : HandleType → HandleType → Type 0
Apart g h =
    ((g.d_mem < h.d_mem) × (g.d_mem + g.aligned_size ≤ h.d_mem))
    ⊎ ((h.d_mem < g.d_mem) × (h.d_mem + h.aligned_size ≤ g.d_mem))

-- The documented behaviour of the driver: mapping and unmapping a block and copying to it leave the
-- other blocks alone, and what is copied to a mapped block is read from it.
pub record DriverLaws (D : Driver) : Type 0 where
  pub mapped : HandleType → D.Device → Bool
  pub mapped_created : (h : HandleType) (d : D.Device) → mapped h (D.create_and_map h d) ≡ true
  pub mapped_released : (h : HandleType) (d : D.Device) → mapped h (D.unmap_and_release h d) ≡ false
  pub mapped_copied :
      (g h : HandleType) (e d : D.Device)
      → mapped g (D.memcpy_to_device h.d_mem (D.memcpy_to_host h.d_mem h.aligned_size e) d)
        ≡ mapped g d
  pub created_other :
      (g h : HandleType) (d : D.Device)
      → Apart g h
      → (mapped g (D.create_and_map h d) ≡ mapped g d)
        × (D.memcpy_to_host g.d_mem g.aligned_size (D.create_and_map h d)
            ≡ D.memcpy_to_host g.d_mem g.aligned_size d)
  pub released_other :
      (g h : HandleType) (d : D.Device)
      → Apart g h
      → (mapped g (D.unmap_and_release h d) ≡ mapped g d)
        × (D.memcpy_to_host g.d_mem g.aligned_size (D.unmap_and_release h d)
            ≡ D.memcpy_to_host g.d_mem g.aligned_size d)
  pub copied_other :
      (g h : HandleType) (e d : D.Device)
      → Apart g h
      → D.memcpy_to_host g.d_mem g.aligned_size
          (D.memcpy_to_device h.d_mem (D.memcpy_to_host h.d_mem h.aligned_size e) d)
        ≡ D.memcpy_to_host g.d_mem g.aligned_size d
  pub copied :
      (h : HandleType) (e d : D.Device)
      → mapped h d ≡ true
      → D.memcpy_to_host h.d_mem h.aligned_size
          (D.memcpy_to_device h.d_mem (D.memcpy_to_host h.d_mem h.aligned_size e) d)
        ≡ D.memcpy_to_host h.d_mem h.aligned_size e

-- The table of an allocator that is awake: each block stands under its address and has no backup, and
-- no two overlap.
abbrev pub Placed : {D : Driver} → List (ℕ × AllocationData D) → Type 0
Placed [] = Unit {0}
Placed ((ptr, entry) ∷ rest) =
    (ptr ≡ entry.handle.d_mem)
    × (entry.cpu_backup_tensor ≡ none)
    × All (λ x. Apart entry.handle x.1.handle) rest
    × Placed rest

Apart_sym : (g h : HandleType) → Apart g h → Apart h g
Apart_sym g h (inl p) = inr p
Apart_sym g h (inr p) = inl p

module _ {D : Driver} (laws : DriverLaws D) where
  -- The device has the block as it was.
  abbrev pub Same : HandleType → D.Device → D.Device → Type 0
  Same g d e =
      (laws.mapped g e ≡ laws.mapped g d)
      × (D.memcpy_to_host g.d_mem g.aligned_size e ≡ D.memcpy_to_host g.d_mem g.aligned_size d)

  pub sleep_all-Same :
      (g : HandleType) (entries : List (ℕ × AllocationData D)) (tags : List ℕ) (d : D.Device)
      → All (λ x. Apart g x.1.handle) entries
      → Same g d (sleep_all entries tags d).1
  unfolding sleep_all sleep_data
  sleep_all-Same g [] tags d a = (refl, refl)
  sleep_all-Same g ((ptr, entry) ∷ rest) tags d a =
      let now = laws.released_other g entry.handle d a.0 in
      let later = sleep_all-Same g rest tags (D.unmap_and_release entry.handle d) a.1 in
      (later.0 ∙ now.0, later.1 ∙ now.1)

  -- Waking an entry that has fallen asleep on `d`.
  restore-Same :
      (g : HandleType) (ptr : ℕ) (entry : AllocationData D) (tags : List ℕ) (d w : D.Device)
      → ptr ≡ entry.handle.d_mem
      → entry.cpu_backup_tensor ≡ none
      → Apart g entry.handle
      → Same g w (restore ptr (sleep_data tags ptr entry d).0 w).1
  unfolding restore sleep_data
  restore-Same g ptr entry tags d w p b a =
      let now = laws.created_other g entry.handle w a in
      elim (Bool-cases (elem entry.tag tags)) [
        | inl e ↦
            rw (e, p)
              (
                laws.mapped_copied g entry.handle d (D.create_and_map entry.handle w) ∙ now.0,
                laws.copied_other g entry.handle d (D.create_and_map entry.handle w) a ∙ now.1,
              )
        | inr e ↦ rw (e, b) now
      ]

  wake_all-Same :
      (g : HandleType) (entries : List (ℕ × AllocationData D)) (tags : List ℕ) (d w : D.Device)
      → Placed entries
      → All (λ x. Apart g x.1.handle) entries
      → Same g w (wake_all (sleep_all entries tags d).0 none w).1
  unfolding sleep_all wake_all wake_data is_woken
  wake_all-Same g [] tags d w p a = (refl, refl)
  wake_all-Same g ((ptr, entry) ∷ rest) tags d w p a =
      let slept = sleep_data tags ptr entry d in
      let now = restore-Same g ptr entry tags d w p.0 p.1 a.0 in
      let later = wake_all-Same g rest tags slept.1 (restore ptr slept.0 w).1 p.3 a.1 in
      (later.0 ∙ now.0, later.1 ∙ now.1)

  pub sleep_all-unmapped :
      (entries : List (ℕ × AllocationData D)) (tags : List ℕ) (d : D.Device)
      → Placed entries
      → All (λ x. laws.mapped x.1.handle (sleep_all entries tags d).1 ≡ false) entries
  unfolding sleep_all sleep_data
  sleep_all-unmapped [] tags d p = tt
  sleep_all-unmapped ((ptr, entry) ∷ rest) tags d p =
      let released = D.unmap_and_release entry.handle d in
      (
        (sleep_all-Same entry.handle rest tags released p.2).0
            ∙ laws.mapped_released entry.handle d,
        sleep_all-unmapped rest tags released p.3,
      )

  -- The block is mapped on `w`, and holds what it held on `d` if its tag is among the tags.
  abbrev pub Restored : List ℕ → D.Device → D.Device → ℕ × AllocationData D → Type 0
  Restored tags d w x =
      (laws.mapped x.1.handle w ≡ true)
      × (elem x.1.tag tags ≡ true
          → D.memcpy_to_host x.1.handle.d_mem x.1.handle.aligned_size w
            ≡ D.memcpy_to_host x.1.handle.d_mem x.1.handle.aligned_size d)

  restore-Restored :
      (ptr : ℕ) (entry : AllocationData D) (tags : List ℕ) (d w : D.Device)
      → ptr ≡ entry.handle.d_mem
      → entry.cpu_backup_tensor ≡ none
      → Restored tags d (restore ptr (sleep_data tags ptr entry d).0 w).1 (ptr, entry)
  unfolding restore sleep_data
  restore-Restored ptr entry tags d w p b =
      let created = laws.mapped_created entry.handle w in
      elim (Bool-cases (elem entry.tag tags)) [
        | inl e ↦
            rw (e, p)
              (
                laws.mapped_copied entry.handle entry.handle d (D.create_and_map entry.handle w)
                    ∙ created,
                λ _. laws.copied entry.handle d (D.create_and_map entry.handle w) created,
              )
        | inr e ↦ rw (e, b) (created, λ t. absurd (grind arith))
      ]

  before :
      (tags : List ℕ) (h : HandleType) (d w : D.Device) (entries : List (ℕ × AllocationData D))
      → All (λ x. Apart h x.1.handle) entries
      → All (Restored tags (D.unmap_and_release h d) w) entries
      → All (Restored tags d w) entries
  before tags h d w [] a r = tt
  before tags h d w ((ptr, entry) ∷ rest) a r = (
    (r.0.0, λ t. r.0.1 t ∙ (laws.released_other entry.handle h d (Apart_sym h entry.handle a.0)).1),
    before tags h d w rest a.1 r.1,
  )

  pub wake_all-Restored :
      (entries : List (ℕ × AllocationData D)) (tags : List ℕ) (d w : D.Device)
      → Placed entries
      → All (Restored tags d (wake_all (sleep_all entries tags d).0 none w).1) entries
  unfolding sleep_all sleep_data wake_all wake_data is_woken
  wake_all-Restored [] tags d w p = tt
  wake_all-Restored ((ptr, entry) ∷ rest) tags d w p =
      let slept = sleep_data tags ptr entry d in
      let woken = (restore ptr slept.0 w).1 in
      let now = restore-Restored ptr entry tags d w p.0 p.1 in
      let later = wake_all-Same entry.handle rest tags slept.1 woken p.3 p.2 in
      (
        (later.0 ∙ now.0, λ t. later.1 ∙ now.1 t),
        before tags entry.handle d _ rest p.2 (wake_all-Restored rest tags slept.1 woken p.3),
      )
