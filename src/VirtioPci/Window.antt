-- ===== src/VirtioPci/Window.antt =====
-- The other registers of the window of src/virtio-pci.c: the interrupt status, and the block of
-- queue registers that shows the queue selected.
use kvm_host.Common.{
  ℕ, ◌+◌, ◌^◌, ◌<◌, ◌≤◌, ◌≡◌, ◌⊎◌, Option, some, List, length, refl, arith, ◌>>=◌, inl, le→ltb,
  lt→ltb, none, ap, get_elem?, get_elem?_beyond,
}
use kvm_host.Common.Bytes.{
  read_bytes, load_le, store_le, load_le-store_le_self, load_le-store_le_ne, length-store_le,
  read_bytes-write_bytes_self, read_bytes-store_le_ne, le_value,
}
use kvm_host.Virtq.{Virtq, VirtqOps}
use kvm_host.VirtioPci.{
  VirtioPciDev, space_read, after_write, notify, notify_offset, select_virtq, common_q_select,
  common_q_size, common_numq, isr_offset, info_bytes, info_size,
}
use kvm_host.VirtioPci.Features.{put, put-common}

-- `dev'` is what a read of the interrupt status leaves of `dev`
pub record Cleared (dev : VirtioPciDev) (dev' : VirtioPciDev) : Type 0 where
  pub zero : load_le dev'.config isr_offset 4 ≡ 0
  pub others :
      (at n : ℕ)
      → (at + n ≤ isr_offset) ⊎ (isr_offset + 4 ≤ at)
      → read_bytes dev'.config at n ≡ read_bytes dev.config at n
  pub queues : dev'.vq ≡ dev.vq

abbrev pub Answered : VirtioPciDev → Option (VirtioPciDev × List ℕ) → Type 0
Answered dev none = ⊥
Answered dev (some (dev', bytes)) = Cleared dev dev' × (bytes ≡ read_bytes dev.config isr_offset 4)

-- A read of the interrupt status gives the four bytes that are there, leaves zero in their place,
-- and changes no other register of the window and no queue.
pub space_read-isr :
    (dev : VirtioPciDev) → length dev.config ≡ 64 → Answered dev (space_read dev isr_offset 4)
unfolding space_read
space_read-isr dev len = (
  record {
    zero = load_le-store_le_self dev.config 56 4 0 (omega (arith, len)) (omega arith);
    others = λ at n apart. read_bytes-store_le_ne dev.config 56 4 0 at n apart;
    queues = refl;
  },
  refl,
)

module _ {W : Type 0} (ops : ℕ → VirtqOps (VirtioPciDev × W))
    (event_flags : ℕ → VirtioPciDev × W → ℕ) where
  -- the driver selects a queue and reads its registers
  abbrev pub queue_registers : VirtioPciDev × W → ℕ → Option (List ℕ)
  queue_registers s select = do
    (dev, w) ← put ops event_flags s common_q_select 2 select
    (dev', bytes) ← space_read dev common_q_size info_size
    some bytes

  -- the driver selects a queue and reads its size
  abbrev pub queue_size : VirtioPciDev × W → ℕ → Option ℕ
  queue_size s select = do
    (dev, w) ← put ops event_flags s common_q_select 2 select
    (dev', bytes) ← space_read dev common_q_size 2
    some (le_value bytes)

module _ {W : Type 0} (ops : ℕ → VirtqOps (VirtioPciDev × W))
    (event_flags : ℕ → VirtioPciDev × W → ℕ) (dev : VirtioPciDev) (w : W)
    (len : length dev.config ≡ 64) (select : ℕ) (small : select < 2 ^ 16) where
  abbrev selected : VirtioPciDev
  selected = record dev { config = store_le dev.config common_q_select 2 select }

  queues_kept : load_le selected.config common_numq 2 ≡ load_le dev.config common_numq 2
  queues_kept = load_le-store_le_ne dev.config 22 2 select 18 2 (inl (omega arith))

  stored : load_le selected.config common_q_select 2 ≡ select
  stored = load_le-store_le_self dev.config 22 2 select (omega (arith, len)) small

  -- After the driver selects a queue that the device has, the 32 bytes of queue registers are the
  -- ones of that queue's `struct virtq_info`.
  pub queue_registers-info :
      (vq : Virtq)
      → select < load_le dev.config common_numq 2
      → get_elem? dev.vq select ≡ some vq
      → queue_registers ops event_flags (dev, w) select ≡ some (info_bytes vq.info)
  unfolding after_write select_virtq space_read
  queue_registers-info vq inside found =
      let whole =
        read_bytes-write_bytes_self selected.config 24 (info_bytes vq.info)
          (omega (arith, len, length-store_le dev.config 22 2 select)) in
      rw
        (
          put-common ops event_flags dev w 22 2 select len (omega arith) (omega arith),
          queues_kept,
          stored,
          lt→ltb select (load_le dev.config 18 2) inside,
          found,
        )
        (ap some whole)

  -- After the driver selects a queue beyond `num_queues`, the queue size reads as 0: the
  -- specification's sign that the queue does not exist.
  pub queue_size-zero :
      load_le dev.config common_numq 2 ≤ select
      → queue_size ops event_flags (dev, w) select ≡ some 0
  unfolding after_write select_virtq space_read load_le
  queue_size-zero beyond =
      let zero : load_le (store_le selected.config 24 2 0) 24 2 ≡ 0 =
        load_le-store_le_self selected.config 24 2 0
          (omega (arith, len, length-store_le dev.config 22 2 select)) (omega arith) in
      rw
        (
          put-common ops event_flags dev w 22 2 select len (omega arith) (omega arith),
          queues_kept,
          stored,
          le→ltb select (load_le dev.config 18 2) beyond,
        )
        (ap some zero)

-- A notification that names a queue beyond the device's array makes the write handler leave the
-- array: `num_queues` is not consulted.
pub notify_beyond :
    {W : Type 0} (ops : ℕ → VirtqOps (VirtioPciDev × W)) (event_flags : ℕ → VirtioPciDev × W → ℕ)
    (dev : VirtioPciDev) (w : W) (vqn : ℕ)
    → length dev.config ≡ 64
    → vqn < 2 ^ 16
    → length dev.vq ≤ vqn
    → put ops event_flags (dev, w) notify_offset 2 vqn ≡ none
unfolding after_write notify
notify_beyond ops event_flags dev w vqn len small beyond =
    let named = load_le-store_le_self dev.config 60 2 vqn (omega (arith, len)) small in
    rw
      (
        put-common ops event_flags dev w 60 2 vqn len (omega arith) (omega arith),
        named,
        get_elem?_beyond dev.vq vqn beyond,
      )
      refl
