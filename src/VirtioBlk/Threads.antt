-- ===== src/VirtioBlk/Threads.antt =====
-- The two threads of src/virtio-blk.c and the calls of its queue that the driver causes. What `poll` and
-- the `read` of the ioeventfd give, and when `thread_stop` is seen, are arguments.
use kvm_host.Common.{
  ℕ, zero, suc, ◌+◌, Bool, true, false, Option, some, none, List, [], ◌∷◌, truthy, if◌then◌else◌,
  ◌>>=◌,
}
use kvm_host.Common.Bytes.{load_le}
use kvm_host.Common.Poll.{readable}
use kvm_host.Virtq.{VirtqOps, virtq_handle_avail}
use kvm_host.VirtioQueue.{Device, notify_used, enable_vq}

abbrev pub virtio_blk_virtq_available : Option ℕ → Bool
virtio_blk_virtq_available polled = readable polled

-- what each `poll` gives until `thread_stop` is seen; how many signals the other thread is sent
unfoldable pub virtio_blk_thread : List (Option ℕ) → ℕ
virtio_blk_thread [] = zero
virtio_blk_thread (polled ∷ rest) =
    let signals = virtio_blk_thread rest in
    if virtio_blk_virtq_available polled then suc signals else signals

module _ {D : Type 0} where
  unfoldable pub virtio_blk_notify_used : Device D → Device D
  unfolding notify_used
  virtio_blk_notify_used s = notify_used s

  -- whether each `read` gives something other than 0, an error included; where the list ends the
  -- thread waits in `read` and does not return
  unfoldable pub virtio_blk_vq_avail_handler :
      VirtqOps (Device D) → List Bool → Device D → Option (Device D)
  virtio_blk_vq_avail_handler ops [] s = none
  virtio_blk_vq_avail_handler ops (false ∷ reads) s = some s
  virtio_blk_vq_avail_handler ops (true ∷ reads) s = do
    s' ← virtq_handle_avail ops (λ s. s.vq.info.enable) (λ s. load_le s.mem (s.guest_event + 2) 2) s
    virtio_blk_vq_avail_handler ops reads s'

  -- `notify_cap->cap.length`
  abbrev pub notify_length : Device D → ℕ
  notify_length s = load_le s.dev.pci_dev.hdr (s.dev.notify_cap + 12) 4

  -- the queue afterwards, and the address and the length that are registered with the ioeventfd
  unfoldable pub virtio_blk_enable_vq : ℕ → Device D → Option (Device D × Option (ℕ × ℕ))
  unfolding enable_vq
  virtio_blk_enable_vq ram_base s = do
    s' ← enable_vq ram_base s
    some (s', if truthy s.vq.info.enable then none else some (s'.notify_addr, notify_length s'))
