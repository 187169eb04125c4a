-- ===== src/VirtioQueue.antt =====
-- What the devices of src/virtio-net.c and src/virtio-blk.c have in common: a queue whose descriptors
-- lie in the memory of the guest, 16 bytes each, and the way a descriptor is given back.
pub mod Finished
pub mod Marked
use kvm_host.Common.{
  ℕ, ◌+◌, ◌*◌, ◌^◌, bit_xor, bit_or, Option, some, none, truthy, if◌then◌else◌, ◌>>=◌,
}
use kvm_host.Common.Bytes.{Memory, load_le, store_le}
use kvm_host.Virtq.{Ring, Virtq, vring_packed_desc_f_used}
use kvm_host.VirtioPci.{VirtioPciDev, isr_offset}
use kvm_host.VirtioPci.Setup.{get_notify_addr}
use kvm_host.Vm.{vm_guest_to_host}

-- The device and the queue that a call is about. `mem` is the memory of the guest, and the three
-- pointers of the queue are offsets in it; `irqs` counts the writes of the irqfd and `outside`
-- is what the device works on. `notify_addr` is the address registered with the ioeventfd.
pub record Device (X : Type 0) : Type 0 where
  pub dev : VirtioPciDev
  pub vq : Virtq
  pub mem : Memory
  pub desc_ring : ℕ
  pub device_event : ℕ
  pub guest_event : ℕ
  pub notify_addr : ℕ
  pub irqs : ℕ
  pub outside : X

-- the descriptors are 16 bytes each
abbrev pub desc_at : {X : Type 0} → Device X → ℕ → ℕ
desc_at s i = s.desc_ring + 16 * i

abbrev pub ring_of : {X : Type 0} → Device X → Ring
ring_of s i = record {
  addr = load_le s.mem (desc_at s i) 8;
  len = load_le s.mem (desc_at s i + 8) 4;
  id = load_le s.mem (desc_at s i + 12) 2;
  flags = load_le s.mem (desc_at s i + 14) 2;
}

-- `vq->guest_event->flags = ...`: 0 is VRING_PACKED_EVENT_FLAG_ENABLE and 1 is ..._DISABLE
abbrev pub set_event : {X : Type 0} → Device X → ℕ → Device X
set_event s flag = record s { mem = store_le s.mem (s.guest_event + 2) 2 flag }

-- `desc->flags ^= (1ULL << VRING_PACKED_DESC_F_USED)` and the interrupt status
unfoldable pub finish : {X : Type 0} → ℕ → Device X → Device X
finish i s = record s {
  mem =
      store_le s.mem (desc_at s i + 14) 2
        (bit_xor (load_le s.mem (desc_at s i + 14) 2) (2 ^ vring_packed_desc_f_used));
  dev = record s.dev {
    config = store_le s.dev.config isr_offset 4 (bit_or (load_le s.dev.config isr_offset 4) 1);
  };
}

unfoldable pub notify_used : {X : Type 0} → Device X → Device X
notify_used s = record s { irqs = s.irqs + 1 }

module _ (ram_base : ℕ) where
  -- `virtio_net_enable_vq_rx` and `virtio_net_enable_vq_tx`, but for the thread that they start. A
  -- pointer that is NULL is dereferenced by the thread, and is `none` here.
  unfoldable pub enable_vq : {X : Type 0} → Device X → Option (Device X)
  enable_vq s = if truthy s.vq.info.enable then some s else (do
    ring ← vm_guest_to_host ram_base s.vq.info.desc_addr
    device ← vm_guest_to_host ram_base s.vq.info.device_addr
    guest ← vm_guest_to_host ram_base s.vq.info.driver_addr
    some (record s {
      vq = record s.vq { info = record s.vq.info { enable = 1 } };
      desc_ring = ring;
      device_event = device;
      guest_event = guest;
      notify_addr = get_notify_addr s.dev s.vq.info.notify_off;
    }))
