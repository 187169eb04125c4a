-- ===== src/VirtioPci/Tests.antt =====
-- Runs of the virtio transport of src/virtio-pci.c, and its theorems at concrete devices.
use kvm_host.Common.{ℕ, ◌*◌, ◌^◌, ◌≡◌, refl, arith, true, [], ◌∷◌, some, none, replicate, set}
use kvm_host.Common.Bytes.{load_le}
use kvm_host.Bus.{null, Dev, IoFn}
use kvm_host.Virtq.{Virtq, VirtqInfo, VirtqOps}
use kvm_host.Pci.{PciDev}
use kvm_host.VirtioPci.{VirtioPciDev, info_bytes, space_read, isr_offset, notify_offset}
use kvm_host.VirtioPci.Features.{
  put, offered, offered-device_feature, accepted, accepted-guest_feature,
}
use kvm_host.VirtioPci.Window.{
  Answered, space_read-isr, queue_registers, queue_registers-info, notify_beyond,
}
use kvm_host.VirtioPci.Caps.{caps, expected, virtio_pci_init-caps}
use kvm_host.VirtioPci.Setup.{virtio_pci_init}

abbrev pci_dev : PciDev
pci_dev = record {
  self = 100;
  hdr = [];
  bar_size = [];
  bar_active = [];
  bar_is_io_space = [];
  space_dev = 10;
  config_dev = 20;
}

abbrev info : VirtqInfo
info = record {
  size = 128;
  msix_vector = 0;
  enable = 0;
  notify_off = 1;
  desc_addr = 0x1000;
  device_addr = 0x2000;
  driver_addr = 0x3000;
}

abbrev queue : Virtq
queue = record { info = info; next_avail_idx = 0; used_wrap_count = true }

abbrev dev : VirtioPciDev
dev = record {
  pci_dev = pci_dev;
  config = set (set (replicate 64 0) 18 1) 56 1;
  dev_cfg = [];
  device_feature = 0x500000000;
  guest_feature = 0;
  notify_cap = 0;
  dev_cfg_cap = 0;
  vq = queue ∷ [];
}

-- a device that does nothing, with no state of its own
abbrev ops : ℕ → VirtqOps (VirtioPciDev × ℕ)
ops i = record { complete_request = some; enable_vq = some; notify_used = λ s. s }

abbrev event_flags : ℕ → VirtioPciDev × ℕ → ℕ
event_flags i s = 0

abbrev store : ℕ → Dev
store a = record { base = 0; len = 0; owner = null; do_io = IoFn.pci_config_do_io; next = null }

offered-device_feature_example : offered ops event_flags (dev, 0) ≡ some 0x500000000
offered-device_feature_example = offered-device_feature ops event_flags dev 0 refl (omega arith)

accepted-guest_feature_example : accepted ops event_flags (dev, 0) 3 5 ≡ some (3 * 2 ^ 32)
unfolding load_le
accepted-guest_feature_example =
    accepted-guest_feature ops event_flags dev 0 3 5 refl refl refl (omega arith)

space_read-isr_example : Answered dev (space_read dev isr_offset 4)
space_read-isr_example = space_read-isr dev refl

queue_registers-info_example : queue_registers ops event_flags (dev, 0) 0 ≡ some (info_bytes info)
unfolding load_le
queue_registers-info_example =
    queue_registers-info ops event_flags dev 0 refl 0 (omega arith) queue (omega arith) refl

virtio_pci_init-caps_example : caps (virtio_pci_init dev store).0.pci_dev.hdr ≡ expected
virtio_pci_init-caps_example = virtio_pci_init-caps dev store

notify_beyond_example : put ops event_flags (dev, 0) notify_offset 2 1 ≡ none
notify_beyond_example = notify_beyond ops event_flags dev 0 1 refl (omega arith) (omega arith)
