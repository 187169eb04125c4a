-- ===== src/VirtioNet/Tests.antt =====
-- Requests of the network device of src/virtio-net.c at concrete queues.
use kvm_host.Common.{ℕ, refl, arith, inl, inr, true, [], ◌∷◌, replicate, set}
use kvm_host.Common.Bytes.{load_le}
use kvm_host.Virtq.{Virtq, VirtqInfo, is_avail}
use kvm_host.Pci.{PciDev}
use kvm_host.VirtioPci.{VirtioPciDev}
use kvm_host.VirtioNet.{Net, complete_request_tx}
use kvm_host.VirtioNet.Requests.{IsSent, complete_request_tx-Sent, IsLost, complete_request_tx-Lost}

abbrev pci_dev : PciDev
pci_dev = record {
  self = 100;
  hdr = [];
  bar_size = [];
  bar_active = [];
  bar_is_io_space = [];
  space_dev = 10;
  config_dev = 20;
}

abbrev info : VirtqInfo
info = record {
  size = 2;
  msix_vector = 0;
  enable = 1;
  notify_off = 0;
  desc_addr = 0;
  device_addr = 0;
  driver_addr = 0;
}

abbrev queue : Virtq
queue = record { info = info; next_avail_idx = 0; used_wrap_count = true }

abbrev dev : VirtioPciDev
dev = record {
  pci_dev = pci_dev;
  config = replicate 64 0;
  dev_cfg = [];
  device_feature = 0;
  guest_feature = 0;
  notify_cap = 0;
  dev_cfg_cap = 0;
  vq = [];
}

-- descriptor 0 is available and has a buffer of `len` bytes at 32
abbrev net : ℕ → Net
net len = record {
  dev = dev;
  vq = queue;
  mem = set (set (set (set (replicate 64 0) 0 32) 8 len) 14 0x80) 44 7;
  desc_ring = 0;
  device_event = 60;
  guest_event = 56;
  notify_addr = 0;
  irqs = 0;
  outside = [];
}

complete_request_tx-Sent_example :
    IsSent (net 14) (7 ∷ 0 ∷ []) (complete_request_tx 0 true (net 14))
unfolding load_le is_avail
complete_request_tx-Sent_example =
    complete_request_tx-Sent 0 (net 14) refl (omega arith) (omega arith) refl (omega arith)

complete_request_tx-Lost_example : IsLost (net 11) (complete_request_tx 0 true (net 11))
unfolding load_le is_avail
complete_request_tx-Lost_example =
    complete_request_tx-Lost 0 (net 11) refl (omega arith) true (inl (omega arith)) (omega arith)
      (inr (omega arith))
