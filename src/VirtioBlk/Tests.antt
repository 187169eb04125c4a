-- ===== src/VirtioBlk/Tests.antt =====
-- A read request of the block device of src/virtio-blk.c at a concrete queue and file.
use kvm_host.Common.{
  ℕ, ◌+◌, refl, arith, true, false, some, [], ◌∷◌, ◌++◌, replicate, set, inl, inr,
}
use kvm_host.Common.Bytes.{Memory, load_le}
use kvm_host.Virtq.{Virtq, is_avail, virtq_check_next, advance}
use kvm_host.Pci.{PciDev}
use kvm_host.VirtioPci.{VirtioPciDev}
use kvm_host.VirtioQueue.{Device}
use kvm_host.VirtioBlk.{File, complete_request, diskimg_read}
use kvm_host.VirtioBlk.Chain.{ReadChain}
use kvm_host.VirtioBlk.Request.{NoMore, IsCompleted, complete_request-IsCompleted}

abbrev pci_dev : PciDev
pci_dev = record {
  self = 100;
  hdr = [];
  bar_size = [];
  bar_active = [];
  bar_is_io_space = [];
  space_dev = 10;
  config_dev = 20;
}

abbrev queue : Virtq
queue = record {
  info = record {
    size = 4;
    msix_vector = 0;
    enable = 1;
    notify_off = 0;
    desc_addr = 0;
    device_addr = 0;
    driver_addr = 0;
  };
  next_avail_idx = 0;
  used_wrap_count = true;
}

-- descriptors at 0, 16 and 32: the header at 64, a buffer of 2 bytes at 80, the status at 90
abbrev memory : Memory
memory =
    (64 ∷ 0 ∷ 0 ∷ 0 ∷ 0 ∷ 0 ∷ 0 ∷ 0 ∷ 16 ∷ 0 ∷ 0 ∷ 0 ∷ 0 ∷ 0 ∷ 0x81 ∷ 0 ∷ [])
    ++ ((80 ∷ 0 ∷ 0 ∷ 0 ∷ 0 ∷ 0 ∷ 0 ∷ 0 ∷ 2 ∷ 0 ∷ 0 ∷ 0 ∷ 0 ∷ 0 ∷ 0x83 ∷ 0 ∷ [])
        ++ ((90 ∷ 0 ∷ 0 ∷ 0 ∷ 0 ∷ 0 ∷ 0 ∷ 0 ∷ 1 ∷ 0 ∷ 0 ∷ 0 ∷ 0 ∷ 0 ∷ 0x82 ∷ 0 ∷ [])
            ++ set (replicate 48 0) 24 1))

abbrev dev : VirtioPciDev
dev = record {
  pci_dev = pci_dev;
  config = replicate 64 0;
  dev_cfg = [];
  device_feature = 0;
  guest_feature = 0;
  notify_cap = 0;
  dev_cfg_cap = 0;
  vq = [];
}

-- the state of the file is its position; every byte holds the number 7
abbrev file : File ℕ
file = record {
  lseek = λ offset at. offset;
  read = λ size at. (at + size, some (replicate size 7));
  write = λ bytes at. (at, false);
}

abbrev blk : Device ℕ
blk = record {
  dev = dev;
  vq = queue;
  mem = memory;
  desc_ring = 0;
  device_event = 0;
  guest_event = 0;
  notify_addr = 0;
  irqs = 0;
  outside = 3;
}

blk-ReadChain : ReadChain 0 blk 2
unfolding load_le is_avail virtq_check_next advance
blk-ReadChain = record {
  header = record { avail = refl; above = omega arith };
  data_buffer = record { avail = refl; above = omega arith };
  status_byte = record { avail = refl; above = omega arith };
  header_next = refl;
  data_next = refl;
  header_len = refl;
  is_read = refl;
  ring_fits = omega arith;
  data_fits = omega arith;
  status_fits = omega arith;
  data_first = inl (omega arith);
  data_second = inl (omega arith);
  data_third = inl (omega arith);
  data_status = inr (omega arith);
  status_first = inl (omega arith);
  config = refl;
}

-- the fourth descriptor is where the header is, and its flags are 0
nothing_more : NoMore 0 blk 2
unfolding load_le is_avail advance
nothing_more = inr (refl, inr (omega arith), inl (omega arith), inl (omega arith))

-- sector 1, as the header has it
complete_request-IsCompleted_example :
    IsCompleted 0 blk (7 ∷ 7 ∷ []) 514 (complete_request file 0 2 (replicate 40 0) blk)
unfolding load_le advance diskimg_read
complete_request-IsCompleted_example =
    complete_request-IsCompleted file 0 0 (replicate 40 0) blk 514 (7 ∷ 7 ∷ []) blk-ReadChain
      nothing_more refl refl
