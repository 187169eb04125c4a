-- ===== src/Vm/Example.antt =====
-- A machine of src/vm.c with nothing on its buses, for the tests.
use kvm_host.Common.{false, []}
use kvm_host.Bus.{IoFn, Store, bus_init}
use kvm_host.Virtq.{VirtqInfo, Virtq}
use kvm_host.Pci.{PciDev}
use kvm_host.VirtioPci.{VirtioPciDev}
use kvm_host.VirtioNet.Setup.{NetDev}
use kvm_host.Vm.Setup.{Vm}

abbrev pub pci_dev : PciDev
pci_dev = record {
  self = 100;
  hdr = [];
  bar_size = [];
  bar_active = [];
  bar_is_io_space = [];
  space_dev = 10;
  config_dev = 20;
}

abbrev pub dev : VirtioPciDev
dev = record {
  pci_dev = pci_dev;
  config = [];
  dev_cfg = [];
  device_feature = 0;
  guest_feature = 0;
  notify_cap = 0;
  dev_cfg_cap = 0;
  vq = [];
}

abbrev pub info : VirtqInfo
info = record {
  size = 0;
  msix_vector = 0;
  enable = 0;
  notify_off = 0;
  desc_addr = 0;
  device_addr = 0;
  driver_addr = 0;
}

abbrev pub queue : Virtq
queue = record { info = info; next_avail_idx = 0; used_wrap_count = false }

abbrev pub net : NetDev
net = record {
  virtio_pci_dev = dev;
  config = [];
  rx = queue;
  tx = queue;
  irq_num = 0;
  enable = false;
}

abbrev pub store : Store
store p = record { base = 0; len = 0; owner = 0; do_io = IoFn.serial_handle_io; next = 0 }

abbrev pub vm : {W : Type 0} → W → Vm W
vm w = record {
  self = 1;
  kvm_fd = 0;
  vm_fd = 0;
  vcpu_fd = 0;
  store = store;
  mmio_bus = bus_init;
  io_bus = bus_init;
  pci = record {
    self = 2;
    pci_addr = 0;
    pci_bus = bus_init;
    pci_bus_dev = 3;
    pci_addr_dev = 4;
    pci_mmio_dev = 5;
  };
  serial = 6;
  serial_dev = 7;
  iodev = 8;
  virtio_blk_dev = record {
    virtio_pci_dev = dev;
    config = [];
    vq = queue;
    irq_num = 0;
    enable = false;
  };
  virtio_net_dev = net;
  world = w;
}
