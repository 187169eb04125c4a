-- ===== src/VirtioBlk/Setup.antt =====
-- How src/virtio-blk.c sets the block device up. eventfd, the irqfd and the threads are system calls.
use kvm_host.Common.{ℕ, ◌/◌, ◌^◌, Bool, true, [], ◌∷◌, length}
use kvm_host.Common.Bytes.{Memory, store_le}
use kvm_host.Bus.{Store, Bus}
use kvm_host.Virtq.{Virtq, virtq_init}
use kvm_host.VirtioPci.{VirtioPciDev}
use kvm_host.VirtioPci.Setup.{
  virtio_pci_init, set_dev_cfg, set_pci_hdr, set_virtq, add_feature, virtio_pci_enable,
}

-- `struct virtio_blk_dev` without its file descriptors and threads. `config` is the memory of its
-- `struct virtio_blk_config`, in front of which the capacity lies.
pub record BlkDev : Type 0 where
  pub virtio_pci_dev : VirtioPciDev
  pub config : Memory
  pub vq : Virtq
  pub irq_num : ℕ
  pub enable : Bool

abbrev pub device_id_blk : ℕ
device_id_blk = 0x1042

abbrev pub blk_pci_class : ℕ
blk_pci_class = 0x018000

-- `size` is the size of the disk image; there is one queue
unfoldable pub virtio_blk_setup : ℕ → ℕ → BlkDev → BlkDev
virtio_blk_setup irq size b = record b {
  enable = true;
  irq_num = irq;
  config = store_le b.config 0 8 (size / 2 ^ 9);
  vq = virtq_init b.vq;
}

unfoldable pub virtio_blk_init_pci : ℕ → ℕ → BlkDev → Store → Bus → BlkDev × Store × Bus
unfolding virtio_blk_setup
virtio_blk_init_pci irq size b h pci_bus =
    let b1 = virtio_blk_setup irq size b in
    let (dev, h1) = virtio_pci_init b1.virtio_pci_dev h in
    let dev1 = set_dev_cfg dev b1.config (length b1.config) in
    let dev2 = set_pci_hdr dev1 device_id_blk blk_pci_class b1.irq_num in
    let dev3 = add_feature (set_virtq dev2 (b1.vq ∷ []) 1) 0 in
    let (h2, bus) = virtio_pci_enable dev3 h1 pci_bus in
    (record b1 { virtio_pci_dev = dev3 }, h2, bus)
