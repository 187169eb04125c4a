-- ===== src/VirtioNet/Setup.antt =====
-- How src/virtio-net.c sets the network device up. The tap device, eventfd and the irqfd are system
-- calls.
use kvm_host.Common.{ℕ, ◌+◌, Bool, true, [], ◌∷◌, length}
use kvm_host.Common.Bytes.{Memory, store_le}
use kvm_host.Bus.{Store, Bus}
use kvm_host.Virtq.{Virtq, virtq_init}
use kvm_host.VirtioPci.{VirtioPciDev}
use kvm_host.VirtioPci.Setup.{
  virtio_pci_init, set_dev_cfg, set_pci_hdr, set_virtq, add_feature, virtio_pci_enable,
}
use kvm_host.VirtioNet.{notify_stride}

-- `struct virtio_net_dev` without its file descriptors and threads
pub record NetDev : Type 0 where
  pub virtio_pci_dev : VirtioPciDev
  pub config : Memory
  pub rx : Virtq
  pub tx : Virtq
  pub irq_num : ℕ
  pub enable : Bool

abbrev pub device_id_net : ℕ
device_id_net = 0x1041

abbrev pub net_pci_class : ℕ
net_pci_class = 0x020000

-- the number of the feature bit, which the code passes where a mask is wanted
abbrev pub virtio_net_f_mq : ℕ
virtio_net_f_mq = 22

-- a round of the loop over the queues
abbrev pub init_queue : ℕ → Virtq → Virtq
init_queue i vq = virtq_init (record vq { info = record vq.info { notify_off = i } })

unfoldable pub virtio_net_setup : ℕ → NetDev → NetDev
virtio_net_setup irq n = record n {
  enable = true;
  irq_num = irq;
  rx = init_queue 0 n.rx;
  tx = init_queue 1 n.tx;
}

-- `dev->notify_cap->notify_off_multiplier = ...`
abbrev pub set_multiplier : VirtioPciDev → ℕ → VirtioPciDev
set_multiplier dev v = record dev {
  pci_dev = record dev.pci_dev { hdr = store_le dev.pci_dev.hdr (dev.notify_cap + 16) 4 v };
}

unfoldable pub virtio_net_init_pci : ℕ → NetDev → Store → Bus → NetDev × Store × Bus
unfolding virtio_net_setup
virtio_net_init_pci irq n h pci_bus =
    let n1 = virtio_net_setup irq n in
    let (dev, h1) = virtio_pci_init n1.virtio_pci_dev h in
    let dev1 = set_dev_cfg dev n1.config (length n1.config) in
    let dev2 = set_pci_hdr dev1 device_id_net net_pci_class n1.irq_num in
    let dev3 = set_virtq (set_multiplier dev2 notify_stride) (n1.rx ∷ n1.tx ∷ []) 2 in
    let dev4 = add_feature dev3 virtio_net_f_mq in
    let (h2, bus) = virtio_pci_enable dev4 h1 pci_bus in
    (record n1 { virtio_pci_dev = dev4 }, h2, bus)
