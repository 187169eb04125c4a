-- ===== src/VirtioPci/Setup.antt =====
-- How src/virtio-pci.c sets a device up: the capability list in the configuration space, the
-- header, the features, and the calls by which a device completes it.
use kvm_host.Common.{
  ℕ, zero, suc, ◌+◌, ◌*◌, ◌%◌, ◌^◌, bit_or, false, ◌||◌, List, [], ◌∷◌, ◌==◌, if◌then◌else◌, get_or,
  replicate,
}
use kvm_host.Common.Bytes.{Memory, write_bytes, load_le, store_le}
use kvm_host.Bus.{Store, Bus, IoFn}
use kvm_host.Virtq.{Virtq}
use kvm_host.Pci.{PciDev, pci_bar_offset}
use kvm_host.Pci.Setup.{pci_dev_init, pci_set_bar, pci_set_status, pci_dev_register}
use kvm_host.VirtioPci.{VirtioPciDev, isr_offset, notify_offset, dev_cfg_offset}

abbrev pub virtio_pci_vendor_id : ℕ
virtio_pci_vendor_id = 0x1AF4

abbrev pub virtio_pci_cap_num : ℕ
virtio_pci_cap_num = 5

abbrev pub pci_capability_list : ℕ
pci_capability_list = 0x34

-- `struct virtio_pci_cap` is 16 bytes, and the notification capability (2) and the one for access
-- through the configuration space (5) have 4 more
abbrev pub cap_len : ℕ → ℕ
cap_len i = if i == 2 || i == 5 then 20 else 16

-- the loop of `virtio_pci_set_cap`: `n` rounds are left, and the next one is `i`. Gives the header
-- and the offsets of the capabilities; `next` is a `uint8_t`.
pub cap_loop : ℕ → ℕ → ℕ → Memory → Memory × List ℕ
cap_loop zero i next hdr = (hdr, [])
cap_loop (suc n) i next hdr =
    let next' = (next + cap_len i) % 256 in
    let cap : List ℕ = 9 ∷ next' ∷ cap_len i ∷ i ∷ replicate 12 0 in
    let (hdr', places) = cap_loop n (i + 1) next' (write_bytes hdr next cap) in
    (hdr', next ∷ places)

-- the fields `offset` and `length` of the capability at `place`
abbrev pub set_extent : ℕ → ℕ → ℕ → Memory → Memory
set_extent place offset len hdr = store_le (store_le hdr (place + 8) 4 offset) (place + 12) 4 len

unfoldable pub set_cap : VirtioPciDev → ℕ → VirtioPciDev
unfolding cap_loop
set_cap dev next =
    let (hdr, places) = cap_loop virtio_pci_cap_num 1 next dev.pci_dev.hdr in
    let common = get_or places 0 0 in
    let notify = get_or places 1 0 in
    let isr = get_or places 2 0 in
    let device = get_or places 3 0 in
    record dev {
      pci_dev = record dev.pci_dev {
        hdr = set_extent device dev_cfg_offset 0 (
            set_extent isr isr_offset 4
              (set_extent notify notify_offset 4 (set_extent common 0 56 hdr)));
      };
      notify_cap = notify;
      dev_cfg_cap = device;
    }

-- `notify_off` is the field of `vq->info`; the sum behind `base` is one of `uint32_t`s
unfoldable pub get_notify_addr : VirtioPciDev → ℕ → ℕ
get_notify_addr dev notify_off =
    let hdr = dev.pci_dev.hdr in
    load_le hdr (pci_bar_offset (load_le hdr (dev.notify_cap + 4) 1)) 4
    + (load_le hdr (dev.notify_cap + 8) 4 + load_le hdr (dev.notify_cap + 16) 4 * notify_off)
      % 2 ^ 32

unfoldable pub set_dev_cfg : VirtioPciDev → Memory → ℕ → VirtioPciDev
set_dev_cfg dev dev_cfg len = record dev {
  dev_cfg = dev_cfg;
  pci_dev = record dev.pci_dev { hdr = store_le dev.pci_dev.hdr (dev.dev_cfg_cap + 12) 4 len };
}

unfoldable pub set_virtq : VirtioPciDev → List Virtq → ℕ → VirtioPciDev
set_virtq dev vq num_queues = record dev { config = store_le dev.config 18 2 num_queues; vq = vq }

unfoldable pub add_feature : VirtioPciDev → ℕ → VirtioPciDev
add_feature dev feature = record dev { device_feature = bit_or dev.device_feature feature }

-- `class << 8` is stored as a `uint32_t`
unfoldable pub set_pci_hdr : VirtioPciDev → ℕ → ℕ → ℕ → VirtioPciDev
set_pci_hdr dev device_id class_code irq_line = record dev {
  pci_dev = record dev.pci_dev {
    hdr =
        store_le (store_le (store_le dev.pci_dev.hdr 0x02 2 device_id) 0x08 4 (class_code * 2 ^ 8))
          0x3c 1 irq_line;
  };
}

-- vendor, capability list, header type (the normal one is 0) and interrupt pin
abbrev pub identify : PciDev → PciDev
identify dev = record dev {
  hdr =
      store_le
        (store_le
          (store_le (store_le dev.hdr 0x00 2 virtio_pci_vendor_id) pci_capability_list 1 0x40) 0x0e
          1 0)
        0x3d 1 1;
}

-- a call through a null `dev_cfg` is out of range, as the memory behind it is empty
unfoldable pub virtio_pci_init : VirtioPciDev → Store → VirtioPciDev × Store
unfolding set_cap pci_dev_init pci_set_status pci_set_bar
virtio_pci_init dev h =
    let (pci_dev, h1) = pci_dev_init dev.pci_dev h in
    let (pci_dev', h2) =
      pci_set_bar (pci_set_status (identify pci_dev) 0x18) h1 0 0x100 false
        IoFn.virtio_pci_space_io in
    let dev' =
      set_cap
        (record {
          pci_dev = pci_dev';
          config = replicate dev_cfg_offset 0;
          dev_cfg = [];
          device_feature = 0;
          guest_feature = 0;
          notify_cap = 0;
          dev_cfg_cap = 0;
          vq = [];
        })
        0x40 in
    (record dev' { device_feature = bit_or (2 ^ 34) (2 ^ 32) }, h2)

unfoldable pub virtio_pci_enable : VirtioPciDev → Store → Bus → Store × Bus
unfolding pci_dev_register
virtio_pci_enable dev h pci_bus = pci_dev_register dev.pci_dev h pci_bus
