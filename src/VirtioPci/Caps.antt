-- ===== src/VirtioPci/Caps.antt =====
-- The capability list that virtio_pci_init of src/virtio-pci.c leaves in the configuration space,
-- as a driver walks it.
use kvm_host.Common.{ℕ, zero, suc, ◌+◌, ◌≡◌, refl, List, [], ◌∷◌, ◌==◌, if◌then◌else◌}
use kvm_host.Common.Bytes.{Memory, load_le, store_le}
use kvm_host.Bus.{Store}
use kvm_host.VirtioPci.{VirtioPciDev}
use kvm_host.VirtioPci.Setup.{virtio_pci_init, pci_capability_list}

-- one capability as the driver reads it
pub record Cap : Type 0 where
  pub place : ℕ
  pub vendor : ℕ
  pub len : ℕ
  pub cfg_type : ℕ
  pub bar : ℕ
  pub offset : ℕ
  pub extent : ℕ

abbrev pub read_cap : Memory → ℕ → Cap
read_cap hdr place = record {
  place = place;
  vendor = load_le hdr place 1;
  len = load_le hdr (place + 2) 1;
  cfg_type = load_le hdr (place + 3) 1;
  bar = load_le hdr (place + 4) 1;
  offset = load_le hdr (place + 8) 4;
  extent = load_le hdr (place + 12) 4;
}

-- the walk ends at a link of 0 or after `n` capabilities
pub walk : ℕ → Memory → ℕ → List Cap
walk zero hdr place = []
walk (suc n) hdr place =
    let rest = walk n hdr (load_le hdr (place + 1) 1) in
    if place == 0 then [] else read_cap hdr place ∷ rest

abbrev pub caps : Memory → List Cap
caps hdr = walk 48 hdr (load_le hdr pci_capability_list 1)

abbrev cap : ℕ → ℕ → ℕ → ℕ → ℕ → Cap
cap place len cfg_type offset extent = record {
  place = place;
  vendor = 9;
  len = len;
  cfg_type = cfg_type;
  bar = 0;
  offset = offset;
  extent = extent;
}

-- what follows the list: 16 bytes of zeros that the link of the last capability names
abbrev beyond : Cap
beyond = record { place = 0x98; vendor = 0; len = 0; cfg_type = 0; bar = 0; offset = 0; extent = 0 }

abbrev pub expected : List Cap
expected =
    cap 0x40 16 1 0 56
    ∷ cap 0x50 20 2 60 4
    ∷ cap 0x64 16 3 56 4
    ∷ cap 0x74 16 4 64 0
    ∷ cap 0x84 20 5 0 0
    ∷ beyond
    ∷ []

-- Whatever the memory of the device held before, a driver that follows the links finds after
-- virtio_pci_init the five capabilities with the types 1 to 5, each behind the other, that point at
-- the common configuration, the notification, the interrupt status and the device configuration
-- of BAR 0, and then an entry of zeros, since the link of the last one is not 0.
pub virtio_pci_init-caps :
    (dev : VirtioPciDev) (h : Store) → caps (virtio_pci_init dev h).0.pci_dev.hdr ≡ expected
unfolding virtio_pci_init walk load_le store_le
virtio_pci_init-caps dev h = refl
