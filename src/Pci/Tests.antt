-- ===== src/Pci/Tests.antt =====
-- The theorems of src/pci.c at one device with a BAR of 256 bytes.
use kvm_host.Common.{
  ℕ, ◌+◌, ◌-◌, ◌*◌, ◌^◌, ◌≡◌, ◌≢◌, refl, true, false, some, [], ◌∷◌, ◌==◌, if◌then◌else◌, arith,
  replicate,
}
use kvm_host.Common.Bytes.{le_bytes}
use kvm_host.Bus.{Ptr, IoFn, Dev, Bus, Store}
use kvm_host.Bus.Chain.{IsBus}
use kvm_host.Pci.{PciDev, Space, pci_config_write}
use kvm_host.Pci.Ports.{Pci, pci_address_io, pci_data_io}
use kvm_host.Pci.Setup.{pci_dev_register}
use kvm_host.Pci.Fields.{fields, stored, pci_address_io-fields}
use kvm_host.Pci.Address.{Numbered, pci_data_io-device, pci_dev_register-Numbered}
use kvm_host.Pci.Bar.{IsBar, bar_value, pci_config_write-bar}

abbrev dev : PciDev
dev = record {
  self = 50;
  hdr = replicate 256 0;
  bar_size = 0x100 ∷ 0 ∷ 0 ∷ 0 ∷ 0 ∷ 0 ∷ [];
  bar_active = replicate 6 false;
  bar_is_io_space = replicate 6 false;
  space_dev = 10;
  config_dev = 20;
}

-- the configuration ranges of two devices, at addresses 20 and 21
abbrev config : ℕ → Ptr → Ptr → Dev
config base owner next = record {
  base = base;
  len = 256;
  owner = owner;
  do_io = IoFn.pci_config_do_io;
  next = next;
}

abbrev store : Store
store a = if a == 20 then config 0 50 0 else config 2048 51 20

abbrev pci_bus : Bus
pci_bus = record { dev_num = 2; head = 21 }

abbrev pci : Pci
pci = record {
  self = 1;
  pci_addr = 0;
  pci_bus = pci_bus;
  pci_bus_dev = 2;
  pci_addr_dev = 3;
  pci_mmio_dev = 4;
}

pci_bus-IsBus : IsBus store pci_bus (21 ∷ 20 ∷ [])
pci_bus-IsBus = record {
  chain = (refl, omega arith, refl, (refl, omega arith, refl, refl));
  counted = omega arith;
  small = omega arith;
}

pci_bus-Numbered : Numbered store (21 ∷ 20 ∷ [])
pci_bus-Numbered = (refl, refl, refl, (refl, refl, refl, tt))

pci_address_io-fields_example :
    fields (pci_address_io pci (7 ∷ []) true 0 1).0.pci_addr
    ≡ record (fields (stored pci (7 ∷ []) true 0)) { reg_offset = 0 }
pci_address_io-fields_example = pci_address_io-fields pci (7 ∷ []) true 0 1

-- two bytes at byte 2 of register 0x10 of device 1
pci_data_io-device_example :
    pci_data_io 3 store (pci_address_io pci (le_bytes 4 (2 ^ 31 + 1 * 2048 + 0x10)) true 0 4).0 2 2
    ≡ some (some (record { fn = IoFn.pci_config_do_io; owner = 51; offset = 0x12 }))
pci_data_io-device_example =
    pci_data_io-device 3 store pci (21 ∷ 20 ∷ []) 1 0x10 2 2 pci_bus-IsBus pci_bus-Numbered
      (omega arith) (omega arith) (omega arith) (omega arith) (omega arith) (omega arith)
      (omega arith)

abbrev third : PciDev
third = record dev { self = 52; config_dev = 22 }

pci_dev_register-Numbered_example :
    IsBus
      (pci_dev_register third store pci_bus).0
      (pci_dev_register third store pci_bus).1
      (22 ∷ 21 ∷ 20 ∷ [])
    × Numbered (pci_dev_register third store pci_bus).0 (22 ∷ 21 ∷ 20 ∷ [])
    × ((pci_dev_register third store pci_bus).1.dev_num ≡ 3)
pci_dev_register-Numbered_example =
    pci_dev_register-Numbered third store pci_bus (21 ∷ 20 ∷ []) pci_bus-IsBus pci_bus-Numbered refl
      (omega arith) (omega arith) refl

abbrev space : Space
space = record {
  store = store;
  io_bus = record { dev_num = 0; head = 0 };
  mmio_bus = record { dev_num = 0; head = 0 };
}

bar0-IsBar : IsBar dev 0 8
bar0-IsBar = record {
  space = refl;
  index = omega arith;
  size = refl;
  kind = 24;
  width = refl;
  some_bit = omega arith;
}

-- written with all ones
pci_config_write-bar_example :
    (dev' : PciDev) × (s' : Space) × (pci_config_write dev (le_bytes 4 (2 ^ 32 - 1)) 0x10 space
      ≡ some (dev', s'))
    × (bar_value dev' 0 ≡ 0xffff_ff00)
    × ((s'.store 10).base ≡ bar_value dev' 0)
    × ((a : Ptr) → a ≢ 10 → s'.store a ≡ store a)
pci_config_write-bar_example =
    pci_config_write-bar dev 0 8 (2 ^ 32 - 1) space bar0-IsBar (omega arith)
