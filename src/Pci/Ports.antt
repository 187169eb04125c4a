-- ===== src/Pci/Ports.antt =====
-- `struct pci` of src/pci.c and the three ranges through which the guest reaches the configuration
-- space: the address port, the data port, and the memory-mapped window.
use kvm_host.Common.{
  ℕ, ◌-◌, ◌/◌, ◌%◌, ◌^◌, bit_and, bit_or, Bool, Option, none, some, List, ◌==◌, if◌then◌else◌,
}
use kvm_host.Common.Bytes.{read_bytes, write_bytes, le_value, le_bytes}
use kvm_host.Bus.{Ptr, Bus, Store, Call, bus_handle_io}

-- `struct pci`; `pci_addr` is the `value` of the union, whose low two bits are `reg_offset` and
-- whose top bit is `enable_bit`
pub record Pci : Type 0 where
  pub self : Ptr
  pub pci_addr : ℕ
  pub pci_bus : Bus
  pub pci_bus_dev : Ptr
  pub pci_addr_dev : Ptr
  pub pci_mmio_dev : Ptr

abbrev pub clear_reg_offset : ℕ → ℕ
clear_reg_offset value = value - value % 4

-- the new state, and what `data` holds afterwards
unfoldable pub pci_address_io : Pci → List ℕ → Bool → ℕ → ℕ → Pci × List ℕ
pci_address_io pci bytes is_write offset size =
    let reg = le_bytes 4 pci.pci_addr in
    if is_write
    then (
      record pci { pci_addr = clear_reg_offset (le_value (write_bytes reg offset bytes)) },
      bytes,
    )
    else (record pci { pci_addr = clear_reg_offset pci.pci_addr }, read_bytes reg offset size)

-- `pci->pci_addr.enable_bit`
abbrev pub enabled : ℕ → Bool
enabled value = value / 2 ^ 31 % 2 == 1

-- `~(1UL << 31)` as a `uint64_t`
abbrev pub pci_addr_mask : ℕ
pci_addr_mask = 2 ^ 64 - 1 - 2 ^ 31

-- The outer option is the fuel of the lookup on `pci_bus`, the inner one the call that it makes.
unfoldable pub pci_data_io : ℕ → Store → Pci → ℕ → ℕ → Option (Option Call)
pci_data_io fuel h pci offset size =
    if enabled pci.pci_addr
    then bus_handle_io fuel h pci.pci_bus (bit_and (bit_or pci.pci_addr offset) pci_addr_mask) size
    else some none

unfoldable pub pci_mmio_io : ℕ → Store → Pci → ℕ → ℕ → Option (Option Call)
pci_mmio_io fuel h pci offset size = bus_handle_io fuel h pci.pci_bus offset size
