-- ===== src/Pci.antt =====
-- The PCI bus of src/pci.c: the configuration space of a device, its base address registers (BARs)
-- and the configuration address and data ports. Offsets are those of <linux/pci_regs.h>.
pub mod Address
pub mod Ports
pub mod Setup
pub mod Fields
pub mod Bar
pub mod Coherent
mod Tests
use kvm_host.Common.{
  ℕ, zero, suc, ◌+◌, ◌-◌, ◌*◌, ◌/◌, ◌%◌, ◌^◌, bit_and, bit_or, Bool, true, false, not, ◌&&◌, Option,
  none, some, List, [], ◌∷◌, ◌==◌, leb, truthy, of_bool, if◌then◌else◌, get_or, set, replicate,
  ◌>>=◌,
}
use kvm_host.Common.Bytes.{Memory, read_bytes, write_bytes, le_value, le_bytes, load_le, store_le}
use kvm_host.Bus.{Ptr, Bus, Store, write, bus_register_dev, bus_deregister_dev}

abbrev pub pci_command : ℕ
pci_command = 0x04

abbrev pub pci_status : ℕ
pci_status = 0x06

abbrev pub pci_base_address_0 : ℕ
pci_base_address_0 = 0x10

abbrev pub pci_base_address_5 : ℕ
pci_base_address_5 = 0x24

abbrev pub pci_rom_address : ℕ
pci_rom_address = 0x30

abbrev pub pci_cfg_space_size : ℕ
pci_cfg_space_size = 256

abbrev pub pci_std_num_bars : ℕ
pci_std_num_bars = 6

abbrev pub pci_bar_offset : ℕ → ℕ
pci_bar_offset bar = pci_base_address_0 + bar * 4

-- `struct pci_dev` at address `self`. `&dev->space_dev[i]` is the address `space_dev + i`.
pub record PciDev : Type 0 where
  pub self : Ptr
  pub hdr : Memory
  pub bar_size : List ℕ
  pub bar_active : List Bool
  pub bar_is_io_space : List Bool
  pub space_dev : Ptr
  pub config_dev : Ptr

-- the devices and the two buses that a BAR may be registered on
pub record Space : Type 0 where
  pub store : Store
  pub io_bus : Bus
  pub mmio_bus : Bus

-- `dev->bar_is_io_space[i] ? dev->io_bus : dev->mmio_bus`
abbrev pub bus_of : Bool → Space → Bus
bus_of is_io s = if is_io then s.io_bus else s.mmio_bus

abbrev pub with_bus : Bool → Space → Store → Bus → Space
with_bus true s h bus = record s { store = h; io_bus = bus }
with_bus false s h bus = record s { store = h; mmio_bus = bus }

-- `~(dev->bar_size[bar] - 1)` as a `uint32_t`
unfoldable pub bar_mask : PciDev → ℕ → ℕ
bar_mask dev bar = 2 ^ 32 - 1 - (get_or dev.bar_size bar 0 + 2 ^ 32 - 1) % 2 ^ 32

-- `dev->space_dev[bar].base & mask`
unfoldable pub bar_base : PciDev → ℕ → Store → ℕ
unfolding bar_mask
bar_base dev bar h = bit_and (h (dev.space_dev + bar)).base (bar_mask dev bar)

unfoldable pub pci_activate_bar : PciDev → ℕ → Bool → Space → PciDev × Space
pci_activate_bar dev bar is_io s =
    let registered = bus_register_dev s.store (bus_of is_io s) (dev.space_dev + bar) in
    (
      record dev { bar_active = set dev.bar_active bar true },
      if not (get_or dev.bar_active bar false) && truthy (bar_base dev bar s.store)
          then with_bus is_io s registered.0 registered.1
          else s,
    )

-- a loop over the list of a bus gets more rounds than the bus has had registrations
unfoldable pub pci_deactivate_bar : PciDev → ℕ → Bool → Space → Option (PciDev × Space)
pci_deactivate_bar dev bar is_io s =
    let dev' = record dev { bar_active = set dev.bar_active bar false } in
    if get_or dev.bar_active bar false && truthy (bar_base dev bar s.store)
    then (do
      (h, bus) ←
          bus_deregister_dev ((bus_of is_io s).dev_num + 1) s.store (bus_of is_io s)
            (dev.space_dev + bar)
      some (dev', with_bus is_io s h bus))
    else some (dev', s)

-- one round of the loop of `pci_command_bar`
unfoldable pub command_round : Bool → Bool → ℕ → PciDev × Space → Option (PciDev × Space)
command_round enable_io enable_mem i (dev, s) =
    let is_io = get_or dev.bar_is_io_space i false in
    if (if is_io then enable_io else enable_mem)
    then some (pci_activate_bar dev i is_io s)
    else pci_deactivate_bar dev i is_io s

-- `n` rounds are left, and the next one is `i`
unfoldable pub command_loop : Bool → Bool → ℕ → ℕ → PciDev × Space → Option (PciDev × Space)
unfolding command_round
command_loop enable_io enable_mem zero i r = some r
command_loop enable_io enable_mem (suc n) i r = do
  r' ← command_round enable_io enable_mem i r
  command_loop enable_io enable_mem n (i + 1) r'

unfoldable pub pci_command_bar : PciDev → Space → Option (PciDev × Space)
unfolding command_loop
pci_command_bar dev s =
    let command = load_le dev.hdr pci_command 2 in
    command_loop (truthy (bit_and command 1)) (truthy (bit_and command 2)) pci_std_num_bars 0
      (dev, s)

unfoldable pub pci_config_bar : PciDev → ℕ → Space → PciDev × Space
unfolding write
pci_config_bar dev bar s =
    let old_bar = load_le dev.hdr (pci_bar_offset bar) 4 in
    let new_bar =
      bit_or (bit_and old_bar (bar_mask dev bar))
        (of_bool (get_or dev.bar_is_io_space bar false)) in
    let region = dev.space_dev + bar in
    (
      record dev { hdr = store_le dev.hdr (pci_bar_offset bar) 4 new_bar },
      record s { store = write s.store region (record (s.store region) { base = new_bar }) },
    )

-- `bytes` is what `data` points to: `size` bytes
unfoldable pub pci_config_write : PciDev → List ℕ → ℕ → Space → Option (PciDev × Space)
pci_config_write dev bytes offset s =
    let dev' = record dev { hdr = write_bytes dev.hdr offset bytes } in
    if offset == pci_command
    then pci_command_bar dev' s
    else if leb pci_base_address_0 offset && leb offset pci_base_address_5
    then some (pci_config_bar dev' ((offset - pci_base_address_0) / 4) s)
    else if offset == pci_rom_address
    then some (record dev' { hdr = store_le dev'.hdr pci_rom_address 4 0 }, s)
    else some (dev', s)

unfoldable pub pci_config_read : PciDev → ℕ → ℕ → List ℕ
pci_config_read dev offset size = read_bytes dev.hdr offset size

-- the new state, and what `data` holds afterwards
unfoldable pub pci_config_do_io :
    PciDev → List ℕ → Bool → ℕ → ℕ → Space → Option (PciDev × Space × List ℕ)
unfolding pci_config_write pci_config_read
pci_config_do_io dev bytes is_write offset size s =
    if is_write
    then (do (dev', s') ← pci_config_write dev bytes offset s; some (dev', s', bytes))
    else some (dev, s, pci_config_read dev offset size)
