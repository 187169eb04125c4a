-- ===== src/Pci/Setup.antt =====
-- How src/pci.c sets up a device and the bus.
use kvm_host.Common.{
  ℕ, ◌+◌, ◌*◌, ◌%◌, Bool, false, of_bool, set, replicate, ◌&&◌, ◌||◌, ltb, leb, ◌==◌, if◌then◌else◌,
}
use kvm_host.Common.Bytes.{store_le}
use kvm_host.Bus.{null, IoFn, Dev, Bus, Store, bus_register_dev, bus_init, dev_init}
use kvm_host.Pci.{PciDev, pci_bar_offset, pci_status, pci_cfg_space_size, pci_std_num_bars}
use kvm_host.Pci.Ports.{Pci}

-- `bar_size` is a `uint32_t`
unfoldable pub pci_set_bar : PciDev → Store → ℕ → ℕ → Bool → IoFn → PciDev × Store
pci_set_bar dev h bar bar_size is_io_space do_io = (
  record dev {
    hdr = store_le dev.hdr (pci_bar_offset bar) 4 (of_bool is_io_space);
    bar_size = set dev.bar_size bar bar_size;
    bar_is_io_space = set dev.bar_is_io_space bar is_io_space;
  },
  dev_init h (dev.space_dev + bar) 0 bar_size dev.self do_io,
)

unfoldable pub pci_set_status : PciDev → ℕ → PciDev
pci_set_status dev status = record dev { hdr = store_le dev.hdr pci_status 2 status }

-- a `struct dev` of zeros: no handler is called through it, as it is on no bus
abbrev dev_zero : Dev
dev_zero = record { base = 0; len = 0; owner = null; do_io = IoFn.pci_config_do_io; next = null }

-- `memset` of the whole `struct pci_dev`, its devices included; the bus pointers that it sets are
-- the fields of `Space` and `Pci` here
unfoldable pub pci_dev_init : PciDev → Store → PciDev × Store
pci_dev_init dev h = (
  record dev {
    hdr = replicate pci_cfg_space_size 0;
    bar_size = replicate pci_std_num_bars 0;
    bar_active = replicate pci_std_num_bars false;
    bar_is_io_space = replicate pci_std_num_bars false;
  },
  λ a.
      if leb dev.space_dev a && ltb a (dev.space_dev + pci_std_num_bars) || a == dev.config_dev
      then dev_zero
      else h a,
)

-- `union pci_config_address addr = {.dev_num = dev->pci_bus->dev_num}`: a field of 5 bits, at bit 11
abbrev pub config_address : ℕ → ℕ
config_address dev_num = dev_num % 32 * 2048

unfoldable pub pci_dev_register : PciDev → Store → Bus → Store × Bus
pci_dev_register dev h pci_bus =
    bus_register_dev
      (dev_init h dev.config_dev (config_address pci_bus.dev_num) pci_cfg_space_size dev.self
        IoFn.pci_config_do_io)
      pci_bus dev.config_dev

unfoldable pub pci_init : Pci → Store → Pci × Store
pci_init pci h = (
  record pci { pci_bus = bus_init },
  dev_init
      (dev_init (dev_init h pci.pci_addr_dev 0xcf8 4 pci.self IoFn.pci_address_io) pci.pci_bus_dev
        0xcfc 4 pci.self IoFn.pci_data_io)
      pci.pci_mmio_dev 0 65536 pci.self IoFn.pci_mmio_io,
)
