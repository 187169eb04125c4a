-- ===== src/Arm64/Platform.antt =====
-- The devices that src/arch/arm64/vm.c puts on the buses, and the bridge from one bus to the other.
use kvm_host.Common.{ℕ, suc, Option}
use kvm_host.Common.Effects.{Eff, modify, ◌>>◌}
use kvm_host.Bus.{Ptr, IoFn, Store, Call, write, bus_handle_io}
use kvm_host.Pci.Setup.{pci_init}
use kvm_host.Vm.Setup.{Vm, on_world}
use kvm_host.Vm.Platform.{init_dev, add_mmio, serial_init}
use kvm_host.Arm64.{Kvm, Machine, ioport_base, ioport_size, pci_cfg_base}
use kvm_host.Arm64.Setup.{finalize_irqchip}

-- `v->pci.pci_mmio_dev.base = ARM_PCI_CFG_BASE`
abbrev pub set_base : Store → Ptr → ℕ → Store
set_base h dev base = write h dev (record (h dev) { base = base })

module _ {W : Type 0} where
  -- an access to the range of the ports, handed on to the bus of the ports
  unfoldable pub pio_handler : Vm W → ℕ → ℕ → Option (Option Call)
  pio_handler v offset size = bus_handle_io (suc v.io_bus.dev_num) v.store v.io_bus offset size

  abbrev pub init_iodev : Vm W → Vm W
  init_iodev v =
      add_mmio v.iodev (init_dev v.iodev ioport_base ioport_size v.self IoFn.pio_handler v)

  abbrev pub init_pci : Vm W → Vm W
  init_pci v =
      let (pci, h) = pci_init v.pci v.store in
      add_mmio pci.pci_mmio_dev
        (record v { pci = pci; store = set_base h pci.pci_mmio_dev pci_cfg_base })

  -- the three devices in the order of the code
  unfoldable pub init_devices : Vm W → Vm W
  unfolding pci_init serial_init
  init_devices v = serial_init (init_pci (init_iodev v))

module _ {K : Type 0} (kvm : Kvm K) where
  unfoldable pub vm_arch_init_platform_device : Eff (Vm (Machine K)) Unit
  unfolding init_devices finalize_irqchip
  vm_arch_init_platform_device = do modify init_devices; on_world (finalize_irqchip kvm)
