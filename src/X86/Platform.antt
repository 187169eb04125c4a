-- ===== src/X86/Platform.antt =====
-- The devices that src/arch/x86/vm.c puts on the bus of the ports.
use kvm_host.Common.Effects.{Eff, modify}
use kvm_host.Pci.Setup.{pci_init}
use kvm_host.VirtioBlk.Setup.{BlkDev}
use kvm_host.Vm.Setup.{Vm}
use kvm_host.Vm.Platform.{add_io, serial_init}

module _ {W : Type 0} where
  abbrev pub init_pci : Vm W → Vm W
  init_pci v =
      let (pci, h) = pci_init v.pci v.store in
      add_io pci.pci_bus_dev (add_io pci.pci_addr_dev (record v { pci = pci; store = h }))

  -- `zeroed` is the block device after `virtio_blk_init`
  unfoldable pub init_devices : BlkDev → Vm W → Vm W
  unfolding pci_init serial_init
  init_devices zeroed v = record (serial_init (init_pci v)) { virtio_blk_dev = zeroed }

  unfoldable pub vm_arch_init_platform_device : BlkDev → Eff (Vm W) Unit
  unfolding init_devices
  vm_arch_init_platform_device zeroed = modify (init_devices zeroed)
