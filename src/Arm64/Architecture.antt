-- ===== src/Arm64/Architecture.antt =====
-- src/arch/arm64 as the architecture of src/vm.c. src/arch/arm64/desc.h has no VIRTIO_NET_IRQ, which is
-- a parameter here.
use kvm_host.Common.{ℕ}
use kvm_host.Vm.Setup.{Vm, Arch, on_world}
use kvm_host.Arm64.{Kvm, Machine, ram_base}
use kvm_host.Arm64.Setup
use kvm_host.Arm64.Load
use kvm_host.Arm64.Boot
use kvm_host.Arm64.Platform

abbrev pub virtio_blk_irq : ℕ
virtio_blk_irq = 1

module _ {K : Type 0} (kvm : Kvm K) (net_irq : ℕ) where
  -- `virtio_blk_pci->config_dev.base`
  abbrev pub blk_base : Vm (Machine K) → ℕ
  blk_base v = (v.store v.virtio_blk_dev.virtio_pci_dev.pci_dev.config_dev).base

  abbrev pub arm64 : Arch (Machine K)
  arm64 = record {
    ram_base = ram_base;
    blk_irq = virtio_blk_irq;
    net_irq = net_irq;
    vm_arch_init = on_world (Setup.vm_arch_init kvm);
    vm_arch_cpu_init = on_world (Setup.vm_arch_cpu_init kvm);
    vm_arch_init_platform_device = Platform.vm_arch_init_platform_device kvm;
    vm_arch_load_image = λ image. on_world (Load.vm_arch_load_image image);
    vm_arch_load_initrd = λ image. on_world (Load.vm_arch_load_initrd image);
    late_init = λ v. on_world (Boot.vm_late_init kvm (blk_base v)) v;
  }
