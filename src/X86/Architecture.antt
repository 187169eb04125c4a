-- ===== src/X86/Architecture.antt =====
-- src/arch/x86 as the architecture of src/vm.c, over the memory of the guest and the rest of the world.
use kvm_host.Common.{Option, none, some}
use kvm_host.Common.Bytes.{Memory}
use kvm_host.Common.Effects.{Eff, pure}
use kvm_host.VirtioBlk.Setup.{BlkDev}
use kvm_host.Initrd
use kvm_host.Vm.Setup.{Vm, Arch, on_world}
use kvm_host.X86.{Kvm}
use kvm_host.X86.Setup
use kvm_host.X86.Load
use kvm_host.X86.Platform

pub record Pc (W : Type 0) : Type 0 where
  pub mem : Memory
  pub outside : W

module _ {W : Type 0} where
  -- a call that works on the rest of the world, and a load, which changes nothing when it fails
  abbrev pub put_outside : {A : Type 0} → Pc W → W × Option A → Pc W × Option A
  put_outside p (w, r) = (record p { outside = w }, r)

  abbrev pub call : {A : Type 0} → Eff W A → Eff (Vm (Pc W)) A
  call f = on_world (λ p. put_outside p (f p.outside))

  abbrev pub put_mem : Pc W → Option Memory → Pc W × Option {0} Unit
  put_mem p none = (p, none)
  put_mem p (some mem) = (record p { mem = mem }, some tt)

  -- the rounds of `vm_arch_load_initrd` are enough
  abbrev pub put_found : Pc W → Option (Option Memory) → Pc W × Option {0} Unit
  put_found p none = (p, none)
  put_found p (some found) = put_mem p found

  -- `zeroed` is a block device of zeros
  abbrev pub x86 : Kvm W → BlkDev → Arch (Pc W)
  x86 kvm zeroed = record {
    ram_base = 0;
    blk_irq = 15;
    net_irq = 14;
    vm_arch_init = call (Setup.vm_arch_init kvm);
    vm_arch_cpu_init = call (Setup.vm_arch_cpu_init kvm);
    vm_arch_init_platform_device = Platform.vm_arch_init_platform_device zeroed;
    vm_arch_load_image = λ image. on_world (λ p. put_mem p (Load.vm_arch_load_image image p.mem));
    vm_arch_load_initrd =
        λ image. on_world (λ p. put_found p (Initrd.vm_arch_load_initrd p.mem image));
    late_init = pure tt;
  }
