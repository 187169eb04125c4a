-- ===== src/X86/Tests.antt =====
-- The x86 machine of src/arch/x86/vm.c on a KVM that keeps its registers, and on a small image.
use kvm_host.Common.{ℕ, suc, ◌≤◌, length, arith, ◌≡◌, refl, some, List, [], ◌∷◌, replicate, set}
use kvm_host.Common.Effects.{pure}
use kvm_host.Common.Bytes.{Memory, load_le, zeros, length-zeros}
use kvm_host.Bus.{bus_handle_io}
use kvm_host.Vm.Setup.{Vm}
use kvm_host.Vm.Example
use kvm_host.VirtioBlk.Setup.{BlkDev}
use kvm_host.X86.Platform.{vm_arch_init_platform_device}
use kvm_host.X86.Ports.{IsLaidOut, port_map, vm_arch_init_platform_device-port_map}
use kvm_host.X86.Load.{vm_arch_load_image}
use kvm_host.X86.Loaded.{IsLoaded, setup_part, vm_arch_load_image-IsLoaded}
use kvm_host.X86.{Kvm, Segment, Sregs, Regs, CpuidEntry, MsrEntry}
use kvm_host.X86.Setup.{vm_arch_cpu_init}

abbrev World : Type 0
World = record { sregs : Sregs; regs : Regs; cpuid : List CpuidEntry; msrs : List MsrEntry }

abbrev kvm : Kvm World
kvm = record {
  set_tss_addr = λ addr. pure tt;
  set_identity_map_addr = λ addr. pure tt;
  create_pic = pure tt;
  create_pit = pure tt;
  get_sregs = λ w. (w, some w.sregs);
  set_sregs = λ s w. (record w { sregs = s }, some tt);
  get_regs = λ w. (w, some w.regs);
  set_regs = λ r w. (record w { regs = r }, some tt);
  get_supported_cpuid = λ w. (w, w.cpuid);
  set_cpuid = λ entries w. record w { cpuid = entries };
  set_msrs = λ entries w. record w { msrs = entries };
  irq_line = λ irq level. pure tt;
}

abbrev real_mode : Segment
real_mode = record { base = 0xf000; limit = 0xffff; g = 0; db = 0; rest = [] }

abbrev entry : ℕ → CpuidEntry
entry n = record { function = n; eax = 1; ebx = 2; ecx = 3; edx = 4; rest = [] }

abbrev world : World
world = record {
  sregs = record {
    cs = real_mode;
    ds = real_mode;
    es = real_mode;
    fs = real_mode;
    gs = real_mode;
    ss = real_mode;
    cr0 = 0x60000010;
    rest = [];
  };
  regs = record { rip = 0xfff0; rsi = 0; rflags = 2; rest = [] };
  cpuid = entry 0 ∷ entry 0x40000000 ∷ [];
  msrs = [];
}

abbrev started : World
started = (vm_arch_cpu_init kvm world).0

enters_kernel : (started.regs.rip ∷ started.regs.rsi ∷ []) ≡ (0x100000 ∷ 0x10000 ∷ [])
unfolding vm_arch_cpu_init
enters_kernel = refl

protected :
    (started.sregs.cr0 ∷ started.sregs.cs.db ∷ started.sregs.ds.db ∷ []) ≡ (0x60000011 ∷ 1 ∷ 0 ∷ [])
unfolding vm_arch_cpu_init
protected = refl

signed :
    started.cpuid
    ≡ entry 0
      ∷ record {
        function = 0x40000000;
        eax = 0x40000001;
        ebx = 0x4b4d564b;
        ecx = 0x564b4d56;
        edx = 0x4d;
        rest = [];
      }
      ∷ []
unfolding vm_arch_cpu_init
signed = refl

-- an image of 600 bytes, whose setup part is one sector, in 2 MB of memory
abbrev image : List ℕ
image = set (replicate 600 7) 0x1f1 0

abbrev memory : Memory
memory = zeros 0x200000

image-whole : setup_part image ≤ length image
unfolding load_le
image-whole = omega arith

vm_arch_load_image-IsLoaded_example :
    (mem : Memory) × (vm_arch_load_image image memory ≡ some mem) × IsLoaded image mem
vm_arch_load_image-IsLoaded_example =
    vm_arch_load_image-IsLoaded image memory image-whole (omega (arith, length-zeros 0x200000))

-- a machine of x86 before its devices are set up, and afterwards
abbrev bare : Vm Unit
bare = Example.vm tt

abbrev zeroed_blk : BlkDev
zeroed_blk = bare.virtio_blk_dev

bare-IsLaidOut : IsLaidOut bare
bare-IsLaidOut = record {
  serial_null = omega arith;
  addr_null = omega arith;
  data_null = omega arith;
  serial_addr = omega arith;
  serial_data = omega arith;
  addr_data = omega arith;
  mmio_addr = omega arith;
  mmio_data = omega arith;
}

-- a byte of the UART
vm_arch_init_platform_device-port_map_example :
    let v' : Vm Unit = (vm_arch_init_platform_device zeroed_blk bare).0 in
    bus_handle_io (suc v'.io_bus.dev_num) v'.store v'.io_bus 0x3fd 1 ≡ some (port_map bare 0x3fd 1)
unfolding vm_arch_init_platform_device
vm_arch_init_platform_device-port_map_example =
    vm_arch_init_platform_device-port_map zeroed_blk bare
      (vm_arch_init_platform_device zeroed_blk bare).0 tt 0x3fd 1 bare-IsLaidOut refl refl
      (omega arith) (omega arith)
