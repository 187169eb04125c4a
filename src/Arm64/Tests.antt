-- ===== src/Arm64/Tests.antt =====
-- The ARM machine of src/arch/arm64/vm.c over a KVM that keeps registers and notes the calls of
-- libfdt.
use kvm_host.Common.{
  ℕ, ◌≡◌, ◌≤◌, refl, sym, ap, arith, false, Option, some, none, List, [], ◌∷◌, ◌++◌, replicate,
  if◌then◌else◌,
}
use kvm_host.Common.Bytes.{load_le, store_le, zeros, length-zeros}
use kvm_host.Common.Effects.{pure, ◌>>◌}
use kvm_host.Arm64.{Kvm, Machine, Reg, FdtCall, kernel_size, fdt_base}
use kvm_host.Arm64.Reg.{x, pc}
use kvm_host.Arm64.Load.{vm_arch_load_image, image_offset}
use kvm_host.Arm64.Boot.{init_reg}
use kvm_host.Arm64.Tree.{tree, serialize}
use kvm_host.Arm64.Fdt.{generate_fdt}
use kvm_host.Arm64.Written.{play}
use kvm_host.Arm64.Generated.{before, after, with_mpidr, generate_fdt-tree}
use kvm_host.Arm64.Placed.{IsPlaced, vm_arch_load_image-IsPlaced}
use kvm_host.Vm.Example.{vm}
use kvm_host.Arm64.Platform.{vm_arch_init_platform_device}
use kvm_host.Arm64.Reach.{IsLaidOut, reach, memory_map, vm_arch_init_platform_device-memory_map}
use kvm_host.Vm.Setup.{Vm}
use kvm_host.Arm64.Registers.{same_reg, IsRegisterFile, init_reg-regs}

abbrev World : Type 0
World = record { regs : Reg → ℕ; calls : List FdtCall }

-- GICv3 is missing, and `finish` of a tree fails
abbrev kvm : Kvm World
kvm = record {
  create_device = λ v3 k. (k, if v3 then none else some 7);
  set_device_attr = λ fd attr. pure tt;
  preferred_target = pure 5;
  vcpu_init = λ target. pure tt;
  get_mpidr_el1 = pure 0x80000001;
  set_one_reg = λ r v k. (record k { regs = λ s. if same_reg r s then v else k.regs s }, some tt);
  irq_line = λ irq level. pure tt;
  fdt = λ c k. (record k { calls = k.calls ++ (c ∷ []) }, some tt);
}

abbrev machine : Machine World
machine = record {
  entry = 0x80080000;
  initrdsz = 5;
  gic_fd = 0;
  is_gic_v3 = false;
  mem = zeros kernel_size;
  world = record { regs = λ r. 9; calls = [] };
}

generate_fdt-tree_example :
    ((mpidr : ℕ)
      → before kvm machine ++ after kvm machine 0x80000800 mpidr
        ≡ serialize (tree 5 false mpidr 0x80000800))
    × (generate_fdt kvm 0x80000800 machine
        ≡ (play kvm machine (before kvm machine)
              >> with_mpidr kvm machine (λ p. play kvm machine (after kvm machine 0x80000800 p)))
            machine)
generate_fdt-tree_example = generate_fdt-tree kvm machine 0x80000800

-- an image of 64 bytes with text offset 0x200
abbrev image : List ℕ
image = store_le (store_le (store_le (replicate 64 0) 8 8 0x200) 16 8 0x1000) 56 4 0x644d5241

vm_arch_load_image-IsPlaced_example : IsPlaced machine image (vm_arch_load_image image machine)
unfolding load_le store_le image_offset
vm_arch_load_image-IsPlaced_example =
    vm_arch_load_image-IsPlaced machine image (omega (arith, length-zeros kernel_size))
      (omega arith) (omega arith)

kvm-IsRegisterFile : IsRegisterFile kvm (λ k. k.regs)
unfolding IsRegisterFile
kvm-IsRegisterFile r s v k k' u e = sym (ap (λ (q : World × Option {0} Unit). q.0.regs s) e)

-- the registers after the boot
abbrev booted : Machine World
booted = (init_reg kvm machine).0

init_reg-regs_example :
    (booted.world.regs (x 0) ≡ fdt_base)
    × (booted.world.regs pc ≡ 0x80080000)
    × (booted.world.regs (x 1) ≡ 0)
    × (booted.world.regs (x 2) ≡ 0)
    × ((i : ℕ) → 3 ≤ i → booted.world.regs (x i) ≡ 9)
unfolding init_reg
init_reg-regs_example = init_reg-regs kvm (λ k. k.regs) kvm-IsRegisterFile machine booted tt refl

-- the machine with its devices
abbrev board : Vm (Machine World)
board = (vm_arch_init_platform_device kvm (vm machine)).0

vm-IsLaidOut : IsLaidOut (vm machine)
vm-IsLaidOut = record {
  iodev_null = omega arith;
  serial_null = omega arith;
  mmio_null = omega arith;
  io_serial = omega arith;
  io_mmio = omega arith;
  io_addr = omega arith;
  io_data = omega arith;
  serial_mmio = omega arith;
}

-- the line status register, through the bridge
vm_arch_init_platform_device-memory_map_example :
    reach board 0x3fd 1 ≡ some (memory_map (vm machine) 0x3fd 1)
vm_arch_init_platform_device-memory_map_example =
    vm_arch_init_platform_device-memory_map kvm (vm machine) board tt 0x3fd 1 vm-IsLaidOut refl refl
      (unfold vm_arch_init_platform_device in refl) (omega arith) (omega arith)
