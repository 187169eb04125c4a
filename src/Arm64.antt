-- ===== src/Arm64.antt =====
-- The ARM machine of src/arch/arm64/vm.c and src/arch/arm64/vm-arch.h: its memory map, its state,
-- and what it asks of KVM and of libfdt. `K` is the state of those and of everything else.
pub mod Setup
pub mod Load
pub mod Fdt
pub mod Boot
pub mod Tree
pub mod Written
pub mod Placed
pub mod Registers
mod Tests
pub mod Generated
pub mod Platform
pub mod Architecture
pub mod Reach
use Prim.Native.String.{String}
use kvm_host.Common.{ℕ, ◌+◌, ◌-◌, ◌^◌, Bool, Option, List}
use kvm_host.Common.Bytes.{Memory}
use kvm_host.Common.Effects.{Eff}

-- addresses of the memory map; the sizes of the interrupt controller are those of <asm/kvm.h>
abbrev pub sz_64k : ℕ
sz_64k = 2 ^ 16

abbrev pub ram_base : ℕ
ram_base = 2 ^ 31

abbrev pub fdt_max_size : ℕ
fdt_max_size = 2 ^ 21

abbrev pub ioport_base : ℕ
ioport_base = 0

abbrev pub ioport_size : ℕ
ioport_size = 2 ^ 16

abbrev pub gic_dist_base : ℕ
gic_dist_base = 0x100000

abbrev pub gic_dist_size : ℕ
gic_dist_size = sz_64k

abbrev pub gic_redist_base : ℕ
gic_redist_base = gic_dist_base + gic_dist_size

abbrev pub gic_redist_size : ℕ
gic_redist_size = 2 ^ 17

abbrev pub pci_cfg_base : ℕ
pci_cfg_base = 0x40000000

abbrev pub pci_cfg_size : ℕ
pci_cfg_size = 2 ^ 16

abbrev pub pci_mmio_base : ℕ
pci_mmio_base = pci_cfg_base + pci_cfg_size

abbrev pub pci_mmio_size : ℕ
pci_mmio_size = ram_base - pci_mmio_base

abbrev pub kernel_base : ℕ
kernel_base = ram_base

abbrev pub kernel_size : ℕ
kernel_size = 0x8000000

abbrev pub initrd_base : ℕ
initrd_base = kernel_base + kernel_size

abbrev pub initrd_size : ℕ
initrd_size = 0x8000000

abbrev pub fdt_base : ℕ
fdt_base = initrd_base + initrd_size

-- the registers that the machine sets, and the one that it reads
pub data Reg : Type 0 where
  x : ℕ → Reg
  pc : Reg

-- the attributes of the interrupt controller that are set
pub data Attr : Type 0 where
  v3_dist : ℕ → Attr
  v3_redist : ℕ → Attr
  v2_dist : ℕ → Attr
  v2_cpu : ℕ → Attr
  ctrl_init : Attr

-- the calls that write a device tree in order, as libfdt's sequential interface names them; a
-- property's bytes are as they stand in the tree
pub data FdtCall : Type 0 where
  create : ℕ → FdtCall
  finish_reservemap : FdtCall
  begin_node : String → FdtCall
  property : String → List ℕ → FdtCall
  property_cell : String → ℕ → FdtCall
  property_u64 : String → ℕ → FdtCall
  property_string : String → String → FdtCall
  end_node : FdtCall
  finish : FdtCall

-- The ioctls of the machine, and `fdt_*`. A call that fails is one that returns a negative number,
-- for `vcpu_init` any other than 0. `create_device true` asks for a GICv3, and gives the file
-- descriptor.
pub record Kvm (K : Type 0) : Type 0 where
  pub create_device : Bool → Eff K ℕ
  pub set_device_attr : ℕ → Attr → Eff K Unit
  pub preferred_target : Eff K ℕ
  pub vcpu_init : ℕ → Eff K Unit
  pub get_mpidr_el1 : Eff K ℕ
  pub set_one_reg : Reg → ℕ → Eff K Unit
  pub irq_line : ℕ → ℕ → Eff K Unit
  pub fdt : FdtCall → Eff K Unit

-- `vm_arch_priv_t`, with the memory of the guest and the rest of the world
pub record Machine (K : Type 0) : Type 0 where
  pub entry : ℕ
  pub initrdsz : ℕ
  pub gic_fd : ℕ
  pub is_gic_v3 : Bool
  pub mem : Memory
  pub world : K

module _ {K : Type 0} where
  -- what a call makes of the machine
  abbrev pub put_world : {A : Type 0} → Machine K → K × Option A → Machine K × Option A
  put_world m (k, r) = (record m { world = k }, r)

  -- a call that works on the rest of the world only
  abbrev pub call : {A : Type 0} → Eff K A → Eff (Machine K) A
  call f m = put_world m (f m.world)
