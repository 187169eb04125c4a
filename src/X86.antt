-- ===== src/X86.antt =====
-- The x86 machine of src/arch/x86/vm.c: what it asks of KVM, and the registers and CPUID entries as far
-- as it changes them. `vm_arch_load_initrd` is in Initrd.
pub mod Setup
pub mod Load
pub mod Fields
pub mod Loaded
pub mod Platform
pub mod Ports
pub mod Architecture
mod Tests
use kvm_host.Common.{ℕ, List}
use kvm_host.Common.Effects.{Eff}

-- `struct kvm_segment`; the fields that stay are in `rest`, here and below
pub record Segment : Type 0 where
  pub base : ℕ
  pub limit : ℕ
  pub g : ℕ
  pub db : ℕ
  pub rest : List ℕ

-- `struct kvm_sregs`
pub record Sregs : Type 0 where
  pub cs : Segment
  pub ds : Segment
  pub es : Segment
  pub fs : Segment
  pub gs : Segment
  pub ss : Segment
  pub cr0 : ℕ
  pub rest : List ℕ

-- `struct kvm_regs`
pub record Regs : Type 0 where
  pub rip : ℕ
  pub rsi : ℕ
  pub rflags : ℕ
  pub rest : List ℕ

-- `struct kvm_cpuid_entry2`
pub record CpuidEntry : Type 0 where
  pub function : ℕ
  pub eax : ℕ
  pub ebx : ℕ
  pub ecx : ℕ
  pub edx : ℕ
  pub rest : List ℕ

-- `struct kvm_msr_entry`; `value` is its `data`
pub record MsrEntry : Type 0 where
  pub index : ℕ
  pub value : ℕ

-- The ioctls. Those whose result the code drops have none; `get_supported_cpuid` gives what is in the
-- 100 entries afterwards.
pub record Kvm (W : Type 0) : Type 0 where
  pub set_tss_addr : ℕ → Eff W Unit
  pub set_identity_map_addr : ℕ → Eff W Unit
  pub create_pic : Eff W Unit
  pub create_pit : Eff W Unit
  pub get_sregs : Eff W Sregs
  pub set_sregs : Sregs → Eff W Unit
  pub get_regs : Eff W Regs
  pub set_regs : Regs → Eff W Unit
  pub get_supported_cpuid : W → W × List CpuidEntry
  pub set_cpuid : List CpuidEntry → W → W
  pub set_msrs : List MsrEntry → W → W
  pub irq_line : ℕ → ℕ → Eff W Unit
