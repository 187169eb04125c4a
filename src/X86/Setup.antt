-- ===== src/X86/Setup.antt =====
-- How src/arch/x86/vm.c sets up the interrupt controller and the vCPU.
use kvm_host.Common.{ℕ, ◌^◌, ◌-◌, bit_or, List, [], ◌∷◌, ◌==◌, if◌then◌else◌}
use kvm_host.Common.Effects.{Eff, ignore, modify, ◌>>=◌, ◌>>◌}
use kvm_host.X86.{Kvm, Segment, Sregs, Regs, CpuidEntry}

-- the macro `X`, whose limit is the `uint32_t` of all ones
unfoldable pub flat : Segment → Segment
flat s = record s { base = 0; limit = 2 ^ 32 - 1; g = 1 }

-- `sregs.R.db = 1`
abbrev pub code32 : Segment → Segment
code32 s = record s { db = 1 }

unfoldable pub protected_mode : Sregs → Sregs
unfolding flat
protected_mode s = record s {
  cs = code32 (flat s.cs);
  ds = flat s.ds;
  fs = flat s.fs;
  gs = flat s.gs;
  es = flat s.es;
  ss = code32 (flat s.ss);
  cr0 = bit_or s.cr0 1;
}

unfoldable pub entry_regs : Regs → Regs
entry_regs r = record r { rflags = 2; rip = 0x100000; rsi = 0x10000 }

abbrev pub kvm_cpuid_signature : ℕ
kvm_cpuid_signature = 0x40000000

abbrev pub kvm_cpuid_features : ℕ
kvm_cpuid_features = 0x40000001

-- the body of the loop
unfoldable pub sign : CpuidEntry → CpuidEntry
sign e =
    if e.function == kvm_cpuid_signature
    then record e { eax = kvm_cpuid_features; ebx = 0x4b4d564b; ecx = 0x564b4d56; edx = 0x4d }
    else e

unfoldable pub sign_all : List CpuidEntry → List CpuidEntry
unfolding sign
sign_all [] = []
sign_all (e ∷ entries) = sign e ∷ sign_all entries

abbrev pub msr_ia32_misc_enable : ℕ
msr_ia32_misc_enable = 0x1a0

abbrev pub fast_string : ℕ
fast_string = 2 ^ 0

module _ {W : Type 0} (kvm : Kvm W) where
  unfoldable pub vm_init_regs : Eff W Unit
  unfolding protected_mode entry_regs
  vm_init_regs = do
    sregs ← kvm.get_sregs
    kvm.set_sregs (protected_mode sregs)
    regs ← kvm.get_regs
    kvm.set_regs (entry_regs regs)

  unfoldable pub vm_init_cpu_id : W → W
  unfolding sign_all
  vm_init_cpu_id w =
      let (w', entries) = kvm.get_supported_cpuid w in kvm.set_cpuid (sign_all entries) w'

  unfoldable pub vm_init_msrs : W → W
  vm_init_msrs = kvm.set_msrs (record { index = msr_ia32_misc_enable; value = fast_string } ∷ [])

  unfoldable pub vm_arch_init : Eff W Unit
  vm_arch_init = do
    kvm.set_tss_addr 0xffffd000
    kvm.set_identity_map_addr 0xffffc000
    kvm.create_pic
    kvm.create_pit

  unfoldable pub vm_arch_cpu_init : Eff W Unit
  unfolding vm_init_regs vm_init_cpu_id vm_init_msrs
  vm_arch_cpu_init = do ignore vm_init_regs; modify vm_init_cpu_id; modify vm_init_msrs

  unfoldable pub vm_irq_line : ℕ → ℕ → Eff W Unit
  vm_irq_line irq level = kvm.irq_line irq level
