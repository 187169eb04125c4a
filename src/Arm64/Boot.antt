-- ===== src/Arm64/Boot.antt =====
-- How src/arch/arm64/vm.c sets the registers of the vCPU, and what it does before the vCPU runs.
use kvm_host.Common.{ℕ, zero, suc, ◌+◌}
use kvm_host.Common.Effects.{Eff, pure, ◌>>◌}
use kvm_host.Arm64.{Kvm, Machine, Reg, call, fdt_base}
use kvm_host.Arm64.Fdt.{generate_fdt}

module _ {K : Type 0} (kvm : Kvm K) where
  -- the loop: `n` rounds are left, and the next one is `i`
  unfoldable pub clear_regs : ℕ → ℕ → Eff (Machine K) Unit
  clear_regs zero i = pure tt
  clear_regs (suc n) i = do call (kvm.set_one_reg (Reg.x i) 0); clear_regs n (i + 1)

  unfoldable pub init_reg : Eff (Machine K) Unit
  unfolding clear_regs
  init_reg = do
    clear_regs 3 0
    call (kvm.set_one_reg (Reg.x 0) fdt_base)
    (λ m. call (kvm.set_one_reg Reg.pc m.entry) m)

  unfoldable pub vm_late_init : ℕ → Eff (Machine K) Unit
  unfolding generate_fdt init_reg
  vm_late_init blk_base = do generate_fdt kvm blk_base; init_reg
