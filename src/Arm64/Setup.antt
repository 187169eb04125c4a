-- ===== src/Arm64/Setup.antt =====
-- How src/arch/arm64/vm.c creates the interrupt controller and the vCPU, and sets up the platform.
use kvm_host.Common.{
  ℕ, Bool, true, false, Option, some, none, ◌^◌, ◌+◌, ◌*◌, bit_and, bit_or, if◌then◌else◌,
}
use kvm_host.Common.Effects.{Eff, continue, ◌>>=◌, ◌>>◌, modify}
use kvm_host.Arm64.{Attr, Kvm, Machine, call, gic_dist_base, gic_redist_base}

module _ {K : Type 0} (kvm : Kvm K) where
  -- the device that `KVM_CREATE_DEVICE` makes: a GICv3, or else a GICv2
  unfoldable pub create_gic : Eff (Machine K) ℕ
  create_gic m = second_try (call (kvm.create_device true) m)
    where
      second_try : Machine K × Option ℕ → Machine K × Option ℕ
      second_try (m', some fd) = (record m' { is_gic_v3 = true }, some fd)
      second_try (m', none) =
          continue (λ fd m''. (record m'' { is_gic_v3 = false }, some fd))
            (call (kvm.create_device false) (record m' { is_gic_v3 = true }))

  -- the two attributes of `dist_attr` and `redist_cpui_attr`
  abbrev pub dist_attr : Bool → Attr
  dist_attr v3 = if v3 then Attr.v3_dist gic_dist_base else Attr.v2_dist gic_dist_base

  abbrev pub redist_cpui_attr : Bool → Attr
  redist_cpui_attr v3 = if v3 then Attr.v3_redist gic_redist_base else Attr.v2_cpu gic_redist_base

  unfoldable pub create_irqchip : Eff (Machine K) Unit
  unfolding create_gic
  create_irqchip = do
    fd ← create_gic
    modify (λ m. record m { gic_fd = fd })
    (λ m. call (kvm.set_device_attr m.gic_fd (dist_attr m.is_gic_v3)) m)
    (λ m. call (kvm.set_device_attr m.gic_fd (redist_cpui_attr m.is_gic_v3)) m)

  unfoldable pub vm_arch_init : Eff (Machine K) Unit
  unfolding create_irqchip
  vm_arch_init = create_irqchip

  unfoldable pub vm_arch_cpu_init : Eff (Machine K) Unit
  vm_arch_cpu_init = do target ← call kvm.preferred_target; call (kvm.vcpu_init target)

  unfoldable pub finalize_irqchip : Eff (Machine K) Unit
  finalize_irqchip m = call (kvm.set_device_attr m.gic_fd Attr.ctrl_init) m

  -- the `int` that KVM_IRQ_LINE takes: type 1 (SPI) at bit 24, and the number
  abbrev pub irq_number : ℕ → ℕ
  irq_number irq = bit_or (1 * 2 ^ 24) (bit_and (irq + 32) 0xffff)

  unfoldable pub vm_irq_line : ℕ → ℕ → Eff (Machine K) Unit
  vm_irq_line irq level = call (kvm.irq_line (irq_number irq) level)
