-- ===== src/Arm64/Fdt.antt =====
-- The device tree that src/arch/arm64/vm.c writes with libfdt: `generate_fdt`, a node at a time.
-- `__FDT` stops at the first call that fails. Constants with `cpu_to_fdt*` are big-endian bytes.
use Prim.Native.String.{String}
use kvm_host.Common.{
  ℕ, zero, suc, ◌+◌, ◌-◌, ◌/◌, ◌%◌, ◌^◌, bit_and, Bool, List, [], ◌∷◌, ◌++◌, ltb, if◌then◌else◌,
}
use kvm_host.Common.Effects.{Eff, pure, ◌>>=◌, ◌>>◌}
use kvm_host.Vm.{ram_size}
use kvm_host.Vm.Platform.{com1_port_base, com1_port_size}
use kvm_host.Arm64.{
  FdtCall, Kvm, Machine, call, ram_base, fdt_max_size, initrd_base, gic_dist_base, gic_dist_size,
  gic_redist_base, gic_redist_size, pci_cfg_base, pci_cfg_size, pci_mmio_base, pci_mmio_size,
  ioport_base,
}
use kvm_host.Arm64.FdtCall.{
  create, finish_reservemap, begin_node, property, property_cell, property_u64, property_string,
  end_node, finish,
}

-- the `n` bytes of a number, the highest first
abbrev pub be_bytes : ℕ → ℕ → List ℕ
be_bytes zero v = []
be_bytes (suc n) v = be_bytes n (v / 256) ++ ((v % 256) ∷ [])

-- `cpu_to_fdt32` and `cpu_to_fdt64` of several numbers
abbrev pub fdt32 : List ℕ → List ℕ
fdt32 [] = []
fdt32 (v ∷ vs) = be_bytes 4 v ++ fdt32 vs

abbrev pub fdt64 : List ℕ → List ℕ
fdt64 [] = []
fdt64 (v ∷ vs) = be_bytes 8 v ++ fdt64 vs

abbrev pub phandle_gic : ℕ
phandle_gic = 1

abbrev pub kernel_opts : String
kernel_opts = "console=ttyS0"

-- `pci_ranges` and `pci_irq_map`, whose entries are packed. `blk_base` is the `base` of the
-- configuration device of the block device, whose enable bit is cleared.
abbrev pub pci_ranges : List ℕ
pci_ranges = fdt32 (0x02000000 ∷ []) ++ fdt64 (pci_mmio_base ∷ pci_mmio_base ∷ pci_mmio_size ∷ [])

abbrev pub pci_irq_map : ℕ → List ℕ
pci_irq_map blk_base =
    fdt32 (bit_and blk_base (2 ^ 64 - 1 - 2 ^ 31) ∷ [])
    ++ (fdt64 (0 ∷ []) ++ fdt32 (1 ∷ phandle_gic ∷ 0 ∷ 1 ∷ 1 ∷ []))

abbrev pub mpidr_bitmask : ℕ
mpidr_bitmask = 0xff00ffffff

abbrev pub gic_name : Bool → String
gic_name v3 = if v3 then "arm,gic-v3" else "arm,cortex-a15-gic"

module _ {K : Type 0} (kvm : Kvm K) where
  -- `__FDT(action, ...)`
  abbrev pub fdt : FdtCall → Eff (Machine K) Unit
  fdt c = call (kvm.fdt c)

  unfoldable pub get_mpidr : Eff (Machine K) ℕ
  get_mpidr = do mpidr ← call kvm.get_mpidr_el1; pure (bit_and mpidr mpidr_bitmask)

  -- the empty tree, and the properties of /
  unfoldable pub root : Eff (Machine K) Unit
  root = do
    fdt (create fdt_max_size)
    fdt finish_reservemap
    fdt (begin_node "")
    fdt (property_cell "#address-cells" 2)
    fdt (property_cell "#size-cells" 2)
    fdt (property_cell "interrupt-parent" phandle_gic)
    fdt (property_string "compatible" "linux,dummy-virt")
    pure tt

  -- the two properties of an initial RAM disk of `size` bytes
  unfoldable pub initrd_range : ℕ → Eff (Machine K) Unit
  initrd_range size =
      if ltb 0 size
      then (do
        fdt (property_u64 "linux,initrd-start" initrd_base)
        fdt (property_u64 "linux,initrd-end" ((initrd_base + size) % 2 ^ 64))
        pure tt)
      else pure tt

  unfoldable pub chosen : Eff (Machine K) Unit
  unfolding initrd_range
  chosen = do
    fdt (begin_node "chosen")
    fdt (property_string "bootargs" kernel_opts)
    fdt (property_string "stdout-path" "/uart")
    (λ m. initrd_range m.initrdsz m)
    fdt end_node
    pure tt

  unfoldable pub memory : Eff (Machine K) Unit
  memory = do
    fdt (begin_node "memory")
    fdt (property_string "device_type" "memory")
    fdt (property "reg" (fdt64 (ram_base ∷ ram_size ∷ [])))
    fdt end_node
    pure tt

  -- /cpus up to the read of MPIDR
  unfoldable pub cpus : Eff (Machine K) Unit
  cpus = do
    fdt (begin_node "cpus")
    fdt (property_cell "#address-cells" 1)
    fdt (property_cell "#size-cells" 0)
    fdt (begin_node "cpu")
    pure tt

  -- the rest of /cpus/cpu and /cpus
  unfoldable pub cpu : ℕ → Eff (Machine K) Unit
  cpu mpidr = do
    fdt (property_cell "reg" (mpidr % 2 ^ 32))
    fdt (property_string "device_type" "cpu")
    fdt (property_string "compatible" "arm,arm-v8")
    fdt end_node
    fdt end_node
    pure tt

  unfoldable pub timer : Eff (Machine K) Unit
  timer = do
    fdt (begin_node "timer")
    fdt (property_string "compatible" "arm,armv8-timer")
    fdt (
        property "interrupts"
          (fdt32 (1 ∷ 13 ∷ 0xf08 ∷ 1 ∷ 14 ∷ 0xf08 ∷ 1 ∷ 11 ∷ 0xf08 ∷ 1 ∷ 10 ∷ 0xf08 ∷ [])))
    fdt (property "always-on" [])
    fdt end_node
    pure tt

  -- /intr behind its first property
  unfoldable pub gic_rest : Eff (Machine K) Unit
  gic_rest = do
    fdt (property_cell "#interrupt-cells" 3)
    fdt (property "interrupt-controller" [])
    fdt (
        property "reg"
          (fdt64 (gic_dist_base ∷ gic_dist_size ∷ gic_redist_base ∷ gic_redist_size ∷ [])))
    fdt (property_cell "phandle" phandle_gic)
    fdt end_node
    pure tt

  unfoldable pub intr : Eff (Machine K) Unit
  unfolding gic_rest
  intr = do
    fdt (begin_node "intr")
    (λ m. fdt (property_string "compatible" (gic_name m.is_gic_v3)) m)
    gic_rest

  unfoldable pub uart : Eff (Machine K) Unit
  uart = do
    fdt (begin_node "uart")
    fdt (property_string "compatible" "ns16550a")
    fdt (property_cell "clock-frequency" 1843200)
    fdt (property "reg" (fdt64 ((ioport_base + com1_port_base) ∷ com1_port_size ∷ [])))
    fdt (property "interrupts" (fdt32 (0 ∷ 0 ∷ 4 ∷ [])))
    fdt end_node
    pure tt

  unfoldable pub pci : ℕ → Eff (Machine K) Unit
  pci blk_base = do
    fdt (begin_node "pci")
    fdt (property_string "device_type" "pci")
    fdt (property_cell "#address-cells" 3)
    fdt (property_cell "#size-cells" 2)
    fdt (property_cell "#interrupt-cells" 1)
    fdt (property_string "compatible" "pci-host-cam-generic")
    fdt (property "dma-coherent" [])
    fdt (property "bus-range" (fdt32 (0 ∷ 0 ∷ [])))
    fdt (property "reg" (fdt64 (pci_cfg_base ∷ pci_cfg_size ∷ [])))
    fdt (property "ranges" pci_ranges)
    fdt (property "interrupt-map" (pci_irq_map blk_base))
    fdt end_node
    pure tt

  unfoldable pub generate_fdt : ℕ → Eff (Machine K) Unit
  unfolding get_mpidr root chosen memory cpus cpu timer intr uart pci
  generate_fdt blk_base = do
    root
    chosen
    memory
    cpus
    mpidr ← get_mpidr
    cpu mpidr
    timer
    intr
    uart
    pci blk_base
    fdt end_node
    fdt finish
    pure tt
