-- ===== src/Arm64/Tree.antt =====
-- The device tree of src/arch/arm64/vm.c as a tree, and `generate_fdt` against it.
use Prim.Native.String.{String}
use kvm_host.Common.{ℕ, ◌+◌, ◌%◌, ◌^◌, Bool, List, [], ◌∷◌, ◌++◌, ltb, if◌then◌else◌}
use kvm_host.Vm.{ram_size}
use kvm_host.Vm.Platform.{com1_port_base, com1_port_size}
use kvm_host.Arm64.{
  FdtCall, ram_base, fdt_max_size, initrd_base, gic_dist_base, gic_dist_size, gic_redist_base,
  gic_redist_size, pci_cfg_base, pci_cfg_size, ioport_base,
}
use kvm_host.Arm64.FdtCall.{
  create, finish_reservemap, begin_node, property, property_cell, property_u64, property_string,
  end_node, finish,
}
use kvm_host.Arm64.Fdt.{fdt32, fdt64, phandle_gic, kernel_opts, pci_ranges, pci_irq_map, gic_name}

-- a property is the call that writes it
mutual
  pub data Node : Type 0 where
    node : String → List FdtCall → Children → Node

  pub data Children : Type 0 where
    leaf : Children
    child : Node → Children → Children

-- the calls that write a node, and those that write nodes one behind the other
unfoldable mutual
  pub write_node : Node → List FdtCall
  write_node (node name properties children) =
      begin_node name ∷ (properties ++ write_children children)

  pub write_children : Children → List FdtCall
  write_children leaf = end_node ∷ []
  write_children (child n rest) = write_node n ++ write_children rest

abbrev pub leaf_node : String → List FdtCall → Node
leaf_node name properties = node name properties leaf

abbrev pub initrd_properties : ℕ → List FdtCall
initrd_properties size =
    if ltb 0 size
    then (property_u64 "linux,initrd-start" initrd_base
        ∷ property_u64 "linux,initrd-end" ((initrd_base + size) % 2 ^ 64)
        ∷ [])
    else []

abbrev pub chosen_node : ℕ → Node
chosen_node size = leaf_node "chosen" (
    property_string "bootargs" kernel_opts
    ∷ property_string "stdout-path" "/uart"
    ∷ initrd_properties size)

abbrev pub memory_node : Node
memory_node = leaf_node "memory" (
    property_string "device_type" "memory" ∷ property "reg" (fdt64 (ram_base ∷ ram_size ∷ [])) ∷ [])

abbrev pub cpus_node : ℕ → Node
cpus_node mpidr =
    node "cpus" (property_cell "#address-cells" 1 ∷ property_cell "#size-cells" 0 ∷ []) (
      child
        (leaf_node "cpu" (
          property_cell "reg" (mpidr % 2 ^ 32)
          ∷ property_string "device_type" "cpu"
          ∷ property_string "compatible" "arm,arm-v8"
          ∷ []))
        leaf)

abbrev pub timer_node : Node
timer_node = leaf_node "timer" (
    property_string "compatible" "arm,armv8-timer"
    ∷ property "interrupts"
        (fdt32 (1 ∷ 13 ∷ 0xf08 ∷ 1 ∷ 14 ∷ 0xf08 ∷ 1 ∷ 11 ∷ 0xf08 ∷ 1 ∷ 10 ∷ 0xf08 ∷ []))
    ∷ property "always-on" []
    ∷ [])

abbrev pub intr_properties : Bool → List FdtCall
intr_properties v3 =
    property_string "compatible" (gic_name v3)
    ∷ property_cell "#interrupt-cells" 3
    ∷ property "interrupt-controller" []
    ∷ property "reg"
        (fdt64 (gic_dist_base ∷ gic_dist_size ∷ gic_redist_base ∷ gic_redist_size ∷ []))
    ∷ property_cell "phandle" phandle_gic
    ∷ []

abbrev pub intr_node : Bool → Node
intr_node v3 = leaf_node "intr" (intr_properties v3)

abbrev pub uart_node : Node
uart_node = leaf_node "uart" (
    property_string "compatible" "ns16550a"
    ∷ property_cell "clock-frequency" 1843200
    ∷ property "reg" (fdt64 ((ioport_base + com1_port_base) ∷ com1_port_size ∷ []))
    ∷ property "interrupts" (fdt32 (0 ∷ 0 ∷ 4 ∷ []))
    ∷ [])

abbrev pub pci_node : ℕ → Node
pci_node blk_base = leaf_node "pci" (
    property_string "device_type" "pci"
    ∷ property_cell "#address-cells" 3
    ∷ property_cell "#size-cells" 2
    ∷ property_cell "#interrupt-cells" 1
    ∷ property_string "compatible" "pci-host-cam-generic"
    ∷ property "dma-coherent" []
    ∷ property "bus-range" (fdt32 (0 ∷ 0 ∷ []))
    ∷ property "reg" (fdt64 (pci_cfg_base ∷ pci_cfg_size ∷ []))
    ∷ property "ranges" pci_ranges
    ∷ property "interrupt-map" (pci_irq_map blk_base)
    ∷ [])

abbrev pub root_properties : List FdtCall
root_properties =
    property_cell "#address-cells" 2
    ∷ property_cell "#size-cells" 2
    ∷ property_cell "interrupt-parent" phandle_gic
    ∷ property_string "compatible" "linux,dummy-virt"
    ∷ []

-- the machine as the guest's kernel is to see it
abbrev pub tree : ℕ → Bool → ℕ → ℕ → Node
tree initrdsz v3 mpidr blk_base = node "" root_properties (
    child (chosen_node initrdsz) (
      child memory_node (
        child (cpus_node mpidr) (
          child timer_node
            (child (intr_node v3) (child uart_node (child (pci_node blk_base) leaf)))))))

-- libfdt's protocol: the reservations first, one root, and the end
abbrev pub serialize : Node → List FdtCall
serialize n = create fdt_max_size ∷ finish_reservemap ∷ (write_node n ++ (finish ∷ []))

-- the first calls: those before the first child of /
abbrev pub root_calls : List FdtCall
root_calls = create fdt_max_size ∷ finish_reservemap ∷ begin_node "" ∷ root_properties

abbrev pub cpus_calls : List FdtCall
cpus_calls =
    begin_node "cpus"
    ∷ property_cell "#address-cells" 1
    ∷ property_cell "#size-cells" 0
    ∷ begin_node "cpu"
    ∷ []

abbrev pub cpu_calls : ℕ → List FdtCall
cpu_calls mpidr =
    property_cell "reg" (mpidr % 2 ^ 32)
    ∷ property_string "device_type" "cpu"
    ∷ property_string "compatible" "arm,arm-v8"
    ∷ end_node
    ∷ end_node
    ∷ []
