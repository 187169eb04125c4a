-- ===== src/Arm64/Generated.antt =====
-- `generate_fdt` of src/arch/arm64/vm.c makes the calls that write the tree of Arm64/Tree, in order.
use kvm_host.Common.{ℕ, bit_and, ◌≡◌, refl, List, [], ◌∷◌, ◌++◌, ltb, Bool-cases, inl, inr}
use kvm_host.Common.Effects.{result_cases, Eff, pure, ◌>>=◌, ◌>>◌, continue}
use kvm_host.Arm64.{FdtCall, Kvm, Machine, put_world}
use kvm_host.Arm64.FdtCall.{end_node, finish}
use kvm_host.Arm64.Fdt.{
  fdt, get_mpidr, generate_fdt, root, chosen, memory, cpus, cpu, timer, intr, uart, pci,
  mpidr_bitmask,
}
use kvm_host.Arm64.Tree.{
  tree, serialize, write_node, write_children, chosen_node, memory_node, timer_node, intr_node,
  uart_node, pci_node, root_calls, cpus_calls, cpu_calls,
}
use kvm_host.Arm64.Written

module _ {K : Type 0} (kvm : Kvm K) (m : Machine K) where
  -- the calls before and behind the read of MPIDR
  abbrev pub before : List FdtCall
  before =
      root_calls ++ (write_node (chosen_node m.initrdsz) ++ (write_node memory_node ++ cpus_calls))

  abbrev pub after : ℕ → ℕ → List FdtCall
  after blk_base mpidr =
      cpu_calls mpidr
      ++ (write_node timer_node
          ++ (write_node (intr_node m.is_gic_v3)
              ++ (write_node uart_node
                  ++ (write_node (pci_node blk_base) ++ (end_node ∷ finish ∷ [])))))

  -- what follows the read of MPIDR
  abbrev pub with_mpidr : (ℕ → Eff (Machine K) Unit) → Eff (Machine K) Unit
  with_mpidr f = get_mpidr kvm >>= f

  module _ (blk_base : ℕ) where
    abbrev ending : Eff (Machine K) Unit
    ending = fdt kvm end_node >> (fdt kvm finish >> pure tt)

    abbrev from_pci : Eff (Machine K) Unit
    from_pci = pci kvm blk_base >> ending

    abbrev from_intr : Eff (Machine K) Unit
    from_intr = intr kvm >> (uart kvm >> from_pci)

    abbrev from_cpu : ℕ → Eff (Machine K) Unit
    from_cpu mpidr = cpu kvm mpidr >> (timer kvm >> from_intr)

    abbrev last_calls : List FdtCall
    last_calls = end_node ∷ finish ∷ []

    Plays-from_pci : Written.Plays kvm m from_pci (write_node (pci_node blk_base) ++ last_calls)
    unfolding Written.play
    Plays-from_pci =
        Written.Plays-seq kvm m (pci kvm blk_base) ending (write_node (pci_node blk_base))
          last_calls (Written.Plays-pci kvm m blk_base) (λ k. refl)

    Plays-from_cpu : (mpidr : ℕ) → Written.Plays kvm m (from_cpu mpidr) (after blk_base mpidr)
    Plays-from_cpu mpidr =
        let e = write_node (pci_node blk_base) ++ last_calls in
        let d = write_node uart_node ++ e in
        let c = write_node (intr_node m.is_gic_v3) ++ d in
        let b = write_node timer_node ++ c in
        Written.Plays-seq kvm m (cpu kvm mpidr) (timer kvm >> from_intr) (cpu_calls mpidr) b
          (Written.Plays-cpu kvm m mpidr)
          (Written.Plays-seq kvm m (timer kvm) from_intr (write_node timer_node) c
            (Written.Plays-timer kvm m)
            (Written.Plays-seq kvm m (intr kvm) (uart kvm >> from_pci)
              (write_node (intr_node m.is_gic_v3)) d (Written.Plays-intr kvm m)
              (Written.Plays-seq kvm m (uart kvm) from_pci (write_node uart_node) e
                (Written.Plays-uart kvm m) Plays-from_pci)))

    mpidr_ext :
        (f g : ℕ → Eff (Machine K) Unit)
        → ((p : ℕ) (k : K) → f p (Written.at kvm m k) ≡ g p (Written.at kvm m k))
        → (k : K) → with_mpidr f (Written.at kvm m k) ≡ with_mpidr g (Written.at kvm m k)
    unfolding get_mpidr
    mpidr_ext f g same k =
        (result_cases)
          (λ r.
            continue f (continue (λ p. pure (bit_and p mpidr_bitmask)) (put_world m r))
            ≡ continue g (continue (λ p. pure (bit_and p mpidr_bitmask)) (put_world m r)))
          (λ k'. refl) (λ k' p. same (bit_and p mpidr_bitmask) k') (kvm.get_mpidr_el1 k)

    abbrev reading : Eff (Machine K) Unit
    reading = with_mpidr (λ p. Written.play kvm m (after blk_base p))

    -- `generate_fdt` plays the serialized tree: it makes the calls that write the tree describing the
    -- machine, one behind the other up to the first that fails, and reads MPIDR just before the
    -- first call that needs it.
    pub generate_fdt-tree :
        ((mpidr : ℕ)
          → before ++ after blk_base mpidr ≡ serialize (tree m.initrdsz m.is_gic_v3 mpidr blk_base))
        × (generate_fdt kvm blk_base m
            ≡ (Written.play kvm m before >> with_mpidr (λ p. Written.play kvm m (after blk_base p)))
                m)
    unfolding generate_fdt write_node write_children root Written.play
    generate_fdt-tree = (
      λ mpidr. elim (Bool-cases (ltb 0 m.initrdsz)) [ inl e ↦ rw e refl | inr e ↦ rw e refl ],
      Written.Plays-Ends kvm m (root kvm)
          (chosen kvm >> (memory kvm >> (cpus kvm >> with_mpidr from_cpu))) reading root_calls
          (write_node (chosen_node m.initrdsz) ++ (write_node memory_node ++ cpus_calls))
          (Written.Plays-root kvm m)
          (Written.Plays-Ends kvm m (chosen kvm) (memory kvm >> (cpus kvm >> with_mpidr from_cpu))
            reading (write_node (chosen_node m.initrdsz)) (write_node memory_node ++ cpus_calls)
            (Written.Plays-chosen kvm m)
            (Written.Plays-Ends kvm m (memory kvm) (cpus kvm >> with_mpidr from_cpu) reading
              (write_node memory_node) cpus_calls (Written.Plays-memory kvm m)
              (Written.Plays-Ends kvm m (cpus kvm) (with_mpidr from_cpu) reading cpus_calls []
                (Written.Plays-cpus kvm m)
                (mpidr_ext from_cpu (λ p. Written.play kvm m (after blk_base p)) Plays-from_cpu))))
          m.world,
    )
