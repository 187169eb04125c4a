-- ===== src/Arm64/Written.antt =====
-- The parts of `generate_fdt` of src/arch/arm64/vm.c against lists of calls.
use kvm_host.Common.{ℕ, ◌≡◌, refl, sym, ◌∙◌, ap, List, [], ◌∷◌, ◌++◌, ltb, Bool-cases, inl, inr}
use kvm_host.Common.Effects.{result_cases, Eff, pure, continue-pure, ◌>>◌, continue}
use kvm_host.Arm64.{FdtCall, Kvm, Machine, put_world}
use kvm_host.Arm64.FdtCall.{begin_node, end_node, property_string}
use kvm_host.Arm64.Fdt.{
  kernel_opts, gic_name, gic_rest, fdt, root, chosen, memory, cpus, cpu, timer, intr, uart, pci,
  initrd_range,
}
use kvm_host.Arm64.Tree.{
  write_node, write_children, chosen_node, intr_properties, memory_node, timer_node, intr_node,
  uart_node, pci_node, initrd_properties, root_calls, cpus_calls, cpu_calls,
}

module _ {K : Type 0} (kvm : Kvm K) (m : Machine K) where
  abbrev pub at : K → Machine K
  at k = record m { world = k }

  -- the calls one behind the other, up to the first that fails
  unfoldable pub play : List FdtCall → Eff (Machine K) Unit
  play [] = pure tt
  play (c ∷ cs) = fdt kvm c >> play cs

  -- from any state of the world, `A` does what the calls do
  abbrev pub Plays : Eff (Machine K) Unit → List FdtCall → Type 0
  Plays A xs = (k : K) → A (at k) ≡ play xs (at k)

  pub Plays-call : (c : FdtCall) → Plays (fdt kvm c) (c ∷ [])
  unfolding play
  Plays-call c k =
      result_cases (λ r. put_world m r ≡ continue (λ _. pure tt) (put_world m r)) (λ k'. refl)
        (λ k' u. refl) (kvm.fdt c k)

  play_then :
      (A B : Eff (Machine K) Unit) (xs : List FdtCall)
      → ((k : K) → A (at k) ≡ B (at k))
      → (k : K) → (play xs >> A) (at k) ≡ (play xs >> B) (at k)
  unfolding play
  play_then A B [] same k = same k
  play_then A B (c ∷ xs) same k =
      result_cases
        (λ r.
          continue (λ _. A) (continue (λ _. play xs) (put_world m r))
          ≡ continue (λ _. B) (continue (λ _. play xs) (put_world m r)))
        (λ k'. refl) (λ k' u. play_then A B xs same k') (kvm.fdt c k)

  play-append :
      (A : Eff (Machine K) Unit) (xs ys : List FdtCall) (k : K)
      → (play (xs ++ ys) >> A) (at k) ≡ (play xs >> (play ys >> A)) (at k)
  unfolding play
  play-append A [] ys k = refl
  play-append A (c ∷ xs) ys k =
      result_cases
        (λ r.
          continue (λ _. A) (continue (λ _. play (xs ++ ys)) (put_world m r))
          ≡ continue (λ _. play ys >> A) (continue (λ _. play xs) (put_world m r)))
        (λ k'. refl) (λ k' u. play-append A xs ys k') (kvm.fdt c k)

  -- `A` does what the calls do and then what `G` does
  abbrev pub Ends : Eff (Machine K) Unit → List FdtCall → Eff (Machine K) Unit → Type 0
  Ends A xs G = (k : K) → A (at k) ≡ (play xs >> G) (at k)

  pub Plays-Ends :
      (A B G : Eff (Machine K) Unit) (xs ys : List FdtCall)
      → Plays A xs
      → Ends B ys G
      → Ends (A >> B) (xs ++ ys) G
  Plays-Ends A B G xs ys a b k =
      ap (continue (λ _. B)) (a k) ∙ play_then B (play ys >> G) xs b k ∙ sym (play-append G xs ys k)

  Ends-Plays : (A : Eff (Machine K) Unit) (xs : List FdtCall) → Ends A xs (pure tt) → Plays A xs
  Ends-Plays A xs e k = e k ∙ continue-pure (play xs (at k))

  pub Plays-seq :
      (A B : Eff (Machine K) Unit) (xs ys : List FdtCall)
      → Plays A xs
      → Plays B ys
      → Plays (A >> B) (xs ++ ys)
  Plays-seq A B xs ys a b =
      Ends-Plays (A >> B) (xs ++ ys)
        (Plays-Ends A B (pure tt) xs ys a (λ k. b k ∙ sym (continue-pure (play ys (at k)))))

  pub Plays-root : Plays (root kvm) root_calls
  unfolding root play
  Plays-root k = refl

  pub Plays-memory : Plays (memory kvm) (write_node memory_node)
  unfolding memory play write_node write_children
  Plays-memory k = refl

  pub Plays-timer : Plays (timer kvm) (write_node timer_node)
  unfolding timer play write_node write_children
  Plays-timer k = refl

  pub Plays-uart : Plays (uart kvm) (write_node uart_node)
  unfolding uart play write_node write_children
  Plays-uart k = refl

  pub Plays-pci : (blk_base : ℕ) → Plays (pci kvm blk_base) (write_node (pci_node blk_base))
  unfolding pci play write_node write_children
  Plays-pci blk_base k = refl

  pub Plays-initrd_range : (size : ℕ) → Plays (initrd_range kvm size) (initrd_properties size)
  unfolding initrd_range play
  Plays-initrd_range size k = elim (Bool-cases (ltb 0 size)) [
    | inl e ↦ rw e refl
    | inr e ↦ rw e refl
  ]

  pub Plays-cons :
      (c : FdtCall) (B : Eff (Machine K) Unit) (ys : List FdtCall)
      → Plays B ys
      → Plays (fdt kvm c >> B) (c ∷ ys)
  Plays-cons c B ys b = Plays-seq (fdt kvm c) B (c ∷ []) ys (Plays-call c) b

  pub Plays-chosen : Plays (chosen kvm) (write_node (chosen_node m.initrdsz))
  unfolding chosen play write_node write_children
  Plays-chosen =
      let range : Eff (Machine K) Unit = λ m'. initrd_range kvm m'.initrdsz m' in
      let last : Eff (Machine K) Unit = fdt kvm end_node >> pure tt in
      let a = begin_node "chosen" in
      let b = property_string "bootargs" kernel_opts in
      let c = property_string "stdout-path" "/uart" in
      let rest = initrd_properties m.initrdsz ++ (end_node ∷ []) in
      let body : Plays (range >> last) rest =
        Plays-seq range last (initrd_properties m.initrdsz) (end_node ∷ [])
          (Plays-initrd_range m.initrdsz) (λ k. refl) in
      Plays-cons a (fdt kvm b >> (fdt kvm c >> (range >> last))) (b ∷ c ∷ rest) (
        Plays-cons b (fdt kvm c >> (range >> last)) (c ∷ rest)
          (Plays-cons c (range >> last) rest body))

  pub Plays-intr : Plays (intr kvm) (write_node (intr_node m.is_gic_v3))
  unfolding intr play write_node write_children
  Plays-intr =
      let compatible : Eff (Machine K) Unit =
        λ m'. fdt kvm (property_string "compatible" (gic_name m'.is_gic_v3)) m' in
      let calls = intr_properties m.is_gic_v3 ++ (end_node ∷ []) in
      Plays-cons (begin_node "intr") (compatible >> gic_rest kvm) calls (λ k. refl)

  pub Plays-cpus : Plays (cpus kvm) cpus_calls
  unfolding cpus play
  Plays-cpus k = refl

  pub Plays-cpu : (mpidr : ℕ) → Plays (cpu kvm mpidr) (cpu_calls mpidr)
  unfolding cpu play
  Plays-cpu mpidr k = refl
