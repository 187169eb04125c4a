-- ===== src/Arm64/Registers.antt =====
-- What `init_reg` of src/arch/arm64/vm.c leaves in the registers of the vCPU. Linux is to find the
-- address of the device tree in x0, zeros in x1 to x3, and to start at its entry.
use kvm_host.Common.{
  ℕ, zero, suc, ◌+◌, ◌≡◌, refl, sym, ap, ◌∙◌, ◌≤◌, arith, Bool, true, false, Option, some, none,
  List, [], ◌∷◌, ◌==◌, if◌then◌else◌,
}
use kvm_host.Common.Effects.{Eff, pure, continue, continue-pure, continue-continue, ◌>>◌}
use kvm_host.Arm64.{Kvm, Machine, Reg, call, put_world, fdt_base}
use kvm_host.Arm64.Reg.{x, pc}
use kvm_host.Arm64.Boot.{clear_regs, init_reg}

abbrev pub same_reg : Reg → Reg → Bool
same_reg (x i) (x j) = i == j
same_reg (x i) pc = false
same_reg pc (x j) = false
same_reg pc pc = true

-- KVM_SET_ONE_REG, when it succeeds, sets the one register; `regs` reads the registers of the vCPU
unfoldable pub IsRegisterFile : {K : Type 0} → Kvm K → (K → Reg → ℕ) → Type 0
IsRegisterFile {K} kvm regs =
    (r s : Reg) (v : ℕ) (k k' : K) (u : Unit)
    → kvm.set_one_reg r v k ≡ (k', some u)
    → regs k' s ≡ (if same_reg r s then v else regs k s)

-- a register that held `old`, after writes one behind the other
abbrev pub written : List (Reg × ℕ) → Reg → ℕ → ℕ
written [] s old = old
written ((r, v) ∷ ws) s old = written ws s (if same_reg r s then v else old)

module _ {K : Type 0} (kvm : Kvm K) (regs : K → Reg → ℕ) (law : IsRegisterFile kvm regs) where
  sets : List (Reg × ℕ) → Eff (Machine K) Unit
  sets [] = pure tt
  sets ((r, v) ∷ ws) = call (kvm.set_one_reg r v) >> sets ws

  -- a run that succeeds has made all the writes
  AllSet : List (Reg × ℕ) → Type 0
  AllSet ws =
      (m m' : Machine K) (u : Unit) (s : Reg)
      → sets ws m ≡ (m', some u)
      → regs m'.world s ≡ written ws s (regs m.world s)

  after_write :
      (r : Reg) (v : ℕ) (ws : List (Reg × ℕ)) (m m' : Machine K) (u : Unit) (s : Reg)
      → AllSet ws
      → (q : K × Option {0} Unit) → kvm.set_one_reg r v m.world ≡ q
      → continue (λ _. sets ws) (put_world m q) ≡ (m', some u)
      → regs m'.world s ≡ written ws s (if same_reg r s then v else regs m.world s)
  unfolding AllSet IsRegisterFile
  after_write r v ws m m' u s rest (k, none) set e = cc (e)
  after_write r v ws m m' u s rest (k, some u') set e =
      rest (record m { world = k }) m' u s e ∙ ap (written ws s) (law r s v m.world k u' set)

  sets-AllSet : (ws : List (Reg × ℕ)) → AllSet ws
  unfolding AllSet sets
  sets-AllSet [] m m' u s e = sym (ap (λ (q : Machine K × Option {0} Unit). regs q.0.world s) e)
  sets-AllSet ((r, v) ∷ ws) m m' u s e =
      after_write r v ws m m' u s (sets-AllSet ws) (kvm.set_one_reg r v m.world) refl e

  -- the writes of `init_reg`
  abbrev pub boot_writes : ℕ → List (Reg × ℕ)
  boot_writes entry = (x 0, 0) ∷ (x 1, 0) ∷ (x 2, 0) ∷ (x 0, fdt_base) ∷ (pc, entry) ∷ []

  module _ (m : Machine K) where
    abbrev at : K → Machine K
    at k = record m { world = k }

    -- one write in front of two continuations that agree
    step :
        (A B : Eff (Machine K) Unit) (q : K × Option {0} Unit)
        → ((k : K) → A (at k) ≡ B (at k))
        → continue (λ _. A) (put_world m q) ≡ continue (λ _. B) (put_world m q)
    step A B (k, none) same = refl
    step A B (k, some u) same = same k

    zeros : ℕ → ℕ → List (Reg × ℕ) → List (Reg × ℕ)
    zeros zero i ws = ws
    zeros (suc n) i ws = (x i, 0) ∷ zeros n (i + 1) ws

    clear_then :
        (n i : ℕ) (R : Eff (Machine K) Unit) (ws : List (Reg × ℕ))
        → ((k : K) → R (at k) ≡ sets ws (at k))
        → (k : K) → (clear_regs kvm n i >> R) (at k) ≡ sets (zeros n i ws) (at k)
    unfolding clear_regs zeros sets
    clear_then zero i R ws same k = same k
    clear_then (suc n) i R ws same k =
        continue-continue (λ _. clear_regs kvm n (i + 1)) (λ _. R)
          (put_world m (kvm.set_one_reg (x i) 0 k))
        ∙ step (clear_regs kvm n (i + 1) >> R) (sets (zeros n (i + 1) ws))
            (kvm.set_one_reg (x i) 0 k) (clear_then n (i + 1) R ws same)

    init_reg-sets : init_reg kvm m ≡ sets (boot_writes m.entry) m
    unfolding init_reg sets zeros
    init_reg-sets =
        let set_pc : Eff (Machine K) Unit = λ m'. call (kvm.set_one_reg pc m'.entry) m' in
        let last : List (Reg × ℕ) = (pc, m.entry) ∷ [] in
        clear_then 3 0 (call (kvm.set_one_reg (x 0) fdt_base) >> set_pc) ((x 0, fdt_base) ∷ last)
          (λ k.
            step set_pc (sets last) (kvm.set_one_reg (x 0) fdt_base k)
              (λ k'. sym (continue-pure (put_world m (kvm.set_one_reg pc m.entry k')))))
          m.world

  -- When `init_reg` succeeds, x0 holds the address of the device tree, pc the entry point, and x1 and
  -- x2 hold 0. Every other register, x3 among them, is as it was.
  pub init_reg-regs :
      (m m' : Machine K) (u : Unit)
      → init_reg kvm m ≡ (m', some u)
      → (regs m'.world (x 0) ≡ fdt_base)
        × (regs m'.world pc ≡ m.entry)
        × (regs m'.world (x 1) ≡ 0)
        × (regs m'.world (x 2) ≡ 0)
        × ((i : ℕ) → 3 ≤ i → regs m'.world (x i) ≡ regs m.world (x i))
  unfolding AllSet
  init_reg-regs m m' u e =
      let set : (s : Reg) → regs m'.world s ≡ written (boot_writes m.entry) s (regs m.world s) =
        λ s. sets-AllSet (boot_writes m.entry) m m' u s (sym (init_reg-sets m) ∙ e) in
      (set (x 0), set pc, set (x 1), set (x 2), λ i far. set (x i) ∙ ground arith)
