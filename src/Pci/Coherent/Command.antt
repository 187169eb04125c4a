-- ===== src/Pci/Coherent/Command.antt =====
-- A write of the command register switches the BARs of src/pci.c on and off: `pci_command_bar`.
use kvm_host.Common.{
  ℕ, zero, suc, ◌+◌, ◌<◌, ◌≤◌, ◌≡◌, refl, sym, ◌∙◌, ap, Bool, true, false, ◌&&◌, ◌==◌, truthy,
  get_or, set, some, arith, Bool-cases, inl, inr, if◌then◌else◌, bit_and, get_or-set_self,
  get_or-set_ne,
}
use mathlib.Core.Path.{subst}
use native.Mathlib.Decide.{dec_lt}
use kvm_host.Common.Bytes.{load_le}
use kvm_host.Bus.{Ptr, u64}
use kvm_host.Bus.Chain.{has, SameDevs, SameDevs-trans}
use kvm_host.Pci.{PciDev, Space, bus_of, command_round, command_loop, pci_command_bar, pci_command}
use kvm_host.Pci.Coherent.{Lists, agree, side, placed, Coherent}
use kvm_host.Pci.Coherent.Switch.{Switched, pci_activate_bar-Switched, pci_deactivate_bar-Switched}

command_round-Switched :
    (dev : PciDev) (s : Space) (on : Lists) (io mem : Bool) (i : ℕ)
    → Coherent dev s on
    → i < 6
    → ((k : Bool) → (bus_of k s).dev_num + 2 < u64)
    → (r : PciDev × Space) × (command_round io mem i (dev, s) ≡ some r)
      × Switched dev s on i (if side dev i then io else mem) r
unfolding command_round
command_round-Switched dev s on io mem i c lt room =
    elim (Bool-cases (if side dev i then io else mem)) [
      | inl en ↦
          rw en (
            _,
            refl,
            pci_activate_bar-Switched dev s on i (side dev i) c lt refl (room (side dev i)),
          )
      | inr dis ↦ rw dis (pci_deactivate_bar-Switched dev s on i (side dev i) c lt refl)
    ]

-- what `n` rounds of the loop leave, the first of them for BAR `i`
record Commanded (dev : PciDev) (s : Space) (on : Lists) (io mem : Bool) (n i : ℕ)
    (r : PciDev × Space) : Type 0 where
  lists : Lists
  coherent : Coherent r.0 r.1 lists
  same_dev : r.0 ≡ record dev { bar_active = r.0.bar_active }
  devs : SameDevs s.store r.1.store
  done :
      (j : ℕ) → i ≤ j → j < i + n → get_or r.0.bar_active j false ≡ (if side dev j then io else mem)
  kept : (j : ℕ) → j < i → get_or r.0.bar_active j false ≡ get_or dev.bar_active j false
  others :
      (k : Bool)
      → (a : Ptr) → ((j : ℕ) → j < 6 → (a == dev.space_dev + j) ≡ false)
      → has a (lists k) ≡ has a (on k)

-- a round for BAR `i` in front of the others
round_first :
    (dev : PciDev) (s : Space) (on : Lists) (io mem : Bool) (n i : ℕ)
    → Coherent dev s on
    → (dev1 : PciDev) (s1 : Space)
    → (sw : Switched dev s on i (if side dev i then io else mem) (dev1, s1)) → (r : PciDev × Space)
    → Commanded dev1 s1 sw.lists io mem n (i + 1) r
    → i < 6
    → Commanded dev s on io mem (suc n) i r
round_first dev s on io mem n i c dev1 s1 sw r cm lt =
    let en : Bool = if side dev i then io else mem in
    let with_active : PciDev → PciDev = λ d. record d { bar_active = r.0.bar_active } in
    let act : (j : ℕ) → get_or dev1.bar_active j false ≡ get_or (set dev.bar_active i en) j false =
      λ j. ap (λ d. get_or d.bar_active j false) sw.same_dev in
    record {
      lists = cm.lists;
      coherent = cm.coherent;
      same_dev = cm.same_dev ∙ ap with_active sw.same_dev;
      devs = SameDevs-trans s.store s1.store r.1.store sw.devs cm.devs;
      done = λ j from to. elim (dec_lt i j) [
        | yes above ↦
            cm.done j (omega arith) (omega arith)
            ∙ ap (λ d. if side d j then io else mem) sw.same_dev
        | no here ↦
            let e : i ≡ j = omega arith in
            subst (λ m. get_or r.0.bar_active m false ≡ (if side dev m then io else mem)) e
              (cm.kept i (omega arith)
                ∙ act i
                ∙ get_or-set_self dev.bar_active i en false (omega (arith, c.six)))
      ];
      kept = λ j below.
          cm.kept j (omega arith) ∙ act j ∙ get_or-set_ne dev.bar_active i j en false (omega arith);
      others = λ k a ne.
          cm.others k a (λ j small. ap (λ d. a == d.space_dev + j) sw.same_dev ∙ ne j small)
          ∙ sw.others k a (ne i lt);
    }

command_loop-Commanded :
    (dev : PciDev) (s : Space) (on : Lists) (io mem : Bool) (n i : ℕ)
    → Coherent dev s on
    → i + n ≤ 6
    → ((k : Bool) → (bus_of k s).dev_num + n + 1 < u64)
    → (r : PciDev × Space) × (command_loop io mem n i (dev, s) ≡ some r)
      × Commanded dev s on io mem n i r
unfolding command_loop
command_loop-Commanded dev s on io mem zero i c in_range room = (
  (dev, s),
  refl,
  record {
    lists = on;
    coherent = c;
    same_dev = refl;
    devs = record { base = λ a. refl; len = λ a. refl; owner = λ a. refl; do_io = λ a. refl };
    done = λ j from to. absurd (omega arith);
    kept = λ j lt. refl;
    others = λ k a ne. refl;
  },
)
command_loop-Commanded dev s on io mem (suc n) i c in_range room =
    let ((dev1, s1), run1, sw) =
      command_round-Switched dev s on io mem i c (omega arith) (λ k. omega (arith, room k)) in
    let (r, run, cm) =
      command_loop-Commanded dev1 s1 sw.lists io mem n (i + 1) sw.coherent (omega arith)
        (λ k. omega (arith, room k, sw.room k)) in
    (r, rw run1 run, round_first dev s on io mem n i c dev1 s1 sw r cm (omega arith))

-- does the command register of the device switch on the BARs of bus `k`?
abbrev pub decoding : PciDev → Bool → Bool
decoding dev k = truthy (bit_and (load_le dev.hdr pci_command 2) (if k then 1 else 2))

-- the list of bus `k` after the write of the command register
abbrev pub commanded : PciDev → Space → Bool → ℕ → Bool
commanded dev s k i = agree k (side dev i) && (decoding dev k && placed dev i s.store)

own_switch :
    (f : Bool → Bool) (k w p : Bool)
    → agree k w && ((if w then f true else f false) && p) ≡ agree k w && (f k && p)
own_switch f true true p = refl
own_switch f true false p = refl
own_switch f false true p = refl
own_switch f false false p = refl

Commanded-commanded :
    (dev : PciDev) (s : Space) (on : Lists) (r : PciDev × Space)
    → (cm : Commanded dev s on (decoding dev true) (decoding dev false) 6 0 r) → (k : Bool)
    → (i : ℕ) → i < 6
    → has (dev.space_dev + i) (cm.lists k) ≡ commanded r.0 r.1 k i
Commanded-commanded dev s on r cm k i lt =
    let active : get_or r.0.bar_active i false
        ≡ (if side r.0 i then decoding r.0 true else decoding r.0 false) =
      cm.done i (omega arith) (omega (arith, lt))
      ∙ ap (λ d. if side d i then decoding d true else decoding d false) (sym cm.same_dev) in
    ap (λ d. has (d.space_dev + i) (cm.lists k)) (sym cm.same_dev)
    ∙ cm.coherent.listed k i lt
    ∙ ap (λ b. agree k (side r.0 i) && (b && placed r.0 i r.1.store)) active
    ∙ own_switch (decoding r.0) k (side r.0 i) (placed r.0 i r.1.store)

-- what a write leaves: the new lists, which differ in nothing but the ranges of this device
pub record Written (dev : PciDev) (on : Lists) (r : PciDev × Space) : Type 0 where
  pub lists : Lists
  pub coherent : Coherent r.0 r.1 lists
  pub others :
      (k : Bool)
      → (a : Ptr) → ((j : ℕ) → j < 6 → (a == dev.space_dev + j) ≡ false)
      → has a (lists k) ≡ has a (on k)

pub pci_command_bar-Written :
    (dev : PciDev) (s : Space) (on : Lists)
    → Coherent dev s on
    → ((k : Bool) → (bus_of k s).dev_num + 7 < u64)
    → (r : PciDev × Space) × (pci_command_bar dev s ≡ some r)
      × (w : Written dev on r) × ((k : Bool)
          → (i : ℕ) → i < 6
          → has (dev.space_dev + i) (w.lists k) ≡ commanded r.0 r.1 k i)
unfolding pci_command_bar
pci_command_bar-Written dev s on c room =
    let (r, run, cm) =
      command_loop-Commanded dev s on (decoding dev true) (decoding dev false) 6 0 c (omega arith)
        (λ k. omega (arith, room k)) in
    (
      r,
      run,
      record { lists = cm.lists; coherent = cm.coherent; others = cm.others },
      Commanded-commanded dev s on r cm,
    )
