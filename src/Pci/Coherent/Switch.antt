-- ===== src/Pci/Coherent/Switch.antt =====
-- `pci_activate_bar` and `pci_deactivate_bar` of src/pci.c keep the BARs and the buses in agreement.
use kvm_host.Common.{
  ℕ, ◌+◌, ◌<◌, ◌≤◌, ◌≡◌, refl, sym, ◌∙◌, ap, Bool, true, false, not, ◌&&◌, ◌==◌, List, get_or, some,
  arith, Bool-cases, inl, inr, ==_refl, ◌∷◌,
}
use mathlib.Core.Path.{subst}
use kvm_host.Bus.{Ptr, Bus, Store, bus_register_dev, bus_deregister_dev, u64}
use kvm_host.Bus.Chain.{
  spared, has, erase, has-erase_self, has-erase_ne, SameDevs, SameDevs-link, bus_register_dev-IsBus,
}
use kvm_host.Bus.Remove.{Removed-IsBus, bus_deregister_dev-Removed, SameDevs-refl}
use kvm_host.Pci.{PciDev, Space, bus_of, with_bus, pci_activate_bar, pci_deactivate_bar}
use kvm_host.Pci.Coherent.{Lists, side, placed, Coherent}
use kvm_host.Pci.Coherent.Round.{
  agree_self, agree-not, Moved, Moved-Coherent, put_list, switched, Bool-elim,
}

-- what a switch of BAR `i` to `en` leaves
pub record Switched (dev : PciDev) (s : Space) (on : Lists) (i : ℕ) (en : Bool) (r : PciDev × Space)
    : Type 0 where
  pub lists : Lists
  pub coherent : Coherent r.0 r.1 lists
  pub same_dev : r.0 ≡ switched dev i en
  pub devs : SameDevs s.store r.1.store
  pub others :
      (k : Bool) → (a : Ptr) → (a == dev.space_dev + i) ≡ false → has a (lists k) ≡ has a (on k)
  pub room : (k : Bool) → (bus_of k r.1).dev_num ≤ (bus_of k s).dev_num + 1

Moved-Switched :
    (dev : PciDev) (s : Space) (on : Lists) (i : ℕ) (w en : Bool) (g : Store) (bus : Bus)
    (xs : List Ptr)
    → Coherent dev s on
    → i < 6
    → side dev i ≡ w
    → bus.dev_num ≤ (bus_of w s).dev_num + 1
    → Moved dev s on i w en g bus xs
    → Switched dev s on i en (switched dev i en, with_bus w s g bus)
Moved-Switched dev s on i true en g bus xs c lt e room m = record {
  lists = put_list on true xs;
  coherent = Moved-Coherent dev s on i true en g bus xs c lt e m;
  same_dev = refl;
  devs = m.devs;
  others = Bool-elim _ m.others (λ a ne. refl);
  room = Bool-elim _ room (omega arith);
}
Moved-Switched dev s on i false en g bus xs c lt e room m = record {
  lists = put_list on false xs;
  coherent = Moved-Coherent dev s on i false en g bus xs c lt e m;
  same_dev = refl;
  devs = m.devs;
  others = Bool-elim _ (λ a ne. refl) m.others;
  room = Bool-elim _ (omega arith) room;
}

with_bus_self : (w : Bool) (s : Space) → with_bus w s s.store (bus_of w s) ≡ s
with_bus_self true s = refl
with_bus_self false s = refl

not-not : (k : Bool) → not (not k) ≡ k
not-not true = refl
not-not false = refl

module _ (dev : PciDev) (s : Space) (on : Lists) (i : ℕ) (w : Bool) (c : Coherent dev s on)
    (lt : i < 6) (e : side dev i ≡ w) where
  abbrev d : Ptr
  d = dev.space_dev + i

  own : has d (on w) ≡ get_or dev.bar_active i false && placed dev i s.store
  own =
      c.listed w i lt ∙ rw e (agree_self w (get_or dev.bar_active i false && placed dev i s.store))

  stays :
      (en : Bool)
      → get_or dev.bar_active i false && placed dev i s.store ≡ en && placed dev i s.store
      → Switched dev s on i en (switched dev i en, s)
  stays en same =
      subst (λ t. Switched dev s on i en (switched dev i en, t)) (with_bus_self w s)
        (Moved-Switched dev s on i w en s.store (bus_of w s) (on w) c lt e (omega arith) (record {
          bus_ok = c.buses w;
          devs = SameDevs-refl s.store;
          frame = λ a h. refl;
          others = λ a ne. refl;
          self = own ∙ same;
        }))

  registers :
      (bus_of w s).dev_num + 2 < u64
      → get_or dev.bar_active i false ≡ false
      → placed dev i s.store ≡ true
      → let (g, bus) = bus_register_dev s.store (bus_of w s) d in
        Switched dev s on i true (switched dev i true, with_bus w s g bus)
  unfolding bus_register_dev
  registers room off there =
      let not_there : has d (on (not w)) ≡ false =
        c.listed (not w) i lt
        ∙ rw e (agree-not w (get_or dev.bar_active i false && placed dev i s.store)) in
      let out : has d (on w) ≡ false = own ∙ rw off refl in
      let (g, bus) = bus_register_dev s.store (bus_of w s) d in
      Moved-Switched dev s on i w true g bus (d ∷ on w) c lt e (omega arith) (record {
        bus_ok =
            bus_register_dev-IsBus s.store (bus_of w s) (on w) d (c.buses w)
              (omega (arith, c.somewhere)) out room;
        devs = SameDevs-link s.store d (bus_of w s).head;
        frame = λ a h.
            ap (λ x. x.next)
              (spared s.store d a (on (not w)) (record (s.store d) { next = (bus_of w s).head })
                not_there h);
        others = λ a ne. ground arith;
        self = rw (==_refl d, there) refl;
      })

  deregisters :
      get_or dev.bar_active i false ≡ true
      → placed dev i s.store ≡ true
      → (g : Store) × (bus : Bus) × (bus_deregister_dev
            ((bus_of w s).dev_num + 1)
            s.store
            (bus_of w s)
            d
          ≡ some (g, bus))
        × Switched dev s on i false (switched dev i false, with_bus w s g bus)
  deregisters active there =
      let (g, bus, run, r) =
        bus_deregister_dev-Removed ((bus_of w s).dev_num + 1) s.store (bus_of w s) (on w) d
          (c.buses w) (omega (arith, c.somewhere)) (omega (arith, (c.buses w).counted)) in
      (
        g,
        bus,
        run,
        Moved-Switched dev s on i w false g bus (erase d (on w)) c lt e (omega (arith, r.dev_num))
            (record {
              bus_ok = Removed-IsBus s.store g (bus_of w s) bus d (on w) (c.buses w) r;
              devs = r.devs;
              frame =
                  λ a h. r.frame a (sym (ap (λ k. has a (on k)) (not-not w)) ∙ c.apart (not w) a h);
              others = λ a ne. has-erase_ne a d (on w) ne;
              self = has-erase_self s.store (bus_of w s).head d (on w) (c.buses w).chain;
            }),
      )

  pub pci_activate_bar-Switched :
      (bus_of w s).dev_num + 2 < u64 → Switched dev s on i true (pci_activate_bar dev i w s)
  unfolding pci_activate_bar
  pci_activate_bar-Switched room = elim (Bool-cases (get_or dev.bar_active i false)) [
    | inl active ↦ rw active (stays true (rw active refl))
    | inr off ↦ elim (Bool-cases (placed dev i s.store)) [
      | inl there ↦ rw (off, there) (registers room off there)
      | inr nowhere ↦ rw (off, nowhere) (stays true (rw (off, nowhere) refl))
    ]
  ]

  pub pci_deactivate_bar-Switched :
      (r : PciDev × Space) × (pci_deactivate_bar dev i w s ≡ some r) × Switched dev s on i false r
  unfolding pci_deactivate_bar
  pci_deactivate_bar-Switched = elim (Bool-cases (get_or dev.bar_active i false)) [
    | inr off ↦ ((switched dev i false, s), rw off refl, stays false (rw off refl))
    | inl active ↦ elim (Bool-cases (placed dev i s.store)) [
      | inr nowhere ↦ (
        (switched dev i false, s),
        rw (active, nowhere) refl,
        stays false (rw (active, nowhere) refl),
      )
      | inl there ↦
          let (g, bus, run, sw) = deregisters active there in
          ((switched dev i false, with_bus w s g bus), rw (active, there, run) refl, sw)
    ]
  ]
