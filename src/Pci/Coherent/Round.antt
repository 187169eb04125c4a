-- ===== src/Pci/Coherent/Round.antt =====
-- One round of the loop of `pci_command_bar` of src/pci.c keeps the BARs and the buses in agreement.
use kvm_host.Common.{
  ℕ, ◌+◌, ◌<◌, ◌≡◌, ◌≢◌, refl, sym, ◌∙◌, Bool, true, false, not, ◌&&◌, ◌==◌, List, length, get_or,
  set, arith, Bool-cases, inl, inr, ==_refl, ==_ne, ==→eq, length-set, get_or-set_self,
  get_or-set_ne,
}
use mathlib.Core.Path.{subst}
use mathlib.Core.Bool.{false≢true}
use kvm_host.Bus.{Ptr, Bus, Store}
use kvm_host.Bus.Chain.{has, IsBus, IsBus-frame, SameDevs}
use kvm_host.Pci.{PciDev, Space, bus_of, with_bus, bar_base}
use kvm_host.Pci.Coherent.{Lists, agree, side, placed, expected, Coherent}

abbrev pub put_list : Lists → Bool → List Ptr → Lists
put_list on true xs true = xs
put_list on true xs false = on false
put_list on false xs true = on true
put_list on false xs false = xs

pub Bool-elim : (P : Bool → Type 0) → P true → P false → (k : Bool) → P k
Bool-elim P t f true = t
Bool-elim P t f false = f

-- the bases of the ranges decide which BARs are placed
pub placed_lem :
    (dev : PciDev) (bar : ℕ) (h g : Store) → SameDevs h g → placed dev bar g ≡ placed dev bar h
unfolding bar_base
placed_lem dev bar h g same = rw (same.base (dev.space_dev + bar)) refl

abbrev pub switched : PciDev → ℕ → Bool → PciDev
switched dev i en = record dev { bar_active = set dev.bar_active i en }

-- BAR `i`, which belongs on bus `w`, is switched to `en`, and the list of that bus becomes `xs`
pub record Moved (dev : PciDev) (s : Space) (on : Lists) (i : ℕ) (w en : Bool) (g : Store)
    (bus : Bus) (xs : List Ptr) : Type 0 where
  pub bus_ok : IsBus g bus xs
  pub devs : SameDevs s.store g
  pub frame : (a : Ptr) → has a (on (not w)) ≡ true → (g a).next ≡ (s.store a).next
  pub others : (a : Ptr) → (a == dev.space_dev + i) ≡ false → has a xs ≡ has a (on w)
  pub self : has (dev.space_dev + i) xs ≡ en && placed dev i s.store

expected_kept :
    (dev : PciDev) (h g : Store) (k en : Bool) (i j : ℕ)
    → SameDevs h g
    → i ≢ j
    → expected (switched dev i en) g k j ≡ expected dev h k j
unfolding bar_base
expected_kept dev h g k en i j same ne =
    rw (get_or-set_ne dev.bar_active i j en false ne, placed_lem (switched dev i en) j h g same)
      refl

expected-switched :
    (dev : PciDev) (h g : Store) (k w en : Bool) (i : ℕ)
    → SameDevs h g
    → side dev i ≡ w
    → i < length dev.bar_active
    → expected (switched dev i en) g k i ≡ agree k w && (en && placed dev i h)
unfolding bar_base
expected-switched dev h g k w en i same e lt =
    rw (get_or-set_self dev.bar_active i en false lt, placed_lem (switched dev i en) i h g same, e)
      refl

pub agree_self : (k b : Bool) → agree k k && b ≡ b
agree_self k b = ground arith

pub agree-not : (k b : Bool) → agree (not k) k && b ≡ false
agree-not k b = ground arith

-- which index is meant is seen from the address
pub differs : (d i j : ℕ) → i ≢ j → (d + j == d + i) ≡ false
differs d i j ne = ==_ne (d + j) (d + i) (λ e. ne (omega (arith, e)))

module _ (dev : PciDev) (s : Space) (on : Lists) (i : ℕ) (w en : Bool) (g : Store) (bus : Bus)
    (xs : List Ptr) (c : Coherent dev s on) (lt : i < 6) (e : side dev i ≡ w)
    (m : Moved dev s on i w en g bus xs) where
  -- the range is not on the other bus
  elsewhere : has (dev.space_dev + i) (on (not w)) ≡ false
  elsewhere =
      c.listed (not w) i lt
      ∙ rw e (agree-not w (get_or dev.bar_active i false && placed dev i s.store))

  own_listed : (j : ℕ) → j < 6 → has (dev.space_dev + j) xs ≡ expected (switched dev i en) g w j
  own_listed j small = elim (Bool-cases (i == j)) [
    | inl hit ↦
        let same = ==→eq i j hit in
        subst (λ n. has (dev.space_dev + n) xs ≡ expected (switched dev i en) g w n) same
          (m.self
            ∙ sym (
                expected-switched dev s.store g w w en i m.devs e (omega (arith, c.six))
                ∙ agree_self w (en && placed dev i s.store)))
    | inr miss ↦
        let ne : i ≢ j = λ e. false≢true (sym miss ∙ rw e (==_refl j)) in
        m.others (dev.space_dev + j) (differs dev.space_dev i j ne)
        ∙ c.listed w j small
        ∙ sym (expected_kept dev s.store g w en i j m.devs ne)
  ]

  other_listed :
      (j : ℕ)
      → j < 6
      → has (dev.space_dev + j) (on (not w)) ≡ expected (switched dev i en) g (not w) j
  other_listed j small = elim (Bool-cases (i == j)) [
    | inl hit ↦
        let same = ==→eq i j hit in
        subst (λ n. has (dev.space_dev + n) (on (not w)) ≡ expected (switched dev i en) g (not w) n)
          same
          (elsewhere
            ∙ sym (
                expected-switched dev s.store g (not w) w en i m.devs e (omega (arith, c.six))
                ∙ agree-not w (en && placed dev i s.store)))
    | inr miss ↦
        let ne : i ≢ j = λ e. false≢true (sym miss ∙ rw e (==_refl j)) in
        c.listed (not w) j small ∙ sym (expected_kept dev s.store g (not w) en i j m.devs ne)
  ]

  own_apart : (a : Ptr) → has a xs ≡ true → has a (on (not w)) ≡ false
  own_apart a h = elim (Bool-cases (a == dev.space_dev + i)) [
    | inl same ↦
        subst (λ b. has b (on (not w)) ≡ false) (sym (==→eq a (dev.space_dev + i) same)) elsewhere
    | inr ne ↦ c.apart w a (sym (m.others a ne) ∙ h)
  ]

  other_apart : (a : Ptr) → has a (on (not w)) ≡ true → has a xs ≡ false
  other_apart a h = elim (Bool-cases (has a xs)) [
    | inl there ↦ absurd (false≢true (sym (own_apart a there) ∙ h))
    | inr out ↦ out
  ]

  other-IsBus : IsBus g (bus_of (not w) s) (on (not w))
  other-IsBus = IsBus-frame s.store g (bus_of (not w) s) (on (not w)) (c.buses (not w)) m.frame

pub Moved-Coherent :
    (dev : PciDev) (s : Space) (on : Lists) (i : ℕ) (w en : Bool) (g : Store) (bus : Bus)
    (xs : List Ptr)
    → Coherent dev s on
    → i < 6
    → side dev i ≡ w
    → Moved dev s on i w en g bus xs
    → Coherent (switched dev i en) (with_bus w s g bus) (put_list on w xs)
Moved-Coherent dev s on i true en g bus xs c lt e m = record {
  buses = Bool-elim _ m.bus_ok (other-IsBus dev s on i true en g bus xs c lt e m);
  apart =
      Bool-elim _ (own_apart dev s on i true en g bus xs c lt e m)
        (other_apart dev s on i true en g bus xs c lt e m);
  listed =
      Bool-elim _ (own_listed dev s on i true en g bus xs c lt e m)
        (other_listed dev s on i true en g bus xs c lt e m);
  six = length-set dev.bar_active i en ∙ c.six;
  somewhere = c.somewhere;
}
Moved-Coherent dev s on i false en g bus xs c lt e m = record {
  buses = Bool-elim _ (other-IsBus dev s on i false en g bus xs c lt e m) m.bus_ok;
  apart =
      Bool-elim _ (other_apart dev s on i false en g bus xs c lt e m)
        (own_apart dev s on i false en g bus xs c lt e m);
  listed =
      Bool-elim _ (other_listed dev s on i false en g bus xs c lt e m)
        (own_listed dev s on i false en g bus xs c lt e m);
  six = length-set dev.bar_active i en ∙ c.six;
  somewhere = c.somewhere;
}
