-- ===== src/Pci/Coherent/Write.antt =====
-- The writes of a guest to the configuration space keep the BARs and the buses in agreement:
-- `pci_command_bar` and `pci_config_write` of src/pci.c.
use kvm_host.Common.{
  ℕ, ◌+◌, ◌-◌, ◌/◌, ◌<◌, ◌≡◌, ◌≢◌, refl, sym, ◌∙◌, Bool, true, false, ◌&&◌, ◌==◌, List, get_or,
  some, arith, Bool-cases, inl, inr, ==_refl, ==→eq, if◌then◌else◌, leb,
}
use mathlib.Core.Bool.{false≢true}
use kvm_host.Common.Bytes.{write_bytes, store_le}
use kvm_host.Bus.{Ptr, Store, u64, write}
use kvm_host.Bus.Chain.{has, IsBus-frame}
use kvm_host.Pci.{
  PciDev, Space, bus_of, bar_base, pci_config_bar, pci_config_write, pci_command,
  pci_base_address_0, pci_base_address_5, pci_rom_address,
}
use kvm_host.Pci.Coherent.{Lists, expected, Coherent}
use kvm_host.Pci.Coherent.Round.{Bool-elim, differs}
use kvm_host.Pci.Coherent.Command.{commanded, pci_command_bar-Written}

-- a write that the lists do not depend on
stored-Coherent :
    (dev : PciDev) (hdr : List ℕ) (s : Space) (on : Lists)
    → Coherent dev s on
    → Coherent (record dev { hdr = hdr }) s on
unfolding bar_base
stored-Coherent dev hdr s on c = record {
  buses = c.buses;
  apart = c.apart;
  listed = c.listed;
  six = c.six;
  somewhere = c.somewhere;
}

-- a new base for a BAR that is switched off
expected_rebased :
    (dev : PciDev) (hdr : List ℕ) (h g : Store) (k : Bool) (bar i : ℕ)
    → get_or dev.bar_active bar false ≡ false
    → ((a : Ptr) → (a == dev.space_dev + bar) ≡ false → (g a).base ≡ (h a).base)
    → expected (record dev { hdr = hdr }) g k i ≡ expected dev h k i
unfolding bar_base
expected_rebased dev hdr h g k bar i off same = elim (Bool-cases (i == bar)) [
  | inl hit ↦ rw (==→eq i bar hit, off) refl
  | inr miss ↦
      let ne : bar ≢ i = λ e. false≢true (sym miss ∙ rw e (==_refl i)) in
      rw (same (dev.space_dev + i) (differs dev.space_dev bar i ne)) refl
]

-- a BAR that is switched off is placed anew
pci_config_bar-Coherent :
    (dev : PciDev) (bar : ℕ) (s : Space) (on : Lists)
    → Coherent dev s on
    → get_or dev.bar_active bar false ≡ false
    → Coherent (pci_config_bar dev bar s).0 (pci_config_bar dev bar s).1 on
unfolding pci_config_bar bar_base write
pci_config_bar-Coherent dev bar s on c off = record {
  buses =
      Bool-elim _ (IsBus-frame s.store _ s.io_bus (on true) (c.buses true) (λ a h. ground arith))
        (IsBus-frame s.store _ s.mmio_bus (on false) (c.buses false) (λ a h. ground arith));
  apart = c.apart;
  listed = λ k i lt.
      let r = pci_config_bar dev bar s in
      c.listed k i lt
      ∙ sym (expected_rebased dev r.0.hdr s.store r.1.store k bar i off (λ a ne. rw ne refl));
  six = c.six;
  somewhere = c.somewhere;
}

-- a write that is not one of the command register
other_write :
    (dev : PciDev) (bytes : List ℕ) (offset : ℕ) (s : Space) (on : Lists)
    → Coherent dev s on
    → (leb pci_base_address_0 offset && leb offset pci_base_address_5 ≡ true
        → get_or dev.bar_active ((offset - pci_base_address_0) / 4) false ≡ false)
    → (offset == pci_command) ≡ false
    → (r : PciDev × Space) × (pci_config_write dev bytes offset s ≡ some r) × Coherent r.0 r.1 on
unfolding pci_config_write
other_write dev bytes offset s on c off other =
    let dev' : PciDev = record dev { hdr = write_bytes dev.hdr offset bytes } in
    let c' : Coherent dev' s on = stored-Coherent dev dev'.hdr s on c in
    elim (Bool-cases (leb pci_base_address_0 offset && leb offset pci_base_address_5)) [
      | inl bar ↦ (
        pci_config_bar dev' ((offset - pci_base_address_0) / 4) s,
        rw (other, bar) refl,
        pci_config_bar-Coherent dev' ((offset - pci_base_address_0) / 4) s on c' (off bar),
      )
      | inr none_of_them ↦ elim (Bool-cases (offset == pci_rom_address)) [
        | inl rom ↦ (
          (record dev' { hdr = store_le dev'.hdr pci_rom_address 4 0 }, s),
          rw (other, none_of_them, rom) refl,
          stored-Coherent dev' (store_le dev'.hdr pci_rom_address 4 0) s on c',
        )
        | inr plain ↦ ((dev', s), rw (other, none_of_them, plain) refl, c')
      ]
    ]

-- Any write of the guest to the configuration space of a device whose BARs agree with the two buses
-- ends, if every BAR that it places anew is switched off and the buses have had fewer than 2^64 - 7
-- registrations. The BARs agree with the buses again, and no device but the six ranges of this one
-- is put on a list or taken off it: a write at the command register leaves on the list of each bus
-- exactly the ranges that belong there, that the register switches on, and that have a base; any
-- other write leaves them where they are.
pub pci_config_write-Coherent :
    (dev : PciDev) (bytes : List ℕ) (offset : ℕ) (s : Space) (on : Lists)
    → Coherent dev s on
    → ((k : Bool) → (bus_of k s).dev_num + 7 < u64)
    → (leb pci_base_address_0 offset && leb offset pci_base_address_5 ≡ true
        → get_or dev.bar_active ((offset - pci_base_address_0) / 4) false ≡ false)
    → (dev' : PciDev) × (s' : Space) × (on' : Lists) × (pci_config_write dev bytes offset s
        ≡ some (dev', s'))
      × Coherent dev' s' on'
      × ((k : Bool)
          → (a : Ptr) → ((j : ℕ) → j < 6 → (a == dev.space_dev + j) ≡ false)
          → has a (on' k) ≡ has a (on k))
      × ((k : Bool)
          → (i : ℕ) → i < 6
          → has (dev.space_dev + i) (on' k) ≡ (
              if offset == pci_command
              then commanded dev' s' k i
              else has (dev.space_dev + i) (on k)))
unfolding pci_config_write
pci_config_write-Coherent dev bytes offset s on c room off =
    elim (Bool-cases (offset == pci_command)) [
      | inl hit ↦
          let (r, run, w, l) =
            pci_command_bar-Written (record dev { hdr = write_bytes dev.hdr offset bytes }) s on
              (stored-Coherent dev (write_bytes dev.hdr offset bytes) s on c) room in
          (r.0, r.1, w.lists, rw hit run, w.coherent, w.others, λ k i lt. rw hit (l k i lt))
      | inr other ↦
          let (r, run, kept) = other_write dev bytes offset s on c off other in
          (r.0, r.1, on, run, kept, λ k a ne. refl, λ k i lt. rw other refl)
    ]
