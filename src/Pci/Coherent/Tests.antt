-- ===== src/Pci/Coherent/Tests.antt =====
-- A device with two placed BARs, one of them on the I/O bus, whose command register is written.
use kvm_host.Common.{
  ℕ, zero, suc, ◌+◌, ◌<◌, ◌≡◌, refl, Bool, true, false, not, some, [], ◌∷◌, ◌==◌, if◌then◌else◌,
  arith, replicate, get_or, sym, ap, ◌∙◌, ◌&&◌, ==_ne,
}
use mathlib.Core.Bool.{false≢true}
use mathlib.Core.Option
use kvm_host.Bus.{u64, bus_register_dev, write, Ptr, null, IoFn, Dev, Store}
use kvm_host.Bus.Chain.{has, IsBus}
use kvm_host.Common.Bytes.{load_le}
use kvm_host.Pci.{
  PciDev, Space, bus_of, pci_config_write, pci_command_bar, pci_activate_bar, bar_base,
}
use kvm_host.Pci.Coherent.{Lists, agree, side, placed, Coherent}
use kvm_host.Pci.Coherent.Command.{commanded}
use kvm_host.Pci.Coherent.Write.{pci_config_write-Coherent}

abbrev dev : PciDev
dev = record {
  self = 50;
  hdr = replicate 256 0;
  bar_size = 0x100 ∷ 0x20 ∷ 0 ∷ 0 ∷ 0 ∷ 0 ∷ [];
  bar_active = replicate 6 false;
  bar_is_io_space = false ∷ true ∷ false ∷ false ∷ false ∷ false ∷ [];
  space_dev = 10;
  config_dev = 20;
}

abbrev range : ℕ → ℕ → Dev
range base len = record {
  base = base;
  len = len;
  owner = 50;
  do_io = IoFn.virtio_pci_space_io;
  next = null;
}

abbrev store : Store
store a = if a == 10 then range 0x4000 0x100 else if a == 11 then range 0xc021 0x20 else range 0 0

-- another device is on the memory bus
abbrev space : Space
space = record {
  store = store;
  io_bus = record { dev_num = 0; head = null };
  mmio_bus = record { dev_num = 1; head = 5 };
}

abbrev on : Lists
on true = []
on false = 5 ∷ []

buses : (k : Bool) → IsBus space.store (bus_of k space) (on k)
buses true = record { chain = refl; counted = omega arith; small = omega arith }
buses false = record {
  chain = (refl, omega arith, refl, refl);
  counted = omega arith;
  small = omega arith;
}

apart : (k : Bool) → (a : Ptr) → has a (on k) ≡ true → has a (on (not k)) ≡ false
apart true a h = absurd (false≢true h)
apart false a h = refl

room : (k : Bool) → (bus_of k space).dev_num + 7 < u64
room true = omega arith
room false = omega arith

idle : (n i : ℕ) → get_or (replicate n false) i false ≡ false
idle zero i = refl
idle (suc n) zero = refl
idle (suc n) (suc i) = idle n i

absent : (k : Bool) (i : ℕ) → has (10 + i) (on k) ≡ false
absent true i = refl
absent false i = rw (==_ne (10 + i) 5 (omega arith)) refl

nothing : (b : Bool) → b && false ≡ false
nothing b = ground arith

space-Coherent : Coherent dev space on
space-Coherent = record {
  buses = buses;
  apart = apart;
  listed = λ k i lt.
      absent k i
      ∙ sym (
          ap (λ b. agree k (side dev i) && (b && placed dev i store)) (idle 6 i)
          ∙ nothing (agree k (side dev i)));
  six = refl;
  somewhere = omega arith;
}

-- both I/O and memory are switched on
pci_config_write-Coherent_example :
    (dev' : PciDev) × (s' : Space) × (on' : Lists) × (pci_config_write dev (3 ∷ 0 ∷ []) 4 space
      ≡ some (dev', s'))
    × Coherent dev' s' on'
    × ((k : Bool)
        → (a : Ptr) → ((j : ℕ) → j < 6 → (a == 10 + j) ≡ false)
        → has a (on' k) ≡ has a (on k))
    × ((k : Bool)
        → (i : ℕ) → i < 6
        → has (10 + i) (on' k) ≡ (if 4 == 4 then commanded dev' s' k i else has (10 + i) (on k)))
pci_config_write-Coherent_example =
    pci_config_write-Coherent dev (3 ∷ 0 ∷ []) 4 space on space-Coherent room
      (λ e. absurd (false≢true e))

abbrev heads : PciDev × Space → ℕ × ℕ × ℕ
heads (d, s) = (s.io_bus.head, s.mmio_bus.head, (s.store 10).next)

-- the ranges are on the lists then
pci_config_write_lists :
    Option.map heads (pci_config_write dev (3 ∷ 0 ∷ []) 4 space) ≡ some (11, 10, 5)
unfolding pci_config_write pci_command_bar load_le pci_activate_bar bar_base bus_register_dev write
pci_config_write_lists = refl
