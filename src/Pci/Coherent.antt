-- ===== src/Pci/Coherent.antt =====
-- The base address registers (BARs) of src/pci.c and the two buses agree: what it means that a
-- device's ranges are on the lists exactly while the guest has them decoded.
pub mod Round
pub mod Switch
pub mod Command
pub mod Write
mod Tests
use kvm_host.Common.{
  ℕ, ◌+◌, ◌<◌, ◌≡◌, ◌≢◌, Bool, true, false, not, ◌&&◌, List, length, truthy, get_or,
}
use kvm_host.Bus.{Ptr, Store}
use kvm_host.Bus.Chain.{has, IsBus}
use kvm_host.Pci.{PciDev, Space, bus_of, bar_base}

-- the devices on the I/O bus (at `true`) and on the memory bus
abbrev pub Lists : Type 0
Lists = Bool → List Ptr

abbrev pub agree : Bool → Bool → Bool
agree true k = k
agree false k = not k

-- the bus that a BAR belongs on
abbrev pub side : PciDev → ℕ → Bool
side dev bar = get_or dev.bar_is_io_space bar false

-- is the BAR placed: is there a base in it?
abbrev pub placed : PciDev → ℕ → Store → Bool
placed dev bar h = truthy (bar_base dev bar h)

-- should the range of the BAR be on the list of bus `k`?
abbrev pub expected : PciDev → Store → Bool → ℕ → Bool
expected dev h k bar =
    agree k (side dev bar) && (get_or dev.bar_active bar false && placed dev bar h)

-- Both buses are well formed and have no device in common, and of the device's six ranges each is on
-- the list of its own bus if its BAR is active and placed, and on no list otherwise.
pub record Coherent (dev : PciDev) (s : Space) (on : Lists) : Type 0 where
  pub buses : (k : Bool) → IsBus s.store (bus_of k s) (on k)
  pub apart : (k : Bool) → (a : Ptr) → has a (on k) ≡ true → has a (on (not k)) ≡ false
  pub listed :
      (k : Bool) → (i : ℕ) → i < 6 → has (dev.space_dev + i) (on k) ≡ expected dev s.store k i
  pub six : length dev.bar_active ≡ 6
  pub somewhere : 0 < dev.space_dev
