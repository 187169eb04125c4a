-- ===== src/Bus.antt =====
-- src/bus.c over an explicit store: a `struct dev` lives at an address, a `struct bus` heads a
-- list of devices linked by `next`. Loops run on fuel: `none` means that it ran out, which happens
-- only where the C loop does not end either. `uint64_t` arithmetic wraps at 2^64.
pub mod Chain
pub mod Dispatch
pub mod Cycle
pub mod Remove
pub mod Order
mod Tests
use kvm_host.Common.{
  ℕ, zero, suc, ◌+◌, ◌-◌, ◌%◌, ◌^◌, Bool, true, false, not, ◌&&◌, Option, none, some, ◌==◌, leb,
  if◌then◌else◌,
}

abbrev pub u64 : ℕ
u64 = 2 ^ 64

abbrev pub Ptr : Type 0
Ptr = ℕ

abbrev pub null : Ptr
null = 0

-- the functions that the program stores in `do_io`
pub data IoFn : Type 0 where
  serial_handle_io : IoFn
  pci_address_io : IoFn
  pci_data_io : IoFn
  pci_mmio_io : IoFn
  pci_config_do_io : IoFn
  virtio_pci_space_io : IoFn
  pio_handler : IoFn

pub record Dev : Type 0 where
  pub base : ℕ
  pub len : ℕ
  pub owner : Ptr
  pub do_io : IoFn
  pub next : Ptr

pub record Bus : Type 0 where
  pub dev_num : ℕ
  pub head : Ptr

abbrev pub Store : Type 0
Store = Ptr → Dev

unfoldable pub write : Store → Ptr → Dev → Store
write h p d a = if a == p then d else h a

-- the test of the loop in `bus_find_dev`
unfoldable pub covers : Dev → ℕ → Bool
covers d addr = let end = (d.base + d.len + u64 - 1) % u64 in leb d.base addr && leb addr end

unfoldable pub bus_find_dev : ℕ → Store → Ptr → ℕ → Option Ptr
bus_find_dev zero h p addr = none
bus_find_dev (suc fuel) h p addr =
    let rest = bus_find_dev fuel h (h p).next addr in
    if p == null then some null else if covers (h p) addr then some p else rest

-- a call through `do_io`: `dev->do_io(dev->owner, data, is_write, addr - dev->base, size)`
pub record Call : Type 0 where
  pub fn : IoFn
  pub owner : Ptr
  pub offset : ℕ

-- what `bus_handle_io` does with the device that it found: at most one call
unfoldable pub io_call : Store → ℕ → ℕ → Ptr → Option Call
io_call h addr size p =
    if p == null
    then none
    else if leb ((addr + size + u64 - 1) % u64) (((h p).base + (h p).len + u64 - 1) % u64)
    then some
        (record { fn = (h p).do_io; owner = (h p).owner; offset = (addr + u64 - (h p).base) % u64 })
    else none

-- the outer option is the fuel, the inner one the call that is made
unfoldable pub bus_handle_io : ℕ → Store → Bus → ℕ → ℕ → Option (Option Call)
unfolding io_call
bus_handle_io fuel h bus addr size = elim (bus_find_dev fuel h bus.head addr) [
  | none ↦ none
  | some p ↦ some (io_call h addr size p)
]

unfoldable pub bus_register_dev : Store → Bus → Ptr → Store × Bus
bus_register_dev h bus dev = (
  write h dev (record (h dev) { next = bus.head }),
  record { dev_num = (bus.dev_num + 1) % u64; head = dev },
)

-- `struct dev **p`: where a link of the list is kept
pub data Slot : Type 0 where
  head_of : Slot
  next_of : Ptr → Slot

-- `*p`
abbrev pub deref : Store → Bus → Slot → Ptr
deref h bus head_of = bus.head
deref h bus (next_of a) = (h a).next

-- `*p = q`
unfoldable pub assign : Store → Bus → Slot → Ptr → Store × Bus
unfolding write
assign h bus head_of q = (h, record bus { head = q })
assign h bus (next_of a) q = (write h a (record (h a) { next = q }), bus)

unfoldable pub seek : ℕ → Store → Bus → Slot → Ptr → Option Slot
seek zero h bus p dev = none
seek (suc fuel) h bus p dev =
    let rest = seek fuel h bus (next_of (deref h bus p)) dev in
    if not (deref h bus p == dev) && not (deref h bus p == null) then rest else some p

unfoldable pub unlink : Store → Bus → Slot → Store × Bus
unfolding assign
unlink h bus p = if deref h bus p == null then (h, bus) else assign h bus p (h (deref h bus p)).next

unfoldable pub bus_deregister_dev : ℕ → Store → Bus → Ptr → Option (Store × Bus)
unfolding seek unlink
bus_deregister_dev fuel h bus dev = elim (seek fuel h bus head_of dev) [
  | none ↦ none
  | some p ↦ some (unlink h bus p)
]

abbrev pub bus_init : Bus
bus_init = record { dev_num = 0; head = null }

unfoldable pub dev_init : Store → Ptr → ℕ → ℕ → Ptr → IoFn → Store
dev_init h dev base len owner do_io =
    write h dev (record { base = base; len = len; owner = owner; do_io = do_io; next = null })
