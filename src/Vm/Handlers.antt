-- ===== src/Vm/Handlers.antt =====
-- The functions behind `dev->do_io` on a whole machine: what a call that the bus makes does, with its
-- nested lookups. `D` of src/vm.c's loop is the direction and the data of an
-- access here. Each of the accesses of one exit is given the data of the exit, where in C it finds what
-- the one before has left there: the two are the same for a count of 1.
pub mod Config
mod Tests
use kvm_host.Common.{
  ℕ, zero, suc, Bool, Option, some, none, List, get_or, set, ◌==◌, if◌then◌else◌, ◌>>=◌,
}
use kvm_host.Bus.{Ptr, IoFn, Call}
use kvm_host.Virtq.{VirtqOps}
use kvm_host.Pci.{PciDev, Space, pci_config_do_io}
use kvm_host.Pci.Ports.{Pci, pci_address_io, pci_data_io, pci_mmio_io}
use kvm_host.Serial.{Serial, serial_handle_io}
use kvm_host.VirtioPci.{VirtioPciDev, virtio_pci_space_io}
use kvm_host.Vm.Setup.{Vm}
use kvm_host.Arm64.Platform.{pio_handler}

-- what the machine has outside `vm_t`: the UART, how often the worker was woken, and what `data`
-- holds after the latest call. `X` is what the virtio devices work on.
pub record Host (X : Type 0) : Type 0 where
  pub uart : Serial
  pub wakeups : ℕ
  pub answer : List ℕ
  pub outside : X

-- the direction of an access and what `data` points to
pub record Data : Type 0 where
  pub is_write : Bool
  pub bytes : List ℕ

-- the two PCI devices of the machine
pub data Which : Type 0 where
  blk : Which
  net : Which

-- a byte of `data` that a handler has stored, if it has
abbrev pub put_byte : List ℕ → Option ℕ → List ℕ
put_byte bytes none = bytes
put_byte bytes (some value) = set bytes 0 value

module _ {X : Type 0} where
  abbrev pub get_dev : Which → Vm (Host X) → VirtioPciDev
  get_dev Which.blk v = v.virtio_blk_dev.virtio_pci_dev
  get_dev Which.net v = v.virtio_net_dev.virtio_pci_dev

  abbrev pub put_dev : Which → VirtioPciDev → Vm (Host X) → Vm (Host X)
  put_dev Which.blk dev v = record v {
    virtio_blk_dev = record v.virtio_blk_dev { virtio_pci_dev = dev };
  }
  put_dev Which.net dev v = record v {
    virtio_net_dev = record v.virtio_net_dev { virtio_pci_dev = dev };
  }

  abbrev pub get_pci_dev : Which → Vm (Host X) → PciDev
  get_pci_dev w v = (get_dev w v).pci_dev

  abbrev pub put_pci_dev : Which → PciDev → Vm (Host X) → Vm (Host X)
  put_pci_dev w dev v = put_dev w (record (get_dev w v) { pci_dev = dev }) v

  -- the device at the address `owner`
  unfoldable pub which : Vm (Host X) → Ptr → Option Which
  which v owner =
      if owner == (get_pci_dev Which.blk v).self
      then some Which.blk
      else if owner == (get_pci_dev Which.net v).self
      then some Which.net
      else none

  abbrev pub space_of : Vm (Host X) → Space
  space_of v = record { store = v.store; io_bus = v.io_bus; mmio_bus = v.mmio_bus }

  abbrev pub put_space : Space → Vm (Host X) → Vm (Host X)
  put_space s v = record v { store = s.store; io_bus = s.io_bus; mmio_bus = s.mmio_bus }

  abbrev pub answered : List ℕ → Vm (Host X) → Vm (Host X)
  answered bytes v = record v { world = record v.world { answer = bytes } }

  unfoldable pub uart_access : Data → ℕ → Vm (Host X) → Vm (Host X)
  uart_access d offset v =
      let (uart, stored, wakes) =
        serial_handle_io v.world.uart (get_or d.bytes 0 0) d.is_write offset in
      record v {
        world = record v.world {
          uart = uart;
          wakeups = if wakes then suc v.world.wakeups else v.world.wakeups;
          answer = put_byte d.bytes stored;
        };
      }

  unfoldable pub address_access : Data → ℕ → ℕ → Vm (Host X) → Vm (Host X)
  address_access d offset size v =
      let (pci, out) = pci_address_io v.pci d.bytes d.is_write offset size in
      answered out (record v { pci = pci })

  unfoldable pub config_access : Which → Data → ℕ → ℕ → Vm (Host X) → Option (Vm (Host X))
  config_access w d offset size v = do
    (dev, s, out) ← pci_config_do_io (get_pci_dev w v) d.bytes d.is_write offset size (space_of v)
    some (answered out (put_pci_dev w dev (put_space s v)))

  module _ (ops : Which → ℕ → VirtqOps (VirtioPciDev × Vm (Host X)))
      (event_flags : Which → ℕ → VirtioPciDev × Vm (Host X) → ℕ) where
    unfoldable pub window_access : Which → Data → ℕ → Vm (Host X) → Option (Vm (Host X))
    window_access w d offset v = do
      ((dev, v'), out) ←
          virtio_pci_space_io (ops w) (event_flags w) (get_dev w v, v) d.bytes d.is_write offset
      some (answered out (put_dev w dev v'))

    -- one call; `next` is what becomes of the call that a nested lookup makes. A device that the
    -- machine does not have is `none`: C would follow a pointer to no `struct pci_dev`.
    unfoldable pub dispatch :
        (Option Call → Vm (Host X) → Option (Vm (Host X)))
        → Data
        → ℕ
        → Call
        → Vm (Host X)
        → Option (Vm (Host X))
    unfolding uart_access address_access config_access window_access
    dispatch next d size call v = elim call.fn [
      | IoFn.serial_handle_io ↦ some (uart_access d call.offset v)
      | IoFn.pci_address_io ↦ some (address_access d call.offset size v)
      | IoFn.pci_data_io ↦ (do
        called ← pci_data_io (suc v.pci.pci_bus.dev_num) v.store v.pci call.offset size
        next called v)
      | IoFn.pci_mmio_io ↦ (do
        called ← pci_mmio_io (suc v.pci.pci_bus.dev_num) v.store v.pci call.offset size
        next called v)
      | IoFn.pci_config_do_io ↦ (do w ← which v call.owner; config_access w d call.offset size v)
      | IoFn.virtio_pci_space_io ↦ (do w ← which v call.owner; window_access w d call.offset v)
      | IoFn.pio_handler ↦ (do called ← pio_handler v call.offset size; next called v)
    ]

    -- `depth` bounds how deep calls are nested; a lookup that finds nothing leaves `data` alone
    unfoldable pub handle : ℕ → Data → Option Call → ℕ → Vm (Host X) → Option (Vm (Host X))
    unfolding dispatch
    handle depth d none size v = some (answered d.bytes v)
    handle zero d (some call) size v = none
    handle (suc depth) d (some call) size v =
        dispatch (λ called v'. handle depth d called size v') d size call v
