-- ===== src/Bus/Tests.antt =====
-- A bus with the UART and the configuration address port, and the theorems of src/bus.c there.
use kvm_host.Common.{suc, ◌≡◌, refl, true, none, some, [], ◌∷◌, ◌==◌, if◌then◌else◌, arith}
use kvm_host.Bus.{
  Ptr, IoFn, Dev, Bus, Store, Call, covers, bus_find_dev, bus_handle_io, bus_register_dev,
  bus_deregister_dev,
}
use kvm_host.Bus.Chain.{IsBus, has, erase, SameDevs}
use kvm_host.Bus.Order.{Disjoint, bus_handle_io-reregistered}
use kvm_host.Bus.Remove.{bus_deregister_dev-IsBus}
use kvm_host.Bus.Dispatch.{AllFit, route, InRange, bus_handle_io-route, bus_handle_io-InRange}
use kvm_host.Bus.Cycle.{Silent, bus_find_dev-registered_twice}

abbrev uart : Dev
uart = record { base = 0x3f8; len = 8; owner = 100; do_io = IoFn.serial_handle_io; next = 0 }

abbrev port : Dev
port = record { base = 0xcf8; len = 4; owner = 200; do_io = IoFn.pci_address_io; next = 1 }

-- a device that is on no bus
abbrev spare : Dev
spare = record { base = 0xcfc; len = 4; owner = 200; do_io = IoFn.pci_data_io; next = 0 }

abbrev devices : Store
devices a = if a == 1 then uart else if a == 2 then port else spare

abbrev io_bus : Bus
io_bus = record { dev_num = 2; head = 2 }

io_bus-IsBus : IsBus devices io_bus (2 ∷ 1 ∷ [])
io_bus-IsBus = record {
  chain = (refl, omega arith, refl, (refl, omega arith, refl, refl));
  counted = omega arith;
  small = omega arith;
}

io_bus-AllFit : AllFit devices (2 ∷ 1 ∷ [])
io_bus-AllFit = omega arith

bus_handle_io-route_example :
    bus_handle_io 3 devices io_bus 0x3fd 1 ≡ some (route devices (2 ∷ 1 ∷ []) 0x3fd 1)
bus_handle_io-route_example =
    bus_handle_io-route 3 devices io_bus (2 ∷ 1 ∷ []) 0x3fd 1 io_bus-IsBus io_bus-AllFit
      (omega arith) (omega arith) (omega arith)

abbrev status_read : Call
status_read = record { fn = IoFn.serial_handle_io; owner = 100; offset = 5 }

reaches_uart : bus_handle_io 3 devices io_bus 0x3fd 1 ≡ some (some status_read)
unfolding bus_handle_io bus_find_dev covers
reaches_uart = refl

-- an access that runs over the end of the range
straddles : bus_handle_io 3 devices io_bus 0x3ff 2 ≡ some none
unfolding bus_handle_io bus_find_dev covers
straddles = refl

bus_handle_io-InRange_example :
    (a : Ptr) × (has a (2 ∷ 1 ∷ []) ≡ true) × InRange devices a 0x3fd 1 status_read
bus_handle_io-InRange_example =
    bus_handle_io-InRange 3 devices io_bus (2 ∷ 1 ∷ []) 0x3fd 1 status_read io_bus-IsBus
      io_bus-AllFit (omega arith) (omega arith) (omega arith) reaches_uart

apart : Disjoint devices (2 ∷ 1 ∷ [])
apart a b addr i j inside inside' = ground arith

bus_handle_io-reregistered_example :
    (g : Store) × (bus' : Bus) × (bus_deregister_dev 3 devices io_bus 1 ≡ some (g, bus'))
    × (let (g2, bus2) = bus_register_dev g bus' 1 in
        bus_handle_io (suc bus2.dev_num) g2 bus2 0x3fd 1 ≡ bus_handle_io 3 devices io_bus 0x3fd 1)
bus_handle_io-reregistered_example =
    bus_handle_io-reregistered devices io_bus (2 ∷ 1 ∷ []) 1 0x3fd 1 io_bus-IsBus io_bus-AllFit
      apart refl (omega arith) (omega arith) (omega arith) (omega arith)

bus_deregister_dev-IsBus_example :
    (g : Store) × (bus' : Bus) × (bus_deregister_dev 3 devices io_bus 1 ≡ some (g, bus'))
    × IsBus g bus' (erase 1 (2 ∷ 1 ∷ []))
    × SameDevs devices g
bus_deregister_dev-IsBus_example =
    bus_deregister_dev-IsBus 3 devices io_bus (2 ∷ 1 ∷ []) 1 io_bus-IsBus (omega arith)
      (omega arith)

nobody_covers : Silent devices (2 ∷ 1 ∷ []) 0x80
unfolding covers
nobody_covers = (refl, (refl, tt))

bus_find_dev-registered_twice_example :
    bus_find_dev 1000
      (bus_register_dev devices io_bus 2).0
      (bus_register_dev devices io_bus 2).1.head
      0x80
    ≡ none
bus_find_dev-registered_twice_example =
    bus_find_dev-registered_twice 1000 devices io_bus (2 ∷ 1 ∷ []) 2 0x80 io_bus-IsBus refl
      nobody_covers
