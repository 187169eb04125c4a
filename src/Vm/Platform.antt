-- ===== src/Vm/Platform.antt =====
-- What the platforms of src/arch share: devices that are put on the two buses of the machine, the UART
-- (`serial_init` of src/serial.c, but for its thread) among them.
use kvm_host.Common.{ℕ, ◌+◌, Bool, ◌&&◌, leb}
use kvm_host.Bus.{Ptr, IoFn, bus_register_dev, dev_init}
use kvm_host.Vm.Setup.{Vm}

abbrev pub com1_port_base : ℕ
com1_port_base = 0x3f8

abbrev pub com1_port_size : ℕ
com1_port_size = 8

-- an access whose bytes all lie in [base, base + len)
abbrev pub within : ℕ → ℕ → ℕ → ℕ → Bool
within base len addr size = leb base addr && leb (addr + size) (base + len)

module _ {W : Type 0} where
  -- `bus_register_dev(&v->io_bus, dev)` and `bus_register_dev(&v->mmio_bus, dev)`
  abbrev pub add_io : Ptr → Vm W → Vm W
  add_io dev v =
      let (h, bus) = bus_register_dev v.store v.io_bus dev in record v { store = h; io_bus = bus }

  abbrev pub add_mmio : Ptr → Vm W → Vm W
  add_mmio dev v =
      let (h, bus) = bus_register_dev v.store v.mmio_bus dev in
      record v { store = h; mmio_bus = bus }

  -- `dev_init(dev, base, len, owner, do_io)`
  abbrev pub init_dev : Ptr → ℕ → ℕ → Ptr → IoFn → Vm W → Vm W
  init_dev dev base len owner do_io v = record v {
    store = dev_init v.store dev base len owner do_io;
  }

  unfoldable pub serial_init : Vm W → Vm W
  serial_init v =
      add_io v.serial_dev
        (init_dev v.serial_dev com1_port_base com1_port_size v.serial IoFn.serial_handle_io v)
