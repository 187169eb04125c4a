-- ===== src/X86/Ports.antt =====
-- The ports of the x86 machine: where an access of the guest to a port arrives.
use kvm_host.Common.{
  ℕ, suc, ◌-◌, ◌<◌, ◌≡◌, ◌≢◌, refl, sym, ap, ==_refl, ==_ne, Option, some, none, [], ◌∷◌,
  if◌then◌else◌, arith, ◌∙◌, List,
}
use mathlib.Core.Path.{subst}
use kvm_host.Bus.{Ptr, null, IoFn, Call, write, bus_init, bus_handle_io, bus_register_dev, dev_init}
use kvm_host.Bus.Chain.{IsBus}
use kvm_host.Bus.Dispatch.{AllFit, bus_handle_io-route}
use kvm_host.Pci.Setup.{pci_init}
use kvm_host.VirtioBlk.Setup.{BlkDev}
use kvm_host.Vm.Setup.{Vm}
use kvm_host.Vm.Platform.{within, serial_init}
use kvm_host.X86.Platform.{init_devices, vm_arch_init_platform_device}

module _ {W : Type 0} where
  -- the addresses of the devices are different objects of one `vm_t`
  pub record IsLaidOut (v : Vm W) : Type 0 where
    pub serial_null : v.serial_dev ≢ null
    pub addr_null : v.pci.pci_addr_dev ≢ null
    pub data_null : v.pci.pci_bus_dev ≢ null
    pub serial_addr : v.serial_dev ≢ v.pci.pci_addr_dev
    pub serial_data : v.serial_dev ≢ v.pci.pci_bus_dev
    pub addr_data : v.pci.pci_addr_dev ≢ v.pci.pci_bus_dev
    pub mmio_addr : v.pci.pci_mmio_dev ≢ v.pci.pci_addr_dev
    pub mmio_data : v.pci.pci_mmio_dev ≢ v.pci.pci_bus_dev

  -- the devices of the bus of the ports, latest first
  abbrev pub port_devices : Vm W → List Ptr
  port_devices v = v.serial_dev ∷ v.pci.pci_bus_dev ∷ v.pci.pci_addr_dev ∷ []

  -- COM1, and the address and data ports of PCI
  pub record HasPorts (v : Vm W) : Type 0 where
    pub uart : v.store v.serial_dev ≡ record {
      base = 0x3f8;
      len = 8;
      owner = v.serial;
      do_io = IoFn.serial_handle_io;
      next = v.pci.pci_bus_dev;
    }
    pub data_port : v.store v.pci.pci_bus_dev ≡ record {
      base = 0xcfc;
      len = 4;
      owner = v.pci.self;
      do_io = IoFn.pci_data_io;
      next = v.pci.pci_addr_dev;
    }
    pub addr_port : v.store v.pci.pci_addr_dev ≡ record {
      base = 0xcf8;
      len = 4;
      owner = v.pci.self;
      do_io = IoFn.pci_address_io;
      next = null;
    }
    pub head : v.io_bus.head ≡ v.serial_dev
    pub dev_num : v.io_bus.dev_num ≡ 3

  unfoldable pub port_map : Vm W → ℕ → ℕ → Option Call
  port_map v addr size =
      if within 0x3f8 8 addr size
      then some record { fn = IoFn.serial_handle_io; owner = v.serial; offset = addr - 0x3f8 }
      else if within 0xcfc 4 addr size
      then some record { fn = IoFn.pci_data_io; owner = v.pci.self; offset = addr - 0xcfc }
      else if within 0xcf8 4 addr size
      then some record { fn = IoFn.pci_address_io; owner = v.pci.self; offset = addr - 0xcf8 }
      else none

  module _ (v : Vm W) (apart : IsLaidOut v) where
    init_devices-HasPorts :
        (zeroed : BlkDev) → v.io_bus ≡ bus_init → HasPorts (init_devices zeroed v)
    unfolding init_devices pci_init serial_init bus_register_dev dev_init write
    init_devices-HasPorts zeroed none_there = record {
      uart = rw (==_refl v.serial_dev) refl;
      data_port =
          rw
            (
              ==_ne v.pci.pci_bus_dev v.serial_dev (λ e. apart.serial_data (sym e)),
              ==_refl v.pci.pci_bus_dev,
              ==_ne v.pci.pci_bus_dev v.pci.pci_addr_dev (λ e. apart.addr_data (sym e)),
              ==_ne v.pci.pci_bus_dev v.pci.pci_mmio_dev (λ e. apart.mmio_data (sym e)),
            )
            refl;
      addr_port =
          rw
            (
              ==_ne v.pci.pci_addr_dev v.serial_dev (λ e. apart.serial_addr (sym e)),
              ==_ne v.pci.pci_addr_dev v.pci.pci_bus_dev apart.addr_data,
              ==_refl v.pci.pci_addr_dev,
              ==_ne v.pci.pci_addr_dev v.pci.pci_mmio_dev (λ e. apart.mmio_addr (sym e)),
              none_there,
            )
            refl;
      head = refl;
      dev_num = rw none_there refl;
    }

    module _ (ports : HasPorts v) where
      ports-IsBus : IsBus v.store v.io_bus (port_devices v)
      ports-IsBus = record {
        chain = (
          ports.head,
          apart.serial_null,
          rw
              (
                ==_ne v.serial_dev v.pci.pci_bus_dev apart.serial_data,
                ==_ne v.serial_dev v.pci.pci_addr_dev apart.serial_addr,
              )
              refl,
          (
            ap (λ d. d.next) ports.uart,
            apart.data_null,
            rw (==_ne v.pci.pci_bus_dev v.pci.pci_addr_dev (λ e. apart.addr_data (sym e))) refl,
            (
              ap (λ d. d.next) ports.data_port,
              apart.addr_null,
              refl,
              ap (λ d. d.next) ports.addr_port,
            ),
          ),
        );
        counted = rw ports.dev_num (omega arith);
        small = rw ports.dev_num (omega arith);
      }

      ports-AllFit : AllFit v.store (port_devices v)
      ports-AllFit = rw (ports.uart, ports.data_port, ports.addr_port) (omega arith)

      -- what the lookup makes of an access
      pub bus_handle_io-port_map :
          (addr size : ℕ)
          → 0 < size
          → size < 256
          → bus_handle_io (suc v.io_bus.dev_num) v.store v.io_bus addr size
            ≡ some (port_map v addr size)
      unfolding port_map
      bus_handle_io-port_map addr size pos small =
          bus_handle_io-route (suc v.io_bus.dev_num) v.store v.io_bus (port_devices v) addr size
            ports-IsBus ports-AllFit (rw ports.dev_num (omega arith)) pos small
          ∙ rw (ports.uart, ports.data_port, ports.addr_port) (ground arith)

initialised :
    {W : Type 0} (zeroed : BlkDev) (v : Vm W)
    → IsLaidOut v
    → v.io_bus ≡ bus_init
    → (addr size : ℕ) → 0 < size
    → size < 256
    → let w = init_devices zeroed v in
      bus_handle_io (suc w.io_bus.dev_num) w.store w.io_bus addr size ≡ some (port_map v addr size)
unfolding init_devices pci_init serial_init port_map
initialised zeroed v apart none_there addr size pos small =
    bus_handle_io-port_map (init_devices zeroed v)
      (record {
        serial_null = apart.serial_null;
        addr_null = apart.addr_null;
        data_null = apart.data_null;
        serial_addr = apart.serial_addr;
        serial_data = apart.serial_data;
        addr_data = apart.addr_data;
        mmio_addr = apart.mmio_addr;
        mmio_data = apart.mmio_data;
      })
      (init_devices-HasPorts v apart zeroed none_there) addr size pos small

-- After `vm_arch_init_platform_device` on an empty bus, an access of the guest of 1 to 255 bytes to
-- the ports calls exactly one handler, or none: that of the UART, of the data port or of the address
-- port of PCI, if all the bytes of the access are among the ports of one of these, with the offset
-- from its first port.
pub vm_arch_init_platform_device-port_map :
    {W : Type 0} (zeroed : BlkDev) (v v' : Vm W) (u : Unit) (addr size : ℕ)
    → IsLaidOut v
    → v.io_bus ≡ bus_init
    → vm_arch_init_platform_device zeroed v ≡ (v', some u)
    → 0 < size
    → size < 256
    → bus_handle_io (suc v'.io_bus.dev_num) v'.store v'.io_bus addr size
      ≡ some (port_map v addr size)
unfolding vm_arch_init_platform_device
vm_arch_init_platform_device-port_map zeroed v v' u addr size apart none_there e pos small =
    subst
      (λ (w : Vm _).
        bus_handle_io (suc w.io_bus.dev_num) w.store w.io_bus addr size
        ≡ some (port_map v addr size))
      (ap (λ r. r.0) e) (initialised zeroed v apart none_there addr size pos small)
