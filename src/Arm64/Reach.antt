-- ===== src/Arm64/Reach.antt =====
-- The memory map of the ARM machine: where an access of the guest to memory arrives.
use kvm_host.Common.{
  ℕ, suc, ◌+◌, ◌-◌, ◌<◌, ◌≡◌, ◌≢◌, refl, sym, ==_refl, ==_ne, false, true, Bool-cases, inl, inr, ap,
  ◌&&◌, Option, some, none, [], ◌∷◌, leb, ltb, if◌then◌else◌, ◌>>=◌, arith,
}
use mathlib.Core.Path.{subst}
use kvm_host.Bus.{null, IoFn, Call, write, bus_init, bus_handle_io, bus_register_dev, dev_init}
use kvm_host.Bus.Chain.{IsBus}
use kvm_host.Bus.Dispatch.{AllFit, route, bus_handle_io-route}
use kvm_host.Pci.Setup.{pci_init}
use kvm_host.Vm.Setup.{Vm}
use kvm_host.Vm.Platform.{within, serial_init}
use kvm_host.Arm64.{Kvm, Machine}
use kvm_host.Arm64.Platform.{pio_handler, init_devices, vm_arch_init_platform_device}

-- the two tests of the bus, in one
within_lem :
    {X : Type 0} (base len addr size : ℕ) (inside outside : X)
    → 0 < size
    → (if leb base addr && ltb addr (base + len)
        then (if leb (addr + size) (base + len) then inside else outside)
        else outside)
      ≡ (if within base len addr size then inside else outside)
within_lem base len addr size inside outside pos = ground arith

module _ {W : Type 0} where
  -- the call that is left when the bridge has handed an access on
  pub through : Vm W → ℕ → Option Call → Option (Option Call)
  through v size none = some none
  through v size (some call) = elim call.fn [
    | IoFn.serial_handle_io ↦ some (some call)
    | IoFn.pci_address_io ↦ some (some call)
    | IoFn.pci_data_io ↦ some (some call)
    | IoFn.pci_mmio_io ↦ some (some call)
    | IoFn.pci_config_do_io ↦ some (some call)
    | IoFn.virtio_pci_space_io ↦ some (some call)
    | IoFn.pio_handler ↦ pio_handler v call.offset size
  ]

  pub reach : Vm W → ℕ → ℕ → Option (Option Call)
  reach v addr size =
      bus_handle_io (suc v.mmio_bus.dev_num) v.store v.mmio_bus addr size >>= through v size

  -- the addresses of the devices are different objects of one `vm_t`
  pub record IsLaidOut (v : Vm W) : Type 0 where
    pub iodev_null : v.iodev ≢ null
    pub serial_null : v.serial_dev ≢ null
    pub mmio_null : v.pci.pci_mmio_dev ≢ null
    pub io_serial : v.iodev ≢ v.serial_dev
    pub io_mmio : v.iodev ≢ v.pci.pci_mmio_dev
    pub io_addr : v.iodev ≢ v.pci.pci_addr_dev
    pub io_data : v.iodev ≢ v.pci.pci_bus_dev
    pub serial_mmio : v.serial_dev ≢ v.pci.pci_mmio_dev

  -- COM1 lies in the range of the ports at the bottom, and the configuration space of PCI at 1 GB
  pub memory_map : Vm W → ℕ → ℕ → Option Call
  memory_map v addr size =
      if within 0x3f8 8 addr size
      then some record { fn = IoFn.serial_handle_io; owner = v.serial; offset = addr - 0x3f8 }
      else if within 0x40000000 0x10000 addr size
      then some record { fn = IoFn.pci_mmio_io; owner = v.pci.self; offset = addr - 0x40000000 }
      else none

  -- how the machine stands when the devices are on its buses
  record IsReady (v w : Vm W) : Type 0 where
    iodev :
        w.store v.iodev
        ≡ record { base = 0; len = 0x10000; owner = v.self; do_io = IoFn.pio_handler; next = null }
    mmio : w.store v.pci.pci_mmio_dev ≡ record {
      base = 0x40000000;
      len = 0x10000;
      owner = v.pci.self;
      do_io = IoFn.pci_mmio_io;
      next = v.iodev;
    }
    uart : w.store v.serial_dev ≡ record {
      base = 0x3f8;
      len = 8;
      owner = v.serial;
      do_io = IoFn.serial_handle_io;
      next = null;
    }
    mmio_bus : w.mmio_bus ≡ record { dev_num = 2; head = v.pci.pci_mmio_dev }
    io_bus : w.io_bus ≡ record { dev_num = 1; head = v.serial_dev }

  init_devices-IsReady :
      (v : Vm W) (k : W)
      → IsLaidOut v
      → v.mmio_bus ≡ bus_init
      → v.io_bus ≡ bus_init
      → IsReady v (record (init_devices v) { world = k })
  unfolding init_devices pci_init serial_init bus_register_dev dev_init write
  init_devices-IsReady v k apart no_mmio no_io = record {
    iodev =
        rw
          (
            ==_ne v.iodev v.serial_dev apart.io_serial,
            ==_ne v.iodev v.pci.pci_mmio_dev apart.io_mmio,
            ==_ne v.iodev v.pci.pci_bus_dev apart.io_data,
            ==_ne v.iodev v.pci.pci_addr_dev apart.io_addr,
            ==_refl v.iodev,
            no_mmio,
          )
          refl;
    mmio =
        rw
          (
            ==_ne v.pci.pci_mmio_dev v.serial_dev (λ e. apart.serial_mmio (sym e)),
            ==_refl v.pci.pci_mmio_dev,
          )
          refl;
    uart = rw (==_refl v.serial_dev, no_io) refl;
    mmio_bus = rw no_mmio refl;
    io_bus = rw no_io refl;
  }

  module _ (v w : Vm W) (apart : IsLaidOut v) (ready : IsReady v w) where
    mmio-IsBus : IsBus w.store w.mmio_bus (v.pci.pci_mmio_dev ∷ v.iodev ∷ [])
    mmio-IsBus = rw ready.mmio_bus record {
      chain = (
        refl,
        apart.mmio_null,
        rw (==_ne v.pci.pci_mmio_dev v.iodev (λ e. apart.io_mmio (sym e))) refl,
        (ap (λ d. d.next) ready.mmio, apart.iodev_null, refl, ap (λ d. d.next) ready.iodev),
      );
      counted = omega arith;
      small = omega arith;
    }

    io-IsBus : IsBus w.store w.io_bus (v.serial_dev ∷ [])
    io-IsBus = rw ready.io_bus record {
      chain = (refl, apart.serial_null, refl, ap (λ d. d.next) ready.uart);
      counted = omega arith;
      small = omega arith;
    }

    mmio-AllFit : AllFit w.store (v.pci.pci_mmio_dev ∷ v.iodev ∷ [])
    mmio-AllFit = rw (ready.mmio, ready.iodev) (omega arith)

    io-AllFit : AllFit w.store (v.serial_dev ∷ [])
    io-AllFit = rw ready.uart (omega arith)

    pio_handler-route :
        (offset size : ℕ)
        → 0 < size
        → size < 256
        → pio_handler w offset size ≡ some (route w.store (v.serial_dev ∷ []) offset size)
    unfolding pio_handler
    pio_handler-route offset size pos small =
        bus_handle_io-route (suc w.io_bus.dev_num) w.store w.io_bus (v.serial_dev ∷ []) offset size
          io-IsBus io-AllFit (rw ready.io_bus (omega arith)) pos small

    through-route :
        (addr size : ℕ)
        → 0 < size
        → size < 256
        → through w size (route w.store (v.pci.pci_mmio_dev ∷ v.iodev ∷ []) addr size)
          ≡ some (memory_map v addr size)
    unfolding through memory_map
    through-route addr size pos small =
        rw (ready.mmio, ready.iodev)
          elim (Bool-cases (leb 0x40000000 addr && ltb addr 0x40010000)) [
            | inl pci ↦
                let no_port : within 0x3f8 8 addr size ≡ false = ground arith in
                elim (Bool-cases (leb (addr + size) 0x40010000)) [
                  | inl whole ↦
                      let inside : within 0x40000000 0x10000 addr size ≡ true = ground arith in
                      rw (no_port, inside, pci, whole) refl
                  | inr over ↦
                      let outside : within 0x40000000 0x10000 addr size ≡ false = ground arith in
                      rw (no_port, outside, pci, over) refl
                ]
            | inr no_pci ↦
                let outside : within 0x40000000 0x10000 addr size ≡ false = ground arith in
                elim (Bool-cases (leb 0 addr && ltb addr 65536)) [
                  | inl port ↦
                      let zero_offset : addr - 0 ≡ addr = omega arith in
                      let serial : Call = record {
                        fn = IoFn.serial_handle_io;
                        owner = v.serial;
                        offset = addr - 0x3f8;
                      } in
                      elim (Bool-cases (leb (addr + size) 65536)) [
                        | inl whole ↦
                            rw
                              (
                                outside,
                                no_pci,
                                port,
                                whole,
                                zero_offset,
                                pio_handler-route addr size pos small,
                                ready.uart,
                              )
                              (ap some (within_lem 0x3f8 8 addr size (some serial) none pos))
                        | inr over ↦
                            let no_port : within 0x3f8 8 addr size ≡ false = ground arith in
                            rw (no_port, outside, no_pci, port, over) refl
                      ]
                  | inr no_port ↦
                      let no_com : within 0x3f8 8 addr size ≡ false = ground arith in
                      rw (no_com, outside, no_pci, no_port) refl
                ]
          ]

    reach-memory_map :
        (addr size : ℕ) → 0 < size → size < 256 → reach w addr size ≡ some (memory_map v addr size)
    unfolding reach
    reach-memory_map addr size pos small =
        rw
          (bus_handle_io-route (suc w.mmio_bus.dev_num) w.store w.mmio_bus
            (v.pci.pci_mmio_dev ∷ v.iodev ∷ []) addr size mmio-IsBus mmio-AllFit
            (rw ready.mmio_bus (omega arith)) pos small)
          (through-route addr size pos small)

-- When `vm_arch_init_platform_device` succeeds on empty buses, an access of the guest to memory of 1
-- to 255 bytes calls exactly the handler of the memory map: that of the UART if all its bytes are
-- among the ports of COM1, which the bridge hands on, that of the PCI configuration space if all are
-- in its 64 KiB, and else none.
pub vm_arch_init_platform_device-memory_map :
    {K : Type 0} (kvm : Kvm K) (v v' : Vm (Machine K)) (u : Unit) (addr size : ℕ)
    → IsLaidOut v
    → v.mmio_bus ≡ bus_init
    → v.io_bus ≡ bus_init
    → vm_arch_init_platform_device kvm v ≡ (v', some u)
    → 0 < size
    → size < 256
    → reach v' addr size ≡ some (memory_map v addr size)
unfolding vm_arch_init_platform_device
vm_arch_init_platform_device-memory_map kvm v v' u addr size apart no_mmio no_io e pos small =
    let ready : IsReady v v' =
      subst (IsReady v) (ap (λ r. r.0) e) (init_devices-IsReady v _ apart no_mmio no_io) in
    reach-memory_map v v' apart ready addr size pos small
