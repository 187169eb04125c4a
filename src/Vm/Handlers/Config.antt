-- ===== src/Vm/Handlers/Config.antt =====
-- A guest that reads or writes the configuration space of a PCI device through the two ports, as
-- src/vm.c, src/bus.c and src/pci.c serve it together.
use kvm_host.Common.{
  ℕ, suc, ◌+◌, ◌-◌, ◌*◌, ◌%◌, ◌^◌, ◌<◌, ◌≤◌, ◌≡◌, refl, ◌∙◌, true, Option, some, none, List, [],
  ◌∷◌, length, ◌>>=◌, arith,
}
use kvm_host.Common.Bytes.{le_bytes}
use kvm_host.Bus.{Ptr, IoFn, Call}
use kvm_host.Bus.Chain.{IsBus}
use kvm_host.Virtq.{VirtqOps}
use kvm_host.VirtioPci.{VirtioPciDev}
use kvm_host.Pci.Ports.{pci_address_io, pci_data_io}
use kvm_host.Pci.Address.{Numbered, device_at, pci_data_io-device}
use kvm_host.Vm.{io_loop, vm_handle_io}
use kvm_host.Vm.Setup.{Vm}
use kvm_host.Vm.Run
use kvm_host.Vm.Run.{Exit, vm_run, vm_handle_mmio}
use kvm_host.Vm.Handlers.{
  Host, Data, Which, which, answered, address_access, config_access, dispatch, handle,
}
use kvm_host.X86.Ports.{IsLaidOut, HasPorts, port_map, bus_handle_io-port_map}

-- the address of register `reg` of device `n`, with the enable bit
abbrev pub config_addr : ℕ → ℕ → ℕ
config_addr n reg = 2 ^ 31 + n * 2048 + reg

abbrev pub address_data : ℕ → ℕ → Data
address_data n reg = record { is_write = true; bytes = le_bytes 4 (config_addr n reg) }

-- the guest writes the address to 0xcf8 and accesses 0xcfc at byte `k`, before it shuts down
abbrev pub config_cycle : ℕ → ℕ → ℕ → ℕ → Data → List (Exit Data)
config_cycle n reg k size d =
    Exit.io (address_data n reg) (record { port = 0xcf8; size = 4; count = 1 })
    ∷ Exit.io d (record { port = 0xcfc + k; size = size; count = 1 })
    ∷ Exit.shutdown
    ∷ []

-- the loop of `vm_handle_io` behind its only round
one_access :
    {S T : Type 0} (o : Option S) (f : S → Option T) → ((o >>= λ s. some s) >>= f) ≡ (o >>= f)
one_access none f = refl
one_access (some s) f = refl

module _ {X : Type 0} where
  -- the machine after the first of the two accesses
  abbrev pub addressed : ℕ → ℕ → Vm (Host X) → Vm (Host X)
  addressed n reg v =
      answered (le_bytes 4 (config_addr n reg))
        (record v { pci = (pci_address_io v.pci (le_bytes 4 (config_addr n reg)) true 0 4).0 })

  addressed-HasPorts : (n reg : ℕ) (v : Vm (Host X)) → HasPorts v → HasPorts (addressed n reg v)
  unfolding pci_address_io
  addressed-HasPorts n reg v ports = record {
    uart = ports.uart;
    data_port = ports.data_port;
    addr_port = ports.addr_port;
    head = ports.head;
    dev_num = ports.dev_num;
  }

  addressed-IsLaidOut : (n reg : ℕ) (v : Vm (Host X)) → IsLaidOut v → IsLaidOut (addressed n reg v)
  unfolding pci_address_io
  addressed-IsLaidOut n reg v apart = record {
    serial_null = apart.serial_null;
    addr_null = apart.addr_null;
    data_null = apart.data_null;
    serial_addr = apart.serial_addr;
    serial_data = apart.serial_data;
    addr_data = apart.addr_data;
    mmio_addr = apart.mmio_addr;
    mmio_data = apart.mmio_data;
  }

  port_map-address :
      (v : Vm (Host X))
      → port_map v 0xcf8 4
        ≡ some record { fn = IoFn.pci_address_io; owner = v.pci.self; offset = 0 }
  unfolding port_map
  port_map-address v = refl

  port_map-data :
      (v : Vm (Host X)) (k size : ℕ)
      → 0 < size
      → k + size ≤ 4
      → port_map v (0xcfc + k) size
        ≡ some record { fn = IoFn.pci_data_io; owner = v.pci.self; offset = k }
  unfolding port_map
  port_map-data v k size pos fits =
      let off : 0xcfc + k - 0xcfc ≡ k = omega arith in rw off (ground arith)

  module _ (ops : Which → ℕ → VirtqOps (VirtioPciDev × Vm (Host X)))
      (event_flags : Which → ℕ → VirtioPciDev × Vm (Host X) → ℕ) where
    abbrev pub port_access : Data → ℕ → ℕ → Vm (Host X) → Option (Vm (Host X))
    port_access = Run.io_access (handle ops event_flags 2)

    abbrev pub memory_access : Data → ℕ → ℕ → Vm (Host X) → Option (Vm (Host X))
    memory_access = Run.mmio_access (handle ops event_flags 2)

    address_step :
        (v : Vm (Host X)) (n reg : ℕ)
        → IsLaidOut v
        → HasPorts v
        → port_access (address_data n reg) 0xcf8 4 v ≡ some (addressed n reg v)
    unfolding handle dispatch address_access pci_address_io
    address_step v n reg apart ports =
        rw
          (
            bus_handle_io-port_map v apart ports 0xcf8 4 (omega arith) (omega arith),
            port_map-address v,
          )
          refl

    data_step :
        (v : Vm (Host X)) (n reg k size : ℕ) (d : Data) (call : Call)
        → IsLaidOut v
        → HasPorts v
        → 0 < size
        → k + size ≤ 4
        → pci_data_io (suc v.pci.pci_bus.dev_num) v.store v.pci k size ≡ some (some call)
        → port_access d (0xcfc + k) size v
          ≡ dispatch ops event_flags
              (λ called v'. handle ops event_flags 0 d called size v')
              d
              size
              call
              v
    unfolding handle dispatch
    data_step v n reg k size d call apart ports pos fits e =
        rw
          (
            bus_handle_io-port_map v apart ports (0xcfc + k) size pos (omega arith),
            port_map-data v k size pos fits,
            e,
          )
          refl

    config_step :
        (v : Vm (Host X)) (next : Option Call → Vm (Host X) → Option (Vm (Host X))) (d : Data)
        (size : ℕ) (owner : Ptr) (offset : ℕ) (w : Which)
        → which v owner ≡ some w
        → dispatch ops event_flags next d size
            (record { fn = IoFn.pci_config_do_io; owner = owner; offset = offset })
            v
          ≡ config_access w d offset size v
    unfolding dispatch
    config_step v next d size owner offset w e = rw e refl

    -- The guest writes the address of register `reg` of the `n`-th device to the address port and
    -- accesses the data port at byte `k`, on a machine with the ports of x86 whose devices are
    -- numbered, and then shuts down. The loop of `vm_run` leaves the address in the address register,
    -- makes one access to the configuration space of that device, at the register's word and byte
    -- `k`, and returns with success.
    pub vm_run-config_cycle :
        (v : Vm (Host X)) (xs : List Ptr) (n reg k size : ℕ) (d : Data) (w : Which)
        → IsLaidOut v
        → HasPorts v
        → IsBus v.store v.pci.pci_bus xs
        → Numbered v.store xs
        → length xs ≤ 32
        → n < length xs
        → reg < 256
        → 0 < size
        → k + size ≤ 4
        → which v (v.store (device_at xs n)).owner ≡ some w
        → vm_run port_access memory_access (config_cycle n reg k size d) v ≡ (do
          v' ← config_access w d (reg - reg % 4 + k) size (addressed n reg v)
          some (v', true))
    unfolding vm_run vm_handle_io io_loop which pci_address_io
    vm_run-config_cycle v xs n reg k size d w apart ports b ns few lt small pos fits owner =
        let v1 : Vm (Host X) = addressed n reg v in
        let call : Call = record {
          fn = IoFn.pci_config_do_io;
          owner = (v.store (device_at xs n)).owner;
          offset = reg - reg % 4 + k;
        } in
        let found : pci_data_io (suc v1.pci.pci_bus.dev_num) v1.store v1.pci k size
            ≡ some (some call) =
          pci_data_io-device (suc v.pci.pci_bus.dev_num) v.store v.pci xs n reg k size b ns few
            (omega (arith, b.counted)) lt (omega arith) pos (omega arith) (omega arith) in
        let second : port_access d (0xcfc + k) size v1
            ≡ config_access w d (reg - reg % 4 + k) size v1 =
          data_step v1 n reg k size d call (addressed-IsLaidOut n reg v apart)
            (addressed-HasPorts n reg v ports) pos fits found
          ∙ config_step v1 _ d size call.owner call.offset w owner in
        rw (address_step v n reg apart ports, second)
          (one_access (config_access w d (reg - reg % 4 + k) size v1) _)
