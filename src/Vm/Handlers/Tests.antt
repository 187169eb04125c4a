-- ===== src/Vm/Handlers/Tests.antt =====
-- A guest of the x86 machine reads the device id of the block device through the two ports.
use kvm_host.Common.{
  ℕ, ◌≡◌, refl, List, true, false, Option, some, none, [], ◌∷◌, ◌==◌, if◌then◌else◌, ◌>>=◌, arith,
  replicate,
}
use kvm_host.Bus.{Ptr, IoFn, Dev, Store}
use kvm_host.Bus.Chain.{IsBus}
use kvm_host.Virtq.{VirtqOps}
use kvm_host.VirtioPci.{VirtioPciDev}
use kvm_host.Pci.{pci_config_do_io}
use kvm_host.Serial.{serial_dev_priv}
use kvm_host.Vm.Run.{vm_run}
use kvm_host.Vm.Setup.{Vm}
use kvm_host.Vm.Example
use kvm_host.Vm.Handlers.{Host, Data, Which, which, config_access}
use kvm_host.Vm.Handlers.Config.{
  config_cycle, addressed, port_access, memory_access, vm_run-config_cycle,
}
use kvm_host.X86.Ports.{IsLaidOut, HasPorts}

abbrev range : ℕ → ℕ → Ptr → IoFn → Ptr → Dev
range base len owner do_io next = record {
  base = base;
  len = len;
  owner = owner;
  do_io = do_io;
  next = next;
}

-- the UART at 7, the two ports of PCI at 3 and 4, and the block device at 20
abbrev store : Store
store a =
    if a == 7
    then range 0x3f8 8 6 IoFn.serial_handle_io 3
    else if a == 3
    then range 0xcfc 4 2 IoFn.pci_data_io 4
    else if a == 4
    then range 0xcf8 4 2 IoFn.pci_address_io 0
    else range 0 256 100 IoFn.pci_config_do_io 0

abbrev host : Host Unit
host = record { uart = serial_dev_priv; wakeups = 0; answer = []; outside = tt }

abbrev blk : VirtioPciDev
blk = record Example.dev {
  pci_dev = record Example.pci_dev { hdr = 0xf4 ∷ 0x1a ∷ 0x42 ∷ 0x10 ∷ replicate 252 0 };
}

abbrev machine : Vm (Host Unit)
machine =
    let v = Example.vm host in
    record v {
      store = store;
      io_bus = record { dev_num = 3; head = 7 };
      pci = record v.pci { pci_bus = record { dev_num = 1; head = 20 } };
      virtio_blk_dev = record v.virtio_blk_dev { virtio_pci_dev = blk };
    }

-- no queue is notified
abbrev ops : Which → ℕ → VirtqOps (VirtioPciDev × Vm (Host Unit))
ops w n = record { complete_request = λ s. some s; enable_vq = λ s. some s; notify_used = λ s. s }

abbrev event_flags : Which → ℕ → VirtioPciDev × Vm (Host Unit) → ℕ
event_flags w n s = 0

machine-IsLaidOut : IsLaidOut machine
machine-IsLaidOut = record {
  serial_null = omega arith;
  addr_null = omega arith;
  data_null = omega arith;
  serial_addr = omega arith;
  serial_data = omega arith;
  addr_data = omega arith;
  mmio_addr = omega arith;
  mmio_data = omega arith;
}

machine-HasPorts : HasPorts machine
machine-HasPorts = record {
  uart = refl;
  data_port = refl;
  addr_port = refl;
  head = refl;
  dev_num = refl;
}

pci_bus-IsBus : IsBus store machine.pci.pci_bus (20 ∷ [])
pci_bus-IsBus = record {
  chain = (refl, omega arith, refl, refl);
  counted = omega arith;
  small = omega arith;
}

-- two bytes of a read, which are zeros before it
abbrev read_data : Data
read_data = record { is_write = false; bytes = 0 ∷ 0 ∷ [] }

vm_run-config_cycle_example :
    vm_run
      (port_access ops event_flags)
      (memory_access ops event_flags)
      (config_cycle 0 0 2 2 read_data)
      machine
    ≡ (do v' ← config_access Which.blk read_data 2 2 (addressed 0 0 machine); some (v', true))
unfolding which
vm_run-config_cycle_example =
    vm_run-config_cycle ops event_flags machine (20 ∷ []) 0 0 2 2 read_data Which.blk
      machine-IsLaidOut machine-HasPorts pci_bus-IsBus (refl, refl, refl, tt) (omega arith)
      (omega arith) (omega arith) (omega arith) (omega arith) refl

-- the guest has read the device id
abbrev answer_of : Option (Vm (Host Unit)) → Option (List ℕ)
answer_of none = none
answer_of (some v) = some v.world.answer

config_access_device_id :
    answer_of (config_access Which.blk read_data 2 2 machine) ≡ some (0x42 ∷ 0x10 ∷ [])
unfolding config_access pci_config_do_io
config_access_device_id = refl
