-- ===== src/Vm/Run.antt =====
-- `vm_run` of src/vm.c: what the vCPU exits with, in order, and what the loop makes of it. `D` is the
-- direction and the data of an access as KVM leaves them in `struct kvm_run`, whose mapping is not
-- modelled.
use kvm_host.Common.{ℕ, suc, Bool, true, false, Option, some, none, List, [], ◌∷◌, ◌>>=◌}
use kvm_host.Bus.{Bus, Call, bus_handle_io}
use kvm_host.Vm.{Io, vm_handle_io}
use kvm_host.Vm.Setup.{Vm}

-- `failed` is a KVM_RUN that fails otherwise than with EINTR or EAGAIN; after those two the loop
-- looks at the exit reason too
pub data Exit (D : Type 0) : Type 0 where
  failed : Exit D
  io : D → Io → Exit D
  mmio : D → ℕ → ℕ → Exit D
  intr : Exit D
  shutdown : Exit D
  other : ℕ → Exit D

module _ {D S : Type 0} (io_access mmio_access : D → ℕ → ℕ → S → Option S) where
  -- one `bus_handle_io` on the bus of the memory
  unfoldable pub vm_handle_mmio : D → ℕ → ℕ → S → Option S
  vm_handle_mmio d addr len s = mmio_access d addr len s

  -- whether 0 is returned; `none` is a loop that does not return, since a handler does not or the
  -- vCPU does not exit any more
  unfoldable pub vm_run : List (Exit D) → S → Option (S × Bool)
  unfolding vm_handle_mmio
  vm_run [] s = none
  vm_run (failed ∷ exits) s = some (s, false)
  vm_run (io d access ∷ exits) s = do s' ← vm_handle_io (io_access d) access s; vm_run exits s'
  vm_run (mmio d addr len ∷ exits) s = do s' ← vm_handle_mmio d addr len s; vm_run exits s'
  vm_run (intr ∷ exits) s = vm_run exits s
  vm_run (shutdown ∷ exits) s = some (s, true)
  vm_run (other reason ∷ exits) s = some (s, false)

-- `handle` is the handlers behind the buses: it takes the call that `bus_handle_io` makes
module _ {W D : Type 0} (handle : D → Option Call → ℕ → Vm W → Option (Vm W)) where
  -- the lookup gets more rounds than the bus has devices
  abbrev on_bus : (Vm W → Bus) → D → ℕ → ℕ → Vm W → Option (Vm W)
  on_bus bus d addr size v = do
    called ← bus_handle_io (suc (bus v).dev_num) v.store (bus v) addr size
    handle d called size v

  abbrev pub io_access : D → ℕ → ℕ → Vm W → Option (Vm W)
  io_access = on_bus (λ v. v.io_bus)

  abbrev pub mmio_access : D → ℕ → ℕ → Vm W → Option (Vm W)
  mmio_access = on_bus (λ v. v.mmio_bus)
