-- ===== src/Vm.antt =====
-- Parts of src/vm.c: guest addresses, and the port and memory accesses that a vCPU exits with.
pub mod Exits
pub mod Setup
pub mod Platform
pub mod Example
pub mod Run
pub mod Loop
pub mod Handlers
mod Tests
use kvm_host.Common.{
  ℕ, zero, suc, ◌+◌, ◌-◌, ◌%◌, ◌^◌, Option, some, none, if◌then◌else◌, ltb, ◌>>=◌,
}

-- RAM_SIZE
abbrev pub ram_size : ℕ
ram_size = 2 ^ 30

-- an offset in `v->mem`, or NULL; `ram_base` is the architecture's RAM_BASE
unfoldable pub vm_guest_to_host : ℕ → ℕ → Option ℕ
vm_guest_to_host ram_base guest = if ltb guest ram_base then none else some (guest - ram_base)

-- `struct kvm_run` as far as an access to a port goes: `count` accesses of `size` bytes
pub record Io : Type 0 where
  pub port : ℕ
  pub size : ℕ
  pub count : ℕ

-- `access addr size` is `bus_handle_io` on the port bus, with the data at `data_offset`
module _ {S : Type 0} (access : ℕ → ℕ → S → Option S) where
  -- `n` rounds are left
  unfoldable pub io_loop : ℕ → ℕ → ℕ → S → Option S
  io_loop zero addr size s = some s
  io_loop (suc n) addr size s = do
    s' ← access addr size s
    io_loop n ((addr + size) % 2 ^ 64) size s'

  unfoldable pub vm_handle_io : Io → S → Option S
  unfolding io_loop
  vm_handle_io io s = io_loop io.count io.port io.size s
