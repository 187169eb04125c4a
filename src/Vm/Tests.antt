-- ===== src/Vm/Tests.antt =====
-- A string access to a port with src/vm.c.
use kvm_host.Common.{ℕ, ◌≡◌, refl, Option, some, List, [], ◌∷◌}
use kvm_host.Vm.{Io, vm_handle_io}

-- a bus that only notes the addresses, latest first
abbrev note_access : ℕ → ℕ → List ℕ → Option (List ℕ)
note_access addr size seen = some (addr ∷ seen)

abbrev io : Io
io = record { port = 0x3f8; size = 2; count = 3 }

three_ports : vm_handle_io note_access io [] ≡ some (0x3fc ∷ 0x3fa ∷ 0x3f8 ∷ [])
unfolding vm_handle_io
three_ports = refl
