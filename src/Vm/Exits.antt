-- ===== src/Vm/Exits.antt =====
-- Which ports the loop of `vm_handle_io` in src/vm.c accesses.
use kvm_host.Common.{
  ℕ, zero, suc, ◌+◌, ◌*◌, ◌%◌, ◌^◌, ◌<◌, ◌≡◌, ◌∙◌, ap, refl, Option, some, arith, ◌>>=◌, >>=_ext,
}
use kvm_host.Vm.{Io, io_loop, vm_handle_io}

module _ {S : Type 0} (access : ℕ → ℕ → S → Option S) where
  -- what the bus makes of the accesses at `port + i * size` for `i` from `from` on, in that order
  pub in_order : ℕ → ℕ → ℕ → ℕ → S → Option S
  in_order zero from port size s = some s
  in_order (suc n) from port size s = do
    s' ← access ((port + from * size) % 2 ^ 64) size s
    in_order n (from + 1) port size s'

  io_loop-in_order :
      (n from port size : ℕ) (s : S)
      → io_loop access n ((port + from * size) % 2 ^ 64) size s ≡ in_order n from port size s
  unfolding io_loop in_order
  io_loop-in_order zero from port size s = refl
  io_loop-in_order (suc n) from port size s =
      let next : ((port + from * size) % 2 ^ 64 + size) % 2 ^ 64
          ≡ (port + (from + 1) * size) % 2 ^ 64 =
        grind arith in
      >>=_ext (access ((port + from * size) % 2 ^ 64) size s)
        (λ s'. rw next (io_loop-in_order n (from + 1) port size s'))

  -- vm_handle_io makes its `count` accesses in order, the i-th one at `port + i * size` modulo 2^64,
  -- and stops at the first one that does not return.
  pub vm_handle_io-in_order :
      (io : Io) (s : S)
      → io.port < 2 ^ 64
      → vm_handle_io access io s ≡ in_order io.count 0 io.port io.size s
  unfolding vm_handle_io
  vm_handle_io-in_order io s small =
      let first : io.port ≡ (io.port + 0 * io.size) % 2 ^ 64 = omega arith in
      ap (λ a. io_loop access io.count a io.size s) first
      ∙ io_loop-in_order io.count 0 io.port io.size s
