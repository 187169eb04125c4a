-- ===== src/Vm/Loop.antt =====
-- `vm_run` of src/vm.c against the accesses that it serves.
use kvm_host.Common.{
  ℕ, Bool, true, false, Option, some, none, List, [], ◌∷◌, ◌≡◌, refl, sym, ◌∙◌, ◌>>=◌, >>=_ext,
  >>=_assoc,
}
use kvm_host.Vm.{Io, vm_handle_io}
use kvm_host.Vm.Run.{Exit, vm_run, vm_handle_mmio}
use kvm_host.Vm.Run.Exit.{failed, io, mmio, intr, shutdown, other}

-- the accesses that the vCPU exits with
pub data Access (D : Type 0) : Type 0 where
  port : D → Io → Access D
  memory : D → ℕ → ℕ → Access D

module _ {D : Type 0} where
  -- how the first exit that ends the loop ends it, if there is one: only a shutdown is a success
  pub ending : List (Exit D) → Option Bool
  ending [] = none
  ending (failed ∷ exits) = some false
  ending (io d access ∷ exits) = ending exits
  ending (mmio d addr len ∷ exits) = ending exits
  ending (intr ∷ exits) = ending exits
  ending (shutdown ∷ exits) = some true
  ending (other reason ∷ exits) = some false

  -- those in front of it
  pub accesses : List (Exit D) → List (Access D)
  accesses [] = []
  accesses (failed ∷ exits) = []
  accesses (io d access ∷ exits) = port d access ∷ accesses exits
  accesses (mmio d addr len ∷ exits) = memory d addr len ∷ accesses exits
  accesses (intr ∷ exits) = accesses exits
  accesses (shutdown ∷ exits) = []
  accesses (other reason ∷ exits) = []

module _ {D S : Type 0} (io_access mmio_access : D → ℕ → ℕ → S → Option S) where
  -- the accesses one behind the other
  pub serve_all : List (Access D) → S → Option S
  serve_all [] s = some s
  serve_all (port d access ∷ rest) s = do
    s' ← vm_handle_io (io_access d) access s
    serve_all rest s'
  serve_all (memory d addr len ∷ rest) s = do s' ← mmio_access d addr len s; serve_all rest s'

  abbrev pub with_result : Option Bool → S → Option (S × Bool)
  with_result none s = none
  with_result (some ok) s = some (s, ok)

  -- the loop serves the accesses in front of the exit that ends it
  pub vm_run-serve_all :
      (exits : List (Exit D)) (s : S)
      → vm_run io_access mmio_access exits s
        ≡ (serve_all (accesses exits) s >>= with_result (ending exits))
  unfolding vm_run vm_handle_mmio accesses ending serve_all
  vm_run-serve_all [] s = refl
  vm_run-serve_all (failed ∷ exits) s = refl
  vm_run-serve_all (io d access ∷ exits) s =
      >>=_ext (vm_handle_io (io_access d) access s) (vm_run-serve_all exits)
      ∙ sym (
          >>=_assoc (vm_handle_io (io_access d) access s) (serve_all (accesses exits))
            (with_result (ending exits)))
  vm_run-serve_all (mmio d addr len ∷ exits) s =
      >>=_ext (mmio_access d addr len s) (vm_run-serve_all exits)
      ∙ sym (
          >>=_assoc (mmio_access d addr len s) (serve_all (accesses exits))
            (with_result (ending exits)))
  vm_run-serve_all (intr ∷ exits) s = vm_run-serve_all exits s
  vm_run-serve_all (shutdown ∷ exits) s = refl
  vm_run-serve_all (other reason ∷ exits) s = refl
