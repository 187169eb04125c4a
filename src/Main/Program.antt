-- ===== src/Main/Program.antt =====
-- `main` of src/main.c behind its options: the order in which the machine is set up, and the run.
use Prim.Native.String.{String}
use kvm_host.Common.{ℕ, Bool, true, false, Option, some, none, List}
use kvm_host.Common.Effects.{Eff, pure, fail, ignore, ◌>>◌}
use kvm_host.Bus.{Call}
use kvm_host.VirtioNet.Setup.{NetDev}
use kvm_host.Vm.Setup.{
  Vm, Sys, Arch, on_world, vm_init, vm_load_image, vm_load_initrd, vm_load_diskimg, vm_enable_net,
  vm_exit,
}
use kvm_host.Vm.Run.{Exit, vm_run, io_access, mmio_access}
use kvm_host.Main.{Opt, Files, Status, options, no_files}
use kvm_host.Main.Terminal.{set_input_mode}
use kvm_host.Main.Status.{returned, exited}

-- `zeroed` is a network device of zeros
module _ {W : Type 0} (sys : Sys W) (arch : Arch W) (zeroed : NetDev) where
  -- `if (file && load(file) < 0)`
  abbrev pub if_given : {A : Type 0} → (String → Eff (Vm W) A) → Option String → Eff (Vm W) Unit
  if_given load none = pure tt
  if_given load (some path) = do load path; pure tt

  -- the kernel is wanted, and 1 as the result of its load is no failure
  unfoldable pub load_kernel : Option String → Eff (Vm W) Unit
  load_kernel none = fail
  load_kernel (some path) = do vm_load_image sys arch path; pure tt

  unfoldable pub after_kernel : Files → Eff (Vm W) Unit
  after_kernel f = do
    if_given (vm_load_initrd sys arch) f.initrd_file
    if_given (vm_load_diskimg sys arch) f.diskimg_file
    ignore (vm_enable_net sys arch zeroed)
    arch.late_init

  -- `main` from `vm_init` to `vm_late_init`
  unfoldable pub set_up : Files → Eff (Vm W) Unit
  unfolding load_kernel after_kernel
  set_up f = do vm_init sys arch; load_kernel f.kernel_file; after_kernel f

  -- `handle` is the handlers behind the buses
  module _ {D : Type 0} (handle : D → Option Call → ℕ → Vm W → Option (Vm W))
      (exits : List (Exit D)) where
    -- `vm_exit` behind `vm_run`, whatever that returned
    abbrev pub after_run : Option (Vm W × Bool) → Option (Vm W × Status)
    after_run none = none
    after_run (some (v, ok)) = some (vm_exit sys arch v, returned true)

    abbrev pub run_if : Vm W × Option {0} Unit → Option (Vm W × Status)
    run_if (v, none) = some (v, returned false)
    run_if (v, some u) = after_run (vm_run (io_access handle) (mmio_access handle) exits v)

    abbrev pub with_terminal : Files → Vm W × Option {0} Unit → Option (Vm W × Status)
    with_terminal f (v, none) = some (v, exited 1)
    with_terminal f (v, some u) = run_if (set_up f v)

    abbrev pub with_files : Vm W → Option Files → Option (Vm W × Status)
    with_files v none = some (v, exited 123)
    with_files v (some f) = with_terminal f (on_world (set_input_mode sys) v)

    unfoldable pub main : List Opt → Vm W → Option (Vm W × Status)
    unfolding options set_up
    main opts v = with_files v (options opts no_files)
