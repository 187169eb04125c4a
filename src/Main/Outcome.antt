-- ===== src/Main/Outcome.antt =====
-- How the program of src/main.c ends, against the list of its tasks.
use Prim.Native.String.{String}
use kvm_host.Common.{
  ℕ, Bool, true, false, Option, some, none, List, [], ◌∷◌, ◌≡◌, refl, sym, ap, ◌∙◌, ◌>>=◌,
}
use kvm_host.Common.Effects.{
  Eff, pure, fail, ignore, continue, continue-continue, continue-pure, continue_ext,
}
use kvm_host.Bus.{Call}
use kvm_host.VirtioNet.Setup.{NetDev}
use kvm_host.Vm.Setup.{
  Vm, Sys, Arch, on_world, loaded, vm_init, vm_load_image, vm_load_initrd, vm_load_diskimg,
  vm_enable_net, vm_exit,
}
use kvm_host.Vm.Run.{Exit, io_access, mmio_access}
use kvm_host.Vm.Loop.{ending, accesses, serve_all, with_result, vm_run-serve_all}
use kvm_host.Main.{Opt, Files, Status, options, no_files}
use kvm_host.Main.Terminal.{set_input_mode}
use kvm_host.Main.Status.{returned}
use kvm_host.Main.Program.{if_given, load_kernel, after_kernel, set_up, after_run, run_if, main}

-- what the program does with its files before the vCPU runs
pub data Task : Type 0 where
  initialise : Task
  no_kernel : Task
  image : String → Task
  ramdisk : String → Task
  diskimg : String → Task
  network : Task
  late : Task

pub kernel_task : Option String → Task
kernel_task none = no_kernel
kernel_task (some path) = image path

pub task_if : (String → Task) → Option String → List Task → List Task
task_if task none rest = rest
task_if task (some path) rest = task path ∷ rest

-- the tasks behind the kernel
pub later_tasks : Files → List Task
later_tasks f = task_if ramdisk f.initrd_file (task_if diskimg f.diskimg_file (network ∷ late ∷ []))

pub tasks : Files → List Task
tasks f = initialise ∷ kernel_task f.kernel_file ∷ later_tasks f

module _ {W : Type 0} (sys : Sys W) (arch : Arch W) (zeroed : NetDev) where
  -- a file that cannot be opened is no failure, and nothing is loaded
  abbrev read_into : (List ℕ → Eff (Vm W) Unit) → Vm W × Option (List ℕ) → Vm W × Option {0} Unit
  read_into load (v, none) = (v, some tt)
  read_into load (v, some bytes) = load bytes v

  pub carry_out : Task → Eff (Vm W) Unit
  carry_out initialise v = vm_init sys arch v
  carry_out no_kernel v = fail v
  carry_out (image path) v = read_into arch.vm_arch_load_image (on_world (sys.open_file path) v)
  carry_out (ramdisk path) v = read_into arch.vm_arch_load_initrd (on_world (sys.open_file path) v)
  carry_out (diskimg path) v = vm_load_diskimg sys arch path v
  carry_out network v = ignore (vm_enable_net sys arch zeroed) v
  carry_out late v = arch.late_init v

  -- the tasks in order, up to the first that fails
  pub carry_out_all : List Task → Eff (Vm W) Unit
  carry_out_all [] v = pure tt v
  carry_out_all (task ∷ rest) v = continue (λ _. carry_out_all rest) (carry_out task v)

  loaded-read_into :
      (load : List ℕ → Eff (Vm W) Unit) (r : Vm W × Option (List ℕ))
      → continue (λ _. pure tt) (loaded load r) ≡ read_into load r
  loaded-read_into load (v, none) = refl
  loaded-read_into load (v, some bytes) =
      continue-continue (λ _. pure 0) (λ _. pure tt) (load bytes v) ∙ continue-pure (load bytes v)

  kernel_lem :
      (file : Option String) (rest : Eff (Vm W) Unit) (later : List Task)
      → ((v : Vm W) → rest v ≡ carry_out_all later v)
      → (v : Vm W)
      → continue (λ _. rest) (load_kernel sys arch zeroed file v)
        ≡ carry_out_all (kernel_task file ∷ later) v
  unfolding load_kernel vm_load_image kernel_task carry_out carry_out_all
  kernel_lem none rest later same v = refl
  kernel_lem (some path) rest later same v =
      ap (continue (λ _. rest))
        (loaded-read_into arch.vm_arch_load_image (on_world (sys.open_file path) v))
      ∙ continue_ext (λ _. same) (carry_out (image path) v)

  if_lem :
      {A : Type 0} (load : String → Eff (Vm W) A) (task : String → Task)
      → ((path : String) (v : Vm W)
          → continue (λ _. pure tt) (load path v) ≡ carry_out (task path) v)
      → (file : Option String) (rest : Eff (Vm W) Unit) (later : List Task)
      → ((v : Vm W) → rest v ≡ carry_out_all later v)
      → (v : Vm W)
      → continue (λ _. rest) (if_given sys arch zeroed load file v)
        ≡ carry_out_all (task_if task file later) v
  unfolding task_if carry_out_all
  if_lem load task alike none rest later same v = same v
  if_lem load task alike (some path) rest later same v =
      ap (continue (λ _. rest)) (alike path v) ∙ continue_ext (λ _. same) (carry_out (task path) v)

  last_lem :
      (v : Vm W)
      → continue (λ _. arch.late_init) (ignore (vm_enable_net sys arch zeroed) v)
        ≡ carry_out_all (network ∷ late ∷ []) v
  unfolding carry_out carry_out_all
  last_lem v = sym (continue-pure (arch.late_init (vm_enable_net sys arch zeroed v).0))

  after_kernel-carry_out_all :
      (f : Files) (v : Vm W) → after_kernel sys arch zeroed f v ≡ carry_out_all (later_tasks f) v
  unfolding later_tasks after_kernel vm_load_initrd carry_out
  after_kernel-carry_out_all f =
      if_lem (vm_load_initrd sys arch) ramdisk
        (λ path v. loaded-read_into arch.vm_arch_load_initrd (on_world (sys.open_file path) v))
        f.initrd_file _ (task_if diskimg f.diskimg_file (network ∷ late ∷ []))
        (if_lem (vm_load_diskimg sys arch) diskimg
          (λ path v. continue-pure (vm_load_diskimg sys arch path v)) f.diskimg_file _
          (network ∷ late ∷ []) last_lem)

  set_up-carry_out_all :
      (f : Files) (v : Vm W) → set_up sys arch zeroed f v ≡ carry_out_all (tasks f) v
  unfolding set_up tasks carry_out carry_out_all
  set_up-carry_out_all f v =
      continue_ext
        (λ _.
          kernel_lem f.kernel_file (after_kernel sys arch zeroed f) (later_tasks f)
            (after_kernel-carry_out_all f))
        (vm_init sys arch v)

  module _ {D : Type 0} (handle : D → Option Call → ℕ → Vm W → Option (Vm W))
      (exits : List (Exit D)) where
    -- what is left of the machine when the run has ended
    abbrev pub released : Option Bool → Vm W → Option (Vm W × Status)
    released none v = none
    released (some ok) v = some (vm_exit sys arch v, returned true)

    after_run-released :
        (m : Option (Vm W)) (end : Option Bool)
        → after_run sys arch zeroed handle exits
            (m >>= with_result (io_access handle) (mmio_access handle) end)
          ≡ (m >>= released end)
    after_run-released none end = refl
    after_run-released (some v) none = refl
    after_run-released (some v) (some ok) = refl

    -- a failing task is reported; otherwise the accesses in front of the exit that ends the run are
    -- served
    abbrev pub ended : Vm W × Option {0} Unit → Option (Vm W × Status)
    ended (v, none) = some (v, returned false)
    ended (v, some u) =
        serve_all (io_access handle) (mmio_access handle) (accesses exits) v
        >>= released (ending exits)

    run_if-ended : (r : Vm W × Option Unit) → run_if sys arch zeroed handle exits r ≡ ended r
    run_if-ended (v, none) = refl
    run_if-ended (v, some u) =
        ap (after_run sys arch zeroed handle exits)
          (vm_run-serve_all (io_access handle) (mmio_access handle) exits v)
        ∙ after_run-released (serve_all (io_access handle) (mmio_access handle) (accesses exits) v)
            (ending exits)

    -- Without -h and with a terminal, the program performs the tasks of its files in order, and
    -- returns -1 at the first that fails. A kernel or initrd file that cannot be opened and a
    -- network that cannot be enabled are no failures. Behind the last task the accesses in front of
    -- the first exit that ends the run are served in order, and the program returns 0, whatever
    -- that exit was; without such an exit it does not return.
    pub main-ended :
        (opts : List Opt) (f : Files) (v v' : Vm W) (u : Unit)
        → options opts no_files ≡ some f
        → on_world (set_input_mode sys) v ≡ (v', some u)
        → main sys arch zeroed handle exits opts v ≡ ended (carry_out_all (tasks f) v')
    unfolding main
    main-ended opts f v v' u files terminal =
        rw (files, terminal)
          (run_if-ended (set_up sys arch zeroed f v') ∙ ap ended (set_up-carry_out_all f v'))
