-- ===== src/Main/Tests.antt =====
-- A run of src/main.c on a world that only notes what is asked of it, latest first.
use kvm_host.Common.{ℕ, ◌≡◌, refl, true, Option, some, none, List, [], ◌∷◌}
use kvm_host.Bus.{IoFn, Dev, Store, Call, bus_init}
use kvm_host.Vm.Example.{net, vm}
use kvm_host.Vm.Setup.{Vm, Sys, Arch, on_world}
use kvm_host.Vm.Run.{Exit}
use kvm_host.Main.{Opt, Files, Status, options, no_files}
use kvm_host.Main.Terminal.{set_input_mode}
use kvm_host.Main.Status.{returned}
use kvm_host.Main.Program.{main}
use kvm_host.Main.Outcome.{tasks, carry_out_all, ended, main-ended}

abbrev World : Type 0
World = List ℕ

abbrev notes : ℕ → World → World × Option {0} Unit
notes n w = (n ∷ w, some tt)

abbrev gives : ℕ → World → World × Option ℕ
gives n w = (n ∷ w, some n)

-- no file can be opened, and there is no tap device
abbrev sys : Sys World
sys = record {
  open_kvm = gives 1;
  create_vm = λ fd. gives 2;
  mmap_ram = λ size w. 3 ∷ w;
  set_region = λ fd base size. notes 4;
  create_vcpu = λ fd. gives 5;
  open_file = λ path w. (6 ∷ w, none);
  open_rw = λ path w. (8 ∷ w, none);
  file_size = λ fd w. 0;
  set_tap = λ fd flags name. notes 14;
  get_flags = λ fd w. 0;
  set_flags = λ fd flags. notes 15;
  irqfd = λ fd source gsi flags. notes 16;
  ioeventfd = λ fd source addr len flags. notes 17;
  isatty = λ w. true;
  tcgetattr = λ w. record { c_lflag = 0xb; rest = [] };
  tcsetattr = λ attr w. 9 ∷ w;
  at_exit = λ attr w. 18 ∷ w;
  stop = λ part w. 10 ∷ w;
  join = λ thread w. 11 ∷ w;
  close_file = λ file w. 19 ∷ w;
  close = λ fd w. 12 ∷ w;
  munmap_ram = λ w. 13 ∷ w;
}

abbrev arch : Arch World
arch = record {
  ram_base = 0;
  blk_irq = 15;
  net_irq = 14;
  vm_arch_init = on_world (notes 20);
  vm_arch_cpu_init = on_world (notes 21);
  vm_arch_init_platform_device = on_world (notes 22);
  vm_arch_load_image = λ image. on_world (notes 23);
  vm_arch_load_initrd = λ image. on_world (notes 24);
  late_init = on_world (notes 25);
}

-- an access is noted by its direction and data, here a number
abbrev handle : ℕ → Option Call → ℕ → Vm World → Option (Vm World)
handle d called size v = some (record v { world = d ∷ v.world })

-- an access to a port and one to the memory, an interrupted run, and an unknown exit
abbrev exits : List (Exit ℕ)
exits =
    Exit.io 30 record { port = 0x3f8; size = 1; count = 2 }
    ∷ Exit.intr
    ∷ Exit.mmio 31 4096 4
    ∷ Exit.other 17
    ∷ Exit.mmio 32 4096 4
    ∷ []

abbrev asked : List Opt
asked = Opt.unknown ∷ Opt.kernel "bzImage" ∷ []

abbrev files : Files
files = record no_files { kernel_file = some "bzImage" }

options-asked : options asked no_files ≡ some files
unfolding options
options-asked = refl

main-ended_example :
    main sys arch net handle exits asked (vm [])
    ≡ ended sys arch net handle exits
        (carry_out_all sys arch net (tasks files) (record (vm []) { world = 9 ∷ 18 ∷ [] }))
unfolding set_input_mode
main-ended_example =
    main-ended sys arch net handle exits asked files (vm [])
      (record (vm []) { world = 9 ∷ 18 ∷ [] }) tt options-asked refl

abbrev outcome : Option (Vm World × Status) → List ℕ × Option Status
outcome none = ([], none)
outcome (some (v, status)) = (v.world, some status)

-- the kernel is not opened, the vCPU runs, and the program returns 0
without_kernel : outcome (main sys arch net handle exits asked (vm [])) ≡ (
  13 ∷ 12 ∷ 12 ∷ 12 ∷ 11 ∷ 10 ∷ 31 ∷ 30 ∷ 30 ∷ 25 ∷ 8 ∷ 6 ∷ 22 ∷ 21 ∷ 5 ∷ 4 ∷ 3 ∷ 20 ∷ 2 ∷ 1 ∷ 9
      ∷ 18 ∷ [],
  some (returned true),
)
unfolding main kvm_host.Vm.Setup.vm_init kvm_host.Vm.Setup.vm_load_image kvm_host.Vm.Run.vm_run
    kvm_host.Vm.vm_handle_io kvm_host.Bus.bus_handle_io kvm_host.Bus.bus_find_dev
    kvm_host.Vm.Setup.vm_enable_net kvm_host.Vm.Setup.vm_exit kvm_host.Vm.Setup.serial_exit
    set_input_mode
without_kernel = refl
