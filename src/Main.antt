-- ===== src/Main.antt =====
-- src/main.c: the options; Main/Program has the set-up of the machine and the run.
pub mod Terminal
pub mod Program
pub mod Outcome
mod Tests
use Prim.Native.String.{String}
use kvm_host.Common.{ℕ, Bool, Option, some, none, List, [], ◌∷◌}

-- what `getopt_long` gives, in order
pub data Opt : Type 0 where
  kernel : String → Opt
  initrd : String → Opt
  disk : String → Opt
  help : Opt
  unknown : Opt

-- the static variables with the names of the files
pub record Files : Type 0 where
  pub kernel_file : Option String
  pub initrd_file : Option String
  pub diskimg_file : Option String

-- how the program ends: `returned ok` is `return 0` or `return -1` from `main`
pub data Status : Type 0 where
  returned : Bool → Status
  exited : ℕ → Status

-- the loop over the options; `none` is the exit behind the help
unfoldable pub options : List Opt → Files → Option Files
options [] f = some f
options (initrd path ∷ opts) f = options opts (record f { initrd_file = some path })
options (kernel path ∷ opts) f = options opts (record f { kernel_file = some path })
options (disk path ∷ opts) f = options opts (record f { diskimg_file = some path })
options (help ∷ opts) f = none
options (unknown ∷ opts) f = options opts f

abbrev pub no_files : Files
no_files = record { kernel_file = none; initrd_file = none; diskimg_file = none }
