-- ===== src/Main/Terminal.antt =====
-- The terminal of src/main.c: `set_input_mode`, and the flags of <bits/termios.h> that it clears.
use kvm_host.Common.{ℕ, ◌+◌, ◌-◌, ◌^◌, bit_and, if◌then◌else◌}
use kvm_host.Common.Effects.{Eff, pure, fail}
use kvm_host.Vm.Setup.{Sys, Termios}

abbrev pub isig : ℕ
isig = 0x1

abbrev pub icanon : ℕ
icanon = 0x2

abbrev pub echo : ℕ
echo = 0x8

-- `~(ICANON | ECHO | ISIG)` as an `unsigned int`; the three bits are different
abbrev pub raw_mask : ℕ
raw_mask = 2 ^ 32 - 1 - (icanon + echo + isig)

abbrev pub raw : Termios → Termios
raw attr = record attr { c_lflag = bit_and attr.c_lflag raw_mask }

-- it fails by `exit(EXIT_FAILURE)`
unfoldable pub set_input_mode : {W : Type 0} → Sys W → Eff W Unit
set_input_mode sys w =
    let saved = sys.tcgetattr w in
    if sys.isatty w then pure tt (sys.tcsetattr (raw saved) (sys.at_exit saved w)) else fail w
