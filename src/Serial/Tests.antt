-- ===== src/Serial/Tests.antt =====
-- Runs of the UART of src/serial.c, and its theorems at concrete states.
use kvm_host.Common.{
  ℕ, ◌≡◌, refl, sym, true, false, inl, inr, some, List, [], ◌∷◌, arith, replicate,
}
use mathlib.Core.List.{map}
use kvm_host.Fifo.{fifo_zero, fifo_is_full, fifo_put, fifo_get, fifo_capacity}
use kvm_host.Fifo.Refine.{fifo_zero-IsValid}
use kvm_host.Serial.{
  Serial, serial_dev_priv, serial_update_irq, serial_in, serial_out, serial_handle_io, pending_iir,
}
use kvm_host.Serial.Console.{Input, byte, fails, exited, returned, console_byte, serial_console}
use kvm_host.Serial.Registers.{read, read-serial_out_self, read-serial_out_ne}
use kvm_host.Serial.Stream.{Result, serial_console-Result}
use kvm_host.Serial.Worker.{
  Reach, start, next, console, waits, IsLive, Reach-IsLive, receives, receives_wake,
}

-- 'h', the escape character, '!' and the escape character twice
abbrev typed : List ℕ
typed = 0x68 ∷ 1 ∷ 0x21 ∷ 1 ∷ 1 ∷ []

-- the UART behind a `serial_console` that read them
abbrev after_typed : Serial
unfolding fifo_put serial_update_irq pending_iir
after_typed = serial_update_irq (record serial_dev_priv {
  rx_buf = (fifo_put (fifo_put (fifo_put fifo_zero 0x68).0 0x21).0 1).0;
  lsr = 0x61;
})

console-typed : serial_console serial_dev_priv (map byte typed) ≡ returned after_typed []
unfolding serial_console console_byte fifo_put fifo_is_full serial_update_irq pending_iir
console-typed = refl

console_exits : serial_console serial_dev_priv (byte 1 ∷ byte 0x78 ∷ []) ≡ exited
unfolding serial_console console_byte fifo_put fifo_is_full
console_exits = refl

receive_order :
    ((serial_handle_io after_typed 0 false 0).1 ≡ some 0x68)
    × ((serial_handle_io (serial_handle_io after_typed 0 false 0).0 0 false 0).1 ≡ some 0x21)
unfolding serial_handle_io serial_in fifo_put fifo_get serial_update_irq pending_iir fifo_capacity
receive_order = (refl, refl)

-- a byte, a `read` that fails, and a byte that stays at the terminal
abbrev interrupted : List Input
interrupted = byte 0x68 ∷ fails ∷ byte 0x21 ∷ []

serial_console-Result_example :
    Result serial_dev_priv interrupted (serial_console serial_dev_priv interrupted)
serial_console-Result_example = serial_console-Result serial_dev_priv interrupted fifo_zero-IsValid

read-serial_out_self_example : read (serial_out serial_dev_priv 7 0x5a) 7 ≡ some 0x5a
read-serial_out_self_example =
    read-serial_out_self serial_dev_priv 7 0x5a (inr (inr (inr (inl refl))))

read-serial_out_ne_example : read (serial_out serial_dev_priv 4 0x0b) 7 ≡ read serial_dev_priv 7
read-serial_out_ne_example =
    read-serial_out_ne serial_dev_priv 4 0x0b 7 (omega arith) (omega arith)
      (inr (inr (inr (inl refl))))

-- 64 bytes fill the ring
abbrev full : Serial
full = record serial_dev_priv {
  rx_buf = record { bytes = replicate 64 0x61; head = 0; tail = 64 };
  lsr = 0x61;
  iir = 0xc1;
}

console_fills :
    serial_console serial_dev_priv (map byte (replicate 70 0x61))
    ≡ returned full (map byte (replicate 6 0x61))
unfolding serial_console console_byte fifo_put fifo_is_full serial_update_irq pending_iir
console_fills = refl

has_room : fifo_is_full serial_dev_priv.rx_buf ≡ false
unfolding fifo_is_full
has_room = refl

is_full : fifo_is_full full.rx_buf ≡ true
unfolding fifo_is_full
is_full = refl

waiting_Reach : Reach (record { dev = full; waiting = true })
waiting_Reach =
    next
      (next start (
        console serial_dev_priv full (map byte (replicate 70 0x61)) (map byte (replicate 6 0x61))
          has_room console_fills))
      (waits full is_full)

Reach-IsLive_example : IsLive (record { dev = full; waiting = true })
Reach-IsLive_example = Reach-IsLive waiting_Reach

capacity_full : fifo_capacity full.rx_buf ≡ 64
unfolding fifo_capacity
capacity_full = refl

receives_wake_example : (receives 32 (record { dev = full; waiting = true })).waiting ≡ false
receives_wake_example = receives_wake 32 waiting_Reach refl refl (sym capacity_full)
