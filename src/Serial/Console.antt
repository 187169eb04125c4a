-- ===== src/Serial/Console.antt =====
-- The worker's side of src/serial.c: `serial_console` moves terminal input into the ring, and
-- drops the escape character.
use kvm_host.Common.{ℕ, bit_or, true, false, not, ◌&&◌, List, [], ◌∷◌, ◌==◌, if◌then◌else◌}
use kvm_host.Fifo.{fifo_is_full, fifo_put}
use kvm_host.Serial.{Serial, uart_lsr_dr, serial_update_irq}

abbrev pub terminal_escape_char : ℕ
terminal_escape_char = 0x01

-- 'x'
abbrev pub terminal_exit_char : ℕ
terminal_exit_char = 0x78

-- What the terminal has for the worker, in order: a byte, or a `read` that fails. Where the list
-- ends, `serial_readable` is false.
pub data Input : Type 0 where
  byte : ℕ → Input
  fails : Input

-- how one round of the loop leaves: `exit(0)`, `break`, or on to the next round
pub data Round : Type 0 where
  exits : Round
  stops : Serial → Round
  goes_on : Serial → Round

unfoldable pub console_byte : Serial → ℕ → Round
console_byte s c =
    if s.escaped && (c == terminal_exit_char)
    then exits
    else if not s.escaped && (c == terminal_escape_char)
    then goes_on (record s { escaped = true })
    else let (rx, done) = fifo_put s.rx_buf c in
      if not done
      then stops (record s { escaped = false })
      else goes_on (record s { escaped = false; rx_buf = rx; lsr = bit_or s.lsr uart_lsr_dr })

-- The result of `serial_console`: the state and the input that is left, or the end of the process.
pub data Outcome : Type 0 where
  exited : Outcome
  returned : Serial → List Input → Outcome

-- what follows a round: the end of the process, of the loop, or the loop's next rounds
abbrev pub resume : (Serial → Outcome) → List Input → Round → Outcome
resume loop rest exits = exited
resume loop rest (stops s) = returned s rest
resume loop rest (goes_on s) = loop s

unfoldable pub console_loop : Serial → List Input → Outcome
console_loop s [] = returned s []
console_loop s (fails ∷ rest) =
    if fifo_is_full s.rx_buf then returned s (fails ∷ rest) else returned s rest
console_loop s (byte c ∷ rest) =
    let next = resume (λ s'. console_loop s' rest) rest (console_byte s c) in
    if fifo_is_full s.rx_buf then returned s (byte c ∷ rest) else next

-- the call behind the loop
abbrev pub finish : Outcome → Outcome
finish exited = exited
finish (returned s rest) = returned (serial_update_irq s) rest

unfoldable pub serial_console : Serial → List Input → Outcome
unfolding console_loop
serial_console s inputs = finish (console_loop s inputs)
