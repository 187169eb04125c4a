-- ===== src/Serial/Inv.antt =====
-- The invariants of the UART: the receive ring is valid, the line status register tells whether it
-- holds a byte, and the interrupt register and line tell what is pending.
use kvm_host.Common.{
  ℕ, bit_and, bit_or, ◌≡◌, refl, Bool, true, false, not, ◌&&◌, List, [], ◌∷◌, of_bool, ◌==◌,
  if◌then◌else◌, arith, ◌%◌, ◌⊎◌, inl, inr, Bool-cases,
}
use mathlib.Core.Path.{subst}
use kvm_host.Fifo.{fifo_is_empty, fifo_is_full, fifo_get, fifo_put}
use kvm_host.Fifo.Refine
use kvm_host.Fifo.Refine.{
  fifo_put-IsValid, fifo_get-IsValid, fifo_zero-IsValid, fifo_get-nonempty, fifo_put-nonempty,
}
use kvm_host.Serial.{
  Serial, serial_dev_priv, pending_iir, serial_update_irq, serial_receive, serial_in,
  serial_transmit, serial_out, serial_handle_io, uart_iir_no_int,
}
use kvm_host.Serial.Console.{
  Input, byte, fails, Round, exits, stops, goes_on, Outcome, exited, returned, console_byte,
  console_loop, serial_console, resume, finish,
}

-- the line status of an empty ring and of one that holds a byte
abbrev pub line_status : Bool → ℕ
line_status empty = if empty then 0x60 else 0x61

pub record IsValid (s : Serial) : Type 0 where
  pub ring : Refine.IsValid s.rx_buf
  pub status : s.lsr ≡ line_status (fifo_is_empty s.rx_buf)

-- What the guest reads as the interrupt register, and the level of the line, are those of the
-- interrupt that is pending.
pub record IsPending (s : Serial) : Type 0 where
  pub shown : bit_or s.iir 0xc0 ≡ bit_or (pending_iir s.ier s.lsr) 0xc0
  pub level : s.irq_level ≡ of_bool (not (pending_iir s.ier s.lsr == uart_iir_no_int))

pub serial_dev_priv-IsValid : IsValid serial_dev_priv
unfolding fifo_is_empty
serial_dev_priv-IsValid = record { ring = fifo_zero-IsValid; status = refl }

pub serial_dev_priv-IsPending : IsPending serial_dev_priv
unfolding pending_iir
serial_dev_priv-IsPending = record { shown = refl; level = refl }

pending_iir_cases :
    (ier lsr : ℕ)
    → (pending_iir ier lsr ≡ 1) ⊎ ((pending_iir ier lsr ≡ 2) ⊎ (pending_iir ier lsr ≡ 4))
unfolding pending_iir
pending_iir_cases ier lsr = ground arith

pub serial_update_irq-IsPending : (s : Serial) → IsPending (serial_update_irq s)
unfolding serial_update_irq
serial_update_irq-IsPending s = elim (pending_iir_cases s.ier s.lsr) [
  | inl e ↦ record { shown = rw e refl; level = rw e refl }
  | inr (inl e) ↦ record { shown = rw e refl; level = rw e refl }
  | inr (inr e) ↦ record { shown = rw e refl; level = rw e refl }
]

pub serial_update_irq-IsValid : {s : Serial} → IsValid s → IsValid (serial_update_irq s)
unfolding serial_update_irq
serial_update_irq-IsValid v = record { ring = v.ring; status = v.status }

line_status_clear : (b : Bool) → bit_and (line_status b) 0xfe ≡ 0x60
line_status_clear true = refl
line_status_clear false = refl

line_status_flush : (b : Bool) → bit_or (line_status b) 0x60 ≡ line_status b
line_status_flush true = refl
line_status_flush false = refl

line_status_ready : (b : Bool) → bit_or (line_status b) 0x01 ≡ 0x61
line_status_ready true = refl
line_status_ready false = refl

pub serial_receive-IsValid : {s : Serial} → IsValid s → IsValid (serial_receive s).0
unfolding serial_receive
serial_receive-IsValid {s} v = elim (Bool-cases (fifo_is_empty (fifo_get s.rx_buf).0)) [
  | inl e ↦ rw e (
      serial_update_irq-IsValid (record {
        ring = fifo_get-IsValid v.ring;
        status = rw (e, v.status) (line_status_clear (fifo_is_empty s.rx_buf));
      }))
  | inr e ↦ rw e (record {
    ring = fifo_get-IsValid v.ring;
    status = rw (e, v.status, fifo_get-nonempty s.rx_buf e) refl;
  })
]

serial_receive-IsPending : {s : Serial} → IsPending s → IsPending (serial_receive s).0
unfolding serial_receive
serial_receive-IsPending {s} p = elim (Bool-cases (fifo_is_empty (fifo_get s.rx_buf).0)) [
  | inl e ↦ rw e (serial_update_irq-IsPending _)
  | inr e ↦ rw e (record { shown = p.shown; level = p.level })
]

serial_transmit-IsValid : {s : Serial} (b : ℕ) → IsValid s → IsValid (serial_transmit s b)
unfolding serial_transmit
serial_transmit-IsValid {s} b v =
    serial_update_irq-IsValid
      (record { ring = v.ring; status = rw v.status (line_status_flush (fifo_is_empty s.rx_buf)) })

serial_transmit-IsPending : (s : Serial) (b : ℕ) → IsPending (serial_transmit s b)
unfolding serial_transmit
serial_transmit-IsPending s b = serial_update_irq-IsPending _

serial_in-IsValid : {s : Serial} (offset : ℕ) → IsValid s → IsValid (serial_in s offset).0
unfolding serial_in
serial_in-IsValid {s} offset v = grind (arith, serial_receive-IsValid)

serial_in-IsPending : {s : Serial} (offset : ℕ) → IsPending s → IsPending (serial_in s offset).0
unfolding serial_in
serial_in-IsPending {s} offset p = grind (arith, serial_receive-IsPending)

serial_out-IsValid :
    {s : Serial} (offset value : ℕ) → IsValid s → IsValid (serial_out s offset value)
unfolding serial_out
serial_out-IsValid {s} offset value v =
    grind (arith, serial_transmit-IsValid, serial_update_irq-IsValid)

serial_out-IsPending :
    {s : Serial} (offset value : ℕ) → IsPending s → IsPending (serial_out s offset value)
unfolding serial_out
serial_out-IsPending {s} offset value p =
    grind (arith, serial_transmit-IsPending, serial_update_irq-IsPending)

-- Every guest access, to any port and in both directions, keeps both invariants.
pub serial_handle_io-IsValid :
    {s : Serial} (value : ℕ) (is_write : Bool) (offset : ℕ)
    → IsValid s
    → IsPending s
    → IsValid (serial_handle_io s value is_write offset).0
      × IsPending (serial_handle_io s value is_write offset).0
unfolding serial_handle_io
serial_handle_io-IsValid value true offset v p =
    (serial_out-IsValid (offset % 65536) value v, serial_out-IsPending (offset % 65536) value p)
serial_handle_io-IsValid value false offset v p =
    (serial_in-IsValid (offset % 65536) v, serial_in-IsPending (offset % 65536) p)

-- a round of the worker's loop that does not end the process
abbrev Keeps : Round → Type 0
Keeps exits = Unit
Keeps (stops s) = IsValid s
Keeps (goes_on s) = IsValid s

console_byte-IsValid : {s : Serial} (c : ℕ) → IsValid s → Keeps (console_byte s c)
unfolding console_byte
console_byte-IsValid {s} c v =
    let ring = fifo_put-IsValid c v.ring in
    let room = fifo_put-nonempty s.rx_buf c v.ring in
    let ready : bit_or s.lsr 0x01 ≡ 0x61 =
      rw v.status (line_status_ready (fifo_is_empty s.rx_buf)) in
    elim (Bool-cases (s.escaped && (c == 0x78))) [
      | inl e ↦ rw e tt
      | inr e ↦ elim (Bool-cases (not s.escaped && (c == 0x01))) [
        | inl f ↦ rw (e, f) (record { ring = v.ring; status = v.status })
        | inr f ↦ elim (Bool-cases (fifo_put s.rx_buf c).1) [
          | inl g ↦ rw (e, f, g) (record { ring = ring; status = rw (ready, room g) refl })
          | inr g ↦ rw (e, f, g) (record { ring = v.ring; status = v.status })
        ]
      ]
    ]

abbrev Leaves : Outcome → Type 0
Leaves exited = Unit
Leaves (returned s rest) = IsValid s

console_loop-IsValid :
    (s : Serial) (inputs : List Input) → IsValid s → Leaves (console_loop s inputs)
unfolding console_loop
console_loop-IsValid s [] v = v
console_loop-IsValid s (fails ∷ rest) v = elim (Bool-cases (fifo_is_full s.rx_buf)) [
  | inl e ↦ rw e v
  | inr e ↦ rw e v
]
console_loop-IsValid s (byte c ∷ rest) v = elim (Bool-cases (fifo_is_full s.rx_buf)) [
  | inl e ↦ rw e v
  | inr e ↦ rw e (
      after (console_byte s c) (console_byte-IsValid c v)
        (λ s' v'. console_loop-IsValid s' rest v'))
]
  where
    after :
        (r : Round)
        → Keeps r
        → ((s' : Serial) → IsValid s' → Leaves (console_loop s' rest))
        → Leaves (resume (λ s'. console_loop s' rest) rest r)
    after exits k ih = tt
    after (stops s') k ih = k
    after (goes_on s') k ih = ih s' k

abbrev Both : Outcome → Type 0
Both exited = ⊥
Both (returned s rest) = IsValid s × IsPending s

finish-IsValid :
    (o : Outcome) {s : Serial} {rest : List Input}
    → Leaves o
    → finish o ≡ returned s rest
    → IsValid s × IsPending s
finish-IsValid exited v e = cc
finish-IsValid (returned s rest) v e =
    subst (λ o. Both o) e (serial_update_irq-IsValid v, serial_update_irq-IsPending s)

-- Whatever the terminal holds, a `serial_console` that returns leaves both invariants: the status
-- register tells whether the ring holds a byte, and the interrupt line tells what is pending.
pub serial_console-IsValid :
    (s : Serial) (inputs : List Input) {s' : Serial} {rest : List Input}
    → IsValid s
    → serial_console s inputs ≡ returned s' rest
    → IsValid s' × IsPending s'
unfolding serial_console
serial_console-IsValid s inputs v e =
    finish-IsValid (console_loop s inputs) (console_loop-IsValid s inputs v) e
