-- ===== src/Serial/Worker.antt =====
-- The two threads of src/serial.c: the vCPU thread in `serial_handle_io` and the worker in
-- `serial_thread`. The lock makes each of the steps below atomic.
use kvm_host.Common.{
  ℕ, zero, suc, ◌+◌, ◌%◌, ◌<◌, ◌≡◌, Bool, true, false, not, ◌&&◌, List, ◌==◌, arith,
}
use kvm_host.Fifo.{fifo_is_empty, fifo_is_full, fifo_capacity, fifo_get}
use kvm_host.Serial.{
  Serial, serial_update_irq, serial_receive, serial_in, serial_handle_io, serial_dev_priv,
}
use kvm_host.Serial.Console.{Input, returned, serial_console}
use kvm_host.Serial.Inv.{
  IsValid, IsPending, serial_handle_io-IsValid, serial_console-IsValid, serial_dev_priv-IsValid,
  serial_dev_priv-IsPending,
}
use kvm_host.Serial.Registers.{dlab, rx_buf-serial_out}

-- `waiting`: the worker is in `pthread_cond_wait`
pub record System : Type 0 where
  pub dev : Serial
  pub waiting : Bool

-- a guest access; a signal on `cond` lets the worker go on
pub guest : System → ℕ → Bool → ℕ → System
guest sys value is_write offset =
    let (dev, out, signalled) = serial_handle_io sys.dev value is_write offset in
    record { dev = dev; waiting = sys.waiting && not signalled }

-- `POSIX` lets `pthread_cond_wait` also return without a signal: `woken`.
pub data Step : System → System → Type 0 where
  access :
      (sys : System) (value : ℕ) (is_write : Bool) (offset : ℕ)
      → Step sys (guest sys value is_write offset)
  console :
      (s s' : Serial) (inputs rest : List Input)
      → fifo_is_full s.rx_buf ≡ false
      → serial_console s inputs ≡ returned s' rest
      → Step (record { dev = s; waiting = false }) (record { dev = s'; waiting = false })
  waits :
      (s : Serial)
      → fifo_is_full s.rx_buf ≡ true
      → Step (record { dev = s; waiting = false }) (record { dev = s; waiting = true })
  woken :
      (s s' : Serial) (inputs rest : List Input)
      → serial_console s inputs ≡ returned s' rest
      → Step (record { dev = s; waiting = true }) (record { dev = s'; waiting = false })

pub data Reach : System → Type 0 where
  start : Reach (record { dev = serial_dev_priv; waiting = false })
  next : {t u : System} → Reach t → Step t u → Reach u

-- A worker that waits is above the mark at which `serial_in` signals.
pub record IsLive (sys : System) : Type 0 where
  pub valid : IsValid sys.dev
  pub pending : IsPending sys.dev
  pub above : sys.waiting ≡ true → 32 < fifo_capacity sys.dev.rx_buf

receive_capacity :
    (s : Serial)
    → IsValid s
    → 32 < fifo_capacity s.rx_buf
    → (serial_receive s).2 ≡ false
    → 32 < fifo_capacity (serial_receive s).0.rx_buf
unfolding serial_receive fifo_get fifo_capacity serial_update_irq fifo_is_empty
receive_capacity s v above quiet = ground arith

in_capacity :
    (s : Serial) (offset : ℕ)
    → IsValid s
    → 32 < fifo_capacity s.rx_buf
    → (serial_in s offset).2 ≡ false
    → 32 < fifo_capacity (serial_in s offset).0.rx_buf
unfolding serial_in
in_capacity s offset v above quiet = grind (arith, receive_capacity)

guest-above :
    (sys : System) (value : ℕ) (is_write : Bool) (offset : ℕ)
    → IsLive sys
    → (guest sys value is_write offset).waiting ≡ true
    → 32 < fifo_capacity (guest sys value is_write offset).dev.rx_buf
unfolding guest serial_handle_io
guest-above sys value true offset l w =
    rw (rx_buf-serial_out sys.dev (offset % 65536) value) (l.above (ground arith))
guest-above sys value false offset l w =
    in_capacity sys.dev (offset % 65536) l.valid (l.above (ground arith)) (ground arith)

guest-IsLive :
    (sys : System) (value : ℕ) (is_write : Bool) (offset : ℕ)
    → IsLive sys
    → IsLive (guest sys value is_write offset)
unfolding guest
guest-IsLive sys value is_write offset l =
    let both = serial_handle_io-IsValid value is_write offset l.valid l.pending in
    record { valid = both.0; pending = both.1; above = guest-above sys value is_write offset l }

full_capacity : (s : Serial) → fifo_is_full s.rx_buf ≡ true → 32 < fifo_capacity s.rx_buf
unfolding fifo_is_full
full_capacity s full = ground arith

Step-IsLive : {t u : System} → Step t u → IsLive t → IsLive u
Step-IsLive (access sys value is_write offset) l = guest-IsLive sys value is_write offset l
Step-IsLive (console s s' inputs rest room e) l =
    let both = serial_console-IsValid s inputs l.valid e in
    record { valid = both.0; pending = both.1; above = λ w. cc }
Step-IsLive (waits s full) l = record {
  valid = l.valid;
  pending = l.pending;
  above = λ w. full_capacity s full;
}
Step-IsLive (woken s s' inputs rest e) l =
    let both = serial_console-IsValid s inputs l.valid e in
    record { valid = both.0; pending = both.1; above = λ w. cc }

-- In every state that the two threads can reach, the status register tells whether the ring holds a
-- byte, the interrupt line tells what is pending, and a worker that waits has more than 32 bytes
-- before it, so that the reads to come still pass the mark at which they signal.
pub Reach-IsLive : {sys : System} → Reach sys → IsLive sys
Reach-IsLive start = record {
  valid = serial_dev_priv-IsValid;
  pending = serial_dev_priv-IsPending;
  above = λ w. cc;
}
Reach-IsLive (next r st) = Step-IsLive st (Reach-IsLive r)

-- `n` reads of the receive register in a row
pub receives : ℕ → System → System
receives zero sys = sys
receives (suc n) sys = receives n (guest sys 0 false 0)

-- with the latch closed, a read at port 0 takes one byte, and signals at 32
receive_step :
    (s : Serial)
    → IsValid s
    → dlab s ≡ false
    → 32 < fifo_capacity s.rx_buf
    → (fifo_capacity (serial_handle_io s 0 false 0).0.rx_buf + 1 ≡ fifo_capacity s.rx_buf)
      × (dlab (serial_handle_io s 0 false 0).0 ≡ false)
      × ((serial_handle_io s 0 false 0).2
          ≡ (fifo_capacity (serial_handle_io s 0 false 0).0.rx_buf == 32))
unfolding serial_handle_io serial_in fifo_get fifo_capacity serial_update_irq fifo_is_empty
receive_step s v shut above = ground arith

receives_wake_from :
    (n : ℕ) (sys : System)
    → IsLive sys
    → dlab sys.dev ≡ false
    → fifo_capacity sys.dev.rx_buf ≡ n + 33
    → (receives (suc n) sys).waiting ≡ false
unfolding receives guest
receives_wake_from zero sys l shut e =
    let s = receive_step sys.dev l.valid shut (omega arith) in ground arith
receives_wake_from (suc n) sys l shut e =
    let s = receive_step sys.dev l.valid shut (omega arith) in
    receives_wake_from n (guest sys 0 false 0) (guest-IsLive sys 0 false 0 l) s.1 (omega arith)

-- From any state that the threads can reach, a worker that waits is woken by the guest's reads of
-- the receive register: by as many as the ring holds above 32 bytes, if the latch is closed.
pub receives_wake :
    {sys : System} (n : ℕ)
    → Reach sys
    → sys.waiting ≡ true
    → dlab sys.dev ≡ false
    → n + 32 ≡ fifo_capacity sys.dev.rx_buf
    → (receives n sys).waiting ≡ false
receives_wake zero r w shut e = absurd (omega (arith, (Reach-IsLive r).above w))
receives_wake {sys} (suc n) r w shut e =
    receives_wake_from n sys (Reach-IsLive r) shut (omega arith)
