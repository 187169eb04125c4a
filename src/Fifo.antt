-- ===== src/Fifo.antt =====
-- The byte ring of src/utils.h: `struct fifo` and the macros over it. `head` and `tail` are
-- `unsigned int` counters that wrap at 2^32 and are masked only where the array is indexed.
pub mod Queue
pub mod Refine
mod Tests
use kvm_host.Common.{
  ℕ, ◌+◌, ◌-◌, ◌%◌, ◌^◌, bit_and, Bool, true, false, Option, none, some, List, [], ◌∷◌, ltb, ◌==◌,
  if◌then◌else◌, get_or, set, replicate, not,
}
use kvm_host.Fifo.Queue.{Op, put, get, Reply}

abbrev pub fifo_len : ℕ
fifo_len = 64

abbrev pub fifo_mask : ℕ
fifo_mask = fifo_len - 1

-- `unsigned int` arithmetic
abbrev pub u32 : ℕ
u32 = 2 ^ 32

pub record Fifo : Type 0 where
  pub bytes : List ℕ
  pub head : ℕ
  pub tail : ℕ

-- a `struct fifo` of static storage duration
abbrev pub fifo_zero : Fifo
fifo_zero = record { bytes = replicate fifo_len 0; head = 0; tail = 0 }

unfoldable pub fifo_is_empty : Fifo → Bool
fifo_is_empty f = f.head == f.tail

unfoldable pub fifo_capacity : Fifo → ℕ
fifo_capacity f = (f.tail + u32 - f.head) % u32

unfoldable pub fifo_is_full : Fifo → Bool
unfolding fifo_capacity
fifo_is_full f = ltb fifo_mask (fifo_capacity f)

-- the new ring and the value of the macro; the value is that of a `uint8_t`, as all callers pass one
unfoldable pub fifo_put : Fifo → ℕ → Fifo × Bool
unfolding fifo_is_full
fifo_put f value =
    if not (fifo_is_full f)
    then (
      record f { bytes = set f.bytes (bit_and f.tail fifo_mask) value; tail = (f.tail + 1) % u32 },
      true,
    )
    else (f, false)

-- the new ring and what the macro assigns to `value`, if it assigns
unfoldable pub fifo_get : Fifo → Fifo × Option ℕ
unfolding fifo_is_empty
fifo_get f =
    if not (fifo_is_empty f)
    then (
      record f { head = (f.head + 1) % u32 },
      some (get_or f.bytes (bit_and f.head fifo_mask) 0),
    )
    else (f, none)

-- the calls of the two threads in the order in which the lock lets them in, with what each returns
pub run : Fifo → List Op → List Reply
run f [] = []
run f (put x ∷ ops) = let (f', done) = fifo_put f x in (done, none) ∷ run f' ops
run f (get ∷ ops) = let (f', out) = fifo_get f in (true, out) ∷ run f' ops
