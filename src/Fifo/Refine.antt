-- ===== src/Fifo/Refine.antt =====
-- The ring of src/utils.h behaves as the queue of the bytes that it holds, also where its counters
-- wrap.
use kvm_host.Common.{
  ℕ, zero, suc, ◌+◌, ◌-◌, ◌%◌, ◌≤◌, ◌<◌, bit_and, ◌≡◌, ◌≢◌, refl, ap, ◌∙◌, true, false, not, List,
  [], ◌∷◌, ◌++◌, length, get_or, set, length-set, get_or-set_self, get_or-set_ne, arith, lt→ltb,
  le→ltb,
}
use mathlib.Core.Path.{ap₂}
use native.Mathlib.Decide.{dec_lt}
use kvm_host.Common.Masks.{bit_and-low_mask}
use kvm_host.Fifo.{
  Fifo, fifo_len, fifo_mask, u32, fifo_zero, fifo_is_empty, fifo_is_full, fifo_put, fifo_get, run,
}
use kvm_host.Fifo.Queue
use kvm_host.Fifo.Queue.{Op, put, get}

pub record IsValid (f : Fifo) : Type 0 where
  pub storage : length f.bytes ≡ fifo_len
  pub head_fits : f.head < u32
  pub tail_fits : f.tail < u32
  pub within : (f.tail + u32 - f.head) % u32 ≤ fifo_len

index : (i : ℕ) → bit_and i fifo_mask ≡ i % 64
index i = bit_and-low_mask 6 i ∙ omega arith

-- the `n` bytes from counter `h` on
abbrev window : List ℕ → ℕ → ℕ → List ℕ
window bytes h zero = []
window bytes h (suc n) = get_or bytes (h % 64) 0 ∷ window bytes ((h + 1) % u32) n

abbrev pub contents : Fifo → List ℕ
contents f = window f.bytes f.head ((f.tail + u32 - f.head) % u32)

length-window : (bytes : List ℕ) (h n : ℕ) → length (window bytes h n) ≡ n
length-window bytes h zero = refl
length-window bytes h (suc n) = ap suc (length-window bytes ((h + 1) % u32) n)

window_of_ne_zero :
    (bytes : List ℕ) (h n : ℕ)
    → n ≢ 0
    → window bytes h n ≡ get_or bytes (h % 64) 0 ∷ window bytes ((h + 1) % u32) (n - 1)
window_of_ne_zero bytes h zero p = absurd (p refl)
window_of_ne_zero bytes h (suc n) p = ap (λ k. window bytes h (suc k)) (omega arith)

-- Writing just past a window extends it by that byte.
window-set :
    (bytes : List ℕ) (x n h i : ℕ)
    → length bytes ≡ 64
    → n < 64
    → i ≡ (h + n) % 64
    → window (set bytes i x) h (suc n) ≡ window bytes h n ++ x ∷ []
window-set bytes x zero h i hl hn e =
    ap (λ v. v ∷ [])
      (ap (λ j. get_or (set bytes i x) j 0) (omega arith)
        ∙ get_or-set_self bytes i x 0 (omega arith))
window-set bytes x (suc n) h i hl hn e =
    ap₂ ◌∷◌ (get_or-set_ne bytes i (h % 64) x 0 (omega arith))
      (window-set bytes x n ((h + 1) % u32) i hl (omega arith) (omega arith))

pub fifo_zero-IsValid : IsValid fifo_zero
fifo_zero-IsValid = omega arith

pub fifo_put-IsValid : {f : Fifo} (x : ℕ) → IsValid f → IsValid (fifo_put f x).0
unfolding fifo_put
fifo_put-IsValid {f} x v = ground (arith, length-set f.bytes (bit_and f.tail fifo_mask) x)

pub fifo_get-IsValid : {f : Fifo} → IsValid f → IsValid (fifo_get f).0
unfolding fifo_get
fifo_get-IsValid v = ground arith

-- In a valid ring the indices that `fifo_put` and `fifo_get` form lie in the array.
pub index_in_range :
    (f : Fifo)
    → IsValid f
    → (bit_and f.tail fifo_mask < length f.bytes) × (bit_and f.head fifo_mask < length f.bytes)
index_in_range f v = omega (arith, index f.tail, index f.head)

-- the counters after a `put` that found room
count-put :
    (head tail : ℕ)
    → head < u32
    → tail < u32
    → (tail + u32 - head) % u32 < 64
    → ((tail + 1) % u32 + u32 - head) % u32 ≡ suc ((tail + u32 - head) % u32)
count-put head tail h t room = omega arith

contents-put :
    (f : Fifo) (x : ℕ)
    → IsValid f
    → (f.tail + u32 - f.head) % u32 < 64
    → window
        (set f.bytes (bit_and f.tail fifo_mask) x)
        f.head
        (((f.tail + 1) % u32 + u32 - f.head) % u32)
      ≡ contents f ++ x ∷ []
contents-put f x v room = rw (count-put f.head f.tail v.head_fits v.tail_fits room) (
    window-set f.bytes x ((f.tail + u32 - f.head) % u32) f.head (bit_and f.tail fifo_mask) v.storage
      room (omega (arith, index f.tail)))

-- `fifo_put` appends the byte and says so, or at 64 bytes changes nothing and says so.
pub fifo_put_refines :
    {f : Fifo} (x : ℕ)
    → IsValid f
    → let (f', done) = fifo_put f x in (contents f', done) ≡ Queue.push (contents f) x
unfolding fifo_put Queue.push
fifo_put_refines {f} x v =
    rw (length-window f.bytes f.head ((f.tail + u32 - f.head) % u32))
      (elim (dec_lt ((f.tail + u32 - f.head) % u32) 64) [
        | yes room ↦
            rw (lt→ltb _ _ room, le→ltb 63 ((f.tail + u32 - f.head) % u32) (omega arith))
              (ap (λ q. (q, true)) (contents-put f x v room))
        | no full ↦
            rw
              (
                le→ltb ((f.tail + u32 - f.head) % u32) 64 (omega arith),
                lt→ltb 63 ((f.tail + u32 - f.head) % u32) (omega arith),
              )
              refl
      ])

-- `fifo_get` hands out the oldest byte, or of an empty ring nothing.
pub fifo_get_refines :
    {f : Fifo}
    → IsValid f
    → let (f', out) = fifo_get f in (contents f', out) ≡ Queue.pop (contents f)
unfolding fifo_get Queue.pop
fifo_get_refines {f} v =
    ground (arith, index f.head, window_of_ne_zero f.bytes f.head ((f.tail + u32 - f.head) % u32))

-- A ring that still holds a byte after a `get` held one before.
pub fifo_get-nonempty : (f : Fifo) → fifo_is_empty (fifo_get f).0 ≡ false → fifo_is_empty f ≡ false
unfolding fifo_get
fifo_get-nonempty f h = ground arith

-- After a `put` that found room the ring holds a byte.
pub fifo_put-nonempty :
    (f : Fifo) (x : ℕ)
    → IsValid f
    → (fifo_put f x).1 ≡ true
    → fifo_is_empty (fifo_put f x).0 ≡ false
unfolding fifo_put fifo_is_empty
fifo_put-nonempty f x v h = ground arith

-- A `put` is refused exactly when the ring is full.
pub fifo_put_room : (f : Fifo) (x : ℕ) → (fifo_put f x).1 ≡ not (fifo_is_full f)
unfolding fifo_put
fifo_put_room f x = ground arith

-- No sequence of calls tells a valid ring from the bounded queue of its contents.
pub run_refines : (ops : List Op) {f : Fifo} → IsValid f → run f ops ≡ Queue.run (contents f) ops
unfolding run Queue.run
run_refines [] v = refl
run_refines (put x ∷ ops) v = rw (run_refines ops (fifo_put-IsValid x v), ← fifo_put_refines x v)
run_refines (get ∷ ops) v = rw (run_refines ops (fifo_get-IsValid v), ← fifo_get_refines v)
