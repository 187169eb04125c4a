-- ===== src/Fifo/Queue.antt =====
-- What the macros of src/utils.h promise: a queue of at most 64 bytes, oldest first.
use kvm_host.Common.{
  ℕ, Bool, true, false, Option, none, some, List, [], ◌∷◌, ◌++◌, ltb, if◌then◌else◌, length,
}

pub data Op : Type 0 where
  put : ℕ → Op
  get : Op

-- whether a `put` took the byte, and the byte of a `get`
abbrev pub Reply : Type 0
Reply = Bool × Option ℕ

unfoldable pub push : List ℕ → ℕ → List ℕ × Bool
push q x = if ltb (length q) 64 then (q ++ x ∷ [], true) else (q, false)

unfoldable pub pop : List ℕ → List ℕ × Option ℕ
pop [] = ([], none)
pop (x ∷ q) = (q, some x)

unfoldable pub run : List ℕ → List Op → List Reply
unfolding push pop
run q [] = []
run q (put x ∷ ops) = let (q', done) = push q x in (done, none) ∷ run q' ops
run q (get ∷ ops) = let (q', out) = pop q in (true, out) ∷ run q' ops
