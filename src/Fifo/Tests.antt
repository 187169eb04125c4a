-- ===== src/Fifo/Tests.antt =====
-- Runs of the ring of src/utils.h, and its theorems at a ring whose counters are about to wrap.
use kvm_host.Common.{◌-◌, ◌≡◌, refl, true, false, none, some, List, [], ◌∷◌, arith, set, replicate}
use kvm_host.Fifo.{Fifo, fifo_put, fifo_get, u32, run}
use kvm_host.Fifo.Queue
use kvm_host.Fifo.Queue.{Op, put, get}
use kvm_host.Fifo.Refine.{IsValid, run_refines}

-- the bytes 7 and 9, round the end of the array and of the counters
abbrev wrapped : Fifo
wrapped = record { bytes = set (set (replicate 64 0) 63 7) 0 9; head = u32 - 1; tail = 1 }

wrapped-IsValid : IsValid wrapped
wrapped-IsValid = omega arith

abbrev calls : List Op
calls = get ∷ put 5 ∷ get ∷ get ∷ get ∷ []

run-wrapped :
    run wrapped calls
    ≡ (true, some 7) ∷ (true, none) ∷ (true, some 9) ∷ (true, some 5) ∷ (true, none) ∷ []
unfolding run fifo_put fifo_get
run-wrapped = refl

put_refused : (fifo_put (record wrapped { tail = 63 }) 5).1 ≡ false
unfolding fifo_put
put_refused = refl

run_refines_example : run wrapped calls ≡ Queue.run (7 ∷ 9 ∷ []) calls
run_refines_example = run_refines calls wrapped-IsValid
