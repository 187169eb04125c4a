-- ===== src/Virtq/Protocol/Slots.antt =====
-- Which numbers share a slot of a ring of `s` descriptors, and how their wrap counters compare.
use kvm_host.Common.{ℕ, ◌+◌, ◌/◌, ◌%◌, ◌<◌, ◌≡◌, ◌≢◌, refl, true, not, arith}
use kvm_host.Virtq.Position.{wrap_at}

-- a lap on: the same slot, and the other wrap counter
pub same_slot : (n s : ℕ) → 0 < s → (n + s) % s ≡ n % s
same_slot n s pos = grind arith

next_div : (n s : ℕ) → 0 < s → (n + s) / s ≡ n / s + 1
next_div n s pos = grind arith

pub wrap_flips : (n s : ℕ) → 0 < s → wrap_at s (n + s) ≡ not (wrap_at s n)
wrap_flips n s pos = ground (arith, next_div n s pos)

-- numbers less than a lap apart have different slots
pub slots_differ : (m n s : ℕ) → m < n → n < m + s → n % s ≢ m % s
slots_differ m n s lt near e = grind arith

-- the first lap
pub first_lap : (n s : ℕ) → n < s → wrap_at s n ≡ true
first_lap n s lt = let e : n / s ≡ 0 = grind arith in rw e refl

pub first_slot : (s : ℕ) → 0 < s → 0 % s ≡ 0
first_slot s pos = grind arith
