-- ===== src/Virtq/Position.antt =====
-- Where `virtq_get_avail` of src/virtq.c looks: the index and the wrap counter stand for the number
-- of descriptors taken.
use kvm_host.Common.{
  ℕ, ◌+◌, ◌/◌, ◌%◌, ◌<◌, ◌^◌, ◌≡◌, refl, Bool, true, false, not, Option, none, some, ◌==◌, arith,
  Bool-cases, lt→leb, le→leb, inl, inr,
}
use native.Mathlib.Nat.{mod-lt}
use native.Mathlib.Decide.{dec_lt}
use kvm_host.Virtq.{Virtq, Ring, virtq_init, virtq_get_avail, advance, is_avail}

-- the number of times that the ring has been gone round after `n` descriptors, as the wrap counter
-- has it: true on the first lap
abbrev pub wrap_at : ℕ → ℕ → Bool
wrap_at size n = n / size % 2 == 0

-- `n` descriptors have been taken.
pub record At (vq : Virtq) (n : ℕ) : Type 0 where
  pub some_slot : 0 < vq.info.size
  pub small : vq.info.size < 2 ^ 16
  pub place : vq.next_avail_idx ≡ n % vq.info.size
  pub wrap : vq.used_wrap_count ≡ wrap_at vq.info.size n

pub virtq_init-At : (vq : Virtq) → At (virtq_init vq) 0
unfolding virtq_init
virtq_init-At vq = record {
  some_slot = omega arith;
  small = omega arith;
  place = refl;
  wrap = refl;
}

-- within a lap, and from one lap to the next
same_lap : (n s : ℕ) → 0 < s → n % s + 1 < s → ((n + 1) % s ≡ n % s + 1) × ((n + 1) / s ≡ n / s)
same_lap n s pos h = grind arith

next_lap : (n s : ℕ) → 0 < s → n % s + 1 ≡ s → ((n + 1) % s ≡ 0) × ((n + 1) / s ≡ n / s + 1)
next_lap n s pos h = grind arith

not_parity : (q : ℕ) → not (q % 2 == 0) ≡ ((q + 1) % 2 == 0)
not_parity q = ground arith

pub info-advance : (vq : Virtq) → (advance vq).info ≡ vq.info
unfolding advance
info-advance vq = ground arith

advance-At : (vq : Virtq) (n : ℕ) → At vq n → At (advance vq) (n + 1)
unfolding advance
advance-At vq n a = elim (dec_lt (n % vq.info.size + 1) vq.info.size) [
  | yes room ↦
      let (place, lap) = same_lap n vq.info.size a.some_slot room in
      rw (lt→leb vq.info.size ((vq.next_avail_idx + 1) % 2 ^ 16) (omega (arith, a.place, a.small)))
        (record {
          some_slot = a.some_slot;
          small = a.small;
          place = omega (arith, a.place, a.small, place);
          wrap = rw lap a.wrap;
        })
  | no last ↦
      let (place, lap) =
        next_lap n vq.info.size a.some_slot (omega (arith, mod-lt n a.some_slot)) in
      rw (le→leb vq.info.size ((vq.next_avail_idx + 1) % 2 ^ 16) (omega (arith, a.place, a.small)))
        (record {
          some_slot = a.some_slot;
          small = a.small;
          place = omega (arith, a.place, a.small, place);
          wrap = rw (lap, a.wrap) (not_parity (n / vq.info.size));
        })
]

-- What a call of `virtq_get_avail` on a queue that has given out `n` descriptors returns, and what
-- it does to the queue.
abbrev pub Looked : Virtq → Ring → ℕ → Virtq × Option ℕ → Type 0
Looked vq ring n (vq', none) =
    (is_avail (wrap_at vq.info.size n) (ring (n % vq.info.size)).flags ≡ false) × (vq' ≡ vq)
Looked vq ring n (vq', some i) =
    (is_avail (wrap_at vq.info.size n) (ring (n % vq.info.size)).flags ≡ true)
    × (i ≡ n % vq.info.size)
    × At vq' (n + 1)
    × (vq'.info ≡ vq.info)

-- A queue that has given out `n` descriptors looks at slot `n % size`, which lies in the ring, with
-- the wrap counter of lap `n / size`. If that descriptor is available its index is returned, and the
-- queue has given out `n + 1`; if not, NULL is returned and the queue is unchanged.
pub virtq_get_avail-Looked :
    (vq : Virtq) (ring : Ring) (n : ℕ) → At vq n → Looked vq ring n (virtq_get_avail vq ring)
unfolding virtq_get_avail
virtq_get_avail-Looked vq ring n a =
    elim (Bool-cases (is_avail vq.used_wrap_count (ring vq.next_avail_idx).flags)) [
      | inl e ↦ rw e (rw (← a.wrap, ← a.place) e, a.place, advance-At vq n a, info-advance vq)
      | inr e ↦ rw e (rw (← a.wrap, ← a.place) e, refl)
    ]
