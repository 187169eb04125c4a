-- ===== src/Virtq/Protocol/Invariant.antt =====
-- What holds of the ring in every state that driver and device can reach: which flags each slot has.
use kvm_host.Common.{
  ltb, lt→ltb, le→ltb, ℕ, ◌+◌, ◌%◌, ◌<◌, ◌≤◌, ◌≡◌, ◌≢◌, ◌⊎◌, inl, inr, refl, sym, ◌∙◌, Bool, false,
  not, ==_refl, ==_ne, arith,
}
use mathlib.Core.Path.{subst}
use native.Mathlib.Decide.{dec_lt}
use kvm_host.Common.Bits.{has_bit}
use kvm_host.Virtq.{Desc, Ring, is_avail}
use kvm_host.Virtq.Flags.{mark_used, is_avail_lem, used_bit, avail_bit}
use kvm_host.Virtq.Position.{At, wrap_at}
use kvm_host.Virtq.Protocol.{Link, size, put, is_used}
use kvm_host.Virtq.Protocol.Slots.{same_slot, wrap_flips, slots_differ}

-- the two flags of a descriptor
abbrev pub HasFlags : Bool → Bool → Desc → Type 0
HasFlags avail used d = (has_bit d.flags 7 ≡ avail) × (has_bit d.flags 15 ≡ used)

-- the slot of descriptor number `n`, and the wrap counter on its lap
abbrev pub slot : Link → ℕ → Desc
slot l n = l.ring (n % size l)

abbrev pub wrap : Link → ℕ → Bool
wrap l n = wrap_at (size l) n

pub record Inv (l : Link) : Type 0 where
  pub back-le-used : l.back ≤ l.used
  pub used-le-taken : l.used ≤ l.taken
  pub taken-le-sent : l.taken ≤ l.sent
  pub room : l.sent ≤ l.back + size l
  pub position : At l.vq l.taken
  pub given : (n : ℕ) → l.back ≤ n → n < l.used → HasFlags (wrap l n) (wrap l n) (slot l n)
  pub pending : (n : ℕ) → l.used ≤ n → n < l.sent → HasFlags (wrap l n) (not (wrap l n)) (slot l n)
  pub free :
      (n : ℕ)
      → l.sent ≤ n
      → n < l.back + size l
      → HasFlags (not (wrap l n)) (not (wrap l n)) (slot l n)
  pub content :
      (n : ℕ)
      → l.used ≤ n
      → n < l.sent
      → ((slot l n).addr ≡ (l.log n).addr) × ((slot l n).len ≡ (l.log n).len)

pub put_self : (ring : Ring) (i : ℕ) (d : Desc) → put ring i d i ≡ d
put_self ring i d = rw (==_refl i) refl

put_ne : (ring : Ring) (i j : ℕ) (d : Desc) → j ≢ i → put ring i d j ≡ ring j
put_ne ring i j d ne = rw (==_ne j i ne) refl

-- a write to the slot of `m` leaves that of `n`, if they are less than a lap apart
pub put_other :
    (ring : Ring) (s m n : ℕ) (d : Desc)
    → ((m < n) × (n < m + s)) ⊎ ((n < m) × (m < n + s))
    → put ring (m % s) d (n % s) ≡ ring (n % s)
put_other ring s m n d (inl (lt, near)) = put_ne ring (m % s) (n % s) d (slots_differ m n s lt near)
put_other ring s m n d (inr (lt, near)) =
    put_ne ring (m % s) (n % s) d (λ e. slots_differ n m s lt near (sym e))

-- a slot on the next lap
pub lap_free :
    (ring : Ring) (n s : ℕ)
    → 0 < s
    → HasFlags (wrap_at s n) (wrap_at s n) (ring (n % s))
    → HasFlags (not (wrap_at s (n + s))) (not (wrap_at s (n + s))) (ring ((n + s) % s))
lap_free ring n s pos (a, u) =
    rw (same_slot n s pos, wrap_flips n s pos) (ground arith, ground arith)

lap_unavailable :
    (ring : Ring) (n s : ℕ)
    → 0 < s
    → has_bit (ring (n % s)).flags 7 ≡ wrap_at s n
    → is_avail (wrap_at s (n + s)) (ring ((n + s) % s)).flags ≡ false
lap_unavailable ring n s pos a =
    rw
      (
        same_slot n s pos,
        wrap_flips n s pos,
        is_avail_lem (not (wrap_at s n)) (ring (n % s)).flags,
        a,
      )
      (ground arith)

-- marking a descriptor flips its used flag
pub marked-HasFlags :
    (d : Desc) (len : ℕ) (w : Bool)
    → HasFlags w (not w) d
    → HasFlags w w (record d { len = len; flags = mark_used d.flags })
marked-HasFlags d len w (a, u) = (avail_bit d.flags ∙ a, ground (arith, used_bit d.flags))

-- what the driver's test says
pub is_used_lem :
    (l : Link) → Inv l → is_used (wrap l l.back) (slot l l.back).flags ≡ ltb l.back l.used
is_used_lem l i = elim (dec_lt l.back l.used) [
  | yes lt ↦
      let (a, u) = i.given l.back (omega arith) lt in
      rw (a, u, lt→ltb l.back l.used lt) (ground arith)
  | no ge ↦ elim (dec_lt l.used l.sent) [
    | yes waiting ↦
        let (a, u) = i.pending l.back (omega arith) (omega (arith, i)) in
        rw (a, u, le→ltb l.back l.used (omega arith)) (ground arith)
    | no empty ↦
        let (a, u) = i.free l.back (omega (arith, i)) (omega (arith, i.position.some_slot)) in
        rw (a, u, le→ltb l.back l.used (omega arith)) (ground arith)
  ]
]

-- the oldest descriptor in the ring is of its own lap
oldest_avail :
    (l : Link) → Inv l → l.back < l.sent → has_bit (slot l l.back).flags 7 ≡ wrap l l.back
oldest_avail l i more = elim (dec_lt l.back l.used) [
  | yes lt ↦ (i.given l.back (omega arith) lt).0
  | no ge ↦ (i.pending l.back (omega arith) more).0
]

-- so that the device does not take it for one of the next lap, when the ring is full
full_ring :
    (l : Link)
    → Inv l
    → l.taken ≡ l.back + size l
    → is_avail (wrap l l.taken) (slot l l.taken).flags ≡ false
full_ring l i e =
    subst (λ k. is_avail (wrap l k) (slot l k).flags ≡ false) (sym e)
      (lap_unavailable l.ring l.back (size l) i.position.some_slot
        (oldest_avail l i (omega (arith, i))))

-- what the device's test says
pub is_avail-ltb :
    (l : Link) → Inv l → is_avail (wrap l l.taken) (slot l l.taken).flags ≡ ltb l.taken l.sent
is_avail-ltb l i = elim (dec_lt l.taken l.sent) [
  | yes lt ↦
      let (a, u) = i.pending l.taken i.used-le-taken lt in
      rw (is_avail_lem (wrap l l.taken) (slot l l.taken).flags, a, u, lt→ltb l.taken l.sent lt)
        (ground arith)
  | no ge ↦ elim (dec_lt l.taken (l.back + size l)) [
    | yes space ↦
        let (a, u) = i.free l.taken (omega arith) space in
        rw
          (
            is_avail_lem (wrap l l.taken) (slot l l.taken).flags,
            a,
            u,
            le→ltb l.taken l.sent (omega arith),
          )
          (ground arith)
    | no full ↦ rw (le→ltb l.taken l.sent (omega arith)) (full_ring l i (omega (arith, i)))
  ]
]
