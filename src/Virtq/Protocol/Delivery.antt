-- ===== src/Virtq/Protocol/Delivery.antt =====
-- The ring as a queue of requests: what the device is offered, and what the driver gets back.
use kvm_host.Common.{
  ℕ, ◌+◌, ◌≤◌, ◌<◌, ◌^◌, ◌≡◌, refl, Option, some, none, ltb, if◌then◌else◌, ltb→lt, Bool-cases, inl,
  inr,
}
use kvm_host.Virtq.{Ring, VirtqInfo, virtq_get_avail, is_avail}
use kvm_host.Virtq.Protocol.{Link, size, is_used, Reach}
use kvm_host.Virtq.Protocol.Invariant.{Inv, slot, wrap, is_used_lem, is_avail-ltb}
use kvm_host.Virtq.Protocol.Preserved.{Reach-Inv}

-- address and length of the descriptor that a call of `virtq_get_avail` finds
abbrev pub found : Ring → Option ℕ → Option (ℕ × ℕ)
found ring none = none
found ring (some i) = some ((ring i).addr, (ring i).len)

abbrev pub offered : Link → Option (ℕ × ℕ)
offered l = found l.ring (virtq_get_avail l.vq l.ring).1

-- those of the oldest request that the device has not taken
abbrev pub oldest : Link → Option (ℕ × ℕ)
oldest l = if ltb l.taken l.sent then some ((l.log l.taken).addr, (l.log l.taken).len) else none

offered_lem : (l : Link) → Inv l → offered l ≡ oldest l
unfolding virtq_get_avail
offered_lem l i =
    let at : is_avail l.vq.used_wrap_count (l.ring l.vq.next_avail_idx).flags ≡ ltb l.taken l.sent =
      rw (i.position.wrap, i.position.place) (is_avail-ltb l i) in
    elim (Bool-cases (ltb l.taken l.sent)) [
      | inl more ↦
          let (addr, len) = i.content l.taken i.used-le-taken (ltb→lt l.taken l.sent more) in
          rw (at, more, i.position.place, addr, len) refl
      | inr done ↦ rw (at, done) refl
    ]

-- In every state that driver and device reach: `virtq_get_avail` finds a descriptor exactly if the
-- driver has made one available that the device has not taken, and it is the oldest of these, as the
-- driver wrote it; the driver's test of the next descriptor that it waits for says whether the device
-- has given one back that the driver has not got; and the driver has at most `size` in the ring.
pub Reach-offered :
    (info : VirtqInfo) (l : Link)
    → 0 < info.size
    → info.size < 2 ^ 16
    → Reach info l
    → (offered l ≡ oldest l)
      × (is_used (wrap l l.back) (slot l l.back).flags ≡ ltb l.back l.used)
      × (l.sent ≤ l.back + size l)
Reach-offered info l pos small r =
    let i = Reach-Inv info pos small l r in (offered_lem l i, is_used_lem l i, i.room)
