-- ===== src/Virtq/Protocol/Preserved.antt =====
-- Every step of driver and device keeps the invariant of the ring.
use kvm_host.Common.{
  ◌^◌, ltb→lt, ℕ, ◌+◌, ◌%◌, ◌<◌, ◌≡◌, inl, inr, refl, sym, ◌∙◌, true, not, some, ==_refl, ==_ne,
  arith,
}
use mathlib.Core.Path.{subst}
use native.Mathlib.Decide.{dec_lt}
use kvm_host.Virtq.{Desc, Virtq, VirtqInfo, virtq_get_avail}
use kvm_host.Virtq.Flags.{mark_used}
use kvm_host.Virtq.Position.{At, Looked, virtq_get_avail-Looked}
use kvm_host.Virtq.Protocol.{Link, size, IsFresh, is_used, publish, give, Step, start, Reach}
use kvm_host.Virtq.Protocol.Slots.{first_lap, first_slot}
use kvm_host.Virtq.Protocol.Invariant.{
  HasFlags, slot, wrap, Inv, put_self, put_other, lap_free, marked-HasFlags, is_used_lem,
  is_avail-ltb,
}

publish-Inv :
    (l : Link) (d : Desc)
    → Inv l
    → l.sent < l.back + size l
    → IsFresh (wrap l l.sent) d
    → Inv (publish l d)
publish-Inv l d i room fresh = record {
  back-le-used = i.back-le-used;
  used-le-taken = i.used-le-taken;
  taken-le-sent = omega (arith, i.taken-le-sent);
  room = omega arith;
  position = i.position;
  given = λ n from to.
      rw (put_other l.ring (size l) l.sent n d (inr (omega (arith, i), omega (arith, i))))
        (i.given n from to);
  pending = λ n from to. elim (dec_lt n l.sent) [
    | yes lt ↦
        rw (put_other l.ring (size l) l.sent n d (inr (lt, omega (arith, i)))) (i.pending n from lt)
    | no ge ↦ let e : n ≡ l.sent = omega arith in rw (e, put_self l.ring (l.sent % size l) d) fresh
  ];
  free = λ n from to.
      rw (put_other l.ring (size l) l.sent n d (inl (omega arith, omega (arith, i))))
        (i.free n (omega arith) to);
  content = λ n from to. elim (dec_lt n l.sent) [
    | yes lt ↦
        rw
          (
            put_other l.ring (size l) l.sent n d (inr (lt, omega (arith, i))),
            ==_ne n l.sent (omega arith),
          )
          (i.content n from lt)
    | no ge ↦
        let e : n ≡ l.sent = omega arith in
        rw (e, put_self l.ring (l.sent % size l) d, ==_refl l.sent) (refl, refl)
  ];
}

give-Inv : (l : Link) (len : ℕ) → Inv l → l.used < l.taken → Inv (give l len)
give-Inv l len i more =
    let d : Desc = record (slot l l.used) { len = len; flags = mark_used (slot l l.used).flags } in
    record {
      back-le-used = omega (arith, i.back-le-used);
      used-le-taken = omega arith;
      taken-le-sent = i.taken-le-sent;
      room = i.room;
      position = i.position;
      given = λ n from to. elim (dec_lt n l.used) [
        | yes lt ↦
            rw (put_other l.ring (size l) l.used n d (inr (lt, omega (arith, i))))
              (i.given n from lt)
        | no ge ↦
            let e : n ≡ l.used = omega arith in
            rw (e, put_self l.ring (l.used % size l) d)
              (marked-HasFlags (slot l l.used) len (wrap l l.used)
                (i.pending l.used (omega arith) (omega (arith, i))))
      ];
      pending = λ n from to.
          rw (put_other l.ring (size l) l.used n d (inl (omega arith, omega (arith, i))))
            (i.pending n (omega arith) to);
      free = λ n from to.
          rw (put_other l.ring (size l) l.used n d (inl (omega (arith, i), omega (arith, i))))
            (i.free n from to);
      content = λ n from to.
          rw (put_other l.ring (size l) l.used n d (inl (omega arith, omega (arith, i))))
            (i.content n (omega arith) to);
    }

reclaim-Inv :
    (l : Link)
    → Inv l
    → is_used (wrap l l.back) (slot l l.back).flags ≡ true
    → Inv (record l { back = l.back + 1 })
reclaim-Inv l i seen =
    let more : l.back < l.used = ltb→lt l.back l.used (sym (is_used_lem l i) ∙ seen) in
    record {
      back-le-used = omega arith;
      used-le-taken = i.used-le-taken;
      taken-le-sent = i.taken-le-sent;
      room = omega (arith, i.room);
      position = i.position;
      given = λ n from to. i.given n (omega arith) to;
      pending = i.pending;
      free = λ n from to. elim (dec_lt n (l.back + size l)) [
        | yes lt ↦ i.free n from lt
        | no ge ↦
            let (a, u) =
              lap_free l.ring l.back (size l) i.position.some_slot
                (i.given l.back (omega arith) more) in
            let e : l.back + size l ≡ n = omega arith in
            subst (λ k. HasFlags (not (wrap l k)) (not (wrap l k)) (slot l k)) e (a, u)
      ];
      content = i.content;
    }

takes-Inv :
    (l : Link) (vq : Virtq)
    → Inv l
    → l.taken < l.sent
    → At vq (l.taken + 1)
    → vq.info ≡ l.vq.info
    → Inv (record l { vq = vq; taken = l.taken + 1 })
takes-Inv l vq i more at same_info = record {
  back-le-used = i.back-le-used;
  used-le-taken = omega (arith, i.used-le-taken);
  taken-le-sent = omega arith;
  room = rw same_info i.room;
  position = at;
  given = λ n from to. rw same_info (i.given n from to);
  pending = λ n from to. rw same_info (i.pending n from to);
  free = rw same_info i.free;
  content = λ n from to. rw same_info (i.content n from to);
}

-- what a call of `virtq_get_avail` that finds a descriptor does
virtq_get_avail-Inv :
    (l : Link) (vq : Virtq) (k : ℕ)
    → Inv l
    → virtq_get_avail l.vq l.ring ≡ (vq, some k)
    → Inv (record l { vq = vq; taken = l.taken + 1 })
virtq_get_avail-Inv l vq k i e =
    let (avail, place, at, info) =
      subst (Looked l.vq l.ring l.taken) e
        (virtq_get_avail-Looked l.vq l.ring l.taken i.position) in
    takes-Inv l vq i (ltb→lt l.taken l.sent (sym (is_avail-ltb l i) ∙ avail)) at info

start-Inv : (info : VirtqInfo) → 0 < info.size → info.size < 2 ^ 16 → Inv (start info)
start-Inv info some_slot small = record {
  back-le-used = omega arith;
  used-le-taken = omega arith;
  taken-le-sent = omega arith;
  room = omega arith;
  position = record {
    some_slot = some_slot;
    small = small;
    place = sym (first_slot info.size some_slot);
    wrap = sym (first_lap 0 info.size some_slot);
  };
  given = λ n from to. absurd (omega arith);
  pending = λ n from to. absurd (omega arith);
  free = λ n from to. rw (first_lap n info.size (omega arith)) (refl, refl);
  content = λ n from to. absurd (omega arith);
}

Step-Inv : {l m : Link} → Inv l → Step l m → Inv m
Step-Inv i (Step.publishes l d room fresh) = publish-Inv l d i room fresh
Step-Inv i (Step.takes l vq k e) = virtq_get_avail-Inv l vq k i e
Step-Inv i (Step.gives l len more) = give-Inv l len i more
Step-Inv i (Step.reclaims l seen) = reclaim-Inv l i seen

-- every state that driver and device reach has the invariant
pub Reach-Inv :
    (info : VirtqInfo) → 0 < info.size → info.size < 2 ^ 16 → (l : Link) → Reach info l → Inv l
Reach-Inv info pos small l Reach.here = start-Inv info pos small
Reach-Inv info pos small l (Reach.next r s) = Step-Inv (Reach-Inv info pos small _ r) s
