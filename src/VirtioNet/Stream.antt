-- ===== src/VirtioNet/Stream.antt =====
-- The transmit thread of src/virtio-net.c sends what the driver has made available, in order.
use kvm_host.Common.{
  ℕ, ◌+◌, ◌-◌, ◌*◌, ◌%◌, ◌<◌, ◌≤◌, ◌≡◌, ◌⊎◌, inl, inr, refl, sym, ap, ◌∙◌, Bool, true, false, some,
  List, [], ◌∷◌, ◌++◌, arith, truthy, if◌then◌else◌,
}
use mathlib.Core.Path.{subst}
use kvm_host.Common.Bytes.{
  read_bytes, load_le, load_le-store_le_ne, read_bytes-store_le_ne, length-store_le,
}
use kvm_host.Common.Bits.{has_bit}
use kvm_host.Virtq.{Desc, Virtq, VirtqInfo, advance, virtq_handle_avail}
use kvm_host.Virtq.Position.{info-advance}
use kvm_host.Virtq.Protocol.{Link, size}
use kvm_host.Virtq.Protocol.Invariant.{Inv}
use kvm_host.VirtioQueue.{desc_at, set_event, notify_used}
use kvm_host.VirtioQueue.Marked.{
  queue-finish, outside-finish, guest_event-finish, read_bytes-finish,
}
use kvm_host.VirtioNet.{Net, complete_request_tx, tx_ops, vq_avail_round}
use kvm_host.VirtioNet.Driven.{
  Agree, given, served, packet_at, sent_off, served-Agree, complete_request_tx-sent_off, in_ring,
}

-- `n` bytes at `at` are none of those that the device writes: the ring and the word of its event flags
abbrev pub IsSpared : Link → Net → ℕ → ℕ → Type 0
IsSpared l s at n =
    ((at + n ≤ s.desc_ring) ⊎ (s.desc_ring + 16 * size l ≤ at))
    × ((at + n ≤ s.guest_event + 2) ⊎ (s.guest_event + 4 ≤ at))

-- what a round leaves, when it sends a packet
pub record Round (l : Link) (s : Net) (packet : List ℕ) (s' : Net) : Type 0 where
  pub handed_over : s'.outside ≡ s.outside ++ (packet ∷ [])
  pub agree : Agree (served l) s'
  pub desc_ring : s'.desc_ring ≡ s.desc_ring
  pub guest_event : s'.guest_event ≡ s.guest_event
  pub frame : (at n : ℕ) → IsSpared l s at n → read_bytes s'.mem at n ≡ read_bytes s.mem at n

notified-Round :
    (l : Link) (s : Net) (packet : List ℕ) (s' : Net) (b : Bool)
    → Round l s packet s'
    → Round l s packet (if b then notify_used s' else s')
unfolding notify_used
notified-Round l s packet s' true r = record {
  handed_over = r.handed_over;
  agree = record {
    vq = r.agree.vq;
    addr = r.agree.addr;
    len = r.agree.len;
    avail = r.agree.avail;
    used = r.agree.used;
    fits = r.agree.fits;
  };
  desc_ring = r.desc_ring;
  guest_event = r.guest_event;
  frame = r.frame;
}
notified-Round l s packet s' false r = r

module _ (l : Link) (s : Net) (a : Agree l s)
    (apart : (s.guest_event + 4 ≤ s.desc_ring)
      ⊎ (s.desc_ring + 16 * size l ≤ s.guest_event + 2)) where
  event_slot :
      (j offset n : ℕ)
      → j < size l
      → offset + n ≤ 16
      → load_le (set_event s 0).mem (desc_at s j + offset) n
        ≡ load_le s.mem (desc_at s j + offset) n
  event_slot j offset n lt inside =
      load_le-store_le_ne s.mem (s.guest_event + 2) 2 0 (desc_at s j + offset) n
        (elim apart [ inl below ↦ inr (omega arith) | inr above ↦ inl (omega arith) ])

  pub event-Agree : Agree l (set_event s 0)
  event-Agree = record {
    vq = a.vq;
    addr = λ j lt.
        let first : desc_at s j + 0 ≡ desc_at s j = omega arith in
        subst (λ at. load_le (set_event s 0).mem at 8 ≡ load_le s.mem at 8) first
          (event_slot j 0 8 lt (omega arith))
        ∙ a.addr j lt;
    len = λ j lt. event_slot j 8 4 lt (omega arith) ∙ a.len j lt;
    avail = λ j lt. ap (λ f. has_bit f 7) (event_slot j 14 2 lt (omega arith)) ∙ a.avail j lt;
    used = λ j lt. ap (λ f. has_bit f 15) (event_slot j 14 2 lt (omega arith)) ∙ a.used j lt;
    fits = omega (arith, a.fits, length-store_le s.mem (s.guest_event + 2) 2 0);
  }

  pub event_frame :
      (at n : ℕ) → IsSpared l s at n → read_bytes (set_event s 0).mem at n ≡ read_bytes s.mem at n
  event_frame at n (ring, event) =
      read_bytes-store_le_ne s.mem (s.guest_event + 2) 2 0 at n
        (elim event [ inl below ↦ inl below | inr above ↦ inr (omega arith) ])

-- what a packet must be for the thread to send it: it has a header, and it lies in the memory of the
-- guest apart from what the device writes
pub record IsPacket (ram_base : ℕ) (l : Link) (s : Net) (d : Desc) : Type 0 where
  pub above : ram_base ≤ d.addr
  pub header : 12 ≤ d.len
  pub spared : IsSpared l s (d.addr - ram_base + 12) (d.len - 12)

-- the device gives back what it takes, the queue is enabled, and the word of its event flags is not in
-- the ring
pub record IsIdle (l : Link) (s : Net) : Type 0 where
  pub idle : l.used ≡ l.taken
  pub queue_on : truthy s.vq.info.enable ≡ true
  pub apart : (s.guest_event + 4 ≤ s.desc_ring) ⊎ (s.desc_ring + 16 * size l ≤ s.guest_event + 2)

-- a descriptor given back leaves the device idle, and the bytes that it does not write
module _ (l : Link) (len : ℕ) (s s' : Net) (ring : s'.desc_ring ≡ s.desc_ring)
    (event : s'.guest_event ≡ s.guest_event) where
  same_size : size (given l len) ≡ size l
  same_size = ap (λ (i : VirtqInfo). i.size) (info-advance l.vq)

  pub given-IsSpared : (at n : ℕ) → IsSpared l s at n → IsSpared (given l len) s' at n
  given-IsSpared at n spared = rw (ring, event, same_size) spared

  pub given-IsIdle : Agree l s → Agree (given l len) s' → IsIdle l s → IsIdle (given l len) s'
  given-IsIdle a a' i = record {
    idle = omega (arith, i.idle);
    queue_on =
        ap (λ (q : Virtq). truthy q.info.enable) a'.vq
        ∙ ap (λ (j : VirtqInfo). truthy j.enable) (info-advance l.vq)
        ∙ ap (λ (q : Virtq). truthy q.info.enable) (sym a.vq)
        ∙ i.queue_on;
    apart = rw (ring, event, same_size) i.apart;
  }

module _ (ram_base : ℕ) (l : Link) (s : Net) (inv : Inv l) (a : Agree l s) (ready : IsIdle l s)
    (more : l.taken < l.sent) (p : IsPacket ram_base l s (l.log l.taken)) where
  abbrev packet : List ℕ
  packet = packet_at ram_base s (l.log l.taken).addr (l.log l.taken).len

  a0 : Agree l (set_event s 0)
  a0 = event-Agree l s a ready.apart

  same_packet : packet_at ram_base (set_event s 0) (l.log l.taken).addr (l.log l.taken).len ≡ packet
  same_packet =
      event_frame l s a ready.apart ((l.log l.taken).addr - ram_base + 12)
        ((l.log l.taken).len - 12) p.spared

  abbrev after : Net
  after = sent_off (set_event s 0) (l.taken % size l) packet

  completes : complete_request_tx ram_base true (set_event s 0) ≡ some after
  completes =
      complete_request_tx-sent_off ram_base l (set_event s 0) inv a0 ready.idle more p.above
        p.header
      ∙ ap (λ b. some (sent_off (set_event s 0) (l.taken % size l) b)) same_packet

  abbrev s1 : Net
  s1 = record (set_event s 0) { vq = advance s.vq; outside = s.outside ++ (packet ∷ []) }

  slot_apart :
      (at n : ℕ)
      → IsSpared l s at n
      → (at + n ≤ desc_at s1 (l.taken % size l) + 14) ⊎ (desc_at s1 (l.taken % size l) + 16 ≤ at)
  slot_apart at n (ring, event) =
      let inside : l.taken % size l < size l = in_ring ram_base l s inv a ready.idle more in
      elim ring [ inl below ↦ inl (omega arith) | inr above ↦ inr (omega arith) ]

  after-Round : Round l s packet after
  after-Round = record {
    handed_over = outside-finish s1 (l.taken % size l);
    agree = served-Agree ram_base l (set_event s 0) inv a0 ready.idle more packet;
    desc_ring = (queue-finish s1 (l.taken % size l)).1;
    guest_event = guest_event-finish s1 (l.taken % size l);
    frame = λ at n spared.
        read_bytes-finish s1 (l.taken % size l) at n (slot_apart at n spared)
        ∙ event_frame l s a ready.apart at n spared;
  }

  pub tx_round :
      (s' : Net) × (vq_avail_round ram_base (tx_ops ram_base true) true s ≡ some s')
      × Round l s packet s'
  unfolding vq_avail_round virtq_handle_avail
  tx_round = rw (ready.queue_on, completes) (_, refl, notified-Round l s packet after _ after-Round)
