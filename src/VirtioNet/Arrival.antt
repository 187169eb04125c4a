-- ===== src/VirtioNet/Arrival.antt =====
-- A round of the receive thread of src/virtio-net.c, when a packet arrives.
use kvm_host.Common.{
  ℕ, ◌%◌, ◌+◌, ◌<◌, ◌≤◌, ◌≡◌, ◌⊎◌, inl, inr, refl, ap, ◌∙◌, Bool, true, false, some, List, ◌++◌,
  length, arith, if◌then◌else◌,
}
use kvm_host.Common.Bytes.{read_bytes, length-store_le}
use kvm_host.Virtq.{Desc, virtq_handle_avail}
use kvm_host.Virtq.Protocol.{Link, size}
use kvm_host.Virtq.Protocol.Invariant.{Inv}
use kvm_host.VirtioQueue.{desc_at, set_event, notify_used, finish}
use kvm_host.VirtioQueue.Marked.{queue-finish, guest_event-finish, read_bytes-finish, length-finish}
use kvm_host.VirtioNet.{Net, net_header, rx_ops, vq_avail_round}
use kvm_host.VirtioNet.Driven.{Agree, given, given-Agree, in_ring}
use kvm_host.VirtioNet.Stream.{IsIdle, IsSpared, event-Agree, event_frame}
use kvm_host.VirtioNet.Arrived.{
  IsBuffer, host_of, put_in, complete_request_rx-put_in, put_in-Filled, put_in-arrived,
  put_in-others, put_in-length,
}

-- `n` bytes at `at` are none of the buffer
abbrev pub IsOutside : ℕ → Desc → ℕ → ℕ → Type 0
IsOutside ram_base d at n = (at + n ≤ host_of ram_base d) ⊎ (host_of ram_base d + d.len ≤ at)

-- what a round leaves, when a packet arrives
pub record Round (ram_base : ℕ) (l : Link) (s : Net) (packet : List ℕ) (s' : Net) : Type 0 where
  pub arrived :
      read_bytes s'.mem (host_of ram_base (l.log l.taken)) (12 + length packet)
      ≡ net_header ++ packet
  pub agree : Agree (given l (12 + length packet)) s'
  pub desc_ring : s'.desc_ring ≡ s.desc_ring
  pub guest_event : s'.guest_event ≡ s.guest_event
  pub memory : length s'.mem ≡ length s.mem
  pub frame :
      (at n : ℕ)
      → IsSpared l s at n
      → IsOutside ram_base (l.log l.taken) at n
      → read_bytes s'.mem at n ≡ read_bytes s.mem at n

notified-Round :
    (ram_base : ℕ) (l : Link) (s : Net) (packet : List ℕ) (s' : Net) (b : Bool)
    → Round ram_base l s packet s'
    → Round ram_base l s packet (if b then notify_used s' else s')
unfolding notify_used
notified-Round ram_base l s packet s' true r = record {
  arrived = r.arrived;
  agree = record {
    vq = r.agree.vq;
    addr = r.agree.addr;
    len = r.agree.len;
    avail = r.agree.avail;
    used = r.agree.used;
    fits = r.agree.fits;
  };
  desc_ring = r.desc_ring;
  guest_event = r.guest_event;
  memory = r.memory;
  frame = r.frame;
}
notified-Round ram_base l s packet s' false r = r

module _ (ram_base : ℕ) (l : Link) (s : Net) (inv : Inv l) (a : Agree l s) (ready : IsIdle l s)
    (more : l.taken < l.sent) (packet : List ℕ) (b : IsBuffer ram_base l s (l.log l.taken))
    (fit : 12 + length packet ≤ (l.log l.taken).len) where
  abbrev d : Desc
  d = l.log l.taken

  a0 : Agree l (set_event s 0)
  a0 = event-Agree l s a ready.apart

  b0 : IsBuffer ram_base l (set_event s 0) d
  b0 = record {
    above = b.above;
    inside = omega (arith, b.inside, length-store_le s.mem (s.guest_event + 2) 2 0);
    small = b.small;
    spared = b.spared;
  }

  abbrev s1 : Net
  s1 = put_in ram_base l (set_event s 0) inv a0 ready.idle more packet b0 fit

  abbrev after : Net
  after = finish (l.taken % size l) s1

  -- the flags of the descriptor are of the ring, which the bytes are not
  spared_flags :
      (at n : ℕ)
      → IsSpared l s at n
      → (at + n ≤ desc_at s1 (l.taken % size l) + 14) ⊎ (desc_at s1 (l.taken % size l) + 16 ≤ at)
  spared_flags at n (ring, event) =
      let inside : l.taken % size l < size l = in_ring ram_base l s inv a ready.idle more in
      elim ring [ inl below ↦ inl (omega arith) | inr above ↦ inr (omega arith) ]

  pub header-IsSpared : IsSpared l s (host_of ram_base d) (12 + length packet)
  header-IsSpared = (
    elim b.spared.0 [ inl below ↦ inl (omega (arith, fit)) | inr above ↦ inr above ],
    elim b.spared.1 [ inl below ↦ inl (omega (arith, fit)) | inr above ↦ inr above ],
  )

  after-Round : Round ram_base l s packet after
  after-Round = record {
    arrived =
        read_bytes-finish s1 (l.taken % size l) (host_of ram_base d) (12 + length packet)
          (spared_flags _ _ header-IsSpared)
        ∙ put_in-arrived ram_base l (set_event s 0) inv a0 ready.idle more packet b0 fit;
    agree =
        given-Agree l (12 + length packet) (l.taken % size l) s1
          (put_in-Filled ram_base l (set_event s 0) inv a0 ready.idle more packet b0 fit)
          (in_ring ram_base l s inv a ready.idle more) (ap (λ i. i % size l) ready.idle);
    desc_ring = (queue-finish s1 (l.taken % size l)).1;
    guest_event = guest_event-finish s1 (l.taken % size l);
    memory =
        length-finish s1 (l.taken % size l)
        ∙ put_in-length ram_base l (set_event s 0) inv a0 ready.idle more packet b0 fit
        ∙ length-store_le s.mem (s.guest_event + 2) 2 0;
    frame = λ at n spared apart.
        read_bytes-finish s1 (l.taken % size l) at n (spared_flags at n spared)
        ∙ put_in-others ram_base l (set_event s 0) inv a0 ready.idle more packet b0 fit at n spared
            apart
        ∙ event_frame l s a ready.apart at n spared;
  }

  pub rx_round :
      (s' : Net) × (vq_avail_round ram_base (rx_ops ram_base (some packet)) true s ≡ some s')
      × Round ram_base l s packet s'
  unfolding vq_avail_round virtq_handle_avail
  rx_round =
      rw
        (
          ready.queue_on,
          complete_request_rx-put_in ram_base l (set_event s 0) inv a0 ready.idle more packet b0
              fit,
        )
        (_, refl, notified-Round ram_base l s packet after _ after-Round)
