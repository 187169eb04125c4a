-- ===== src/VirtioNet/Driven.antt =====
-- The transmit queue of src/virtio-net.c on the ring of Virtq/Protocol: a request is two steps of the
-- device.
use kvm_host.Common.{
  ℕ, ◌+◌, ◌-◌, ◌*◌, ◌%◌, ◌<◌, ◌≤◌, ◌≡◌, ◌≢◌, refl, sym, ap, ◌∙◌, Bool, true, not, some, List, [],
  ◌∷◌, ◌++◌, length, le→ltb, lt→ltb, arith, ◌==◌, ==_refl, ==_ne, ==→eq, Bool-cases, inl, inr,
}
use mathlib.Core.Path.{subst}
use mathlib.Core.Bool.{false≢true}
use native.Mathlib.Nat.{mod-lt}
use kvm_host.Common.Bits.{has_bit}
use kvm_host.Common.Bytes.{read_bytes, load_le}
use kvm_host.Virtq.{Desc, Virtq, advance, is_avail, virtq_get_avail}
use kvm_host.Virtq.Position.{info-advance}
use kvm_host.Virtq.Flags.{mark_used, is_avail_lem, used_bit, avail_bit}
use kvm_host.Virtq.Protocol.{Link, Step, size, give, put}
use kvm_host.Virtq.Protocol.Invariant.{Inv, is_avail-ltb, slot}
use kvm_host.VirtioQueue.{desc_at, ring_of, finish}
use kvm_host.VirtioQueue.Finished.{current, to_host, taken}
use kvm_host.VirtioQueue.Marked.{
  queue-finish, length-finish, addr-finish, len-finish, ring_of-finish_ne, avail_bit-finish,
  used_bit-finish,
}
use kvm_host.VirtioNet.{Net, complete_request_tx}

-- The descriptors of the ring that lie in the memory are those of the link, and the device reads its
-- flags only.
pub record Agree (l : Link) (s : Net) : Type 0 where
  pub vq : s.vq ≡ l.vq
  pub addr : (i : ℕ) → i < size l → (ring_of s i).addr ≡ (l.ring i).addr
  pub len : (i : ℕ) → i < size l → (ring_of s i).len ≡ (l.ring i).len
  pub avail : (i : ℕ) → i < size l → has_bit (ring_of s i).flags 7 ≡ has_bit (l.ring i).flags 7
  pub used : (i : ℕ) → i < size l → has_bit (ring_of s i).flags 15 ≡ has_bit (l.ring i).flags 15
  pub fits : s.desc_ring + 16 * size l ≤ length s.mem

-- the link when the descriptor that is taken is given back with the length `len`
abbrev pub given : Link → ℕ → Link
given l len = give (record l { vq = advance l.vq; taken = l.taken + 1 }) len

-- what lies in the memory when the device has written the length of the descriptor of slot `k`, and
-- has not given it back yet
pub record Filled (l : Link) (written : ℕ) (k : ℕ) (s : Net) : Type 0 where
  pub vq : s.vq ≡ advance l.vq
  pub addr : (i : ℕ) → i < size l → (ring_of s i).addr ≡ (l.ring i).addr
  pub len_here : (ring_of s k).len ≡ written
  pub len : (i : ℕ) → i < size l → i ≢ k → (ring_of s i).len ≡ (l.ring i).len
  pub avail : (i : ℕ) → i < size l → has_bit (ring_of s i).flags 7 ≡ has_bit (l.ring i).flags 7
  pub used : (i : ℕ) → i < size l → has_bit (ring_of s i).flags 15 ≡ has_bit (l.ring i).flags 15
  pub fits : s.desc_ring + 16 * size l ≤ length s.mem

-- to give it back is a step of the ring in the memory and of the link
module _ (l : Link) (written k : ℕ) (s : Net) (f : Filled l written k s) (in_ring : k < size l)
    (oldest : l.used % size l ≡ k) where
  abbrev marked : Desc
  marked = record (l.ring k) { len = written; flags = mark_used (l.ring k).flags }

  given_ring : (j : ℕ) → (given l written).ring j ≡ put l.ring k marked j
  given_ring j = rw (info-advance l.vq, oldest) refl

  given_here : (given l written).ring k ≡ marked
  given_here = given_ring k ∙ rw (==_refl k) refl

  given_other : (j : ℕ) → j ≢ k → (given l written).ring j ≡ l.ring j
  given_other j ne = given_ring j ∙ rw (==_ne j k ne) refl

  slot_fits : desc_at s k + 16 ≤ length s.mem
  slot_fits = omega (arith, f.fits, in_ring)

  -- a part of a descriptor that the two rings have in common, before and afterwards
  both_rings :
      {T : Type 0} (part : Desc → T)
      → part (ring_of (finish k s) k) ≡ part marked
      → ((j : ℕ) → j < size l → j ≢ k → part (ring_of s j) ≡ part (l.ring j))
      → (j : ℕ) → j < size l
      → part (ring_of (finish k s) j) ≡ part ((given l written).ring j)
  both_rings part here before j lt = elim (Bool-cases (j == k)) [
    | inl hit ↦
        subst (λ m. part (ring_of (finish k s) m) ≡ part ((given l written).ring m))
          (sym (==→eq j k hit)) (here ∙ ap part (sym given_here))
    | inr miss ↦
        let ne : j ≢ k = λ e. false≢true (sym miss ∙ rw e (==_refl k)) in
        ap part (ring_of-finish_ne s k j ne) ∙ before j lt ne ∙ ap part (sym (given_other j ne))
  ]

  in_size : (j : ℕ) → j < size (given l written) → j < size l
  in_size j lt = rw (info-advance l.vq) at lt

  pub given-Agree : Agree (given l written) (finish k s)
  given-Agree = record {
    vq = (queue-finish s k).0 ∙ f.vq;
    addr = λ j lt.
        both_rings (λ d. d.addr) (addr-finish s k ∙ f.addr k in_ring) (λ i b ne. f.addr i b) j
          (in_size j lt);
    len = λ j lt. both_rings (λ d. d.len) (len-finish s k ∙ f.len_here) f.len j (in_size j lt);
    avail = λ j lt.
        both_rings (λ d. has_bit d.flags 7)
          (avail_bit-finish s k slot_fits ∙ f.avail k in_ring ∙ sym (avail_bit (l.ring k).flags))
          (λ i b ne. f.avail i b) j (in_size j lt);
    used = λ j lt.
        both_rings (λ d. has_bit d.flags 15)
          (used_bit-finish s k slot_fits
            ∙ ap not (f.used k in_ring)
            ∙ sym (used_bit (l.ring k).flags))
          (λ i b ne. f.used i b) j (in_size j lt);
    fits = rw ((queue-finish s k).1, info-advance l.vq, length-finish s k) f.fits;
  }

-- the packet of the descriptor that is `len` bytes at `addr`
abbrev pub packet_at : ℕ → Net → ℕ → ℕ → List ℕ
packet_at ram_base s addr len = read_bytes s.mem (addr - ram_base + 12) (len - 12)

-- the device after the request of descriptor `i`
abbrev pub sent_off : Net → ℕ → List ℕ → Net
sent_off s i packet =
    finish i (record s { vq = advance s.vq; outside = s.outside ++ (packet ∷ []) })

-- the link after it
abbrev pub served : Link → Link
served l = given l (slot l l.used).len

-- the device's test reads the two flags
same_avail :
    (wrap : Bool) (f g : ℕ)
    → has_bit f 7 ≡ has_bit g 7
    → has_bit f 15 ≡ has_bit g 15
    → is_avail wrap f ≡ is_avail wrap g
same_avail wrap f g a u = rw (is_avail_lem wrap f, is_avail_lem wrap g, a, u) refl

module _ (ram_base : ℕ) (l : Link) (s : Net) (inv : Inv l) (a : Agree l s) (idle : l.used ≡ l.taken)
    (more : l.taken < l.sent) where
  pub in_ring : l.taken % size l < size l
  in_ring = mod-lt l.taken inv.position.some_slot

  pub place : s.vq.next_avail_idx ≡ l.taken % size l
  place = ap (λ (q : Virtq). q.next_avail_idx) a.vq ∙ inv.position.place

  link_avail : is_avail l.vq.used_wrap_count (l.ring (l.taken % size l)).flags ≡ true
  link_avail = rw inv.position.wrap (is_avail-ltb l inv ∙ lt→ltb l.taken l.sent more)

  pub mem_avail : is_avail s.vq.used_wrap_count (ring_of s s.vq.next_avail_idx).flags ≡ true
  mem_avail = rw place (
      ap (λ (q : Virtq). is_avail q.used_wrap_count (ring_of s (l.taken % size l)).flags) a.vq
      ∙ same_avail l.vq.used_wrap_count (ring_of s (l.taken % size l)).flags
          (l.ring (l.taken % size l)).flags (a.avail (l.taken % size l) in_ring)
          (a.used (l.taken % size l) in_ring)
      ∙ link_avail)

  pub takes_step : Step l (record l { vq = advance l.vq; taken = l.taken + 1 })
  unfolding virtq_get_avail
  takes_step =
      Step.takes l (advance l.vq) l.vq.next_avail_idx (rw (inv.position.place, link_avail) refl)

  pub gives_step :
      (len : ℕ) → Step (record l { vq = advance l.vq; taken = l.taken + 1 }) (given l len)
  gives_step len =
      Step.gives (record l { vq = advance l.vq; taken = l.taken + 1 }) len (omega arith)

  pub here_addr : load_le s.mem (current s) 8 ≡ (l.log l.taken).addr
  here_addr =
      ap (λ i. (ring_of s i).addr) place
      ∙ a.addr (l.taken % size l) in_ring
      ∙ (inv.content l.taken (omega (arith, idle)) more).0

  here_len : load_le s.mem (current s + 8) 4 ≡ (l.log l.taken).len
  here_len =
      ap (λ i. (ring_of s i).len) place
      ∙ a.len (l.taken % size l) in_ring
      ∙ (inv.content l.taken (omega (arith, idle)) more).1

  pub complete_request_tx-sent_off :
      ram_base ≤ (l.log l.taken).addr
      → 12 ≤ (l.log l.taken).len
      → complete_request_tx ram_base true s
        ≡ some (
            sent_off s
              (l.taken % size l)
              (packet_at ram_base s (l.log l.taken).addr (l.log l.taken).len))
  unfolding complete_request_tx
  complete_request_tx-sent_off above enough =
      let above' : ram_base ≤ load_le s.mem (current s) 8 = omega (arith, here_addr, above) in
      rw
        (
          taken ram_base s mem_avail above',
          to_host ram_base s mem_avail above',
          here_len,
          le→ltb (l.log l.taken).len 12 enough,
          here_addr,
          place,
        )
        refl

  pub served-Agree :
      (packet : List ℕ)
      → Agree (served l) (
          finish
            (l.taken % size l)
            (record s { vq = advance s.vq; outside = s.outside ++ (packet ∷ []) }))
  served-Agree packet =
      given-Agree l (slot l l.used).len (l.taken % size l)
        (record s { vq = advance s.vq; outside = s.outside ++ (packet ∷ []) })
        record {
          vq = ap advance a.vq;
          addr = a.addr;
          len_here =
              a.len (l.taken % size l) in_ring ∙ ap (λ i. (l.ring (i % size l)).len) (sym idle);
          len = λ j lt ne. a.len j lt;
          avail = a.avail;
          used = a.used;
          fits = a.fits;
        }
        in_ring (ap (λ i. i % size l) idle)
