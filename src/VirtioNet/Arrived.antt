-- ===== src/VirtioNet/Arrived.antt =====
-- The receive queue of src/virtio-net.c on the ring of Virtq/Protocol: a request is two steps of the
-- device, and its packet lies in the buffer of the descriptor.
use kvm_host.Common.{
  ℕ, ◌+◌, ◌-◌, ◌%◌, ◌<◌, ◌≤◌, ◌^◌, ◌≡◌, ◌≢◌, ◌⊎◌, inl, inr, refl, ap, ◌∙◌, some, List, ◌++◌, length,
  arith,
}
use mathlib.Core.Path.{subst}
use native.Mathlib.Decide.{dec_lt}
use kvm_host.Common.Bits.{has_bit}
use kvm_host.Common.Bytes.{read_bytes, load_le, le_value}
use kvm_host.Virtq.{Desc, advance}
use kvm_host.Virtq.Protocol.{Link, size}
use kvm_host.Virtq.Protocol.Invariant.{Inv}
use kvm_host.VirtioQueue.{desc_at, finish}
use kvm_host.VirtioQueue.Finished.{to_host, taken}
use kvm_host.VirtioNet.{Net, net_header, complete_request_rx}
use kvm_host.VirtioNet.Receive.{filled, filled-length, filled-buffer, filled-others, filled-len}
use kvm_host.VirtioNet.Driven.{Agree, Filled, place, mem_avail, here_addr, in_ring}
use kvm_host.VirtioNet.Stream.{IsSpared}

-- a buffer of the driver: it lies in the memory of the guest apart from what the device writes else
abbrev pub host_of : ℕ → Desc → ℕ
host_of ram_base d = d.addr - ram_base

pub record IsBuffer (ram_base : ℕ) (l : Link) (s : Net) (d : Desc) : Type 0 where
  pub above : ram_base ≤ d.addr
  pub inside : host_of ram_base d + d.len ≤ length s.mem
  pub small : d.len < 2 ^ 32
  pub spared : IsSpared l s (host_of ram_base d) d.len

module _ (ram_base : ℕ) (l : Link) (s : Net) (inv : Inv l) (a : Agree l s) (idle : l.used ≡ l.taken)
    (more : l.taken < l.sent) (packet : List ℕ) (b : IsBuffer ram_base l s (l.log l.taken))
    (fit : 12 + length packet ≤ (l.log l.taken).len) where
  abbrev k : ℕ
  k = l.taken % size l

  abbrev host : ℕ
  host = host_of ram_base (l.log l.taken)

  -- the device before it gives the descriptor back
  abbrev pub put_in : Net
  put_in = record s { vq = advance s.vq; mem = filled s.mem host (desc_at s k) packet }

  k-lt : k < size l
  k-lt = in_ring ram_base l s inv a idle more

  slot_fits : desc_at s k + 16 ≤ length s.mem
  slot_fits = omega (arith, a.fits, k-lt)

  room : host + (12 + length packet) ≤ length s.mem
  room = omega (arith, b.inside, fit)

  slot_apart : (desc_at s k + 16 ≤ host) ⊎ (host + (12 + length packet) ≤ desc_at s k)
  slot_apart = elim b.spared.0 [
    | inl below ↦ inr (omega (arith, fit))
    | inr above ↦ inl (omega (arith, k-lt))
  ]

  pub complete_request_rx-put_in :
      complete_request_rx ram_base (some packet) s ≡ some (finish k put_in)
  unfolding complete_request_rx
  complete_request_rx-put_in =
      let above : ram_base ≤ load_le s.mem (desc_at s s.vq.next_avail_idx) 8 =
        omega (arith, here_addr ram_base l s inv a idle more, b.above) in
      let avail = mem_avail ram_base l s inv a idle more in
      rw
        (
          taken ram_base s avail above,
          to_host ram_base s avail above,
          here_addr ram_base l s inv a idle more,
          place ram_base l s inv a idle more,
        )
        refl

  -- a part of a descriptor other than the length of that of the request
  part :
      (j offset n : ℕ)
      → j < size l
      → offset + n ≤ 16
      → (j ≢ k) ⊎ ((offset + n ≤ 8) ⊎ (12 ≤ offset))
      → load_le put_in.mem (desc_at s j + offset) n ≡ load_le s.mem (desc_at s j + offset) n
  unfolding load_le
  part j offset n lt inside other = ap le_value (
      filled-others s.mem host (desc_at s k) packet slot_fits room slot_apart (desc_at s j + offset)
        n (elim b.spared.0 [ inl below ↦ inr (omega (arith, fit)) | inr above ↦ inl (omega arith) ])
        (elim other [
          | inr here ↦ elim (dec_lt j k) [
            | yes before ↦ inl (omega arith)
            | no behind ↦ elim (dec_lt k j) [
              | yes after ↦ inr (omega arith)
              | no same ↦ elim here [ inl low ↦ inl (omega arith) | inr high ↦ inr (omega arith) ]
            ]
          ]
          | inl ne ↦ elim (dec_lt j k) [
            | yes before ↦ inl (omega arith)
            | no behind ↦ inr (omega (arith, ne))
          ]
        ]))

  pub put_in-Filled : Filled l (12 + length packet) k put_in
  put_in-Filled = record {
    vq = ap advance a.vq;
    addr = λ j lt.
        let first : desc_at s j + 0 ≡ desc_at s j = omega arith in
        subst (λ at. load_le put_in.mem at 8 ≡ load_le s.mem at 8) first
          (part j 0 8 lt (omega arith) (inr (inl (omega arith))))
        ∙ a.addr j lt;
    len_here =
        filled-len s.mem host (desc_at s k) packet slot_fits room slot_apart
          (omega (arith, b.small, fit));
    len = λ j lt ne. part j 8 4 lt (omega arith) (inl ne) ∙ a.len j lt;
    avail = λ j lt.
        ap (λ f. has_bit f 7) (part j 14 2 lt (omega arith) (inr (inr (omega arith))))
        ∙ a.avail j lt;
    used = λ j lt.
        ap (λ f. has_bit f 15) (part j 14 2 lt (omega arith) (inr (inr (omega arith))))
        ∙ a.used j lt;
    fits =
        omega
          (arith, a.fits, filled-length s.mem host (desc_at s k) packet slot_fits room slot_apart);
  }

  pub put_in-length : length put_in.mem ≡ length s.mem
  put_in-length = filled-length s.mem host (desc_at s k) packet slot_fits room slot_apart

  pub put_in-arrived : read_bytes put_in.mem host (12 + length packet) ≡ net_header ++ packet
  put_in-arrived = filled-buffer s.mem host (desc_at s k) packet slot_fits room slot_apart

  pub put_in-others :
      (at n : ℕ)
      → IsSpared l s at n
      → (at + n ≤ host) ⊎ (host + (l.log l.taken).len ≤ at)
      → read_bytes put_in.mem at n ≡ read_bytes s.mem at n
  put_in-others at n (ring, event) apart =
      filled-others s.mem host (desc_at s k) packet slot_fits room slot_apart at n
        (elim apart [ inl below ↦ inl below | inr above ↦ inr (omega (arith, fit)) ])
        (elim ring [ inl below ↦ inl (omega arith) | inr above ↦ inr (omega (arith, k-lt)) ])
