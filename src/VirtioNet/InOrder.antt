-- ===== src/VirtioNet/InOrder.antt =====
-- The loop of the transmit thread of src/virtio-net.c, over all that the driver has made available.
mod Tests
use kvm_host.Common.{
  ℕ, zero, suc, ◌^◌, ◌+◌, ◌-◌, ◌*◌, ◌<◌, ◌≤◌, ◌≡◌, refl, sym, ap, ◌∙◌, Bool, true, Option, some,
  List, [], ◌∷◌, ◌++◌, arith, truthy, replicate, ◌>>=◌,
}
use mathlib.Core.List.{append_assoc, append-nil}
use kvm_host.Common.Poll.{pollin, pollout}
use kvm_host.Virtq.{Desc, Virtq, VirtqInfo}
use kvm_host.Virtq.Position.{info-advance}
use kvm_host.Virtq.Protocol.{Link, Reach, size}
use kvm_host.Virtq.Protocol.Invariant.{slot}
use kvm_host.Virtq.Protocol.Preserved.{Reach-Inv}
use kvm_host.VirtioNet.{Net}
use kvm_host.VirtioNet.Threads.{virtio_net_vq_avail_handler_tx}
use kvm_host.VirtioNet.Driven.{Agree, served, packet_at, takes_step, gives_step}
use kvm_host.VirtioNet.Stream.{IsIdle, IsPacket, given-IsIdle, given-IsSpared, tx_round}

-- the packets of `n` descriptors of the driver from number `from` on
abbrev pub packets : ℕ → Net → (ℕ → Desc) → ℕ → ℕ → List (List ℕ)
packets ram_base s log zero from = []
packets ram_base s log (suc n) from =
    packet_at ram_base s (log from).addr (log from).len ∷ packets ram_base s log n (from + 1)

-- `poll` finds a notification and a tap device that can be written, and `writev` succeeds, `n` times
abbrev pub all_ready : ℕ → List (Option (ℕ × ℕ) × Bool)
all_ready n = replicate n (some (pollin, pollout), true)

packets_same :
    (ram_base : ℕ) (s t : Net) (log : ℕ → Desc) (n from : ℕ)
    → ((j : ℕ)
        → from ≤ j
        → j < from + n
        → packet_at ram_base t (log j).addr (log j).len
          ≡ packet_at ram_base s (log j).addr (log j).len)
    → packets ram_base t log n from ≡ packets ram_base s log n from
packets_same ram_base s t log zero from same = refl
packets_same ram_base s t log (suc n) from same =
    rw
      (
        same from (omega arith) (omega arith),
        packets_same ram_base s t log n (from + 1) (λ j lo hi. same j (omega arith) (omega arith)),
      )
      refl

-- what `n` rounds leave
pub record Rounds (ram_base : ℕ) (info : VirtqInfo) (l : Link) (s : Net) (n : ℕ) (s' : Net)
    : Type 0 where
  pub handed_over : s'.outside ≡ s.outside ++ packets ram_base s l.log n l.taken
  pub link : Link
  pub reached : Reach info link
  pub agree : Agree link s'
  pub taken : link.taken ≡ l.taken + n
  pub used : link.used ≡ l.taken + n

-- The transmit thread, woken `n` times with a tap device that can be written and takes the packets, on
-- a ring that lies in the memory as driver and device have left it, the device having given back all
-- that it took; the queue is enabled, has 1 to 2^16 - 1 descriptors, and its ring does not hold the
-- flags of the device's events. If the driver has made `n` descriptors more available, and these have a header and a
-- buffer in the memory of the guest apart from what the device writes: the thread ends, has handed
-- the packets of just these over to the tap device in the order in which the driver made them
-- available, and has given all of them back, on a ring that driver and device can go on with.
pub virtio_net_vq_avail_handler_tx-Rounds :
    (ram_base : ℕ) (info : VirtqInfo) (n : ℕ) (l : Link) (s : Net)
    → 0 < info.size
    → info.size < 2 ^ 16
    → Reach info l
    → Agree l s
    → IsIdle l s
    → l.taken + n ≤ l.sent
    → ((j : ℕ) → l.taken ≤ j → j < l.taken + n → IsPacket ram_base l s (l.log j))
    → (s' : Net) × (virtio_net_vq_avail_handler_tx ram_base (all_ready n) s ≡ some s')
      × Rounds ram_base info l s n s'
unfolding virtio_net_vq_avail_handler_tx
virtio_net_vq_avail_handler_tx-Rounds ram_base info zero l s pos small r a idle enough p = (
  s,
  refl,
  record {
    handed_over = sym (append-nil s.outside);
    link = l;
    reached = r;
    agree = a;
    taken = omega arith;
    used = omega (arith, idle.idle);
  },
)
virtio_net_vq_avail_handler_tx-Rounds ram_base info (suc n) l s pos small r a idle enough p =
    let inv = Reach-Inv info pos small l r in
    let first : IsPacket ram_base l s (l.log l.taken) = p l.taken (omega arith) (omega arith) in
    let more : l.taken < l.sent = omega arith in
    let (s1, run1, one) = tx_round ram_base l s inv a idle more first in
    let r1 : Reach info (served l) =
      Reach.next (Reach.next r (takes_step ram_base l s inv a idle.idle more))
        (gives_step ram_base l s inv a idle.idle more _) in
    let (s', run, rest) =
      virtio_net_vq_avail_handler_tx-Rounds ram_base info n (served l) s1 pos small r1 one.agree
        (given-IsIdle l (slot l l.used).len s s1 one.desc_ring one.guest_event a one.agree idle)
        (omega arith)
        (λ j lo hi.
          let q : IsPacket ram_base l s (l.log j) = p j (omega arith) (omega arith) in
          record {
            above = q.above;
            header = q.header;
            spared =
                given-IsSpared l (slot l l.used).len s s1 one.desc_ring one.guest_event _ _
                  q.spared;
          }) in
    (
      s',
      rw run1 run,
      record {
        handed_over =
            rest.handed_over
            ∙ ap (λ o. o ++ packets ram_base s1 l.log n (l.taken + 1)) one.handed_over
            ∙ ap
                (λ o.
                  (s.outside
                    ++ (packet_at ram_base s (l.log l.taken).addr (l.log l.taken).len ∷ []))
                  ++ o)
                (packets_same ram_base s s1 l.log n (l.taken + 1)
                  (λ j lo hi. one.frame _ _ (p j (omega arith) (omega arith)).spared))
            ∙ append_assoc s.outside _ _;
        link = rest.link;
        reached = rest.reached;
        agree = rest.agree;
        taken = omega (arith, rest.taken);
        used = omega (arith, rest.used);
      },
    )
