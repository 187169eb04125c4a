-- ===== src/VirtioNet/Delivered.antt =====
-- The loop of the receive thread of src/virtio-net.c, over the packets that the tap device has.
use kvm_host.Common.{
  ℕ, ◌^◌, ◌+◌, ◌<◌, ◌≤◌, ◌≡◌, inl, inr, refl, ◌∙◌, Option, some, List, [], ◌∷◌, ◌++◌, length, arith,
}
use kvm_host.Common.Poll.{pollin}
use kvm_host.Common.Bytes.{read_bytes}
use kvm_host.Virtq.{Desc, VirtqInfo}
use kvm_host.Virtq.Protocol.{Link, Reach}
use kvm_host.Virtq.Protocol.Preserved.{Reach-Inv}
use kvm_host.VirtioNet.{Net, net_header}
use kvm_host.VirtioNet.Threads.{virtio_net_vq_avail_handler_rx}
use kvm_host.VirtioNet.Driven.{Agree, given, takes_step, gives_step}
use kvm_host.VirtioNet.Stream.{IsIdle, IsSpared, given-IsIdle, given-IsSpared}
use kvm_host.VirtioNet.Arrival.{IsOutside, header-IsSpared, rx_round}
use kvm_host.VirtioNet.Arrived.{IsBuffer, host_of}

-- `poll` finds the packets, and `read` gives them
abbrev pub all_arrive : List (List ℕ) → List (Option ℕ × Option (List ℕ))
all_arrive [] = []
all_arrive (packet ∷ packets) = (some pollin, some packet) ∷ all_arrive packets

-- the packets have room, with their headers, in the buffers from number `from` on
abbrev pub Fits : (ℕ → Desc) → ℕ → List (List ℕ) → Type 0
Fits log from [] = Unit
Fits log from (packet ∷ packets) =
    (12 + length packet ≤ (log from).len) × Fits log (from + 1) packets

-- they lie in these buffers
abbrev pub Arrivals : ℕ → Net → (ℕ → Desc) → ℕ → List (List ℕ) → Type 0
Arrivals ram_base s log from [] = Unit
Arrivals ram_base s log from (packet ∷ packets) =
    (read_bytes s.mem (host_of ram_base (log from)) (12 + length packet) ≡ net_header ++ packet)
    × Arrivals ram_base s log (from + 1) packets

-- the link when their descriptors are given back, with the lengths
abbrev pub all_given : Link → List (List ℕ) → Link
all_given l [] = l
all_given l (packet ∷ packets) = all_given (given l (12 + length packet)) packets

-- what the rounds leave
pub record AllArrived (ram_base : ℕ) (info : VirtqInfo) (l : Link) (s : Net)
    (packets : List (List ℕ)) (s' : Net) : Type 0 where
  pub arrived : Arrivals ram_base s' l.log l.taken packets
  pub reached : Reach info (all_given l packets)
  pub agree : Agree (all_given l packets) s'
  pub frame :
      (at n : ℕ)
      → IsSpared l s at n
      → ((j : ℕ) → l.taken ≤ j → j < l.taken + length packets → IsOutside ram_base (l.log j) at n)
      → read_bytes s'.mem at n ≡ read_bytes s.mem at n

-- The receive thread, woken once for each of `packets`, on a ring that lies in the memory as driver
-- and device have left it, the device having given back all that it took; the queue is enabled, has 1
-- to 2^16 - 1 descriptors, and its ring does not hold the flags of the device's events. If the driver
-- has made that many descriptors more available, whose buffers lie in the memory of the guest apart
-- from each other and from what the device writes else, and each packet has room in its buffer behind
-- the header: the thread ends, the packets lie, each behind its header, in the buffers in the order in which the
-- driver made these available, the device has given the descriptors back in this order with the
-- lengths, on a ring that driver and device can go on with, and the memory outside of the buffers, the ring and those
-- flags is the same.
pub virtio_net_vq_avail_handler_rx-AllArrived :
    (ram_base : ℕ) (info : VirtqInfo) (packets : List (List ℕ)) (l : Link) (s : Net)
    → 0 < info.size
    → info.size < 2 ^ 16
    → Reach info l
    → Agree l s
    → IsIdle l s
    → l.taken + length packets ≤ l.sent
    → ((j : ℕ) → l.taken ≤ j → j < l.taken + length packets → IsBuffer ram_base l s (l.log j))
    → ((i j : ℕ)
        → l.taken ≤ i
        → i < j
        → j < l.taken + length packets
        → IsOutside ram_base (l.log j) (host_of ram_base (l.log i)) (l.log i).len)
    → Fits l.log l.taken packets
    → (s' : Net) × (virtio_net_vq_avail_handler_rx ram_base (all_arrive packets) s ≡ some s')
      × AllArrived ram_base info l s packets s'
unfolding virtio_net_vq_avail_handler_rx
virtio_net_vq_avail_handler_rx-AllArrived ram_base info [] l s pos small r a idle enough b apart
      fits =
    (s, refl, record { arrived = tt; reached = r; agree = a; frame = λ at n sp out. refl })
virtio_net_vq_avail_handler_rx-AllArrived ram_base info (packet ∷ packets) l s pos small r a idle
      enough b apart (fit, fits) =
    let inv = Reach-Inv info pos small l r in
    let first : IsBuffer ram_base l s (l.log l.taken) = b l.taken (omega arith) (omega arith) in
    let more : l.taken < l.sent = omega arith in
    let len = 12 + length packet in
    let (s1, run1, one) = rx_round ram_base l s inv a idle more packet first fit in
    let spared1 = given-IsSpared l len s s1 one.desc_ring one.guest_event in
    let r1 : Reach info (given l len) =
      Reach.next (Reach.next r (takes_step ram_base l s inv a idle.idle more))
        (gives_step ram_base l s inv a idle.idle more len) in
    let (s', run, rest) =
      virtio_net_vq_avail_handler_rx-AllArrived ram_base info packets (given l len) s1 pos small r1
        one.agree (given-IsIdle l len s s1 one.desc_ring one.guest_event a one.agree idle)
        (omega arith)
        (λ j lo hi.
          let q : IsBuffer ram_base l s (l.log j) = b j (omega arith) (omega arith) in
          record {
            above = q.above;
            inside = omega (arith, q.inside, one.memory);
            small = q.small;
            spared = spared1 _ _ q.spared;
          })
        (λ i j lo lt hi. apart i j (omega arith) lt (omega arith)) fits in
    (
      s',
      rw run1 run,
      record {
        arrived = (
          rest.frame (host_of ram_base (l.log l.taken)) len
                (spared1 _ _ (header-IsSpared ram_base l s inv a idle more packet first fit))
                (λ j lo hi. elim (apart l.taken j (omega arith) (omega arith) (omega arith)) [
                  | inl below ↦ inl (omega (arith, fit))
                  | inr above ↦ inr above
                ])
              ∙ one.arrived,
          rest.arrived,
        );
        reached = rest.reached;
        agree = rest.agree;
        frame = λ at n spared out.
            rest.frame at n (spared1 at n spared) (λ j lo hi. out j (omega arith) (omega arith))
            ∙ one.frame at n spared (out l.taken (omega arith) (omega arith));
      },
    )
