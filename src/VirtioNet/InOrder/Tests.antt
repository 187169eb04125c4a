-- ===== src/VirtioNet/InOrder/Tests.antt =====
-- Two packets on a ring of two descriptors, to the tap device and from it.
use kvm_host.Common.{
  ℕ, zero, suc, List, ◌<◌, ◌≤◌, ◌≡◌, refl, some, [], ◌∷◌, arith, replicate, set, inl, inr, ap,
}
use kvm_host.Common.Bits.{has_bit}
use kvm_host.Common.Bytes.{load_le}
use kvm_host.Virtq.{Desc, VirtqInfo}
use kvm_host.Virtq.Protocol.{Link, Step, Reach, start, publish}
use kvm_host.VirtioQueue.{ring_of}
use kvm_host.Vm.Example
use kvm_host.VirtioNet.{Net}
use kvm_host.VirtioNet.Threads.{virtio_net_vq_avail_handler_tx, virtio_net_vq_avail_handler_rx}
use kvm_host.VirtioNet.Arrived.{IsBuffer, host_of}
use kvm_host.VirtioNet.Arrival.{IsOutside}
use kvm_host.VirtioNet.Delivered.{AllArrived, all_arrive, virtio_net_vq_avail_handler_rx-AllArrived}
use kvm_host.VirtioNet.Driven.{Agree}
use kvm_host.VirtioNet.Stream.{IsIdle, IsPacket}
use kvm_host.VirtioNet.InOrder.{all_ready, packets, Rounds, virtio_net_vq_avail_handler_tx-Rounds}

abbrev info : VirtqInfo
info = record Example.info { size = 2; enable = 1 }

abbrev request : ℕ → ℕ → Desc
request addr len = record { addr = addr; len = len; id = 0; flags = 0x80 }

abbrev filled : Link
filled = publish (publish (start info) (request 32 14)) (request 48 13)

filled-Reach : Reach info filled
filled-Reach =
    Reach.next
      (Reach.next Reach.here
        (Step.publishes (start info) (request 32 14) (omega arith) (refl, refl)))
      (Step.publishes (publish (start info) (request 32 14)) (request 48 13) (omega arith)
        (refl, refl))

-- the ring at 0, the buffers at 32 and 48, and the event flags of the driver at 90
abbrev net : Net
net = record {
  dev = Example.dev;
  vq = filled.vq;
  mem =
      set
        (set
          (set (set (set (set (set (set (replicate 96 0) 0 32) 8 14) 14 0x80) 16 48) 24 13) 30 0x80)
          44 7)
        60 9;
  desc_ring = 0;
  device_event = 92;
  guest_event = 88;
  notify_addr = 0;
  irqs = 0;
  outside = [];
}

same_addr : (i : ℕ) → i < 2 → (ring_of net i).addr ≡ (filled.ring i).addr
unfolding load_le
same_addr zero lt = refl
same_addr (suc zero) lt = refl
same_addr (suc (suc i)) lt = absurd (omega arith)

same_len : (i : ℕ) → i < 2 → (ring_of net i).len ≡ (filled.ring i).len
unfolding load_le
same_len zero lt = refl
same_len (suc zero) lt = refl
same_len (suc (suc i)) lt = absurd (omega arith)

same_flags : (i : ℕ) → i < 2 → (ring_of net i).flags ≡ (filled.ring i).flags
unfolding load_le
same_flags zero lt = refl
same_flags (suc zero) lt = refl
same_flags (suc (suc i)) lt = absurd (omega arith)

net-Agree : Agree filled net
net-Agree = record {
  vq = refl;
  addr = same_addr;
  len = same_len;
  avail = λ i lt. ap (λ f. has_bit f 7) (same_flags i lt);
  used = λ i lt. ap (λ f. has_bit f 15) (same_flags i lt);
  fits = omega arith;
}

net-IsIdle : IsIdle filled net
net-IsIdle = record { idle = refl; queue_on = refl; apart = inr (omega arith) }

both-IsPacket : (j : ℕ) → 0 ≤ j → j < 2 → IsPacket 0 filled net (filled.log j)
both-IsPacket zero lo lt = record {
  above = omega arith;
  header = omega arith;
  spared = (inr (omega arith), inl (omega arith));
}
both-IsPacket (suc zero) lo lt = record {
  above = omega arith;
  header = omega arith;
  spared = (inr (omega arith), inl (omega arith));
}
both-IsPacket (suc (suc j)) lo lt = absurd (omega arith)

virtio_net_vq_avail_handler_tx-Rounds_example :
    (s' : Net) × (virtio_net_vq_avail_handler_tx 0 (all_ready 2) net ≡ some s')
    × Rounds 0 info filled net 2 s'
virtio_net_vq_avail_handler_tx-Rounds_example =
    virtio_net_vq_avail_handler_tx-Rounds 0 info 2 filled net (omega arith) (omega arith)
      filled-Reach net-Agree net-IsIdle (omega arith) both-IsPacket

-- the packets are the bytes behind the headers
packets-net : packets 0 net filled.log 2 0 ≡ (7 ∷ 0 ∷ []) ∷ (9 ∷ []) ∷ []
packets-net = refl

-- two packets that fill the buffers
abbrev two_packets : List (List ℕ)
two_packets = (5 ∷ 6 ∷ []) ∷ (8 ∷ []) ∷ []

both-IsBuffer : (j : ℕ) → 0 ≤ j → j < 2 → IsBuffer 0 filled net (filled.log j)
both-IsBuffer zero lo lt = record {
  above = omega arith;
  inside = omega arith;
  small = omega arith;
  spared = (inr (omega arith), inl (omega arith));
}
both-IsBuffer (suc zero) lo lt = record {
  above = omega arith;
  inside = omega arith;
  small = omega arith;
  spared = (inr (omega arith), inl (omega arith));
}
both-IsBuffer (suc (suc j)) lo lt = absurd (omega arith)

both_apart :
    (i j : ℕ)
    → 0 ≤ i
    → i < j
    → j < 2
    → IsOutside 0 (filled.log j) (host_of 0 (filled.log i)) (filled.log i).len
both_apart zero (suc zero) lo lt hi = inl (omega arith)
both_apart i zero lo lt hi = absurd (omega arith)
both_apart (suc i) (suc zero) lo lt hi = absurd (omega arith)
both_apart i (suc (suc j)) lo lt hi = absurd (omega arith)

virtio_net_vq_avail_handler_rx-AllArrived_example :
    (s' : Net) × (virtio_net_vq_avail_handler_rx 0 (all_arrive two_packets) net ≡ some s')
    × AllArrived 0 info filled net two_packets s'
virtio_net_vq_avail_handler_rx-AllArrived_example =
    virtio_net_vq_avail_handler_rx-AllArrived 0 info two_packets filled net (omega arith)
      (omega arith) filled-Reach net-Agree net-IsIdle (omega arith) both-IsBuffer both_apart
      (omega arith, (omega arith, tt))
