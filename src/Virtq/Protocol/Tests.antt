-- ===== src/Virtq/Protocol/Tests.antt =====
-- Driver and device of src/virtq.c on a ring of two descriptors.
use kvm_host.Common.{ℕ, ◌≡◌, refl, arith, some}
use kvm_host.Virtq.{Desc, VirtqInfo, virtq_get_avail}
use kvm_host.Virtq.Flags.{mark_used}
use kvm_host.Virtq.Protocol.{Link, Step, Reach, start, publish, give, is_used, size}
use kvm_host.Virtq.Protocol.Invariant.{slot, wrap}
use kvm_host.Virtq.Protocol.Delivery.{offered, oldest, Reach-offered}
use kvm_host.Common.{◌≤◌, ◌+◌, ltb}

abbrev info : VirtqInfo
info = record {
  size = 2;
  msix_vector = 0;
  enable = 1;
  notify_off = 0;
  desc_addr = 0;
  device_addr = 0;
  driver_addr = 0;
}

abbrev request : ℕ → Desc
request addr = record { addr = addr; len = 16; id = 0; flags = 0x80 }

-- the driver fills the ring, and the device takes the first request and gives it back
abbrev filled : Link
filled = publish (publish (start info) (request 100)) (request 200)

abbrev one_taken : Link
one_taken = record filled { vq = (virtq_get_avail filled.vq filled.ring).0; taken = 1 }

abbrev one_back : Link
one_back = record (give one_taken 7) { back = 1 }

filled-Reach : Reach info filled
filled-Reach =
    Reach.next
      (Reach.next Reach.here (Step.publishes (start info) (request 100) (omega arith) (refl, refl)))
      (Step.publishes (publish (start info) (request 100)) (request 200) (omega arith) (refl, refl))

one_back-Reach : Reach info one_back
unfolding virtq_get_avail mark_used
one_back-Reach =
    Reach.next
      (Reach.next
        (Reach.next filled-Reach
          (Step.takes filled (virtq_get_avail filled.vq filled.ring).0 0 refl))
        (Step.gives one_taken 7 (omega arith)))
      (Step.reclaims (give one_taken 7) refl)

second_offered : offered one_back ≡ some (200, 16)
unfolding virtq_get_avail mark_used
second_offered = refl

Reach-offered_example :
    (offered one_back ≡ oldest one_back)
    × (is_used (wrap one_back one_back.back) (slot one_back one_back.back).flags
        ≡ ltb one_back.back one_back.used)
    × (one_back.sent ≤ one_back.back + size one_back)
Reach-offered_example = Reach-offered info one_back (omega arith) (omega arith) one_back-Reach
