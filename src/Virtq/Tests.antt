-- ===== src/Virtq/Tests.antt =====
-- Runs of the packed virtqueue of src/virtq.c, and its theorems at concrete queues.
use kvm_host.Common.{◌≡◌, refl, true, false, some, arith}
use kvm_host.Virtq.{Ring, VirtqInfo, Virtq, virtq_get_avail, is_avail}
use kvm_host.Virtq.Flags.{mark_used, is_avail-mark_used}
use kvm_host.Virtq.Position.{At, Looked, virtq_get_avail-Looked}

abbrev info : VirtqInfo
info = record {
  size = 4;
  msix_vector = 0;
  enable = 1;
  notify_off = 0;
  desc_addr = 0;
  device_addr = 0;
  driver_addr = 0;
}

-- seven descriptors taken: the last slot of the second lap
abbrev queue : Virtq
queue = record { info = info; next_avail_idx = 3; used_wrap_count = false }

queue-At : At queue 7
queue-At = record { some_slot = omega arith; small = omega arith; place = refl; wrap = refl }

-- available on the second lap: AVAIL is clear and USED is set
abbrev ring : Ring
ring i = record { addr = 0; len = 0; id = i; flags = 0x8000 }

takes_last_slot :
    virtq_get_avail queue ring
    ≡ (record queue { next_avail_idx = 0; used_wrap_count = true }, some 3)
unfolding virtq_get_avail
takes_last_slot = refl

virtq_get_avail-Looked_example : Looked queue ring 7 (virtq_get_avail queue ring)
virtq_get_avail-Looked_example = virtq_get_avail-Looked queue ring 7 queue-At

first_lap : is_avail true 0x81 ≡ true
unfolding is_avail
first_lap = refl

is_avail-mark_used_example : is_avail false (mark_used 0x81) ≡ false
is_avail-mark_used_example = is_avail-mark_used true false 0x81 first_lap
