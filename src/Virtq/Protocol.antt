-- ===== src/Virtq/Protocol.antt =====
-- A driver and a device on one packed ring: the device looks for descriptors with `virtq_get_avail` of
-- src/virtq.c and gives them back by the exclusive or of its devices, and the driver does what the
-- virtio specification asks of it. Each request has one descriptor, as those of src/virtio-net.c.
pub mod Slots
pub mod Invariant
pub mod Preserved
pub mod Delivery
mod Tests
use kvm_host.Common.{
  ℕ, ◌+◌, ◌%◌, ◌<◌, ◌≤◌, ◌^◌, ◌≡◌, Bool, true, false, not, ◌&&◌, Option, some, none, ◌==◌, ltb,
  if◌then◌else◌,
}
use kvm_host.Common.Bits.{has_bit}
use kvm_host.Virtq.{Desc, Ring, Virtq, VirtqInfo, same, virtq_get_avail}
use kvm_host.Virtq.Flags.{mark_used}
use kvm_host.Virtq.Position.{wrap_at}

-- The ring and the queue of the device, and the numbers of descriptors that the driver has made
-- available (`sent`) and has got back (`back`), and that the device has taken and given back
-- (`used`). `log` is what the driver sent.
pub record Link : Type 0 where
  pub vq : Virtq
  pub ring : Ring
  pub sent : ℕ
  pub taken : ℕ
  pub used : ℕ
  pub back : ℕ
  pub log : ℕ → Desc

abbrev pub size : Link → ℕ
size l = l.vq.info.size

-- slot `i` of the ring
abbrev pub put : Ring → ℕ → Desc → Ring
put ring i d j = if j == i then d else ring j

-- the flags of a descriptor that the driver makes available under the wrap counter `wrap`
abbrev pub IsFresh : Bool → Desc → Type 0
IsFresh wrap d = (has_bit d.flags 7 ≡ wrap) × (has_bit d.flags 15 ≡ not wrap)

-- the test of the driver: both flags are its wrap counter
abbrev pub is_used : Bool → ℕ → Bool
is_used wrap flags = same (has_bit flags 7) wrap && same (has_bit flags 15) wrap

-- the driver makes a descriptor available
abbrev pub publish : Link → Desc → Link
publish l d = record l {
  ring = put l.ring (l.sent % size l) d;
  sent = l.sent + 1;
  log = λ n. if n == l.sent then d else l.log n;
}

-- the device gives the oldest descriptor back, with the length that it wrote
abbrev pub give : Link → ℕ → Link
give l len =
    let slot = l.used % size l in
    record l {
      ring =
          put l.ring slot
            (record (l.ring slot) { len = len; flags = mark_used (l.ring slot).flags });
      used = l.used + 1;
    }

pub data Step : Link → Link → Type 0 where
  publishes :
      (l : Link) (d : Desc)
      → l.sent < l.back + size l
      → IsFresh (wrap_at (size l) l.sent) d
      → Step l (publish l d)
  takes :
      (l : Link) (vq : Virtq) (i : ℕ)
      → virtq_get_avail l.vq l.ring ≡ (vq, some i)
      → Step l (record l { vq = vq; taken = l.taken + 1 })
  gives : (l : Link) (len : ℕ) → l.used < l.taken → Step l (give l len)
  reclaims :
      (l : Link)
      → is_used (wrap_at (size l) l.back) (l.ring (l.back % size l)).flags ≡ true
      → Step l (record l { back = l.back + 1 })

-- an empty ring, whose memory is zero
abbrev pub start : VirtqInfo → Link
start info = record {
  vq = record { info = info; next_avail_idx = 0; used_wrap_count = true };
  ring = λ i. record { addr = 0; len = 0; id = 0; flags = 0 };
  sent = 0;
  taken = 0;
  used = 0;
  back = 0;
  log = λ n. record { addr = 0; len = 0; id = 0; flags = 0 };
}

pub data Reach (info : VirtqInfo) : Link → Type 0 where
  here : Reach info (start info)
  next : {l m : Link} → Reach info l → Step l m → Reach info m
