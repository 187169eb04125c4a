-- ===== src/Virtq.antt =====
-- The packed virtqueue of src/virtq.c and src/virtq.h. The descriptor ring lies in guest memory and
-- is shared with the driver: it is an argument, and a descriptor is named by its index. Flag bits
-- are those of <linux/virtio_ring.h>.
pub mod Position
pub mod Flags
pub mod Protocol
mod Tests
use kvm_host.Common.{
  ℕ, ◌+◌, ◌-◌, ◌%◌, ◌^◌, bit_and, Bool, true, false, not, ◌||◌, Option, none, some, ◌==◌, leb,
  truthy, if◌then◌else◌, ◌>>=◌,
}

-- `struct vring_packed_desc`
pub record Desc : Type 0 where
  pub addr : ℕ
  pub len : ℕ
  pub id : ℕ
  pub flags : ℕ

abbrev pub Ring : Type 0
Ring = ℕ → Desc

-- `struct virtq_info`: the part of a queue's state that the guest configures
pub record VirtqInfo : Type 0 where
  pub size : ℕ
  pub msix_vector : ℕ
  pub enable : ℕ
  pub notify_off : ℕ
  pub desc_addr : ℕ
  pub device_addr : ℕ
  pub driver_addr : ℕ

-- `struct virtq`. The three ring pointers are those of `info` in host addresses, kept by the
-- devices that set them; `dev` and `ops` are the arguments of `virtq_handle_avail`.
pub record Virtq : Type 0 where
  pub info : VirtqInfo
  pub next_avail_idx : ℕ
  pub used_wrap_count : Bool

abbrev pub vring_desc_f_next : ℕ
vring_desc_f_next = 1

abbrev pub vring_packed_desc_f_avail : ℕ
vring_packed_desc_f_avail = 7

abbrev pub vring_packed_desc_f_used : ℕ
vring_packed_desc_f_used = 15

abbrev pub vring_packed_event_flag_enable : ℕ
vring_packed_event_flag_enable = 0

abbrev pub virtq_size : ℕ
virtq_size = 128

unfoldable pub virtq_init : Virtq → Virtq
virtq_init vq = record vq {
  info = record vq.info { size = virtq_size; enable = 0 };
  next_avail_idx = 0;
  used_wrap_count = true;
}

unfoldable pub virtq_check_next : Desc → Bool
virtq_check_next desc = truthy (bit_and desc.flags vring_desc_f_next)

-- `==` of two `bool`s
abbrev pub same : Bool → Bool → Bool
same true b = b
same false b = not b

-- the two flag tests of `virtq_get_avail`
unfoldable pub is_avail : Bool → ℕ → Bool
is_avail wrap flags =
    let avail = truthy (bit_and flags (2 ^ vring_packed_desc_f_avail)) in
    let used = truthy (bit_and flags (2 ^ vring_packed_desc_f_used)) in
    not (not (same avail wrap) || same used wrap)

-- the `uint16_t` index and the wrap counter behind a descriptor that was taken
unfoldable pub advance : Virtq → Virtq
advance vq =
    let idx = (vq.next_avail_idx + 1) % 2 ^ 16 in
    if leb vq.info.size idx
    then record vq {
      next_avail_idx = (idx + 2 ^ 16 - vq.info.size) % 2 ^ 16;
      used_wrap_count = not vq.used_wrap_count;
    }
    else record vq { next_avail_idx = idx }

-- the new queue, and the index of the descriptor or NULL
unfoldable pub virtq_get_avail : Virtq → Ring → Virtq × Option ℕ
unfolding is_avail advance
virtq_get_avail vq ring =
    if is_avail vq.used_wrap_count (ring vq.next_avail_idx).flags
    then (advance vq, some vq.next_avail_idx)
    else (vq, none)

-- What is called through `vq->ops`: `S` is the state of the device that the queue belongs to, and NULL
-- pointers and loops without end are `none`.
pub record VirtqOps (S : Type 0) : Type 0 where
  pub complete_request : S → Option S
  pub enable_vq : S → Option S
  pub notify_used : S → S

module _ {S : Type 0} (ops : VirtqOps S) where
  abbrev pub virtq_complete_request : S → Option S
  virtq_complete_request s = ops.complete_request s

  abbrev pub virtq_notify_used : S → S
  virtq_notify_used s = ops.notify_used s

  abbrev pub virtq_enable : S → Option S
  virtq_enable s = ops.enable_vq s

-- `enabled` reads `vq->info.enable`, and `event_flags` reads `vq->guest_event->flags`.
module _ {S : Type 0} (ops : VirtqOps S) (enabled : S → ℕ) (event_flags : S → ℕ) where
  unfoldable pub virtq_handle_avail : S → Option S
  virtq_handle_avail s = if not (truthy (enabled s)) then some s else (do
    s' ← virtq_complete_request ops s
    some
        (if event_flags s' == vring_packed_event_flag_enable then virtq_notify_used ops s' else s'))
