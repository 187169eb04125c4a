-- ===== src/Virtq/Flags.antt =====
-- The availability flags of src/virtq.c: when a descriptor counts as available, and that a
-- descriptor that the device has used or passed is never available again.
use kvm_host.Common.{ℕ, ◌^◌, bit_xor, ◌≡◌, Bool, true, false, not, ◌&&◌, arith}
use kvm_host.Common.Bits.{has_bit, truthy-bit_and, bit-bit_xor, bit-lt-two}
use kvm_host.Virtq.{is_avail, same, vring_packed_desc_f_used}

-- `desc->flags ^= 1ULL << VRING_PACKED_DESC_F_USED`, as the devices mark a descriptor as used
unfoldable pub mark_used : ℕ → ℕ
mark_used flags = bit_xor flags (2 ^ vring_packed_desc_f_used)

-- A descriptor is available exactly if its AVAIL bit equals the wrap counter and its USED bit does
-- not.
pub is_avail_lem :
    (wrap : Bool) (flags : ℕ)
    → is_avail wrap flags ≡ (same (has_bit flags 7) wrap && not (same (has_bit flags 15) wrap))
unfolding is_avail
is_avail_lem wrap flags = rw (truthy-bit_and 7 flags, truthy-bit_and 15 flags) (ground arith)

pub used_bit : (flags : ℕ) → has_bit (mark_used flags) 15 ≡ not (has_bit flags 15)
unfolding mark_used
used_bit flags = ground (arith, bit-bit_xor 15 flags (2 ^ 15), bit-lt-two flags 15)

pub avail_bit : (flags : ℕ) → has_bit (mark_used flags) 7 ≡ has_bit flags 7
unfolding mark_used
avail_bit flags = ground (arith, bit-bit_xor 7 flags (2 ^ 15), bit-lt-two flags 7)

-- A descriptor that was available and has been marked as used is not available, under either value
-- of the wrap counter.
pub is_avail-mark_used :
    (wrap later : Bool) (flags : ℕ)
    → is_avail wrap flags ≡ true
    → is_avail later (mark_used flags) ≡ false
is_avail-mark_used wrap later flags a = ground (
  arith,
  is_avail_lem wrap flags,
  is_avail_lem later (mark_used flags),
  used_bit flags,
  avail_bit flags,
)

-- A descriptor that was taken and not marked (a later one of a chain) is not available on the next
-- lap.
pub is_avail_next_lap :
    (wrap : Bool) (flags : ℕ) → is_avail wrap flags ≡ true → is_avail (not wrap) flags ≡ false
is_avail_next_lap wrap flags a =
    ground (arith, is_avail_lem wrap flags, is_avail_lem (not wrap) flags)
