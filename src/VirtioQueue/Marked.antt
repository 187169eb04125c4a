-- ===== src/VirtioQueue/Marked.antt =====
-- What `finish` of VirtioQueue does to the descriptors of the ring: the flags of one change.
use kvm_host.Common.{
  ℕ, ◌+◌, ◌%◌, ◌^◌, ◌≤◌, ◌≡◌, ◌≢◌, ◌⊎◌, inl, inr, refl, ap, ◌∙◌, not, length, arith, ◌==◌, bit_xor,
  bit_or,
}
use mathlib.Core.Path.{subst}
use native.Mathlib.Decide.{dec_lt}
use kvm_host.Common.Bits.{has_bit}
use kvm_host.Common.Bytes.{
  read_bytes, read_bytes-store_le_ne, load_le, load_le-store_le, load_le-store_le_ne,
  le_value-le_bytes_two, length-store_le,
}
use kvm_host.Virtq.Flags.{mark_used, avail_bit, used_bit}
use kvm_host.VirtioPci.{isr_offset}
use kvm_host.VirtioQueue.{Device, desc_at, ring_of, finish}
use kvm_host.VirtioQueue.Finished.{low_bit, high_bit}

module _ {X : Type 0} (s : Device X) (i : ℕ) where
  pub length-finish : length (finish i s).mem ≡ length s.mem
  unfolding finish
  length-finish =
      length-store_le s.mem (desc_at s i + 14) 2
        (bit_xor (load_le s.mem (desc_at s i + 14) 2) (2 ^ 15))

  pub config-finish : length (finish i s).dev.config ≡ length s.dev.config
  unfolding finish
  config-finish =
      length-store_le s.dev.config isr_offset 4 (bit_or (load_le s.dev.config isr_offset 4) 1)

  pub load_le-finish :
      (at n : ℕ)
      → (at + n ≤ desc_at s i + 14) ⊎ (desc_at s i + 16 ≤ at)
      → load_le (finish i s).mem at n ≡ load_le s.mem at n
  unfolding finish
  load_le-finish at n apart =
      load_le-store_le_ne s.mem (desc_at s i + 14) 2
        (bit_xor (load_le s.mem (desc_at s i + 14) 2) (2 ^ 15)) at n (ground arith)

  flags-finish :
      desc_at s i + 16 ≤ length s.mem
      → (ring_of (finish i s) i).flags ≡ mark_used (ring_of s i).flags % 2 ^ 16
  unfolding finish mark_used
  flags-finish fits =
      load_le-store_le s.mem (desc_at s i + 14) 2
        (bit_xor (load_le s.mem (desc_at s i + 14) 2) (2 ^ 15)) (omega arith)
      ∙ le_value-le_bytes_two (bit_xor (load_le s.mem (desc_at s i + 14) 2) (2 ^ 15))

  -- the flag of the driver stays, and that of the device changes
  pub avail_bit-finish :
      desc_at s i + 16 ≤ length s.mem
      → has_bit (ring_of (finish i s) i).flags 7 ≡ has_bit (ring_of s i).flags 7
  avail_bit-finish fits =
      ap (λ f. has_bit f 7) (flags-finish fits)
      ∙ ap (λ b. b == 1) (low_bit (mark_used (ring_of s i).flags))
      ∙ avail_bit (ring_of s i).flags

  pub used_bit-finish :
      desc_at s i + 16 ≤ length s.mem
      → has_bit (ring_of (finish i s) i).flags 15 ≡ not (has_bit (ring_of s i).flags 15)
  used_bit-finish fits =
      ap (λ f. has_bit f 15) (flags-finish fits)
      ∙ ap (λ b. b == 1) (high_bit (mark_used (ring_of s i).flags))
      ∙ used_bit (ring_of s i).flags

  -- the rest of it, and the other descriptors
  pub addr-finish : (ring_of (finish i s) i).addr ≡ (ring_of s i).addr
  unfolding finish
  addr-finish = load_le-finish (desc_at s i) 8 (inl (omega arith))

  pub len-finish : (ring_of (finish i s) i).len ≡ (ring_of s i).len
  unfolding finish
  len-finish = load_le-finish (desc_at s i + 8) 4 (inl (omega arith))

  slot_apart :
      (j offset n : ℕ)
      → j ≢ i
      → offset + n ≤ 16
      → (desc_at s j + offset + n ≤ desc_at s i + 14) ⊎ (desc_at s i + 16 ≤ desc_at s j + offset)
  slot_apart j offset n ne inside = elim (dec_lt j i) [
    | yes below ↦ inl (omega arith)
    | no above ↦ inr (omega (arith, ne))
  ]

  pub ring_of-finish_ne : (j : ℕ) → j ≢ i → ring_of (finish i s) j ≡ ring_of s j
  unfolding finish
  ring_of-finish_ne j ne =
      let first : desc_at s j + 0 ≡ desc_at s j = omega arith in
      let addr : load_le (finish i s).mem (desc_at s j) 8 ≡ load_le s.mem (desc_at s j) 8 =
        subst (λ at. load_le (finish i s).mem at 8 ≡ load_le s.mem at 8) first
          (load_le-finish (desc_at s j + 0) 8 (slot_apart j 0 8 ne (omega arith))) in
      rw
        (
          addr,
          load_le-finish (desc_at s j + 8) 4 (slot_apart j 8 4 ne (omega arith)),
          load_le-finish (desc_at s j + 12) 2 (slot_apart j 12 2 ne (omega arith)),
          load_le-finish (desc_at s j + 14) 2 (slot_apart j 14 2 ne (omega arith)),
        )
        refl

  pub queue-finish : ((finish i s).vq ≡ s.vq) × ((finish i s).desc_ring ≡ s.desc_ring)
  unfolding finish
  queue-finish = (refl, refl)

  pub outside-finish : (finish i s).outside ≡ s.outside
  unfolding finish
  outside-finish = refl

  pub read_bytes-finish :
      (at n : ℕ)
      → (at + n ≤ desc_at s i + 14) ⊎ (desc_at s i + 16 ≤ at)
      → read_bytes (finish i s).mem at n ≡ read_bytes s.mem at n
  unfolding finish
  read_bytes-finish at n apart =
      read_bytes-store_le_ne s.mem (desc_at s i + 14) 2
        (bit_xor (load_le s.mem (desc_at s i + 14) 2) (2 ^ 15)) at n (ground arith)

  pub guest_event-finish : (finish i s).guest_event ≡ s.guest_event
  unfolding finish
  guest_event-finish = refl
