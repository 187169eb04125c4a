-- ===== src/VirtioQueue/Finished.antt =====
-- What giving a descriptor back promises, for the devices of src/virtio-net.c and src/virtio-blk.c.
use kvm_host.Common.{
  ℕ, ◌+◌, ◌-◌, ◌%◌, ◌^◌, ◌≤◌, bit_xor, bit_or, ◌≡◌, ◌⊎◌, refl, ◌∙◌, ap, Bool, true, false, some,
  length, arith, le→ltb,
}
use kvm_host.Common.Bits.{bit, has_bit, bit-bit_or}
use kvm_host.Common.Bytes.{
  read_bytes, load_le, load_le-store_le, le_value, read_bytes-store_le_ne, le_value-le_bytes_two,
  le_value-le_bytes_four,
}
use kvm_host.Virtq.{advance, virtq_get_avail, is_avail}
use kvm_host.Virtq.Flags.{is_avail_lem, is_avail-mark_used, mark_used, used_bit, avail_bit}
use kvm_host.Virtq.Protocol.{is_used}
use kvm_host.VirtioPci.{isr_offset}
use kvm_host.VirtioQueue.{Device, desc_at, ring_of, finish}
use kvm_host.Vm.{vm_guest_to_host}

pub low_bit : (x : ℕ) → bit (x % 2 ^ 16) 7 ≡ bit x 7
low_bit x = omega arith

pub high_bit : (x : ℕ) → bit (x % 2 ^ 16) 15 ≡ bit x 15
high_bit x = omega arith

-- a `uint16_t` keeps the two flags
is_avail-uint16 : (wrap : Bool) (x : ℕ) → is_avail wrap (x % 2 ^ 16) ≡ is_avail wrap x
is_avail-uint16 wrap x =
    rw (is_avail_lem wrap x, is_avail_lem wrap (x % 2 ^ 16), low_bit x, high_bit x) refl

-- the driver's test finds a descriptor that was available and is marked
is_used-mark_used :
    (wrap : Bool) (flags : ℕ)
    → is_avail wrap flags ≡ true
    → is_used wrap (mark_used flags % 2 ^ 16) ≡ true
is_used-mark_used wrap flags a =
    rw (low_bit (mark_used flags), high_bit (mark_used flags)) ground
      (arith, is_avail_lem wrap flags, used_bit flags, avail_bit flags)

-- what `finish` promises of the descriptor `i`, which was available under the wrap counter `wrap`: the
-- driver, whose wrap counter for it is the same, finds it used; it is not available under either wrap
-- counter, the driver reads the queue interrupt, and the rest of the memory stays
pub record Finished {X : Type 0} (wrap : Bool) (s : Device X) (i : ℕ) (s' : Device X) : Type 0 where
  pub used : is_used wrap (ring_of s' i).flags ≡ true
  pub given_back : (later : Bool) → is_avail later (ring_of s' i).flags ≡ false
  pub interrupt : has_bit (load_le s'.dev.config isr_offset 4) 0 ≡ true
  pub others :
      (at n : ℕ)
      → (at + n ≤ desc_at s i + 14) ⊎ (desc_at s i + 16 ≤ at)
      → read_bytes s'.mem at n ≡ read_bytes s.mem at n

lowest_bit : (x : ℕ) → has_bit (bit_or x 1 % 2 ^ 32) 0 ≡ true
lowest_bit x = ground (arith, bit-bit_or 0 x 1)

pub finish-Finished :
    {X : Type 0} (s : Device X) (i : ℕ) (wrap : Bool)
    → desc_at s i + 16 ≤ length s.mem
    → length s.dev.config ≡ 64
    → is_avail wrap (ring_of s i).flags ≡ true
    → Finished wrap s i (finish i s)
unfolding finish mark_used
finish-Finished s i wrap fits len avail = record {
  used =
      let flags = load_le s.mem (desc_at s i + 14) 2 in
      ap (is_used wrap) (
        load_le-store_le s.mem (desc_at s i + 14) 2 (mark_used flags) (omega arith)
        ∙ le_value-le_bytes_two (mark_used flags))
      ∙ is_used-mark_used wrap flags avail;
  given_back = λ later.
      let flags = load_le s.mem (desc_at s i + 14) 2 in
      let there =
        load_le-store_le s.mem (desc_at s i + 14) 2 (mark_used flags) (omega arith)
        ∙ le_value-le_bytes_two (mark_used flags) in
      rw (there, is_avail-uint16 later (mark_used flags))
        (is_avail-mark_used wrap later flags avail);
  interrupt =
      let status = bit_or (load_le s.dev.config isr_offset 4) 1 in
      let there =
        load_le-store_le s.dev.config isr_offset 4 status (omega (arith, len))
        ∙ le_value-le_bytes_four status in
      rw there (lowest_bit (load_le s.dev.config isr_offset 4));
  others = λ at n apart.
      read_bytes-store_le_ne s.mem (desc_at s i + 14) 2
        (bit_xor (load_le s.mem (desc_at s i + 14) 2) (2 ^ 15)) at n (ground arith);
}

pub Finished-load_le :
    {X : Type 0} {wrap : Bool} (s : Device X) (i : ℕ) {s' : Device X}
    → Finished wrap s i s'
    → (at n : ℕ) → (at + n ≤ desc_at s i + 14) ⊎ (desc_at s i + 16 ≤ at)
    → load_le s'.mem at n ≡ load_le s.mem at n
unfolding load_le
Finished-load_le s i f at n apart = ap le_value (f.others at n apart)

-- the descriptor that the queue is at, and its buffer in the memory
abbrev pub current : {X : Type 0} → Device X → ℕ
current s = desc_at s s.vq.next_avail_idx

abbrev pub buffer : {X : Type 0} → ℕ → Device X → ℕ
buffer ram_base s = load_le s.mem (current s) 8 - ram_base

abbrev pub buffer_len : {X : Type 0} → Device X → ℕ
buffer_len s = load_le s.mem (current s + 8) 4

module _ {X : Type 0} (ram_base : ℕ) (s : Device X)
    (avail : is_avail s.vq.used_wrap_count (ring_of s s.vq.next_avail_idx).flags ≡ true)
    (above : ram_base ≤ load_le s.mem (current s) 8) where
  pub to_host : vm_guest_to_host ram_base (load_le s.mem (current s) 8) ≡ some (buffer ram_base s)
  unfolding vm_guest_to_host
  to_host = rw (le→ltb (load_le s.mem (current s) 8) ram_base above) refl

  pub taken : virtq_get_avail s.vq (ring_of s) ≡ (advance s.vq, some s.vq.next_avail_idx)
  unfolding virtq_get_avail
  taken = rw avail refl
