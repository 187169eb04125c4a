-- ===== src/VirtioBlk/Chain.antt =====
-- The chain of a read that the driver of the block device of src/virtio-blk.c publishes, and what it
-- finds when the read is served.
use kvm_host.Common.{
  ℕ, ◌+◌, ◌≤◌, ◌≡◌, ◌⊎◌, Bool, true, false, Option, some, none, List, [], ◌∷◌, length,
}
use kvm_host.Common.Bits.{has_bit}
use kvm_host.Common.Bytes.{read_bytes, load_le}
use kvm_host.Virtq.{advance, is_avail, virtq_check_next}
use kvm_host.Virtq.Protocol.{is_used}
use kvm_host.VirtioPci.{isr_offset}
use kvm_host.VirtioQueue.{Device, ring_of}
use kvm_host.VirtioQueue.Finished.{current, buffer}
use kvm_host.VirtioBlk.{Round}

-- two ranges of addresses without a common one
abbrev pub Apart : ℕ → ℕ → ℕ → ℕ → Type 0
Apart a n b k = (a + n ≤ b) ⊎ (b + k ≤ a)

-- the queue one and two descriptors on
abbrev pub second : {D : Type 0} → Device D → Device D
second s = record s { vq = advance s.vq }

abbrev pub third : {D : Type 0} → Device D → Device D
third s = second (second s)

-- a descriptor that is available and whose buffer is in the memory
pub record Ready {D : Type 0} (ram_base : ℕ) (s : Device D) : Type 0 where
  pub avail : is_avail s.vq.used_wrap_count (ring_of s s.vq.next_avail_idx).flags ≡ true
  pub above : ram_base ≤ load_le s.mem (current s) 8

-- The chain of a read: a header of 16 bytes of type 0, a buffer, and a byte for the status. `n` bytes
-- will be read. Buffer and status lie apart from the descriptors and from each other.
pub record ReadChain {D : Type 0} (ram_base : ℕ) (s : Device D) (n : ℕ) : Type 0 where
  pub header : Ready ram_base s
  pub data_buffer : Ready ram_base (second s)
  pub status_byte : Ready ram_base (third s)
  pub header_next : virtq_check_next (ring_of s s.vq.next_avail_idx) ≡ true
  pub data_next : virtq_check_next (ring_of s (advance s.vq).next_avail_idx) ≡ true
  pub header_len : load_le s.mem (current s + 8) 4 ≡ 16
  pub is_read : load_le s.mem (buffer ram_base s) 4 ≡ 0
  pub ring_fits : current s + 16 ≤ length s.mem
  pub data_fits : buffer ram_base (second s) + n ≤ length s.mem
  pub status_fits : buffer ram_base (third s) + 1 ≤ length s.mem
  pub data_first : Apart (current s) 16 (buffer ram_base (second s)) n
  pub data_second : Apart (current (second s)) 16 (buffer ram_base (second s)) n
  pub data_third : Apart (current (third s)) 16 (buffer ram_base (second s)) n
  pub data_status : Apart (buffer ram_base (third s)) 1 (buffer ram_base (second s)) n
  pub status_first : Apart (current s) 16 (buffer ram_base (third s)) 1
  pub config : length s.dev.config ≡ 64

-- what the driver finds: the data, the status byte 0, the header's descriptor used, with the
-- length 0, and the interrupt; the queue has moved on by three, and the memory apart from these stays
pub record Served {D : Type 0} (ram_base : ℕ) (s : Device D) (bytes : List ℕ) (s' : Device D)
    : Type 0 where
  pub arrived : read_bytes s'.mem (buffer ram_base (second s)) (length bytes) ≡ bytes
  pub status : read_bytes s'.mem (buffer ram_base (third s)) 1 ≡ 0 ∷ []
  pub used_len : load_le s'.mem (current s + 8) 4 ≡ 0
  pub used : is_used s.vq.used_wrap_count (ring_of s' s.vq.next_avail_idx).flags ≡ true
  pub given_back : (wrap : Bool) → is_avail wrap (ring_of s' s.vq.next_avail_idx).flags ≡ false
  pub interrupt : has_bit (load_le s'.dev.config isr_offset 4) 0 ≡ true
  pub position : s'.vq ≡ advance (advance (advance s.vq))
  pub ring : s'.desc_ring ≡ s.desc_ring
  pub others :
      (at n : ℕ)
      → Apart at n (current s + 8) 8
      → Apart at n (buffer ram_base (third s)) 1
      → Apart at n (buffer ram_base (second s)) (length bytes)
      → read_bytes s'.mem at n ≡ read_bytes s.mem at n

abbrev pub IsServed : {D : Type 0} → ℕ → Device D → List ℕ → D → Option (Round D) → Type 0
IsServed ram_base s bytes d none = ⊥
IsServed ram_base s bytes d (some (Round.stop s')) = ⊥
IsServed ram_base s bytes d (some (Round.again s' req)) =
    Served ram_base s bytes s' × (s'.outside ≡ d)
