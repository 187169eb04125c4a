-- ===== src/VirtioBlk/Request.antt =====
-- `virtio_blk_complete_request` of src/virtio-blk.c for one read in the queue: the loop serves it and
-- ends.
use kvm_host.Common.{
  ℕ, suc, ◌+◌, ◌*◌, ◌%◌, ◌^◌, ◌≡◌, ◌⊎◌, inl, inr, refl, ap, false, Option, some, none, List, length,
}
use kvm_host.Common.Bytes.{Memory, load_le, le_value}
use kvm_host.Virtq.{Virtq, advance, is_avail, virtq_get_avail}
use kvm_host.VirtioQueue.{Device, desc_at, ring_of}
use kvm_host.VirtioQueue.Finished.{current, buffer, taken}
use kvm_host.VirtioBlk.{File, Round, diskimg_read, round, after_round, complete_request}
use kvm_host.VirtioBlk.Chain.{Apart, second, third, ReadChain, Served, IsServed}
use kvm_host.VirtioBlk.Served.{round-IsServed}

-- the queue behind a chain of three
abbrev pub behind : {D : Type 0} → Device D → Virtq
behind s = advance (advance (advance s.vq))

-- Nothing follows the chain: either the ring has three descriptors and the next one is the first
-- again, or the next one is not available, and its flags lie apart from what the request writes.
abbrev pub NoMore : {D : Type 0} → ℕ → Device D → ℕ → Type 0
NoMore ram_base s n =
    ((behind s).next_avail_idx ≡ s.vq.next_avail_idx)
    ⊎ ((is_avail (behind s).used_wrap_count (ring_of s (behind s).next_avail_idx).flags ≡ false)
        × Apart (desc_at s (behind s).next_avail_idx + 14) 2 (current s + 8) 8
        × Apart (desc_at s (behind s).next_avail_idx + 14) 2 (buffer ram_base (third s)) 1
        × Apart (desc_at s (behind s).next_avail_idx + 14) 2 (buffer ram_base (second s)) n)

abbrev pub IsCompleted : {D : Type 0} → ℕ → Device D → List ℕ → D → Option (Device D) → Type 0
IsCompleted ram_base s bytes d none = ⊥
IsCompleted ram_base s bytes d (some s') = Served ram_base s bytes s' × (s'.outside ≡ d)

module _ {D : Type 0} (ram_base : ℕ) (s s' : Device D) (bytes : List ℕ)
    (served : Served ram_base s bytes s') where
  Served-load_le :
      (at n : ℕ)
      → Apart at n (current s + 8) 8
      → Apart at n (buffer ram_base (third s)) 1
      → Apart at n (buffer ram_base (second s)) (length bytes)
      → load_le s'.mem at n ≡ load_le s.mem at n
  unfolding load_le
  Served-load_le at n first status buf = ap le_value (served.others at n first status buf)

  next_unavailable :
      NoMore ram_base s (length bytes)
      → is_avail (behind s).used_wrap_count (ring_of s' (behind s).next_avail_idx).flags ≡ false
  next_unavailable (inl again) = rw again (served.given_back (behind s).used_wrap_count)
  next_unavailable (inr (idle, first, status, buf)) =
      let at = desc_at s (behind s).next_avail_idx + 14 in
      rw (served.ring, Served-load_le at 2 first status buf) idle

  no_more : NoMore ram_base s (length bytes) → virtq_get_avail s'.vq (ring_of s') ≡ (s'.vq, none)
  unfolding virtq_get_avail
  no_more last = rw (served.position, next_unavailable last) refl

module _ {D : Type 0} (file : File D) (ram_base : ℕ) where
  after_round-IsServed :
      (fuel : ℕ) (s : Device D) (bytes : List ℕ) (d : D) (r : Option (Round D))
      → NoMore ram_base s (length bytes)
      → IsServed ram_base s bytes d r
      → IsCompleted ram_base s bytes d
          (after_round file ram_base (complete_request file ram_base (suc fuel)) r)
  unfolding after_round complete_request
  after_round-IsServed fuel s bytes d none last served = absurd served
  after_round-IsServed fuel s bytes d (some (Round.stop s')) last served = absurd served
  after_round-IsServed fuel s bytes d (some (Round.again s' req)) last (served, out) =
      rw (no_more ram_base s s' bytes served last) (served, out)

  -- For one read, whose chain of three descriptors is available and the last in the ring, and whose
  -- file gives the bytes, two tests of the loop's condition are enough: it returns with the data in
  -- the buffer and 0 in the status byte, the first descriptor given back, with the length
  -- 0, whatever was read, so that the driver's test finds it used and the device's test finds it not
  -- available under either wrap counter, and the interrupt status set; the queue has moved on by three, and the
  -- memory outside of the buffer, the status byte and the second half of the first descriptor is as
  -- it was.
  pub complete_request-IsCompleted :
      (fuel : ℕ) (req : Memory) (s : Device D) (d : D) (bytes : List ℕ)
      → ReadChain ram_base s (length bytes)
      → NoMore ram_base s (length bytes)
      → length req ≡ 40
      → diskimg_read file
          (load_le s.mem (buffer ram_base s + 8) 8 * 2 ^ 9 % 2 ^ 64)
          (load_le s.mem (current (second s) + 8) 4 % 2 ^ 16)
          s.outside
        ≡ (d, some bytes)
      → IsCompleted ram_base s bytes d (complete_request file ram_base (suc (suc fuel)) req s)
  unfolding complete_request
  complete_request-IsCompleted fuel req s d bytes c last whole disk =
      rw (taken ram_base s c.header.avail c.header.above) (
        after_round-IsServed fuel s bytes d (round file ram_base req s.vq.next_avail_idx (second s))
          last (round-IsServed file ram_base req s d bytes c whole disk))
