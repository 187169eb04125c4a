-- ===== src/VirtioBlk/Served.antt =====
-- A read request of the block device of src/virtio-blk.c: from the chain of three descriptors that
-- the driver publishes to the state that it finds.
use kvm_host.Common.{
  ℕ, ◌+◌, ◌*◌, ◌%◌, ◌^◌, ◌≡◌, inl, inr, refl, ap, ◌∙◌, true, some, List, [], ◌∷◌, length, set,
  arith,
}
use kvm_host.Common.Bytes.{
  Memory, read_bytes, write_bytes, load_le, store_le, load_le-write_bytes_ne, load_le-store_le_ne,
  load_le-store_le_self, read_bytes-store_le_ne, read_bytes-write_bytes_self,
  read_bytes-write_bytes_ne, length-write_bytes, length-store_le, load_le-copy,
}
use kvm_host.Virtq.{Desc, advance, is_avail, virtq_check_next}
use kvm_host.VirtioQueue.{Device, desc_at, ring_of, finish}
use kvm_host.VirtioQueue.Finished.{
  Finished, finish-Finished, Finished-load_le, current, buffer, taken, to_host,
}
use kvm_host.VirtioBlk.{File, Round, diskimg_read, transfer, perform, complete, round, take_next}
use kvm_host.VirtioBlk.Chain.{Apart, second, third, Ready, ReadChain, Served, IsServed}

-- a write apart from a descriptor leaves it
pub ring_of-write_bytes :
    {D : Type 0} (s : Device D) (host i : ℕ) (bytes : List ℕ)
    → Apart (desc_at s i) 16 host (length bytes)
    → ring_of (record s { mem = write_bytes s.mem host bytes }) i ≡ ring_of s i
ring_of-write_bytes s host i bytes apart =
    rw
      (
        load_le-write_bytes_ne s.mem host (desc_at s i) 8 bytes (ground arith),
        load_le-write_bytes_ne s.mem host (desc_at s i + 8) 4 bytes (ground arith),
        load_le-write_bytes_ne s.mem host (desc_at s i + 12) 2 bytes (ground arith),
        load_le-write_bytes_ne s.mem host (desc_at s i + 14) 2 bytes (ground arith),
      )
      refl

-- the memory after data, status and length
abbrev pub served_memory : Memory → ℕ → ℕ → ℕ → List ℕ → Memory
served_memory m data_host status_host desc bytes =
    store_le (write_bytes (write_bytes m data_host bytes) status_host (0 ∷ [])) (desc + 8) 4 0

module _ {D : Type 0} (file : File D) (ram_base : ℕ) where
  take_next-Ready :
      (s : Device D)
      → Ready ram_base s
      → take_next file ram_base s ≡ some (second s, s.vq.next_avail_idx)
  unfolding take_next
  take_next-Ready s r = rw (taken ram_base s r.avail r.above) refl

  -- the end of a request, for a descriptor that names another and a status byte in the memory
  complete-Ready :
      (req : Memory) (used desc status : ℕ) (s : Device D)
      → virtq_check_next (ring_of s desc) ≡ true
      → Ready ram_base s
      → complete file ram_base req used desc (s, status)
        ≡ some (
            Round.again
              (finish used (record (second s) {
                mem = store_le (set s.mem (buffer ram_base s) status) (desc_at s used + 8) 4 0;
              }))
              req)
  unfolding complete
  complete-Ready req used desc status s next r =
      rw (next, take_next-Ready s r, to_host ram_base s r.avail r.above) refl

  -- a read into a buffer in the memory
  transfer-Ready :
      (sector : ℕ) (s : Device D) (d : D) (bytes : List ℕ)
      → Ready ram_base s
      → diskimg_read file
          (sector * 2 ^ 9 % 2 ^ 64)
          (load_le s.mem (current s + 8) 4 % 2 ^ 16)
          s.outside
        ≡ (d, some bytes)
      → transfer file ram_base 0 sector s.vq.next_avail_idx (second s)
        ≡ (record (second s) { outside = d; mem = write_bytes s.mem (buffer ram_base s) bytes }, 0)
  unfolding transfer
  transfer-Ready sector s d bytes r disk = rw (to_host ram_base s r.avail r.above, disk) refl

  -- a round for a read, up to the end of the request
  round-read :
      (req : Memory) (s : Device D) (d : D) (bytes : List ℕ)
      → ReadChain ram_base s (length bytes)
      → length req ≡ 40
      → diskimg_read file
          (load_le s.mem (buffer ram_base s + 8) 8 * 2 ^ 9 % 2 ^ 64)
          (load_le s.mem (current (second s) + 8) 4 % 2 ^ 16)
          s.outside
        ≡ (d, some bytes)
      → round file ram_base req s.vq.next_avail_idx (second s)
        ≡ complete file ram_base
            (write_bytes req 0 (read_bytes s.mem (buffer ram_base s) 16))
            s.vq.next_avail_idx
            (advance s.vq).next_avail_idx
            (
              record (third s) {
                outside = d;
                mem = write_bytes s.mem (buffer ram_base (second s)) bytes;
              },
              0,
            )
  unfolding round perform virtq_check_next
  round-read req s d bytes c whole disk =
      let from = buffer ram_base s in
      let kind : load_le (write_bytes req 0 (read_bytes s.mem from 16)) 0 4 ≡ 0 =
        load_le-copy req s.mem from 16 0 4 (omega arith) (omega (arith, whole))
        ∙ ap (λ k. load_le s.mem k 4) (omega arith)
        ∙ c.is_read in
      let sector = load_le-copy req s.mem from 16 8 8 (omega arith) (omega (arith, whole)) in
      rw
        (
          to_host ram_base s c.header.avail c.header.above,
          c.header_len,
          kind,
          c.header_next,
          take_next-Ready (second s) c.data_buffer,
          sector,
          transfer-Ready (load_le s.mem (from + 8) 8) (second s) d bytes c.data_buffer disk,
        )
        refl

-- what the end of the request writes: data, status, length, and the flags of the first descriptor
module _ {D : Type 0} (ram_base : ℕ) (s : Device D) (d : D) (bytes : List ℕ)
    (c : ReadChain ram_base s (length bytes)) where
  abbrev data_host : ℕ
  data_host = buffer ram_base (second s)

  abbrev status_host : ℕ
  status_host = buffer ram_base (third s)

  abbrev m1 : Memory
  m1 = write_bytes s.mem data_host bytes

  abbrev m2 : Memory
  m2 = write_bytes m1 status_host (0 ∷ [])

  abbrev m3 : Memory
  m3 = store_le m2 (current s + 8) 4 0

  abbrev transferred : Device D
  transferred = record (third s) { outside = d; mem = m1 }

  abbrev before_finish : Device D
  before_finish = record (second transferred) { mem = m3 }

  length-m2 : length m2 ≡ length s.mem
  length-m2 = length-write_bytes m1 status_host (0 ∷ []) ∙ length-write_bytes s.mem data_host bytes

  second_descriptor :
      ring_of transferred (advance s.vq).next_avail_idx ≡ ring_of s (advance s.vq).next_avail_idx
  second_descriptor =
      ring_of-write_bytes (third s) data_host (advance s.vq).next_avail_idx bytes c.data_second

  third_descriptor :
      ring_of transferred transferred.vq.next_avail_idx ≡ ring_of s transferred.vq.next_avail_idx
  third_descriptor =
      ring_of-write_bytes (third s) data_host transferred.vq.next_avail_idx bytes c.data_third

  status_addr : load_le m1 (current (third s)) 8 ≡ load_le s.mem (current (third s)) 8
  status_addr = ap (λ (x : Desc). x.addr) third_descriptor

  transferred-Ready : Ready ram_base transferred
  transferred-Ready = record {
    avail =
        ap (λ (x : Desc). is_avail transferred.vq.used_wrap_count x.flags) third_descriptor
        ∙ c.status_byte.avail;
    above = rw status_addr c.status_byte.above;
  }

  first_flags : load_le m3 (current s + 14) 2 ≡ load_le s.mem (current s + 14) 2
  first_flags =
      load_le-store_le_ne m2 (current s + 8) 4 0 (current s + 14) 2 (inr (omega arith))
      ∙ load_le-write_bytes_ne m1 status_host (current s + 14) 2 (0 ∷ [])
          (ground (arith, c.status_first))
      ∙ load_le-write_bytes_ne s.mem data_host (current s + 14) 2 bytes
          (ground (arith, c.data_first))

  finished :
      Finished s.vq.used_wrap_count before_finish s.vq.next_avail_idx
        (finish s.vq.next_avail_idx before_finish)
  finished =
      finish-Finished before_finish s.vq.next_avail_idx s.vq.used_wrap_count
        (omega (arith, length-store_le m2 (current s + 8) 4 0, length-m2, c.ring_fits)) c.config
        (rw first_flags c.header.avail)

  finish-Served : Served ram_base s bytes (finish s.vq.next_avail_idx before_finish)
  unfolding finish
  finish-Served = record {
    arrived =
        finished.others data_host (length bytes) (ground (arith, c.data_first))
        ∙ read_bytes-store_le_ne m2 (current s + 8) 4 0 data_host (length bytes)
            (ground (arith, c.data_first))
        ∙ read_bytes-write_bytes_ne m1 status_host data_host (length bytes) (0 ∷ [])
            (ground (arith, c.data_status))
        ∙ read_bytes-write_bytes_self s.mem data_host bytes c.data_fits;
    status =
        finished.others status_host 1 (ground (arith, c.status_first))
        ∙ read_bytes-store_le_ne m2 (current s + 8) 4 0 status_host 1
            (ground (arith, c.status_first))
        ∙ read_bytes-write_bytes_self m1 status_host (0 ∷ [])
            (omega (arith, length-write_bytes s.mem data_host bytes, c.status_fits));
    used_len =
        Finished-load_le before_finish s.vq.next_avail_idx finished (current s + 8) 4
          (inl (omega arith))
        ∙ load_le-store_le_self m2 (current s + 8) 4 0 (omega (arith, length-m2, c.ring_fits))
            (omega arith);
    used = finished.used;
    given_back = finished.given_back;
    interrupt = finished.interrupt;
    position = refl;
    ring = refl;
    others = λ at n first status buf.
        finished.others at n (ground (arith, first))
        ∙ read_bytes-store_le_ne m2 (current s + 8) 4 0 at n (ground (arith, first))
        ∙ read_bytes-write_bytes_ne m1 status_host at n (0 ∷ []) status
        ∙ read_bytes-write_bytes_ne s.mem data_host at n bytes buf;
  }

-- A read whose chain of three descriptors is available, and whose file gives the bytes: the round
-- leaves the data in the buffer and 0 in the status byte, gives the first descriptor back with the
-- length 0, whatever was read, sets the interrupt status, and moves the queue on by three.
pub round-IsServed :
    {D : Type 0} (file : File D) (ram_base : ℕ) (req : Memory) (s : Device D) (d : D)
    (bytes : List ℕ)
    → ReadChain ram_base s (length bytes)
    → length req ≡ 40
    → diskimg_read file
        (load_le s.mem (buffer ram_base s + 8) 8 * 2 ^ 9 % 2 ^ 64)
        (load_le s.mem (current (second s) + 8) 4 % 2 ^ 16)
        s.outside
      ≡ (d, some bytes)
    → IsServed ram_base s bytes d (round file ram_base req s.vq.next_avail_idx (second s))
unfolding finish
round-IsServed file ram_base req s d bytes c whole disk =
    let ready = transferred-Ready ram_base s d bytes c in
    let next : virtq_check_next
          (ring_of (transferred ram_base s d bytes c) (advance s.vq).next_avail_idx)
        ≡ true =
      ap virtq_check_next (second_descriptor ram_base s d bytes c) ∙ c.data_next in
    rw
      (
        round-read file ram_base req s d bytes c whole disk,
        complete-Ready file ram_base (write_bytes req 0 (read_bytes s.mem (buffer ram_base s) 16))
            s.vq.next_avail_idx (advance s.vq).next_avail_idx 0 (transferred ram_base s d bytes c)
            next ready,
        status_addr ram_base s d bytes c,
      )
      (finish-Served ram_base s d bytes c, refl)
