-- ===== src/VirtioBlk.antt =====
-- The block device of src/virtio-blk.c over the memory of the guest, and the disk image of
-- src/diskimg.c, whose file is a parameter.
pub mod Setup
pub mod Chain
pub mod Served
pub mod Request
pub mod Threads
mod Tests
use kvm_host.Common.{
  ℕ, zero, suc, ◌+◌, ◌*◌, ◌%◌, ◌^◌, Bool, true, false, not, ◌||◌, Option, some, none, List, ◌==◌,
  leb, if◌then◌else◌, replicate, length, set, ◌>>=◌,
}
use kvm_host.Common.Bytes.{Memory, read_bytes, write_bytes, load_le, store_le}
use kvm_host.Virtq.{Virtq, VirtqOps, virtq_get_avail, virtq_check_next}
use kvm_host.VirtioQueue.{Device, desc_at, ring_of, finish, notify_used, enable_vq}
use kvm_host.Vm.{vm_guest_to_host}

-- The file behind a disk image: `lseek` leaves the position alone when it fails, and `read` and
-- `write` work at the position. `read` gives the bytes that it read, or none for a negative
-- result; `write` tells whether its result is not negative.
pub record File (D : Type 0) : Type 0 where
  pub lseek : ℕ → D → D
  pub read : ℕ → D → D × Option (List ℕ)
  pub write : List ℕ → D → D × Bool

abbrev pub blk_t_in : ℕ
blk_t_in = 0

abbrev pub blk_t_out : ℕ
blk_t_out = 1

abbrev pub blk_s_ok : ℕ
blk_s_ok = 0

abbrev pub blk_s_ioerr : ℕ
blk_s_ioerr = 1

abbrev pub blk_s_unsupp : ℕ
blk_s_unsupp = 2

-- `sizeof(struct virtio_blk_req)`
abbrev pub req_size : ℕ
req_size = 40

-- the device behind a round of the loop, with the local `req`: the loop goes on, or returns
pub data Round (D : Type 0) : Type 0 where
  again : Device D → Memory → Round D
  stop : Device D → Round D

-- a transfer at NULL, which the system refuses unless it is empty; the status
abbrev pub at_null : ℕ → ℕ
at_null size = if size == 0 then blk_s_ok else blk_s_ioerr

module _ {D : Type 0} (file : File D) where
  unfoldable pub diskimg_read : ℕ → ℕ → D → D × Option (List ℕ)
  diskimg_read offset size d = file.read size (file.lseek offset d)

  unfoldable pub diskimg_write : List ℕ → ℕ → D → D × Bool
  diskimg_write bytes offset d = file.write bytes (file.lseek offset d)

  -- a read into the buffer at `host`, or at NULL; the status
  unfoldable pub read_sectors : Option ℕ → ℕ → ℕ → Device D → Device D × ℕ
  unfolding diskimg_read
  read_sectors none offset size s =
      (record s { outside = file.lseek offset s.outside }, at_null size)
  read_sectors (some host) offset size s = filled (diskimg_read offset size s.outside)
    where
      filled : D × Option (List ℕ) → Device D × ℕ
      filled (d, none) = (record s { outside = d }, blk_s_ioerr)
      filled (d, some bytes) =
          (record s { outside = d; mem = write_bytes s.mem host bytes }, blk_s_ok)

  unfoldable pub write_sectors : Option ℕ → ℕ → ℕ → Device D → Device D × ℕ
  unfolding diskimg_write
  write_sectors none offset size s =
      (record s { outside = file.lseek offset s.outside }, at_null size)
  write_sectors (some host) offset size s =
      let (d, ok) = diskimg_write (read_bytes s.mem host size) offset s.outside in
      (record s { outside = d }, if ok then blk_s_ok else blk_s_ioerr)

  module _ (ram_base : ℕ) where
    -- the call of `virtq_get_avail` for a descriptor that the code does not compare with NULL
    unfoldable pub take_next : Device D → Option (Device D × ℕ)
    take_next s = taken (virtq_get_avail s.vq (ring_of s))
      where
        taken : Virtq × Option ℕ → Option (Device D × ℕ)
        taken (vq', none) = none
        taken (vq', some i) = some (record s { vq = vq' }, i)

    -- from the second `virtq_check_next` on: `desc` is the last descriptor taken, `used` the first.
    -- `used_desc->len` gets the outer `r`, which is 0.
    unfoldable pub complete : Memory → ℕ → ℕ → Device D × ℕ → Option (Round D)
    unfolding take_next
    complete req used desc (s, status) =
        if not (virtq_check_next (ring_of s desc)) then some (stop s) else (do
          (s', last) ← take_next s
          host ← vm_guest_to_host ram_base (ring_of s' last).addr
          some (
              again
                (finish used
                  (record s' { mem = store_le (set s'.mem host status) (desc_at s' used + 8) 4 0 }))
                req))

    -- the transfer of a request of type `kind` to or from the buffer of `desc`; the size is a
    -- `uint16_t` and the offset a 64-bit number
    unfoldable pub transfer : ℕ → ℕ → ℕ → Device D → Device D × ℕ
    unfolding read_sectors write_sectors
    transfer kind sector desc s =
        let host = vm_guest_to_host ram_base (ring_of s desc).addr in
        let size = (ring_of s desc).len % 2 ^ 16 in
        let offset = sector * 2 ^ 9 % 2 ^ 64 in
        if kind == blk_t_in
        then read_sectors host offset size s
        else write_sectors host offset size s

    -- what follows the `memcpy` of the request; `used` is the first descriptor
    unfoldable pub perform : Memory → ℕ → Device D → Option (Round D)
    unfolding complete transfer
    perform req used s =
        let kind = load_le req 0 4 in
        if kind == blk_t_in || kind == blk_t_out
        then (if not (virtq_check_next (ring_of s used)) then some (stop s) else (do
          (s', desc) ← take_next s
          complete req used desc (transfer kind (load_le req 8 8) desc s')))
        else complete req used used (s, blk_s_unsupp)

    -- the body of the loop for the descriptor `used`. A request longer than the local variable
    -- leaves it; a shorter one leaves its rest as it was.
    unfoldable pub round : Memory → ℕ → Device D → Option (Round D)
    unfolding perform
    round req used s = do
      host ← vm_guest_to_host ram_base (ring_of s used).addr
      if leb (ring_of s used).len req_size
          then perform (write_bytes req 0 (read_bytes s.mem host (ring_of s used).len)) used s
          else none

    -- what follows a round, given the rest of the loop
    unfoldable pub after_round :
        (Memory → Device D → Option (Device D)) → Option (Round D) → Option (Device D)
    after_round rest none = none
    after_round rest (some (stop s)) = some s
    after_round rest (some (again s req)) = rest req s

    -- the condition of the loop and its body
    unfoldable pub loop_step :
        (Memory → Device D → Option (Device D))
        → Memory
        → Device D
        → Virtq × Option ℕ
        → Option (Device D)
    unfolding round after_round
    loop_step rest req s (vq', none) = some (record s { vq = vq' })
    loop_step rest req s (vq', some used) =
        after_round rest (round req used (record s { vq = vq' }))

    -- the loop, for at most `fuel` tests of its condition; `req` is what the local variable holds
    unfoldable pub complete_request : ℕ → Memory → Device D → Option (Device D)
    unfolding loop_step
    complete_request zero req s = none
    complete_request (suc fuel) req s =
        loop_step (complete_request fuel) req s (virtq_get_avail s.vq (ring_of s))

    abbrev pub blk_ops : ℕ → Memory → VirtqOps (Device D)
    blk_ops fuel req = record {
      complete_request = complete_request fuel req;
      enable_vq = enable_vq ram_base;
      notify_used = notify_used;
    }
