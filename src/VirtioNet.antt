-- ===== src/VirtioNet.antt =====
-- The network device of src/virtio-net.c: the requests of its receive and transmit queues, over the
-- memory of the guest. The tap device is a parameter: each call is given what `read` or `writev`
-- returned.
pub mod Setup
pub mod Requests
pub mod Receive
pub mod Threads
pub mod Driven
pub mod Stream
pub mod Arrived
pub mod InOrder
pub mod Arrival
pub mod Delivered
mod Tests
use kvm_host.Common.{
  ℕ, ◌+◌, ◌-◌, ◌*◌, ◌^◌, bit_xor, bit_or, Bool, true, false, Option, some, none, List, [], ◌∷◌,
  ◌++◌, replicate, length, ltb, truthy, if◌then◌else◌, ◌>>=◌, ◌==◌,
}
use kvm_host.Common.Bytes.{Memory, read_bytes, write_bytes, load_le, store_le}
use kvm_host.Virtq.{
  Desc, Ring, Virtq, VirtqOps, virtq_get_avail, virtq_handle_avail, vring_packed_desc_f_used,
}
use kvm_host.VirtioPci.{VirtioPciDev, isr_offset}
use kvm_host.VirtioPci.Setup.{get_notify_addr}
use kvm_host.Vm.{vm_guest_to_host}
use kvm_host.VirtioQueue.{Device, desc_at, ring_of, set_event, finish, notify_used, enable_vq}

abbrev pub virtio_net_hdr_size : ℕ
virtio_net_hdr_size = 12

abbrev pub notify_stride : ℕ
notify_stride = 2

-- the packets that were handed to the tap device, in order
abbrev pub Net : Type 0
Net = Device (List (List ℕ))

-- the header that every packet gets, with `num_buffers` 1
abbrev pub net_header : List ℕ
net_header = replicate 10 0 ++ (1 ∷ 0 ∷ [])

module _ (ram_base : ℕ) where
  -- what follows the header, at `host` in the memory; `packet` is what `read` gave, or none for an error
  unfoldable pub received : Option (List ℕ) → ℕ → ℕ → Net → Net
  unfolding finish
  received none i host s = set_event s 1
  received (some bytes) i host s =
      let filled = write_bytes s.mem (host + virtio_net_hdr_size) bytes in
      finish i (record s {
        mem = store_le filled (desc_at s i + 8) 4 (virtio_net_hdr_size + length bytes);
      })

  -- the body of the loop for the descriptor `i`
  unfoldable pub receive : Option (List ℕ) → ℕ → Net → Option Net
  unfolding received
  receive packet i s = do
    host ← vm_guest_to_host ram_base (load_le s.mem (desc_at s i) 8)
    some (received packet i host (record s { mem = write_bytes s.mem host net_header }))

  -- behind the call of `virtq_get_avail`; every path through the body of the loop returns
  unfoldable pub rx_step : Option (List ℕ) → Net → Virtq × Option ℕ → Option Net
  unfolding receive
  rx_step packet s (vq', none) = some (set_event (record s { vq = vq' }) 1)
  rx_step packet s (vq', some i) = receive packet i (record s { vq = vq' })

  unfoldable pub complete_request_rx : Option (List ℕ) → Net → Option Net
  unfolding rx_step
  complete_request_rx packet s = rx_step packet s (virtq_get_avail s.vq (ring_of s))

  -- the buffer at `host`, of `len` bytes; `ok` tells whether `writev` succeeds
  unfoldable pub transmitted : Bool → ℕ → ℕ → ℕ → Net → Net
  unfolding finish
  transmitted ok i host len s =
      if ltb len virtio_net_hdr_size
      then set_event s 1
      else if ok
      then finish i (record s {
        outside =
            s.outside
            ++ (read_bytes s.mem (host + virtio_net_hdr_size) (len - virtio_net_hdr_size) ∷ []);
      })
      else set_event s 1

  -- the body of the loop for the descriptor `i`
  unfoldable pub transmit : Bool → ℕ → Net → Option Net
  unfolding transmitted
  transmit ok i s = do
    host ← vm_guest_to_host ram_base (load_le s.mem (desc_at s i) 8)
    some (transmitted ok i host (load_le s.mem (desc_at s i + 8) 4) s)

  unfoldable pub tx_step : Bool → Net → Virtq × Option ℕ → Option Net
  unfolding transmit
  tx_step ok s (vq', none) = some (set_event (record s { vq = vq' }) 1)
  tx_step ok s (vq', some i) = transmit ok i (record s { vq = vq' })

  unfoldable pub complete_request_tx : Bool → Net → Option Net
  unfolding tx_step
  complete_request_tx ok s = tx_step ok s (virtq_get_avail s.vq (ring_of s))

  abbrev pub rx_ops : Option (List ℕ) → VirtqOps Net
  rx_ops packet = record {
    complete_request = complete_request_rx packet;
    enable_vq = enable_vq ram_base;
    notify_used = notify_used;
  }

  abbrev pub tx_ops : Bool → VirtqOps Net
  tx_ops ok = record {
    complete_request = complete_request_tx ok;
    enable_vq = enable_vq ram_base;
    notify_used = notify_used;
  }

  -- one round of the two threads; `ready` is the result of the poll
  unfoldable pub vq_avail_round : VirtqOps Net → Bool → Net → Option Net
  vq_avail_round ops ready s =
      let s' = set_event s 0 in
      if ready
      then virtq_handle_avail ops (λ s. s.vq.info.enable) (λ s. load_le s.mem (s.guest_event + 2) 2)
          s'
      else some s'
