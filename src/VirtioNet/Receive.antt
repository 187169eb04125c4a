-- ===== src/VirtioNet/Receive.antt =====
-- What a request of the receive queue of src/virtio-net.c does when the tap device has a packet.
use kvm_host.Common.{
  ℕ, ◌+◌, ◌^◌, ◌≤◌, ◌<◌, ◌≡◌, ◌⊎◌, inl, inr, ◌∙◌, ap, refl, sym, Bool, true, false, Option, some,
  none, List, ◌++◌, length, arith,
}
use kvm_host.Common.Bits.{has_bit}
use kvm_host.Common.Bytes.{
  Memory, read_bytes, write_bytes, load_le, store_le, load_le-store_le_self, length-store_le,
  length-write_bytes, read_bytes-store_le_ne, read_bytes-write_bytes_self,
  read_bytes-write_bytes_ne, write_bytes-append, le_value,
}
use kvm_host.Virtq.{advance, is_avail}
use kvm_host.Virtq.Protocol.{is_used}
use kvm_host.VirtioPci.{isr_offset}
use kvm_host.VirtioQueue.{ring_of, finish}
use kvm_host.VirtioNet.{Net, net_header, complete_request_rx}
use kvm_host.VirtioQueue.Finished.{
  current, buffer, finish-Finished, Finished-load_le, to_host, taken,
}

-- `s'` is `s` after the packet was put at `host`
record Received (s : Net) (s' : Net) (host : ℕ) (packet : List ℕ) : Type 0 where
  arrived : read_bytes s'.mem host (12 + length packet) ≡ net_header ++ packet
  used_len : load_le s'.mem (current s + 8) 4 ≡ 12 + length packet
  used : is_used s.vq.used_wrap_count (ring_of s' s.vq.next_avail_idx).flags ≡ true
  given_back : (wrap : Bool) → is_avail wrap (ring_of s' s.vq.next_avail_idx).flags ≡ false
  interrupt : has_bit (load_le s'.dev.config isr_offset 4) 0 ≡ true
  position : s'.vq ≡ advance s.vq

abbrev IsReceived : Net → ℕ → List ℕ → Option Net → Type 0
IsReceived s host packet none = ⊥
IsReceived s host packet (some s') = Received s s' host packet

-- the memory before the descriptor is given back
abbrev pub filled : Memory → ℕ → ℕ → List ℕ → Memory
filled m host desc packet =
    store_le (write_bytes (write_bytes m host net_header) (host + 12) packet) (desc + 8) 4
      (12 + length packet)

module _ (m : Memory) (host desc : ℕ) (packet : List ℕ) (fits : desc + 16 ≤ length m)
    (room : host + (12 + length packet) ≤ length m)
    (apart : (desc + 16 ≤ host) ⊎ (host + (12 + length packet) ≤ desc)) where
  whole :
      write_bytes (write_bytes m host net_header) (host + 12) packet
      ≡ write_bytes m host (net_header ++ packet)
  whole = write_bytes-append m host net_header packet

  pub filled-length : length (filled m host desc packet) ≡ length m
  filled-length = rw (length-store_le, length-write_bytes, length-write_bytes) refl

  pub filled-buffer :
      read_bytes (filled m host desc packet) host (12 + length packet) ≡ net_header ++ packet
  filled-buffer =
      let size : length (net_header ++ packet) ≡ 12 + length packet = omega arith in
      let both = write_bytes (write_bytes m host net_header) (host + 12) packet in
      read_bytes-store_le_ne both (desc + 8) 4 (12 + length packet) host (12 + length packet)
        (ground arith)
      ∙ ap (λ k. read_bytes k host (12 + length packet)) whole
      ∙ ap (λ n. read_bytes (write_bytes m host (net_header ++ packet)) host n) (sym size)
      ∙ read_bytes-write_bytes_self m host (net_header ++ packet) (omega (arith, size))

  -- what is neither in the buffer nor the length of the descriptor
  pub filled-others :
      (at n : ℕ)
      → (at + n ≤ host) ⊎ (host + (12 + length packet) ≤ at)
      → (at + n ≤ desc + 8) ⊎ (desc + 12 ≤ at)
      → read_bytes (filled m host desc packet) at n ≡ read_bytes m at n
  filled-others at n buffer len =
      let headed = write_bytes m host net_header in
      read_bytes-store_le_ne (write_bytes headed (host + 12) packet) (desc + 8) 4
        (12 + length packet) at n (ground arith)
      ∙ read_bytes-write_bytes_ne headed (host + 12) at n packet (ground arith)
      ∙ read_bytes-write_bytes_ne m host at n net_header (ground arith)

  filled-flags : load_le (filled m host desc packet) (desc + 14) 2 ≡ load_le m (desc + 14) 2
  unfolding load_le
  filled-flags = ap le_value (filled-others (desc + 14) 2 (ground arith) (inr (omega arith)))

  pub filled-len :
      12 + length packet < 2 ^ 32
      → load_le (filled m host desc packet) (desc + 8) 4 ≡ 12 + length packet
  filled-len small =
      let headed = write_bytes m host net_header in
      load_le-store_le_self (write_bytes headed (host + 12) packet) (desc + 8) 4
        (12 + length packet)
        (omega (
          arith,
          length-write_bytes headed (host + 12) packet,
          length-write_bytes m host net_header,
        ))
        small

-- An available descriptor, and a packet for which, with its header, there is room in the memory of
-- the guest from the buffer's address on and apart from the descriptor: header and packet lie in the
-- buffer, the length of both is in the descriptor, which the driver finds used and is not available again,
-- the interrupt status is set, and the queue moves on by one.
complete_request_rx-Received :
    (ram_base : ℕ) (s : Net) (packet : List ℕ)
    → is_avail s.vq.used_wrap_count (ring_of s s.vq.next_avail_idx).flags ≡ true
    → ram_base ≤ load_le s.mem (current s) 8
    → current s + 16 ≤ length s.mem
    → length s.dev.config ≡ 64
    → 12 + length packet < 2 ^ 32
    → buffer ram_base s + (12 + length packet) ≤ length s.mem
    → (current s + 16 ≤ buffer ram_base s) ⊎ (buffer ram_base s + (12 + length packet) ≤ current s)
    → IsReceived s (buffer ram_base s) packet (complete_request_rx ram_base (some packet) s)
unfolding complete_request_rx finish
complete_request_rx-Received ram_base s packet avail above fits len small room apart =
    let host = buffer ram_base s in
    let desc = current s in
    let s1 : Net = record s { vq = advance s.vq; mem = filled s.mem host desc packet } in
    let long : desc + 16 ≤ length s1.mem =
      omega (arith, filled-length s.mem host desc packet fits room apart, fits) in
    let flags = filled-flags s.mem host desc packet fits room apart in
    let f = finish-Finished s1 s.vq.next_avail_idx s.vq.used_wrap_count long len (rw flags avail) in
    rw (taken ram_base s avail above, to_host ram_base s avail above)
      record {
        arrived =
            (f.others host (12 + length packet) (ground arith))
            ∙ filled-buffer s.mem host desc packet fits room apart;
        used_len =
            Finished-load_le s1 s.vq.next_avail_idx f (desc + 8) 4 (inl (omega arith))
            ∙ filled-len s.mem host desc packet fits room apart small;
        used = f.used;
        given_back = f.given_back;
        interrupt = f.interrupt;
        position = refl;
      }
