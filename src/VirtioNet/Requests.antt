-- ===== src/VirtioNet/Requests.antt =====
-- What one request of the network device of src/virtio-net.c does: the packet, the descriptor that
-- goes back to the driver, the interrupt status, and the branches on which nothing is transferred.
use kvm_host.Common.{
  ℕ, ◌+◌, ◌-◌, ◌≤◌, ◌<◌, ◌≡◌, ◌⊎◌, inl, inr, refl, ap, ◌∙◌, arith, Bool, true, false, Option, some,
  none, List, [], ◌∷◌, ◌++◌, length, le→ltb, lt→ltb,
}
use kvm_host.Common.Bytes.{
  read_bytes, load_le, load_le-store_le_ne, load_le-store_le_self, read_bytes-store_le_ne,
}
use kvm_host.Virtq.{Desc, advance, is_avail}
use kvm_host.Virtq.Flags.{is_avail_lem}
use kvm_host.Virtq.Protocol.{is_used}
use kvm_host.VirtioQueue.{ring_of, set_event, finish}
use kvm_host.VirtioQueue.Finished.{
  Finished, finish-Finished, current, buffer, buffer_len, to_host, taken,
}
use kvm_host.VirtioNet.{Net, complete_request_tx}

-- `s'` is `s` after one packet was handed to the tap device
pub record Sent (s : Net) (s' : Net) (packet : List ℕ) : Type 0 where
  pub handed_over : s'.outside ≡ s.outside ++ (packet ∷ [])
  pub returned : Finished s.vq.used_wrap_count s s.vq.next_avail_idx s'
  pub position : s'.vq ≡ advance s.vq

abbrev pub IsSent : Net → List ℕ → Option Net → Type 0
IsSent s packet none = ⊥
IsSent s packet (some s') = Sent s s' packet

-- `s'` is `s` after a request was taken and neither served nor given back
pub record Lost (s : Net) (s' : Net) : Type 0 where
  pub nothing : s'.outside ≡ s.outside
  pub descriptor : ring_of s' s.vq.next_avail_idx ≡ ring_of s s.vq.next_avail_idx
  pub not_used : is_used s.vq.used_wrap_count (ring_of s' s.vq.next_avail_idx).flags ≡ false
  pub disabled : load_le s'.mem (s.guest_event + 2) 2 ≡ 1
  pub position : s'.vq ≡ advance s.vq
  pub config : s'.dev ≡ s.dev
  pub others :
      (at n : ℕ)
      → (at + n ≤ s.guest_event + 2) ⊎ (s.guest_event + 4 ≤ at)
      → read_bytes s'.mem at n ≡ read_bytes s.mem at n

abbrev pub IsLost : Net → Option Net → Type 0
IsLost s none = ⊥
IsLost s (some s') = Lost s s'

-- the driver does not find a descriptor used that is available
is_used-avail : (wrap : Bool) (flags : ℕ) → is_avail wrap flags ≡ true → is_used wrap flags ≡ false
is_used-avail wrap flags a = ground (arith, is_avail_lem wrap flags)

-- the word of the event flags is none of the descriptor's
same_descriptor :
    (s : Net)
    → (s.guest_event + 4 ≤ current s) ⊎ (current s + 16 ≤ s.guest_event + 2)
    → ring_of (set_event (record s { vq = advance s.vq }) 1) s.vq.next_avail_idx
      ≡ ring_of s s.vq.next_avail_idx
same_descriptor s apart =
    let at = s.guest_event + 2 in
    let desc = current s in
    rw
      (
        load_le-store_le_ne s.mem at 2 1 desc 8 (ground arith),
        load_le-store_le_ne s.mem at 2 1 (desc + 8) 4 (ground arith),
        load_le-store_le_ne s.mem at 2 1 (desc + 12) 2 (ground arith),
        load_le-store_le_ne s.mem at 2 1 (desc + 14) 2 (ground arith),
      )
      refl

module _ (ram_base : ℕ) (s : Net)
    (avail : is_avail s.vq.used_wrap_count (ring_of s s.vq.next_avail_idx).flags ≡ true)
    (above : ram_base ≤ load_le s.mem (current s) 8) where
  -- An available descriptor of at least a header, in the memory of the guest, and a tap device that
  -- takes the packet: exactly the bytes behind the header are sent, the descriptor is given back,
  -- so that the driver's test finds it used and the device's test finds it not available under
  -- either wrap counter, the interrupt status is set, the queue moves on by one, and the memory
  -- but for the flags of the descriptor stays.
  pub complete_request_tx-Sent :
      current s + 16 ≤ length s.mem
      → length s.dev.config ≡ 64
      → 12 ≤ buffer_len s
      → IsSent s
          (read_bytes s.mem (buffer ram_base s + 12) (buffer_len s - 12))
          (complete_request_tx ram_base true s)
  unfolding complete_request_tx finish
  complete_request_tx-Sent fits len enough =
      let packet = read_bytes s.mem (buffer ram_base s + 12) (buffer_len s - 12) in
      let s1 : Net = record s { vq = advance s.vq; outside = s.outside ++ (packet ∷ []) } in
      let f = finish-Finished s1 s.vq.next_avail_idx s.vq.used_wrap_count fits len avail in
      rw
        (
          taken ram_base s avail above,
          to_host ram_base s avail above,
          le→ltb (buffer_len s) 12 enough,
        )
        record {
          handed_over = refl;
          returned = record {
            used = f.used;
            given_back = f.given_back;
            interrupt = f.interrupt;
            others = f.others;
          };
          position = refl;
        }

  refused :
      (ok : Bool)
      → (buffer_len s < 12) ⊎ (ok ≡ false)
      → complete_request_tx ram_base ok s ≡ some (set_event (record s { vq = advance s.vq }) 1)
  unfolding complete_request_tx
  refused ok (inl short) =
      rw
        (
          taken ram_base s avail above,
          to_host ram_base s avail above,
          lt→ltb (buffer_len s) 12 short,
        )
        refl
  refused ok (inr fails) =
      rw (taken ram_base s avail above, to_host ram_base s avail above, fails) (ground arith)

  -- An available descriptor that is too short for a header, or a tap device that does not take the
  -- packet, where the word of the event flags lies in the memory apart from the descriptor: the
  -- request ends, nothing is sent, the queue moves on by one, the word says that events are
  -- disabled, the rest of the memory and the registers of the device, the interrupt status among
  -- them, stay, and the descriptor is as the driver wrote it, so that the driver's test does not
  -- find it used: the buffer is not given back.
  pub complete_request_tx-Lost :
      (ok : Bool)
      → (buffer_len s < 12) ⊎ (ok ≡ false)
      → s.guest_event + 4 ≤ length s.mem
      → (s.guest_event + 4 ≤ current s) ⊎ (current s + 16 ≤ s.guest_event + 2)
      → IsLost s (complete_request_tx ram_base ok s)
  complete_request_tx-Lost ok bad fits apart = rw (refused ok bad) record {
    nothing = refl;
    descriptor = same_descriptor s apart;
    not_used =
        ap (λ (d : Desc). is_used s.vq.used_wrap_count d.flags) (same_descriptor s apart)
        ∙ is_used-avail s.vq.used_wrap_count _ avail;
    disabled =
        load_le-store_le_self s.mem (s.guest_event + 2) 2 1 (omega (arith, fits)) (omega arith);
    position = refl;
    config = refl;
    others = λ at n other. read_bytes-store_le_ne s.mem (s.guest_event + 2) 2 1 at n (ground arith);
  }
