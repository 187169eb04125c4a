-- ===== src/VirtioNet/Threads.antt =====
-- The two threads of src/virtio-net.c. What `poll`, `read` and `writev` give in each round is an
-- argument; where the list ends `thread_stop` is seen.
use kvm_host.Common.{ℕ, Bool, Option, some, List, [], ◌∷◌, ◌>>=◌}
use kvm_host.Common.Poll.{readable, both_ready}
use kvm_host.VirtioNet.{Net, rx_ops, tx_ops, vq_avail_round}

abbrev pub virtio_net_virtq_available_rx : Option ℕ → Bool
virtio_net_virtq_available_rx polled = readable polled

abbrev pub virtio_net_virtq_available_tx : Option (ℕ × ℕ) → Bool
virtio_net_virtq_available_tx polled = both_ready polled

module _ (ram_base : ℕ) where
  unfoldable pub virtio_net_vq_avail_handler_rx :
      List (Option ℕ × Option (List ℕ)) → Net → Option Net
  unfolding vq_avail_round
  virtio_net_vq_avail_handler_rx [] s = some s
  virtio_net_vq_avail_handler_rx ((polled, packet) ∷ rounds) s = do
    s' ← vq_avail_round ram_base (rx_ops ram_base packet) (virtio_net_virtq_available_rx polled) s
    virtio_net_vq_avail_handler_rx rounds s'

  unfoldable pub virtio_net_vq_avail_handler_tx : List (Option (ℕ × ℕ) × Bool) → Net → Option Net
  unfolding vq_avail_round
  virtio_net_vq_avail_handler_tx [] s = some s
  virtio_net_vq_avail_handler_tx ((polled, ok) ∷ rounds) s = do
    s' ← vq_avail_round ram_base (tx_ops ram_base ok) (virtio_net_virtq_available_tx polled) s
    virtio_net_vq_avail_handler_tx rounds s'
