-- ===== src/Common/Poll.antt =====
-- What `poll` tells of the descriptors it was asked about: the events of each, or none at all when it
-- fails or runs into its timeout.
use kvm_host.Common.{ℕ, bit_and, Bool, false, Option, none, some, truthy, ◌&&◌}

abbrev pub pollin : ℕ
pollin = 0x1

abbrev pub pollout : ℕ
pollout = 0x4

-- `(poll(&pollfd, 1, timeout) > 0) && (pollfd.revents & POLLIN)`
abbrev pub readable : Option ℕ → Bool
readable none = false
readable (some revents) = truthy (bit_and revents pollin)

-- one descriptor to read from, and one to write to
abbrev pub both_ready : Option (ℕ × ℕ) → Bool
both_ready none = false
both_ready (some (first, second)) = truthy (bit_and first pollin) && truthy (bit_and second pollout)
