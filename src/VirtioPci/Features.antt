-- ===== src/VirtioPci/Features.antt =====
-- Feature negotiation through the window of src/virtio-pci.c: the accesses that a driver makes, in
-- their order.
use kvm_host.Common.{
  ℕ, ◌+◌, ◌*◌, ◌/◌, ◌%◌, ◌^◌, ◌<◌, ◌≤◌, bit_or, ◌≡◌, Option, some, refl, length, arith, ◌>>=◌, ◌∙◌,
  ap, inl, inr, Bool-cases, le→leb, lt→ltb, ◌==◌, if◌then◌else◌,
}
use kvm_host.Common.Bytes.{
  le_bytes, le_value, load_le, store_le, write_bytes-le_bytes, length-le_bytes, load_le-store_le,
  le_value-le_bytes_four, load_le-store_le_self, load_le-store_le_ne, length-store_le,
}
use kvm_host.Common.Bits.{bit_or_zero_left}
use kvm_host.Virtq.{VirtqOps}
use kvm_host.VirtioPci.{
  VirtioPciDev, space_write, space_read, after_write, select_device_feature, write_guest_feature,
  common_dfselect, common_df, common_gfselect, common_gf,
}

module _ {W : Type 0} (ops : ℕ → VirtqOps (VirtioPciDev × W))
    (event_flags : ℕ → VirtioPciDev × W → ℕ) where
  abbrev pub put : VirtioPciDev × W → ℕ → ℕ → ℕ → Option (VirtioPciDev × W)
  put s offset n v = space_write ops event_flags s (le_bytes n v) offset

  -- the driver reads one half of the features that the device offers
  abbrev pub offered_half : VirtioPciDev × W → ℕ → Option ((VirtioPciDev × W) × ℕ)
  offered_half s select = do
    (dev, w) ← put s common_dfselect 4 select
    (dev', bytes) ← space_read dev common_df 4
    some ((dev', w), le_value bytes)

  -- both halves
  pub offered : VirtioPciDev × W → Option ℕ
  offered s = do
    (s', low) ← offered_half s 0
    (s'', high) ← offered_half s' 1
    some (low + high * 2 ^ 32)

  -- the driver writes the features that it accepts, as the virtio specification lays down, and
  -- what the device has of it in the end
  pub accepted : VirtioPciDev × W → ℕ → ℕ → Option ℕ
  accepted s low high = do
    s1 ← put s common_gfselect 4 0
    s2 ← put s1 common_gf 4 low
    s3 ← put s2 common_gfselect 4 1
    (dev, w) ← put s3 common_gf 4 high
    some dev.guest_feature

  -- a write of a number into the common configuration
  pub put-common :
      (dev : VirtioPciDev) (w : W) (offset n v : ℕ)
      → length dev.config ≡ 64
      → 0 < n
      → offset + n ≤ 64
      → put (dev, w) offset n v
        ≡ after_write ops event_flags
            (record dev { config = store_le dev.config offset n v }, w)
            (le_bytes n v)
            offset
  unfolding space_write
  put-common dev w offset n v len some_byte fits =
      let inside = lt→ltb offset 64 (omega arith) in
      let whole = le→leb (offset + length (le_bytes n v)) 64 (omega (arith, length-le_bytes n v)) in
      rw (inside, whole, write_bytes-le_bytes) refl

  -- what the select register leaves in the feature register
  abbrev half : ℕ → ℕ → ℕ
  half feature select = if select == 0 then feature else if select == 1 then feature / 2 ^ 32 else 0

  abbrev selected : VirtioPciDev → ℕ → VirtioPciDev
  selected dev select = record dev {
    config =
        store_le (store_le dev.config common_dfselect 4 select) common_df 4
          (half dev.device_feature select);
  }

  -- what `virtio_pci_write_guest_feature` makes of the features recorded so far
  abbrev recorded : ℕ → ℕ → ℕ → ℕ
  recorded so_far select feature =
      if select == 0
      then bit_or so_far feature
      else if select == 1
      then bit_or so_far (feature * 2 ^ 32)
      else so_far

  offered_half_lem :
      (dev : VirtioPciDev) (w : W) (select : ℕ)
      → length dev.config ≡ 64
      → select < 2 ^ 32
      → offered_half (dev, w) select
        ≡ some ((selected dev select, w), half dev.device_feature select % 2 ^ 32)
  unfolding after_write select_device_feature space_read load_le
  offered_half_lem dev w select len small =
      let stored = load_le-store_le_self dev.config 0 4 select (omega (arith, len)) small in
      let config' = store_le dev.config common_dfselect 4 select in
      let value = half dev.device_feature select in
      let read : load_le (store_le config' common_df 4 value) common_df 4 ≡ value % 2 ^ 32 =
        load_le-store_le config' 4 4 value
          (omega (arith, len, length-store_le dev.config 0 4 select))
        ∙ le_value-le_bytes_four value in
      rw (put-common dev w 0 4 select len (omega arith) (omega arith), stored)
        (ap (λ (x : ℕ). some ((selected dev select, w), x)) read)

  -- A driver that selects and reads both halves of the feature register gets the 64-bit feature set
  -- that the device offers.
  pub offered-device_feature :
      (dev : VirtioPciDev) (w : W)
      → length dev.config ≡ 64
      → dev.device_feature < 2 ^ 64
      → offered (dev, w) ≡ some dev.device_feature
  unfolding offered
  offered-device_feature dev w len small =
      let dev' = selected dev 0 in
      let len' : length dev'.config ≡ 64 =
        length-store_le (store_le dev.config 0 4 0) 4 4 dev.device_feature
        ∙ length-store_le dev.config 0 4 0
        ∙ len in
      rw (offered_half_lem dev w 0 len (omega arith), offered_half_lem dev' w 1 len' (omega arith))
        (ap some (omega arith))

  put_gfselect :
      (dev : VirtioPciDev) (w : W) (select feature : ℕ)
      → length dev.config ≡ 64
      → select < 2 ^ 32
      → load_le dev.config common_gf 4 ≡ feature
      → put (dev, w) common_gfselect 4 select
        ≡ some (
          record dev {
            config = store_le dev.config common_gfselect 4 select;
            guest_feature = recorded dev.guest_feature select feature;
          },
          w,
        )
  unfolding after_write write_guest_feature
  put_gfselect dev w select feature len small gf =
      let stored = load_le-store_le_self dev.config 8 4 select (omega (arith, len)) small in
      let kept : load_le (store_le dev.config 8 4 select) 12 4 ≡ feature =
        load_le-store_le_ne dev.config 8 4 select 12 4 (inr (omega arith)) ∙ gf in
      rw (put-common dev w 8 4 select len (omega arith) (omega arith), stored, kept)
        (elim (Bool-cases (select == 0)) [
          | inl e ↦ rw e refl
          | inr e ↦ rw e (elim (Bool-cases (select == 1)) [ inl t ↦ rw t refl | inr t ↦ rw t refl ])
        ])

  put_gf :
      (dev : VirtioPciDev) (w : W) (v : ℕ)
      → length dev.config ≡ 64
      → put (dev, w) common_gf 4 v
        ≡ some (record dev { config = store_le dev.config common_gf 4 v }, w)
  unfolding after_write
  put_gf dev w v len = rw (put-common dev w 12 4 v len (omega arith) (omega arith)) refl

  -- A driver that accepts the features `low` and `high` word by word, as the specification lays
  -- down, leaves in a device that it has not written before only `low`, and in the upper half.
  pub accepted-guest_feature :
      (dev : VirtioPciDev) (w : W) (low high : ℕ)
      → length dev.config ≡ 64
      → load_le dev.config common_gf 4 ≡ 0
      → dev.guest_feature ≡ 0
      → low < 2 ^ 32
      → accepted (dev, w) low high ≡ some (low * 2 ^ 32)
  unfolding accepted
  accepted-guest_feature dev w low high len gf fresh small =
      let dev1 : VirtioPciDev = record dev {
        config = store_le dev.config 8 4 0;
        guest_feature = recorded dev.guest_feature 0 0;
      } in
      let dev2 : VirtioPciDev = record dev1 { config = store_le dev1.config 12 4 low } in
      let dev3 : VirtioPciDev = record dev2 {
        config = store_le dev2.config 8 4 1;
        guest_feature = recorded dev2.guest_feature 1 low;
      } in
      let len1 : length dev1.config ≡ 64 = length-store_le dev.config 8 4 0 ∙ len in
      let len2 : length dev2.config ≡ 64 = length-store_le dev1.config 12 4 low ∙ len1 in
      let len3 : length dev3.config ≡ 64 = length-store_le dev2.config 8 4 1 ∙ len2 in
      let word = load_le-store_le_self dev1.config 12 4 low (omega (arith, len1)) small in
      rw
        (
          put_gfselect dev w 0 0 len (omega arith) gf,
          put_gf dev1 w low len1,
          put_gfselect dev2 w 1 low len2 (omega arith) word,
          put_gf dev3 w high len3,
          fresh,
        )
        (ap some (bit_or_zero_left (low * 2 ^ 32)))
