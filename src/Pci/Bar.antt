-- ===== src/Pci/Bar.antt =====
-- The base address registers of src/pci.c as a guest sees them: sizing, placing, and what a write to
-- the configuration space leaves alone.
use kvm_host.Common.{
  ℕ, zero, suc, ◌+◌, ◌-◌, ◌*◌, ◌/◌, ◌%◌, ◌^◌, ◌<◌, ◌≤◌, bit_and, bit_or, ◌≡◌, ◌≢◌, refl, ap, sym,
  ◌∙◌, Bool, false, some, List, length, of_bool, get_or, arith, ==_refl, ==_ne, le→leb,
}
use kvm_host.Common.Bytes.{
  write_bytes, le_bytes, load_le, store_le, load_le-store_le_self, write_bytes-le_bytes,
  length-store_le,
}
use native.Mathlib.Nat.{one-le-pow, pow-le-pow_right, pow-suc, div-add-mod}
use kvm_host.Common.Masks.{bit_and_round_down, bit_or_disjoint}
use kvm_host.Bus.{Ptr, write}
use kvm_host.Pci.{
  PciDev, Space, bar_mask, pci_config_bar, pci_config_write, pci_bar_offset, pci_command,
  pci_base_address_0, pci_base_address_5,
}

-- the value of a BAR
abbrev pub bar_value : PciDev → ℕ → ℕ
bar_value dev bar = load_le dev.hdr (pci_bar_offset bar) 4

-- A BAR of `2 ^ k` bytes on a device with its whole configuration space.
pub record IsBar (dev : PciDev) (bar k : ℕ) : Type 0 where
  pub space : length dev.hdr ≡ 256
  pub index : bar < 6
  pub size : get_or dev.bar_size bar 0 ≡ 2 ^ k
  pub kind : ℕ
  pub width : kind + k ≡ 32
  pub some_bit : 0 < k

bar_mask_lem : (dev : PciDev) (bar k : ℕ) → IsBar dev bar k → bar_mask dev bar ≡ 2 ^ 32 - 2 ^ k
unfolding bar_mask
bar_mask_lem dev bar k b =
    let pos : 1 ≤ 2 ^ k = one-le-pow k 2 (omega arith) in
    let top : 2 ^ k ≤ 2 ^ 32 =
      pow-le-pow_right {n = 2} (omega arith) {i = k} {j = 32} (omega (arith, b.width)) in
    rw b.size (omega arith)

-- a multiple of a power of two above the first is even
even_part : (k v : ℕ) → 0 < k → (v - v % 2 ^ k) % 2 ≡ 0
even_part zero v h = absurd (omega arith)
even_part (suc j) v h =
    let whole : 2 ^ j * 2 * (v / 2 ^ suc j) + v % 2 ^ suc j ≡ v =
      ap (λ (t : ℕ). t * (v / 2 ^ suc j) + v % 2 ^ suc j) (sym (pow-suc 2 j))
      ∙ div-add-mod v (2 ^ suc j) in
    omega (arith, whole)

-- what `pci_config_bar` makes of the value that the guest stored
abbrev pub decoded : Bool → ℕ → ℕ → ℕ
decoded is_io k v = v - v % 2 ^ k + of_bool is_io

new_bar_lem :
    (dev : PciDev) (bar k v : ℕ) (is_io : Bool)
    → IsBar dev bar k
    → v < 2 ^ 32
    → bit_or (bit_and v (bar_mask dev bar)) (of_bool is_io) ≡ decoded is_io k v
new_bar_lem dev bar k v is_io b small =
    rw (bar_mask_lem dev bar k b, bit_and_round_down k b.kind v b.width small)
      (bit_or_disjoint 1 (v - v % 2 ^ k) (of_bool is_io) (even_part k v b.some_bit)
        (bool_bit is_io))
  where
    bool_bit : (c : Bool) → of_bool c < 2
    bool_bit c = ground arith

decoded-lt : (is_io : Bool) (k v : ℕ) → 0 < k → v < 2 ^ 32 → decoded is_io k v < 2 ^ 32
decoded-lt is_io k v pos small = ground (arith, even_part k v pos)

-- the branch that `pci_config_write` takes for a BAR
write_branch :
    (dev : PciDev) (bar : ℕ) (bytes : List ℕ) (s : Space)
    → bar < 6
    → pci_config_write dev bytes (pci_bar_offset bar) s
      ≡ some (
          pci_config_bar
            (record dev { hdr = write_bytes dev.hdr (pci_bar_offset bar) bytes })
            bar
            s)
unfolding pci_config_write
write_branch dev bar bytes s index =
    let here : (pci_base_address_0 + bar * 4 - pci_base_address_0) / 4 ≡ bar = omega arith in
    rw
      (
        ==_ne (pci_bar_offset bar) pci_command (omega arith),
        le→leb pci_base_address_0 (pci_bar_offset bar) (omega arith),
        le→leb (pci_bar_offset bar) pci_base_address_5 (omega arith),
        here,
      )
      refl

-- what `pci_config_bar` does to a BAR in which the guest has stored `v`
record Placed (dev : PciDev) (bar k v : ℕ) (s : Space) (r : PciDev × Space) : Type 0 where
  value : bar_value r.0 bar ≡ decoded (get_or dev.bar_is_io_space bar false) k v
  base : (r.1.store (dev.space_dev + bar)).base ≡ bar_value r.0 bar
  frame : (a : Ptr) → a ≢ dev.space_dev + bar → r.1.store a ≡ s.store a

pci_config_bar-Placed :
    (dev : PciDev) (bar k v : ℕ) (s : Space)
    → IsBar dev bar k
    → v < 2 ^ 32
    → bar_value dev bar ≡ v
    → Placed dev bar k v s (pci_config_bar dev bar s)
unfolding pci_config_bar
pci_config_bar-Placed dev bar k v s b small stored =
    let is_io : Bool = get_or dev.bar_is_io_space bar false in
    let new : bit_or (bit_and (bar_value dev bar) (bar_mask dev bar)) (of_bool is_io)
        ≡ decoded is_io k v =
      rw stored (new_bar_lem dev bar k v is_io b small) in
    let read : load_le (store_le dev.hdr (pci_bar_offset bar) 4 (decoded is_io k v))
          (pci_bar_offset bar) 4
        ≡ decoded is_io k v =
      load_le-store_le_self dev.hdr (pci_bar_offset bar) 4 (decoded is_io k v)
        (omega (arith, b.space, b.index)) (decoded-lt is_io k v b.some_bit small) in
    rw new (record {
      value = read;
      base = rw (write, ==_refl (dev.space_dev + bar)) (sym read);
      frame = λ a ne. rw (write, ==_ne a (dev.space_dev + bar) ne) refl;
    })

-- A 4-byte write of `v` to the BAR: the guest reads back `v` rounded down to a multiple of the size,
-- with the space bit, and that same value is the base of the device's range; every other device's
-- range stays. Written with all ones, the register thus tells its size.
pub pci_config_write-bar :
    (dev : PciDev) (bar k v : ℕ) (s : Space)
    → IsBar dev bar k
    → v < 2 ^ 32
    → (dev' : PciDev) × (s' : Space) × (pci_config_write dev (le_bytes 4 v) (pci_bar_offset bar) s
        ≡ some (dev', s'))
      × (bar_value dev' bar ≡ decoded (get_or dev.bar_is_io_space bar false) k v)
      × ((s'.store (dev.space_dev + bar)).base ≡ bar_value dev' bar)
      × ((a : Ptr) → a ≢ dev.space_dev + bar → s'.store a ≡ s.store a)
pci_config_write-bar dev bar k v s b small =
    let off : ℕ = pci_bar_offset bar in
    let b1 : IsBar (record dev { hdr = store_le dev.hdr off 4 v }) bar k = record {
      space = length-store_le dev.hdr off 4 v ∙ b.space;
      index = b.index;
      size = b.size;
      kind = b.kind;
      width = b.width;
      some_bit = b.some_bit;
    } in
    let placed =
      pci_config_bar-Placed (record dev { hdr = store_le dev.hdr off 4 v }) bar k v s b1 small
        (load_le-store_le_self dev.hdr off 4 v (omega (arith, b.space, b.index)) small) in
    (
      (pci_config_bar (record dev { hdr = store_le dev.hdr off 4 v }) bar s).0,
      (pci_config_bar (record dev { hdr = store_le dev.hdr off 4 v }) bar s).1,
      write_branch dev bar (le_bytes 4 v) s b.index
          ∙ ap (λ m. some (pci_config_bar (record dev { hdr = m }) bar s))
              (write_bytes-le_bytes dev.hdr off 4 v),
      placed.value,
      placed.base,
      placed.frame,
    )
