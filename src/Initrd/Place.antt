-- ===== src/Initrd/Place.antt =====
-- The search for an address in `vm_arch_load_initrd` of src/arch/x86/vm.c.
use kvm_host.Common.{
  ℕ, zero, suc, ◌+◌, ◌-◌, ◌*◌, ◌%◌, ◌^◌, ◌≤◌, ◌<◌, ◌≡◌, ◌⊎◌, inl, inr, Option, some, none, arith,
  ltb, Bool-cases, refl, ltb→lt, le→ltb, lt→ltb,
}
use native.Mathlib.Decide.{dec_lt}
use kvm_host.Initrd.{find_place}
use kvm_host.Vm.{ram_size}

-- an address at or below `top`, a multiple of 2^20 above the low megabyte, from which on the memory has
-- room for `datasz` bytes
pub record Fits (datasz top addr : ℕ) : Type 0 where
  pub aligned : addr % 2 ^ 20 ≡ 0
  pub high_enough : 2 ^ 20 ≤ addr
  pub inside : addr + datasz ≤ ram_size
  pub below : addr ≤ top

-- the image would end with the memory, at its last byte
abbrev pub EndsWithMemory : ℕ → ℕ → Type 0
EndsWithMemory datasz addr = addr + datasz ≡ ram_size

-- The search ends. Its place fits and leaves a byte behind the image. A higher address that fits, or
-- any that fits if there is no place, is one from which on the image would end with the memory.
abbrev pub Found : ℕ → ℕ → Option (Option ℕ) → Type 0
Found datasz top none = ⊥
Found datasz top (some none) = (addr : ℕ) → Fits datasz top addr → EndsWithMemory datasz addr
Found datasz top (some (some place)) =
    Fits datasz top place
    × (¬ EndsWithMemory datasz place)
    × ((addr : ℕ) → Fits datasz top addr → (addr ≤ place) ⊎ EndsWithMemory datasz addr)

-- one round further down
module _ (datasz top : ℕ) (aligned : top % 2 ^ 20 ≡ 0) (high : 2 ^ 20 ≤ top)
    (beyond : ram_size ≤ top + datasz) where
  lower :
      (addr : ℕ)
      → Fits datasz top addr
      → Fits datasz (top - 2 ^ 20) addr ⊎ EndsWithMemory datasz addr
  lower addr f = elim (dec_lt (addr + datasz) ram_size) [
    | no all ↦ inr (omega (arith, f.inside))
    | yes less ↦ inl record {
      aligned = f.aligned;
      high_enough = f.high_enough;
      inside = f.inside;
      below = omega (arith, f.aligned, f.below);
    }
  ]

  Found-lower : (r : Option (Option ℕ)) → Found datasz (top - 2 ^ 20) r → Found datasz top r
  Found-lower none found = found
  Found-lower (some none) found =
      λ addr f. elim (lower addr f) [ inl g ↦ found addr g | inr ends ↦ ends ]
  Found-lower (some (some place)) (f, spare, highest) = (
    record {
      aligned = f.aligned;
      high_enough = f.high_enough;
      inside = f.inside;
      below = omega (arith, f.below);
    },
    spare,
    λ addr g. elim (lower addr g) [ inl h ↦ highest addr h | inr ends ↦ inr ends ],
  )

-- In more rounds than `top` has multiples of 2^20 the search ends with the highest address that fits
-- and from which on the image does not end with the memory, or with the error if there is none, for an
-- image no larger than the memory.
pub find_place-Found :
    (rounds datasz top : ℕ)
    → top % 2 ^ 20 ≡ 0
    → top < rounds * 2 ^ 20
    → datasz ≤ ram_size
    → Found datasz top (find_place rounds datasz top)
unfolding find_place
find_place-Found zero datasz top aligned enough small = absurd (omega arith)
find_place-Found (suc rounds) datasz top aligned enough small =
    let limit = (ram_size + 2 ^ 64 - datasz) % 2 ^ 64 in
    elim (Bool-cases (ltb top 0x100000)) [
      | inl low ↦ rw low (λ addr f. omega (arith, f.high_enough, f.below, ltb→lt top 0x100000 low))
      | inr high ↦ elim (Bool-cases (ltb top limit)) [
        | inl fits ↦
            rw (high, fits)
              (
                record {
                  aligned = aligned;
                  high_enough = ground arith;
                  inside = omega (arith, ltb→lt top limit fits);
                  below = omega arith;
                },
                λ e. omega (arith, e, ltb→lt top limit fits),
                λ addr f. inl f.below,
              )
        | inr past ↦
            let low_enough : 2 ^ 20 ≤ top = ground arith in
            let beyond : limit ≤ top = ground arith in
            rw (high, past)
              (Found-lower datasz top aligned low_enough (omega (arith, beyond))
                (find_place rounds datasz (top - 2 ^ 20))
                (find_place-Found rounds datasz (top - 2 ^ 20) (omega arith) (omega arith) small))
      ]
    ]

-- An image larger than the memory (the case `RAM_SIZE - datasz` wraps in) is given the first address
-- that is tried, though it does not fit there.
pub find_place_too_large :
    (rounds datasz top : ℕ)
    → 2 ^ 20 ≤ top
    → top < 2 ^ 32
    → ram_size < datasz
    → datasz < 2 ^ 63
    → find_place (suc rounds) datasz top ≡ some (some top)
unfolding find_place
find_place_too_large rounds datasz top high small large bound =
    rw (le→ltb top 0x100000 high, lt→ltb top ((ram_size + 2 ^ 64 - datasz) % 2 ^ 64) (omega arith))
      refl
