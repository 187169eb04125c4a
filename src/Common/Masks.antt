-- ===== src/Common/Masks.antt =====
-- Masks: `&` with runs of ones as remainders, and `|` of disjoint fields as a sum.
use Prim.Native.Nat.{ℕ, zero, suc, ◌+◌, ◌-◌, ◌*◌, ◌/◌, ◌%◌, ◌^◌, ◌<◌, bit_and, bit_or}
use mathlib.Core.Path.{◌≡◌, refl, ap, sym, ◌∙◌}
use native.Mathlib.Nat.{
  pow-suc, one-le-pow, div-add-mod, mod-lt, mod-eq_of_lt, mul-add-mod_self_left, mul_assoc,
  add-zero,
}
use native.Mathlib.Omega.{arith}
use kvm_host.Common.Bits.{
  bit_and_halves, bit_or_halves, bit_and-zero, bit_or-zero, bit_and_zero_left,
}

-- `k` ones
abbrev pub low_mask : ℕ → ℕ
low_mask zero = 0
low_mask (suc k) = low_mask k * 2 + 1

-- the low `k` bits of `x`
abbrev pub low_bits : ℕ → ℕ → ℕ
low_bits x zero = 0
low_bits x (suc k) = low_bits (x / 2) k * 2 + x % 2

pub bit_and-low_mask : (k x : ℕ) → bit_and x (low_mask k) ≡ low_bits x k
bit_and-low_mask zero x = bit_and-zero x
bit_and-low_mask (suc k) x =
    let half : (low_mask k * 2 + 1) / 2 ≡ low_mask k = omega arith in
    let rest : bit_and (x / 2) ((low_mask k * 2 + 1) / 2) ≡ low_bits (x / 2) k =
      rw half (bit_and-low_mask k (x / 2)) in
    omega (arith, bit_and_halves x (low_mask k * 2 + 1), rest)

-- `m` ones above `k` zeros
abbrev pub high_mask : ℕ → ℕ → ℕ
high_mask zero m = low_mask m
high_mask (suc k) m = high_mask k m * 2

-- the `m` bits of `x` above its low `k`, in their place
abbrev pub high_bits : ℕ → ℕ → ℕ → ℕ
high_bits x zero m = low_bits x m
high_bits x (suc k) m = high_bits (x / 2) k m * 2

pub bit_and-high_mask : (k m x : ℕ) → bit_and x (high_mask k m) ≡ high_bits x k m
bit_and-high_mask zero m x = bit_and-low_mask m x
bit_and-high_mask (suc k) m x =
    let half : (high_mask k m * 2) / 2 ≡ high_mask k m = omega arith in
    let rest : bit_and (x / 2) ((high_mask k m * 2) / 2) ≡ high_bits (x / 2) k m =
      rw half (bit_and-high_mask k m (x / 2)) in
    omega (arith, bit_and_halves x (high_mask k m * 2), rest)

-- `x % (2 * p)` from the digits of `x` below and above the lowest
mod_double : (p x : ℕ) → 0 < p → (x / 2 % p) * 2 + x % 2 ≡ x % (p * 2)
mod_double p x pos =
    let q : ℕ = x / 2 / p in
    let r : ℕ = (x / 2 % p) * 2 + x % 2 in
    let whole : p * 2 * q + r ≡ x =
      omega (arith, div-add-mod (x / 2) p, div-add-mod x 2, mul_assoc p 2 q) in
    let fits : r < p * 2 = omega (arith, mod-lt (x / 2) pos) in
    sym (mod-eq_of_lt fits)
    ∙ sym (mul-add-mod_self_left (p * 2) q r)
    ∙ ap (λ (t : ℕ). t % (p * 2)) whole

-- `x & (2^k - 1)` is the remainder.
pub low_bits-mod : (k x : ℕ) → low_bits x k ≡ x % 2 ^ k
low_bits-mod zero x = omega arith
low_bits-mod (suc k) x =
    let step : (x / 2 % 2 ^ k) * 2 + x % 2 ≡ x % 2 ^ suc k =
      rw pow-suc (mod_double (2 ^ k) x (one-le-pow k 2 (omega arith))) in
    omega (arith, low_bits-mod k (x / 2), step)

-- a mask with `k` ones, a zero, and anything above
abbrev pub skip_mask : ℕ → ℕ → ℕ
skip_mask zero m = m * 2
skip_mask (suc k) m = skip_mask k m * 2 + 1

-- `x & ~(1 << k)` for an `x` of `k + 1` bits drops the top bit
pub bit_and-skip_mask : (k m x : ℕ) → x < 2 ^ (suc k) → bit_and x (skip_mask k m) ≡ x % 2 ^ k
bit_and-skip_mask k m x small = bits k m x small ∙ low_bits-mod k x
  where
    bits : (k m x : ℕ) → x < 2 ^ (suc k) → bit_and x (skip_mask k m) ≡ low_bits x k
    bits zero m x small =
        let half : (m * 2) / 2 ≡ m = omega arith in
        let none_left : x / 2 ≡ 0 = omega arith in
        let gone : bit_and (x / 2) ((m * 2) / 2) ≡ 0 = rw (half, none_left) (bit_and_zero_left m) in
        omega (arith, bit_and_halves x (m * 2), gone)
    bits (suc k) m x small =
        let half : (skip_mask k m * 2 + 1) / 2 ≡ skip_mask k m = omega arith in
        let rest : bit_and (x / 2) ((skip_mask k m * 2 + 1) / 2) ≡ low_bits (x / 2) k =
          rw half (bits k m (x / 2) (omega (arith, pow-suc 2 (suc k)))) in
        omega (arith, bit_and_halves x (skip_mask k m * 2 + 1), rest)

-- `x | y` is a sum where `x` has its low `k` bits clear and `y` fits in them
pub bit_or_disjoint : (k x y : ℕ) → x % 2 ^ k ≡ 0 → y < 2 ^ k → bit_or x y ≡ x + y
bit_or_disjoint zero x y clear small =
    let none_left : y ≡ 0 = omega arith in rw none_left (bit_or-zero x ∙ sym (add-zero x))
bit_or_disjoint (suc k) x y clear small =
    let step = mod_double (2 ^ k) x (one-le-pow k 2 (omega arith)) in
    let both : (x / 2 % 2 ^ k) * 2 + x % 2 ≡ 0 =
      step ∙ ap (λ (t : ℕ). x % t) (sym (pow-suc 2 k)) ∙ clear in
    omega (
      arith,
      bit_or_halves x y,
      bit_or_disjoint k (x / 2) (y / 2) (omega arith) (omega (arith, pow-suc 2 k)),
    )

low_mask_lem : (m : ℕ) → low_mask m + 1 ≡ 2 ^ m
low_mask_lem zero = refl
low_mask_lem (suc m) = omega (arith, low_mask_lem m, pow-suc 2 m)

high_mask_lem : (k m : ℕ) → high_mask k m + 2 ^ k ≡ 2 ^ m * 2 ^ k
high_mask_lem zero m = omega (arith, low_mask_lem m)
high_mask_lem (suc k) m =
    let scaled : 2 ^ m * 2 ^ suc k ≡ 2 ^ m * 2 ^ k * 2 =
      ap (λ (t : ℕ). 2 ^ m * t) (pow-suc 2 k) ∙ sym (mul_assoc (2 ^ m) (2 ^ k) 2) in
    omega (arith, high_mask_lem k m, pow-suc 2 k, scaled)

high_bits_lem : (k m x : ℕ) → x < 2 ^ m * 2 ^ k → high_bits x k m + x % 2 ^ k ≡ x
high_bits_lem zero m x small =
    omega (arith, low_bits-mod m x, mod-eq_of_lt {n = x} {m = 2 ^ m} (omega arith))
high_bits_lem (suc k) m x small =
    let scaled : 2 ^ m * 2 ^ suc k ≡ 2 ^ m * 2 ^ k * 2 =
      ap (λ (t : ℕ). 2 ^ m * t) (pow-suc 2 k) ∙ sym (mul_assoc (2 ^ m) (2 ^ k) 2) in
    let step : (x / 2 % 2 ^ k) * 2 + x % 2 ≡ x % 2 ^ suc k =
      rw pow-suc (mod_double (2 ^ k) x (one-le-pow k 2 (omega arith))) in
    omega (arith, high_bits_lem k m (x / 2) (omega (arith, scaled)), step)

pow_split : (m k : ℕ) → 2 ^ m * 2 ^ k ≡ 2 ^ (m + k)
pow_split m zero = rw add-zero (omega arith)
pow_split m (suc k) =
    let next : m + suc k ≡ suc (m + k) = omega arith in
    rw (next, pow-suc, pow-suc)
      (sym (mul_assoc (2 ^ m) (2 ^ k) 2) ∙ ap (λ (t : ℕ). t * 2) (pow_split m k))

-- `x & ~(2^k - 1)` on 32 bits rounds down to a multiple of `2^k`.
pub bit_and_round_down :
    (k m x : ℕ) → m + k ≡ 32 → x < 2 ^ 32 → bit_and x (2 ^ 32 - 2 ^ k) ≡ x - x % 2 ^ k
bit_and_round_down k m x width small =
    let whole : 2 ^ m * 2 ^ k ≡ 2 ^ 32 = pow_split m k ∙ ap (λ (t : ℕ). 2 ^ t) width in
    let mask : 2 ^ 32 - 2 ^ k ≡ high_mask k m = omega (arith, high_mask_lem k m, whole) in
    rw mask (omega (arith, bit_and-high_mask k m x, high_bits_lem k m x (omega (arith, whole))))
