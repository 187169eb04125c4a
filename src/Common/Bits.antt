-- ===== src/Common/Bits.antt =====
-- Facts about `bit_and`, `bit_or` and `bit_xor` at variables, bit by bit.
use Prim.Native.Nat.{
  ℕ, zero, suc, ◌+◌, ◌*◌, ◌/◌, ◌%◌, ◌^◌, ◌≤◌, ◌<◌, min, max, bit_and, bit_or, bit_xor, digits,
  bitwise, differ, bit_and-bitwise, bit_or-bitwise, bit_xor-bitwise,
}
use mathlib.Core.Path.{◌≡◌, refl, ap}
use mathlib.Core.Logic.{◌⊎◌, inl, inr}
use mathlib.Core.Bool.{Bool}
use native.Mathlib.Nat.{pow-suc, one-le-pow}
use native.Mathlib.Omega.{arith}
use kvm_host.Common.Tests.{◌==◌, truthy}

-- bit `k` of `x`, as 0 or 1
abbrev pub bit : ℕ → ℕ → ℕ
bit x zero = x % 2
bit x (suc k) = bit (x / 2) k

pub bit-lt-two : (x k : ℕ) → bit x k < 2
bit-lt-two x zero = omega arith
bit-lt-two x (suc k) = bit-lt-two (x / 2) k

-- The count of digits that `digits` is given does not matter, once it is enough.
module _ (tail : ℕ → ℕ) (op : ℕ → ℕ → ℕ) where
  digits-enough : (a b n m : ℕ) → a ≤ n → a ≤ m → digits tail op n a b ≡ digits tail op m a b
  digits-enough zero b zero zero p q = refl
  digits-enough zero b zero _ p q = refl
  digits-enough zero b _ zero p q = refl
  digits-enough zero b _ _ p q = refl
  digits-enough (suc a) b zero m p q = elim p [ ]
  digits-enough (suc a) b (suc n) zero p q = elim q [ ]
  digits-enough (suc a) b (suc n) (suc m) p q =
      omega (arith, digits-enough (suc a / 2) (b / 2) n m (omega arith) (omega arith))

  bitwise_halves :
      (a b : ℕ)
      → bitwise tail op (suc a) b ≡ bitwise tail op (suc a / 2) (b / 2) * 2 + op (suc a % 2) (b % 2)
  bitwise_halves a b =
      omega (arith, digits-enough (suc a / 2) (b / 2) a (suc a / 2) (omega arith) (omega arith))

pub bit_and_zero_left : (x : ℕ) → bit_and 0 x ≡ 0
bit_and_zero_left x = bit_and-bitwise 0 x

pub bit_or_zero_left : (x : ℕ) → bit_or 0 x ≡ x
bit_or_zero_left x = bit_or-bitwise 0 x

pub bit_and_halves : (x y : ℕ) → bit_and x y ≡ min (x % 2) (y % 2) + 2 * bit_and (x / 2) (y / 2)
bit_and_halves zero y = simp bit_and-bitwise (omega arith)
bit_and_halves (suc x) y = simp bit_and-bitwise (omega (arith, bitwise_halves (λ rest. 0) min x y))

pub bit_or_halves : (x y : ℕ) → bit_or x y ≡ max (x % 2) (y % 2) + 2 * bit_or (x / 2) (y / 2)
bit_or_halves zero y = simp bit_or-bitwise (omega arith)
bit_or_halves (suc x) y = simp bit_or-bitwise (omega (arith, bitwise_halves (λ rest. rest) max x y))

differ_digits : (x y : ℕ) → x < 2 → y < 2 → differ x y ≡ (x + y) % 2
differ_digits zero y p q = omega arith
differ_digits (suc zero) zero p q = refl
differ_digits (suc zero) (suc zero) p q = refl
differ_digits (suc zero) (suc (suc y)) p q = absurd (omega arith)
differ_digits (suc (suc x)) y p q = absurd (omega arith)

pub bit_xor_halves : (a b : ℕ) → bit_xor a b ≡ (a % 2 + b % 2) % 2 + 2 * bit_xor (a / 2) (b / 2)
bit_xor_halves zero b = simp bit_xor-bitwise (omega arith)
bit_xor_halves (suc a) b = simp bit_xor-bitwise (
    omega (
      arith,
      bitwise_halves (λ rest. rest) differ a b,
      differ_digits (suc a % 2) (b % 2) (omega arith) (omega arith),
    ))

-- Each operation acts bit by bit.
pub bit-bit_and : (k a b : ℕ) → bit (bit_and a b) k ≡ min (bit a k) (bit b k)
bit-bit_and zero a b = omega (arith, bit_and_halves a b)
bit-bit_and (suc k) a b =
    let half : bit_and a b / 2 ≡ bit_and (a / 2) (b / 2) = omega (arith, bit_and_halves a b) in
    rw half (bit-bit_and k (a / 2) (b / 2))

pub bit-bit_or : (k a b : ℕ) → bit (bit_or a b) k ≡ max (bit a k) (bit b k)
bit-bit_or zero a b = omega (arith, bit_or_halves a b)
bit-bit_or (suc k) a b =
    let half : bit_or a b / 2 ≡ bit_or (a / 2) (b / 2) = omega (arith, bit_or_halves a b) in
    rw half (bit-bit_or k (a / 2) (b / 2))

pub bit-bit_xor : (k a b : ℕ) → bit (bit_xor a b) k ≡ (bit a k + bit b k) % 2
bit-bit_xor zero a b = omega (arith, bit_xor_halves a b)
bit-bit_xor (suc k) a b =
    let half : bit_xor a b / 2 ≡ bit_xor (a / 2) (b / 2) = omega (arith, bit_xor_halves a b) in
    rw half (bit-bit_xor k (a / 2) (b / 2))

-- `n` bounds the digits of `a`
bit_and-zero_below : (n a : ℕ) → a ≤ n → bit_and a 0 ≡ 0
bit_and-zero_below n zero h = refl
bit_and-zero_below zero (suc a) h = elim h [ ]
bit_and-zero_below (suc n) (suc a) h =
    omega (arith, bit_and_halves (suc a) 0, bit_and-zero_below n (suc a / 2) (omega arith))

pub bit_and-zero : (a : ℕ) → bit_and a 0 ≡ 0
bit_and-zero a = bit_and-zero_below a a (omega arith)

bit_or-zero_below : (n a : ℕ) → a ≤ n → bit_or a 0 ≡ a
bit_or-zero_below n zero h = refl
bit_or-zero_below zero (suc a) h = elim h [ ]
bit_or-zero_below (suc n) (suc a) h =
    omega (arith, bit_or_halves (suc a) 0, bit_or-zero_below n (suc a / 2) (omega arith))

pub bit_or-zero : (a : ℕ) → bit_or a 0 ≡ a
bit_or-zero a = bit_or-zero_below a a (omega arith)

-- `x & (1 << k)`
pub bit_and-single : (k x : ℕ) → bit_and x (2 ^ k) ≡ bit x k * 2 ^ k
bit_and-single zero x = omega (arith, bit_and_halves x 1, bit_and-zero (x / 2))
bit_and-single (suc k) x =
    let half : 2 ^ suc k / 2 ≡ 2 ^ k = omega (arith, pow-suc 2 k) in
    let rest : bit_and (x / 2) (2 ^ suc k / 2) ≡ bit (x / 2) k * 2 ^ k =
      rw half (bit_and-single k (x / 2)) in
    let scaled : bit (x / 2) k * 2 ^ suc k ≡ bit (x / 2) k * (2 ^ k * 2) =
      ap (λ (t : ℕ). bit (x / 2) k * t) (pow-suc 2 k) in
    omega (arith, bit_and_halves x (2 ^ suc k), pow-suc 2 k, rest, scaled)

-- `x & (1 << k)` as a condition
abbrev pub has_bit : ℕ → ℕ → Bool
has_bit x k = bit x k == 1

pub truthy-bit_and : (k x : ℕ) → truthy (bit_and x (2 ^ k)) ≡ has_bit x k
truthy-bit_and k x = elim (digit (bit x k) (bit-lt-two x k)) [
  | inl e ↦ rw (bit_and-single k x, e) (ground arith)
  | inr e ↦ rw (bit_and-single k x, e) (ground (arith, one-le-pow k 2 (omega arith)))
]
  where
    digit : (b : ℕ) → b < 2 → (b ≡ 0) ⊎ (b ≡ 1)
    digit b h = ground arith
