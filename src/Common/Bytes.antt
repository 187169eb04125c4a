-- ===== src/Common/Bytes.antt =====
-- Memory as a list of bytes, little endian. C leaves an access out of range undefined: here such a
-- read gives 0 and such a write is dropped, and the components prove where accesses are in range.
use Prim.Native.Nat.{ℕ, zero, suc, ◌+◌, ◌*◌, ◌/◌, ◌%◌, ◌^◌, ◌≤◌, ◌<◌}
use mathlib.Core.Path.{◌≡◌, refl, ap, ap₂, sym, ◌∙◌}
use mathlib.Core.Logic.{◌⊎◌, inl}
use mathlib.Core.List.{List, [], ◌∷◌, ◌++◌}
use native.Mathlib.Nat.{pow-suc}
use native.Mathlib.Omega.{arith}
use kvm_host.Common.Lists.{
  length, get_or, set, replicate, length-set, get_or-set_self, get_or-set_ne,
}

abbrev pub Memory : Type 0
Memory = List ℕ

-- `memcpy(data, m + offset, n)`
abbrev pub read_bytes : Memory → ℕ → ℕ → List ℕ
read_bytes m offset zero = []
read_bytes m offset (suc n) = get_or m offset 0 ∷ read_bytes m (offset + 1) n

-- `memcpy(m + offset, data, n)`, `data` being the `n` bytes
abbrev pub write_bytes : Memory → ℕ → List ℕ → Memory
write_bytes m offset [] = m
write_bytes m offset (b ∷ bs) = write_bytes (set m offset b) (offset + 1) bs

abbrev pub le_value : List ℕ → ℕ
le_value [] = 0
le_value (b ∷ bs) = b + 256 * le_value bs

abbrev pub le_bytes : ℕ → ℕ → List ℕ
le_bytes zero v = []
le_bytes (suc n) v = (v % 256) ∷ le_bytes n (v / 256)

-- `*(uintN_t *) (m + offset)` for N = 8 * n
unfoldable pub load_le : Memory → ℕ → ℕ → ℕ
load_le m offset n = le_value (read_bytes m offset n)

-- `*(uintN_t *) (m + offset) = v`
unfoldable pub store_le : Memory → ℕ → ℕ → ℕ → Memory
store_le m offset n v = write_bytes m offset (le_bytes n v)

pub length-le_bytes : (n v : ℕ) → length (le_bytes n v) ≡ n
length-le_bytes zero v = refl
length-le_bytes (suc n) v = ap suc (length-le_bytes n (v / 256))

pub length-read_bytes : (m : Memory) (offset n : ℕ) → length (read_bytes m offset n) ≡ n
length-read_bytes m offset zero = refl
length-read_bytes m offset (suc n) = ap suc (length-read_bytes m (offset + 1) n)

pub length-write_bytes :
    (m : Memory) (offset : ℕ) (bs : List ℕ) → length (write_bytes m offset bs) ≡ length m
length-write_bytes m offset [] = refl
length-write_bytes m offset (b ∷ bs) =
    length-write_bytes (set m offset b) (offset + 1) bs ∙ length-set m offset b

pub get_or-write_bytes_ne :
    (m : Memory) (offset i : ℕ) (bs : List ℕ)
    → (i < offset) ⊎ (offset + length bs ≤ i)
    → get_or (write_bytes m offset bs) i 0 ≡ get_or m i 0
get_or-write_bytes_ne m offset i [] out = refl
get_or-write_bytes_ne m offset i (b ∷ bs) out =
    get_or-write_bytes_ne (set m offset b) (offset + 1) i bs (ground arith)
    ∙ get_or-set_ne m offset i b 0 (ground arith)

-- what was written is read back
pub read_bytes-write_bytes_self :
    (m : Memory) (offset : ℕ) (bs : List ℕ)
    → offset + length bs ≤ length m
    → read_bytes (write_bytes m offset bs) offset (length bs) ≡ bs
read_bytes-write_bytes_self m offset [] fits = refl
read_bytes-write_bytes_self m offset (b ∷ bs) fits =
    ap₂ ◌∷◌
      (get_or-write_bytes_ne (set m offset b) (offset + 1) offset bs (inl (omega arith))
        ∙ get_or-set_self m offset b 0 (omega arith))
      (read_bytes-write_bytes_self (set m offset b) (offset + 1) bs
        (omega (arith, length-set m offset b)))

-- and nothing else changes
pub read_bytes-write_bytes_ne :
    (m : Memory) (offset at n : ℕ) (bs : List ℕ)
    → (at + n ≤ offset) ⊎ (offset + length bs ≤ at)
    → read_bytes (write_bytes m offset bs) at n ≡ read_bytes m at n
read_bytes-write_bytes_ne m offset at zero bs apart = refl
read_bytes-write_bytes_ne m offset at (suc n) bs apart =
    ap₂ ◌∷◌ (get_or-write_bytes_ne m offset at bs (ground arith))
      (read_bytes-write_bytes_ne m offset (at + 1) n bs (ground arith))

pub le_value-le_bytes : (n v : ℕ) → v < 256 ^ n → le_value (le_bytes n v) ≡ v
le_value-le_bytes zero v h = omega arith
le_value-le_bytes (suc n) v h =
    omega (arith, le_value-le_bytes n (v / 256) (omega (arith, pow-suc 256 n)))

-- the bytes of a stored number are loaded back
pub load_le-store_le :
    (m : Memory) (offset n v : ℕ)
    → offset + n ≤ length m
    → load_le (store_le m offset n v) offset n ≡ le_value (le_bytes n v)
unfolding load_le store_le
load_le-store_le m offset n v fits =
    let whole : read_bytes (store_le m offset n v) offset (length (le_bytes n v)) ≡ le_bytes n v =
      read_bytes-write_bytes_self m offset (le_bytes n v) (omega (arith, length-le_bytes n v)) in
    let same : read_bytes (store_le m offset n v) offset n ≡ le_bytes n v =
      ap (λ k. read_bytes (store_le m offset n v) offset k) (sym (length-le_bytes n v)) ∙ whole in
    ap le_value same

pub load_le-store_le_self :
    (m : Memory) (offset n v : ℕ)
    → offset + n ≤ length m
    → v < 256 ^ n
    → load_le (store_le m offset n v) offset n ≡ v
load_le-store_le_self m offset n v fits small =
    load_le-store_le m offset n v fits ∙ le_value-le_bytes n v small

pub le_value-le_bytes_two : (v : ℕ) → le_value (le_bytes 2 v) ≡ v % 2 ^ 16
le_value-le_bytes_two v = omega arith

pub le_value-le_bytes_four : (v : ℕ) → le_value (le_bytes 4 v) ≡ v % 2 ^ 32
le_value-le_bytes_four v = omega arith

pub load_le-store_le_ne :
    (m : Memory) (offset k v at n : ℕ)
    → (at + n ≤ offset) ⊎ (offset + k ≤ at)
    → load_le (store_le m offset k v) at n ≡ load_le m at n
unfolding load_le store_le
load_le-store_le_ne m offset k v at n apart =
    ap le_value
      (read_bytes-write_bytes_ne m offset at n (le_bytes k v) (ground (arith, length-le_bytes k v)))

pub read_bytes-store_le_ne :
    (m : Memory) (offset k v at n : ℕ)
    → (at + n ≤ offset) ⊎ (offset + k ≤ at)
    → read_bytes (store_le m offset k v) at n ≡ read_bytes m at n
unfolding store_le
read_bytes-store_le_ne m offset k v at n apart =
    read_bytes-write_bytes_ne m offset at n (le_bytes k v) (ground (arith, length-le_bytes k v))

pub load_le-write_bytes_ne :
    (m : Memory) (offset at n : ℕ) (bs : List ℕ)
    → (at + n ≤ offset) ⊎ (offset + length bs ≤ at)
    → load_le (write_bytes m offset bs) at n ≡ load_le m at n
unfolding load_le
load_le-write_bytes_ne m offset at n bs apart =
    ap le_value (read_bytes-write_bytes_ne m offset at n bs apart)

-- two writes, the second right behind the first
pub write_bytes-append :
    (m : Memory) (offset : ℕ) (xs ys : List ℕ)
    → write_bytes (write_bytes m offset xs) (offset + length xs) ys
      ≡ write_bytes m offset (xs ++ ys)
write_bytes-append m offset [] ys = ap (λ k. write_bytes m k ys) (omega arith)
write_bytes-append m offset (x ∷ xs) ys =
    ap (λ k. write_bytes (write_bytes (set m offset x) (offset + 1) xs) k ys) (omega arith)
    ∙ write_bytes-append (set m offset x) (offset + 1) xs ys

pub length-replicate {ℓ} : {A : Type ℓ} (n : ℕ) (a : A) → length (replicate n a) ≡ n
length-replicate zero a = refl
length-replicate (suc n) a = ap suc (length-replicate n a)

pub length-store_le : (m : Memory) (offset n v : ℕ) → length (store_le m offset n v) ≡ length m
unfolding store_le
length-store_le m offset n v = length-write_bytes m offset (le_bytes n v)

-- the two ways of writing a number
pub write_bytes-le_bytes :
    (m : Memory) (offset n v : ℕ) → write_bytes m offset (le_bytes n v) ≡ store_le m offset n v
unfolding store_le
write_bytes-le_bytes m offset n v = refl

get_or-read_bytes :
    (m : Memory) (offset n j : ℕ)
    → j < n
    → get_or (read_bytes m offset n) j 0 ≡ get_or m (offset + j) 0
get_or-read_bytes m offset zero j h = absurd (omega arith)
get_or-read_bytes m offset (suc n) zero h = ap (λ k. get_or m k 0) (omega arith)
get_or-read_bytes m offset (suc n) (suc j) h =
    get_or-read_bytes m (offset + 1) n j (omega arith) ∙ ap (λ k. get_or m k 0) (omega arith)

get_or-write_bytes_self :
    (m : Memory) (offset j : ℕ) (bs : List ℕ)
    → offset + length bs ≤ length m
    → j < length bs
    → get_or (write_bytes m offset bs) (offset + j) 0 ≡ get_or bs j 0
get_or-write_bytes_self m offset j [] fits h = absurd (omega arith)
get_or-write_bytes_self m offset zero (b ∷ bs) fits h =
    ap (λ k. get_or (write_bytes (set m offset b) (offset + 1) bs) k 0) (omega arith)
    ∙ get_or-write_bytes_ne (set m offset b) (offset + 1) offset bs (inl (omega arith))
    ∙ get_or-set_self m offset b 0 (omega arith)
get_or-write_bytes_self m offset (suc j) (b ∷ bs) fits h =
    ap (λ k. get_or (write_bytes (set m offset b) (offset + 1) bs) k 0) (omega arith)
    ∙ get_or-write_bytes_self (set m offset b) (offset + 1) j bs
        (omega (arith, length-set m offset b)) (omega arith)

read_bytes_ext :
    (m m' : Memory) (a b n : ℕ)
    → ((j : ℕ) → j < n → get_or m (a + j) 0 ≡ get_or m' (b + j) 0)
    → read_bytes m a n ≡ read_bytes m' b n
read_bytes_ext m m' a b zero same = refl
read_bytes_ext m m' a b (suc n) same =
    ap₂ ◌∷◌
      (ap (λ k. get_or m k 0) (omega arith)
        ∙ same 0 (omega arith)
        ∙ ap (λ k. get_or m' k 0) (omega arith))
      (read_bytes_ext m m' (a + 1) (b + 1) n (λ j h.
        ap (λ k. get_or m k 0) (omega arith)
        ∙ same (suc j) (omega arith)
        ∙ ap (λ k. get_or m' k 0) (omega arith)))

-- a number inside of what `memcpy` copied to `to`
pub load_le-copy_at :
    (m source : Memory) (to from k at n : ℕ)
    → at + n ≤ k
    → to + k ≤ length m
    → load_le (write_bytes m to (read_bytes source from k)) (to + at) n
      ≡ load_le source (from + at) n
unfolding load_le
load_le-copy_at m source to from k at n inside fits =
    let bytes = read_bytes source from k in
    let size = length-read_bytes source from k in
    ap le_value (
      read_bytes_ext (write_bytes m to bytes) source (to + at) (from + at) n (λ j h.
        ap (λ i. get_or (write_bytes m to bytes) i 0) (omega arith)
        ∙ get_or-write_bytes_self m to (at + j) bytes (omega (arith, size)) (omega (arith, size))
        ∙ get_or-read_bytes source from k (at + j) (omega arith)
        ∙ ap (λ i. get_or source i 0) (omega arith)))

-- and to the front of `m`
pub load_le-copy :
    (m source : Memory) (from k at n : ℕ)
    → at + n ≤ k
    → k ≤ length m
    → load_le (write_bytes m 0 (read_bytes source from k)) at n ≡ load_le source (from + at) n
load_le-copy m source from k at n inside fits =
    ap (λ i. load_le (write_bytes m 0 (read_bytes source from k)) i n) (omega arith)
    ∙ load_le-copy_at m source 0 from k at n inside (omega arith)

-- a memory that does not compute to its list, so that it may be as large as a guest's
pub zeros : ℕ → Memory
zeros n = replicate n 0

pub length-zeros : (n : ℕ) → length (zeros n) ≡ n
unfolding zeros
length-zeros n = length-replicate n 0
