-- ===== src/Bus/Chain.antt =====
-- The devices of a bus in the order of its list, and what registering and deregistering do to them.
use kvm_host.Common.{
  ℕ, zero, suc, ◌+◌, ◌<◌, ◌≤◌, ◌≡◌, ◌≢◌, refl, ap, ◌∙◌, sym, Bool, true, false, ◌||◌, some, List,
  [], ◌∷◌, length, ◌==◌, if◌then◌else◌, arith, Bool-cases, ==_refl, ==→eq, inl, inr,
}
use mathlib.Core.Path.{subst}
use mathlib.Core.Bool.{false≢true}
use kvm_host.Bus.{
  Ptr, null, Dev, Bus, Store, write, Slot, next_of, deref, seek, bus_register_dev, u64,
}

abbrev pub has : Ptr → List Ptr → Bool
has a [] = false
has a (x ∷ xs) = (a == x) || has a xs

-- from `p` the `next` pointers lead through the distinct devices `xs` to NULL
abbrev pub Chain : Store → Ptr → List Ptr → Type 0
Chain h p [] = p ≡ null
Chain h p (x ∷ xs) = (p ≡ x) × (x ≢ null) × (has x xs ≡ false) × Chain h (h x).next xs

-- Stores that agree on the links of a chain have it both.
pub Chain-frame :
    (h g : Store) (p : Ptr) (xs : List Ptr)
    → Chain h p xs
    → ((a : Ptr) → has a xs ≡ true → (g a).next ≡ (h a).next)
    → Chain g p xs
Chain-frame h g p [] c same = c
Chain-frame h g p (x ∷ xs) (e, ne, out, c) same = (
  e,
  ne,
  out,
  rw (same x (rw (==_refl x) refl))
      (Chain-frame h g (h x).next xs c (λ a i. same a (ground arith))),
)

-- the list without `d`
abbrev pub erase : Ptr → List Ptr → List Ptr
erase d [] = []
erase d (x ∷ xs) = if x == d then xs else x ∷ erase d xs

-- A bus whose list is `xs`. `dev_num` counts registrations and is never decremented, so that it
-- bounds the loops.
pub record IsBus (h : Store) (bus : Bus) (xs : List Ptr) : Type 0 where
  pub chain : Chain h bus.head xs
  pub counted : length xs ≤ bus.dev_num
  pub small : bus.dev_num + 1 < u64

-- a bus in a store that has the same links
pub IsBus-frame :
    (h g : Store) (bus : Bus) (xs : List Ptr)
    → IsBus h bus xs
    → ((a : Ptr) → has a xs ≡ true → (g a).next ≡ (h a).next)
    → IsBus g bus xs
IsBus-frame h g bus xs b same = record {
  chain = Chain-frame h g bus.head xs b.chain same;
  counted = b.counted;
  small = b.small;
}

-- a write beside a chain spares it
pub spared :
    (h : Store) (d a : Ptr) (xs : List Ptr) (dev : Dev)
    → has d xs ≡ false
    → has a xs ≡ true
    → write h d dev a ≡ h a
unfolding write
spared h d a xs dev out i = elim (Bool-cases (a == d)) [
  | inl e ↦ absurd (false≢true (sym out ∙ subst (λ b. has b xs ≡ true) (==→eq a d e) i))
  | inr e ↦ rw e refl
]

-- `bus_register_dev` puts a device that is not on the list in front of it and keeps the list well
-- formed, as long as the number of registrations stays below the 64-bit limit.
pub bus_register_dev-IsBus :
    (h : Store) (bus : Bus) (xs : List Ptr) (dev : Ptr)
    → IsBus h bus xs
    → dev ≢ null
    → has dev xs ≡ false
    → bus.dev_num + 2 < u64
    → let (g, bus') = bus_register_dev h bus dev in IsBus g bus' (dev ∷ xs)
unfolding bus_register_dev write
bus_register_dev-IsBus h bus xs dev b ne out room = record {
  chain = (
    refl,
    ne,
    out,
    rw (==_refl dev) (
        Chain-frame h (write h dev (record (h dev) { next = bus.head })) bus.head xs b.chain
          (λ a i. ap (λ d. d.next) (spared h dev a xs (record (h dev) { next = bus.head }) out i))),
  );
  counted = omega (arith, b.counted);
  small = omega arith;
}

pub has-erase : (a d : Ptr) (xs : List Ptr) → has a xs ≡ false → has a (erase d xs) ≡ false
has-erase a d [] out = refl
has-erase a d (x ∷ xs) out = ground (arith, has-erase a d xs)

pub has-erase_ne : (a d : Ptr) (xs : List Ptr) → (a == d) ≡ false → has a (erase d xs) ≡ has a xs
has-erase_ne a d [] ne = refl
has-erase_ne a d (x ∷ xs) ne = elim (Bool-cases (x == d)) [
  | inl e ↦ rw (e, ==→eq x d e, ne) refl
  | inr e ↦ rw (e, has-erase_ne a d xs ne) refl
]

pub has-erase_self :
    (h : Store) (p d : Ptr) (xs : List Ptr) → Chain h p xs → has d (erase d xs) ≡ false
has-erase_self h p d [] c = refl
has-erase_self h p d (x ∷ xs) (e, ne, out, c) = elim (Bool-cases (x == d)) [
  | inl same ↦ rw same (subst (λ b. has b xs ≡ false) (==→eq x d same) out)
  | inr other ↦ ground (arith, has-erase_self h (h x).next d xs c)
]

-- the link that leads to `d`, or the one that holds NULL
unfoldable pub slot_of : Slot → List Ptr → Ptr → Slot
slot_of p [] d = p
slot_of p (x ∷ xs) d = if x == d then p else slot_of (next_of x) xs d

pub seek-slot_of :
    (fuel : ℕ) (h : Store) (bus : Bus) (p : Slot) (xs : List Ptr) (d : Ptr)
    → d ≢ null
    → Chain h (deref h bus p) xs
    → length xs < fuel
    → seek fuel h bus p d ≡ some (slot_of p xs d)
unfolding seek slot_of
seek-slot_of zero h bus p xs d ne c enough = absurd (omega arith)
seek-slot_of (suc fuel) h bus p [] d ne c enough = ground arith
seek-slot_of (suc fuel) h bus p (x ∷ xs) d ne (e, ne', out, c) enough =
    let rest : Chain h (deref h bus (next_of (deref h bus p))) xs = rw e c in
    ground (arith, seek-slot_of fuel h bus (next_of (deref h bus p)) xs d ne rest)

-- what `unlink` leaves alone: all but the link of one device
pub record SameDevs (h g : Store) : Type 0 where
  pub base : (a : Ptr) → (g a).base ≡ (h a).base
  pub len : (a : Ptr) → (g a).len ≡ (h a).len
  pub owner : (a : Ptr) → (g a).owner ≡ (h a).owner
  pub do_io : (a : Ptr) → (g a).do_io ≡ (h a).do_io

pub SameDevs-link : (h : Store) (a q : Ptr) → SameDevs h (write h a (record (h a) { next = q }))
unfolding write
SameDevs-link h a q = record {
  base = λ b. ground arith;
  len = λ b. ground arith;
  owner = λ b. ground arith;
  do_io = λ b. ground arith;
}

pub SameDevs-trans : (f g h : Store) → SameDevs f g → SameDevs g h → SameDevs f h
SameDevs-trans f g h p q = record {
  base = λ a. q.base a ∙ p.base a;
  len = λ a. q.len a ∙ p.len a;
  owner = λ a. q.owner a ∙ p.owner a;
  do_io = λ a. q.do_io a ∙ p.do_io a;
}
