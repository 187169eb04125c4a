-- ===== src/Bus/Order.antt =====
-- The order of the devices on a bus of src/bus.c does not matter to the guest: it is what the order of
-- the registrations happened to be, and a deregistration and registration change it.
use kvm_host.Common.{
  ℕ, suc, ◌+◌, ◌-◌, ◌<◌, ◌≡◌, ◌≢◌, refl, sym, ap, ◌∙◌, Bool, true, false, ◌&&◌, ◌⊎◌, inl, inr,
  Option, some, none, List, [], ◌∷◌, ◌==◌, leb, ltb, if◌then◌else◌, arith, Bool-cases, ==_refl,
  ==→eq,
}
use mathlib.Core.Path.{subst}
use mathlib.Core.Bool.{false≢true}
use kvm_host.Bus.{
  Ptr, null, Dev, Bus, Store, Call, u64, bus_handle_io, bus_register_dev, bus_deregister_dev,
}
use kvm_host.Bus.Remove.{Removed-IsBus, bus_deregister_dev-Removed}
use kvm_host.Bus.Chain.{
  has, erase, has-erase_self, has-erase_ne, IsBus, SameDevs, SameDevs-link, SameDevs-trans,
  bus_register_dev-IsBus,
}
use kvm_host.Bus.Dispatch.{Fits, AllFit, route, bus_handle_io-route}

-- does the range of the device hold the address?
abbrev pub holds : Dev → ℕ → Bool
holds d addr = leb d.base addr && ltb addr (d.base + d.len)

-- the call for a device that holds the first byte of the access
abbrev call_of : Dev → ℕ → ℕ → Option Call
call_of d addr size =
    if leb (addr + size) (d.base + d.len)
    then some (record { fn = d.do_io; owner = d.owner; offset = addr - d.base })
    else none

-- no two devices of the list have an address in common
abbrev pub Disjoint : Store → List Ptr → Type 0
Disjoint h xs =
    (a b : Ptr)
    → (addr : ℕ) → has a xs ≡ true
    → has b xs ≡ true
    → holds (h a) addr ≡ true
    → holds (h b) addr ≡ true
    → a ≡ b

-- a device of the list that holds an address which the first does not is one of the others
rest_of :
    (h : Store) (x : Ptr) (xs : List Ptr) (a : Ptr) (addr : ℕ)
    → has a (x ∷ xs) ≡ true
    → holds (h a) addr ≡ true
    → holds (h x) addr ≡ false
    → has a xs ≡ true
rest_of h x xs a addr there inside miss = elim (Bool-cases (a == x)) [
  | inl e ↦ absurd (false≢true (sym miss ∙ ap (λ b. holds (h b) addr) (sym (==→eq a x e)) ∙ inside))
  | inr e ↦ rw e at there
]

route-hit :
    (h : Store) (xs : List Ptr) (a : Ptr) (addr size : ℕ)
    → has a xs ≡ true
    → holds (h a) addr ≡ true
    → ((b : Ptr) → has b xs ≡ true → holds (h b) addr ≡ true → b ≡ a)
    → route h xs addr size ≡ call_of (h a) addr size
route-hit h [] a addr size there inside only = absurd (false≢true there)
route-hit h (x ∷ xs) a addr size there inside only = elim (Bool-cases (holds (h x) addr)) [
  | inl hit ↦
      let same : x ≡ a = only x (rw (==_refl x) refl) hit in
      rw hit (ap (λ b. call_of (h b) addr size) same)
  | inr miss ↦ rw miss (
      route-hit h xs a addr size (rest_of h x xs a addr there inside miss) inside
        (λ b i. only b (ground arith)))
]

route-miss :
    (h : Store) (xs : List Ptr) (addr size : ℕ)
    → ((b : Ptr) → has b xs ≡ true → holds (h b) addr ≡ false)
    → route h xs addr size ≡ none
route-miss h [] addr size out = refl
route-miss h (x ∷ xs) addr size out =
    rw (out x (rw (==_refl x) refl)) (route-miss h xs addr size (λ b i. out b (ground arith)))

-- the device that holds the address, if there is one
search_holder :
    (h : Store) (xs : List Ptr) (addr : ℕ)
    → ((a : Ptr) × (has a xs ≡ true) × (holds (h a) addr ≡ true))
      ⊎ ((b : Ptr) → has b xs ≡ true → holds (h b) addr ≡ false)
search_holder h [] addr = inr (λ b i. absurd (false≢true i))
search_holder h (x ∷ xs) addr = elim (Bool-cases (holds (h x) addr)) [
  | inl hit ↦ inl (x, rw (==_refl x) refl, hit)
  | inr miss ↦ elim (search_holder h xs addr) [
    | inl (a, there, inside) ↦ inl (a, ground arith, inside)
    | inr out ↦ inr (λ b i. first_or_rest b i out miss)
  ]
]
  where
    first_or_rest :
        (b : Ptr)
        → has b (x ∷ xs) ≡ true
        → ((c : Ptr) → has c xs ≡ true → holds (h c) addr ≡ false)
        → holds (h x) addr ≡ false
        → holds (h b) addr ≡ false
    first_or_rest b i out miss = elim (Bool-cases (b == x)) [
      | inl e ↦ ap (λ c. holds (h c) addr) (==→eq b x e) ∙ miss
      | inr e ↦ out b (rw e at i)
    ]

-- two stores that hold the same devices but for their links
holds-SameDevs :
    (h g : Store) (a : Ptr) (addr : ℕ) → SameDevs h g → holds (g a) addr ≡ holds (h a) addr
holds-SameDevs h g a addr same = rw (same.base a, same.len a) refl

call_of-SameDevs :
    (h g : Store) (a : Ptr) (addr size : ℕ)
    → SameDevs h g
    → call_of (g a) addr size ≡ call_of (h a) addr size
call_of-SameDevs h g a addr size same =
    rw (same.base a, same.len a, same.owner a, same.do_io a) refl

route-SameDevs :
    (h g : Store) (xs ys : List Ptr) (addr size : ℕ)
    → SameDevs h g
    → ((a : Ptr) → has a ys ≡ has a xs)
    → Disjoint h xs
    → route g ys addr size ≡ route h xs addr size
route-SameDevs h g xs ys addr size same members apart = elim (search_holder h xs addr) [
  | inl (a, there, inside) ↦
      route-hit g ys a addr size (members a ∙ there) (holds-SameDevs h g a addr same ∙ inside)
        (λ b i t.
          apart b a addr (sym (members b) ∙ i) there (sym (holds-SameDevs h g b addr same) ∙ t)
            inside)
      ∙ call_of-SameDevs h g a addr size same
      ∙ sym (route-hit h xs a addr size there inside (λ b i t. apart b a addr i there t inside))
  | inr out ↦
      route-miss g ys addr size
        (λ b i. holds-SameDevs h g b addr same ∙ out b (sym (members b) ∙ i))
      ∙ sym (route-miss h xs addr size out)
]

member-Fits : (h : Store) (xs : List Ptr) (a : Ptr) → AllFit h xs → has a xs ≡ true → Fits (h a)
member-Fits h [] a fs i = absurd (false≢true i)
member-Fits h (x ∷ xs) a (f, fs) i = elim (Bool-cases (a == x)) [
  | inl e ↦ subst (λ b. Fits (h b)) (sym (==→eq a x e)) f
  | inr e ↦ member-Fits h xs a fs (rw e at i)
]

all-AllFit : (h : Store) (xs : List Ptr) → ((a : Ptr) → has a xs ≡ true → Fits (h a)) → AllFit h xs
all-AllFit h [] fs = tt
all-AllFit h (x ∷ xs) fs =
    (fs x (rw (==_refl x) refl), all-AllFit h xs (λ a i. fs a (ground arith)))

Fits-SameDevs : (h g : Store) (a : Ptr) → SameDevs h g → Fits (h a) → Fits (g a)
Fits-SameDevs h g a same f = record {
  some_byte = omega (arith, same.len a, f.some_byte);
  clear = omega (arith, same.base a, same.len a, f.clear);
}

-- Two buses that have the same devices, in whatever order and with whatever history: if the ranges
-- keep clear of the end of the address space and no two of them have an address in common, an access of
-- 1 to 255 bytes makes the same call on both.
pub bus_handle_io-SameDevs :
    (h g : Store) (bus bus' : Bus) (xs ys : List Ptr) (addr size : ℕ)
    → IsBus h bus xs
    → IsBus g bus' ys
    → SameDevs h g
    → ((a : Ptr) → has a ys ≡ has a xs)
    → AllFit h xs
    → Disjoint h xs
    → 0 < size
    → size < 256
    → bus_handle_io (suc bus'.dev_num) g bus' addr size
      ≡ bus_handle_io (suc bus.dev_num) h bus addr size
bus_handle_io-SameDevs h g bus bus' xs ys addr size b b' same members fit apart pos small =
    let fit' : AllFit g ys =
      all-AllFit g ys
        (λ a i. Fits-SameDevs h g a same (member-Fits h xs a fit (sym (members a) ∙ i))) in
    bus_handle_io-route (suc bus'.dev_num) g bus' ys addr size b' fit' (omega (arith, b'.counted))
      pos small
    ∙ ap some (route-SameDevs h g xs ys addr size same members apart)
    ∙ sym (
        bus_handle_io-route (suc bus.dev_num) h bus xs addr size b fit (omega (arith, b.counted))
          pos small)

SameDevs-registered : (g : Store) (bus : Bus) (d : Ptr) → SameDevs g (bus_register_dev g bus d).0
unfolding bus_register_dev
SameDevs-registered g bus d = SameDevs-link g d bus.head

has-reregistered : (a d : Ptr) (xs : List Ptr) → has d xs ≡ true → has a (d ∷ erase d xs) ≡ has a xs
has-reregistered a d xs there = elim (Bool-cases (a == d)) [
  | inl e ↦ rw e (sym there ∙ ap (λ b. has b xs) (sym (==→eq a d e)))
  | inr e ↦ rw e (has-erase_ne a d xs e)
]

-- A device of the bus is taken off it and put on it again, which moves it to the front of the list. If
-- the ranges of the devices keep clear of the end of the address space and no two of them have an
-- address in common, and the bus has had fewer than 2^64 - 2 registrations, both calls end, and every
-- access of 1 to 255 bytes makes the call that it made before.
pub bus_handle_io-reregistered :
    (h : Store) (bus : Bus) (xs : List Ptr) (d addr size : ℕ)
    → IsBus h bus xs
    → AllFit h xs
    → Disjoint h xs
    → has d xs ≡ true
    → d ≢ null
    → bus.dev_num + 2 < u64
    → 0 < size
    → size < 256
    → (g : Store) × (bus' : Bus) × (bus_deregister_dev (suc bus.dev_num) h bus d ≡ some (g, bus'))
      × (let (g2, bus2) = bus_register_dev g bus' d in
          bus_handle_io (suc bus2.dev_num) g2 bus2 addr size
          ≡ bus_handle_io (suc bus.dev_num) h bus addr size)
bus_handle_io-reregistered h bus xs d addr size b fit apart there ne room pos small =
    let (g, bus', run, r) =
      bus_deregister_dev-Removed (suc bus.dev_num) h bus xs d b ne (omega (arith, b.counted)) in
    (
      g,
      bus',
      run,
      bus_handle_io-SameDevs h (bus_register_dev g bus' d).0 bus (bus_register_dev g bus' d).1 xs
          (d ∷ erase d xs) addr size b
          (bus_register_dev-IsBus g bus' (erase d xs) d (Removed-IsBus h g bus bus' d xs b r) ne
            (has-erase_self h bus.head d xs b.chain) (omega (arith, r.dev_num)))
          (SameDevs-trans h g _ r.devs (SameDevs-registered g bus' d))
          (λ a. has-reregistered a d xs there) fit apart pos small,
    )
