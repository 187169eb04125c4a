-- ===== src/Bus/Cycle.antt =====
-- What `bus_register_dev` of src/bus.c does to a device that is on the list already: the list
-- becomes a cycle, and a lookup that no device on the cycle answers does not end.
use kvm_host.Common.{
  ℕ, zero, suc, ◌≡◌, ◌≢◌, refl, sym, ◌∙◌, true, false, none, List, [], ◌∷◌, ◌==◌, if◌then◌else◌,
  arith, Bool-cases, inl, inr, ==_ne, ==→eq,
}
use mathlib.Core.Path.{subst}
use kvm_host.Bus.{Ptr, null, Dev, Bus, Store, write, covers, bus_find_dev, bus_register_dev}
use kvm_host.Bus.Chain.{Chain, IsBus, has}

-- the devices from the head of the list to `d`
abbrev pub upto : Ptr → List Ptr → List Ptr
upto d [] = []
upto d (x ∷ xs) = if x == d then x ∷ [] else x ∷ upto d xs

-- no device of the list answers the address
abbrev pub Silent : Store → List Ptr → ℕ → Type 0
Silent h [] addr = Unit
Silent h (x ∷ xs) addr = (covers (h x) addr ≡ false) × Silent h xs addr

Silent-has :
    (h : Store) (xs : List Ptr) (addr : ℕ) (a : Ptr)
    → Silent h xs addr
    → has a xs ≡ true
    → covers (h a) addr ≡ false
Silent-has h [] addr a s i = cc
Silent-has h (x ∷ xs) addr a (q, s) i = elim (Bool-cases (a == x)) [
  | inl e ↦ rw (==→eq a x e) q
  | inr e ↦ Silent-has h xs addr a s (rw e at i)
]

-- A walk that stays inside a set of silent devices uses up any fuel.
bus_find_dev-none :
    (fuel : ℕ) (h : Store) (addr : ℕ) (ring : List Ptr) (p : Ptr)
    → ((a : Ptr)
        → has a ring ≡ true
        → (a ≢ null) × (covers (h a) addr ≡ false) × (has (h a).next ring ≡ true))
    → has p ring ≡ true
    → bus_find_dev fuel h p addr ≡ none
unfolding bus_find_dev
bus_find_dev-none zero h addr ring p closed i = refl
bus_find_dev-none (suc fuel) h addr ring p closed i =
    let c = closed p i in
    rw (==_ne p null c.0, c.1) (bus_find_dev-none fuel h addr ring (h p).next closed c.2)

has-upto_head :
    (p d : Ptr) (h : Store) (xs : List Ptr)
    → Chain h p xs
    → has d xs ≡ true
    → has p (upto d xs) ≡ true
has-upto_head p d h [] c i = cc
has-upto_head p d h (x ∷ xs) (e, nn, out, c) i = ground arith

has-upto_self : (d : Ptr) (xs : List Ptr) → has d xs ≡ true → has d (upto d xs) ≡ true
has-upto_self d [] i = i
has-upto_self d (x ∷ xs) i = ground (arith, has-upto_self d xs)

has-cons : (a x : Ptr) (xs : List Ptr) → has a xs ≡ true → has a (x ∷ xs) ≡ true
has-cons a x xs i = ground arith

has_of_upto : (a d : Ptr) (xs : List Ptr) → has a (upto d xs) ≡ true → has a xs ≡ true
has_of_upto a d [] i = i
has_of_upto a d (x ∷ xs) i = ground (arith, has_of_upto a d xs)

ne_null_of_has : (h : Store) (p a : Ptr) (xs : List Ptr) → Chain h p xs → has a xs ≡ true → a ≢ null
ne_null_of_has h p a [] c i = cc
ne_null_of_has h p a (x ∷ xs) (e, nn, out, c) i = ground (arith, ne_null_of_has h (h x).next a xs c)

covers-link : (d : Dev) (q : Ptr) (addr : ℕ) → covers (record d { next = q }) addr ≡ covers d addr
unfolding covers
covers-link d q addr = refl

ne_of_test : (a d : Ptr) → (a == d) ≡ false → a ≢ d
ne_of_test a d miss = ground arith

upto-next :
    (h : Store) (p d : Ptr) (xs : List Ptr) (a : Ptr)
    → Chain h p xs
    → has d xs ≡ true
    → has a (upto d xs) ≡ true
    → a ≢ d
    → (a ≢ null) × (has (h a).next (upto d xs) ≡ true)
upto-next h p d [] a c i j ne = cc
upto-next h p d (x ∷ xs) a (e, nn, out, c) i j ne = elim (Bool-cases (x == d)) [
  | inl hit ↦ absurd (ne (ground arith))
  | inr miss ↦ elim (Bool-cases (a == x)) [
    | inl here ↦ (
      ground arith,
      subst (λ b. has (h b).next (upto d (x ∷ xs)) ≡ true) (sym (==→eq a x here))
          (rw miss
            (has-cons (h x).next x (upto d xs) (has-upto_head (h x).next d h xs c (ground arith)))),
    )
    | inr later ↦
        let rest = upto-next h (h x).next d xs a c (ground arith) (ground arith) ne in
        (rest.0, rw miss (has-cons (h a).next x (upto d xs) rest.1))
  ]
]

-- A device `d` of the list is registered once more: every lookup of an address that no device of
-- the list covers then runs for ever, whatever the number of rounds.
pub bus_find_dev-registered_twice :
    (fuel : ℕ) (h : Store) (bus : Bus) (xs : List Ptr) (d : Ptr) (addr : ℕ)
    → IsBus h bus xs
    → has d xs ≡ true
    → Silent h xs addr
    → let (g, bus') = bus_register_dev h bus d in bus_find_dev fuel g bus'.head addr ≡ none
unfolding bus_register_dev write
bus_find_dev-registered_twice fuel h bus xs d addr b i s =
    bus_find_dev-none fuel _ addr (upto d xs) d (closed xs b.chain i s) (has-upto_self d xs i)
  where
    closed :
        (xs : List Ptr)
        → Chain h bus.head xs
        → has d xs ≡ true
        → Silent h xs addr
        → (a : Ptr) → has a (upto d xs) ≡ true
        → (a ≢ null)
          × (covers (write h d (record (h d) { next = bus.head }) a) addr ≡ false)
          × (has (write h d (record (h d) { next = bus.head }) a).next (upto d xs) ≡ true)
    closed xs c i s a j = elim (Bool-cases (a == d)) [
      | inl hit ↦ (
        ne_null_of_has h bus.head a xs c (has_of_upto a d xs j),
        rw (hit, write) (covers-link (h d) bus.head addr ∙ Silent-has h xs addr d s i),
        rw (hit, write) (has-upto_head bus.head d h xs c i),
      )
      | inr miss ↦
          let rest = upto-next h bus.head d xs a c i j (ne_of_test a d miss) in
          (
            rest.0,
            rw (miss, write) (Silent-has h xs addr a s (has_of_upto a d xs j)),
            rw (miss, write) rest.1,
          )
    ]
