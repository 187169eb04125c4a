-- ===== src/Bus/Dispatch.antt =====
-- `bus_find_dev` and `bus_handle_io` of src/bus.c against the address map that they stand for, and
-- the bounds that the handlers rely on.
use kvm_host.Common.{
  ℕ, zero, suc, ◌+◌, ◌-◌, ◌<◌, ◌≤◌, ◌≡◌, ◌≢◌, refl, ap, ==_refl, true, ◌&&◌, Option, none, some,
  List, [], ◌∷◌, length, ltb, leb, if◌then◌else◌, arith, Bool-cases, inl, inr,
}
use kvm_host.Bus.{
  Ptr, null, Dev, Bus, Store, Call, covers, io_call, bus_find_dev, bus_handle_io, u64,
}
use kvm_host.Bus.Chain.{Chain, IsBus, has}

-- A range that keeps clear of the end of the address space by the largest access.
pub record Fits (d : Dev) : Type 0 where
  pub some_byte : 0 < d.len
  pub clear : d.base + d.len + 256 ≤ u64

abbrev pub AllFit : Store → List Ptr → Type 0
AllFit h [] = Unit
AllFit h (x ∷ xs) = Fits (h x) × AllFit h xs

-- The address map: the first device whose range [base, base + len) holds the first byte gets the
-- access, if its range holds the last byte too.
abbrev pub route : Store → List Ptr → ℕ → ℕ → Option Call
route h [] addr size = none
route h (x ∷ xs) addr size =
    if leb (h x).base addr && ltb addr ((h x).base + (h x).len)
    then (if leb (addr + size) ((h x).base + (h x).len)
        then some (record { fn = (h x).do_io; owner = (h x).owner; offset = addr - (h x).base })
        else none)
    else route h xs addr size

-- the device that the loop stops at
first_covering : Store → List Ptr → ℕ → Ptr
first_covering h [] addr = null
first_covering h (x ∷ xs) addr = if covers (h x) addr then x else first_covering h xs addr

bus_find_dev-first_covering :
    (fuel : ℕ) (h : Store) (p : Ptr) (xs : List Ptr) (addr : ℕ)
    → Chain h p xs
    → length xs < fuel
    → bus_find_dev fuel h p addr ≡ some (first_covering h xs addr)
unfolding bus_find_dev first_covering
bus_find_dev-first_covering zero h p xs addr c enough = absurd (omega arith)
bus_find_dev-first_covering (suc fuel) h p [] addr c enough = ground arith
bus_find_dev-first_covering (suc fuel) h p (x ∷ xs) addr (e, ne, out, c) enough =
    ground (arith, bus_find_dev-first_covering fuel h (h x).next xs addr c)

covers_lem :
    (d : Dev) (addr : ℕ) → Fits d → covers d addr ≡ (leb d.base addr && ltb addr (d.base + d.len))
unfolding covers
covers_lem d addr f = ground arith

-- the second test, for a device that holds the first byte
io_call_lem :
    (h : Store) (x : Ptr) (addr size : ℕ)
    → x ≢ null
    → Fits (h x)
    → 0 < size
    → size < 256
    → (leb (h x).base addr && ltb addr ((h x).base + (h x).len)) ≡ true
    → io_call h addr size x ≡ (
        if leb (addr + size) ((h x).base + (h x).len)
        then some (record { fn = (h x).do_io; owner = (h x).owner; offset = addr - (h x).base })
        else none)
unfolding io_call
io_call_lem h x addr size ne f pos small inside = ground arith

io_call-first_covering :
    (h : Store) (p : Ptr) (xs : List Ptr) (addr size : ℕ)
    → Chain h p xs
    → AllFit h xs
    → 0 < size
    → size < 256
    → io_call h addr size (first_covering h xs addr) ≡ route h xs addr size
unfolding first_covering
io_call-first_covering h p [] addr size c f pos small = unfold io_call in refl
io_call-first_covering h p (x ∷ xs) addr size (e, ne, out, c) (f, fs) pos small =
    elim (Bool-cases (leb (h x).base addr && ltb addr ((h x).base + (h x).len))) [
      | inl inside ↦
          rw (covers_lem (h x) addr f, inside) (io_call_lem h x addr size ne f pos small inside)
      | inr outside ↦
          rw (covers_lem (h x) addr f, outside)
            (io_call-first_covering h (h x).next xs addr size c fs pos small)
    ]

-- On a bus whose ranges keep clear of the end of the address space, `bus_handle_io` ends and makes
-- exactly the call of the address map: none of the 64-bit sums that it compares wraps.
pub bus_handle_io-route :
    (fuel : ℕ) (h : Store) (bus : Bus) (xs : List Ptr) (addr size : ℕ)
    → IsBus h bus xs
    → AllFit h xs
    → length xs < fuel
    → 0 < size
    → size < 256
    → bus_handle_io fuel h bus addr size ≡ some (route h xs addr size)
unfolding bus_handle_io
bus_handle_io-route fuel h bus xs addr size b f enough pos small =
    rw (bus_find_dev-first_covering fuel h bus.head xs addr b.chain enough, bus_handle_io)
      (ap some (io_call-first_covering h bus.head xs addr size b.chain f pos small))

-- what holds of a call that device `a` gets
pub record InRange (h : Store) (a : Ptr) (addr size : ℕ) (call : Call) : Type 0 where
  pub handler : call.fn ≡ (h a).do_io
  pub owner : call.owner ≡ (h a).owner
  pub place : (h a).base + call.offset ≡ addr
  pub bound : call.offset + size ≤ (h a).len

route-InRange :
    (h : Store) (xs : List Ptr) (addr size : ℕ) (call : Call)
    → route h xs addr size ≡ some call
    → (a : Ptr) × (has a xs ≡ true) × InRange h a addr size call
route-InRange h [] addr size call e = cc
route-InRange h (x ∷ xs) addr size call e =
    elim (Bool-cases (leb (h x).base addr && ltb addr ((h x).base + (h x).len))) [
      | inl inside ↦ (
        x,
        rw (==_refl x) refl,
        record {
          handler = ground arith;
          owner = ground arith;
          place = ground arith;
          bound = ground arith;
        },
      )
      | inr outside ↦
          let rest = route-InRange h xs addr size call (rw outside at e) in
          (rest.0, ground arith, rest.2)
    ]

-- A handler is called only for a registered device, with its owner, and with an access that lies
-- wholly inside its range: `offset + size ≤ len`.
pub bus_handle_io-InRange :
    (fuel : ℕ) (h : Store) (bus : Bus) (xs : List Ptr) (addr size : ℕ) (call : Call)
    → IsBus h bus xs
    → AllFit h xs
    → length xs < fuel
    → 0 < size
    → size < 256
    → bus_handle_io fuel h bus addr size ≡ some (some call)
    → (a : Ptr) × (has a xs ≡ true) × InRange h a addr size call
bus_handle_io-InRange fuel h bus xs addr size call b f enough pos small e =
    route-InRange h xs addr size call
      (cc (bus_handle_io-route fuel h bus xs addr size b f enough pos small))
