-- ===== src/Bus/Remove.antt =====
-- `bus_deregister_dev` of src/bus.c takes the device out of the list, and nothing else.
use kvm_host.Common.{
  ℕ, ◌<◌, ◌≤◌, ◌≡◌, ◌≢◌, refl, ap, ◌∙◌, false, some, List, [], ◌∷◌, length, ◌==◌, arith, Bool-cases,
  ==_refl, ==_ne, inl, inr,
}
use kvm_host.Bus.{Ptr, null, Bus, Store, write, head_of, next_of, unlink, bus_deregister_dev}
use kvm_host.Bus.Chain.{
  Chain, Chain-frame, IsBus, has, erase, has-erase, slot_of, seek-slot_of, SameDevs, SameDevs-link,
}

-- What cutting `d` out behind device `a` does to the chain `xs` there.
record Cut (h : Store) (bus : Bus) (a d : Ptr) (xs : List Ptr) (r : Store × Bus) : Type 0 where
  same_bus : r.1 ≡ bus
  chain : Chain r.0 (r.0 a).next (erase d xs)
  frame : (b : Ptr) → b ≢ a → has b xs ≡ false → (r.0 b).next ≡ (h b).next
  devs : SameDevs h r.0

pub SameDevs-refl : (h : Store) → SameDevs h h
SameDevs-refl h = record { base = λ a. refl; len = λ a. refl; owner = λ a. refl; do_io = λ a. refl }

next-write_self : (h : Store) (a q : Ptr) → (write h a (record (h a) { next = q }) a).next ≡ q
unfolding write
next-write_self h a q = rw (==_refl a)

next-write_ne :
    (h : Store) (a b q : Ptr) → b ≢ a → (write h a (record (h a) { next = q }) b).next ≡ (h b).next
unfolding write
next-write_ne h a b q ne = rw (==_ne b a ne)

unlink-Cut :
    (h : Store) (bus : Bus) (a d : Ptr) (xs : List Ptr)
    → has a xs ≡ false
    → Chain h (h a).next xs
    → Cut h bus a d xs (unlink h bus (slot_of (next_of a) xs d))
unfolding unlink slot_of
unlink-Cut h bus a d [] out e =
    rw e (record { same_bus = refl; chain = e; frame = λ b ne o. refl; devs = SameDevs-refl h })
unlink-Cut h bus a d (x ∷ xs) out (e, ne, fresh, c) = elim (Bool-cases (x == d)) [
  | inl hit ↦
      rw (hit, e, ==_ne x null ne)
        (record {
          same_bus = refl;
          chain =
              rw (hit, next-write_self h a (h x).next)
                (Chain-frame h (write h a (record (h a) { next = (h x).next })) (h x).next xs c
                  (λ b i. next-write_ne h a b (h x).next (ground arith)));
          frame = λ b ne' o. next-write_ne h a b (h x).next ne';
          devs = SameDevs-link h a (h x).next;
        })
  | inr miss ↦ rw miss (later (unlink-Cut h bus x d xs fresh c) miss)
]
  where
    later :
        Cut h bus x d xs (unlink h bus (slot_of (next_of x) xs d))
        → (x == d) ≡ false
        → Cut h bus a d (x ∷ xs) (unlink h bus (slot_of (next_of x) xs d))
    later k miss = record {
      same_bus = k.same_bus;
      chain =
          rw miss
            (k.frame a (ground arith) (ground arith) ∙ e, ne, has-erase x d xs fresh, k.chain);
      frame = λ b ne' o. k.frame b (ground arith) (ground arith);
      devs = k.devs;
    }

-- the list and the devices after the device `d` has been cut out of the list `xs` of the bus
pub record Removed (h : Store) (bus : Bus) (d : Ptr) (xs : List Ptr) (r : Store × Bus)
    : Type 0 where
  pub chain : Chain r.0 r.1.head (erase d xs)
  pub dev_num : r.1.dev_num ≡ bus.dev_num
  pub frame : (b : Ptr) → has b xs ≡ false → (r.0 b).next ≡ (h b).next
  pub devs : SameDevs h r.0

unlink-Removed :
    (h : Store) (bus : Bus) (d : Ptr) (xs : List Ptr)
    → Chain h bus.head xs
    → Removed h bus d xs (unlink h bus (slot_of head_of xs d))
unfolding unlink slot_of
unlink-Removed h bus d [] e =
    rw e (record { chain = refl; dev_num = refl; frame = λ b o. refl; devs = SameDevs-refl h })
unlink-Removed h bus d (x ∷ xs) (e, ne, fresh, c) = elim (Bool-cases (x == d)) [
  | inl hit ↦
      rw (hit, e, ==_ne x null ne)
        (record { chain = rw hit c; dev_num = refl; frame = λ b o. refl; devs = SameDevs-refl h })
  | inr miss ↦ rw miss (later (unlink-Cut h bus x d xs fresh c) miss)
]
  where
    later :
        Cut h bus x d xs (unlink h bus (slot_of (next_of x) xs d))
        → (x == d) ≡ false
        → Removed h bus d (x ∷ xs) (unlink h bus (slot_of (next_of x) xs d))
    later k miss = record {
      chain = rw (miss, k.same_bus) (e, ne, has-erase x d xs fresh, k.chain);
      dev_num = ap (λ b. b.dev_num) k.same_bus;
      frame = λ b o. k.frame b (ground arith) (ground arith);
      devs = k.devs;
    }

length-erase : (d : Ptr) (xs : List Ptr) → length (erase d xs) ≤ length xs
length-erase d [] = omega arith
length-erase d (x ∷ xs) = ground (arith, length-erase d xs)

-- what `bus_deregister_dev` computes, and that it is what the list says
pub bus_deregister_dev-Removed :
    (fuel : ℕ) (h : Store) (bus : Bus) (xs : List Ptr) (d : Ptr)
    → IsBus h bus xs
    → d ≢ null
    → length xs < fuel
    → (g : Store) × (bus' : Bus) × (bus_deregister_dev fuel h bus d ≡ some (g, bus'))
      × Removed h bus d xs (g, bus')
unfolding bus_deregister_dev
bus_deregister_dev-Removed fuel h bus xs d b ne enough = (
  (unlink h bus (slot_of head_of xs d)).0,
  (unlink h bus (slot_of head_of xs d)).1,
  rw (seek-slot_of fuel h bus head_of xs d ne b.chain enough, bus_deregister_dev) refl,
  unlink-Removed h bus d xs b.chain,
)

pub Removed-IsBus :
    (h g : Store) (bus bus' : Bus) (d : Ptr) (xs : List Ptr)
    → IsBus h bus xs
    → Removed h bus d xs (g, bus')
    → IsBus g bus' (erase d xs)
Removed-IsBus h g bus bus' d xs b r = record {
  chain = r.chain;
  counted = omega (arith, length-erase d xs, b.counted, r.dev_num);
  small = omega (arith, b.small, r.dev_num);
}

-- With more rounds than the bus has devices, `bus_deregister_dev` ends. It takes the device out of
-- the list if it is there, leaves the order of the others, and leaves every device its range,
-- owner and handler.
pub bus_deregister_dev-IsBus :
    (fuel : ℕ) (h : Store) (bus : Bus) (xs : List Ptr) (d : Ptr)
    → IsBus h bus xs
    → d ≢ null
    → length xs < fuel
    → (g : Store) × (bus' : Bus) × (bus_deregister_dev fuel h bus d ≡ some (g, bus'))
      × IsBus g bus' (erase d xs)
      × SameDevs h g
bus_deregister_dev-IsBus fuel h bus xs d b ne enough =
    let (g, bus', e, r) = bus_deregister_dev-Removed fuel h bus xs d b ne enough in
    (g, bus', e, Removed-IsBus h g bus bus' d xs b r, r.devs)
