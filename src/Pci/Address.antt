-- ===== src/Pci/Address.antt =====
-- The configuration address port of src/pci.c, and the way of a guest's access through it and the
-- data port to the configuration space of a device.
use kvm_host.Common.{
  ℕ, suc, ◌+◌, ◌-◌, ◌*◌, ◌%◌, ◌^◌, ◌<◌, ◌≤◌, bit_and, bit_or, ◌≡◌, ◌≢◌, refl, ap, ◌∙◌, Bool, true,
  false, some, List, [], ◌∷◌, length, ◌==◌, if◌then◌else◌, arith, Bool-cases, inl, inr, ==_refl,
}
use kvm_host.Common.Bytes.{le_bytes, le_value-le_bytes}
use kvm_host.Common.Masks.{bit_or_disjoint, bit_and-skip_mask}
use kvm_host.Bus.{Ptr, null, IoFn, Dev, Bus, Store, write, dev_init, bus_register_dev}
use kvm_host.Bus.Chain.{IsBus, has, Chain-frame, spared, bus_register_dev-IsBus}
use kvm_host.Bus.Dispatch.{AllFit, route, bus_handle_io-route}
use kvm_host.Pci.{PciDev, pci_cfg_space_size}
use kvm_host.Pci.Setup.{pci_dev_register, config_address}
use kvm_host.Pci.Ports.{Pci, pci_address_io, pci_data_io, enabled, pci_addr_mask}

-- After any access to the address port, a read or a write of whatever width, the register offset of
-- the address is zero.
pub pci_address_io-reg_offset :
    (pci : Pci) (bytes : List ℕ) (is_write : Bool) (offset size : ℕ)
    → (pci_address_io pci bytes is_write offset size).0.pci_addr % 4 ≡ 0
unfolding pci_address_io
pci_address_io-reg_offset pci bytes is_write offset size = ground arith

-- a write of all four bytes
pub pci_addr-pci_address_io :
    (pci : Pci) (v : ℕ)
    → v < 2 ^ 32
    → (pci_address_io pci (le_bytes 4 v) true 0 4).0 ≡ record pci { pci_addr = v - v % 4 }
unfolding pci_address_io
pci_addr-pci_address_io pci v small =
    ap (λ (t : ℕ). record pci { pci_addr = t - t % 4 }) (le_value-le_bytes 4 v (omega arith))

data_address :
    (v k : ℕ)
    → v < 2 ^ 32
    → enabled v ≡ true
    → v % 4 ≡ 0
    → k < 4
    → bit_and (bit_or v k) pci_addr_mask ≡ v % 2 ^ 31 + k
data_address v k small on clear fits =
    rw (bit_or_disjoint 2 v k clear fits)
      (bit_and-skip_mask 31 (2 ^ 32 - 1) (v + k) (omega arith) ∙ omega arith)

-- The devices of the bus in the order of its list, the last registered first: the device registered
-- n-th, from 0, answers the configuration addresses of device number n.
abbrev pub Numbered : Store → List Ptr → Type 0
Numbered h [] = Unit
Numbered h (x ∷ xs) =
    ((h x).base ≡ length xs * 2048)
    × ((h x).len ≡ 256)
    × ((h x).do_io ≡ IoFn.pci_config_do_io)
    × Numbered h xs

-- the device with number `n`
abbrev pub device_at : List Ptr → ℕ → Ptr
device_at [] n = 0
device_at (x ∷ xs) n = if n == length xs then x else device_at xs n

Numbered-frame :
    (h g : Store) (xs : List Ptr)
    → Numbered h xs
    → ((a : Ptr) → has a xs ≡ true → g a ≡ h a)
    → Numbered g xs
Numbered-frame h g [] n same = tt
Numbered-frame h g (x ∷ xs) (b, l, f, n) same =
    let here : g x ≡ h x = same x (rw (==_refl x) refl) in
    (rw here b, rw here l, rw here f, Numbered-frame h g xs n (λ a i. same a (ground arith)))

Numbered-AllFit : (h : Store) (xs : List Ptr) → Numbered h xs → length xs ≤ 32 → AllFit h xs
Numbered-AllFit h [] n few = tt
Numbered-AllFit h (x ∷ xs) (b, l, f, n) few =
    (record { some_byte = omega arith; clear = omega arith }, Numbered-AllFit h xs n (omega arith))

route-Numbered :
    (h : Store) (xs : List Ptr) (n offset size : ℕ)
    → Numbered h xs
    → n < length xs
    → 0 < size
    → offset + size ≤ 256
    → route h xs (n * 2048 + offset) size
      ≡ some (record {
        fn = IoFn.pci_config_do_io;
        owner = (h (device_at xs n)).owner;
        offset = offset;
      })
route-Numbered h [] n offset size ns lt pos fits = absurd (omega arith)
route-Numbered h (x ∷ xs) n offset size (b, l, f, ns) lt pos fits =
    elim (Bool-cases (n == length xs)) [
      | inl here ↦ rw here (ground arith)
      | inr below ↦ ground (arith, route-Numbered h xs n offset size ns)
    ]

-- `pci_dev_register` gives the devices their numbers in the order of the calls, as long as there are
-- at most 32, and leaves the earlier ones where they are.
pub pci_dev_register-Numbered :
    (dev : PciDev) (h : Store) (bus : Bus) (xs : List Ptr)
    → IsBus h bus xs
    → Numbered h xs
    → bus.dev_num ≡ length xs
    → length xs < 32
    → dev.config_dev ≢ null
    → has dev.config_dev xs ≡ false
    → let (g, bus') = pci_dev_register dev h bus in
      IsBus g bus' (dev.config_dev ∷ xs)
      × Numbered g (dev.config_dev ∷ xs)
      × (bus'.dev_num ≡ suc (length xs))
unfolding pci_dev_register dev_init bus_register_dev write
pci_dev_register-Numbered dev h bus xs b n count few ne out =
    let fresh : Dev = record {
      base = config_address bus.dev_num;
      len = pci_cfg_space_size;
      owner = dev.self;
      do_io = IoFn.pci_config_do_io;
      next = null;
    } in
    let h1 : Store = write h dev.config_dev fresh in
    let linked : Dev = record (h1 dev.config_dev) { next = bus.head } in
    let spare = λ (a : Ptr) (i : has a xs ≡ true). spared h dev.config_dev a xs fresh out i in
    let b1 : IsBus h1 bus xs = record {
      chain = Chain-frame h h1 bus.head xs b.chain (λ a i. ap (λ d. d.next) (spare a i));
      counted = b.counted;
      small = b.small;
    } in
    (
      bus_register_dev-IsBus h1 bus xs dev.config_dev b1 ne out (omega arith),
      (
        rw (write, ==_refl dev.config_dev) (omega arith),
        rw (write, ==_refl dev.config_dev) refl,
        rw (write, ==_refl dev.config_dev) refl,
        Numbered-frame h (write h1 dev.config_dev linked) xs n
            (λ a i. spared h1 dev.config_dev a xs linked out i ∙ spare a i),
      ),
      omega arith,
    )

-- The guest writes the address of device `n`, function 0, register `reg`, with the enable bit, to
-- the address port, and then accesses the data port at byte `k`. Exactly one handler is called: that
-- of the device registered n-th, at the byte of its configuration space that the register's word and
-- `k` name.
pub pci_data_io-device :
    (fuel : ℕ) (h : Store) (pci : Pci) (xs : List Ptr) (n reg k size : ℕ)
    → IsBus h pci.pci_bus xs
    → Numbered h xs
    → length xs ≤ 32
    → length xs < fuel
    → n < length xs
    → k < 4
    → 0 < size
    → size < 256
    → reg - reg % 4 + k + size ≤ 256
    → pci_data_io fuel h
        (pci_address_io pci (le_bytes 4 (2 ^ 31 + n * 2048 + reg)) true 0 4).0
        k
        size
      ≡ some (
          some (record {
            fn = IoFn.pci_config_do_io;
            owner = (h (device_at xs n)).owner;
            offset = reg - reg % 4 + k;
          }))
unfolding pci_data_io
pci_data_io-device fuel h pci xs n reg k size b ns few enough lt byte pos small fits =
    let value : ℕ = 2 ^ 31 + n * 2048 + reg in
    let place : (value - value % 4) % 2 ^ 31 + k ≡ n * 2048 + (reg - reg % 4 + k) = omega arith in
    let on : enabled (value - value % 4) ≡ true = ground arith in
    rw
      (
        pci_addr-pci_address_io pci value (omega arith),
        on,
        data_address (value - value % 4) k (omega arith) on (omega arith) byte,
        place,
      )
      (bus_handle_io-route fuel h pci.pci_bus xs (n * 2048 + (reg - reg % 4 + k)) size b
          (Numbered-AllFit h xs ns few) enough pos small
        ∙ ap some (route-Numbered h xs n (reg - reg % 4 + k) size ns lt pos fits))
