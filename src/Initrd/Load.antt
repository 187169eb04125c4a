-- ===== src/Initrd/Load.antt =====
-- What `vm_arch_load_initrd` of src/arch/x86/vm.c leaves in the guest's memory.
use kvm_host.Common.{
  ℕ, ◌-◌, ◌%◌, ◌^◌, ◌≤◌, ◌<◌, ◌≡◌, ◌⊎◌, ◌+◌, inl, inr, ◌∙◌, Option, some, none, List, length,
  replicate, arith, refl, ◌>>=◌,
}
use kvm_host.Common.Bytes.{
  Memory, read_bytes, write_bytes, load_le, store_le, load_le-store_le_self, load_le-store_le_ne,
  length-store_le, length-write_bytes, read_bytes-store_le_ne, read_bytes-write_bytes_self,
  read_bytes-write_bytes_ne, length-replicate,
}
use kvm_host.Common.Masks.{bit_and_round_down}
use kvm_host.Vm.{ram_size}
use kvm_host.Initrd.{
  initrd_addr_max, ramdisk_image, ramdisk_size, first_place, put_initrd, vm_arch_load_initrd,
  find_place,
}
use kvm_host.Initrd.Place.{Fits, EndsWithMemory, Found, find_place-Found}

-- the boot loader's protocol: the image lies at an address that fits, the header names address and
-- size, and the rest of the memory is as it was
pub record Loaded (mem : Memory) (image : List ℕ) (mem' : Memory) (addr : ℕ) : Type 0 where
  pub place : Fits (length image) (first_place mem) addr
  pub spare : ¬ EndsWithMemory (length image) addr
  pub highest :
      (other : ℕ)
      → Fits (length image) (first_place mem) other
      → (other ≤ addr) ⊎ EndsWithMemory (length image) other
  pub copied : read_bytes mem' addr (length image) ≡ image
  pub address : load_le mem' ramdisk_image 4 ≡ addr
  pub size : load_le mem' ramdisk_size 4 ≡ length image
  pub others :
      (at n : ℕ)
      → (at + n ≤ addr) ⊎ (addr + length image ≤ at)
      → (at + n ≤ ramdisk_image) ⊎ (ramdisk_size + 4 ≤ at)
      → read_bytes mem' at n ≡ read_bytes mem at n

abbrev pub IsLoaded : Memory → List ℕ → Option (Option Memory) → Type 0
IsLoaded mem image none = ⊥
IsLoaded mem image (some none) =
    (addr : ℕ) → Fits (length image) (first_place mem) addr → EndsWithMemory (length image) addr
IsLoaded mem image (some (some mem')) = (addr : ℕ) × Loaded mem image mem' addr

-- what is written at an address that fits
module _ (mem : Memory) (image : List ℕ) (addr : ℕ) (whole : length mem ≡ ram_size)
    (fits : Fits (length image) (first_place mem) addr) where
  abbrev copy : Memory
  copy = write_bytes (write_bytes mem addr (replicate (length image) 0)) addr image

  length-copy : length copy ≡ ram_size
  length-copy = rw (length-write_bytes, length-write_bytes) whole

  copy-image : read_bytes copy addr (length image) ≡ image
  copy-image =
      let zeroed = write_bytes mem addr (replicate (length image) 0) in
      read_bytes-write_bytes_self zeroed addr image (
        omega (arith, fits.inside, length-write_bytes mem addr (replicate (length image) 0), whole))

  copy-others :
      (at n : ℕ)
      → (at + n ≤ addr) ⊎ (addr + length image ≤ at)
      → read_bytes copy at n ≡ read_bytes mem at n
  copy-others at n apart =
      let zeroed = write_bytes mem addr (replicate (length image) 0) in
      read_bytes-write_bytes_ne zeroed addr at n image apart
      ∙ read_bytes-write_bytes_ne mem addr at n (replicate (length image) 0)
          (ground (arith, length-replicate {A = ℕ} (length image) 0))

  put_initrd-Loaded :
      (spare : ¬ EndsWithMemory (length image) addr)
      (highest : (other : ℕ)
        → Fits (length image) (first_place mem) other
        → (other ≤ addr) ⊎ EndsWithMemory (length image) other)
      → IsLoaded mem image (some (put_initrd mem image (some addr)))
  unfolding put_initrd
  put_initrd-Loaded spare highest =
      let placed = store_le copy ramdisk_image 4 addr in
      let above = fits.high_enough in
      (
        addr,
        record {
          place = fits;
          spare = spare;
          highest = highest;
          copied =
              read_bytes-store_le_ne placed ramdisk_size 4 (length image) addr (length image)
                (inr (omega (arith, above)))
              ∙ read_bytes-store_le_ne copy ramdisk_image 4 addr addr (length image)
                  (inr (omega (arith, above)))
              ∙ copy-image;
          address =
              load_le-store_le_ne placed ramdisk_size 4 (length image) ramdisk_image 4
                (inl (omega arith))
              ∙ load_le-store_le_self copy ramdisk_image 4 addr (omega (arith, length-copy))
                  (omega (arith, fits.inside));
          size =
              load_le-store_le_self placed ramdisk_size 4 (length image)
                (omega (arith, length-store_le copy ramdisk_image 4 addr, length-copy))
                (omega (arith, fits.inside));
          others = λ at n image_apart header_apart.
              read_bytes-store_le_ne placed ramdisk_size 4 (length image) at n (ground arith)
              ∙ read_bytes-store_le_ne copy ramdisk_image 4 addr at n (ground arith)
              ∙ copy-others at n image_apart;
        },
      )

-- For an image no larger than the memory, vm_arch_load_initrd ends. The addresses that fit are the
-- multiples of 2^20, but 0, at or below the rounded `initrd_addr_max` from which on the memory has room
-- for the image. It takes one of these, copies the image there, puts its address and size into the
-- header and changes no other byte. It passes over an address from which on the image would end with
-- the last byte of the memory: the address taken is the highest of the others, and it fails exactly
-- if there is no other.
pub vm_arch_load_initrd-Loaded :
    (mem : Memory) (image : List ℕ)
    → length mem ≡ ram_size
    → load_le mem initrd_addr_max 4 < 2 ^ 32
    → length image ≤ ram_size
    → IsLoaded mem image (vm_arch_load_initrd mem image)
unfolding vm_arch_load_initrd put_initrd
vm_arch_load_initrd-Loaded mem image whole small fits =
    let max = load_le mem initrd_addr_max 4 in
    let rounded : first_place mem ≡ max - max % 2 ^ 20 = bit_and_round_down 20 12 max refl small in
    finish (find_place 4097 (length image) (first_place mem)) (
      find_place-Found 4097 (length image) (first_place mem) (omega (arith, rounded))
        (omega (arith, rounded)) fits)
  where
    finish :
        (place : Option (Option ℕ))
        → Found (length image) (first_place mem) place
        → IsLoaded mem image (place >>= λ p. some (put_initrd mem image p))
    finish none found = found
    finish (some none) found = found
    finish (some (some addr)) (good, spare, highest) =
        put_initrd-Loaded mem image addr whole good spare highest
