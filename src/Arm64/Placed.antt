-- ===== src/Arm64/Placed.antt =====
-- Where src/arch/arm64/vm.c puts a kernel image, and what of the memory map it may overwrite.
use kvm_host.Common.{
  ℕ, ◌+◌, ◌-◌, ◌%◌, ◌^◌, ◌≤◌, ◌<◌, ◌≡◌, refl, false, Option, some, none, List, length, arith, ◌⊎◌,
  inl, inr, ◌==◌, Bool-cases, ==→eq,
}
use kvm_host.Common.Bytes.{read_bytes, read_bytes-write_bytes_self, read_bytes-write_bytes_ne}
use kvm_host.Arm64.{Machine, ram_base, kernel_base, kernel_size, initrd_base}
use kvm_host.Arm64.Load.{vm_arch_load_image, image_offset, magic, too_large}

-- `m'` is `m` with the image in the part of the memory that is the kernel's and the entry point set;
-- no byte of the memory that is not the image's has changed, and nothing else of the machine
pub record Placed {K : Type 0} (m : Machine K) (image : List ℕ) (m' : Machine K) : Type 0 where
  pub above : kernel_base ≤ m'.entry
  pub in_kernel : m'.entry + length image < initrd_base
  pub copied : read_bytes m'.mem (m'.entry - ram_base) (length image) ≡ image
  pub others :
      (at n : ℕ)
      → (at + n ≤ m'.entry - ram_base) ⊎ (m'.entry - ram_base + length image ≤ at)
      → read_bytes m'.mem at n ≡ read_bytes m.mem at n
  pub machine : m' ≡ record m { mem = m'.mem; entry = m'.entry }
  pub accepted : magic image ≡ 0x644d5241

-- an error changes nothing; otherwise the image is placed
pub IsPlaced : {K : Type 0} → Machine K → List ℕ → Machine K × Option {0} Unit → Type 0
IsPlaced m image (m', none) = m' ≡ m
IsPlaced m image (m', some u) = Placed m image m'

too_large_lem :
    (image : List ℕ)
    → image_offset image < 2 ^ 63
    → length image < 2 ^ 63
    → too_large image ≡ false
    → image_offset image + length image < kernel_size
unfolding too_large
too_large_lem image low short fits = ground arith

-- A kernel image whose offset is below 2^63, and whose length is too, either is refused with nothing
-- changed, or has the ARM64 magic number, lies whole in the 128 MB of the kernel from the entry point
-- on, and every byte of the memory that is not the image's, and the machine but for its memory and
-- entry point, are as they were.
pub vm_arch_load_image-IsPlaced :
    {K : Type 0} (m : Machine K) (image : List ℕ)
    → kernel_size ≤ length m.mem
    → image_offset image < 2 ^ 63
    → length image < 2 ^ 63
    → IsPlaced m image (vm_arch_load_image image m)
unfolding vm_arch_load_image IsPlaced
vm_arch_load_image-IsPlaced m image room low short = elim (Bool-cases (magic image == 0x644d5241)) [
  | inr wrong ↦ rw wrong refl
  | inl right ↦ elim (Bool-cases (too_large image)) [
    | inl large ↦ rw (right, large) refl
    | inr fits ↦
        let off = image_offset image in
        let below = too_large_lem image low short fits in
        let entry : (kernel_base + off) % 2 ^ 64 ≡ kernel_base + off = omega (arith, below) in
        let place : kernel_base + off - ram_base ≡ off = omega arith in
        rw (right, fits, entry, place)
          record {
            above = omega arith;
            in_kernel = omega (arith, below);
            copied =
                rw place (read_bytes-write_bytes_self m.mem off image (omega (arith, below, room)));
            others = λ at n apart.
                read_bytes-write_bytes_ne m.mem off at n image (ground (arith, below, place));
            machine = refl;
            accepted = ==→eq (magic image) 0x644d5241 right;
          }
  ]
]
