-- ===== src/Arm64/Load.antt =====
-- How src/arch/arm64/vm.c places the kernel image and the initial RAM disk.
use kvm_host.Common.{ℕ, ◌+◌, ◌-◌, ◌%◌, ◌^◌, Bool, not, ◌||◌, List, ◌==◌, leb, length, if◌then◌else◌}
use kvm_host.Common.Bytes.{write_bytes, load_le}
use kvm_host.Common.Effects.{Eff, fail, modify}
use kvm_host.Arm64.{Machine, ram_base, kernel_base, kernel_size, initrd_base}

-- `arm64_kernel_header_t`: the fields that the code reads, in the image
abbrev pub text_offset : List ℕ → ℕ
text_offset image = load_le image 8 8

abbrev pub image_size : List ℕ → ℕ
image_size image = load_le image 16 8

abbrev pub magic : List ℕ → ℕ
magic image = load_le image 56 4

unfoldable pub image_offset : List ℕ → ℕ
image_offset image = if image_size image == 0 then 0x80000 else text_offset image

-- sums of `uint64_t`
unfoldable pub too_large : List ℕ → Bool
unfolding image_offset
too_large image =
    leb kernel_size ((image_offset image + length image) % 2 ^ 64)
    || leb kernel_size ((image_offset image + image_size image) % 2 ^ 64)

module _ {K : Type 0} where
  -- `memmove` of an image to a guest address, which is not below `ram_base`
  abbrev pub copy_to : ℕ → List ℕ → Machine K → Machine K
  copy_to guest image m = record m { mem = write_bytes m.mem (guest - ram_base) image }

  unfoldable pub vm_arch_load_image : List ℕ → Eff (Machine K) Unit
  unfolding too_large
  vm_arch_load_image image =
      if not (magic image == 0x644d5241)
      then fail
      else if too_large image
      then fail
      else modify (λ m. record (copy_to ((kernel_base + image_offset image) % 2 ^ 64) image m) {
        entry = (kernel_base + image_offset image) % 2 ^ 64;
      })

  unfoldable pub vm_arch_load_initrd : List ℕ → Eff (Machine K) Unit
  vm_arch_load_initrd image =
      modify (λ m. record (copy_to initrd_base image m) { initrdsz = length image })
