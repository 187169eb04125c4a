-- ===== src/Initrd.antt =====
-- How src/arch/x86/vm.c places the initial RAM disk: `vm_arch_load_initrd`. The offsets are those of
-- `struct boot_params`, which lies at 0x10000 of the guest's memory.
pub mod Place
pub mod Load
mod Tests
use kvm_host.Common.{
  ℕ, zero, suc, ◌+◌, ◌-◌, ◌%◌, ◌^◌, bit_and, Option, some, none, List, length, replicate, ltb,
  if◌then◌else◌, ◌>>=◌,
}
use kvm_host.Common.Bytes.{Memory, write_bytes, load_le, store_le}
use kvm_host.Vm.{ram_size}

abbrev pub boot_params : ℕ
boot_params = 0x10000

-- the fields `hdr.initrd_addr_max`, `hdr.ramdisk_image` and `hdr.ramdisk_size`
abbrev pub initrd_addr_max : ℕ
initrd_addr_max = boot_params + 0x22c

abbrev pub ramdisk_image : ℕ
ramdisk_image = boot_params + 0x218

abbrev pub ramdisk_size : ℕ
ramdisk_size = boot_params + 0x21c

-- the loop: `none` if the rounds are used up, `some none` for the error
unfoldable pub find_place : ℕ → ℕ → ℕ → Option (Option ℕ)
find_place zero datasz addr = none
find_place (suc rounds) datasz addr =
    let rest = find_place rounds datasz (addr - 0x100000) in
    if ltb addr 0x100000
    then some none
    else if ltb addr ((ram_size + 2 ^ 64 - datasz) % 2 ^ 64)
    then some (some addr)
    else rest

-- `~0xfffff` is an `int` that is converted to `unsigned int`
abbrev pub first_place : Memory → ℕ
first_place mem = bit_and (load_le mem initrd_addr_max 4) (2 ^ 32 - 2 ^ 20)

-- what is written for an address, or the error
unfoldable pub put_initrd : Memory → List ℕ → Option ℕ → Option Memory
put_initrd mem image none = none
put_initrd mem image (some addr) =
    let zeroed = write_bytes mem addr (replicate (length image) 0) in
    let copied = write_bytes zeroed addr image in
    some (store_le (store_le copied ramdisk_image 4 addr) ramdisk_size 4 (length image))

-- the address drops by 2^20 a round and starts below 2^32, so that 4097 rounds are enough
unfoldable pub vm_arch_load_initrd : Memory → List ℕ → Option (Option Memory)
unfolding find_place put_initrd
vm_arch_load_initrd mem image = do
  place ← find_place 4097 (length image) (first_place mem)
  some (put_initrd mem image place)
