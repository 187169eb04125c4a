-- ===== src/Initrd/Tests.antt =====
-- Placing an initial RAM disk with src/arch/x86/vm.c, at concrete sizes.
use kvm_host.Common.{◌≡◌, refl, arith, some, ◌^◌, ◌*◌, ◌∙◌, [], ◌∷◌, length}
use kvm_host.Common.Bytes.{
  Memory, load_le, store_le, length-store_le, zeros, length-zeros, load_le-store_le_self,
}
use kvm_host.Initrd.{find_place, vm_arch_load_initrd, initrd_addr_max}
use kvm_host.Vm.{ram_size}
use kvm_host.Initrd.Place.{Found, find_place-Found, find_place_too_large}
use kvm_host.Initrd.Load.{IsLoaded, vm_arch_load_initrd-Loaded}

find_place-Found_example : Found 5000 (3 * 2 ^ 20) (find_place 4 5000 (3 * 2 ^ 20))
find_place-Found_example = find_place-Found 4 5000 (3 * 2 ^ 20) refl (omega arith) (omega arith)

-- an image of 4 MB, from an address at which it would end with the memory, is placed 1 MB below
find_place_ends_with_memory : find_place 4097 (2 ^ 22) 0x3fc00000 ≡ some (some 0x3fb00000)
unfolding find_place
find_place_ends_with_memory = refl

find_place_too_large_example :
    find_place 4097 (2 ^ 31) (2044 * 2 ^ 20) ≡ some (some (2044 * 2 ^ 20))
find_place_too_large_example =
    find_place_too_large 4096 (2 ^ 31) (2044 * 2 ^ 20) (omega arith) (omega arith) (omega arith)
      (omega arith)

-- a memory of zeros with the limit that Linux has in its header
abbrev ram : Memory
ram = store_le (zeros ram_size) initrd_addr_max 4 0x37ffffff

length-ram : length ram ≡ ram_size
length-ram = length-store_le (zeros ram_size) initrd_addr_max 4 0x37ffffff ∙ length-zeros ram_size

limit-ram : load_le ram initrd_addr_max 4 ≡ 0x37ffffff
limit-ram =
    load_le-store_le_self (zeros ram_size) initrd_addr_max 4 0x37ffffff
      (omega (arith, length-zeros ram_size)) (omega arith)

vm_arch_load_initrd-Loaded_example :
    IsLoaded ram (1 ∷ 2 ∷ []) (vm_arch_load_initrd ram (1 ∷ 2 ∷ []))
vm_arch_load_initrd-Loaded_example =
    vm_arch_load_initrd-Loaded ram (1 ∷ 2 ∷ []) length-ram (omega (arith, limit-ram)) (omega arith)
