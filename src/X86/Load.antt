-- ===== src/X86/Load.antt =====
-- How src/arch/x86/vm.c loads a kernel image: `vm_arch_load_image`. Offsets are those of
-- <asm/bootparam.h>, in `struct boot_params`; memory is an offset in `v->mem`.
use kvm_host.Common.{
  ℕ, ◌+◌, ◌-◌, ◌*◌, bit_or, Option, some, none, List, [], ◌∷◌, ltb, length, if◌then◌else◌,
}
use kvm_host.Common.Bytes.{Memory, read_bytes, write_bytes, load_le, store_le, zeros}
use kvm_host.Initrd.{boot_params}
use kvm_host.Vm.{ram_size}

abbrev pub boot_params_size : ℕ
boot_params_size = 4096

abbrev pub cmdline_addr : ℕ
cmdline_addr = 0x20000

abbrev pub kernel_addr : ℕ
kernel_addr = 0x100000

-- `offsetof(struct boot_params, hdr)` and `sizeof(struct setup_header)`
abbrev pub hdr_offset : ℕ
hdr_offset = 0x1f1

abbrev pub setup_header_size : ℕ
setup_header_size = 0x7b

-- the fields of the header that the code uses
abbrev pub setup_sects : ℕ
setup_sects = boot_params + 0x1f1

abbrev pub vid_mode : ℕ
vid_mode = boot_params + 0x1fa

abbrev pub type_of_loader : ℕ
type_of_loader = boot_params + 0x210

abbrev pub loadflags : ℕ
loadflags = boot_params + 0x211

abbrev pub heap_end_ptr : ℕ
heap_end_ptr = boot_params + 0x224

abbrev pub ext_loader_ver : ℕ
ext_loader_ver = boot_params + 0x226

abbrev pub cmd_line_ptr : ℕ
cmd_line_ptr = boot_params + 0x228

abbrev pub cmdline_size : ℕ
cmdline_size = boot_params + 0x238

abbrev pub e820_entries : ℕ
e820_entries = boot_params + 0x1e8

-- an entry has 20 bytes
abbrev pub e820_table : ℕ → ℕ
e820_table idx = boot_params + 0x2d0 + 20 * idx

-- "console=ttyS0 pci=conf1" and the byte 0 behind it
abbrev pub kernel_opts_bytes : List ℕ
kernel_opts_bytes =
    99 ∷ 111 ∷ 110 ∷ 115 ∷ 111 ∷ 108 ∷ 101 ∷ 61 ∷ 116 ∷ 116 ∷ 121 ∷ 83 ∷ 48 ∷ 32 ∷ 112 ∷ 99 ∷ 105
    ∷ 61 ∷ 99 ∷ 111 ∷ 110 ∷ 102 ∷ 49 ∷ 0 ∷ []

abbrev pub isa_start_address : ℕ
isa_start_address = 0xa0000

abbrev pub isa_end_address : ℕ
isa_end_address = 0x100000

-- CAN_USE_HEAP | 0x01 | KEEP_SEGMENTS
abbrev pub load_flags : ℕ
load_flags = bit_or (bit_or 0x80 0x01) 0x40

-- the parameters are cleared, and the header is copied from the image
unfoldable pub copy_header : List ℕ → Memory → Memory
copy_header image mem =
    write_bytes (write_bytes mem boot_params (zeros boot_params_size)) (boot_params + hdr_offset)
      (read_bytes image hdr_offset setup_header_size)

-- `setupsz`, behind `copy_header`
unfoldable pub setup_size : Memory → ℕ
setup_size mem = (load_le mem setup_sects 1 + 1) * 512

-- the stores to fields of the header
unfoldable pub set_header : Memory → Memory
set_header mem =
    let m1 = store_le mem vid_mode 2 0xffff in
    let m2 = store_le m1 type_of_loader 1 0xff in
    let m3 = store_le m2 loadflags 1 (bit_or (load_le m2 loadflags 1) load_flags) in
    let m4 = store_le m3 heap_end_ptr 2 0xfe00 in
    let m5 = store_le m4 ext_loader_ver 1 0 in store_le m5 cmd_line_ptr 4 cmdline_addr

unfoldable pub put_cmdline : Memory → Memory
put_cmdline mem =
    write_bytes (write_bytes mem cmdline_addr (zeros (load_le mem cmdline_size 4))) cmdline_addr
      kernel_opts_bytes

unfoldable pub put_e820_entry : ℕ → ℕ → ℕ → Memory → Memory
put_e820_entry idx addr size mem =
    store_le (store_le (store_le mem (e820_table idx) 8 addr) (e820_table idx + 8) 8 size)
      (e820_table idx + 16) 4 1

unfoldable pub put_e820 : Memory → Memory
unfolding put_e820_entry
put_e820 mem =
    let m1 = put_e820_entry 0 0 (isa_start_address - 1) mem in
    let m2 = put_e820_entry 1 isa_end_address (ram_size - isa_end_address) m1 in
    store_le m2 e820_entries 1 2

-- `none` is an image shorter than its setup part, whose `memmove` leaves the objects: the size wraps
unfoldable pub vm_arch_load_image : List ℕ → Memory → Option Memory
unfolding copy_header setup_size set_header put_cmdline put_e820
vm_arch_load_image image mem =
    let copied = copy_header image mem in
    let size = setup_size copied in
    if ltb (length image) size
    then none
    else some (
        put_e820 (
          write_bytes (put_cmdline (set_header copied)) kernel_addr
            (read_bytes image size (length image - size))))
