-- ===== src/X86/Fields.antt =====
-- What the parts of `vm_arch_load_image` of src/arch/x86/vm.c write, and what they leave.
use kvm_host.Common.{
  ℕ, ◌+◌, ◌-◌, ◌≤◌, ◌≡◌, ◌⊎◌, inl, refl, ap, ◌∙◌, List, [], ◌∷◌, length, arith, bit_or,
}
use kvm_host.Common.Bytes.{
  Memory, read_bytes, write_bytes, load_le, store_le, le_value, zeros, length-write_bytes,
  length-store_le, load_le-copy_at, load_le-store_le_self, load_le-store_le_ne,
  read_bytes-store_le_ne, read_bytes-write_bytes_ne,
}
use kvm_host.Initrd.{boot_params}
use kvm_host.Vm.{ram_size}
use kvm_host.X86.Load.{
  boot_params_size, cmdline_addr, hdr_offset, setup_header_size, vid_mode, type_of_loader,
  loadflags, heap_end_ptr, ext_loader_ver, cmd_line_ptr, cmdline_size, e820_entries, e820_table,
  kernel_opts_bytes, isa_start_address, isa_end_address, copy_header, set_header, put_cmdline,
  load_flags, put_e820,
}

-- a field of the header is that of the image
pub copy_header_lem :
    (image : List ℕ) (mem : Memory) (at n : ℕ)
    → 0x20000 ≤ length mem
    → at + n ≤ setup_header_size
    → load_le (copy_header image mem) (boot_params + hdr_offset + at) n
      ≡ load_le image (hdr_offset + at) n
unfolding copy_header
copy_header_lem image mem at n room inside =
    load_le-copy_at (write_bytes mem boot_params (zeros boot_params_size)) image
      (boot_params + hdr_offset) hdr_offset setup_header_size at n inside
      (omega (arith, length-write_bytes mem boot_params (zeros boot_params_size)))

pub length-copy_header :
    (image : List ℕ) (mem : Memory) → length (copy_header image mem) ≡ length mem
unfolding copy_header
length-copy_header image mem =
    length-write_bytes (write_bytes mem boot_params (zeros boot_params_size))
      (boot_params + hdr_offset) (read_bytes image hdr_offset setup_header_size)
    ∙ length-write_bytes mem boot_params (zeros boot_params_size)

pub length-set_header : (mem : Memory) → length (set_header mem) ≡ length mem
unfolding set_header
length-set_header mem = simp (length-store_le) refl

pub length-put_cmdline : (mem : Memory) → length (put_cmdline mem) ≡ length mem
unfolding put_cmdline
length-put_cmdline mem =
    length-write_bytes (write_bytes mem cmdline_addr (zeros (load_le mem cmdline_size 4)))
      cmdline_addr kernel_opts_bytes
    ∙ length-write_bytes mem cmdline_addr (zeros (load_le mem cmdline_size 4))

-- stores one behind the other: place, width and value
stores : List (ℕ × ℕ × ℕ) → Memory → Memory
stores [] m = m
stores ((o, k, v) ∷ ws) m = stores ws (store_le m o k v)

abbrev Apart : ℕ → ℕ → List (ℕ × ℕ × ℕ) → Type 0
Apart at n [] = Unit
Apart at n ((o, k, v) ∷ ws) = ((at + n ≤ o) ⊎ (o + k ≤ at)) × Apart at n ws

read_bytes-stores_ne :
    (ws : List (ℕ × ℕ × ℕ)) (m : Memory) (at n : ℕ)
    → Apart at n ws
    → read_bytes (stores ws m) at n ≡ read_bytes m at n
unfolding stores
read_bytes-stores_ne [] m at n apart = refl
read_bytes-stores_ne ((o, k, v) ∷ ws) m at n (apart, rest) =
    read_bytes-stores_ne ws (store_le m o k v) at n rest ∙ read_bytes-store_le_ne m o k v at n apart

load_le-stores_ne :
    (ws : List (ℕ × ℕ × ℕ)) (m : Memory) (at n : ℕ)
    → Apart at n ws
    → load_le (stores ws m) at n ≡ load_le m at n
unfolding load_le
load_le-stores_ne ws m at n apart = ap le_value (read_bytes-stores_ne ws m at n apart)

-- the stores of `set_header` behind that of the loader's type
abbrev late_stores : Memory → List (ℕ × ℕ × ℕ)
late_stores mem =
    (loadflags, 1, bit_or (load_le mem loadflags 1) load_flags)
    ∷ (heap_end_ptr, 2, 0xfe00)
    ∷ (ext_loader_ver, 1, 0)
    ∷ (cmd_line_ptr, 4, cmdline_addr)
    ∷ []

abbrev with_loader : Memory → Memory
with_loader mem = store_le (store_le mem vid_mode 2 0xffff) type_of_loader 1 0xff

set_header-stores :
    (mem : Memory) → set_header mem ≡ stores (late_stores (with_loader mem)) (with_loader mem)
unfolding set_header stores
set_header-stores mem = refl

-- the fields that the program does not set
pub set_header_ne :
    (mem : Memory) (at n : ℕ)
    → (at + n ≤ vid_mode) ⊎ (cmd_line_ptr + 4 ≤ at)
    → load_le (set_header mem) at n ≡ load_le mem at n
set_header_ne mem at n apart =
    ap (λ m. load_le m at n) (set_header-stores mem)
    ∙ load_le-stores_ne (late_stores (with_loader mem)) (with_loader mem) at n (ground arith)
    ∙ load_le-store_le_ne (store_le mem vid_mode 2 0xffff) type_of_loader 1 0xff at n (ground arith)
    ∙ load_le-store_le_ne mem vid_mode 2 0xffff at n (ground arith)

pub set_header-type_of_loader :
    (mem : Memory) → 0x20000 ≤ length mem → load_le (set_header mem) type_of_loader 1 ≡ 0xff
set_header-type_of_loader mem room =
    ap (λ m. load_le m type_of_loader 1) (set_header-stores mem)
    ∙ load_le-stores_ne (late_stores (with_loader mem)) (with_loader mem) type_of_loader 1
        (ground arith)
    ∙ load_le-store_le_self (store_le mem vid_mode 2 0xffff) type_of_loader 1 0xff
        (omega (arith, length-store_le mem vid_mode 2 0xffff)) (omega arith)

pub set_header-cmd_line_ptr :
    (mem : Memory) → 0x20000 ≤ length mem → load_le (set_header mem) cmd_line_ptr 4 ≡ cmdline_addr
unfolding set_header
set_header-cmd_line_ptr mem room =
    load_le-store_le_self _ cmd_line_ptr 4 cmdline_addr (simp (length-store_le) (omega arith))
      (omega arith)

-- what lies below the command line stays
pub put_cmdline_ne :
    (mem : Memory) (at n : ℕ)
    → at + n ≤ cmdline_addr
    → read_bytes (put_cmdline mem) at n ≡ read_bytes mem at n
unfolding put_cmdline
put_cmdline_ne mem at n below =
    let blank = zeros (load_le mem cmdline_size 4) in
    read_bytes-write_bytes_ne (write_bytes mem cmdline_addr blank) cmdline_addr at n
      kernel_opts_bytes (inl below)
    ∙ read_bytes-write_bytes_ne mem cmdline_addr at n blank (inl below)

-- the stores of the memory map behind the address of its second range
abbrev late_e820 : List (ℕ × ℕ × ℕ)
late_e820 =
    (e820_table 1 + 8, 8, ram_size - isa_end_address)
    ∷ (e820_table 1 + 16, 4, 1)
    ∷ (e820_entries, 1, 2)
    ∷ []

abbrev early_e820 : List (ℕ × ℕ × ℕ)
early_e820 =
    (e820_table 0, 8, 0)
    ∷ (e820_table 0 + 8, 8, isa_start_address - 1)
    ∷ (e820_table 0 + 16, 4, 1)
    ∷ []

put_e820-stores :
    (mem : Memory)
    → put_e820 mem
      ≡ stores late_e820 (store_le (stores early_e820 mem) (e820_table 1) 8 isa_end_address)
unfolding put_e820 stores
put_e820-stores mem = refl

length-stores : (ws : List (ℕ × ℕ × ℕ)) (m : Memory) → length (stores ws m) ≡ length m
unfolding stores
length-stores [] m = refl
length-stores ((o, k, v) ∷ ws) m = length-stores ws (store_le m o k v) ∙ length-store_le m o k v

pub put_e820_ne :
    (mem : Memory) (at n : ℕ)
    → (at + n ≤ e820_entries)
      ⊎ (e820_table 2 ≤ at)
      ⊎ ((e820_entries + 1 ≤ at) × (at + n ≤ e820_table 0))
    → read_bytes (put_e820 mem) at n ≡ read_bytes mem at n
put_e820_ne mem at n apart =
    let m1 = stores early_e820 mem in
    ap (λ m. read_bytes m at n) (put_e820-stores mem)
    ∙ read_bytes-stores_ne late_e820 (store_le m1 (e820_table 1) 8 isa_end_address) at n
        (ground arith)
    ∙ read_bytes-store_le_ne m1 (e820_table 1) 8 isa_end_address at n (ground arith)
    ∙ read_bytes-stores_ne early_e820 mem at n (ground arith)

pub put_e820-second :
    (mem : Memory)
    → 0x20000 ≤ length mem
    → load_le (put_e820 mem) (e820_table 1) 8 ≡ isa_end_address
put_e820-second mem room =
    let m1 = stores early_e820 mem in
    ap (λ m. load_le m (e820_table 1) 8) (put_e820-stores mem)
    ∙ load_le-stores_ne late_e820 (store_le m1 (e820_table 1) 8 isa_end_address) (e820_table 1) 8
        (ground arith)
    ∙ load_le-store_le_self m1 (e820_table 1) 8 isa_end_address
        (omega (arith, length-stores early_e820 mem)) (omega arith)
