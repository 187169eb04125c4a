-- ===== src/X86/Loaded.antt =====
-- What `vm_arch_load_image` of src/arch/x86/vm.c leaves in the memory of the guest.
use kvm_host.Common.{
  ℕ, ◌+◌, ◌-◌, ◌*◌, ◌≤◌, ◌≡◌, inl, inr, refl, sym, ap, ◌∙◌, some, List, length, arith, le→ltb,
}
use kvm_host.Common.Bytes.{
  Memory, read_bytes, write_bytes, load_le, le_value, zeros, length-read_bytes, length-write_bytes,
  read_bytes-write_bytes_self, read_bytes-write_bytes_ne,
}
use kvm_host.Initrd.{initrd_addr_max}
use kvm_host.X86.Load.{
  cmdline_addr, kernel_addr, type_of_loader, cmd_line_ptr, cmdline_size, e820_entries, e820_table,
  kernel_opts_bytes, isa_end_address, copy_header, setup_size, set_header, put_cmdline, put_e820,
  vm_arch_load_image,
}
use kvm_host.X86.Fields.{
  copy_header_lem, length-copy_header, length-set_header, length-put_cmdline, set_header_ne,
  set_header-type_of_loader, set_header-cmd_line_ptr, put_cmdline_ne, put_e820_ne, put_e820-second,
}

-- a kernel image of `length image` bytes, whose setup part has the length that it names
abbrev pub setup_part : List ℕ → ℕ
setup_part image = (load_le image 0x1f1 1 + 1) * 512

-- the memory behind the load: the kernel at 1 MB, the command line and the pointer to it, the type of
-- the loader, the field of the header that the load of the initrd reads, and the upper memory
pub record IsLoaded (image : List ℕ) (mem : Memory) : Type 0 where
  pub kernel :
      read_bytes mem kernel_addr (length image - setup_part image)
      ≡ read_bytes image (setup_part image) (length image - setup_part image)
  pub opts : read_bytes mem cmdline_addr 24 ≡ kernel_opts_bytes
  pub cmd_line : load_le mem cmd_line_ptr 4 ≡ cmdline_addr
  pub loader : load_le mem type_of_loader 1 ≡ 0xff
  pub initrd_limit : load_le mem initrd_addr_max 4 ≡ load_le image 0x22c 4
  pub upper_memory : load_le mem (e820_table 1) 8 ≡ isa_end_address

module _ (image : List ℕ) (mem : Memory) (whole : setup_part image ≤ length image)
    (room : kernel_addr + length image ≤ length mem) where
  setup_size_lem : setup_size (copy_header image mem) ≡ setup_part image
  unfolding setup_size
  setup_size_lem =
      ap (λ sectors. (sectors + 1) * 512)
        (copy_header_lem image mem 0 1 (omega (arith, room)) (omega arith))

  abbrev headed : Memory
  headed = set_header (copy_header image mem)

  abbrev kernel_bytes : List ℕ
  kernel_bytes = read_bytes image (setup_part image) (length image - setup_part image)

  abbrev kerneled : Memory
  kerneled = write_bytes (put_cmdline headed) kernel_addr kernel_bytes

  length-headed : length headed ≡ length mem
  length-headed = length-set_header (copy_header image mem) ∙ length-copy_header image mem

  length-kerneled : length kerneled ≡ length mem
  length-kerneled =
      length-write_bytes (put_cmdline headed) kernel_addr kernel_bytes
      ∙ length-put_cmdline headed
      ∙ length-headed

  -- a field of the parameters outside of the memory map
  kept :
      (at n : ℕ)
      → e820_entries + 1 ≤ at
      → at + n ≤ e820_table 0
      → load_le (put_e820 kerneled) at n ≡ load_le headed at n
  unfolding load_le
  kept at n after before = ap le_value (
      put_e820_ne kerneled at n (inr (inr (after, before)))
      ∙ read_bytes-write_bytes_ne (put_cmdline headed) kernel_addr at n kernel_bytes
          (inl (omega (arith, before)))
      ∙ put_cmdline_ne headed at n (omega (arith, before)))

  opts_lem : read_bytes (put_e820 kerneled) cmdline_addr 24 ≡ kernel_opts_bytes
  unfolding put_cmdline
  opts_lem =
      let blank = zeros (load_le headed cmdline_size 4) in
      put_e820_ne kerneled cmdline_addr 24 (inr (inl (omega arith)))
      ∙ read_bytes-write_bytes_ne (put_cmdline headed) kernel_addr cmdline_addr 24 kernel_bytes
          (inl (omega arith))
      ∙ read_bytes-write_bytes_self (write_bytes headed cmdline_addr blank) cmdline_addr
          kernel_opts_bytes
          (omega (arith, length-write_bytes headed cmdline_addr blank, length-headed, room))

  kernel_lem :
      read_bytes (put_e820 kerneled) kernel_addr (length image - setup_part image) ≡ kernel_bytes
  kernel_lem =
      let size = length image - setup_part image in
      put_e820_ne kerneled kernel_addr size (inr (inl (omega arith)))
      ∙ ap (read_bytes kerneled kernel_addr) (sym (length-read_bytes image (setup_part image) size))
      ∙ read_bytes-write_bytes_self (put_cmdline headed) kernel_addr kernel_bytes (
          omega (
            arith,
            length-read_bytes image (setup_part image) size,
            length-put_cmdline headed,
            length-headed,
            room,
          ))

  loaded_lem : vm_arch_load_image image mem ≡ some (put_e820 kerneled)
  unfolding vm_arch_load_image
  loaded_lem = rw (setup_size_lem, le→ltb (length image) (setup_part image) whole) refl

  -- An image that has its setup part, in a memory with room for it from 1 MB on, is loaded: its kernel
  -- lies at 1 MB, the command line where the header says, the loader has a type, the limit of the
  -- initrd is that of the image, and the upper memory begins at 1 MB.
  pub vm_arch_load_image-IsLoaded :
      (mem' : Memory) × (vm_arch_load_image image mem ≡ some mem') × IsLoaded image mem'
  vm_arch_load_image-IsLoaded = (
    put_e820 kerneled,
    loaded_lem,
    record {
      kernel = kernel_lem;
      opts = opts_lem;
      cmd_line =
          kept cmd_line_ptr 4 (omega arith) (omega arith)
          ∙ set_header-cmd_line_ptr (copy_header image mem)
              (omega (arith, length-copy_header image mem, room));
      loader =
          kept type_of_loader 1 (omega arith) (omega arith)
          ∙ set_header-type_of_loader (copy_header image mem)
              (omega (arith, length-copy_header image mem, room));
      initrd_limit =
          kept initrd_addr_max 4 (omega arith) (omega arith)
          ∙ set_header_ne (copy_header image mem) initrd_addr_max 4 (inr (omega arith))
          ∙ copy_header_lem image mem 0x3b 4 (omega (arith, room)) (omega arith);
      upper_memory = put_e820-second kerneled (omega (arith, length-kerneled, room));
    },
  )
