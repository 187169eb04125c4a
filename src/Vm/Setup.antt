-- ===== src/Vm/Setup.antt =====
-- How src/vm.c creates the machine and loads its images, over an interface of the architecture
-- (src/arch) and of the system calls. `W` is the state of those, the memory of the guest included.
use Prim.Native.String.{String}
use kvm_host.Common.{ℕ, Bool, bit_or, Option, some, none, List, if◌then◌else◌}
use kvm_host.Common.Effects.{Eff, pure, ignore, modify, ◌>>=◌, ◌>>◌}
use kvm_host.Bus.{Ptr, Store, Bus, bus_init}
use kvm_host.Pci.Ports.{Pci}
use kvm_host.VirtioBlk.Setup.{BlkDev, virtio_blk_init_pci}
use kvm_host.VirtioNet.Setup.{NetDev, virtio_net_init_pci}
use kvm_host.Vm.{ram_size}

-- `vm_t` at the address `self`. `serial` and `iodev` are the addresses of the UART and of the
-- architecture's own device, `serial_dev` that of the UART's `struct dev`.
pub record Vm (W : Type 0) : Type 0 where
  pub self : Ptr
  pub kvm_fd : ℕ
  pub vm_fd : ℕ
  pub vcpu_fd : ℕ
  pub store : Store
  pub mmio_bus : Bus
  pub io_bus : Bus
  pub pci : Pci
  pub serial : Ptr
  pub serial_dev : Ptr
  pub iodev : Ptr
  pub virtio_blk_dev : BlkDev
  pub virtio_net_dev : NetDev
  pub world : W

-- The threads that the program joins, the files behind its devices, and the three `thread_stop`s.
pub data Thread : Type 0 where
  serial_worker : Thread
  blk_vq_avail : Thread
  net_rx : Thread
  net_tx : Thread

pub data Open : Type 0 where
  diskimg : Open
  blk_irqfd : Open
  blk_ioeventfd : Open
  net_irqfd : Open
  rx_ioeventfd : Open
  tx_ioeventfd : Open
  tapfd : Open

pub data Part : Type 0 where
  of_serial : Part
  of_blk : Part
  of_net : Part

-- `struct termios`, of which only `c_lflag` is looked at
pub record Termios : Type 0 where
  pub c_lflag : ℕ
  pub rest : List ℕ

-- The system calls; one fails when its result is negative. `mmap_ram` maps the memory, and does not
-- tell of a failure, as the code does not. `open_file` gives the bytes of a file that is mapped,
-- `open_rw` opens a file for reading and writing, and `file_size` is what `fstat` gives. `set_tap` is
-- TUNSETIFF with the flags and the name, `get_flags` and `set_flags` are `fcntl`, and `irqfd` and
-- `ioeventfd` KVM_IRQFD and KVM_IOEVENTFD. `at_exit` makes the program restore the given attributes of
-- the terminal when it ends, `stop` sets the `thread_stop` of a file, and `close_file` closes a file that
-- a device holds.
pub record Sys (W : Type 0) : Type 0 where
  pub open_kvm : Eff W ℕ
  pub create_vm : ℕ → Eff W ℕ
  pub mmap_ram : ℕ → W → W
  pub set_region : ℕ → ℕ → ℕ → Eff W Unit
  pub create_vcpu : ℕ → Eff W ℕ
  pub open_file : String → Eff W (List ℕ)
  pub open_rw : String → Eff W ℕ
  pub file_size : ℕ → W → ℕ
  pub set_tap : ℕ → ℕ → String → Eff W Unit
  pub get_flags : ℕ → W → ℕ
  pub set_flags : ℕ → ℕ → Eff W Unit
  pub irqfd : ℕ → ℕ → ℕ → ℕ → Eff W Unit
  pub ioeventfd : ℕ → ℕ → ℕ → ℕ → ℕ → Eff W Unit
  pub isatty : W → Bool
  pub tcgetattr : W → Termios
  pub tcsetattr : Termios → W → W
  pub at_exit : Termios → W → W
  pub stop : Part → W → W
  pub join : Thread → W → W
  pub close_file : Open → W → W
  pub close : ℕ → W → W
  pub munmap_ram : W → W

-- flags of <linux/if_tun.h> and <fcntl.h>
abbrev pub iff_tap : ℕ
iff_tap = 0x0002

abbrev pub iff_no_pi : ℕ
iff_no_pi = 0x1000

abbrev pub o_nonblock : ℕ
o_nonblock = 0x800

-- what an architecture provides; the interrupts are those of its desc.h
pub record Arch (W : Type 0) : Type 0 where
  pub ram_base : ℕ
  pub blk_irq : ℕ
  pub net_irq : ℕ
  pub vm_arch_init : Eff (Vm W) Unit
  pub vm_arch_cpu_init : Eff (Vm W) Unit
  pub vm_arch_init_platform_device : Eff (Vm W) Unit
  pub vm_arch_load_image : List ℕ → Eff (Vm W) Unit
  pub vm_arch_load_initrd : List ℕ → Eff (Vm W) Unit
  pub late_init : Eff (Vm W) Unit

module _ {W : Type 0} where
  -- what a call makes of the machine
  abbrev pub put_world : {A : Type 0} → Vm W → W × Option A → Vm W × Option A
  put_world v (w, r) = (record v { world = w }, r)

  abbrev pub on_world : {A : Type 0} → Eff W A → Eff (Vm W) A
  on_world f v = put_world v (f v.world)

  -- `if (fd < 0) return 1;` and the load of what the file holds
  abbrev pub loaded : (List ℕ → Eff (Vm W) Unit) → Vm W × Option (List ℕ) → Vm W × Option ℕ
  loaded load (v, none) = (v, some 1)
  loaded load (v, some bytes) = (do load bytes; pure 0) v

module _ {W : Type 0} (sys : Sys W) (arch : Arch W) where
  -- the three system calls of `vm_init` in front of `vm_arch_init` and behind it; a file descriptor is
  -- stored if it is one
  unfoldable pub open_vm : Eff (Vm W) Unit
  open_vm = do
    kvm ← on_world sys.open_kvm
    modify (λ v. record v { kvm_fd = kvm })
    vm ← on_world (sys.create_vm kvm)
    modify (λ v. record v { vm_fd = vm })

  unfoldable pub map_memory : Eff (Vm W) Unit
  map_memory = do
    modify (λ v. record v { world = sys.mmap_ram ram_size v.world })
    (λ v. on_world (sys.set_region v.vm_fd arch.ram_base ram_size) v)

  unfoldable pub create_vcpu : Eff (Vm W) Unit
  create_vcpu = do
    vcpu ← (λ v. on_world (sys.create_vcpu v.vm_fd) v)
    modify (λ v. record v { vcpu_fd = vcpu })

  unfoldable pub vm_init : Eff (Vm W) Unit
  unfolding open_vm map_memory create_vcpu
  vm_init = do
    open_vm
    arch.vm_arch_init
    map_memory
    create_vcpu
    arch.vm_arch_cpu_init
    modify (λ v. record v { io_bus = bus_init; mmio_bus = bus_init })
    arch.vm_arch_init_platform_device

  unfoldable pub vm_load_image : String → Eff (Vm W) ℕ
  vm_load_image path v = loaded arch.vm_arch_load_image (on_world (sys.open_file path) v)

  unfoldable pub vm_load_initrd : String → Eff (Vm W) ℕ
  vm_load_initrd path v = loaded arch.vm_arch_load_initrd (on_world (sys.open_file path) v)

  -- `virtio_blk_init_pci` on the machine, for a disk image of `size` bytes
  abbrev pub attach_blk : ℕ → Vm W → Vm W
  attach_blk size v =
      let (blk, h, bus) =
        virtio_blk_init_pci arch.blk_irq size v.virtio_blk_dev v.store v.pci.pci_bus in
      record v { virtio_blk_dev = blk; store = h; pci = record v.pci { pci_bus = bus } }

  -- the size of the image, whose file descriptor the device keeps
  unfoldable pub diskimg_init : String → Eff W ℕ
  diskimg_init path = do fd ← sys.open_rw path; (λ w. pure (sys.file_size fd w) w)

  unfoldable pub vm_load_diskimg : String → Eff (Vm W) Unit
  unfolding diskimg_init
  vm_load_diskimg path = do size ← on_world (diskimg_init path); modify (attach_blk size)

  abbrev pub attach_net : NetDev → Vm W → Vm W
  attach_net zeroed v =
      let (net, h, bus) = virtio_net_init_pci arch.net_irq zeroed v.store v.pci.pci_bus in
      record v { virtio_net_dev = net; store = h; pci = record v.pci { pci_bus = bus } }

  -- the tap device is closed when a call on it fails
  abbrev pub close_failed : ℕ → W × Option {0} Unit → W × Option {0} Unit
  close_failed fd (w, none) = (sys.close fd w, none)
  close_failed fd (w, some u) = (w, some u)

  abbrev pub set_nonblock : ℕ → Eff W Unit
  set_nonblock fd w = close_failed fd (sys.set_flags fd (bit_or (sys.get_flags fd w) o_nonblock) w)

  -- `virtio_net_init` behind its `memset`
  unfoldable pub virtio_net_init : Eff W Unit
  virtio_net_init = do
    fd ← sys.open_rw "/dev/net/tun"
    (λ w. close_failed fd (sys.set_tap fd (bit_or iff_tap iff_no_pi) "tap%d" w))
    set_nonblock fd

  -- `zeroed` is the device after the `memset` of `virtio_net_init`
  unfoldable pub vm_enable_net : NetDev → Eff (Vm W) Unit
  unfolding virtio_net_init
  vm_enable_net zeroed = do
    modify (λ v. record v { virtio_net_dev = zeroed })
    on_world virtio_net_init
    modify (attach_net zeroed)

  -- a failure is only printed
  unfoldable pub vm_irqfd_register : ℕ → ℕ → ℕ → Eff (Vm W) Unit
  vm_irqfd_register fd gsi flags v = ignore (on_world (sys.irqfd v.vm_fd fd gsi flags)) v

  unfoldable pub vm_ioeventfd_register : ℕ → ℕ → ℕ → ℕ → Eff (Vm W) Unit
  vm_ioeventfd_register fd addr len flags v =
      ignore (on_world (sys.ioeventfd v.vm_fd fd addr len flags)) v

  unfoldable pub serial_exit : W → W
  serial_exit w = sys.join Thread.serial_worker (sys.stop Part.of_serial w)

  -- `virtio_pci_exit`, here and below, does nothing
  unfoldable pub virtio_blk_exit : BlkDev → W → W
  virtio_blk_exit dev w =
      let joined = sys.join Thread.blk_vq_avail (sys.stop Part.of_blk w) in
      if dev.enable
      then sys.close_file Open.blk_ioeventfd
          (sys.close_file Open.blk_irqfd (sys.close_file Open.diskimg joined))
      else w

  -- it is never called
  unfoldable pub virtio_net_exit : NetDev → W → W
  virtio_net_exit dev w =
      let joined = sys.join Thread.net_tx (sys.join Thread.net_rx (sys.stop Part.of_net w)) in
      let closed =
        sys.close_file Open.tx_ioeventfd
          (sys.close_file Open.rx_ioeventfd (sys.close_file Open.net_irqfd joined)) in
      if dev.enable then sys.close_file Open.tapfd closed else w

  unfoldable pub vm_exit : Vm W → Vm W
  unfolding serial_exit virtio_blk_exit
  vm_exit v =
      let stopped = virtio_blk_exit v.virtio_blk_dev (serial_exit v.world) in
      let closed = sys.close v.vcpu_fd (sys.close v.vm_fd (sys.close v.kvm_fd stopped)) in
      record v { world = sys.munmap_ram closed }
