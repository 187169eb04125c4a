-- ===== src/Lib.antt =====
-- kvm-host, a small KVM virtual machine monitor in C (src/ of the repository): the devices that it
-- emulates, as the guest and the host threads see them.
--
-- A guest access reaches `bus_handle_io` (src/bus.c), which finds the device whose range holds the
-- address and calls its handler: the UART (src/serial.c) over its byte ring (src/utils.h), the PCI
-- address and data ports, or the configuration space of a PCI device (src/pci.c), whose base address
-- registers register further ranges. Behind one, the driver of a virtio device configures its queues
-- (src/virtio-pci.c); the network device (src/virtio-net.c) and the block device (src/virtio-blk.c)
-- take requests from packed virtqueues (src/virtq.c) in the memory of the guest. The machine below
-- them, its images and its vCPU are set up by src/vm.c and src/arch.
--
-- Files and what they model:
--   Common     shared names; Common/Bits and Common/Masks: the bit operations at variables;
--              Common/Bytes: memory as a list of bytes, little endian
--   Fifo       src/utils.h: `struct fifo` and its macros; Fifo/Queue is what they promise
--   Serial     src/serial.c: registers and handlers; Serial/Console: `serial_console`;
--              Serial/Worker: `serial_thread` and the vCPU thread as a step relation
--   Bus        src/bus.c and src/bus.h, over a store of devices at addresses; Bus/Dispatch: against an
--              address map; Bus/Order: what the order of the devices matters
--   Pci        src/pci.c and src/pci.h: BARs, command register and configuration space;
--              Pci/Ports: the address and data ports; Pci/Setup: initialisation and registration;
--              Pci/Fields: the bit fields of an address; Pci/Coherent: the BARs against the two buses
--   Virtq      src/virtq.c and src/virtq.h; Virtq/Protocol: driver and device on one ring, as steps
--   VirtioPci  src/virtio-pci.c and src/virtio-pci.h: the window of BAR 0 with the driver's
--              registers; VirtioPci/Setup: the capability list and initialisation
--   VirtioQueue  what the next two share: descriptors in the guest's memory
--   VirtioNet  src/virtio-net.c: the requests of the two queues; VirtioNet/Setup: initialisation;
--              VirtioNet/Threads: the two threads; VirtioNet/Driven,
--              VirtioNet/Stream and VirtioNet/InOrder: the transmit thread on the ring of Virtq/Protocol;
--              VirtioNet/Arrived, VirtioNet/Arrival and VirtioNet/Delivered: the receive thread on it
--   VirtioBlk  src/virtio-blk.c and src/diskimg.c: requests; VirtioBlk/Setup:
--              initialisation; VirtioBlk/Threads: the two threads
--   Vm         src/vm.c: guest addresses and port accesses; Vm/Setup: creation and loads, over the
--              interfaces of the architecture and of the system calls; Vm/Run: `vm_run`;
--              Vm/Platform: devices on the buses; Vm/Handlers: the functions behind `do_io`
--   Main       src/main.c: options; Main/Program: `main`; Main/Terminal: `set_input_mode`
--   Initrd     src/arch/x86/vm.c: `vm_arch_load_initrd`
--   Arm64      src/arch/arm64: Arm64/Setup: interrupt controller and vCPU; Arm64/Load: images;
--              Arm64/Fdt: the device tree; Arm64/Boot: registers; Arm64/Platform: its devices and the
--              bridge to the ports; Arm64/Architecture: all of it as the interface of Vm/Setup
--   X86        src/arch/x86 likewise: X86/Setup, X86/Load, X86/Platform and X86/Architecture;
--              X86/Ports: the map of the ports
--   Common/Effects has the effects that may fail, and Common/Poll what `poll` gives.
-- A function keeps its C name, those of src/virtio-pci.c, src/virtio-net.c and src/virtio-blk.c mostly without the
-- file's prefix. One that changes `*s` returns the new state; a pointer that may be
-- NULL is an option or the address 0; `uint8_t` to `uint64_t` are numbers with the wrap-around
-- written out. Constants of Linux headers have the values of the kernel's user-space interface.
--
-- Fuel: `bus_find_dev` and `bus_deregister_dev` walk a linked list on fuel. The list is no longer than
-- `dev_num`, which is never decremented, so `dev_num + 1` rounds are enough; Bus/Cycle shows when the
-- C loop does not end. The search of `vm_arch_load_initrd` gets 4097 rounds, since its address starts
-- below 2^32 and drops by 2^20 a round. The block device's loop goes on as long as the guest's ring
-- has descriptors, so that its fuel bounds the requests of one call. A call of a handler in Vm/Handlers
-- gets a depth: the longest chain of nested lookups of the code is bridge, port, device. The run of the vCPU recurs on the
-- list of its exits. All other loops recur on their rounds or their input.
--
-- Not modelled: what system calls, KVM ioctls and libfdt do (their results are parameters: poll and
-- read of the terminal a list of inputs, the file of a disk image the record `File`, the calls of
-- the machines the records `Sys` and `Kvm`), what is printed, thread creation, the interleaving of the
-- device threads with the guest, and the order of a thread's unlocked register reads (each handler is
-- one step). An x86 kernel image shorter than its setup part, whose load C leaves undefined, is an
-- error. The handlers behind a bus are a parameter of `vm_run` and `main`, which Vm/Handlers fills with
-- those of the code; the calls through a queue's `ops` stay parameters there. An
-- exit with a count above 1 gives each of its accesses there the data of the exit; what an access
-- leaves in the shared data for the next one is not modelled.
-- A `read` at the end of the terminal's input leaves the byte indeterminate: it is then any `byte`.
-- An access out of range of an array reads 0 and drops writes, where C leaves it undefined; in
-- VirtioPci an access that leaves its object, and in VirtioNet a null pointer, gives `none`.
pub mod Common
pub mod Fifo
pub mod Serial
pub mod Bus
pub mod Virtq
pub mod Pci
pub mod VirtioPci
pub mod Vm
pub mod VirtioQueue
pub mod VirtioNet
pub mod VirtioBlk
pub mod Initrd
pub mod Arm64
pub mod Main
pub mod X86
