-- ===== src/VirtioPci.antt =====
-- The virtio transport over PCI of src/virtio-pci.c: the window of BAR 0, through which the driver
-- reads and writes the common configuration, the interrupt status and the device configuration.
-- Offsets are those of <linux/virtio_pci.h>.
--
-- `config` holds the 64 bytes of `struct virtio_pci_config` in front of the pointer `dev_cfg`, and
-- `dev_cfg` what that pointer points to. The device behind the queues has a state `W` of its own.
-- `none` is a call that C leaves undefined: an access that leaves its object.
pub mod Setup
pub mod Caps
pub mod Features
pub mod Window
mod Tests
use kvm_host.Common.{
  ℕ, ◌+◌, ◌-◌, ◌*◌, ◌/◌, ◌^◌, bit_or, Bool, true, false, ◌&&◌, Option, none, some, List, [], ◌∷◌,
  ◌++◌, ◌==◌, ltb, leb, truthy, if◌then◌else◌, length, get_elem?, set, ◌>>=◌,
}
use kvm_host.Common.Bytes.{Memory, read_bytes, write_bytes, le_bytes, load_le, store_le}
use kvm_host.Virtq.{Virtq, VirtqInfo, VirtqOps, virtq_enable, virtq_handle_avail}
use kvm_host.Pci.{PciDev}

abbrev pub common_dfselect : ℕ
common_dfselect = 0

abbrev pub common_df : ℕ
common_df = 4

abbrev pub common_gfselect : ℕ
common_gfselect = 8

abbrev pub common_gf : ℕ
common_gf = 12

abbrev pub common_numq : ℕ
common_numq = 18

abbrev pub common_status : ℕ
common_status = 20

abbrev pub common_q_select : ℕ
common_q_select = 22

abbrev pub common_q_size : ℕ
common_q_size = 24

abbrev pub common_q_enable : ℕ
common_q_enable = 28

abbrev pub common_q_usedhi : ℕ
common_q_usedhi = 52

-- `offsetof(struct virtio_pci_config, isr_cap)`, `notify_data` and `dev_cfg`
abbrev pub isr_offset : ℕ
isr_offset = 56

abbrev pub notify_offset : ℕ
notify_offset = 60

abbrev pub dev_cfg_offset : ℕ
dev_cfg_offset = 64

-- `sizeof(struct virtq_info)`
abbrev pub info_size : ℕ
info_size = 32

-- `struct virtio_pci_dev`. The two capability pointers are offsets in the configuration space.
pub record VirtioPciDev : Type 0 where
  pub pci_dev : PciDev
  pub config : Memory
  pub dev_cfg : Memory
  pub device_feature : ℕ
  pub guest_feature : ℕ
  pub notify_cap : ℕ
  pub dev_cfg_cap : ℕ
  pub vq : List Virtq

-- the packed `struct virtq_info` as the bytes that `memcpy` sees
abbrev pub info_bytes : VirtqInfo → List ℕ
info_bytes i =
    le_bytes 2 i.size
    ++ (le_bytes 2 i.msix_vector
        ++ (le_bytes 2 i.enable
            ++ (le_bytes 2 i.notify_off
                ++ (le_bytes 8 i.desc_addr
                    ++ (le_bytes 8 i.device_addr ++ le_bytes 8 i.driver_addr)))))

abbrev pub info_of_bytes : Memory → VirtqInfo
info_of_bytes m = record {
  size = load_le m 0 2;
  msix_vector = load_le m 2 2;
  enable = load_le m 4 2;
  notify_off = load_le m 6 2;
  desc_addr = load_le m 8 8;
  device_addr = load_le m 16 8;
  driver_addr = load_le m 24 8;
}

-- a `uint32_t` is stored, so that the upper half of `feature` is dropped
unfoldable pub select_device_feature : VirtioPciDev → VirtioPciDev
select_device_feature dev =
    let select = load_le dev.config common_dfselect 4 in
    let value =
      if select == 0
      then dev.device_feature
      else if select == 1
      then dev.device_feature / 2 ^ 32
      else 0 in
    record dev { config = store_le dev.config common_df 4 value }

unfoldable pub write_guest_feature : VirtioPciDev → VirtioPciDev
write_guest_feature dev =
    let select = load_le dev.config common_gfselect 4 in
    let feature = load_le dev.config common_gf 4 in
    if select == 0
    then record dev { guest_feature = bit_or dev.guest_feature feature }
    else if select == 1
    then record dev { guest_feature = bit_or dev.guest_feature (feature * 2 ^ 32) }
    else dev

-- `virtio_pci_write_status`: the reset that it calls is empty
unfoldable pub write_status : VirtioPciDev → VirtioPciDev
write_status dev = dev

abbrev pub queue_select : VirtioPciDev → ℕ
queue_select dev = load_le dev.config common_q_select 2

unfoldable pub select_virtq : VirtioPciDev → Option VirtioPciDev
select_virtq dev =
    if ltb (queue_select dev) (load_le dev.config common_numq 2)
    then (do
      vq ← get_elem? dev.vq (queue_select dev)
      some (record dev { config = write_bytes dev.config common_q_size (info_bytes vq.info) }))
    else some (record dev { config = store_le dev.config common_q_size 2 0 })

-- `memcpy(&dev->vq[select].info + info_offset, data, size)`
unfoldable pub write_info : VirtioPciDev → ℕ → List ℕ → Option VirtioPciDev
write_info dev info_offset bytes = do
  vq ← get_elem? dev.vq (queue_select dev)
  if leb (info_offset + length bytes) info_size
      then some (record dev {
        vq = set dev.vq (queue_select dev) (record vq {
          info = info_of_bytes (write_bytes (info_bytes vq.info) info_offset bytes);
        });
      })
      else none

module _ {W : Type 0} where
  -- the `enable` field of queue `i`
  abbrev pub queue_enable : ℕ → VirtioPciDev × W → ℕ
  queue_enable i (dev, w) = elim (get_elem? dev.vq i) [ none ↦ 0 | some vq ↦ vq.info.enable ]

  -- `ops i` are the calls through `dev->vq[i].ops`, and `event_flags i` reads
  -- `dev->vq[i].guest_event->flags`
  module _ (ops : ℕ → VirtqOps (VirtioPciDev × W)) (event_flags : ℕ → VirtioPciDev × W → ℕ) where
    -- `virtio_pci_enable_virtq`, and `virtq_disable` does nothing
    unfoldable pub enable_virtq : VirtioPciDev × W → Option (VirtioPciDev × W)
    enable_virtq (dev, w) = do
      vq ← get_elem? dev.vq (queue_select dev)
      virtq_enable (ops (queue_select dev)) (dev, w)

    -- the write of the notification register
    unfoldable pub notify : VirtioPciDev × W → Option (VirtioPciDev × W)
    notify (dev, w) =
        let vqn = load_le dev.config notify_offset 2 in
        (do
          vq ← get_elem? dev.vq vqn
          virtq_handle_avail (ops vqn) (queue_enable vqn) (event_flags vqn) (dev, w))

    -- what follows the `memcpy` into `dev->config`
    unfoldable pub after_write : VirtioPciDev × W → List ℕ → ℕ → Option (VirtioPciDev × W)
    after_write (dev, w) bytes offset =
        if offset == common_dfselect
        then some (select_device_feature dev, w)
        else if offset == common_gfselect
        then some (write_guest_feature dev, w)
        else if offset == common_status
        then some (write_status dev, w)
        else if offset == common_q_select
        then (do dev' ← select_virtq dev; some (dev', w))
        else if offset == common_q_enable
        then (if truthy (load_le dev.config common_q_enable 2)
            then enable_virtq (dev, w)
            else some (dev, w))
        else if leb common_q_size offset && leb offset common_q_usedhi
        then (if ltb (queue_select dev) (load_le dev.config common_numq 2)
            then (do dev' ← write_info dev (offset - common_q_size) bytes; some (dev', w))
            else some (dev, w))
        else if offset == notify_offset
        then notify (dev, w)
        else some (dev, w)

    unfoldable pub space_write : VirtioPciDev × W → List ℕ → ℕ → Option (VirtioPciDev × W)
    space_write (dev, w) bytes offset =
        if ltb offset dev_cfg_offset
        then (if leb (offset + length bytes) dev_cfg_offset
            then after_write (record dev { config = write_bytes dev.config offset bytes }, w) bytes
                offset
            else none)
        else if leb (offset - dev_cfg_offset + length bytes) (length dev.dev_cfg)
        then some
            (record dev { dev_cfg = write_bytes dev.dev_cfg (offset - dev_cfg_offset) bytes }, w)
        else none

-- the device after the read, and the bytes that were read
unfoldable pub space_read : VirtioPciDev → ℕ → ℕ → Option (VirtioPciDev × List ℕ)
space_read dev offset size =
    if ltb offset dev_cfg_offset
    then (if leb (offset + size) dev_cfg_offset
        then some (
          if offset == isr_offset
              then record dev { config = store_le dev.config isr_offset 4 0 }
              else dev,
          read_bytes dev.config offset size,
        )
        else none)
    else if leb (offset - dev_cfg_offset + size) (length dev.dev_cfg)
    then some (dev, read_bytes dev.dev_cfg (offset - dev_cfg_offset) size)
    else none

-- the handler of the window; `bytes` is what `data` points to, before the call and after it
unfoldable pub virtio_pci_space_io :
    {W : Type 0} (ops : ℕ → VirtqOps (VirtioPciDev × W)) (event_flags : ℕ → VirtioPciDev × W → ℕ)
    → VirtioPciDev × W
    → List ℕ
    → Bool
    → ℕ
    → Option ((VirtioPciDev × W) × List ℕ)
unfolding space_write space_read
virtio_pci_space_io ops event_flags (dev, w) bytes is_write offset =
    if is_write
    then (do s' ← space_write ops event_flags (dev, w) bytes offset; some (s', bytes))
    else (do (dev', out) ← space_read dev offset (length bytes); some ((dev', w), out))
