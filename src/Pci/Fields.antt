-- ===== src/Pci/Fields.antt =====
-- `union pci_config_address` of src/pci.h: the bit fields of the address port, against the arithmetic on
-- its value in src/pci.c. GCC lays the fields out from the lowest bit up.
use kvm_host.Common.{
  ℕ, ◌+◌, ◌-◌, ◌*◌, ◌/◌, ◌%◌, ◌^◌, ◌<◌, ◌≡◌, refl, Bool, true, false, List, if◌then◌else◌, ◌==◌,
  arith,
}
use kvm_host.Common.Bytes.{write_bytes, le_value, le_bytes}
use kvm_host.Pci.Ports.{Pci, pci_address_io, clear_reg_offset, enabled}
use kvm_host.Pci.Setup.{config_address}

pub record PciConfigAddress : Type 0 where
  pub reg_offset : ℕ
  pub reg_num : ℕ
  pub func_num : ℕ
  pub dev_num : ℕ
  pub bus_num : ℕ
  pub reserved : ℕ
  pub enable_bit : ℕ

-- the fields of a `uint32_t`, and its value
abbrev pub fields : ℕ → PciConfigAddress
fields value = record {
  reg_offset = value % 4;
  reg_num = value / 2 ^ 2 % 64;
  func_num = value / 2 ^ 8 % 8;
  dev_num = value / 2 ^ 11 % 32;
  bus_num = value / 2 ^ 16 % 256;
  reserved = value / 2 ^ 24 % 128;
  enable_bit = value / 2 ^ 31 % 2;
}

abbrev pub value_of : PciConfigAddress → ℕ
value_of a =
    a.reg_offset
    + a.reg_num * 2 ^ 2
    + a.func_num * 2 ^ 8
    + a.dev_num * 2 ^ 11
    + a.bus_num * 2 ^ 16
    + a.reserved * 2 ^ 24
    + a.enable_bit * 2 ^ 31

pub value_of-fields : (value : ℕ) → value < 2 ^ 32 → value_of (fields value) ≡ value
value_of-fields value small = omega arith

pub fields-clear_reg_offset :
    (value : ℕ) → fields (clear_reg_offset value) ≡ record (fields value) { reg_offset = 0 }
fields-clear_reg_offset value =
    let o : (value - value % 4) % 4 ≡ 0 = omega arith in
    let r : (value - value % 4) / 2 ^ 2 % 64 ≡ value / 2 ^ 2 % 64 = omega arith in
    let f : (value - value % 4) / 2 ^ 8 % 8 ≡ value / 2 ^ 8 % 8 = omega arith in
    let d : (value - value % 4) / 2 ^ 11 % 32 ≡ value / 2 ^ 11 % 32 = omega arith in
    let b : (value - value % 4) / 2 ^ 16 % 256 ≡ value / 2 ^ 16 % 256 = omega arith in
    let s : (value - value % 4) / 2 ^ 24 % 128 ≡ value / 2 ^ 24 % 128 = omega arith in
    let e : (value - value % 4) / 2 ^ 31 % 2 ≡ value / 2 ^ 31 % 2 = omega arith in
    rw (o, r, f, d, b, s, e) refl

-- the initialiser `{.dev_num = ...}`
pub config_address-value_of :
    (n : ℕ) → config_address n ≡ value_of (record (fields 0) { dev_num = n % 32 })
config_address-value_of n = omega arith

pub enabled-fields : (value : ℕ) → enabled value ≡ ((fields value).enable_bit == 1)
enabled-fields value = refl

-- what the bytes of an access make of the register
abbrev pub stored : Pci → List ℕ → Bool → ℕ → ℕ
stored pci bytes is_write offset =
    if is_write then le_value (write_bytes (le_bytes 4 pci.pci_addr) offset bytes) else pci.pci_addr

-- After any access to the address port the fields of the register are those of the bytes that the
-- guest stored, or, after a read, those it had, but for the offset in the register, which is 0.
pub pci_address_io-fields :
    (pci : Pci) (bytes : List ℕ) (is_write : Bool) (offset size : ℕ)
    → fields (pci_address_io pci bytes is_write offset size).0.pci_addr
      ≡ record (fields (stored pci bytes is_write offset)) { reg_offset = 0 }
unfolding pci_address_io
pci_address_io-fields pci bytes true offset size =
    fields-clear_reg_offset (le_value (write_bytes (le_bytes 4 pci.pci_addr) offset bytes))
pci_address_io-fields pci bytes false offset size = fields-clear_reg_offset pci.pci_addr
