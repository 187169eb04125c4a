-- ===== src/Serial/Registers.antt =====
-- The register file that the guest sees through `serial_out` and `serial_in` of src/serial.c.
use kvm_host.Common.{ℕ, ◌≡◌, ◌≢◌, Bool, true, ◌⊎◌, Option, some, bit_and, truthy, arith}
use kvm_host.Serial.{Serial, uart_lcr_dlab, serial_update_irq, serial_in, serial_out}

-- the divisor latch access bit
abbrev pub dlab : Serial → Bool
dlab s = truthy (bit_and s.lcr uart_lcr_dlab)

-- what a guest read returns
abbrev pub read : Serial → ℕ → Option ℕ
read s offset = (serial_in s offset).1

-- The ports whose last written byte the guest reads back: IER or DLM, LCR, MCR, SCR, and DLL while
-- the latch is open.
abbrev pub IsStored : Serial → ℕ → Type 0
IsStored s offset =
    (offset ≡ 1)
    ⊎ ((offset ≡ 3) ⊎ ((offset ≡ 4) ⊎ ((offset ≡ 7) ⊎ ((offset ≡ 0) × (dlab s ≡ true)))))

-- A byte written to a stored register is read back from the same port.
pub read-serial_out_self :
    (s : Serial) (offset value : ℕ)
    → IsStored s offset
    → read (serial_out s offset value) offset ≡ some value
unfolding serial_in serial_out serial_update_irq
read-serial_out_self s offset value h = ground arith

-- A write to any port but LCR leaves what the guest reads from every other stored register.
pub read-serial_out_ne :
    (s : Serial) (offset value other : ℕ)
    → offset ≢ 3
    → other ≢ offset
    → IsStored s other
    → read (serial_out s offset value) other ≡ read s other
unfolding serial_in serial_out serial_update_irq
read-serial_out_ne s offset value other latch ne h = ground arith

-- `serial_out` never touches the receive ring, whichever the port.
pub rx_buf-serial_out :
    (s : Serial) (offset value : ℕ) → (serial_out s offset value).rx_buf ≡ s.rx_buf
unfolding serial_out serial_update_irq
rx_buf-serial_out s offset value = ground arith
