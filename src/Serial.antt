-- ===== src/Serial.antt =====
-- The 16550 UART of src/serial.c: `struct serial_dev_priv`, the interrupt line, and the guest's
-- accesses to the eight ports. A void handler returns the new state. The register numbers and bits
-- are those of <linux/serial_reg.h>.
pub mod Console
pub mod Inv
pub mod Registers
pub mod Stream
pub mod Worker
mod Tests
use kvm_host.Common.{
  ℕ, ◌-◌, ◌/◌, ◌%◌, bit_and, bit_or, Bool, true, false, not, ◌&&◌, Option, none, some, List, [],
  ◌∷◌, ◌++◌, truthy, ◌==◌, if◌then◌else◌,
}
use kvm_host.Fifo.{Fifo, fifo_zero, fifo_len, fifo_get, fifo_is_empty, fifo_capacity}

abbrev pub uart_iir_no_int : ℕ
uart_iir_no_int = 0x01

abbrev pub uart_iir_thri : ℕ
uart_iir_thri = 0x02

abbrev pub uart_iir_rdi : ℕ
uart_iir_rdi = 0x04

abbrev pub uart_ier_rdi : ℕ
uart_ier_rdi = 0x01

abbrev pub uart_ier_thri : ℕ
uart_ier_thri = 0x02

abbrev pub uart_lcr_dlab : ℕ
uart_lcr_dlab = 0x80

abbrev pub uart_lsr_dr : ℕ
uart_lsr_dr = 0x01

abbrev pub uart_lsr_thre : ℕ
uart_lsr_thre = 0x20

abbrev pub uart_lsr_temt : ℕ
uart_lsr_temt = 0x40

-- `serial_dev_priv` with what the handlers change outside it: `escaped` is the static variable of
-- `serial_console`, `irq_level` the level last given to `vm_irq_line`, and `sent` the bytes given
-- to `putchar`. The registers are `uint8_t`.
pub record Serial : Type 0 where
  pub dll : ℕ
  pub dlm : ℕ
  pub iir : ℕ
  pub ier : ℕ
  pub fcr : ℕ
  pub lcr : ℕ
  pub mcr : ℕ
  pub lsr : ℕ
  pub msr : ℕ
  pub scr : ℕ
  pub rx_buf : Fifo
  pub escaped : Bool
  pub irq_level : ℕ
  pub sent : List ℕ

abbrev pub serial_dev_priv : Serial
serial_dev_priv = record {
  dll = 0;
  dlm = 0;
  iir = uart_iir_no_int;
  ier = 0;
  fcr = 0;
  lcr = 0;
  mcr = 0x08;
  lsr = bit_or uart_lsr_temt uart_lsr_thre;
  msr = bit_or (bit_or 0x80 0x20) 0x10;
  scr = 0;
  rx_buf = fifo_zero;
  escaped = false;
  irq_level = 0;
  sent = [];
}

-- the interrupt that `serial_update_irq` finds pending
unfoldable pub pending_iir : ℕ → ℕ → ℕ
pending_iir ier lsr =
    if truthy (bit_and ier uart_ier_rdi) && truthy (bit_and lsr uart_lsr_dr)
    then uart_iir_rdi
    else if truthy (bit_and ier uart_ier_thri) && truthy (bit_and lsr uart_lsr_temt)
    then uart_iir_thri
    else uart_iir_no_int

unfoldable pub serial_update_irq : Serial → Serial
serial_update_irq s =
    let iir = pending_iir s.ier s.lsr in
    record s { iir = bit_or iir 0xc0; irq_level = if iir == uart_iir_no_int then 0 else 1 }

-- `IO_READ8`: the first byte of the access. What a read stores into `data` is an option, `none`
-- where the handler leaves `data` alone. The Boolean is whether `cond` is signalled.
abbrev pub Access : Type 0
Access = Serial × Option ℕ × Bool

-- `case UART_RX` outside the divisor latch, under the lock
unfoldable pub serial_receive : Serial → Access
serial_receive s =
    let (rx, value) = fifo_get s.rx_buf in
    let s' = record s { rx_buf = rx } in
    let drained = fifo_is_empty rx in
    let s'' =
      if drained
      then serial_update_irq (record s' { lsr = bit_and s'.lsr (0xff - uart_lsr_dr) })
      else s' in
    (s'', value, fifo_capacity rx == fifo_len / 2)

unfoldable pub serial_in : Serial → ℕ → Access
unfolding serial_receive
serial_in s offset =
    if offset == 0
    then (if truthy (bit_and s.lcr uart_lcr_dlab) then (s, some s.dll, false) else serial_receive s)
    else if offset == 1
    then (s, (if truthy (bit_and s.lcr uart_lcr_dlab) then some s.dlm else some s.ier), false)
    else if offset == 2
    then (s, some (bit_or s.iir 0xc0), false)
    else if offset == 3
    then (s, some s.lcr, false)
    else if offset == 4
    then (s, some s.mcr, false)
    else if offset == 5
    then (s, some s.lsr, false)
    else if offset == 6
    then (s, some s.msr, false)
    else if offset == 7
    then (s, some s.scr, false)
    else (s, none, false)

-- `case UART_TX` outside the divisor latch: the byte goes out at once
unfoldable pub serial_transmit : Serial → ℕ → Serial
serial_transmit s value = serial_update_irq (record s {
  lsr = bit_or s.lsr (bit_or uart_lsr_temt uart_lsr_thre);
  sent = s.sent ++ value ∷ [];
})

unfoldable pub serial_out : Serial → ℕ → ℕ → Serial
unfolding serial_transmit
serial_out s offset value =
    if offset == 0
    then (if truthy (bit_and s.lcr uart_lcr_dlab)
        then record s { dll = value }
        else serial_transmit s value)
    else if offset == 1
    then (if not (truthy (bit_and s.lcr uart_lcr_dlab))
        then serial_update_irq (record s { ier = value })
        else record s { dlm = value })
    else if offset == 2
    then record s { fcr = value }
    else if offset == 3
    then record s { lcr = value }
    else if offset == 4
    then record s { mcr = value }
    else if offset == 7
    then record s { scr = value }
    else s

-- `uint16_t offset` of the two handlers drops the high bits; `value` is the first byte of `data`.
unfoldable pub serial_handle_io : Serial → ℕ → Bool → ℕ → Access
serial_handle_io s value is_write offset =
    if is_write
    then (serial_out s (offset % 65536) value, none, false)
    else serial_in s (offset % 65536)
