-- ===== src/Ports.antt =====
-- Port I/O, and the drivers that do little else: src/drivers/pic.c, src/drivers/pit.c,
-- src/drivers/serial.c, and the set-up of src/drivers/timer.c. What the hardware answers is a
-- parameter.
use Prim.Native.Nat.{bit_and}
use learning_os_project.Common.{
  ℕ, zero, suc, ◌/◌, ◌%◌, Bool, true, false, not, Option, none, some, List, [], ◌∷◌, leb, ◌==◌,
  if◌then◌else◌,
}
use learning_os_project.Common.Int.{ℤ, pos, negsuc}
use learning_os_project.Irq.{Handlers, register_irq_handler}
use learning_os_project.KbdBuffer.{KbdBuffer, kbd_buffer_push}
use learning_os_project.Input.{Input, input_push_key}

-- `inb`, `inw`, `outb` and `outw` on hardware in a state of type `H`.
pub record Ports (H : Type 0) : Type 0 where
  pub inb : H → ℕ → ℕ × H
  pub inw : H → ℕ → ℕ × H
  pub outb : H → ℕ → ℕ → H
  pub outw : H → ℕ → ℕ → H

module _ {H : Type 0} (ports : Ports H) where
  -- A sequence of `outb(port, value)`.
  unfoldable pub outs : H → List (ℕ × ℕ) → H
  outs h [] = h
  outs h ((port, value) ∷ rest) = outs (ports.outb h port value) rest

  unfoldable pub pic_init : H → H
  unfolding outs
  pic_init h = outs h (
      (0x20, 0x11)
      ∷ (0xA0, 0x11)
      ∷ (0x21, 0x20)
      ∷ (0xA1, 0x28)
      ∷ (0x21, 0x04)
      ∷ (0xA1, 0x02)
      ∷ (0x21, 0x01)
      ∷ (0xA1, 0x01)
      ∷ (0x21, 0x00)
      ∷ (0xA1, 0x00)
      ∷ [])

  unfoldable pub pic_send_eoi : H → ℕ → H
  pic_send_eoi h int_no =
      let h' = if leb 40 int_no then ports.outb h 0xA0 0x20 else h in ports.outb h' 0x20 0x20

  -- `none`: the division by a frequency of 0 traps.
  unfoldable pub pit_init : H → ℕ → Option H
  unfolding outs
  pit_init h frequency =
      let divisor = 1193180 / frequency in
      if frequency == 0
      then none
      else some (outs h ((0x43, 0x36) ∷ (0x40, divisor % 256) ∷ (0x40, divisor / 256 % 256) ∷ []))

  unfoldable pub serial_is_transmit_empty : H → Bool × H
  serial_is_transmit_empty h =
      let (status, h') = ports.inb h 0x3FD in (not (bit_and status 0x20 == 0), h')

  unfoldable pub serial_received : H → Bool × H
  serial_received h = let (status, h') = ports.inb h 0x3FD in (not (bit_and status 0x01 == 0), h')

  unfoldable pub serial_init : H → H
  unfolding outs
  serial_init h = outs h (
      (0x3F9, 0x00)
      ∷ (0x3FB, 0x80)
      ∷ (0x3F8, 0x03)
      ∷ (0x3F9, 0x00)
      ∷ (0x3FB, 0x03)
      ∷ (0x3FA, 0xC7)
      ∷ (0x3FC, 0x0B)
      ∷ [])

  -- `none`: the transmitter is not empty after `fuel` looks, and the loop goes on.
  unfoldable pub serial_write_char : ℕ → H → ℕ → Option H
  unfolding serial_is_transmit_empty
  serial_write_char zero h c = none
  serial_write_char (suc fuel) h c =
      let (empty, h') = serial_is_transmit_empty h in
      elim empty [ true ↦ some (ports.outb h' 0x3F8 c) | false ↦ serial_write_char fuel h' c ]

  -- A line feed is sent behind a carriage return.
  unfoldable pub serial_write : ℕ → H → List ℕ → Option H
  unfolding serial_write_char
  serial_write fuel h [] = some h
  serial_write fuel h (c ∷ s) = elim (if c == 10 then serial_write_char fuel h 13 else some h) [
    | none ↦ none
    | some h1 ↦ elim (serial_write_char fuel h1 c) [
      | none ↦ none
      | some h2 ↦ serial_write fuel h2 s
    ]
  ]

  unfoldable pub serial_read_char : H → ℤ × H
  unfolding serial_received
  serial_read_char h =
      let (received, h1) = serial_received h in
      if not received then (negsuc 0, h1) else (let (c, h2) = ports.inb h1 0x3F8 in (pos c, h2))

  -- The loop of `serial_irq_handler`. `none`: it goes on behind `fuel` bytes.
  unfoldable pub serial_irq_handler : ℕ → H → KbdBuffer → Input → Option (H × KbdBuffer × Input)
  unfolding serial_received
  serial_irq_handler zero h k s = none
  serial_irq_handler (suc fuel) h k s =
      let (received, h1) = serial_received h in
      elim received [
        | false ↦ some (h1, k, s)
        | true ↦
            let (c, h2) = ports.inb h1 0x3F8 in
            elim (c == 0) [
              | true ↦ serial_irq_handler fuel h2 k s
              | false ↦ serial_irq_handler fuel h2 (kbd_buffer_push k c) (input_push_key s c)
            ]
      ]

  -- `handler` is the address of `serial_irq_handler`.
  unfoldable pub serial_enable_rx_interrupts : H → Handlers → ℕ → H × Handlers
  unfolding outs
  serial_enable_rx_interrupts h handlers handler =
      (outs h ((0x3F9, 0x01) ∷ (0x3FC, 0x0B) ∷ []), register_irq_handler handlers 4 (some handler))

  -- `handler` is the address of `timer_handler`.
  unfoldable pub timer_init : H → Handlers → ℕ → ℕ → Option (H × Handlers)
  unfolding pit_init
  timer_init h handlers frequency handler = elim (pit_init h frequency) [
    | none ↦ none
    | some h' ↦ some (h', register_irq_handler handlers 0 (some handler))
  ]
