-- ===== src/Mouse.antt =====
-- src/drivers/mouse.c: the interrupt handler, which puts three bytes together to a packet. The
-- start-up of the device is port I/O and is not modelled, nor is the text printed at every fiftieth
-- packet.
pub mod Packets
use learning_os_project.Common.{
  ℕ, zero, suc, ◌+◌, ◌-◌, ◌%◌, ◌^◌, Bool, true, false, not, ◌&&◌, ◌||◌, List, [], ◌∷◌, ltb, leb,
  ◌==◌, if◌then◌else◌, get_or, set,
}
use learning_os_project.Common.Bits.{bit}
use learning_os_project.Input.{Input, input_push_mouse}

-- The static variables, and the queue that the handler feeds. The bytes are kept as 0 to 255.
pub record Mouse : Type 0 where
  pub mouse_cycle : ℕ
  pub mouse_bytes : List ℕ
  pub packet_count : ℕ
  pub events : Input

-- The third byte is in.
unfoldable pub finish : List ℕ → Mouse → Mouse
finish bytes m = record m {
  mouse_bytes = bytes;
  mouse_cycle = 0;
  packet_count = (m.packet_count + 1) % 2 ^ 32;
  events = input_push_mouse m.events (get_or bytes 1 0) (get_or bytes 2 0) (get_or bytes 0 0 % 8);
}

-- `status` and `byte` are what the two ports give.
unfoldable pub mouse_handler : Mouse → ℕ → ℕ → Mouse
mouse_handler m status byte =
    if bit status 0 == 0
    then m
    else if m.mouse_cycle == 0
    then (if bit byte 3 == 0
        then m
        else record m { mouse_bytes = set m.mouse_bytes 0 byte; mouse_cycle = 1 })
    else if m.mouse_cycle == 1
    then record m { mouse_bytes = set m.mouse_bytes 1 byte; mouse_cycle = 2 }
    else if m.mouse_cycle == 2
    then finish (set m.mouse_bytes 2 byte) m
    else m
