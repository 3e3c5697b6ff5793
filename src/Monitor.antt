-- ===== src/Monitor.antt =====
-- src/lib/monitor.c: the text screen. The video memory is a list of cells, a character with its
-- attribute in one word each; `hardware_cursor` is what the cursor's ports were told last, and
-- `serial_out` the bytes put on the serial line, oldest first.
pub mod Screen
use Prim.Native.Nat.{bit_or}
use learning_os_project.Common.{
  ℕ, zero, suc, ◌+◌, ◌-◌, ◌*◌, ◌/◌, ◌%◌, ◌^◌, Bool, true, false, ◌&&◌, List, [], ◌∷◌, ◌++◌, ltb,
  leb, ◌==◌, if◌then◌else◌, set, take, drop, replicate,
}

abbrev pub columns : ℕ
columns = 80

abbrev pub rows : ℕ
rows = 25

pub record Monitor : Type 0 where
  pub video_memory : List ℕ
  pub cursor_x : ℕ
  pub cursor_y : ℕ
  pub serial_enabled : Bool
  pub serial_out : List ℕ
  pub hardware_cursor : ℕ

unfoldable pub monitor_enable_serial : Monitor → Bool → Monitor
monitor_enable_serial m enable = record m { serial_enabled = enable }

unfoldable pub update_cursor : Monitor → Monitor
update_cursor m = record m { hardware_cursor = (m.cursor_y * columns + m.cursor_x) % 2 ^ 16 }

-- A space on black in white.
abbrev pub blank : ℕ
blank = 0x0F20

unfoldable pub scroll : Monitor → Monitor
scroll m =
    if leb rows m.cursor_y
    then record m {
      video_memory =
          take ((rows - 1) * columns) (drop columns m.video_memory) ++ replicate columns blank;
      cursor_y = rows - 1;
    }
    else m

-- `*location = c | attribute`, where the cursor is.
unfoldable pub put_cell : Monitor → ℕ → Monitor
put_cell m c = record m {
  video_memory = set m.video_memory (m.cursor_y * columns + m.cursor_x) (bit_or c 0x0F00);
}

-- The loop of a tab, for the columns that are left up to `next_tab`.
unfoldable pub put_spaces : ℕ → Monitor → Monitor
put_spaces zero m = m
put_spaces (suc n) m = put_spaces n (record (put_cell m 32) { cursor_x = (m.cursor_x + 1) % 2 ^ 8 })

unfoldable pub newline : Monitor → Monitor
newline m = record m { cursor_x = 0; cursor_y = (m.cursor_y + 1) % 2 ^ 8 }

-- The column after a tab: `(cursor_x + 4) & ~3`.
abbrev pub next_tab : ℕ → ℕ
next_tab x = (x + 4) / 4 * 4

-- The cursor one place back.
unfoldable pub step_back : Monitor → Monitor
step_back m =
    if ltb 0 m.cursor_x
    then record m { cursor_x = m.cursor_x - 1 }
    else if ltb 0 m.cursor_y
    then record m { cursor_y = m.cursor_y - 1; cursor_x = columns - 1 }
    else m

-- The character's own branch. A char is signed: a byte of 128 or more is not `>= ' '`.
unfoldable pub put_char : Monitor → ℕ → Monitor
put_char m c =
    if c == 10
    then newline m
    else if c == 9
    then put_spaces (next_tab m.cursor_x - m.cursor_x) m
    else if c == 8
    then put_cell (step_back m) 32
    else if leb 32 c && ltb c 128
    then record (put_cell m c) { cursor_x = (m.cursor_x + 1) % 2 ^ 8 }
    else m

unfoldable pub to_serial : Monitor → ℕ → Monitor
to_serial m c = if m.serial_enabled then record m { serial_out = m.serial_out ++ c ∷ [] } else m

unfoldable pub wrap_line : Monitor → Monitor
wrap_line m = if leb columns m.cursor_x then newline m else m

unfoldable pub monitor_put : Monitor → ℕ → Monitor
monitor_put m c = update_cursor (scroll (wrap_line (put_char (to_serial m c) c)))

-- The characters of a text; it ends at its first 0 or where the list does.
unfoldable pub monitor_write : Monitor → List ℕ → Monitor
monitor_write m [] = m
monitor_write m (c ∷ text) = if c == 0 then m else monitor_write (monitor_put m c) text
