-- ===== src/Keyboard.antt =====
-- src/drivers/keyboard.c: the interrupt handler, and reading with echo on the monitor. The table of
-- characters is indexed by scan code.
pub mod Line
pub mod Layout
use mathlib.Core.Option
use learning_os_project.Common.{
  ℕ, zero, suc, ◌+◌, ◌-◌, ◌%◌, ◌^◌, Bool, true, false, not, ◌&&◌, ◌||◌, Option, none, some, List,
  [], ◌∷◌, ◌++◌, drop, ltb, leb, ◌==◌, if◌then◌else◌, get_or, length,
}
use learning_os_project.Kprintf.{backwards}
use learning_os_project.Common.Int.{ℤ, pos, negsuc, is_neg}
use learning_os_project.KbdBuffer.{KbdBuffer, kbd_buffer_push, kbd_buffer_pop}
use learning_os_project.Input.{Input, input_push_key}

-- The unshifted table, up to its last entry that is not 0.
abbrev pub kbdus : List ℕ
kbdus =
    0 ∷ 27 ∷ 49 ∷ 50 ∷ 51 ∷ 52 ∷ 53 ∷ 54 ∷ 55 ∷ 56 ∷ 57 ∷ 48 ∷ 45 ∷ 61 ∷ 8 ∷ 9 ∷ 113 ∷ 119 ∷ 101
    ∷ 114 ∷ 116 ∷ 121 ∷ 117 ∷ 105 ∷ 111 ∷ 112 ∷ 91 ∷ 93 ∷ 10 ∷ 0 ∷ 97 ∷ 115 ∷ 100 ∷ 102 ∷ 103 ∷ 104
    ∷ 106 ∷ 107 ∷ 108 ∷ 59 ∷ 39 ∷ 96 ∷ 0 ∷ 92 ∷ 122 ∷ 120 ∷ 99 ∷ 118 ∷ 98 ∷ 110 ∷ 109 ∷ 44 ∷ 46 ∷ 47
    ∷ 0 ∷ 42 ∷ 0 ∷ 32 ∷ []

abbrev pub kbdus_shift : List ℕ
kbdus_shift =
    0 ∷ 27 ∷ 33 ∷ 64 ∷ 35 ∷ 36 ∷ 37 ∷ 94 ∷ 38 ∷ 42 ∷ 40 ∷ 41 ∷ 95 ∷ 43 ∷ 8 ∷ 9 ∷ 81 ∷ 87 ∷ 69 ∷ 82
    ∷ 84 ∷ 89 ∷ 85 ∷ 73 ∷ 79 ∷ 80 ∷ 123 ∷ 125 ∷ 10 ∷ 0 ∷ 65 ∷ 83 ∷ 68 ∷ 70 ∷ 71 ∷ 72 ∷ 74 ∷ 75 ∷ 76
    ∷ 58 ∷ 34 ∷ 126 ∷ 0 ∷ 124 ∷ 90 ∷ 88 ∷ 67 ∷ 86 ∷ 66 ∷ 78 ∷ 77 ∷ 60 ∷ 62 ∷ 63 ∷ 0 ∷ 42 ∷ 0 ∷ 32
    ∷ []

-- The static variables, and the two buffers that the handler feeds.
pub record Keyboard : Type 0 where
  pub shift_pressed : Bool
  pub caps_lock : Bool
  pub typed : KbdBuffer
  pub events : Input

abbrev pub differ : Bool → Bool → Bool
differ true b = not b
differ false b = b

-- The character of a key under shift and caps lock.
unfoldable pub key_char : Bool → Bool → ℕ → ℕ
key_char shift caps scancode =
    let c = if shift then get_or kbdus_shift scancode 0 else get_or kbdus scancode 0 in
    if leb 97 c && leb c 122
    then (if differ caps shift then c - 97 + 65 else c)
    else if leb 65 c && leb c 90
    then (if not (differ caps shift) then c - 65 + 97 else c)
    else c

-- `scancode` is the byte read from port 0x60.
unfoldable pub keyboard_handler : Keyboard → ℕ → Keyboard
keyboard_handler k scancode =
    if leb 128 scancode
    then (if (scancode - 128 == 0x2A) || (scancode - 128 == 0x36)
        then record k { shift_pressed = false }
        else k)
    else if (scancode == 0x2A) || (scancode == 0x36)
    then record k { shift_pressed = true }
    else if scancode == 0x3A
    then record k { caps_lock = not k.caps_lock }
    else let c = key_char k.shift_pressed k.caps_lock scancode in
      if c == 0
      then k
      else record k { typed = kbd_buffer_push k.typed c; events = input_push_key k.events c }

-- `serial` is what `serial_read_char` returns.
unfoldable pub keyboard_getchar : Keyboard → ℤ → ℤ × Keyboard
keyboard_getchar k serial =
    let (c, typed) = kbd_buffer_pop k.typed in
    (if is_neg c then serial else c, record k { typed = typed })

-- What a backspace puts: nothing at the start of the line.
abbrev pub erase_echo : List ℕ → List ℕ
erase_echo [] = []
erase_echo (c ∷ out) = 8 ∷ 32 ∷ 8 ∷ []

-- The loop of `keyboard_readline`: `out` is the line so far, last character first, `typed` what
-- `keyboard_getchar` goes on to return once it is not negative. The result is the line, last
-- character first, and what is echoed on the monitor; `none`: the loop still waits for a character.
unfoldable pub read_chars : ℕ → List ℕ → List ℕ → Option (List ℕ × List ℕ)
read_chars max out [] = if ltb (length out) (max - 1) then none else some (out, [])
read_chars max out (c ∷ typed) =
    if ltb (length out) (max - 1)
    then (if (c == 13) || (c == 10)
        then some (out, 10 ∷ [])
        else if (c == 8) || (c == 127)
        then Option.map (λ (line, echoed). (line, erase_echo out ++ echoed))
            (read_chars max (drop 1 out) typed)
        else Option.map (λ (line, echoed). (line, c ∷ echoed)) (read_chars max (c ∷ out) typed))
    else some (out, [])

-- The returned length, what is stored at `out` (nothing, or the characters and a 0), and the echo.
unfoldable pub keyboard_readline : ℕ → List ℕ → Option (ℕ × List ℕ × List ℕ)
keyboard_readline max typed =
    if max == 0
    then some (0, [], [])
    else Option.map (λ (line, echoed). (length line, backwards line ++ 0 ∷ [], echoed))
        (read_chars max [] typed)
