-- ===== src/Input.antt =====
-- src/lib/input.c: the ring of input events, 64 entries with one slot kept empty.
pub mod Refine
use learning_os_project.Common.{
  ℕ, ◌+◌, ◌%◌, Bool, not, ◌||◌, Option, none, some, List, ◌==◌, if◌then◌else◌, get_or, set,
  replicate,
}
use learning_os_project.Common.Int.{ℤ, pos, negsuc, signed8}

abbrev pub input_buf_size : ℕ
input_buf_size = 64

abbrev pub input_key : ℕ
input_key = 1

abbrev pub input_mouse : ℕ
input_mouse = 2

-- `struct input_event`; `a` and `b` are signed.
pub record InputEvent : Type 0 where
  pub kind : ℕ
  pub flags : ℕ
  pub a : ℤ
  pub b : ℤ

abbrev pub no_event : InputEvent
no_event = record { kind = 0; flags = 0; a = pos 0; b = pos 0 }

-- The static variables `buffer`, `head` and `tail`.
pub record Input : Type 0 where
  pub buffer : List InputEvent
  pub head : ℕ
  pub tail : ℕ

abbrev pub at_load : Input
at_load = record { buffer = replicate input_buf_size no_event; head = 0; tail = 0 }

unfoldable pub input_init : Input → Input
input_init s = record s { head = 0; tail = 0 }

unfoldable pub input_full : Input → Bool
input_full s = (s.head + 1) % input_buf_size == s.tail

unfoldable pub input_empty : Input → Bool
input_empty s = s.head == s.tail

unfoldable pub input_push : Input → InputEvent → Input
unfolding input_full
input_push s ev =
    if input_full s
    then s
    else record s { buffer = set s.buffer s.head ev; head = (s.head + 1) % input_buf_size }

-- The event that a key makes, and the one that a mouse packet makes.
abbrev pub key_event : ℕ → InputEvent
key_event c = record { kind = input_key; flags = 0; a = signed8 c; b = pos 0 }

abbrev pub mouse_event : ℕ → ℕ → ℕ → InputEvent
mouse_event dx dy buttons = record {
  kind = input_mouse;
  flags = buttons;
  a = signed8 dx;
  b = signed8 dy;
}

unfoldable pub input_push_key : Input → ℕ → Input
unfolding input_push
input_push_key s c = input_push s (key_event c)

-- `dx` and `dy` are the bytes of two signed chars.
unfoldable pub input_push_mouse : Input → ℕ → ℕ → ℕ → Input
unfolding input_push
input_push_mouse s dx dy buttons = input_push s (mouse_event dx dy buttons)

-- `out_ok` says that the pointer `out` is not null; the option is what is stored through it.
unfoldable pub input_pop : Input → Bool → ℤ × Option InputEvent × Input
unfolding input_empty
input_pop s out_ok = if not out_ok || input_empty s then (negsuc 0, none, s) else (
  pos 0,
  some (get_or s.buffer s.tail no_event),
  record s { tail = (s.tail + 1) % input_buf_size },
)
