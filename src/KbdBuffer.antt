-- ===== src/KbdBuffer.antt =====
-- src/drivers/keyboard_buffer.c: the ring of typed characters, 128 bytes with one slot kept empty.
pub mod Refine
use learning_os_project.Common.{ℕ, ◌+◌, ◌%◌, List, ◌==◌, if◌then◌else◌, get_or, set, replicate}
use learning_os_project.Common.Int.{ℤ, negsuc, signed8}

abbrev pub kbd_buf_size : ℕ
kbd_buf_size = 128

-- The static variables `buffer` (each char as its byte), `head` and `tail`.
pub record KbdBuffer : Type 0 where
  pub buffer : List ℕ
  pub head : ℕ
  pub tail : ℕ

abbrev pub at_load : KbdBuffer
at_load = record { buffer = replicate kbd_buf_size 0; head = 0; tail = 0 }

unfoldable pub kbd_buffer_init : KbdBuffer → KbdBuffer
kbd_buffer_init k = record k { head = 0; tail = 0 }

unfoldable pub kbd_buffer_push : KbdBuffer → ℕ → KbdBuffer
kbd_buffer_push k c =
    let next = (k.head + 1) % kbd_buf_size in
    if next == k.tail then k else record k { buffer = set k.buffer k.head c; head = next }

-- The char is returned as an int, so that a byte of 128 or more comes out negative.
unfoldable pub kbd_buffer_pop : KbdBuffer → ℤ × KbdBuffer
kbd_buffer_pop k =
    if k.tail == k.head
    then (negsuc 0, k)
    else let c = get_or k.buffer k.tail 0 in
      (signed8 c, record k { tail = (k.tail + 1) % kbd_buf_size })
