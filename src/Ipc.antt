-- ===== src/Ipc.antt =====
-- src/proc/ipc.c: the kernel's one message queue, 32 words with one slot kept empty.
pub mod Refine
use learning_os_project.Common.{
  ℕ, ◌+◌, ◌%◌, Bool, not, ◌||◌, Option, none, some, List, ◌==◌, if◌then◌else◌, get_or, set,
  replicate,
}
use learning_os_project.Common.Int.{ℤ, pos, negsuc}

abbrev pub ipc_queue_size : ℕ
ipc_queue_size = 32

-- The static variables `queue`, `head` and `tail`.
pub record Ipc : Type 0 where
  pub queue : List ℕ
  pub head : ℕ
  pub tail : ℕ

-- As the loader leaves the statics.
abbrev pub at_load : Ipc
at_load = record { queue = replicate ipc_queue_size 0; head = 0; tail = 0 }

unfoldable pub ipc_init : Ipc → Ipc
ipc_init q = record q { head = 0; tail = 0 }

unfoldable pub ipc_full : Ipc → Bool
ipc_full q = (q.head + 1) % ipc_queue_size == q.tail

unfoldable pub ipc_empty : Ipc → Bool
ipc_empty q = q.head == q.tail

unfoldable pub ipc_send : Ipc → ℕ → ℤ × Ipc
unfolding ipc_full
ipc_send q msg =
    if ipc_full q
    then (negsuc 0, q)
    else (pos 0, record q { queue = set q.queue q.head msg; head = (q.head + 1) % ipc_queue_size })

-- `msg_ok` says that the pointer `msg` is not null; the option is what is stored through it.
unfoldable pub ipc_recv : Ipc → Bool → ℤ × Option ℕ × Ipc
unfolding ipc_empty
ipc_recv q msg_ok =
    if not msg_ok || ipc_empty q
    then (negsuc 0, none, q)
    else (pos 0, some (get_or q.queue q.tail 0), record q { tail = (q.tail + 1) % ipc_queue_size })
