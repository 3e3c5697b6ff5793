-- ===== src/Tests/Queues.antt =====
-- The message queue, the keyboard buffer and the event ring at concrete calls.
use learning_os_project.Common.{ℕ, ◌≡◌, refl, none, some, List, [], ◌∷◌, arith, ◌≤◌, map, true}
use learning_os_project.Common.Int.{is_neg}
use learning_os_project.BoundedQueue
use learning_os_project.BoundedQueue.{Op, put, get}
use learning_os_project.Ipc
use learning_os_project.Ipc.{Ipc, ipc_init, ipc_send, ipc_recv}
use learning_os_project.KbdBuffer
use learning_os_project.KbdBuffer.{KbdBuffer, kbd_buffer_init, kbd_buffer_push, kbd_buffer_pop}
use learning_os_project.Input
use learning_os_project.Input.{Input, input_init}

abbrev calls : List (Op ℕ)
calls = put 5 ∷ put 7 ∷ get ∷ get ∷ get ∷ []

ipc_refines_example :
    let (outs, last) = Ipc.Refine.serve (ipc_init Ipc.at_load) calls in
    (BoundedQueue.run 31 (Ipc.Refine.waiting (ipc_init Ipc.at_load)) calls
      ≡ (outs, Ipc.Refine.waiting last))
    × Ipc.Refine.IsValid last
ipc_refines_example = Ipc.Refine.ipc_refines calls Ipc.Refine.at_load-IsValid

serve_ipc : (Ipc.Refine.serve Ipc.at_load calls).0 ≡ some 5 ∷ some 7 ∷ none ∷ []
unfolding Ipc.Refine.serve ipc_send ipc_recv
serve_ipc = refl

kbd_buffer_refines_example :
    let (outs, last) = KbdBuffer.Refine.serve (kbd_buffer_init KbdBuffer.at_load) calls in
    let (wanted, left) =
      BoundedQueue.run 127 (KbdBuffer.Refine.typed (kbd_buffer_init KbdBuffer.at_load)) calls in
    (outs ≡ map KbdBuffer.Refine.as_int wanted)
    × (KbdBuffer.Refine.typed last ≡ left)
    × KbdBuffer.Refine.IsValid last
kbd_buffer_refines_example =
    KbdBuffer.Refine.kbd_buffer_refines calls KbdBuffer.Refine.at_load-IsValid

-- A byte of 200 waits.
abbrev high_byte : KbdBuffer
high_byte = record { buffer = 200 ∷ KbdBuffer.at_load.buffer; head = 1; tail = 0 }

high_byte-IsValid : KbdBuffer.Refine.IsValid high_byte
high_byte-IsValid = omega arith

pop_negative :
    (is_neg (kbd_buffer_pop high_byte).0 ≡ true → 128 ≤ 200)
    × (128 ≤ 200 → is_neg (kbd_buffer_pop high_byte).0 ≡ true)
pop_negative = KbdBuffer.Refine.pop-neg high_byte-IsValid refl

abbrev events : List Input.Refine.Call
events = Input.Refine.push_key 97 ∷ Input.Refine.push_mouse 3 255 1 ∷ Input.Refine.pop ∷ []

input_refines_example :
    let (outs, last) = Input.Refine.serve (input_init Input.at_load) events in
    (BoundedQueue.run 63
        (Input.Refine.waiting (input_init Input.at_load))
        (map Input.Refine.as_op events)
      ≡ (outs, Input.Refine.waiting last))
    × Input.Refine.IsValid last
input_refines_example = Input.Refine.input_refines events Input.Refine.at_load-IsValid
