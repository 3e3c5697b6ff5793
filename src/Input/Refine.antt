-- ===== src/Input/Refine.antt =====
-- input.c keeps its indices in range and behaves as a queue of at most 63 events.
use learning_os_project.Common.{
  ℕ, ◌+◌, ◌%◌, ◌≤◌, ◌<◌, ◌≡◌, refl, Bool, true, Option, List, [], ◌∷◌, arith, Bool-cases, inl, inr,
  ◌==◌, length, length-set, map,
}
use learning_os_project.Fifo
use learning_os_project.Fifo.{InRange}
use learning_os_project.BoundedQueue
use learning_os_project.BoundedQueue.{Op, put, get}
use learning_os_project.Input.{
  Input, InputEvent, no_event, input_buf_size, at_load, input_init, input_push, input_push_key,
  input_push_mouse, input_pop, key_event, mouse_event,
}

pub record IsValid (s : Input) : Type 0 where
  pub room : input_buf_size ≤ length s.buffer
  pub head_in : s.head < input_buf_size
  pub tail_in : s.tail < input_buf_size

in_range : {s : Input} → IsValid s → InRange input_buf_size (length s.buffer) s.head s.tail
in_range v = omega arith

-- The events waiting, oldest first.
abbrev pub waiting : Input → List InputEvent
waiting s = Fifo.contents no_event s.buffer input_buf_size s.head s.tail

pub at_load-IsValid : IsValid (input_init at_load)
unfolding input_init
at_load-IsValid = omega arith

pub input_push-IsValid : {s : Input} (ev : InputEvent) → IsValid s → IsValid (input_push s ev)
unfolding input_push
input_push-IsValid {s} ev v = ground (arith, length-set s.buffer s.head ev)

pub input_pop-IsValid : {s : Input} (ok : Bool) → IsValid s → IsValid (input_pop s ok).2
unfolding input_pop
input_pop-IsValid ok v = ground arith

module _ {s : Input} (v : IsValid s) where
  pub push-enqueue :
      (ev : InputEvent) → (BoundedQueue.enqueue 63 (waiting s) ev).1 ≡ waiting (input_push s ev)
  unfolding input_push
  push-enqueue ev = elim (Bool-cases ((s.head + 1) % input_buf_size == s.tail)) [
    | inl e ↦ rw (e, Fifo.enqueue-full no_event s.buffer 64 s.head s.tail (in_range v) ev e) refl
    | inr e ↦ rw (e, Fifo.enqueue-free no_event s.buffer 64 s.head s.tail (in_range v) ev e) refl
  ]

  pub pop-dequeue :
      BoundedQueue.dequeue (waiting s) ≡ ((input_pop s true).1, waiting (input_pop s true).2)
  unfolding input_pop
  pop-dequeue = elim (Bool-cases (s.head == s.tail)) [
    | inl e ↦ rw e (Fifo.dequeue-empty no_event s.buffer 64 s.head s.tail (in_range v) e)
    | inr e ↦ rw e (Fifo.dequeue-some no_event s.buffer 64 s.head s.tail (in_range v) e)
  ]

-- The calls that a driver and a client make.
pub data Call : Type 0 where
  push_key : ℕ → Call
  push_mouse : ℕ → ℕ → ℕ → Call
  pop : Call

-- The queue's operation behind each call.
abbrev pub as_op : Call → Op InputEvent
as_op (push_key c) = put (key_event c)
as_op (push_mouse dx dy buttons) = put (mouse_event dx dy buttons)
as_op pop = get

unfoldable pub serve : Input → List Call → List (Option InputEvent) × Input
serve s [] = ([], s)
serve s (push_key c ∷ calls) = serve (input_push_key s c) calls
serve s (push_mouse dx dy buttons ∷ calls) = serve (input_push_mouse s dx dy buttons) calls
serve s (pop ∷ calls) =
    let (_, out, s') = input_pop s true in let (outs, last) = serve s' calls in (out ∷ outs, last)

-- From a state with both indices in range, every sequence of key pushes, mouse pushes and pops
-- (the pointer not null) hands out the events that a queue of at most 63 events would hand out,
-- each key and mouse packet as the event of its kind, leaves the events that it would hold, and
-- keeps the indices in range.
pub input_refines :
    (calls : List Call) {s : Input}
    → IsValid s
    → let (outs, last) = serve s calls in
      (BoundedQueue.run 63 (waiting s) (map as_op calls) ≡ (outs, waiting last)) × IsValid last
unfolding serve BoundedQueue.run input_push_key input_push_mouse
input_refines [] v = (refl, v)
input_refines (push_key c ∷ calls) v =
    rw (push-enqueue v (key_event c)) (input_refines calls (input_push-IsValid (key_event c) v))
input_refines (push_mouse dx dy buttons ∷ calls) v =
    let ev : InputEvent = mouse_event dx dy buttons in
    rw (push-enqueue v ev) (input_refines calls (input_push-IsValid ev v))
input_refines (pop ∷ calls) v =
    let (same, kept) = input_refines calls (input_pop-IsValid true v) in
    rw (pop-dequeue v) (rw same refl, kept)
