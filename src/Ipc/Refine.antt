-- ===== src/Ipc/Refine.antt =====
-- ipc.c keeps its indices in range and behaves as a queue of at most 31 messages.
use learning_os_project.Common.{
  ℕ, ◌+◌, ◌≤◌, ◌<◌, ◌%◌, ◌≡◌, refl, Bool, true, false, not, Option, none, List, [], ◌∷◌, arith,
  Bool-cases, ==_refl, inl, inr, ◌==◌, length, length-set,
}
use learning_os_project.Common.Int.{pos, negsuc, is_neg}
use learning_os_project.Fifo
use learning_os_project.Fifo.{InRange}
use learning_os_project.BoundedQueue
use learning_os_project.BoundedQueue.{Op, put, get}
use learning_os_project.Ipc.{Ipc, ipc_queue_size, at_load, ipc_init, ipc_send, ipc_recv}

pub record IsValid (q : Ipc) : Type 0 where
  pub room : ipc_queue_size ≤ length q.queue
  pub head_in : q.head < ipc_queue_size
  pub tail_in : q.tail < ipc_queue_size

in_range : {q : Ipc} → IsValid q → InRange ipc_queue_size (length q.queue) q.head q.tail
in_range v = omega arith

-- The messages waiting, oldest first.
abbrev pub waiting : Ipc → List ℕ
waiting q = Fifo.contents 0 q.queue ipc_queue_size q.head q.tail

pub at_load-IsValid : IsValid (ipc_init at_load)
unfolding ipc_init
at_load-IsValid = omega arith

pub ipc_send-IsValid : {q : Ipc} (msg : ℕ) → IsValid q → IsValid (ipc_send q msg).1
unfolding ipc_send
ipc_send-IsValid {q} msg v = ground (arith, length-set q.queue q.head msg)

pub ipc_recv-IsValid : {q : Ipc} (ok : Bool) → IsValid q → IsValid (ipc_recv q ok).2
unfolding ipc_recv
ipc_recv-IsValid ok v = ground arith

module _ {q : Ipc} (v : IsValid q) where
  send-enqueue :
      (msg : ℕ)
      → BoundedQueue.enqueue 31 (waiting q) msg
        ≡ (not (is_neg (ipc_send q msg).0), waiting (ipc_send q msg).1)
  unfolding ipc_send
  send-enqueue msg = elim (Bool-cases ((q.head + 1) % ipc_queue_size == q.tail)) [
    | inl e ↦ rw e (Fifo.enqueue-full 0 q.queue 32 q.head q.tail (in_range v) msg e)
    | inr e ↦ rw e (Fifo.enqueue-free 0 q.queue 32 q.head q.tail (in_range v) msg e)
  ]

  recv-dequeue :
      BoundedQueue.dequeue (waiting q) ≡ ((ipc_recv q true).1, waiting (ipc_recv q true).2)
  unfolding ipc_recv
  recv-dequeue = elim (Bool-cases (q.head == q.tail)) [
    | inl e ↦ rw e (Fifo.dequeue-empty 0 q.queue 32 q.head q.tail (in_range v) e)
    | inr e ↦ rw e (Fifo.dequeue-some 0 q.queue 32 q.head q.tail (in_range v) e)
  ]

-- A client's calls in order, the pointers not null: what each `ipc_recv` stores, and the last
-- state.
unfoldable pub serve : Ipc → List (Op ℕ) → List (Option ℕ) × Ipc
serve q [] = ([], q)
serve q (put msg ∷ ops) = serve (ipc_send q msg).1 ops
serve q (get ∷ ops) =
    let (_, out, q') = ipc_recv q true in let (outs, last) = serve q' ops in (out ∷ outs, last)

-- From a state with both indices in range, every sequence of calls of `ipc_send` and `ipc_recv`
-- hands out the messages that a queue of at most 31 entries would hand out, leaves the messages
-- that it would hold, and keeps the indices in range.
pub ipc_refines :
    (ops : List (Op ℕ)) {q : Ipc}
    → IsValid q
    → let (outs, last) = serve q ops in
      (BoundedQueue.run 31 (waiting q) ops ≡ (outs, waiting last)) × IsValid last
unfolding serve BoundedQueue.run
ipc_refines [] v = (refl, v)
ipc_refines (put msg ∷ ops) v = rw (send-enqueue v msg) (ipc_refines ops (ipc_send-IsValid msg v))
ipc_refines (get ∷ ops) v =
    let (same, kept) = ipc_refines ops (ipc_recv-IsValid true v) in
    rw (recv-dequeue v) (rw same refl, kept)

-- With both indices in range, `ipc_send` returns -1 and changes nothing if 31 messages wait,
-- and returns 0 if fewer wait; `ipc_recv` through a null pointer returns -1 and changes
-- nothing.
status_lem :
    {q : Ipc} (msg : ℕ)
    → IsValid q
    → (length (waiting q) ≡ 31 → ipc_send q msg ≡ (negsuc 0, q))
      × (length (waiting q) < 31 → (ipc_send q msg).0 ≡ pos 0)
      × (ipc_recv q false ≡ (negsuc 0, none, q))
unfolding ipc_send ipc_recv
status_lem {q} msg v = (
  λ n.
      let e = (Fifo.contents-full 0 q.queue 32 q.head q.tail (in_range v)).1 (omega arith) in
      rw (e, ==_refl q.tail) refl,
  λ n. ground (arith, (Fifo.contents-full 0 q.queue 32 q.head q.tail (in_range v)).0),
  refl,
)
