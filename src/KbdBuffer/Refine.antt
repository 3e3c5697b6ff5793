-- ===== src/KbdBuffer/Refine.antt =====
-- keyboard_buffer.c keeps its indices in range and behaves as a queue of at most 127 characters.
use learning_os_project.Common.{
  ℕ, ◌+◌, ◌%◌, ◌≤◌, ◌<◌, ◌≡◌, refl, Option, none, some, List, [], ◌∷◌, arith, map, ◌==◌, inl, inr,
  true, Bool, ap₂, Bool-cases, length, length-set,
}
use learning_os_project.Common.Int.{ℤ, negsuc, is_neg, signed8}
use learning_os_project.Fifo
use learning_os_project.Fifo.{InRange}
use learning_os_project.BoundedQueue
use learning_os_project.BoundedQueue.{Op, put, get}
use learning_os_project.KbdBuffer.{
  KbdBuffer, kbd_buf_size, at_load, kbd_buffer_init, kbd_buffer_push, kbd_buffer_pop,
}

pub record IsValid (k : KbdBuffer) : Type 0 where
  pub room : kbd_buf_size ≤ length k.buffer
  pub head_in : k.head < kbd_buf_size
  pub tail_in : k.tail < kbd_buf_size

in_range : {k : KbdBuffer} → IsValid k → InRange kbd_buf_size (length k.buffer) k.head k.tail
in_range v = omega arith

-- The characters waiting, oldest first.
abbrev pub typed : KbdBuffer → List ℕ
typed k = Fifo.contents 0 k.buffer kbd_buf_size k.head k.tail

pub at_load-IsValid : IsValid (kbd_buffer_init at_load)
unfolding kbd_buffer_init
at_load-IsValid = omega arith

pub kbd_buffer_push-IsValid : {k : KbdBuffer} (c : ℕ) → IsValid k → IsValid (kbd_buffer_push k c)
unfolding kbd_buffer_push
kbd_buffer_push-IsValid {k} c v = ground (arith, length-set k.buffer k.head c)

pub kbd_buffer_pop-IsValid : {k : KbdBuffer} → IsValid k → IsValid (kbd_buffer_pop k).1
unfolding kbd_buffer_pop
kbd_buffer_pop-IsValid v = ground arith

-- What `kbd_buffer_pop` returns for what the queue hands out.
abbrev pub as_int : Option ℕ → ℤ
as_int none = negsuc 0
as_int (some c) = signed8 c

module _ {k : KbdBuffer} (v : IsValid k) where
  pub push-enqueue :
      (c : ℕ) → (BoundedQueue.enqueue 127 (typed k) c).1 ≡ typed (kbd_buffer_push k c)
  unfolding kbd_buffer_push
  push-enqueue c = elim (Bool-cases ((k.head + 1) % kbd_buf_size == k.tail)) [
    | inl e ↦ rw (e, Fifo.enqueue-full 0 k.buffer 128 k.head k.tail (in_range v) c e) refl
    | inr e ↦ rw (e, Fifo.enqueue-free 0 k.buffer 128 k.head k.tail (in_range v) c e) refl
  ]

  pub pop-dequeue :
      let (out, rest) = BoundedQueue.dequeue (typed k) in
      (kbd_buffer_pop k).0 ≡ as_int out × typed (kbd_buffer_pop k).1 ≡ rest
  unfolding kbd_buffer_pop
  pop-dequeue = elim (Bool-cases (k.tail == k.head)) [
    | inl e ↦
        rw (e, Fifo.dequeue-empty 0 k.buffer 128 k.head k.tail (in_range v) (flip e)) (refl, refl)
    | inr e ↦
        rw (e, Fifo.dequeue-some 0 k.buffer 128 k.head k.tail (in_range v) (flip e)) (refl, refl)
  ]
    where
      flip : {b : Bool} → (k.tail == k.head) ≡ b → (k.head == k.tail) ≡ b
      flip e = ground arith

unfoldable pub serve : KbdBuffer → List (Op ℕ) → List ℤ × KbdBuffer
serve k [] = ([], k)
serve k (put c ∷ ops) = serve (kbd_buffer_push k c) ops
serve k (get ∷ ops) =
    let (out, k') = kbd_buffer_pop k in let (outs, last) = serve k' ops in (out ∷ outs, last)

-- From a state with both indices in range, every sequence of pushes and pops returns the
-- characters that a queue of at most 127 characters hands out (sign-extended to an int, -1
-- where it is empty, the newest character dropped where it is full), leaves the characters that
-- it would hold, and keeps the indices in range.
pub kbd_buffer_refines :
    (ops : List (Op ℕ)) {k : KbdBuffer}
    → IsValid k
    → let (outs, last) = serve k ops in
      let (wanted, left) = BoundedQueue.run 127 (typed k) ops in
      (outs ≡ map as_int wanted) × (typed last ≡ left) × IsValid last
unfolding serve BoundedQueue.run
kbd_buffer_refines [] v = (refl, refl, v)
kbd_buffer_refines (put c ∷ ops) v =
    rw (← push-enqueue v c) at (kbd_buffer_refines ops (kbd_buffer_push-IsValid c v))
kbd_buffer_refines (get ∷ ops) v =
    let (same, rest, kept) = kbd_buffer_refines ops (kbd_buffer_pop-IsValid v) in
    let (out, left) = pop-dequeue v in rw (← left) (ap₂ ◌∷◌ out same, rest, kept)

-- With both indices in range and a character waiting, `kbd_buffer_pop` returns a negative
-- number exactly if the oldest character is a byte of 128 or more.
pub pop-neg :
    {k : KbdBuffer} {c : ℕ} {cs : List ℕ}
    → IsValid k
    → typed k ≡ c ∷ cs
    → (is_neg (kbd_buffer_pop k).0 ≡ true → 128 ≤ c)
      × (128 ≤ c → is_neg (kbd_buffer_pop k).0 ≡ true)
unfolding BoundedQueue.dequeue
pop-neg {k} v e = rw ((pop-dequeue v).0, e) (ground arith)
