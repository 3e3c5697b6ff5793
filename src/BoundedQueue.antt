-- ===== src/BoundedQueue.antt =====
-- What the circular arrays promise a client: a first-in-first-out queue that holds at most `cap`
-- entries. It is the specification against which ipc.c, input.c and keyboard_buffer.c are proved.
use learning_os_project.Common.{
  ℕ, Bool, true, false, Option, none, some, List, [], ◌∷◌, ◌++◌, ◌==◌, if◌then◌else◌, length,
}

pub data Op {ℓ} (A : Type ℓ) : Type ℓ where
  put : A → Op A
  get : Op A

module _ {ℓ} {A : Type ℓ} where
  -- A full queue refuses the entry.
  unfoldable pub enqueue : ℕ → List A → A → Bool × List A
  enqueue cap q x = if length q == cap then (false, q) else (true, q ++ x ∷ [])

  unfoldable pub dequeue : List A → Option A × List A
  dequeue [] = (none, [])
  dequeue (x ∷ q) = (some x, q)

  -- What a sequence of calls takes out, and the queue that it leaves.
  unfoldable pub run : ℕ → List A → List (Op A) → List (Option A) × List A
  unfolding enqueue dequeue
  run cap q [] = ([], q)
  run cap q (put x ∷ ops) = run cap (enqueue cap q x).1 ops
  run cap q (get ∷ ops) =
      let (got, q') = dequeue q in let (outs, last) = run cap q' ops in (got ∷ outs, last)
