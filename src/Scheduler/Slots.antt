-- ===== src/Scheduler/Slots.antt =====
-- Lemmas on the array of tasks: how many are runnable, and where.
use learning_os_project.Common.{
  ℕ, zero, suc, ◌+◌, ◌-◌, ◌≤◌, ◌<◌, ◌≡◌, refl, ◌∙◌, inl, inr, Bool, true, false, ◌&&◌, some, List,
  [], ◌∷◌, ◌==◌, if◌then◌else◌, get_or, set, length, arith, Bool-cases, some-inj,
}
use learning_os_project.Scheduler.{
  Task, no_task, is_unused, is_runnable, is_zombie, unused_slot, zombie_slot,
}

abbrev pub one_if : Bool → ℕ
one_if true = 1
one_if false = 0

unfoldable pub count_runnable : List Task → ℕ
count_runnable [] = 0
count_runnable (t ∷ ts) = one_if (is_runnable t.state) + count_runnable ts

-- A write of one slot changes the number of runnable tasks by that slot alone.
pub count_runnable-set :
    (ts : List Task) (i : ℕ) (t : Task)
    → i < length ts
    → count_runnable (set ts i t) + one_if (is_runnable (get_or ts i no_task).state)
      ≡ count_runnable ts + one_if (is_runnable t.state)
unfolding count_runnable
count_runnable-set [] i t h = absurd (omega arith)
count_runnable-set (x ∷ ts) zero t h = omega arith
count_runnable-set (x ∷ ts) (suc i) t h = omega (arith, count_runnable-set ts i t (omega arith))

-- If some task is runnable, there is a slot with one.
pub runnable_slot :
    (ts : List Task)
    → 0 < count_runnable ts
    → (i : ℕ) × (i < length ts) × (is_runnable (get_or ts i no_task).state ≡ true)
unfolding count_runnable
runnable_slot [] h = absurd (omega arith)
runnable_slot (x ∷ ts) h = elim (Bool-cases (is_runnable x.state)) [
  | inl e ↦ (0, omega arith, e)
  | inr e ↦ let (i, l, r) = runnable_slot ts (omega (arith, rw e at h)) in (suc i, omega arith, r)
]

pub count_runnable-pos :
    (ts : List Task) (i : ℕ)
    → i < length ts
    → is_runnable (get_or ts i no_task).state ≡ true
    → 0 < count_runnable ts
unfolding count_runnable
count_runnable-pos [] i h e = absurd (omega arith)
count_runnable-pos (x ∷ ts) zero h e = rw e (omega arith)
count_runnable-pos (x ∷ ts) (suc i) h e = omega (arith, count_runnable-pos ts i (omega arith) e)

-- What the search for an unused slot finds.
pub unused_slot-some :
    (ts : List Task) (i : ℕ) {j : ℕ}
    → unused_slot ts i ≡ some j
    → (i ≤ j) × (j < i + length ts) × (is_unused (get_or ts (j - i) no_task).state ≡ true)
unfolding unused_slot
unused_slot-some [] i e = cc
unused_slot-some (t ∷ ts) i {j} e = elim (Bool-cases (is_unused t.state)) [
  | inl p ↦
      let same : i ≡ j = some-inj (rw p at e) in
      let at : j - i ≡ 0 = omega arith in (omega arith, omega arith, rw at p)
  | inr p ↦
      let (l, h, u) = unused_slot-some ts (i + 1) {j = j} (rw p at e) in
      let at : j - i ≡ suc (j - (i + 1)) = omega arith in (omega arith, omega arith, rw at u)
]

pub zombie_slot-some :
    (ts : List Task) (n i pid : ℕ) {j : ℕ}
    → zombie_slot ts n i pid ≡ some j
    → (i ≤ j)
      × (j < i + length ts)
      × (j < i + n)
      × ((get_or ts (j - i) no_task).pid ≡ pid)
      × (is_zombie (get_or ts (j - i) no_task).state ≡ true)
unfolding zombie_slot
zombie_slot-some [] n i pid e = cc
zombie_slot-some (t ∷ ts) zero i pid e = cc
zombie_slot-some (t ∷ ts) (suc n) i pid {j} e =
    elim (Bool-cases ((t.pid == pid) && is_zombie t.state)) [
      | inl p ↦
          let same : i ≡ j = some-inj (rw p at e) in
          let at : j - i ≡ 0 = omega arith in
          (omega arith, omega arith, omega arith, rw at (ground arith), rw at (ground arith))
      | inr p ↦
          let (l, h, k, q, z) = zombie_slot-some ts n (i + 1) pid {j = j} (rw p at e) in
          let at : j - i ≡ suc (j - (i + 1)) = omega arith in
          (omega arith, omega arith, omega arith, rw at q, rw at z)
    ]

-- Where a write at slot `i` shows.
pub get_or-set_task :
    (ts : List Task) (i j : ℕ) (t : Task)
    → i < length ts
    → get_or (set ts i t) j no_task ≡ (if i == j then t else get_or ts j no_task)
get_or-set_task [] i j t h = absurd (omega arith)
get_or-set_task (x ∷ ts) zero zero t h = refl
get_or-set_task (x ∷ ts) zero (suc j) t h = ground arith
get_or-set_task (x ∷ ts) (suc i) zero t h = ground arith
get_or-set_task (x ∷ ts) (suc i) (suc j) t h = get_or-set_task ts i j t (omega arith) ∙ ground arith
