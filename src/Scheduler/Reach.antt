-- ===== src/Scheduler/Reach.antt =====
-- The scheduler's calls and interrupts in any order, as steps from its initial state.
use learning_os_project.Common.{
  ℕ, ◌<◌, ◌≡◌, refl, sym, ◌∙◌, inl, inr, Bool, true, false, not, ◌||◌, Option, some, ltb, ◌==◌,
  if◌then◌else◌, arith, Bool-cases, Option-cases, some-inj, subst,
}
use learning_os_project.Common.Int.{ℤ}
use learning_os_project.Scheduler.{
  Scheduler, scheduler_init, scheduler_add, scheduler_start, task_yield, scheduler_wait,
  scheduler_switch_from_isr, scheduler_tick, scheduler_exit,
}
use learning_os_project.Scheduler.Invariant.{
  IsValid, IsConsistent, exited-IsConsistent, exit_current, scheduler_init-IsValid,
  scheduler_add-IsValid, scheduler_start-IsValid, scheduler_tick-IsValid, task_yield-IsValid,
  scheduler_wait-IsValid, save_context-IsConsistent,
}
use learning_os_project.Scheduler.Switch.{switch-Switched, switch-IsValid, Switched-IsValid}

-- Vector 32, raised by the timer or by `int $0x20`: `timer_handler`, then the interrupt's return
-- path. The result is the stack pointer that is returned to.
unfoldable pub interrupt : Scheduler → ℕ → ℕ × Scheduler
interrupt s esp = scheduler_switch_from_isr (scheduler_tick s) esp

-- What a call leaves, the interrupt that it raises included.
unfoldable pub after_call : Bool × Scheduler → ℕ → Scheduler
after_call r esp = if r.0 then (interrupt r.1 esp).1 else r.1

pub data Step : Scheduler → Scheduler → Type 0 where
  add : (s : Scheduler) (entry : ℕ) → Step s (scheduler_add s entry).1
  start : (s : Scheduler) (esp : ℕ) → Step s (after_call (scheduler_start s) esp)
  timer : (s : Scheduler) (esp : ℕ) → Step s (interrupt s esp).1
  yield : (s : Scheduler) (esp : ℕ) → Step s (after_call (task_yield s) esp)
  exit :
      (s : Scheduler) (code : ℤ) (esp : ℕ) (r : Bool × Scheduler)
      → scheduler_exit s code ≡ some r
      → Step s (after_call r esp)
  wait :
      (s : Scheduler) (pid : ℕ) (status : ℤ) (code : Option ℤ) (s' : Scheduler)
      → scheduler_wait s pid ≡ some (status, code, s')
      → Step s s'

pub data Reach (start : Scheduler) : Scheduler → Type 0 where
  at_start : Reach start (scheduler_init start)
  then_step : {s s' : Scheduler} → Reach start s → Step s s' → Reach start s'

interrupt-IsValid : {s : Scheduler} (esp : ℕ) → IsValid s → IsValid (interrupt s esp).1
unfolding interrupt
interrupt-IsValid esp v = switch-IsValid esp (scheduler_tick-IsValid v)

after_call-IsValid : (r : Bool × Scheduler) (esp : ℕ) → IsValid r.1 → IsValid (after_call r esp)
unfolding after_call
after_call-IsValid r esp v = elim (Bool-cases r.0) [
  | inl e ↦ rw e (interrupt-IsValid esp v)
  | inr e ↦ rw e v
]

-- A tick keeps what a due switch needs.
tick-due :
    {s : Scheduler}
    → IsConsistent s
    → s.scheduling_enabled ≡ true
    → 0 < s.task_count
    → s.need_resched ≡ true
    → IsConsistent (scheduler_tick s)
      × ((scheduler_tick s).scheduling_enabled ≡ true)
      × (0 < (scheduler_tick s).task_count)
      × ((scheduler_tick s).need_resched ≡ true)
unfolding scheduler_tick
tick-due {s} c on some_slot due =
    elim (Bool-cases (not s.scheduling_enabled || ltb s.task_count 2)) [
      | inl e ↦ rw e (c, on, some_slot, due)
      | inr e ↦ rw e (record { tables = c.tables }, on, some_slot, ground arith)
    ]

due-IsValid :
    {s : Scheduler} (esp : ℕ)
    → IsConsistent s
    → s.scheduling_enabled ≡ true
    → 0 < s.task_count
    → s.need_resched ≡ true
    → IsValid (interrupt s esp).1
unfolding interrupt
due-IsValid {s} esp c on some_slot due =
    let (c', on', some_slot', due') = tick-due {s = s} c on some_slot due in
    Switched-IsValid (save_context-IsConsistent esp c')
      (switch-Switched {s = scheduler_tick s} esp c' on' some_slot' due')

exit-IsValid :
    {s : Scheduler} (code : ℤ) (esp : ℕ) (r : Bool × Scheduler)
    → IsValid s
    → scheduler_exit s code ≡ some r
    → IsValid (after_call r esp)
unfolding scheduler_exit
exit-IsValid {s} code esp r v e =
    elim (Bool-cases (not s.scheduling_enabled || (s.task_count == 0))) [
      | inl g ↦
          let same = some-inj (rw (g, scheduler_exit) at e) in
          subst (λ x. IsValid (after_call x esp)) same (after_call-IsValid (false, s) esp v)
      | inr g ↦ elim (Option-cases s.current_task) [
        | inl c ↦ absurd (let x = simp (g, c) at e in cc)
        | inr (prev, c) ↦
            let same = some-inj (sym (exit_current s code prev g c) ∙ e) in
            subst (λ x. IsValid (after_call x esp)) same
              (unfold after_call in
                due-IsValid esp (exited-IsConsistent prev code v c) (ground arith) (ground arith)
                  refl)
      ]
    ]

Step-IsValid : {s s' : Scheduler} → IsValid s → Step s s' → IsValid s'
Step-IsValid v (add s entry) = scheduler_add-IsValid entry v
Step-IsValid v (start s esp) = after_call-IsValid _ esp (scheduler_start-IsValid v)
Step-IsValid v (timer s esp) = interrupt-IsValid esp v
Step-IsValid v (yield s esp) = after_call-IsValid _ esp (task_yield-IsValid v)
Step-IsValid v (exit s code esp r e) = exit-IsValid code esp r v e
Step-IsValid v (wait s pid status code s' e) = scheduler_wait-IsValid pid v e

-- In every state that `scheduler_init` and any sequence of calls of `scheduler_add`,
-- `scheduler_start`, `task_yield`, `scheduler_exit` (with a current task) and `scheduler_wait`,
-- and of timer interrupts, comes to, `active_tasks` is the number of runnable slots, they all
-- lie below `task_count`, which is at most 4, and the current task, if there is one, is
-- runnable.
pub Reach-IsValid : {start s : Scheduler} → Reach start s → IsValid s
Reach-IsValid {start} at_start = scheduler_init-IsValid start
Reach-IsValid (then_step r step) = Step-IsValid (Reach-IsValid r) step
