-- ===== src/Tests/Tasks.antt =====
-- The scheduler with one heap and two tasks.
use learning_os_project.Common.{
  ℕ, zero, suc, ◌≡◌, ◌<◌, refl, [], ◌∷◌, none, some, arith, true, false, get_or, some-inj, subst,
}
use learning_os_project.Common.Int.{pos}
use learning_os_project.Heap.{heap_init}
use learning_os_project.Scheduler.Slots.{count_runnable}
use learning_os_project.Scheduler.{
  Scheduler, runnable, zombie, no_task, is_runnable, pick_next, scan, scheduler_init, scheduler_add,
  scheduler_start, save_context, scheduler_switch_from_isr,
}
use learning_os_project.Scheduler.Invariant.{IsValid, IsConsistent}
use learning_os_project.Scheduler.Switch.{ContextSaved, Switched, switch_lem}
use learning_os_project.Scheduler.Fairness.{switches, IsWaiting, switches-fair}
use learning_os_project.Scheduler.Reach.{Reach, Step, Reach-IsValid, after_call}

abbrev at_load : Scheduler
at_load = record {
  tasks = [];
  task_count = 0;
  current_task = none;
  active_tasks = 0;
  scheduling_enabled = false;
  need_resched = false;
  kernel_esp = 0;
  next_pid = 0;
  ticks = 0;
  heap = heap_init 65536 65536;
  stored = [];
}

abbrev two_tasks : Scheduler
two_tasks = (scheduler_add (scheduler_add (scheduler_init at_load) 4096).1 8192).1

two_reached : Reach at_load two_tasks
two_reached = Reach.then_step (Reach.then_step Reach.at_start (Step.add _ 4096)) (Step.add _ 8192)

Reach-IsValid_example : IsValid (after_call (scheduler_start two_tasks) 90000)
Reach-IsValid_example = Reach-IsValid (Reach.then_step two_reached (Step.start two_tasks 90000))

-- Slot 1 is current, slot 0 is a zombie and slot 2 can run too.
abbrev busy : Scheduler
busy = record at_load {
  tasks =
      record { irq_esp = 1; stack_base = 0; pid = 1; exit_code = pos 7; state = zombie }
      ∷ record { irq_esp = 2; stack_base = 0; pid = 2; exit_code = pos 0; state = runnable }
      ∷ record { irq_esp = 3; stack_base = 0; pid = 3; exit_code = pos 0; state = runnable }
      ∷ no_task
      ∷ [];
  task_count = 3;
  current_task = some 1;
  active_tasks = 2;
  scheduling_enabled = true;
  need_resched = true;
  kernel_esp = 9;
}

busy_placed : (i : ℕ) → is_runnable (get_or busy.tasks i no_task).state ≡ true → i < busy.task_count
busy_placed zero e = omega arith
busy_placed (suc zero) e = omega arith
busy_placed (suc (suc zero)) e = omega arith
busy_placed (suc (suc (suc zero))) e = cc
busy_placed (suc (suc (suc (suc i)))) e = cc

busy-IsConsistent : IsConsistent busy
unfolding count_runnable
busy-IsConsistent = record {
  tables = record {
    slots = refl;
    count_le = omega arith;
    counted = refl;
    placed = busy_placed;
    current_in = λ n e. let same : 1 ≡ n = some-inj e in omega arith;
  };
}

switch_example :
    (saved : Scheduler) × ContextSaved busy 500 saved
    × Switched saved (scheduler_switch_from_isr busy 500).0 (scheduler_switch_from_isr busy 500).1
switch_example = switch_lem 500 busy-IsConsistent refl (omega arith) refl

switch_runs : (scheduler_switch_from_isr busy 500).0 ≡ 3
unfolding scheduler_switch_from_isr save_context pick_next scan
switch_runs = refl

busy-IsWaiting : IsWaiting busy 2
unfolding count_runnable
busy-IsWaiting = record {
  valid = record {
    tables = busy-IsConsistent.tables;
    running = λ n p.
        let one : 1 ≡ n = some-inj p in
        subst (λ (k : ℕ). is_runnable (get_or busy.tasks k no_task).state ≡ true) one refl;
  };
  enabled = refl;
  can_run = refl;
}

fair_example : (k : ℕ) × (k < 3) × ((switches (λ n. 90000) (suc k) busy).current_task ≡ some 2)
fair_example = switches-fair busy (λ n. 90000) 2 busy-IsWaiting
