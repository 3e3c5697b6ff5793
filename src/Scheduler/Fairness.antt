-- ===== src/Scheduler/Fairness.antt =====
-- The scheduler leaves no runnable task out.
use learning_os_project.Common.{
  ℕ, zero, suc, ◌+◌, ◌-◌, ◌%◌, ◌<◌, ◌≤◌, ◌≡◌, refl, sym, ap, ◌∙◌, inl, inr, true, false, some,
  dec_lt, ◌==◌, get_or, arith, Bool-cases, Option-cases, ==_iff,
}
use native.Mathlib.Nat.{mod-add-mod}
use learning_os_project.Scheduler.{
  no_task, Scheduler, save_context, next_slot, scheduler_switch_from_isr,
}
use learning_os_project.Scheduler.Slots.{count_runnable-pos, get_or-set_task}
use learning_os_project.Scheduler.Invariant.{
  IsValid, IsConsistent, save_context-IsConsistent, save_in_task, save_in_kernel,
}
use learning_os_project.Scheduler.Switch.{
  runs, Switched, to_kernel, to_task, switch-Switched, Switched-IsValid, visited, next_slot-lt,
}

-- `n` switches that are due, one after the other: in each, the context that is interrupted has the
-- stack pointer that `esps` gives.
unfoldable pub switches : (ℕ → ℕ) → ℕ → Scheduler → Scheduler
unfolding scheduler_switch_from_isr
switches esps zero s = s
switches esps (suc n) s =
    switches (λ k. esps (k + 1)) n
      (scheduler_switch_from_isr (record s { need_resched = true }) (esps 0)).1

-- Scheduling is on, and the task in slot `i` can run.
pub record IsWaiting (s : Scheduler) (i : ℕ) : Type 0 where
  pub valid : IsValid s
  pub enabled : s.scheduling_enabled ≡ true
  pub can_run : runs s.tasks i ≡ true

-- What saving the context leaves alone.
record Saved (s : Scheduler) (esp : ℕ) : Type 0 where
  same_runs : (i : ℕ) → runs (save_context s esp).tasks i ≡ runs s.tasks i
  same_count : (save_context s esp).task_count ≡ s.task_count
  same_current : (save_context s esp).current_task ≡ s.current_task
  same_enabled : (save_context s esp).scheduling_enabled ≡ s.scheduling_enabled

save_context-Saved : (s : Scheduler) (esp : ℕ) → IsConsistent s → Saved s esp
save_context-Saved s esp c = elim (Option-cases s.current_task) [
  | inl e ↦
      let eq = save_in_kernel s esp e in
      record {
        same_runs = λ i. rw eq refl;
        same_count = rw eq refl;
        same_current = rw eq refl;
        same_enabled = rw eq refl;
      }
  | inr (n, e) ↦
      let eq = save_in_task s n esp e in
      let inside = c.tables.current_in n e in
      let t = record (get_or s.tasks n no_task) { irq_esp = esp } in
      record {
        same_runs = λ i.
            let read =
              get_or-set_task s.tasks n i t
                (omega (arith, inside, c.tables.count_le, c.tables.slots)) in
            rw (eq, read)
              (elim (Bool-cases (n == i)) [
                | inl p ↦ rw p (ap (runs s.tasks) ((==_iff n i).0 p))
                | inr p ↦ rw p refl
              ]);
        same_count = rw eq refl;
        same_current = rw eq refl;
        same_enabled = rw eq refl;
      }
]

-- A switch makes the first task that can run current.
record Turn (s : Scheduler) (i : ℕ) (s' : Scheduler) : Type 0 where
  slot : ℕ
  chosen : s'.current_task ≡ some slot
  at : ℕ
  index : slot ≡ (next_slot s.task_count s.current_task + at) % s.task_count
  passed :
      (k : ℕ)
      → k < at
      → runs s.tasks ((next_slot s.task_count s.current_task + k) % s.task_count) ≡ false
  count : s'.task_count ≡ s.task_count
  waits : IsWaiting s' i

Switched-Turn :
    {saved : Scheduler} {esp i : ℕ} {s' : Scheduler}
    → IsConsistent saved
    → saved.scheduling_enabled ≡ true
    → runs saved.tasks i ≡ true
    → Switched saved esp s'
    → Turn saved i s'
Switched-Turn {saved = saved} {i = i} c on r (to_kernel idle) =
    let inside = c.tables.placed i r in
    let some_task =
      count_runnable-pos saved.tasks i (omega (arith, inside, c.tables.count_le, c.tables.slots))
        r in
    absurd (omega (arith, some_task, c.tables.counted, idle))
Switched-Turn {saved = saved} {esp} {i = i} {s'} c on r (to_task next busy f) = record {
  slot = next;
  chosen = refl;
  at = f.at;
  index = f.index;
  passed = f.passed;
  count = refl;
  waits = record {
    valid = Switched-IsValid {s = saved} {esp = esp} {s' = s'} c (to_task next busy f);
    enabled = on;
    can_run = r;
  };
}

switch-Turn :
    (s : Scheduler) (esp i : ℕ)
    → IsWaiting s i
    → Turn s i (scheduler_switch_from_isr (record s { need_resched = true }) esp).1
switch-Turn s esp i w =
    let due = record s { need_resched = true } in
    let c : IsConsistent due = record { tables = w.valid.tables } in
    let keeps = save_context-Saved due esp c in
    let inside = w.valid.tables.placed i w.can_run in
    let turn =
      Switched-Turn {saved = save_context due esp} {i = i} (save_context-IsConsistent esp c)
        (keeps.same_enabled ∙ w.enabled) (keeps.same_runs i ∙ w.can_run)
        (switch-Switched {s = due} esp c w.enabled (omega (arith, inside)) refl) in
    let start : next_slot (save_context due esp).task_count (save_context due esp).current_task
        ≡ next_slot s.task_count s.current_task =
      rw (keeps.same_count, keeps.same_current) refl in
    record {
      slot = turn.slot;
      chosen = turn.chosen;
      at = turn.at;
      index = turn.index ∙ rw (start, keeps.same_count) refl;
      passed = λ k l.
          sym (keeps.same_runs _)
          ∙ ap (λ (n : ℕ). runs (save_context due esp).tasks n) (rw (start, keeps.same_count) refl)
          ∙ turn.passed k l;
      count = turn.count ∙ keeps.same_count;
      waits = turn.waits;
    }

-- How far a slot is, counted from behind the slot `at` steps on.
remaining :
    (count next at d : ℕ)
    → at < d
    → (((next + at) % count + 1) % count + (d - at - 1)) % count ≡ (next + d) % count
remaining count next at d h =
    mod-add-mod ((next + at) % count + 1) count (d - at - 1)
    ∙ ap (λ x. x % count) (omega arith)
    ∙ mod-add-mod (next + at) count (1 + (d - at - 1))
    ∙ ap (λ x. x % count) (omega arith)

-- `d` slots lie between the one that is looked at first and slot `i`.
turn_comes :
    (bound d : ℕ) (s : Scheduler) (esps : ℕ → ℕ) (i : ℕ)
    → d < bound
    → IsWaiting s i
    → (next_slot s.task_count s.current_task + d) % s.task_count ≡ i
    → (k : ℕ) × (k ≤ d) × ((switches esps (suc k) s).current_task ≡ some i)
unfolding switches
turn_comes zero d s esps i h w e = absurd (omega arith)
turn_comes (suc bound) d s esps i h w e =
    let s' = (scheduler_switch_from_isr (record s { need_resched = true }) (esps 0)).1 in
    let turn = switch-Turn s (esps 0) i w in
    elim (dec_lt turn.at d) [
      | yes before ↦
          let near =
            remaining s.task_count (next_slot s.task_count s.current_task) turn.at d before in
          let next : next_slot s'.task_count s'.current_task ≡ (turn.slot + 1) % s.task_count =
            rw (turn.chosen, turn.count) refl in
          let place : (next_slot s'.task_count s'.current_task + (d - turn.at - 1)) % s'.task_count
              ≡ i =
            rw (next, turn.count, turn.index) (near ∙ e) in
          let (k, few, done) =
            turn_comes bound (d - turn.at - 1) s' (λ k. esps (k + 1)) i (omega arith) turn.waits
              place in
          (suc k, omega arith, done)
      | no reached ↦ elim (dec_lt d turn.at) [
        | yes over ↦ absurd (
            let idle = turn.passed d over in
            let clash : true ≡ false = sym w.can_run ∙ ap (runs s.tasks) (sym e) ∙ idle in cc)
        | no same ↦
            let exact : turn.at ≡ d = omega arith in
            (
              0,
              omega arith,
              turn.chosen
                  ∙ ap some (
                      turn.index
                      ∙ ap (λ (n : ℕ). (next_slot s.task_count s.current_task + n) % s.task_count)
                          exact
                      ∙ e),
            )
      ]
    ]

-- In a valid state with scheduling on, however many switches are due one after the other and
-- whatever they interrupt, a task that can run is made current by one of the first `task_count`.
pub switches-fair :
    (s : Scheduler) (esps : ℕ → ℕ) (i : ℕ)
    → IsWaiting s i
    → (k : ℕ) × (k < s.task_count) × ((switches esps (suc k) s).current_task ≡ some i)
switches-fair s esps i w =
    let inside = w.valid.tables.placed i w.can_run in
    let (d, few, place) =
      visited s.task_count (next_slot s.task_count s.current_task) i
        (next_slot-lt s.task_count s.current_task (omega (arith, inside))) inside in
    let (k, soon, done) = turn_comes (suc d) d s esps i (omega arith) w place in
    (k, omega arith, done)
