-- ===== src/Scheduler/Invariant.antt =====
-- The invariant of the scheduler's tables, and that every operation keeps it.
use learning_os_project.Common.{
  ℕ, zero, suc, ◌+◌, ◌-◌, ◌%◌, ◌^◌, ◌≤◌, ◌<◌, ◌≡◌, refl, ap, ◌∙◌, inl, inr, true, false, not, ◌||◌,
  Option, none, some, List, ltb, leb, ◌==◌, if◌then◌else◌, get_or, set, replicate, length,
  length-set, arith, Bool-cases, Option-cases, some-inj, subst, ==_iff,
}
use learning_os_project.Common.Int.{ℤ, pos}
use learning_os_project.Heap.{Heap, kmalloc, kfree}
use learning_os_project.Scheduler.{
  Task, TaskState, unused, runnable, zombie, no_task, is_unused, is_runnable, is_zombie, Scheduler,
  stack_size, scheduler_init, unused_slot, zombie_slot, start_task, task_context_init,
  scheduler_add, scheduler_start, scheduler_tick, task_yield, scheduler_exit, save_context,
  scheduler_wait,
}
use learning_os_project.Scheduler.Slots.{
  one_if, count_runnable, count_runnable-set, count_runnable-pos, get_or-set_task, unused_slot-some,
  zombie_slot-some,
}

-- The tables agree with one another.
pub record Tables (ts : List Task) (count active : ℕ) (current : Option ℕ) : Type 0 where
  pub slots : length ts ≡ 4
  pub count_le : count ≤ 4
  pub counted : active ≡ count_runnable ts
  pub placed : (i : ℕ) → is_runnable (get_or ts i no_task).state ≡ true → i < count
  pub current_in : (n : ℕ) → current ≡ some n → n < count

-- The current task can run.
abbrev pub Running : List Task → Option ℕ → Type 0
Running ts current = (n : ℕ) → current ≡ some n → is_runnable (get_or ts n no_task).state ≡ true

pub record IsConsistent (s : Scheduler) : Type 0 where
  pub tables : Tables s.tasks s.task_count s.active_tasks s.current_task

pub record IsValid (s : Scheduler) : Type 0 where
  pub tables : Tables s.tasks s.task_count s.active_tasks s.current_task
  pub running : Running s.tasks s.current_task

-- One slot is written, and the counters follow.
pub Tables-write :
    {ts : List Task} {count active : ℕ} {current : Option ℕ} (i : ℕ) (t : Task) (count' active' : ℕ)
    → Tables ts count active current
    → i < 4
    → count ≤ count'
    → count' ≤ 4
    → (is_runnable t.state ≡ true → i < count')
    → active' + one_if (is_runnable (get_or ts i no_task).state)
      ≡ active + one_if (is_runnable t.state)
    → Tables (set ts i t) count' active' current
Tables-write {ts} {count} {active} {current} i t count' active' tb hi up top here eq = record {
  slots = length-set ts i t ∙ tb.slots;
  count_le = top;
  counted = omega (arith, count_runnable-set ts i t (omega (arith, tb.slots)), tb.counted);
  placed = λ j r. elim (Bool-cases (i == j)) [
    | inl e ↦
        let same : i ≡ j = (==_iff i j).0 e in
        rw same at (here (rw (get_or-set_task ts i j t (omega (arith, tb.slots)), e) at r))
    | inr e ↦
        omega (arith, tb.placed j (rw (get_or-set_task ts i j t (omega (arith, tb.slots)), e) at r))
  ];
  current_in = λ n e. omega (arith, tb.current_in n e);
}

pub Running-write :
    (ts : List Task) (current : Option ℕ) (i : ℕ) (t : Task)
    → i < length ts
    → (is_runnable (get_or ts i no_task).state ≡ true → is_runnable t.state ≡ true)
    → Running ts current
    → Running (set ts i t) current
Running-write ts current i t h keep r n e =
    rw (get_or-set_task ts i n t h) (elim (Bool-cases (i == n)) [
      | inl p ↦ let same : i ≡ n = (==_iff i n).0 p in rw p (keep (rw same (r n e)))
      | inr p ↦ rw p (r n e)
    ])

pub scheduler_init-IsValid : (s : Scheduler) → IsValid (scheduler_init s)
unfolding scheduler_init count_runnable
scheduler_init-IsValid s = record {
  tables = record {
    slots = refl;
    count_le = omega arith;
    counted = refl;
    placed = none_placed;
    current_in = λ n e. cc;
  };
  running = λ n e. cc;
}
  where
    none_placed :
        (i : ℕ) → is_runnable (get_or (replicate 4 no_task) i no_task).state ≡ true → i < 0
    none_placed zero e = cc
    none_placed (suc zero) e = cc
    none_placed (suc (suc zero)) e = cc
    none_placed (suc (suc (suc zero))) e = cc
    none_placed (suc (suc (suc (suc i)))) e = cc

-- A stack pointer does not enter the tables.
pub save_in_task :
    (s : Scheduler) (n esp : ℕ)
    → s.current_task ≡ some n
    → save_context s esp
      ≡ record s { tasks = set s.tasks n (record (get_or s.tasks n no_task) { irq_esp = esp }) }
unfolding save_context
save_in_task s n esp e = ground arith

pub save_in_kernel :
    (s : Scheduler) (esp : ℕ)
    → s.current_task ≡ none
    → save_context s esp ≡ record s { kernel_esp = esp }
unfolding save_context
save_in_kernel s esp e = ground arith

pub save_context-IsConsistent :
    {s : Scheduler} (esp : ℕ) → IsConsistent s → IsConsistent (save_context s esp)
save_context-IsConsistent {s} esp c = elim (Option-cases s.current_task) [
  | inl e ↦ rw (save_in_kernel s esp e) (record { tables = c.tables })
  | inr (n, e) ↦
      let t = get_or s.tasks n no_task in
      let inside = c.tables.current_in n e in
      rw (save_in_task s n esp e) (record {
        tables =
            Tables-write n (record t { irq_esp = esp }) s.task_count s.active_tasks c.tables
              (omega (arith, inside, c.tables.count_le)) (omega arith) c.tables.count_le
              (λ r. inside) refl;
      })
]

pub save_context-IsValid : {s : Scheduler} (esp : ℕ) → IsValid s → IsValid (save_context s esp)
save_context-IsValid {s} esp v = elim (Option-cases s.current_task) [
  | inl e ↦ rw (save_in_kernel s esp e) (record { tables = v.tables; running = v.running })
  | inr (n, e) ↦
      let t = get_or s.tasks n no_task in
      let inside = v.tables.current_in n e in
      rw (save_in_task s n esp e) (record {
        tables =
            Tables-write n (record t { irq_esp = esp }) s.task_count s.active_tasks v.tables
              (omega (arith, inside, v.tables.count_le)) (omega arith) v.tables.count_le
              (λ r. inside) refl;
        running =
            Running-write s.tasks s.current_task n (record t { irq_esp = esp })
              (omega (arith, inside, v.tables.count_le, v.tables.slots)) (λ r. r) v.running;
      })
]

not_unused : (st : TaskState) → is_unused st ≡ true → is_runnable st ≡ false
not_unused unused e = refl
not_unused runnable e = cc
not_unused zombie e = cc

not_zombie : (st : TaskState) → is_zombie st ≡ true → is_runnable st ≡ false
not_zombie unused e = cc
not_zombie runnable e = cc
not_zombie zombie e = refl

start_task-IsValid :
    {s : Scheduler} (entry slot stack_base : ℕ)
    → IsValid s
    → slot < 4
    → is_runnable (get_or s.tasks slot no_task).state ≡ false
    → IsValid (start_task s entry slot stack_base)
unfolding start_task
start_task-IsValid {s} entry slot stack_base v h idle =
    let t : Task = record {
      irq_esp = (task_context_init entry ((stack_base + stack_size) % 2 ^ 32) s.stored).0;
      stack_base = stack_base;
      pid = s.next_pid;
      exit_code = pos 0;
      state = runnable;
    } in
    record {
      tables =
          Tables-write slot t (if leb s.task_count slot then slot + 1 else s.task_count)
            (s.active_tasks + 1) v.tables h (ground (arith, v.tables.count_le))
            (ground (arith, v.tables.count_le)) (λ r. ground arith) (omega (arith, ap one_if idle));
      running =
          Running-write s.tasks s.current_task slot t (omega (arith, v.tables.slots)) (λ r. refl)
            v.running;
    }

-- `scheduler_add` keeps the invariant, whatever it returns.
pub scheduler_add-IsValid :
    {s : Scheduler} (entry : ℕ) → IsValid s → IsValid (scheduler_add s entry).1
unfolding scheduler_add
scheduler_add-IsValid {s} entry v = elim (Bool-cases (entry == 0)) [
  | inl e ↦ rw e v
  | inr e ↦ elim (Option-cases (unused_slot s.tasks 0)) [
    | inl none_free ↦ rw (e, none_free) v
    | inr (slot, found) ↦
        let (low, high, idle) = unused_slot-some s.tasks 0 found in
        let (stack_base, heap) = kmalloc s.heap stack_size in
        let s' : Scheduler = record s { heap = heap } in
        let v' : IsValid s' = record { tables = v.tables; running = v.running } in
        elim (Bool-cases (stack_base == 0)) [
          | inl z ↦ rw (e, found, z) v'
          | inr z ↦
              rw (e, found, z)
                (start_task-IsValid {s = s'} entry slot stack_base v'
                  (omega (arith, v.tables.slots))
                  (not_unused _ (let at : slot - 0 ≡ slot = omega arith in rw at at idle)))
        ]
  ]
]

pub scheduler_start-IsValid : {s : Scheduler} → IsValid s → IsValid (scheduler_start s).1
unfolding scheduler_start
scheduler_start-IsValid {s} v = elim (Bool-cases (s.active_tasks == 0)) [
  | inl e ↦ rw e v
  | inr e ↦
      let tb : Tables s.tasks s.task_count s.active_tasks none = record {
        slots = v.tables.slots;
        count_le = v.tables.count_le;
        counted = v.tables.counted;
        placed = v.tables.placed;
        current_in = λ n p. cc;
      } in
      rw e (record { tables = tb; running = λ n p. cc })
]

pub scheduler_tick-IsValid : {s : Scheduler} → IsValid s → IsValid (scheduler_tick s)
unfolding scheduler_tick
scheduler_tick-IsValid {s} v = elim (Bool-cases (not s.scheduling_enabled || ltb s.task_count 2)) [
  | inl e ↦ rw e v
  | inr e ↦ rw e (record { tables = v.tables; running = v.running })
]

pub task_yield-IsValid : {s : Scheduler} → IsValid s → IsValid (task_yield s).1
unfolding task_yield
task_yield-IsValid {s} v = elim (Bool-cases (not s.scheduling_enabled || ltb s.task_count 2)) [
  | inl e ↦ rw e v
  | inr e ↦ rw e (record { tables = v.tables; running = v.running })
]

-- What `scheduler_exit` leaves when it has a current task.
abbrev exited : Scheduler → ℕ → ℤ → Scheduler
exited s prev code = record s {
  tasks =
      set s.tasks prev (record (get_or s.tasks prev no_task) { state = zombie; exit_code = code });
  active_tasks = s.active_tasks - 1;
  need_resched = true;
}

pub exit_current :
    (s : Scheduler) (code : ℤ) (prev : ℕ)
    → (not s.scheduling_enabled || (s.task_count == 0)) ≡ false
    → s.current_task ≡ some prev
    → scheduler_exit s code ≡ some (true, exited s prev code)
unfolding scheduler_exit
exit_current s code prev e c = simp (e, c)

pub exited-IsConsistent :
    {s : Scheduler} (prev : ℕ) (code : ℤ)
    → IsValid s
    → s.current_task ≡ some prev
    → IsConsistent (exited s prev code)
exited-IsConsistent {s} prev code v c =
    let inside = v.tables.current_in prev c in
    let on = v.running prev c in
    let some_active =
      count_runnable-pos s.tasks prev (omega (arith, inside, v.tables.count_le, v.tables.slots))
        on in
    record {
      tables =
          Tables-write prev
            (record (get_or s.tasks prev no_task) { state = zombie; exit_code = code }) s.task_count
            (s.active_tasks - 1) v.tables (omega (arith, inside, v.tables.count_le)) (omega arith)
            v.tables.count_le (λ r. cc)
            (omega (arith, ap one_if on, some_active, v.tables.counted));
    }

-- The zombie's slot is given back, whatever becomes of its stack.
freed-IsValid :
    {s : Scheduler} (i : ℕ) (heap : Heap)
    → IsValid s
    → i < 4
    → is_zombie (get_or s.tasks i no_task).state ≡ true
    → IsValid (record s {
      tasks = set s.tasks i (record (get_or s.tasks i no_task) { stack_base = 0; state = unused });
      heap = heap;
    })
freed-IsValid {s} i heap v h z =
    let t : Task = record (get_or s.tasks i no_task) { stack_base = 0; state = unused } in
    let idle = not_zombie (get_or s.tasks i no_task).state z in
    record {
      tables =
          Tables-write i t s.task_count s.active_tasks v.tables h (omega arith) v.tables.count_le
            (λ r. cc) (omega (arith, ap one_if idle));
      running =
          Running-write s.tasks s.current_task i t (omega (arith, v.tables.slots)) (λ r. cc)
            v.running;
    }

-- The wait for a pid frees a zombie's slot and touches nothing that can run.
pub scheduler_wait-IsValid :
    {s : Scheduler} (pid : ℕ) {status : ℤ} {code : Option ℤ} {s' : Scheduler}
    → IsValid s
    → scheduler_wait s pid ≡ some (status, code, s')
    → IsValid s'
unfolding scheduler_wait
scheduler_wait-IsValid {s} pid {status} {code} {s'} v e =
    elim (Option-cases (zombie_slot s.tasks s.task_count 0 pid)) [
      | inl p ↦
          let eq = some-inj (rw (p, scheduler_wait) at e) in
          let same : s ≡ s' = ap (λ r. r.2) eq in subst (λ x. IsValid x) same v
      | inr (i, p) ↦
          let (low, high, below, at_pid, z) = zombie_slot-some s.tasks s.task_count 0 pid p in
          let here : i - 0 ≡ i = omega arith in
          let h : i < 4 = omega (arith, v.tables.slots) in
          elim (Bool-cases ((get_or s.tasks i no_task).stack_base == 0)) [
            | inl q ↦
                let eq = some-inj (rw (p, q, scheduler_wait) at e) in
                subst (λ x. IsValid x) (ap (λ r. r.2) eq)
                  (freed-IsValid i s.heap v h (rw here at z))
            | inr q ↦ elim (Option-cases (kfree s.heap (get_or s.tasks i no_task).stack_base)) [
              | inl k ↦ absurd (let x = rw (p, q, k, scheduler_wait) at e in cc)
              | inr (heap, k) ↦
                  let eq = some-inj (rw (p, q, k, scheduler_wait) at e) in
                  subst (λ x. IsValid x) (ap (λ r. r.2) eq)
                    (freed-IsValid i heap v h (rw here at z))
            ]
          ]
    ]
