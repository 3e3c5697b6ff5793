-- ===== src/Scheduler.antt =====
-- src/proc/scheduler.c and src/proc/task.c: the round-robin scheduler over four task slots.
-- `int $0x20` is not run here: a function that executes it says so by a Boolean, and
-- `scheduler_switch_from_isr` is what the interrupt's return path then calls.
pub mod Slots
pub mod Invariant
pub mod Switch
pub mod Reach
pub mod Fairness
use learning_os_project.Common.{
  ℕ, zero, suc, ◌+◌, ◌-◌, ◌%◌, ◌^◌, Bool, true, false, not, ◌&&◌, ◌||◌, Option, none, some, List,
  [], ◌∷◌, ltb, leb, ◌==◌, if◌then◌else◌, get_or, set, replicate,
}
use learning_os_project.Common.Int.{ℤ, pos, negsuc}
use learning_os_project.Heap.{Heap, kmalloc, kfree}

abbrev pub max_tasks : ℕ
max_tasks = 4

abbrev pub stack_size : ℕ
stack_size = 4096

-- `enum task_state`
pub data TaskState : Type 0 where
  unused runnable zombie : TaskState

-- `struct task`; `irq_esp` is its context.
pub record Task : Type 0 where
  pub irq_esp : ℕ
  pub stack_base : ℕ
  pub pid : ℕ
  pub exit_code : ℤ
  pub state : TaskState

abbrev pub no_task : Task
no_task = record { irq_esp = 0; stack_base = 0; pid = 0; exit_code = pos 0; state = unused }

-- The static variables, with the heap that the scheduler takes stacks from, and the words that it
-- has stored on those stacks (address and value, the last one first). `current_task` is `none` in
-- the kernel's context, where the code has -1.
pub record Scheduler : Type 0 where
  pub tasks : List Task
  pub task_count : ℕ
  pub current_task : Option ℕ
  pub active_tasks : ℕ
  pub scheduling_enabled : Bool
  pub need_resched : Bool
  pub kernel_esp : ℕ
  pub next_pid : ℕ
  pub ticks : ℕ
  pub heap : Heap
  pub stored : List (ℕ × ℕ)

unfoldable pub scheduler_init : Scheduler → Scheduler
scheduler_init s = record s {
  tasks = replicate max_tasks no_task;
  task_count = 0;
  current_task = none;
  active_tasks = 0;
  scheduling_enabled = false;
  need_resched = false;
  next_pid = 1;
}

abbrev pub is_unused : TaskState → Bool
is_unused unused = true
is_unused runnable = false
is_unused zombie = false

abbrev pub is_runnable : TaskState → Bool
is_runnable unused = false
is_runnable runnable = true
is_runnable zombie = false

abbrev pub is_zombie : TaskState → Bool
is_zombie unused = false
is_zombie runnable = false
is_zombie zombie = true

-- `*--sp = value` for each value in turn: the last `sp`, and the words stored.
unfoldable pub push_all : List ℕ → ℕ → List (ℕ × ℕ) → ℕ × List (ℕ × ℕ)
push_all [] sp stored = (sp, stored)
push_all (v ∷ vs) sp stored =
    let sp' = (sp + 2 ^ 32 - 4) % 2 ^ 32 in push_all vs sp' ((sp', v) ∷ stored)

-- The interrupt frame: EFLAGS, CS, EIP, error code, number, EAX, ECX, EDX, EBX, ESP, EBP, ESI,
-- EDI, DS.
abbrev pub first_frame : ℕ → List ℕ
first_frame entry = 0x202 ∷ 0x08 ∷ entry ∷ 0 ∷ 0 ∷ 0 ∷ 0 ∷ 0 ∷ 0 ∷ 0 ∷ 0 ∷ 0 ∷ 0 ∷ 0x10 ∷ []

-- The stack pointer of the new context, and the words stored.
unfoldable pub task_context_init : ℕ → ℕ → List (ℕ × ℕ) → ℕ × List (ℕ × ℕ)
task_context_init entry stack_top stored = push_all (first_frame entry) stack_top stored

-- The first slot that is unused, from index `i` on.
unfoldable pub unused_slot : List Task → ℕ → Option ℕ
unused_slot [] i = none
unused_slot (t ∷ ts) i = if is_unused t.state then some i else unused_slot ts (i + 1)

-- What `scheduler_add` does once it has a slot and a stack.
unfoldable pub start_task : Scheduler → ℕ → ℕ → ℕ → Scheduler
start_task s entry slot stack_base =
    let (sp, stored) = task_context_init entry ((stack_base + stack_size) % 2 ^ 32) s.stored in
    record s {
      tasks = set s.tasks slot (record {
        irq_esp = sp;
        stack_base = stack_base;
        pid = s.next_pid;
        exit_code = pos 0;
        state = runnable;
      });
      next_pid = s.next_pid + 1;
      active_tasks = s.active_tasks + 1;
      task_count = if leb s.task_count slot then slot + 1 else s.task_count;
      stored = stored;
    }

-- `entry` is a code address, 0 for null. The result is the pid or -1.
unfoldable pub scheduler_add : Scheduler → ℕ → ℤ × Scheduler
scheduler_add s entry = if entry == 0 then (negsuc 0, s) else elim (unused_slot s.tasks 0) [
  | none ↦ (negsuc 0, s)
  | some slot ↦
      let (stack_base, heap) = kmalloc s.heap stack_size in
      if stack_base == 0
      then (negsuc 0, record s { heap = heap })
      else (pos s.next_pid, start_task (record s { heap = heap }) entry slot stack_base)
]

-- The Boolean says that the interrupt is raised.
unfoldable pub scheduler_start : Scheduler → Bool × Scheduler
scheduler_start s =
    if s.active_tasks == 0
    then (false, s)
    else (true, record s { scheduling_enabled = true; current_task = none; need_resched = true })

unfoldable pub scheduler_tick : Scheduler → Scheduler
scheduler_tick s =
    if not s.scheduling_enabled || ltb s.task_count 2
    then s
    else let ticks = (s.ticks + 1) % 2 ^ 32 in
      record s { ticks = ticks; need_resched = if ticks % 10 == 0 then true else s.need_resched }

unfoldable pub task_yield : Scheduler → Bool × Scheduler
task_yield s =
    if not s.scheduling_enabled || ltb s.task_count 2
    then (false, s)
    else (true, record s { need_resched = true })

-- `none`: no task is current, and the code writes before the array.
unfoldable pub scheduler_exit : Scheduler → ℤ → Option (Bool × Scheduler)
scheduler_exit s code =
    if not s.scheduling_enabled || (s.task_count == 0)
    then some (false, s)
    else elim s.current_task [
      | none ↦ none
      | some prev ↦ some (
        true,
        record s {
          tasks =
              set s.tasks prev
                (record (get_or s.tasks prev no_task) { state = zombie; exit_code = code });
          active_tasks = s.active_tasks - 1;
          need_resched = true;
        },
      )
    ]

-- The interrupted context keeps its stack pointer.
unfoldable pub save_context : Scheduler → ℕ → Scheduler
save_context s esp = elim s.current_task [
  | some n ↦ record s {
    tasks = set s.tasks n (record (get_or s.tasks n no_task) { irq_esp = esp });
  }
  | none ↦ record s { kernel_esp = esp }
]

abbrev pub next_slot : ℕ → Option ℕ → ℕ
next_slot count none = 0
next_slot count (some n) = (n + 1) % count

-- The first slot that is runnable, from `next` on and round at `count`.
unfoldable pub scan : List Task → ℕ → ℕ → ℕ → Option ℕ
scan tasks count zero next = none
scan tasks count (suc rounds) next =
    if is_runnable (get_or tasks next no_task).state
    then some next
    else scan tasks count rounds ((next + 1) % count)

-- What `scheduler_switch_from_isr` does when a switch is due: the stack pointer to go on with.
unfoldable pub pick_next : Scheduler → ℕ × Scheduler
pick_next s =
    if s.active_tasks == 0
    then (s.kernel_esp, record s { current_task = none; scheduling_enabled = false })
    else elim (scan s.tasks s.task_count s.task_count (next_slot s.task_count s.current_task)) [
      | some next ↦ ((get_or s.tasks next no_task).irq_esp, record s { current_task = some next })
      | none ↦ (s.kernel_esp, record s { current_task = none })
    ]

unfoldable pub scheduler_switch_from_isr : Scheduler → ℕ → ℕ × Scheduler
scheduler_switch_from_isr s current_esp =
    if not s.scheduling_enabled || (s.task_count == 0)
    then (current_esp, s)
    else let saved = save_context s current_esp in
      if not saved.need_resched
      then (current_esp, saved)
      else pick_next (record saved { need_resched = false })

-- The first zombie with that pid, among the first `task_count` slots.
unfoldable pub zombie_slot : List Task → ℕ → ℕ → ℕ → Option ℕ
zombie_slot [] n i pid = none
zombie_slot (t ∷ ts) zero i pid = none
zombie_slot (t ∷ ts) (suc n) i pid =
    if (t.pid == pid) && is_zombie t.state then some i else zombie_slot ts n (i + 1) pid

-- The status and the exit code stored; `none`: the stack is not a payload of the heap.
unfoldable pub scheduler_wait : Scheduler → ℕ → Option (ℤ × Option ℤ × Scheduler)
scheduler_wait s pid = elim (zombie_slot s.tasks s.task_count 0 pid) [
  | none ↦ some (negsuc 0, none, s)
  | some i ↦
      let t = get_or s.tasks i no_task in
      let freed = record s {
        tasks = set s.tasks i (record t { stack_base = 0; state = unused });
      } in
      if t.stack_base == 0
      then some (pos 0, some t.exit_code, freed)
      else elim (kfree s.heap t.stack_base) [
        | none ↦ none
        | some heap ↦ some (pos 0, some t.exit_code, record freed { heap = heap })
      ]
]
