-- ===== src/Scheduler/Switch.antt =====
-- `scheduler_switch_from_isr`: which context the interrupt returns to.
use learning_os_project.Common.{
  ℕ, zero, suc, ◌+◌, ◌-◌, ◌%◌, ◌<◌, ◌≡◌, refl, sym, ap, ◌∙◌, inl, inr, Bool, true, false, not, ◌||◌,
  Option, none, some, List, dec_lt, ◌==◌, get_or, set, get_or-set_self, get_or-set_ne, ◌≢◌, arith,
  Bool-cases, Option-cases, some-inj, subst, ==_iff,
}
use native.Mathlib.Nat.{mod-add-mod, mod-eq_of_lt, mod-lt, add-mod_right}
use learning_os_project.Scheduler.{
  Task, no_task, is_runnable, Scheduler, save_context, next_slot, scan, pick_next,
  scheduler_switch_from_isr,
}
use learning_os_project.Scheduler.Slots.{runnable_slot}
use learning_os_project.Scheduler.Invariant.{
  Tables, IsValid, IsConsistent, save_context-IsConsistent, save_context-IsValid, save_in_task,
  save_in_kernel,
}

abbrev pub runs : List Task → ℕ → Bool
runs ts i = is_runnable (get_or ts i no_task).state

-- `j` is the first runnable slot at or after `next`, round at `count`.
pub record FirstFrom (ts : List Task) (count next j : ℕ) : Type 0 where
  pub at : ℕ
  pub index : j ≡ (next + at) % count
  pub runnable_there : runs ts j ≡ true
  pub passed : (k : ℕ) → k < at → runs ts ((next + k) % count) ≡ false

step_index : (next k count : ℕ) → ((next + 1) % count + k) % count ≡ (next + suc k) % count
step_index next k count = mod-add-mod (next + 1) count k ∙ ap (λ x. x % count) (omega arith)

at_start : {next count : ℕ} → next < count → (next + 0) % count ≡ next
at_start {next} {count} h = ap (λ x. x % count) (omega arith) ∙ mod-eq_of_lt h

scan-some :
    (ts : List Task) (count rounds next : ℕ) {j : ℕ}
    → next < count
    → scan ts count rounds next ≡ some j
    → FirstFrom ts count next j
unfolding scan
scan-some ts count zero next h e = cc
scan-some ts count (suc rounds) next {j} h e = elim (Bool-cases (runs ts next)) [
  | inl r ↦
      let same : next ≡ j = some-inj (rw r at e) in
      record {
        at = 0;
        index = sym same ∙ sym (at_start h);
        runnable_there = rw same at r;
        passed = λ k l. absurd (omega arith);
      }
  | inr r ↦
      let f =
        scan-some ts count rounds ((next + 1) % count) {j = j} (mod-lt (next + 1) (omega arith))
          (rw r at e) in
      record {
        at = suc f.at;
        index = f.index ∙ step_index next f.at count;
        runnable_there = f.runnable_there;
        passed = later f.at f.passed r;
      }
]
  where
    later :
        (n : ℕ)
        → ((k : ℕ) → k < n → runs ts (((next + 1) % count + k) % count) ≡ false)
        → runs ts next ≡ false
        → (k : ℕ) → k < suc n
        → runs ts ((next + k) % count) ≡ false
    later n before r zero l = ap (runs ts) (at_start h) ∙ r
    later n before r (suc k) l =
        ap (runs ts) (sym (step_index next k count)) ∙ before k (omega arith)

scan-none :
    (ts : List Task) (count rounds next : ℕ)
    → next < count
    → scan ts count rounds next ≡ none
    → (k : ℕ) → k < rounds
    → runs ts ((next + k) % count) ≡ false
unfolding scan
scan-none ts count zero next h e k l = absurd (omega arith)
scan-none ts count (suc rounds) next h e k l = elim (Bool-cases (runs ts next)) [
  | inl r ↦ absurd (let x = rw r at e in cc)
  | inr r ↦
      from k l r (
        scan-none ts count rounds ((next + 1) % count) (mod-lt (next + 1) (omega arith))
          (rw r at e))
]
  where
    from :
        (k : ℕ)
        → k < suc rounds
        → runs ts next ≡ false
        → ((i : ℕ) → i < rounds → runs ts (((next + 1) % count + i) % count) ≡ false)
        → runs ts ((next + k) % count) ≡ false
    from zero l r before = ap (runs ts) (at_start h) ∙ r
    from (suc k) l r before = ap (runs ts) (sym (step_index next k count)) ∙ before k (omega arith)

-- One round visits every slot.
pub visited :
    (count next i : ℕ) → next < count → i < count → (k : ℕ) × (k < count) × ((next + k) % count ≡ i)
visited count next i h l = elim (dec_lt i next) [
  | yes before ↦ (
    i + count - next,
    omega arith,
    ap (λ x. x % count) (omega arith) ∙ add-mod_right i count ∙ mod-eq_of_lt l,
  )
  | no after ↦ (i - next, omega arith, ap (λ x. x % count) (omega arith) ∙ mod-eq_of_lt l)
]

pub next_slot-lt : (count : ℕ) (current : Option ℕ) → 0 < count → next_slot count current < count
next_slot-lt count none h = h
next_slot-lt count (some n) h = mod-lt (n + 1) h

-- A search that starts inside the slots in use misses no runnable one.
scan-finds :
    {ts : List Task} {count active : ℕ} {current : Option ℕ} (next : ℕ)
    → Tables ts count active current
    → 0 < active
    → next < count
    → (j : ℕ) × (scan ts count count next ≡ some j) × FirstFrom ts count next j
scan-finds {ts} {count} {active} next tb h l = elim (Option-cases (scan ts count count next)) [
  | inr (j, e) ↦ (j, e, scan-some ts count count next l e)
  | inl e ↦
      let (i, inside, r) = runnable_slot ts (omega (arith, tb.counted)) in
      let (k, few, place) = visited count next i l (tb.placed i r) in
      let idle = scan-none ts count count next l e k few in
      let idle_there : runs ts i ≡ false = ap (runs ts) (sym place) ∙ idle in
      absurd (let clash : true ≡ false = sym r ∙ idle_there in cc)
]

-- `s` is the state with the interrupted context saved, `esp` and `s'` what the switch gives.
pub data Switched (s : Scheduler) : ℕ → Scheduler → Type 0 where
  to_kernel :
      s.active_tasks ≡ 0
      → Switched s s.kernel_esp
          (record s { need_resched = false; current_task = none; scheduling_enabled = false })
  to_task :
      (next : ℕ)
      → 0 < s.active_tasks
      → FirstFrom s.tasks s.task_count (next_slot s.task_count s.current_task) next
      → Switched s
          (get_or s.tasks next no_task).irq_esp
          (record s { need_resched = false; current_task = some next })

pick_next-Switched :
    {s : Scheduler}
    → IsConsistent s
    → 0 < s.task_count
    → Switched s
        (pick_next (record s { need_resched = false })).0
        (pick_next (record s { need_resched = false })).1
unfolding pick_next
pick_next-Switched {s} c some_slot = elim (Bool-cases (s.active_tasks == 0)) [
  | inl e ↦ rw e (to_kernel ((==_iff s.active_tasks 0).0 e))
  | inr e ↦
      let first = next_slot s.task_count s.current_task in
      let pos_active : 0 < s.active_tasks = ground arith in
      let (j, found, f) =
        scan-finds first c.tables pos_active (next_slot-lt s.task_count s.current_task some_slot) in
      rw (e, found) (to_task j pos_active f)
]

save_context-keeps :
    (s : Scheduler) (esp : ℕ)
    → ((save_context s esp).task_count ≡ s.task_count)
      × ((save_context s esp).need_resched ≡ s.need_resched)
unfolding save_context
save_context-keeps s esp = elim (Option-cases s.current_task) [
  | inl e ↦ (ground arith, ground arith)
  | inr (n, e) ↦ (ground arith, ground arith)
]

due_switch :
    (s : Scheduler) (esp : ℕ)
    → s.scheduling_enabled ≡ true
    → 0 < s.task_count
    → s.need_resched ≡ true
    → scheduler_switch_from_isr s esp
      ≡ pick_next (record (save_context s esp) { need_resched = false })
unfolding scheduler_switch_from_isr
due_switch s esp on some_slot due =
    let some_task : (s.task_count == 0) ≡ false = ground arith in
    let asked : (save_context s esp).need_resched ≡ true = (save_context-keeps s esp).1 ∙ due in
    simp (on, some_task, asked)

-- What follows the saving of the context, as `Switched` describes it.
pub switch-Switched :
    {s : Scheduler} (esp : ℕ)
    → IsConsistent s
    → s.scheduling_enabled ≡ true
    → 0 < s.task_count
    → s.need_resched ≡ true
    → Switched
        (save_context s esp)
        (scheduler_switch_from_isr s esp).0
        (scheduler_switch_from_isr s esp).1
switch-Switched {s} esp c on some_slot due =
    let some_saved : 0 < (save_context s esp).task_count =
      omega (arith, (save_context-keeps s esp).0) in
    subst (λ (r : ℕ × Scheduler). Switched (save_context s esp) r.0 r.1)
      (sym (due_switch s esp on some_slot due))
      (pick_next-Switched (save_context-IsConsistent esp c) some_saved)

-- `saved` is `s` with `esp` as the stack pointer of the context that was interrupted: the current
-- task's, or the kernel's where there is none. Nothing else differs.
pub record ContextSaved (s : Scheduler) (esp : ℕ) (saved : Scheduler) : Type 0 where
  pub of_task :
      (n : ℕ)
      → s.current_task ≡ some n
      → (get_or saved.tasks n no_task ≡ record (get_or s.tasks n no_task) { irq_esp = esp })
        × (saved.kernel_esp ≡ s.kernel_esp)
  pub of_kernel : s.current_task ≡ none → saved.kernel_esp ≡ esp
  pub other_tasks :
      (i : ℕ) → s.current_task ≢ some i → get_or saved.tasks i no_task ≡ get_or s.tasks i no_task
  pub rest : saved ≡ record s { tasks = saved.tasks; kernel_esp = saved.kernel_esp }

save_context-ContextSaved :
    (s : Scheduler) (esp : ℕ) → IsConsistent s → ContextSaved s esp (save_context s esp)
save_context-ContextSaved s esp c = elim (Option-cases s.current_task) [
  | inl e ↦ rw (save_in_kernel s esp e) (record {
    of_task = λ n p. absurd (let clash : none ≡ some n = sym e ∙ p in cc);
    of_kernel = λ p. refl;
    other_tasks = λ i ne. refl;
    rest = refl;
  })
  | inr (n, e) ↦
      let t = get_or s.tasks n no_task in
      let inside = c.tables.current_in n e in
      let here =
        get_or-set_self s.tasks n (record t { irq_esp = esp }) no_task
          (omega (arith, inside, c.tables.count_le, c.tables.slots)) in
      rw (save_in_task s n esp e) (record {
        of_task = λ m p. (
          subst
              (λ (i : ℕ).
                get_or (set s.tasks n (record t { irq_esp = esp })) i no_task
                ≡ record (get_or s.tasks i no_task) { irq_esp = esp })
              (some-inj (sym e ∙ p)) here,
          refl,
        );
        of_kernel = λ p. absurd (let clash : none ≡ some n = sym p ∙ e in cc);
        other_tasks = λ i ne.
            get_or-set_ne s.tasks (record t { irq_esp = esp }) no_task
              (λ (q : n ≡ i). ne (e ∙ ap some q));
        rest = refl;
      })
]

-- When scheduling is on, a slot is in use, a switch is asked for and the tables agree (a
-- current task that has just exited may stand in them), `scheduler_switch_from_isr` stores the
-- interrupted stack pointer in the current task, or in the kernel's context where there is none,
-- and changes no other context; then, if no task is active, it returns the kernel's stack pointer
-- and turns scheduling off; else it returns the saved stack pointer of the first runnable task
-- behind the current one, round at `task_count`, makes it current, and every slot passed on the
-- way is not runnable.
pub switch_lem :
    {s : Scheduler} (esp : ℕ)
    → IsConsistent s
    → s.scheduling_enabled ≡ true
    → 0 < s.task_count
    → s.need_resched ≡ true
    → (saved : Scheduler) × ContextSaved s esp saved
      × Switched saved (scheduler_switch_from_isr s esp).0 (scheduler_switch_from_isr s esp).1
switch_lem {s} esp c on some_slot due = (
  save_context s esp,
  save_context-ContextSaved s esp c,
  switch-Switched {s = s} esp c on some_slot due,
)

-- Whatever a due switch gives can run.
pub Switched-IsValid :
    {s : Scheduler} {esp : ℕ} {s' : Scheduler} → IsConsistent s → Switched s esp s' → IsValid s'
Switched-IsValid c (to_kernel e) = record {
  tables = record {
    slots = c.tables.slots;
    count_le = c.tables.count_le;
    counted = c.tables.counted;
    placed = c.tables.placed;
    current_in = λ n p. cc;
  };
  running = λ n p. cc;
}
Switched-IsValid {s} c (to_task next a f) =
    let place : (n : ℕ) → some next ≡ some n → n < s.task_count =
      λ n p. omega (arith, some-inj p, c.tables.placed next f.runnable_there) in
    record {
      tables = record {
        slots = c.tables.slots;
        count_le = c.tables.count_le;
        counted = c.tables.counted;
        placed = c.tables.placed;
        current_in = place;
      };
      running = λ n p. subst (λ i. runs s.tasks i ≡ true) (some-inj p) f.runnable_there;
    }

pub switch-IsValid :
    {s : Scheduler} (esp : ℕ) → IsValid s → IsValid (scheduler_switch_from_isr s esp).1
unfolding scheduler_switch_from_isr
switch-IsValid {s} esp v = elim (Bool-cases (not s.scheduling_enabled || (s.task_count == 0))) [
  | inl e ↦ rw e v
  | inr e ↦ elim (Bool-cases s.need_resched) [
    | inl d ↦
        let on : s.scheduling_enabled ≡ true = ground arith in
        let some_slot : 0 < s.task_count = ground arith in
        Switched-IsValid (save_context-IsConsistent esp (record { tables = v.tables }))
          (switch-Switched {s = s} esp (record { tables = v.tables }) on some_slot d)
    | inr d ↦
        let calm : (save_context s esp).need_resched ≡ false = (save_context-keeps s esp).1 ∙ d in
        simp (e, calm) (save_context-IsValid esp v)
  ]
]
