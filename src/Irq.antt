-- ===== src/Irq.antt =====
-- src/interrupt/irq.c: the handlers of the sixteen hardware interrupts, and what an interrupt runs.
use learning_os_project.Common.{
  ℕ, ◌+◌, ◌-◌, ◌%◌, ◌<◌, ◌≡◌, ◌≢◌, refl, true, false, ◌&&◌, Option, none, some, List, leb, ltb,
  ◌==◌, if◌then◌else◌, get_or, set, length, get_or-set_self, get_or-set_ne, arith, Bool-cases, inl,
  inr,
}

-- `irq_handlers`; `none` is a null pointer, and a handler is known by its address.
abbrev pub Handlers : Type 0
Handlers = List (Option ℕ)

unfoldable pub register_irq_handler : Handlers → ℕ → Option ℕ → Handlers
register_irq_handler handlers irq handler =
    if ltb irq 16 then set handlers irq handler else handlers

-- What the dispatch calls, as functions of everything they change: `syscall_handler`, the
-- handler at
-- an address, `log_warn` for an interrupt without handler, and `pic_send_eoi`.
pub record Calls (W : Type 0) : Type 0 where
  pub syscall : W → W
  pub handler : ℕ → W → W
  pub warn : ℕ → W → W
  pub eoi : ℕ → W → W

module _ {W : Type 0} (calls : Calls W) where
  abbrev pub run_handler : Option ℕ → ℕ → W → W
  run_handler none irq w = calls.warn irq w
  run_handler (some address) irq w = calls.handler address w

  -- `none`: an exception, for which the kernel panics and does not go on.
  unfoldable pub irq_handler : Handlers → ℕ → W → Option W
  irq_handler handlers int_no w =
      if ltb int_no 32
      then none
      else if int_no == 128
      then some (calls.syscall w)
      else if leb 32 int_no && leb int_no 47
      then some (
          calls.eoi (int_no % 256)
            (run_handler (get_or handlers ((int_no - 32) % 256) none) ((int_no - 32) % 256) w))
      else some w

  -- In a table of sixteen, once a handler has been registered for a hardware interrupt below 16,
  -- that interrupt runs the handler and is acknowledged, and every other number does what it did.
  pub irq_handler-register_irq_handler :
      (handlers : Handlers) (irq address : ℕ) (w : W)
      → length handlers ≡ 16
      → irq < 16
      → (irq_handler (register_irq_handler handlers irq (some address)) (32 + irq) w
          ≡ some (calls.eoi (32 + irq) (calls.handler address w)))
        × ((n : ℕ)
            → n ≢ 32 + irq
            → irq_handler (register_irq_handler handlers irq (some address)) n w
              ≡ irq_handler handlers n w)
  unfolding irq_handler register_irq_handler
  irq_handler-register_irq_handler handlers irq address w size h =
      let low : ltb irq 16 ≡ true = ground arith in
      let no_fault : ltb (32 + irq) 32 ≡ false = ground arith in
      let no_call : (32 + irq == 128) ≡ false = ground arith in
      let hardware : (leb 32 (32 + irq) && leb (32 + irq) 47) ≡ true = ground arith in
      let index : (32 + irq - 32) % 256 ≡ irq = omega arith in
      let number : (32 + irq) % 256 ≡ 32 + irq = omega arith in
      let read = get_or-set_self handlers irq (some address) none (omega (arith, size)) in
      (
        rw (low, no_fault, no_call, hardware, index, number, read) refl,
        λ n ne. elim (Bool-cases (leb 32 n && leb n 47)) [
          | inr q ↦ rw (low, q, irq_handler) refl
          | inl q ↦
              let apart : irq ≢ (n - 32) % 256 = λ e. ne (ground arith) in
              let same =
                get_or-set_ne handlers {i = irq} {j = (n - 32) % 256} (some address) none apart in
              rw (low, q, same, irq_handler) refl
        ],
      )
