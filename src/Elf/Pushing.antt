-- ===== src/Elf/Pushing.antt =====
-- The loop of `elf_prepare_stack`, and the stack as a program finds it.
use learning_os_project.Common.{
  ℕ, zero, suc, ◌+◌, ◌-◌, ◌*◌, ◌/◌, ◌%◌, ◌^◌, ◌≤◌, ◌<◌, ◌≡◌, ◌⊎◌, inr, refl, ap, ◌∙◌, true, false,
  not, ◌||◌, Option, none, some, List, [], ◌∷◌, ◌++◌, ltb, ◌==◌, length, get_or, length-append,
  arith,
}
use learning_os_project.Common.Int.{pos}
use learning_os_project.Elf.Memory.{Memory, load32}
use learning_os_project.Elf.Stack.{
  store_word, store_text, arg_bytes, Pushed, push_args, store_words, prepared, push_argv,
  elf_prepare_stack,
}
use learning_os_project.Elf.Arguments.{
  Lead, Words, Small, Stands-same, store_text-out, store_text-Stands, store_word-out,
  load32-store_word, store_words-out, store_words-Words, Words-same,
}

-- The bytes that the first `n` arguments take.
abbrev pub total : List (Option (List ℕ)) → ℕ → ℕ
total argv zero = 0
total argv (suc n) = length (arg_bytes (get_or argv n none)) + total argv n

abbrev pub AllAbove : ℕ → List ℕ → Type 0
AllAbove low [] = Unit {0}
AllAbove low (p ∷ ptrs) = (low ≤ p) × (p < 2 ^ 32) × AllAbove low ptrs

AllAbove-le : (low low' : ℕ) (ptrs : List ℕ) → low' ≤ low → AllAbove low ptrs → AllAbove low' ptrs
AllAbove-le low low' [] h v = tt
AllAbove-le low low' (p ∷ ptrs) h v = (omega (arith, v.0), v.1, AllAbove-le low low' ptrs h v.2)

Lead-same :
    (mem mem' : Memory) (argv : List (Option (List ℕ))) (n low : ℕ) (ptrs : List ℕ)
    → ((b : ℕ) → low ≤ b → mem' b ≡ mem b)
    → AllAbove low ptrs
    → Lead mem argv n ptrs
    → Lead mem' argv n ptrs
Lead-same mem mem' argv n low [] same above v = tt
Lead-same mem mem' argv n low (p ∷ ptrs) same above v = (
  Stands-same mem mem' p (arg_bytes (get_or argv n none)) (λ b l k. same b (omega (arith, above.0)))
      v.0,
  Lead-same mem mem' argv (suc n) low ptrs same above.2 v.1,
)

-- What the loop leaves.
record PushedAll (argv : List (Option (List ℕ))) (low n top : ℕ) (mem : Memory) (count : ℕ)
    (r : Pushed) : Type 0 where
  memory : Memory
  sp : ℕ
  ptrs : List ℕ
  result : r ≡ (memory, some (sp, ptrs))
  sp_low : low ≤ sp
  sp_high : sp ≤ top
  leads : Lead memory argv 0 ptrs
  above : AllAbove sp ptrs
  number : length ptrs ≡ count
  same : (b : ℕ) → (b < sp) ⊎ (top ≤ b) → memory b ≡ mem b

push_args_lem :
    (stack_top stack_size : ℕ) (argv : List (Option (List ℕ))) (n : ℕ) (mem : Memory) (sp : ℕ)
    (ptrs : List ℕ)
    → stack_top < 2 ^ 31
    → stack_size ≤ stack_top
    → stack_top - stack_size + total argv n ≤ sp
    → sp ≤ stack_top
    → Lead mem argv n ptrs
    → AllAbove sp ptrs
    → PushedAll argv
        (stack_top - stack_size)
        n
        sp
        mem
        (n + length ptrs)
        (push_args stack_top stack_size argv n mem sp ptrs)
unfolding push_args
push_args_lem stack_top stack_size argv zero mem sp ptrs h k room top leads above = record {
  memory = mem;
  sp = sp;
  ptrs = ptrs;
  result = refl;
  sp_low = omega arith;
  sp_high = omega arith;
  leads = leads;
  above = above;
  number = omega arith;
  same = λ b l. refl;
}
push_args_lem stack_top stack_size argv (suc n) mem sp ptrs h k room top leads above =
    let arg = arg_bytes (get_or argv n none) in
    let sp' = sp - length arg in
    let moved : (sp + 2 ^ 32 - length arg) % 2 ^ 32 ≡ sp' = omega arith in
    let fits : ltb sp ((stack_top + 2 ^ 32 - stack_size + length arg) % 2 ^ 32) ≡ false =
      ground arith in
    let mem1 = store_text mem sp' arg in
    let here = store_text-Stands mem sp' arg (omega arith) in
    let kept : (b : ℕ) → (b < sp') ⊎ (sp ≤ b) → mem1 b ≡ mem b =
      λ b l. store_text-out mem sp' arg b (omega arith) (ground arith) in
    let others = Lead-same mem mem1 argv (suc n) sp ptrs (λ b l. kept b (inr l)) above leads in
    let step : push_args stack_top stack_size argv (suc n) mem sp ptrs
        ≡ push_args stack_top stack_size argv n mem1 sp' (sp' ∷ ptrs) =
      rw (fits, moved, push_args) refl in
    let rest =
      push_args_lem stack_top stack_size argv n mem1 sp' (sp' ∷ ptrs) h k (omega arith)
        (omega arith) (here, others)
        (omega arith, omega arith, AllAbove-le sp sp' ptrs (omega arith) above) in
    record {
      memory = rest.memory;
      sp = rest.sp;
      ptrs = rest.ptrs;
      result = step ∙ rest.result;
      sp_low = rest.sp_low;
      sp_high = omega (arith, rest.sp_high);
      leads = rest.leads;
      above = rest.above;
      number = omega (arith, rest.number);
      same =
          λ b l. rest.same b (ground (arith, rest.sp_high)) ∙ kept b (ground (arith, rest.sp_high));
    }

-- The stack that a program starts with: the number of arguments, the pointers to them, a null
-- pointer, and the arguments somewhere above.
pub record IsPrepared (argv : List (Option (List ℕ))) (argc top : ℕ) (mem : Memory) (esp : ℕ)
    (mem' : Memory) : Type 0 where
  pub aligned : esp % 4 ≡ 0
  pub count : load32 mem' esp ≡ argc
  pub ptrs : List ℕ
  pub number : length ptrs ≡ argc
  pub pointers : Words mem' (esp + 4) (ptrs ++ 0 ∷ [])
  pub leads : Lead mem' argv 0 ptrs
  pub same : (b : ℕ) → (b < esp) ⊎ (top ≤ b) → mem' b ≡ mem b

Small-ptrs : (low : ℕ) (ptrs : List ℕ) → AllAbove low ptrs → Small (ptrs ++ 0 ∷ [])
Small-ptrs low [] v = (omega arith, tt)
Small-ptrs low (p ∷ ptrs) v = (v.1, Small-ptrs low ptrs v.2)

push_argv_lem :
    (argv : List (Option (List ℕ))) (argc top sp : ℕ) (mem before : Memory) (ptrs : List ℕ)
    → 256 ≤ sp
    → sp ≤ top
    → top < 2 ^ 31
    → argc ≤ 16
    → length ptrs ≡ argc
    → AllAbove sp ptrs
    → Lead mem argv 0 ptrs
    → ((b : ℕ) → (b < sp) ⊎ (top ≤ b) → mem b ≡ before b)
    → (esp : ℕ) × (mem' : Memory) × (push_argv mem sp ptrs ≡ prepared esp mem')
      × IsPrepared argv argc top before esp mem'
unfolding push_argv
push_argv_lem argv argc top sp mem before ptrs room high small few number above leads same =
    let sp1 = sp / 4 * 4 - (argc + 1) * 4 in
    let esp = sp1 - 4 in
    let words = ptrs ++ 0 ∷ [] in
    let size : length words ≡ argc + 1 = length-append ptrs (0 ∷ []) ∙ omega (arith, number) in
    let mem1 = store_words mem sp1 words in
    let mem2 = store_word mem1 esp argc in
    let at1 : (sp / 4 * 4 + 2 ^ 32 - (argc + 1) * 4) % 2 ^ 32 ≡ sp1 = omega arith in
    let at2 : (sp1 + 2 ^ 32 - 4) % 2 ^ 32 ≡ esp = omega arith in
    let next : esp + 4 ≡ sp1 = omega arith in
    let below : (b : ℕ) → (b < esp) ⊎ (sp ≤ b) → mem2 b ≡ mem b = λ b l.
      store_word-out mem1 esp argc b (omega arith) (ground arith)
      ∙ store_words-out mem sp1 words b (omega (arith, size)) (ground (arith, size)) in
    let stored = store_words-Words mem sp1 words (omega (arith, size)) (Small-ptrs sp ptrs above) in
    (
      esp,
      mem2,
      rw (number, at1, at2, push_argv) refl,
      record {
        aligned = omega arith;
        count = load32-store_word mem1 esp argc (omega arith) (omega arith);
        ptrs = ptrs;
        number = number;
        pointers = rw next (
            Words-same mem1 mem2 sp1 words (omega (arith, size))
              (λ b l k. store_word-out mem1 esp argc b (omega arith) (inr (omega arith))) stored);
        leads = Lead-same mem mem2 argv 0 sp ptrs (λ b l. below b (inr l)) above leads;
        same = λ b l. below b (ground arith) ∙ same b (ground arith);
      },
    )

prepare-step :
    (mem : Memory) (stack_top stack_size : ℕ) (argv : List (Option (List ℕ))) (argc : ℕ)
    {mem' : Memory} {sp : ℕ} {ptrs : List ℕ}
    → push_args stack_top stack_size argv argc mem stack_top [] ≡ (mem', some (sp, ptrs))
    → 0 < stack_top
    → 64 ≤ stack_size
    → argc ≤ 16
    → elf_prepare_stack mem stack_top stack_size argv (pos argc) true ≡ push_argv mem' sp ptrs
unfolding elf_prepare_stack
prepare-step mem stack_top stack_size argv argc e some_top big few =
    let go : ((stack_top == 0) || ltb stack_size 64 || not true) ≡ false = ground arith in
    let count : ltb 16 argc ≡ false = ground arith in
    let memory = ap (λ (t : Pushed). t.0) e in
    let pushed = ap (λ (t : Pushed). t.1) e in
    rw (go, count, pushed, memory, elf_prepare_stack) refl

-- For at most 16 arguments that fit into a stack of 64 bytes or more below 2^31, with 256 bytes of
-- memory under it, `elf_prepare_stack` succeeds: the new stack pointer is a multiple of 4 and
-- leads to the number of arguments, behind which come a pointer to each argument, in order, and a
-- null pointer; each pointer leads to the argument's bytes and a 0; and no byte below the new stack
-- pointer or above the stack has changed.
pub elf_prepare_stack_lem :
    (mem : Memory) (stack_top stack_size : ℕ) (argv : List (Option (List ℕ))) (argc : ℕ)
    → stack_top < 2 ^ 31
    → 64 ≤ stack_size
    → stack_size + 256 ≤ stack_top
    → argc ≤ 16
    → total argv argc ≤ stack_size
    → (esp : ℕ) × (mem' : Memory) × (elf_prepare_stack mem stack_top stack_size argv (pos argc) true
        ≡ prepared esp mem')
      × IsPrepared argv argc stack_top mem esp mem'
elf_prepare_stack_lem mem stack_top stack_size argv argc low big under few room =
    let pushed =
      push_args_lem stack_top stack_size argv argc mem stack_top [] low (omega arith) (omega arith)
        (omega arith) tt tt in
    let (esp, mem', e, v) =
      push_argv_lem argv argc stack_top pushed.sp pushed.memory mem pushed.ptrs
        (omega (arith, pushed.sp_low)) pushed.sp_high low few (pushed.number ∙ omega arith)
        pushed.above pushed.leads pushed.same in
    (
      esp,
      mem',
      prepare-step mem stack_top stack_size argv argc pushed.result (omega arith) big few ∙ e,
      v,
    )
