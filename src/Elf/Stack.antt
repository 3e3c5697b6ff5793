-- ===== src/Elf/Stack.antt =====
-- `elf_prepare_stack`: the arguments of a program on its stack. The strings of the caller are lists
-- of their bytes before the 0.
use learning_os_project.Common.{
  ℕ, zero, suc, ◌+◌, ◌-◌, ◌*◌, ◌/◌, ◌%◌, ◌^◌, Bool, true, false, not, ◌||◌, Option, none, some,
  List, [], ◌∷◌, ◌++◌, ltb, ◌==◌, if◌then◌else◌, length, get_or,
}
use learning_os_project.Common.Int.{ℤ, pos, negsuc}
use learning_os_project.Elf.Memory.{Memory, store8}

-- `*(u32int *)a = v`
unfoldable pub store_word : Memory → ℕ → ℕ → Memory
unfolding store8
store_word mem a v =
    store8 (store8 (store8 (store8 mem a v) (a + 1) (v / 256)) (a + 2) (v / 65536)) (a + 3)
      (v / 16777216)

-- `memcpy` from a string of the caller.
unfoldable pub store_text : Memory → ℕ → List ℕ → Memory
unfolding store8
store_text mem a [] = mem
store_text mem a (c ∷ s) = store_text (store8 mem a c) (a + 1) s

-- What stands for an argument; a null pointer gives an empty string.
abbrev pub arg_bytes : Option (List ℕ) → List ℕ
arg_bytes none = 0 ∷ []
arg_bytes (some s) = s ++ 0 ∷ []

-- The memory, and the stack pointer with the pointers to the arguments; `none`: no room.
abbrev pub Pushed : Type 0
Pushed = Memory × Option (ℕ × List ℕ)

-- The loop over the arguments from number `n - 1` down. A null `argv` is the empty list.
unfoldable pub push_args : ℕ → ℕ → List (Option (List ℕ)) → ℕ → Memory → ℕ → List ℕ → Pushed
unfolding store_text
push_args stack_top stack_size argv zero mem sp ptrs = (mem, some (sp, ptrs))
push_args stack_top stack_size argv (suc n) mem sp ptrs =
    let arg = arg_bytes (get_or argv n none) in
    let sp' = (sp + 2 ^ 32 - length arg) % 2 ^ 32 in
    elim (ltb sp ((stack_top + 2 ^ 32 - stack_size + length arg) % 2 ^ 32)) [
      | true ↦ (mem, none)
      | false ↦ push_args stack_top stack_size argv n (store_text mem sp' arg) sp' (sp' ∷ ptrs)
    ]

unfoldable pub store_words : Memory → ℕ → List ℕ → Memory
unfolding store_word
store_words mem a [] = mem
store_words mem a (w ∷ words) = store_words (store_word mem a w) (a + 4) words

-- The status -1 or 0, with the new stack pointer.
pub data Prepared : Type 0 where
  refused : Memory → Prepared
  prepared : ℕ → Memory → Prepared

-- The part behind the loop.
unfoldable pub push_argv : Memory → ℕ → List ℕ → Prepared
unfolding store_words store_word
push_argv mem sp ptrs =
    let argc = length ptrs in
    let sp1 = (sp / 4 * 4 + 2 ^ 32 - (argc + 1) * 4) % 2 ^ 32 in
    let sp2 = (sp1 + 2 ^ 32 - 4) % 2 ^ 32 in
    prepared sp2 (store_word (store_words mem sp1 (ptrs ++ 0 ∷ [])) sp2 argc)

-- `out_ok`: `out_esp` is not null.
unfoldable pub elf_prepare_stack : Memory → ℕ → ℕ → List (Option (List ℕ)) → ℤ → Bool → Prepared
unfolding push_args push_argv
elf_prepare_stack mem stack_top stack_size argv (negsuc k) out_ok = refused mem
elf_prepare_stack mem stack_top stack_size argv (pos argc) out_ok =
    if (stack_top == 0) || ltb stack_size 64 || not out_ok
    then refused mem
    else if ltb 16 argc
    then refused mem
    else let (mem', pushed) = push_args stack_top stack_size argv argc mem stack_top [] in
      elim pushed [ none ↦ refused mem' | some (sp, ptrs) ↦ push_argv mem' sp ptrs ]
