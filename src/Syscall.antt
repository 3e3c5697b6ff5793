-- ===== src/Syscall.antt =====
-- src/proc/syscall.c. Memory is the list of its bytes by physical address, from 0 on; beyond
-- its end
-- a write is dropped. A virtual address leads there as paging_init has mapped it. The three
-- parts of
-- the kernel that the handler calls are one state beside it: what a buffer that lies over their
-- variables would do to them is not followed.
pub mod Stores
pub mod Pointers
use learning_os_project.Common.{
  ◌-◌, ℕ, zero, suc, ◌+◌, ◌*◌, ◌/◌, ◌%◌, ◌^◌, Bool, true, false, not, ◌&&◌, ◌||◌, Option, none,
  some, List, [], ◌∷◌, ltb, leb, ◌==◌, if◌then◌else◌, get_or, set,
}
use learning_os_project.Common.Int.{ℤ, pos, negsuc, signed32, to_u32}
use learning_os_project.Monitor.{Monitor, monitor_put}
use learning_os_project.Ipc.{Ipc, ipc_send, ipc_recv}
use learning_os_project.Scheduler.{Scheduler, scheduler_exit}

pub record Kernel : Type 0 where
  pub monitor : Monitor
  pub messages : Ipc
  pub scheduler : Scheduler
  pub memory : List ℕ

-- The registers that a call reads, and the address on the stack where `regs->eax` lies.
pub record Registers : Type 0 where
  pub eax_at : ℕ
  pub eax : ℕ
  pub ebx : ℕ
  pub ecx : ℕ
  pub edx : ℕ

unfoldable pub user_ptr_ok : ℕ → ℕ → Bool
user_ptr_ok ptr size =
    let e = (ptr + size) % 2 ^ 32 in
    if (ptr == 0) || (size == 0)
    then false
    else if ltb e ptr
    then false
    else not (leb 0xC0000000 ptr || leb 0xC0000000 e)

-- The byte of memory behind a virtual address: the first 32 MB are mapped to themselves and once
-- more from 0xC0000000 on. `none`: a page fault.
unfoldable pub physical : ℕ → Option ℕ
physical addr =
    if ltb addr 0x2000000
    then some addr
    else if leb 0xC0000000 addr && ltb addr 0xC2000000
    then some (addr - 0xC0000000)
    else none

-- The bytes `cs` are stored from a virtual address on. `none`: a page fault.
unfoldable pub store_bytes : List ℕ → ℕ → List ℕ → Option (List ℕ)
unfolding physical
store_bytes memory addr [] = some memory
store_bytes memory addr (c ∷ cs) = elim (physical addr) [
  | none ↦ none
  | some p ↦ store_bytes (set memory p c) (addr + 1) cs
]

-- The outer loop of `sys_read` for the bytes that are left; `typed` is what `keyboard_getchar` goes
-- on to return once it is not negative. The result is the count and the memory, and `none`
-- where the
-- loop still waits or a byte of the buffer is not mapped.
unfoldable pub read_bytes : List ℕ → List ℕ → ℕ → ℕ → ℕ → Option (ℕ × List ℕ)
unfolding store_bytes
read_bytes typed memory buf zero read = some (read, memory)
read_bytes [] memory buf (suc left) read = none
read_bytes (c ∷ typed) memory buf (suc left) read =
    elim (store_bytes memory (buf + read) (c % 2 ^ 8 ∷ [])) [
      | none ↦ none
      | some stored ↦ elim (c == 10) [
        | true ↦ some (read + 1, stored)
        | false ↦ read_bytes typed stored buf left (read + 1)
      ]
    ]

unfoldable pub sys_read : Kernel → ℕ → ℕ → ℕ → List ℕ → Option (ℤ × Kernel)
sys_read k fd buf size typed =
    if not (fd == 0) || not (user_ptr_ok buf size)
    then some (negsuc 0, k)
    else elim (read_bytes typed k.memory buf size 0) [
      | none ↦ none
      | some (read, memory) ↦ some (signed32 read, record k { memory = memory })
    ]

-- `none`: a byte of the buffer is not mapped.
unfoldable pub write_bytes : ℕ → Monitor → List ℕ → ℕ → Option Monitor
unfolding physical
write_bytes zero m memory addr = some m
write_bytes (suc n) m memory addr = elim (physical addr) [
  | none ↦ none
  | some p ↦ write_bytes n (monitor_put m (get_or memory p 0)) memory (addr + 1)
]

unfoldable pub sys_write : Kernel → ℕ → ℕ → ℕ → Option (ℤ × Kernel)
sys_write k fd buf size =
    if not (fd == 1) && not (fd == 2)
    then some (negsuc 0, k)
    else if not (user_ptr_ok buf size)
    then some (negsuc 0, k)
    else elim (write_bytes size k.monitor k.memory buf) [
      | none ↦ none
      | some monitor ↦ some (signed32 size, record k { monitor = monitor })
    ]

unfoldable pub sys_open : ℕ → ℤ
sys_open path = if not (user_ptr_ok path 1) then negsuc 0 else negsuc 0

-- The line that it prints first is not modelled. `none` as for `scheduler_exit`; the Boolean says
-- that the interrupt is raised.
unfoldable pub sys_exit : Kernel → ℤ → Option (Bool × Kernel)
sys_exit k code = elim (scheduler_exit k.scheduler code) [
  | none ↦ none
  | some (raised, s) ↦ some (raised, record k { scheduler = s })
]

abbrev pub word_bytes : ℕ → List ℕ
word_bytes value =
    value % 256 ∷ value / 256 % 256 ∷ value / 65536 % 256 ∷ value / 16777216 % 256 ∷ []

-- `*(u32int *)addr = value`
unfoldable pub store32 : List ℕ → ℕ → ℕ → Option (List ℕ)
unfolding store_bytes
store32 memory addr value = store_bytes memory addr (word_bytes value)

-- `none`: the word is not mapped.
unfoldable pub sys_ipc_recv : Kernel → ℕ → Option (ℤ × Kernel)
unfolding store32
sys_ipc_recv k ptr =
    if not (user_ptr_ok ptr 4)
    then some (negsuc 0, k)
    else let (status, msg, messages) = ipc_recv k.messages true in
      elim msg [
        | none ↦ some (status, record k { messages = messages })
        | some value ↦ elim (store32 k.memory ptr value) [
          | none ↦ none
          | some memory ↦ some (status, record k { messages = messages; memory = memory })
        ]
      ]

-- `regs->eax = value`
unfoldable pub answer : Registers → ℕ → Bool → Kernel → Option (ℕ × Bool × Kernel)
unfolding store32
answer regs value raised k = elim (store32 k.memory regs.eax_at value) [
  | none ↦ none
  | some memory ↦ some (value, raised, record k { memory = memory })
]

-- What the handler leaves in `regs->eax`, and whether it raises the scheduler's interrupt. The text
-- that is printed at an unknown number is not modelled.
unfoldable pub syscall_handler : Kernel → Registers → List ℕ → Option (ℕ × Bool × Kernel)
unfolding answer
syscall_handler k regs typed =
    if regs.eax == 0
    then elim (sys_read k regs.ebx regs.ecx regs.edx typed) [
      | none ↦ none
      | some (r, k') ↦ answer regs (to_u32 r) false k'
    ]
    else if regs.eax == 1
    then elim (sys_write k regs.ebx regs.ecx regs.edx) [
      | none ↦ none
      | some (r, k') ↦ answer regs (to_u32 r) false k'
    ]
    else if regs.eax == 2
    then answer regs (to_u32 (sys_open regs.ebx)) false k
    else if regs.eax == 3
    then elim (sys_exit k (signed32 regs.ebx)) [
      | none ↦ none
      | some (raised, k') ↦ answer regs 0 raised k'
    ]
    else if regs.eax == 4
    then (let (r, messages) = ipc_send k.messages regs.ebx in
        answer regs (to_u32 r) false (record k { messages = messages }))
    else if regs.eax == 5
    then elim (sys_ipc_recv k regs.ebx) [
      | none ↦ none
      | some (r, k') ↦ answer regs (to_u32 r) false k'
    ]
    else answer regs (2 ^ 32 - 1) false k
