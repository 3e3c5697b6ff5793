-- ===== src/Syscall/Pointers.antt =====
-- What a system call may write: the buffer that it is given, and the saved `eax`.
use learning_os_project.Common.{ℕ, ◌≡◌, ◌⊎◌, List, ◌==◌, if◌then◌else◌, get_or}
use learning_os_project.Syscall.{Registers}
use learning_os_project.Syscall.Stores.{Behind, InBuffer}

-- The buffer that a call may write, as the caller's registers give it: none but for a read and
-- the receipt of a message.
unfoldable pub buffer_of : Registers → ℕ × ℕ
buffer_of regs =
    if regs.eax == 0 then (regs.ecx, regs.edx) else if regs.eax == 5 then (regs.ebx, 4) else (0, 0)

-- Byte `p` is in the call's buffer, or is one of the four of the saved `eax`.
abbrev pub Touches : Registers → ℕ → Type 0
Touches regs p = InBuffer (buffer_of regs).0 (buffer_of regs).1 p ⊎ Behind regs.eax_at 4 p

OnlyTouched : Registers → List ℕ → List ℕ → Type 0
OnlyTouched regs m m' = (p : ℕ) → Touches regs p ⊎ (get_or m' p 0 ≡ get_or m p 0)
