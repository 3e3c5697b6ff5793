-- ===== src/Syscall/Stores.antt =====
-- Where the stores of a system call go: virtual addresses, pointers that are accepted, and the
-- bytes that change.
use learning_os_project.Common.{
  ℕ, zero, suc, ◌+◌, ◌%◌, ◌^◌, ◌≤◌, ◌<◌, ◌≡◌, sym, ap, ◌∙◌, ◌↔◌, ◌⊎◌, inl, inr, true, some, List,
  [], ◌∷◌, ◌==◌, ==_iff, get_or, set, get_or-set_ne, length, ==→ne, arith, Bool-cases, Option-cases,
  some-inj,
}
use learning_os_project.Paging.{Arrays, Paging, paging_init}
use learning_os_project.Paging.Translate.{IsLaidOut, translate, translate-paging_init}
use learning_os_project.Syscall.{user_ptr_ok, physical, store_bytes, read_bytes}

-- A 32-bit pointer and size are accepted exactly if neither is 0 and the bytes end below
-- 0xC0000000, with no wrap-around.
pub user_ptr_ok_iff :
    (ptr size : ℕ)
    → ptr < 2 ^ 32
    → size < 2 ^ 32
    → (user_ptr_ok ptr size ≡ true) ↔ ((0 < ptr) × (0 < size) × (ptr + size < 0xC0000000))
unfolding user_ptr_ok
user_ptr_ok_iff ptr size h k = (λ e. ground arith, λ w. ground arith)

-- `physical` is the way that the processor takes after `paging_init`.
physical-translate :
    (a : Arrays) (pages : Paging) (addr : ℕ)
    → IsLaidOut a
    → addr < 2 ^ 32
    → translate (paging_init a pages) addr ≡ physical addr
unfolding physical
physical-translate a pages addr v h = translate-paging_init a pages addr v h

-- Byte `p` of memory is behind one of the `n` virtual addresses from `addr` on.
abbrev pub Behind : ℕ → ℕ → ℕ → Type 0
Behind addr n p = (i : ℕ) × (i < n) × (physical (addr + i) ≡ some p)

-- A buffer of a user program, below 0xC0000000, and byte `p` in it.
abbrev pub InBuffer : ℕ → ℕ → ℕ → Type 0
InBuffer buf size p = (0 < buf) × (buf + size < 0xC0000000) × (buf ≤ p) × (p < buf + size)

-- Below 0xC0000000 an address is mapped to itself or not at all.
physical-low : (addr : ℕ) {p : ℕ} → addr < 0xC0000000 → physical addr ≡ some p → addr ≡ p
unfolding physical
physical-low addr h e = ground arith

pub Behind-InBuffer :
    (buf size : ℕ) {p : ℕ}
    → (0 < buf) × (0 < size) × (buf + size < 0xC0000000)
    → Behind buf size p
    → InBuffer buf size p
Behind-InBuffer buf size (some_buf, some_size, below) (i, l, e) =
    let same = physical-low (buf + i) (omega (arith, l)) e in
    (some_buf, below, omega (arith, l, same), omega (arith, l, same))

pub store_bytes-Behind :
    (cs memory : List ℕ) (addr : ℕ) {memory' : List ℕ}
    → store_bytes memory addr cs ≡ some memory'
    → (p : ℕ) → Behind addr (length cs) p ⊎ (get_or memory' p 0 ≡ get_or memory p 0)
unfolding store_bytes
store_bytes-Behind [] memory addr e p = inr (ap (λ (m : List ℕ). get_or m p 0) (sym (some-inj e)))
store_bytes-Behind (c ∷ cs) memory addr {memory'} e p = elim (Option-cases (physical addr)) [
  | inl q ↦ absurd (let x = rw (q, store_bytes) at e in cc)
  | inr (at, q) ↦
      elim (store_bytes-Behind cs (set memory at c) (addr + 1) {memory' = memory'}
        (rw (q, store_bytes) at e) p) [
          | inl (i, l, there) ↦ inl (
            suc i,
            omega (arith, l),
            ap physical (let same : addr + suc i ≡ addr + 1 + i = omega arith in same) ∙ there,
          )
          | inr same ↦ elim (Bool-cases (at == p)) [
            | inl here ↦ inl (
              0,
              omega arith,
              ap physical (let base : addr + 0 ≡ addr = omega arith in base)
                  ∙ q
                  ∙ ap some ((==_iff at p).0 here),
            )
            | inr other ↦ inr (same ∙ get_or-set_ne memory c 0 (==→ne at p other))
          ]
        ]
]

-- Every byte outside of the buffer is as before.
abbrev pub OnlyBuffer : ℕ → ℕ → List ℕ → List ℕ → Type 0
OnlyBuffer buf size m m' = (p : ℕ) → InBuffer buf size p ⊎ (get_or m' p 0 ≡ get_or m p 0)

pub read_bytes-Behind :
    (typed memory : List ℕ) (buf left read : ℕ) {n : ℕ} {m' : List ℕ}
    → read_bytes typed memory buf left read ≡ some (n, m')
    → (p : ℕ) → Behind buf (read + left) p ⊎ (get_or m' p 0 ≡ get_or memory p 0)
unfolding read_bytes
read_bytes-Behind typed memory buf zero read e p =
    inr (ap (λ (r : ℕ × List ℕ). get_or r.1 p 0) (sym (some-inj e)))
read_bytes-Behind [] memory buf (suc left) read e p = absurd (let x = e in cc)
read_bytes-Behind (c ∷ typed) memory buf (suc left) read {n} {m'} e p =
    let here = c % 2 ^ 8 ∷ [] in
    elim (Option-cases (store_bytes memory (buf + read) here)) [
      | inl q ↦ absurd (let x = rw (q, read_bytes) at e in cc)
      | inr (stored, q) ↦
          elim (store_bytes-Behind here memory (buf + read) {memory' = stored} q p) [
            | inl (i, l, there) ↦ inl (
              read + i,
              omega (arith, l),
              ap physical (let same : buf + (read + i) ≡ buf + read + i = omega arith in same)
                  ∙ there,
            )
            | inr same ↦ elim (Bool-cases (c == 10)) [
              | inl ends ↦
                  let eq = some-inj (rw (q, ends, read_bytes) at e) in
                  inr (ap (λ (r : ℕ × List ℕ). get_or r.1 p 0) (sym eq) ∙ same)
              | inr going ↦
                  elim (read_bytes-Behind typed stored buf left (read + 1) {n = n} {m' = m'}
                    (rw (q, going, read_bytes) at e) p) [
                      | inl (i, l, there) ↦ inl (i, omega (arith, l), there)
                      | inr rest ↦ inr (rest ∙ same)
                    ]
            ]
          ]
    ]
