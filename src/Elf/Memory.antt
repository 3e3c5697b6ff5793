-- ===== src/Elf/Memory.antt =====
-- Memory as bytes at 32-bit addresses, and what the loops of src/lib/libc.c do there. Addresses
-- wrap.
use learning_os_project.Common.{
  ℕ, zero, suc, ◌+◌, ◌-◌, ◌*◌, ◌%◌, ◌^◌, ◌≤◌, ◌<◌, ◌≡◌, ◌⊎◌, inl, inr, refl, ◌∙◌, Bool, true, false,
  Bool-cases, ltb, leb, ◌==◌, ◌&&◌, if◌then◌else◌, arith,
}

abbrev pub Memory : Type 0
Memory = ℕ → ℕ

abbrev pub address : ℕ → ℕ
address a = a % 2 ^ 32

unfoldable pub store8 : Memory → ℕ → ℕ → Memory
store8 mem a v b = if address a == b then v % 256 else mem b

abbrev pub load8 : Memory → ℕ → ℕ
load8 mem a = mem (address a)

abbrev pub load16 : Memory → ℕ → ℕ
load16 mem a = load8 mem a + load8 mem (a + 1) * 256

abbrev pub load32 : Memory → ℕ → ℕ
load32 mem a = load16 mem a + load16 mem (a + 2) * 65536

-- `memcpy`, byte by byte in ascending order.
unfoldable pub copy_bytes : Memory → ℕ → ℕ → ℕ → Memory
copy_bytes mem dest src zero = mem
copy_bytes mem dest src (suc n) =
    copy_bytes (store8 mem dest (load8 mem src)) (dest + 1) (src + 1) n

-- `memset`
unfoldable pub fill_bytes : Memory → ℕ → ℕ → ℕ → Memory
fill_bytes mem dest v zero = mem
fill_bytes mem dest v (suc n) = fill_bytes (store8 mem dest v) (dest + 1) v n

abbrev pub within : ℕ → ℕ → ℕ → Bool
within a start n = leb start a && ltb a (start + n)

-- Two ranges that share no byte.
abbrev pub Apart : ℕ → ℕ → ℕ → ℕ → Type 0
Apart a n b m = (a + n ≤ b) ⊎ (b + m ≤ a)

-- Memory holds bytes.
abbrev pub Bytes : Memory → Type 0
Bytes mem = (a : ℕ) → mem a < 256

store8-Bytes : (mem : Memory) (a v : ℕ) → Bytes mem → Bytes (store8 mem a v)
unfolding store8
store8-Bytes mem a v h b = let old = h b in ground (arith, old)

pub copy_bytes-Bytes :
    (mem : Memory) (dest src n : ℕ) → Bytes mem → Bytes (copy_bytes mem dest src n)
unfolding copy_bytes
copy_bytes-Bytes mem dest src zero h = h
copy_bytes-Bytes mem dest src (suc n) h =
    copy_bytes-Bytes (store8 mem dest (load8 mem src)) (dest + 1) (src + 1) n
      (store8-Bytes mem dest (load8 mem src) h)

pub fill_bytes-Bytes : (mem : Memory) (dest v n : ℕ) → Bytes mem → Bytes (fill_bytes mem dest v n)
unfolding fill_bytes
fill_bytes-Bytes mem dest v zero h = h
fill_bytes-Bytes mem dest v (suc n) h =
    fill_bytes-Bytes (store8 mem dest v) (dest + 1) v n (store8-Bytes mem dest v h)

copy-step :
    (mem : Memory) (dest src n b : ℕ)
    → Bytes mem
    → dest + suc n ≤ 2 ^ 32
    → src + suc n ≤ 2 ^ 32
    → Apart dest (suc n) src (suc n)
    → (if within b (dest + 1) n
        then store8 mem dest (load8 mem src) (src + 1 + (b - (dest + 1)))
        else store8 mem dest (load8 mem src) b)
      ≡ (if within b dest (suc n) then mem (src + (b - dest)) else mem b)
unfolding store8
copy-step mem dest src n b h k l apart = elim (Bool-cases (within b (dest + 1) n)) [
  | inl p ↦
      let q : within b dest (suc n) ≡ true = ground arith in
      let same : src + 1 + (b - (dest + 1)) ≡ src + (b - dest) = ground arith in
      let other : (dest % 2 ^ 32 == src + (b - dest)) ≡ false = ground arith in
      rw (p, q, same, other) refl
  | inr p ↦ elim (Bool-cases (dest % 2 ^ 32 == b)) [
    | inl e ↦
        let q : within b dest (suc n) ≡ true = ground arith in
        let here : src % 2 ^ 32 ≡ src + (b - dest) = ground arith in
        let byte = h (src + (b - dest)) in
        let small : mem (src + (b - dest)) % 256 ≡ mem (src + (b - dest)) = omega (arith, byte) in
        rw (p, e, q, here, small) refl
    | inr e ↦ let q : within b dest (suc n) ≡ false = ground arith in rw (p, e, q) refl
  ]
]

-- A copy between ranges that share no byte and do not wrap.
pub copy_bytes_lem :
    (mem : Memory) (dest src n b : ℕ)
    → Bytes mem
    → dest + n ≤ 2 ^ 32
    → src + n ≤ 2 ^ 32
    → Apart dest n src n
    → copy_bytes mem dest src n b ≡ (if within b dest n then mem (src + (b - dest)) else mem b)
unfolding copy_bytes store8
copy_bytes_lem mem dest src zero b h k l apart = ground arith
copy_bytes_lem mem dest src (suc n) b h k l apart =
    let mem' = store8 mem dest (load8 mem src) in
    let bytes = store8-Bytes mem dest (load8 mem src) h in
    copy_bytes_lem mem' (dest + 1) (src + 1) n b bytes (omega arith) (omega arith) (ground arith)
    ∙ copy-step mem dest src n b h k l apart

pub fill_bytes_lem :
    (mem : Memory) (dest n b : ℕ)
    → dest + n ≤ 2 ^ 32
    → fill_bytes mem dest 0 n b ≡ (if within b dest n then 0 else mem b)
unfolding fill_bytes store8
fill_bytes_lem mem dest zero b h = ground arith
fill_bytes_lem mem dest (suc n) b h =
    fill_bytes_lem (store8 mem dest 0) (dest + 1) n b (omega arith) ∙ ground arith
