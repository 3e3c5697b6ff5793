-- ===== src/Elf/Image.antt =====
-- What `elf_load` makes of an image whose segments are well placed.
use learning_os_project.Common.{
  ℕ, ◌+◌, ◌-◌, ◌*◌, ◌%◌, ◌^◌, ◌≤◌, ◌<◌, ◌≡◌, inl, inr, refl, ap₂, ◌∙◌, false, ltb, if◌then◌else◌,
  arith, some, Bool-cases,
}
use learning_os_project.Elf.Memory.{
  Memory, address, load16, load32, copy_bytes, fill_bytes, within, Apart, Bytes, copy_bytes_lem,
  fill_bytes_lem, copy_bytes-Bytes, fill_bytes-Bytes,
}
use learning_os_project.Elf.Load.{Segment, segment, load_segment}

-- Two memories with the same image.
abbrev pub SameOn : ℕ → ℕ → Memory → Memory → Type 0
SameOn image size mem mem' = (b : ℕ) → image ≤ b → b < image + size → mem' b ≡ mem b

module _ (image size : ℕ) (top : image + size < 2 ^ 32) where
  pub load16-same :
      (mem mem' : Memory) (a : ℕ)
      → SameOn image size mem mem'
      → image ≤ a
      → a + 2 ≤ image + size
      → load16 mem' a ≡ load16 mem a
  load16-same mem mem' a same l h =
      let low : a % 2 ^ 32 ≡ a = omega arith in
      let high : (a + 1) % 2 ^ 32 ≡ a + 1 = omega arith in
      rw (low, high, same a l (omega arith), same (a + 1) (omega arith) (omega arith)) refl

  pub load32-same :
      (mem mem' : Memory) (a : ℕ)
      → SameOn image size mem mem'
      → image ≤ a
      → a + 4 ≤ image + size
      → load32 mem' a ≡ load32 mem a
  load32-same mem mem' a same l h =
      ap₂ (λ (x y : ℕ). x + y * 65536) (load16-same mem mem' a same l (omega arith))
        (load16-same mem mem' (a + 2) same (omega arith) (omega arith))

  pub segment-same :
      (mem mem' : Memory) (ph : ℕ)
      → SameOn image size mem mem'
      → image ≤ ph
      → ph + 32 ≤ image + size
      → segment mem' ph ≡ segment mem ph
  unfolding segment
  segment-same mem mem' ph same l h =
      let kind = load32-same mem mem' ph same l (omega arith) in
      let offset = load32-same mem mem' (ph + 4) same (omega arith) (omega arith) in
      let vaddr = load32-same mem mem' (ph + 8) same (omega arith) (omega arith) in
      let filesz = load32-same mem mem' (ph + 16) same (omega arith) (omega arith) in
      let memsz = load32-same mem mem' (ph + 20) same (omega arith) (omega arith) in
      rw (kind, offset, vaddr, filesz, memsz) refl

  -- A loadable segment as a linker lays it out.
  pub record IsPlaced (s : Segment) : Type 0 where
    pub inside : s.offset + s.filesz ≤ size
    pub file_le : s.filesz ≤ s.memsz
    pub low : s.vaddr + s.memsz ≤ 2 ^ 32
    pub apart : Apart s.vaddr s.memsz image size

  -- Memory once segment `s` of the image in `file` is at its place.
  abbrev pub placed : Memory → Segment → Memory → Memory
  placed file s mem b =
      if within b s.vaddr s.memsz
      then (if ltb (b - s.vaddr) s.filesz then file (image + s.offset + (b - s.vaddr)) else 0)
      else mem b

  -- The memory after `memcpy` and `memset`.
  abbrev filled : Memory → Segment → Memory
  filled copied s =
      if ltb s.filesz s.memsz
      then fill_bytes copied (address (s.vaddr + s.filesz)) 0 (s.memsz - s.filesz)
      else copied

  filled-Bytes : (copied : Memory) (s : Segment) → Bytes copied → Bytes (filled copied s)
  filled-Bytes copied s h = elim (Bool-cases (ltb s.filesz s.memsz)) [
    | inl p ↦ rw p (fill_bytes-Bytes copied (address (s.vaddr + s.filesz)) 0 (s.memsz - s.filesz) h)
    | inr p ↦ rw p h
  ]

  filled-placed :
      (mem copied : Memory) (s : Segment) (b : ℕ)
      → IsPlaced s
      → copied b
        ≡ (if within b s.vaddr s.filesz then mem (image + s.offset + (b - s.vaddr)) else mem b)
      → filled copied s b ≡ placed mem s mem b
  filled-placed mem copied s b v e = elim (Bool-cases (ltb s.filesz s.memsz)) [
    | inr p ↦ let le = v.file_le in rw (p, e) (ground (arith, le))
    | inl p ↦
        let low = v.low in
        let start : (s.vaddr + s.filesz) % 2 ^ 32 ≡ s.vaddr + s.filesz = ground (arith, low) in
        let fill =
          fill_bytes_lem copied (s.vaddr + s.filesz) (s.memsz - s.filesz) b (ground (arith, low)) in
        rw (p, start, fill, e) (ground arith)
  ]

  pub load_segment_lem :
      (mem : Memory) (ph : ℕ)
      → Bytes mem
      → image ≤ ph
      → ph + 32 ≤ image + size
      → (segment mem ph).kind ≡ 1
      → IsPlaced (segment mem ph)
      → (mem' : Memory) × (load_segment mem image size ph ≡ some mem')
        × Bytes mem'
        × ((b : ℕ) → mem' b ≡ placed mem (segment mem ph) mem b)
  unfolding load_segment
  load_segment_lem mem ph bytes l h k v =
      let s = segment mem ph in
      let apart = v.apart in
      let inside = v.inside in
      let file_le = v.file_le in
      let low = v.low in
      let from : (image + s.offset) % 2 ^ 32 ≡ image + s.offset = omega arith in
      let fits : ltb size ((s.offset + s.filesz) % 2 ^ 32) ≡ false = ground arith in
      let copied = copy_bytes mem s.vaddr (image + s.offset) s.filesz in
      let at_copied = λ (b : ℕ).
        copy_bytes_lem mem s.vaddr (image + s.offset) s.filesz b bytes (omega arith) (omega arith)
          (ground arith) in
      let same : SameOn image size mem copied = λ b m n.
        at_copied b ∙ (let off : within b s.vaddr s.filesz ≡ false = ground arith in rw off refl) in
      let again : segment copied ph ≡ segment mem ph = segment-same mem copied ph same l h in
      (
        filled copied s,
        rw (k, fits, from, again, load_segment) refl,
        filled-Bytes copied s (copy_bytes-Bytes mem s.vaddr (image + s.offset) s.filesz bytes),
        λ b. filled-placed mem copied s b v (at_copied b),
      )
