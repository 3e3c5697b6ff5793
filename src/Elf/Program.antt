-- ===== src/Elf/Program.antt =====
-- The loop of `elf_load` over the segments of an image.
use learning_os_project.Common.{
  ℕ, zero, suc, ◌+◌, ◌-◌, ◌*◌, ◌^◌, ◌≤◌, ◌<◌, ◌≡◌, ◌≢◌, inl, inr, refl, sym, ap, ◌∙◌, subst, Bool,
  true, false, ◌||◌, ltb, ◌==◌, ◌&&◌, if◌then◌else◌, arith, some, Bool-cases, dec_lt, ==_iff, ne→==,
}
use learning_os_project.Elf.Memory.{Memory, address, within, Apart, Bytes}
use learning_os_project.Elf.Load.{
  Segment, segment, magic, entry, phoff, phentsize, phnum, header, load_segment, loaded,
  load_segments, elf_load,
}
use learning_os_project.Elf.Image.{
  SameOn, IsPlaced, placed, load16-same, load32-same, segment-same, load_segment_lem,
}

-- The program header number `i`.
abbrev pub segment_at : Memory → ℕ → ℕ → Segment
segment_at mem image i = segment mem (header mem image i)

-- An image whose segments are well placed and share no byte.
pub record IsImage (mem : Memory) (image size : ℕ) : Type 0 where
  pub bytes : Bytes mem
  pub somewhere : image ≢ 0
  pub top : image + size < 2 ^ 32
  pub head : 52 ≤ size
  pub signed : magic mem image ≡ 0x464C457F
  pub ends : phoff mem image + phnum mem image * phentsize mem image ≤ size
  pub table : (i : ℕ) → i < phnum mem image → phoff mem image + i * phentsize mem image + 32 ≤ size
  pub segments :
      (i : ℕ)
      → i < phnum mem image
      → (segment_at mem image i).kind ≡ 1
      → IsPlaced image size top (segment_at mem image i)
  pub apart :
      (i j : ℕ)
      → i ≢ j
      → i < phnum mem image
      → j < phnum mem image
      → (segment_at mem image i).kind ≡ 1
      → (segment_at mem image j).kind ≡ 1
      → Apart
          (segment_at mem image i).vaddr
          (segment_at mem image i).memsz
          (segment_at mem image j).vaddr
          (segment_at mem image j).memsz

-- Whether address `b` lies in segment `i`.
abbrev pub covers : Memory → ℕ → ℕ → ℕ → Bool
covers mem image i b =
    ((segment_at mem image i).kind == 1)
    && within b (segment_at mem image i).vaddr (segment_at mem image i).memsz

-- What segment `i` has at address `b`: the byte of the file, and 0 behind the file's part.
abbrev pub content : Memory → ℕ → ℕ → ℕ → ℕ
content mem image i b =
    if ltb (b - (segment_at mem image i).vaddr) (segment_at mem image i).filesz
    then mem (image + (segment_at mem image i).offset + (b - (segment_at mem image i).vaddr))
    else 0

table_fits : (size sum : ℕ) → sum ≤ size → size < 2 ^ 32 → ltb size (address sum) ≡ false
table_fits size sum h k = ground arith

both : (a b : Bool) → (a && b) ≡ true → (a ≡ true) × (b ≡ true)
both true true e = (refl, refl)
both true false e = absurd (let x = e in cc)
both false b e = absurd (let x = e in cc)

Apart-within : (a n b m x : ℕ) → Apart a n b m → within x a n ≡ true → within x b m ≡ true → ⊥
Apart-within a n b m x h e k = ground arith

module _ (file : Memory) (image size : ℕ) (v : IsImage file image size) where
  placed-content :
      (mem : Memory) (s : Segment) (b : ℕ)
      → SameOn image size file mem
      → IsPlaced image size v.top s
      → (s.kind == 1) ≡ true
      → placed image size v.top mem s mem b ≡ (
          if (s.kind == 1) && within b s.vaddr s.memsz
          then (if ltb (b - s.vaddr) s.filesz then file (image + s.offset + (b - s.vaddr)) else 0)
          else mem b)
  placed-content mem s b same w k = elim (Bool-cases (within b s.vaddr s.memsz)) [
    | inr p ↦ rw (k, p) refl
    | inl p ↦ elim (Bool-cases (ltb (b - s.vaddr) s.filesz)) [
      | inr q ↦ rw (k, p, q) refl
      | inl q ↦
          let inside = w.inside in
          let eq = same (image + s.offset + (b - s.vaddr)) (omega arith) (ground (arith, inside)) in
          rw (k, p, q) eq
    ]
  ]

  phnum-same : (mem : Memory) → SameOn image size file mem → phnum mem image ≡ phnum file image
  phnum-same mem same =
      load16-same image size v.top file mem (image + 44) same (omega arith) (omega (arith, v.head))

  header-same :
      (mem : Memory) (i : ℕ)
      → SameOn image size file mem
      → i < phnum file image
      → header mem image i ≡ image + phoff file image + i * phentsize file image
  header-same mem i same h =
      let off =
        load32-same image size v.top file mem (image + 28) same (omega arith)
          (omega (arith, v.head)) in
      let step =
        load16-same image size v.top file mem (image + 42) same (omega arith)
          (omega (arith, v.head)) in
      let inside = v.table i h in let top = v.top in rw (off, step) (omega (arith, inside, top))

  segment_at-same :
      (mem : Memory) (i : ℕ)
      → SameOn image size file mem
      → i < phnum file image
      → segment mem (header mem image i) ≡ segment_at file image i
  segment_at-same mem i same h =
      let inside = v.table i h in
      let here = header-same mem i same h in
      let there = header-same file i (λ b m n. refl) h in
      segment-same image size v.top file mem (header mem image i) same (omega (arith, here))
        (omega (arith, here, inside))
      ∙ ap (segment file) (here ∙ sym there)

  load_at :
      (mem : Memory) (i : ℕ)
      → SameOn image size file mem
      → Bytes mem
      → i < phnum file image
      → (mem' : Memory) × (load_segment mem image size (header mem image i) ≡ some mem')
        × Bytes mem'
        × ((b : ℕ) → mem' b ≡ (if covers file image i b then content file image i b else mem b))
  unfolding load_segment
  load_at mem i same bytes h =
      let ph = header mem image i in
      let s = segment_at file image i in
      let eq : segment mem ph ≡ s = segment_at-same mem i same h in
      elim (Bool-cases (s.kind == 1)) [
        | inr other ↦ (mem, rw (eq, other, load_segment) refl, bytes, λ b. rw other refl)
        | inl p ↦
            let kind : s.kind ≡ 1 = (==_iff s.kind 1).0 p in
            let inside = v.table i h in
            let here = header-same mem i same h in
            let here_kind : (segment mem ph).kind ≡ 1 = ap (λ (t : Segment). t.kind) eq ∙ kind in
            let well = v.segments i h kind in
            let (mem', q, bytes', after) =
              load_segment_lem image size v.top mem ph bytes (omega (arith, here))
                (omega (arith, here, inside)) here_kind
                (subst (λ (t : Segment). IsPlaced image size v.top t) (sym eq) well) in
            (
              mem',
              q,
              bytes',
              λ b.
                  after b
                  ∙ ap (λ (t : Segment). placed image size v.top mem t mem b) eq
                  ∙ placed-content mem s b same well p,
            )
      ]

  covers-split :
      (j b : ℕ)
      → covers file image j b ≡ true
      → ((segment_at file image j).kind ≡ 1)
        × (within b (segment_at file image j).vaddr (segment_at file image j).memsz ≡ true)
  covers-split j b e =
      let s = segment_at file image j in
      let (k, w) = both (s.kind == 1) (within b s.vaddr s.memsz) e in ((==_iff s.kind 1).0 k, w)

  covers-image :
      (i b : ℕ)
      → i < phnum file image
      → covers file image i b ≡ true
      → image ≤ b
      → b < image + size
      → ⊥
  covers-image i b h e l k =
      let (kind, inside) = covers-split i b e in
      Apart-within (segment_at file image i).vaddr (segment_at file image i).memsz image size b
        (v.segments i h kind).apart inside (ground arith)

  covers-one :
      (i j b : ℕ)
      → i ≢ j
      → i < phnum file image
      → j < phnum file image
      → covers file image i b ≡ true
      → covers file image j b ≡ false
  covers-one i j b ne h k e = elim (Bool-cases (covers file image j b)) [
    | inr p ↦ p
    | inl p ↦
        let (kind, inside) = covers-split i b e in
        let (kind', inside') = covers-split j b p in
        absurd (
          Apart-within (segment_at file image i).vaddr (segment_at file image i).memsz
            (segment_at file image j).vaddr (segment_at file image j).memsz b
            (v.apart i j ne h k kind kind') inside inside')
  ]

  -- The image stays where it is.
  stays :
      (mem mem' : Memory) (i : ℕ)
      → SameOn image size file mem
      → i < phnum file image
      → ((b : ℕ) → mem' b ≡ (if covers file image i b then content file image i b else mem b))
      → SameOn image size file mem'
  stays mem mem' i same h e b l k = elim (Bool-cases (covers file image i b)) [
    | inr p ↦ e b ∙ rw p (same b l k)
    | inl p ↦ absurd (covers-image i b h p l k)
  ]

  load_segments_lem :
      (n i : ℕ) (mem : Memory)
      → SameOn image size file mem
      → Bytes mem
      → phnum file image ≤ i + n
      → (mem' : Memory) × (load_segments n mem image size i ≡ loaded (entry file image) mem')
        × ((j b : ℕ)
            → i ≤ j
            → j < phnum file image
            → covers file image j b ≡ true
            → mem' b ≡ content file image j b)
        × ((b : ℕ)
            → ((j : ℕ) → i ≤ j → j < phnum file image → covers file image j b ≡ false)
            → mem' b ≡ mem b)
  unfolding load_segments
  load_segments_lem zero i mem same bytes enough =
      let start =
        load32-same image size v.top file mem (image + 24) same (omega arith)
          (omega (arith, v.head)) in
      (mem, ap (λ (t : ℕ). loaded t mem) start, λ j b l h e. absurd (omega arith), λ b out. refl)
  load_segments_lem (suc n) i mem same bytes enough =
      let start =
        load32-same image size v.top file mem (image + 24) same (omega arith)
          (omega (arith, v.head)) in
      let count = phnum-same mem same in
      elim (Bool-cases (ltb i (phnum file image))) [
        | inr p ↦ (
          mem,
          rw (count, p, load_segments) (ap (λ (t : ℕ). loaded t mem) start),
          λ j b l h e. absurd (ground arith),
          λ b out. refl,
        )
        | inl p ↦
            let (mem1, q, bytes1, after) = load_at mem i same bytes (ground arith) in
            let same1 = stays mem mem1 i same (ground arith) after in
            let (mem', r, filled, kept) =
              load_segments_lem n (i + 1) mem1 same1 bytes1 (omega arith) in
            (
              mem',
              rw (count, p, q, load_segments) r,
              (λ j b l h e. elim (dec_lt i j) [
                | yes less ↦ filled j b (omega arith) h e
                | no last ↦
                    let eq : i ≡ j = omega arith in
                    let e' : covers file image i b ≡ true =
                      subst (λ (t : ℕ). covers file image t b ≡ true) (sym eq) e in
                    subst (λ (t : ℕ). mem' b ≡ content file image t b) eq
                      (kept b (λ k m o. covers-one i k b (λ q. omega arith) (ground arith) o e')
                        ∙ after b
                        ∙ rw e' refl)
              ]),
              λ b out.
                  kept b (λ j l h. out j (omega arith) h)
                  ∙ after b
                  ∙ rw (out i (omega arith) (ground arith)) refl,
            )
      ]

  -- For an image of well placed segments that share no byte with each other or with the image,
  -- `elf_load` succeeds and gives the entry point of the header. Afterwards each loadable segment's
  -- memory has the bytes of its part of the file and zeros up to its size in memory, and every
  -- address outside of all segments has the byte it had before.
  pub elf_load_lem :
      (mem' : Memory) × (elf_load file image size ≡ loaded (entry file image) mem')
      × ((i b : ℕ)
          → i < phnum file image
          → covers file image i b ≡ true
          → mem' b ≡ content file image i b)
      × ((b : ℕ)
          → ((i : ℕ) → i < phnum file image → covers file image i b ≡ false)
          → mem' b ≡ file b)
  unfolding elf_load
  elf_load_lem =
      let low = v.bytes (address (image + 44)) in
      let high = v.bytes (address (image + 44 + 1)) in
      let (mem', e, filled, kept) =
        load_segments_lem 65535 0 file (λ b l h. refl) v.bytes (omega (arith, low, high)) in
      let head = v.head in
      let ends = v.ends in
      let top = v.top in
      let there : ((image == 0) || ltb size 52) ≡ false =
        rw (ne→== image 0 v.somewhere) (ground arith) in
      let signed : (magic file image == 0x464C457F) ≡ true =
        ap (λ (t : ℕ). t == 0x464C457F) v.signed in
      let fits : ltb size (address (phoff file image + phnum file image * phentsize file image))
          ≡ false =
        table_fits size (phoff file image + phnum file image * phentsize file image) ends
          (omega arith) in
      (
        mem',
        rw (there, signed, fits, elf_load) e,
        λ i b h k. filled i b (omega arith) h k,
        λ b out. kept b (λ j l h. out j h),
      )
