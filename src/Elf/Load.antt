-- ===== src/Elf/Load.antt =====
-- `elf_load`: the image and the places of its segments lie in one memory, and the header is read
-- again where the code reads it again.
use learning_os_project.Common.{
  ℕ, zero, suc, ◌+◌, ◌-◌, ◌*◌, true, false, not, ◌||◌, ltb, ◌==◌, if◌then◌else◌, Option, none, some,
}
use learning_os_project.Elf.Memory.{Memory, address, load16, load32, copy_bytes, fill_bytes}

-- The fields of a program header that the loader reads.
pub record Segment : Type 0 where
  pub kind : ℕ
  pub offset : ℕ
  pub vaddr : ℕ
  pub filesz : ℕ
  pub memsz : ℕ

unfoldable pub segment : Memory → ℕ → Segment
segment mem ph = record {
  kind = load32 mem ph;
  offset = load32 mem (ph + 4);
  vaddr = load32 mem (ph + 8);
  filesz = load32 mem (ph + 16);
  memsz = load32 mem (ph + 20);
}

abbrev pub magic : Memory → ℕ → ℕ
magic mem image = load32 mem image

abbrev pub entry : Memory → ℕ → ℕ
entry mem image = load32 mem (image + 24)

abbrev pub phoff : Memory → ℕ → ℕ
phoff mem image = load32 mem (image + 28)

abbrev pub phentsize : Memory → ℕ → ℕ
phentsize mem image = load16 mem (image + 42)

abbrev pub phnum : Memory → ℕ → ℕ
phnum mem image = load16 mem (image + 44)

-- `image + eh->phoff + i * eh->phentsize`
abbrev pub header : Memory → ℕ → ℕ → ℕ
header mem image i = address (image + phoff mem image + i * phentsize mem image)

-- The body of the loop. `none`: the segment does not lie in the image.
unfoldable pub load_segment : Memory → ℕ → ℕ → ℕ → Option Memory
load_segment mem image size ph =
    let s = segment mem ph in
    if not (s.kind == 1)
    then some mem
    else if ltb size (address (s.offset + s.filesz))
    then none
    else let copied = copy_bytes mem s.vaddr (address (image + s.offset)) s.filesz in
      let s' = segment copied ph in
      some (
        if ltb s'.filesz s'.memsz
        then fill_bytes copied (address (s.vaddr + s'.filesz)) 0 (s'.memsz - s'.filesz)
        else copied)

-- The status -1 or 0, with the entry point; `entry_out` is not null.
pub data Loaded : Type 0 where
  failed : Memory → Loaded
  loaded : ℕ → Memory → Loaded

-- The loop from segment `i` on. `i` has 16 bits and is below `phnum` in the loop, so it takes at
-- most 65535 steps, and `n` counts down from there.
unfoldable pub load_segments : ℕ → Memory → ℕ → ℕ → ℕ → Loaded
unfolding load_segment
load_segments zero mem image size i = loaded (entry mem image) mem
load_segments (suc n) mem image size i = elim (ltb i (phnum mem image)) [
  | false ↦ loaded (entry mem image) mem
  | true ↦ elim (load_segment mem image size (header mem image i)) [
    | none ↦ failed mem
    | some mem' ↦ load_segments n mem' image size (i + 1)
  ]
]

-- A null image has the address 0.
unfoldable pub elf_load : Memory → ℕ → ℕ → Loaded
unfolding load_segments
elf_load mem image size =
    if (image == 0) || ltb size 52
    then failed mem
    else if not (magic mem image == 0x464C457F)
    then failed mem
    else if ltb size (address (phoff mem image + phnum mem image * phentsize mem image))
    then failed mem
    else load_segments 65535 mem image size 0
