-- ===== src/Tests/Programs.antt =====
-- An ELF image in memory, and address spaces.
use learning_os_project.Common.{
  ℕ, ◌-◌, ◌≡◌, ◌<◌, inl, inr, refl, List, [], ◌∷◌, ◌++◌, some, arith, true, false, replicate,
  get_or, ltb, if◌then◌else◌, Bool-cases,
}
use learning_os_project.Common.Table.{holds_below, holds_below-at}
use learning_os_project.Elf.Memory.{Memory, Bytes, within}
use learning_os_project.Elf.Load.{segment, entry, phnum, loaded, elf_load}
use learning_os_project.Elf.Image.{IsPlaced}
use learning_os_project.Elf.Program.{IsImage, covers, content, elf_load_lem}
use learning_os_project.Common.{Option, none}
use learning_os_project.Common.Int.{pos}
use learning_os_project.Elf.Stack.{prepared, elf_prepare_stack}
use learning_os_project.Elf.Pushing.{IsPrepared, elf_prepare_stack_lem}
use learning_os_project.Paging.{Arrays, Paging, paging_init}
use learning_os_project.Paging.Translate.{IsLaidOut, translate, translate-paging_init}

-- A header, one program header for four bytes of the file and six of memory, and the four bytes.
abbrev image_bytes : List ℕ
image_bytes =
    0x7F ∷ 0x45 ∷ 0x4C ∷ 0x46 ∷ replicate 20 0
    ++ (0 ∷ 0x20 ∷ 0 ∷ 0 ∷ 52 ∷ 0 ∷ 0 ∷ 0 ∷ replicate 10 0
        ++ (32 ∷ 0 ∷ 1 ∷ 0 ∷ replicate 6 0
            ++ (1
                  ∷ 0
                  ∷ 0
                  ∷ 0
                  ∷ 84
                  ∷ 0
                  ∷ 0
                  ∷ 0
                  ∷ 0
                  ∷ 0x20
                  ∷ 0
                  ∷ 0
                  ∷ 0
                  ∷ 0
                  ∷ 0
                  ∷ 0
                  ∷ 4
                  ∷ 0
                  ∷ 0
                  ∷ 0
                  ∷ 6
                  ∷ 0
                  ∷ 0
                  ∷ 0
                  ∷ replicate 8 0
                ++ (11 ∷ 12 ∷ 13 ∷ 14 ∷ []))))

-- The image at 4096; 7 everywhere else.
abbrev file : Memory
file a = if within a 4096 88 then get_or image_bytes (a - 4096) 0 else 7

small_bytes : holds_below (λ k. ltb (get_or image_bytes k 0) 256) 88 ≡ true
unfolding holds_below
small_bytes = refl

file-Bytes : Bytes file
file-Bytes a = elim (Bool-cases (within a 4096 88)) [
  | inr p ↦ rw p (omega arith)
  | inl p ↦
      let small =
        holds_below-at (λ k. ltb (get_or image_bytes k 0) 256) 88 small_bytes (a - 4096)
          (ground arith) in
      rw p (ground (arith, small))
]

one_header : (i : ℕ) → i < phnum file 4096 → i ≡ 0
one_header i h = omega arith

only_segment : IsPlaced 4096 88 (omega arith) (segment file 4148)
unfolding segment
only_segment = record {
  inside = omega arith;
  file_le = omega arith;
  low = omega arith;
  apart = inr (omega arith);
}

image : IsImage file 4096 88
image = record {
  bytes = file-Bytes;
  somewhere = λ e. omega arith;
  top = omega arith;
  head = omega arith;
  signed = refl;
  ends = omega arith;
  table = λ i h. let first = one_header i h in rw first (omega arith);
  segments = λ i h kind. let first = one_header i h in rw first only_segment;
  apart = λ i j ne h k kind kind'. absurd (ne (omega (arith, one_header i h, one_header j k)));
}

elf_load_example :
    (mem' : Memory) × (elf_load file 4096 88 ≡ loaded (entry file 4096) mem')
    × ((i b : ℕ)
        → i < phnum file 4096
        → covers file 4096 i b ≡ true
        → mem' b ≡ content file 4096 i b)
    × ((b : ℕ) → ((i : ℕ) → i < phnum file 4096 → covers file 4096 i b ≡ false) → mem' b ≡ file b)
elf_load_example = elf_load_lem file 4096 88 image

abbrev arrays : Arrays
arrays = record { directory = 0x1000; low = 0x10000; high = 0x20000 }

abbrev before_paging : Paging
before_paging = record { words = λ a. 5; cr3 = 0; enabled = false }

arrays-IsLaidOut : IsLaidOut arrays
arrays-IsLaidOut = record {
  directory_page = refl;
  low_page = refl;
  high_page = refl;
  directory_low = inl (omega arith);
  directory_high = inl (omega arith);
  low_high = inl (omega arith);
}

translate_example : translate (paging_init arrays before_paging) 0xC0001234 ≡ some 0x1234
translate_example =
    translate-paging_init arrays before_paging 0xC0001234 arrays-IsLaidOut (omega arith)

-- `a` and a null pointer.
abbrev two_args : List (Option (List ℕ))
two_args = some (97 ∷ []) ∷ none ∷ []

prepare_example :
    (esp : ℕ) × (mem' : Memory) × (elf_prepare_stack file 8192 1024 two_args (pos 2) true
      ≡ prepared esp mem')
    × IsPrepared two_args 2 8192 file esp mem'
prepare_example =
    elf_prepare_stack_lem file 8192 1024 two_args 2 (omega arith) (omega arith) (omega arith)
      (omega arith) (omega arith)
