-- ===== src/Frames.antt =====
-- src/mm/memory.c: the allocator of physical frames, a bitmap of 32-bit words in which a set
-- bit is a
-- frame in use. A read past the bitmap gives 0 and a write past it is dropped;
-- `Frames.Bitmap.IsValid`
-- keeps every frame that the code touches inside.
pub mod Bitmap
pub mod Alloc
pub mod Runs
pub mod Longest
use Prim.Native.Nat.{bit_and, bit_or}
use learning_os_project.Common.{
  ℕ, zero, suc, ◌+◌, ◌-◌, ◌*◌, ◌/◌, ◌%◌, ◌^◌, Bool, true, false, not, ◌&&◌, ◌||◌, Option, none,
  some, List, [], ◌∷◌, ltb, leb, ◌==◌, if◌then◌else◌, get_or, set, length, replicate,
}
use learning_os_project.Common.Bits.{bit}

abbrev pub frame_size : ℕ
frame_size = 4096

-- The static variables; `frame_bitmap` is null where `ready` is false. `bitmap_words` is the length
-- of the bitmap.
pub record Frames : Type 0 where
  pub ready : Bool
  pub bitmap : List ℕ
  pub total_frames : ℕ
  pub used_frames : ℕ
  pub placement_addr : ℕ

abbrev pub at_load : Frames
at_load = record {
  ready = false;
  bitmap = [];
  total_frames = 0;
  used_frames = 0;
  placement_addr = 0;
}

-- `(addr + align - 1) & ~(align - 1)`
unfoldable pub align_up : ℕ → ℕ → ℕ
align_up addr align = bit_and ((addr + align - 1) % 2 ^ 32) (2 ^ 32 - align)

-- `__kernel_end` is the linker's: an argument.
unfoldable pub placement_init : Frames → ℕ → Frames
placement_init s kernel_end = record s { placement_addr = align_up kernel_end frame_size }

unfoldable pub placement_alloc : Frames → ℕ → ℕ → ℕ × Frames
placement_alloc s size align =
    let addr = if align == 0 then s.placement_addr else align_up s.placement_addr align in
    (addr, record s { placement_addr = (addr + size) % 2 ^ 32 })

unfoldable pub test_frame : List ℕ → ℕ → ℕ
test_frame bitmap frame = bit (get_or bitmap (frame / 32) 0) (frame % 32)

unfoldable pub set_frame : Frames → ℕ → Frames
set_frame s frame =
    if test_frame s.bitmap frame == 0
    then record s {
      bitmap =
          set s.bitmap (frame / 32) (bit_or (get_or s.bitmap (frame / 32) 0) (2 ^ (frame % 32)));
      used_frames = (s.used_frames + 1) % 2 ^ 32;
    }
    else s

unfoldable pub clear_frame : Frames → ℕ → Frames
clear_frame s frame = if test_frame s.bitmap frame == 0 then s else record s {
  bitmap =
      set s.bitmap (frame / 32)
        (bit_and (get_or s.bitmap (frame / 32) 0) (2 ^ 32 - 1 - 2 ^ (frame % 32)));
  used_frames = (s.used_frames + 2 ^ 32 - 1) % 2 ^ 32;
}

-- `for (addr = s; addr < e; addr += FRAME_SIZE)`, with a bound on the rounds.
unfoldable pub each_frame : ℕ → (Frames → ℕ → Frames) → ℕ → ℕ → Frames → Frames
each_frame zero body addr e s = s
each_frame (suc fuel) body addr e s = elim (ltb addr e) [
  | true ↦ each_frame fuel body ((addr + frame_size) % 2 ^ 32) e (body s (addr / frame_size))
  | false ↦ s
]

unfoldable pub over_region : (Frames → ℕ → Frames) → Frames → ℕ → ℕ → Frames
over_region body s start size =
    let first = align_up start frame_size in
    let e = align_up ((start + size) % 2 ^ 32) frame_size in
    each_frame (e / frame_size + 1) body first e s

unfoldable pub reserve_region : Frames → ℕ → ℕ → Frames
reserve_region = over_region set_frame

unfoldable pub free_region : Frames → ℕ → ℕ → Frames
free_region = over_region clear_frame

unfoldable pub clamp_u64_to_u32 : ℕ → ℕ
clamp_u64_to_u32 v = if ltb (2 ^ 32 - 1) v then 2 ^ 32 - 1 else v

-- `struct multiboot_mmap_entry`, less its size.
pub record MmapEntry : Type 0 where
  pub addr : ℕ
  pub len : ℕ
  pub kind : ℕ

-- What the boot loader hands over: the flags, where the structure and its memory map lie, and the
-- entries of the map in the order in which the walk by `entry->size` meets them.
pub record MultibootInfo : Type 0 where
  pub flags : ℕ
  pub at : ℕ
  pub mmap_addr : ℕ
  pub mmap_length : ℕ
  pub entries : List MmapEntry

-- The first walk: the greatest end.
unfoldable pub max_end : List MmapEntry → ℕ → ℕ
max_end [] max_addr = max_addr
max_end (entry ∷ rest) max_addr =
    let e = (entry.addr + entry.len) % 2 ^ 64 in
    max_end rest (if ltb max_addr e then e else max_addr)

-- The second walk: regions of type 1 that start below 4 GB are freed.
unfoldable pub free_entries : List MmapEntry → Frames → Frames
free_entries [] s = s
free_entries (entry ∷ rest) s =
    let end64 = (entry.addr + entry.len) % 2 ^ 64 in
    let top = if ltb (2 ^ 32) end64 then 2 ^ 32 else end64 in
    free_entries rest (
      if (entry.kind == 1) && ltb entry.addr (2 ^ 32)
      then free_region s entry.addr ((top + 2 ^ 64 - entry.addr) % 2 ^ 64 % 2 ^ 32)
      else s)

-- `sizeof(struct multiboot_info)`
abbrev pub multiboot_info_size : ℕ
multiboot_info_size = 52

unfoldable pub frame_allocator_init : Frames → ℕ → Option MultibootInfo → Frames
frame_allocator_init s kernel_end none = s
frame_allocator_init s kernel_end (some mb) =
    if bit mb.flags 6 == 0
    then s
    else let total = clamp_u64_to_u32 (max_end mb.entries 0) / frame_size in
      if total == 0
      then record s { total_frames = 0 }
      else let words = (total + 31) / 32 in
        let placed =
          (placement_alloc (placement_init (record s { total_frames = total }) kernel_end)
            (words * 4) 4).1 in
        let full = record placed {
          ready = true;
          bitmap = replicate words (2 ^ 32 - 1);
          used_frames = total;
        } in
        let freed = free_entries mb.entries full in
        reserve_region
          (reserve_region (reserve_region freed 0 freed.placement_addr) mb.mmap_addr mb.mmap_length)
          mb.at multiboot_info_size

-- The lowest clear bit of a word from bit `b` on, among `n` bits.
unfoldable pub clear_bit : ℕ → ℕ → ℕ → Option ℕ
clear_bit zero w b = none
clear_bit (suc n) w b = if bit w b == 0 then some b else clear_bit n w (b + 1)

-- The loops of `frame_alloc` over the words from index `i` on: the first frame that is free.
unfoldable pub free_frame : List ℕ → ℕ → Option ℕ
free_frame [] i = none
free_frame (w ∷ ws) i =
    let rest = free_frame ws (i + 1) in
    if w == 2 ^ 32 - 1
    then rest
    else elim (clear_bit 32 w 0) [ some b ↦ some (i * 32 + b) | none ↦ rest ]

unfoldable pub frame_alloc : Frames → ℕ × Frames
frame_alloc s =
    if s.ready
    then elim (free_frame s.bitmap 0) [
      | some frame ↦ (frame * frame_size % 2 ^ 32, set_frame s frame)
      | none ↦ (0, s)
    ]
    else (0, s)

unfoldable pub frame_free : Frames → ℕ → Frames
frame_free s addr =
    if s.ready && ltb (addr / frame_size) s.total_frames
    then clear_frame s (addr / frame_size)
    else s

unfoldable pub frame_total : Frames → ℕ
frame_total s = s.total_frames

unfoldable pub frame_used : Frames → ℕ
frame_used s = s.used_frames

unfoldable pub frame_free_count : Frames → ℕ
frame_free_count s = if ltb s.total_frames s.used_frames then 0 else s.total_frames - s.used_frames

-- The inner loop of `frame_alloc_contiguous`: the index `i` of the first frame in use among the
-- `n` that are left.
unfoldable pub busy_at : List ℕ → ℕ → ℕ → ℕ → Option ℕ
busy_at bitmap start i zero = none
busy_at bitmap start i (suc n) =
    if test_frame bitmap (start + i) == 0 then busy_at bitmap start (i + 1) n else some i

unfoldable pub set_run : Frames → ℕ → ℕ → Frames
set_run s start zero = s
set_run s start (suc n) = set_run (set_frame s start) (start + 1) n

-- The outer loop, with a bound on its rounds: where the run starts.
unfoldable pub free_run : ℕ → List ℕ → ℕ → ℕ → ℕ → Option ℕ
free_run zero bitmap total count start = none
free_run (suc fuel) bitmap total count start = elim (leb (start + count) total) [
  | true ↦ elim (busy_at bitmap start 0 count) [
    | none ↦ some start
    | some i ↦ free_run fuel bitmap total count (start + i + 1)
  ]
  | false ↦ none
]

unfoldable pub frame_alloc_contiguous : Frames → ℕ → ℕ × Frames
frame_alloc_contiguous s count =
    if not s.ready || (count == 0) || ltb s.total_frames count
    then (0, s)
    else elim (free_run (s.total_frames + 1) s.bitmap s.total_frames count 0) [
      | some start ↦ (start * frame_size % 2 ^ 32, set_run s start count)
      | none ↦ (0, s)
    ]

-- The loop of `frame_largest_free_run` over the `n` frames from `i` on.
unfoldable pub longest_run : List ℕ → ℕ → ℕ → ℕ → ℕ → ℕ
longest_run bitmap i zero best current = best
longest_run bitmap i (suc n) best current =
    let longer = if test_frame bitmap i == 0 then current + 1 else 0 in
    longest_run bitmap (i + 1) n (if ltb best longer then longer else best) longer

unfoldable pub frame_largest_free_run : Frames → ℕ
frame_largest_free_run s = if s.ready then longest_run s.bitmap 0 s.total_frames 0 0 else 0

unfoldable pub frame_stats : Frames → ℕ × ℕ
frame_stats s = (frame_free_count s, frame_largest_free_run s)
