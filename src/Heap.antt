-- ===== src/Heap.antt =====
-- src/mm/heap.c: the kernel heap, a first-fit allocator over a linked list of blocks. The list from
-- `heap_head` along `next` is a list of blocks, each with the address of its header; a block's
-- `next` pointer is the address of the block behind it in the list. A header takes 12 bytes.
pub mod Layout
pub mod Alloc
pub mod Free
pub mod Reach
use mathlib.Core.Option
use learning_os_project.Common.{
  ◌++◌, ℕ, ◌+◌, ◌-◌, ◌*◌, ◌/◌, ◌%◌, ◌^◌, Bool, true, false, not, ◌&&◌, ◌||◌, Option, none, some,
  List, [], ◌∷◌, ltb, leb, ◌==◌, if◌then◌else◌,
}

abbrev pub header : ℕ
header = 12

-- `struct heap_block`, with the address that it lies at.
pub record Block : Type 0 where
  pub addr : ℕ
  pub size : ℕ
  pub free : Bool

-- The static variables; `heap_head` is null where `blocks` is empty.
pub record Heap : Type 0 where
  pub heap_start : ℕ
  pub heap_end : ℕ
  pub blocks : List Block

abbrev pub at_load : Heap
at_load = record { heap_start = 0; heap_end = 0; blocks = [] }

-- `(size + 7) & ~7U`
unfoldable pub align8 : ℕ → ℕ
align8 size = (size + 7) % 2 ^ 32 / 8 * 8

unfoldable pub heap_init : ℕ → ℕ → Heap
heap_init start size = record {
  heap_start = start;
  heap_end = (start + size) % 2 ^ 32;
  blocks = record { addr = start; size = (size + 2 ^ 32 - header) % 2 ^ 32; free = true } ∷ [];
}

-- What `kmalloc` makes of the first block that is free and large enough: its tail becomes a free
-- block if more than a header and 8 bytes remain.
unfoldable pub carve : Block → ℕ → List Block
carve b size =
    if ltb (header + 8) (b.size - size)
    then record { addr = b.addr; size = size; free = false }
      ∷ record {
        addr = (b.addr + header + size) % 2 ^ 32;
        size = b.size - size - header;
        free = true;
      }
      ∷ []
    else record b { free = false } ∷ []

abbrev pub fits : Block → ℕ → Bool
fits b size = b.free && leb size b.size

-- The walk of `kmalloc` from a block on: the address of the payload, and the list as it stands
-- then.
unfoldable pub first_fit : List Block → ℕ → Option (ℕ × List Block)
first_fit [] size = none
first_fit (b ∷ bs) size =
    if fits b size
    then some ((b.addr + header) % 2 ^ 32, carve b size ++ bs)
    else Option.map (λ (p, bs'). (p, b ∷ bs')) (first_fit bs size)

abbrev pub is_nil : List Block → Bool
is_nil [] = true
is_nil (b ∷ bs) = false

-- The pointer, 0 if there is none, and the heap.
unfoldable pub kmalloc : Heap → ℕ → ℕ × Heap
kmalloc h size =
    if (size == 0) || is_nil h.blocks then (0, h) else elim (first_fit h.blocks (align8 size)) [
      | none ↦ (0, h)
      | some (p, bs) ↦ (p, record h { blocks = bs })
    ]

-- Both blocks are free, and the second begins where the first ends.
unfoldable pub joins : Block → Block → Bool
joins b c = b.free && c.free && ((b.addr + header + b.size) % 2 ^ 32 == c.addr)

-- The loop of `coalesce`: `merge b bs` has `curr` at `b`, with `bs` behind it.
unfoldable pub merge : Block → List Block → List Block
merge b [] = b ∷ []
merge b (c ∷ bs) = elim (joins b c) [
  | true ↦ merge (record b { size = (b.size + header + c.size) % 2 ^ 32 }) bs
  | false ↦ b ∷ merge c bs
]

unfoldable pub coalesce : List Block → List Block
coalesce [] = []
coalesce (b ∷ bs) = merge b bs

-- `block->free = 1` at a header of the list; `none` if no header lies there.
unfoldable pub mark_free : List Block → ℕ → Option (List Block)
mark_free [] a = none
mark_free (b ∷ bs) a =
    if b.addr == a
    then some (record b { free = true } ∷ bs)
    else Option.map (λ bs'. b ∷ bs') (mark_free bs a)

-- `none`: the pointer is not the payload of a block, and the code writes into memory that is no
-- header, which this model does not follow.
unfoldable pub kfree : Heap → ℕ → Option Heap
kfree h ptr =
    if (ptr == 0) || is_nil h.blocks || ltb ptr (h.heap_start + header) || leb h.heap_end ptr
    then some h
    else Option.map (λ bs. record h { blocks = coalesce bs }) (mark_free h.blocks (ptr - header))

-- What `heap_stats` reports.
pub record HeapStats : Type 0 where
  pub used : ℕ
  pub free : ℕ
  pub blocks : ℕ
  pub free_blocks : ℕ

unfoldable pub count_blocks : HeapStats → List Block → HeapStats
count_blocks s [] = s
count_blocks s (b ∷ bs) =
    count_blocks
      (if b.free
        then record s {
          free = (s.free + b.size) % 2 ^ 32;
          blocks = s.blocks + 1;
          free_blocks = s.free_blocks + 1;
        }
        else record s { used = (s.used + b.size) % 2 ^ 32; blocks = s.blocks + 1 })
      bs

unfoldable pub heap_stats : Heap → HeapStats
unfolding count_blocks
heap_stats h = count_blocks (record { used = 0; free = 0; blocks = 0; free_blocks = 0 }) h.blocks
