-- ===== src/Tests/Memory.antt =====
-- The kernel heap at a small heap.
use learning_os_project.Common.{ℕ, ◌≡◌, refl, subst, ◌⊎◌, some, [], ◌∷◌, arith, true, false}
use learning_os_project.Heap.{
  Heap, align8, heap_init, kmalloc, kfree, first_fit, carve, mark_free, coalesce, merge, joins,
}
use learning_os_project.Heap.Layout.{IsValid, live, Apart, heap_init-IsValid}
use learning_os_project.Heap.Reach.{IsReached, made, asked, IsReached-Apart}
use learning_os_project.Heap.Alloc.{NoFit, Allocated, kmalloc_lem}
use learning_os_project.Heap.Free.{Freed, kfree_lem}

-- A payload of 16 bytes in use, and the rest free.
abbrev heap : Heap
heap = record {
  heap_start = 4096;
  heap_end = 4296;
  blocks =
      record { addr = 4096; size = 16; free = false }
      ∷ record { addr = 4124; size = 160; free = true }
      ∷ [];
}

heap-IsValid : IsValid heap
heap-IsValid = omega arith

heap_made : (kmalloc (heap_init 4096 200) 13) ≡ (4108, heap)
unfolding kmalloc heap_init align8 first_fit carve
heap_made = refl

heap_emptied : kfree heap 4108 ≡ some (heap_init 4096 200)
unfolding kfree heap_init mark_free coalesce merge joins
heap_emptied = refl

-- After one request of 13 bytes.
heap-IsReached : IsReached heap
heap-IsReached =
    subst (λ (r : ℕ × Heap). IsReached r.1) heap_made
      (asked 13 (omega arith) (made 4096 200 (omega arith) (omega arith)))

IsReached-Apart_example : Apart 4096 ((4108, 16) ∷ []) 4296
IsReached-Apart_example = IsReached-Apart heap-IsReached

kmalloc_example :
    (kmalloc heap 20 ≡ (0, heap)) × NoFit heap.blocks (align8 20)
    ⊎ Allocated heap 20 (kmalloc heap 20).0 (kmalloc heap 20).1
kmalloc_example = kmalloc_lem 20 heap-IsValid (omega arith) (omega arith)

kfree_example : (h' : Heap) × (kfree heap 4108 ≡ some h') × Freed heap [] [] h'
kfree_example = kfree_lem [] [] 4108 16 heap-IsValid refl (omega arith)

heap_init_example : IsValid (heap_init 4096 200) × (live (heap_init 4096 200).blocks ≡ [])
heap_init_example = heap_init-IsValid 4096 200 (omega arith) (omega arith)
