-- ===== src/Heap/Reach.antt =====
-- The heap that `heap_init` and any sequence of `kmalloc` and `kfree` leave.
use learning_os_project.Common.{
  ℕ, ◌+◌, ◌^◌, ◌≤◌, ◌<◌, ◌≡◌, sym, ap, ◌∙◌, subst, inl, inr, List, ◌∷◌, ◌++◌, some, some-inj,
  dec_lt, arith,
}
use learning_os_project.Heap.{header, Heap, heap_init, kmalloc, kfree}
use learning_os_project.Heap.Layout.{IsValid, Payload, live, Apart, live-Apart, heap_init-IsValid}
use learning_os_project.Heap.Alloc.{kmalloc_lem}
use learning_os_project.Heap.Free.{kfree_lem}

-- The heaps that a client comes to: one of at least a header, below 2^32; a request of at most
-- 2^32 - 8 bytes, granted or not; the release of a payload in use that is not empty.
pub data IsReached : Heap → Type 0 where
  made : (start size : ℕ) → header ≤ size → start + size < 2 ^ 32 → IsReached (heap_init start size)
  asked : {h : Heap} (size : ℕ) → size + 7 < 2 ^ 32 → IsReached h → IsReached (kmalloc h size).1
  released :
      {h h' : Heap} (before behind : List Payload) (p s : ℕ)
      → live h.blocks ≡ before ++ (p, s) ∷ behind
      → 0 < s
      → kfree h p ≡ some h'
      → IsReached h
      → IsReached h'

kmalloc-zero : (h : Heap) → kmalloc h 0 ≡ (0, h)
unfolding kmalloc
kmalloc-zero h = λ i. (0, h)

kmalloc-IsValid : {h : Heap} (size : ℕ) → size + 7 < 2 ^ 32 → IsValid h → IsValid (kmalloc h size).1
kmalloc-IsValid {h} size small v = elim (dec_lt 0 size) [
  | no empty ↦
      let none_asked : size ≡ 0 = omega arith in
      subst (λ (r : ℕ × Heap). IsValid r.1) (sym (ap (kmalloc h) none_asked ∙ kmalloc-zero h)) v
  | yes some_bytes ↦ elim (kmalloc_lem size v some_bytes small) [
    | inl refused ↦ subst (λ (r : ℕ × Heap). IsValid r.1) (sym refused.0) v
    | inr granted ↦ granted.valid
  ]
]

IsReached-IsValid : {h : Heap} → IsReached h → IsValid h
IsReached-IsValid (made start size h l) = (heap_init-IsValid start size h l).0
IsReached-IsValid (asked size small r) = kmalloc-IsValid size small (IsReached-IsValid r)
IsReached-IsValid (released before behind p s there some_bytes e r) =
    let (h', e', freed) = kfree_lem before behind p s (IsReached-IsValid r) there some_bytes in
    subst IsValid (some-inj (sym e' ∙ e)) freed.valid

-- After `heap_init` and any sequence of `kmalloc` calls of at most 2^32 - 8 bytes and `kfree` calls
-- of payloads in use that are not empty, the payloads in use lie inside the heap, in order of
-- address, each behind the end of the one before it.
pub IsReached-Apart : {h : Heap} → IsReached h → Apart h.heap_start (live h.blocks) h.heap_end
IsReached-Apart r = live-Apart (IsReached-IsValid r)
