-- ===== src/Heap/Layout.antt =====
-- The layout of the kernel heap: its blocks cover the heap from end to end without gap or overlap.
use learning_os_project.Common.{
  ℕ, ◌+◌, ◌^◌, ◌≤◌, ◌<◌, ◌≡◌, refl, subst, ap, sym, inl, inr, arith, if◌then◌else◌, Bool-cases,
  List, [], ◌∷◌, ◌++◌,
}
use learning_os_project.Heap.{header, Block, Heap, heap_init}

-- The blocks lie one behind the other from `a` to `e`.
abbrev pub Tiles : ℕ → List Block → ℕ → Type 0
Tiles a [] e = a ≡ e
Tiles a (b ∷ bs) e = (b.addr ≡ a) × Tiles (a + header + b.size) bs e

pub record IsValid (h : Heap) : Type 0 where
  pub tiles : Tiles h.heap_start h.blocks h.heap_end
  pub bound : h.heap_end < 2 ^ 32

pub Tiles-le : (a : ℕ) (bs : List Block) (e : ℕ) → Tiles a bs e → a ≤ e
Tiles-le a [] e t = omega arith
Tiles-le a (b ∷ bs) e t = omega (arith, Tiles-le (a + header + b.size) bs e t.1)

pub Tiles-append :
    (a m : ℕ) (xs ys : List Block) (e : ℕ) → Tiles a xs m → Tiles m ys e → Tiles a (xs ++ ys) e
Tiles-append a m [] ys e t u = rw t u
Tiles-append a m (x ∷ xs) ys e t u = (t.0, Tiles-append (a + header + x.size) m xs ys e t.1 u)

pub Tiles-split :
    (a : ℕ) (xs ys : List Block) (e : ℕ)
    → Tiles a (xs ++ ys) e
    → (m : ℕ) × Tiles a xs m × Tiles m ys e
Tiles-split a [] ys e t = (a, refl, t)
Tiles-split a (x ∷ xs) ys e t =
    let (m, front, back) = Tiles-split (a + header + x.size) xs ys e t.1 in (m, (t.0, front), back)

-- A block of a tiled stretch lies inside it.
pub Tiles-block :
    (a : ℕ) (xs : List Block) (b : Block) (ys : List Block) (e : ℕ)
    → Tiles a (xs ++ b ∷ ys) e
    → (a ≤ b.addr) × (b.addr + header + b.size ≤ e)
Tiles-block a xs b ys e t =
    let (m, front, back) = Tiles-split a xs (b ∷ ys) e t in
    omega (arith, Tiles-le a xs m front, Tiles-le (m + header + b.size) ys e back.1, back.0)

-- A payload: its address and its size.
abbrev pub Payload : Type 0
Payload = ℕ × ℕ

-- The payloads in use, in order of address.
abbrev pub live : List Block → List Payload
live [] = []
live (b ∷ bs) = if b.free then live bs else (b.addr + header, b.size) ∷ live bs

pub live-append : (xs ys : List Block) → live (xs ++ ys) ≡ live xs ++ live ys
live-append [] ys = refl
live-append (x ∷ xs) ys = ground (arith, live-append xs ys)

-- The payloads lie between `a` and `e`, each behind the one before it.
abbrev pub Apart : ℕ → List Payload → ℕ → Type 0
Apart a [] e = a ≤ e
Apart a ((p, s) ∷ ps) e = (a ≤ p) × Apart (p + s) ps e

Apart-le : (a b : ℕ) (ps : List Payload) (e : ℕ) → a ≤ b → Apart b ps e → Apart a ps e
Apart-le a b [] e h k = omega arith
Apart-le a b ((p, s) ∷ ps) e h k = (omega (arith, k.0), k.1)

live-Apart_from : (a : ℕ) (bs : List Block) (e : ℕ) → Tiles a bs e → Apart a (live bs) e
live-Apart_from a [] e t = omega arith
live-Apart_from a (b ∷ bs) e t = elim (Bool-cases b.free) [
  | inl f ↦ rw f (
      Apart-le a (a + header + b.size) (live bs) e (omega arith)
        (live-Apart_from (a + header + b.size) bs e t.1))
  | inr f ↦ rw f (
    omega (arith, t.0),
    subst (λ x. Apart x (live bs) e) (ap (λ (x : ℕ). x + header + b.size) (sym t.0))
        (live-Apart_from (a + header + b.size) bs e t.1),
  )
]

-- In a valid heap the payloads in use lie inside the heap and do not overlap.
pub live-Apart : {h : Heap} → IsValid h → Apart h.heap_start (live h.blocks) h.heap_end
live-Apart {h} v = live-Apart_from h.heap_start h.blocks h.heap_end v.tiles

-- A heap of at least a header that ends below 2^32 is valid when it is made, and nothing is in use.
pub heap_init-IsValid :
    (start size : ℕ)
    → header ≤ size
    → start + size < 2 ^ 32
    → IsValid (heap_init start size) × (live (heap_init start size).blocks ≡ [])
unfolding heap_init
heap_init-IsValid start size h k = (omega arith, refl)
