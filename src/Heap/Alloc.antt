-- ===== src/Heap/Alloc.antt =====
-- What `kmalloc` does to a valid heap.
use learning_os_project.Common.{
  ℕ, ◌+◌, ◌-◌, ◌%◌, ◌^◌, ◌≤◌, ◌<◌, ◌≡◌, refl, ap, ◌∙◌, sym, ◌⊎◌, inl, inr, true, false, ◌||◌, arith,
  ltb, ◌==◌, Bool-cases, ne→==, Option-cases, Option-map-eq-some, Option-map-eq-none, some-inj,
  List, [], ◌∷◌, ◌++◌, none, some, ◌≢◌,
}
use learning_os_project.Heap.{header, Block, Heap, align8, carve, fits, first_fit, kmalloc, is_nil}
use learning_os_project.Heap.Layout.{
  Tiles, IsValid, Tiles-le, Tiles-append, Tiles-split, Tiles-block, Payload, live, live-append,
}

pub align8_lem :
    (size : ℕ)
    → size + 7 < 2 ^ 32
    → (size ≤ align8 size) × (align8 size < size + 8) × (align8 size % 8 ≡ 0)
unfolding align8
align8_lem size h = omega arith

-- What the walk finds: a first block that fits, with the blocks before and behind it.
pub record Found (bs : List Block) (size : ℕ) (p : ℕ) (bs' : List Block) : Type 0 where
  pub before : List Block
  pub block : Block
  pub behind : List Block
  pub split : bs ≡ before ++ block ∷ behind
  pub carved : bs' ≡ before ++ (carve block size ++ behind)
  pub payload : p ≡ (block.addr + header) % 2 ^ 32
  pub fit : fits block size ≡ true

pub first_fit-Found :
    (bs : List Block) (size : ℕ) {p : ℕ} {bs' : List Block}
    → first_fit bs size ≡ some (p, bs')
    → Found bs size p bs'
unfolding first_fit
first_fit-Found [] size e = cc
first_fit-Found (b ∷ bs) size e = elim (Bool-cases (fits b size)) [
  | inl f ↦
      let hit = some-inj (rw (f, first_fit) at e) in
      record {
        before = [];
        block = b;
        behind = bs;
        split = refl;
        carved = sym (ap (λ (t : ℕ × List Block). t.1) hit);
        payload = sym (ap (λ (t : ℕ × List Block). t.0) hit);
        fit = f;
      }
  | inr f ↦
      let (at, found, eq) = Option-map-eq-some _ (first_fit bs size) (rw (f, first_fit) at e) in
      let rest = first_fit-Found bs size {p = at.0} {bs' = at.1} found in
      record {
        before = b ∷ rest.before;
        block = rest.block;
        behind = rest.behind;
        split = ap (λ (l : List Block). b ∷ l) rest.split;
        carved =
            sym (ap (λ (t : ℕ × List Block). t.1) eq) ∙ ap (λ (l : List Block). b ∷ l) rest.carved;
        payload = sym (ap (λ (t : ℕ × List Block). t.0) eq) ∙ rest.payload;
        fit = rest.fit;
      }
]

carve-Tiles :
    (b : Block) (size e : ℕ)
    → fits b size ≡ true
    → b.addr + header + b.size ≡ e
    → e < 2 ^ 32
    → Tiles b.addr (carve b size) e
unfolding carve
carve-Tiles b size e f t h = ground arith

-- No block of the list is free and large enough.
abbrev pub NoFit : List Block → ℕ → Type 0
NoFit [] size = Unit {0}
NoFit (b ∷ bs) size = (fits b size ≡ false) × NoFit bs size

first_fit-none : (bs : List Block) (size : ℕ) → first_fit bs size ≡ none → NoFit bs size
unfolding first_fit
first_fit-none [] size e = tt
first_fit-none (b ∷ bs) size e = elim (Bool-cases (fits b size)) [
  | inl f ↦ cc (rw (f, first_fit) at e)
  | inr f ↦ (f, first_fit-none bs size (Option-map-eq-none _ _ (rw (f, first_fit) at e)))
]

Found-Tiles :
    {bs bs' : List Block} {size p : ℕ} (a e : ℕ)
    → Found bs size p bs'
    → Tiles a bs e
    → e < 2 ^ 32
    → Tiles a bs' e
Found-Tiles {bs} {size} a e found t h =
    let b = found.block in
    let (m, front, back) = Tiles-split a found.before (b ∷ found.behind) e (rw found.split at t) in
    let end = b.addr + header + b.size in
    let rest : Tiles end found.behind e = rw back.0 back.1 in
    let le = Tiles-le end found.behind e rest in
    let here = carve-Tiles b size end found.fit refl (omega (arith, le)) in
    rw found.carved (
      Tiles-append a m found.before (carve b size ++ found.behind) e front
        (Tiles-append m end (carve b size) found.behind e (rw (← back.0) here) rest))

live-carve :
    (b : Block) (size : ℕ)
    → fits b size ≡ true
    → (granted : ℕ) × (live (carve b size) ≡ (b.addr + header, granted) ∷ []) × (size ≤ granted)
unfolding carve
live-carve b size f = elim (Bool-cases (ltb (header + 8) (b.size - size))) [
  | inl e ↦ (size, rw e refl, omega arith)
  | inr e ↦ (b.size, rw e refl, ground arith)
]

-- `kmalloc` hands out a new payload at `p` between the payloads in use, all of which stay.
pub record Allocated (h : Heap) (size : ℕ) (p : ℕ) (h' : Heap) : Type 0 where
  pub before : List Payload
  pub behind : List Payload
  pub granted : ℕ
  pub was : live h.blocks ≡ before ++ behind
  pub now : live h'.blocks ≡ before ++ (p, granted) ∷ behind
  pub enough : size ≤ granted
  pub not_null : p ≢ 0
  pub same_start : h'.heap_start ≡ h.heap_start
  pub same_end : h'.heap_end ≡ h.heap_end
  pub valid : IsValid h'

Found-Allocated :
    {h : Heap} {size p : ℕ} {bs' : List Block}
    → IsValid h
    → size + 7 < 2 ^ 32
    → Found h.blocks (align8 size) p bs'
    → Allocated h size p (record h { blocks = bs' })
Found-Allocated {h} {size} {p} v small found =
    let b = found.block in
    let size' = align8 size in
    let (granted, one, room) = live-carve b size' found.fit in
    let used : b.free ≡ true = ground (arith, found.fit) in
    let place : b.addr + header < 2 ^ 32 = omega (
      arith,
      Tiles-block h.heap_start found.before b found.behind h.heap_end (rw found.split at v.tiles),
    ) in
    let wrap : (b.addr + header) % 2 ^ 32 ≡ b.addr + header = omega arith in
    record {
      before = live found.before;
      behind = live found.behind;
      granted = granted;
      was = rw (found.split, live-append, used) refl;
      now = rw (found.carved, live-append, live-append, one, found.payload, wrap) refl;
      enough = omega (arith, align8_lem size small);
      not_null = omega (arith, found.payload);
      same_start = refl;
      same_end = refl;
      valid = record {
        tiles = Found-Tiles h.heap_start h.heap_end found v.tiles v.bound;
        bound = v.bound;
      };
    }

first_fit-is_nil :
    (bs : List Block) (size : ℕ) {at : ℕ × List Block}
    → first_fit bs size ≡ some at
    → is_nil bs ≡ false
unfolding first_fit
first_fit-is_nil [] size e = cc
first_fit-is_nil (b ∷ bs) size e = refl

kmalloc-none :
    (h : Heap) (size : ℕ) → first_fit h.blocks (align8 size) ≡ none → kmalloc h size ≡ (0, h)
unfolding kmalloc
kmalloc-none h size e = elim (Bool-cases ((size == 0) || is_nil h.blocks)) [
  | inl z ↦ rw z refl
  | inr z ↦ rw (z, e) refl
]

kmalloc-some :
    (h : Heap) (size : ℕ) {p : ℕ} {bs' : List Block}
    → 0 < size
    → first_fit h.blocks (align8 size) ≡ some (p, bs')
    → kmalloc h size ≡ (p, record h { blocks = bs' })
unfolding kmalloc
kmalloc-some h size pos e =
    rw (ne→== size 0 (omega arith), first_fit-is_nil h.blocks (align8 size) e, e) refl

-- In a valid heap, for a request of 1 to 2^32 - 8 bytes, `kmalloc` either returns null, leaves
-- the heap as it is, and no free block is as large as the request rounded up to 8; or it
-- returns the address of a new payload of at least the requested size, not null, between the
-- payloads in use, which all stay as they are, and the heap stays valid.
pub kmalloc_lem :
    {h : Heap} (size : ℕ)
    → IsValid h
    → 0 < size
    → size + 7 < 2 ^ 32
    → (kmalloc h size ≡ (0, h)) × NoFit h.blocks (align8 size)
      ⊎ Allocated h size (kmalloc h size).0 (kmalloc h size).1
kmalloc_lem {h} size v pos small = elim (Option-cases (first_fit h.blocks (align8 size))) [
  | inl e ↦ inl (kmalloc-none h size e, first_fit-none h.blocks (align8 size) e)
  | inr (at, e) ↦ inr (
      rw (kmalloc-some h size {p = at.0} {bs' = at.1} pos e)
        (Found-Allocated v small (first_fit-Found h.blocks (align8 size) e)))
]
