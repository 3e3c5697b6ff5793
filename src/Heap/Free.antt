-- ===== src/Heap/Free.antt =====
-- What `kfree` does to a valid heap.
use learning_os_project.Common.{
  ℕ, ◌+◌, ◌-◌, ◌%◌, ◌^◌, ◌≤◌, ◌<◌, ◌≡◌, refl, subst, ap, ap₂, ◌∙◌, sym, inl, inr, Bool, true, false,
  ne→==, ==_refl, ==_iff, le→ltb, lt→leb, ◌&&◌, arith, Bool-cases, List, [], ◌∷◌, ◌++◌, some,
}
use learning_os_project.Heap.{header, Block, Heap, joins, merge, coalesce, mark_free, kfree, is_nil}
use learning_os_project.Heap.Layout.{Tiles, IsValid, Tiles-le, live, Payload}

abbrev head_free : List Block → Bool
head_free [] = false
head_free (b ∷ bs) = b.free

-- No two neighbours are free.
abbrev pub IsCoalesced : List Block → Type 0
IsCoalesced [] = Unit {0}
IsCoalesced (b ∷ bs) = ((b.free && head_free bs) ≡ false) × IsCoalesced bs

-- Freeing a payload in use finds its header and takes it out of the payloads in use.
record Marked (a e : ℕ) (before behind : List Payload) (p size : ℕ) (bs bs' : List Block)
    : Type 0 where
  found : mark_free bs (p - header) ≡ some bs'
  tiles : Tiles a bs' e
  rest : live bs' ≡ before ++ behind
  low : a + header ≤ p
  high : p + size ≤ e

cons-inj {ℓ} : {A : Type ℓ} {x y : A} {xs ys : List A} → x ∷ xs ≡ y ∷ ys → (x ≡ y) × (xs ≡ ys)
cons-inj e = (cc, cc)

-- A free block in front of the payload's block is passed over.
Marked-later :
    (a e : ℕ) (before behind : List Payload) (p s : ℕ) (b : Block) (bs bs' : List Block)
    → Tiles a (b ∷ bs) e
    → b.free ≡ true
    → Marked (a + header + b.size) e before behind p s bs bs'
    → Marked a e before behind p s (b ∷ bs) (b ∷ bs')
unfolding mark_free
Marked-later a e before behind p s b bs bs' t f m = record {
  found = rw (ne→== b.addr (p - header) (omega (arith, t.0, m.low)), m.found) refl;
  tiles = (t.0, m.tiles);
  rest = rw f m.rest;
  low = omega (arith, m.low);
  high = m.high;
}

mark_free-Marked :
    (a e : ℕ) (before behind : List Payload) (p s : ℕ) (bs : List Block)
    → Tiles a bs e
    → live bs ≡ before ++ (p, s) ∷ behind
    → (bs' : List Block) × Marked a e before behind p s bs bs'
unfolding mark_free
mark_free-Marked a e [] behind p s [] t l = cc
mark_free-Marked a e (x ∷ before) behind p s [] t l = cc
mark_free-Marked a e [] behind p s (b ∷ bs) t l = elim (Bool-cases b.free) [
  | inl f ↦
      let (bs', m) = mark_free-Marked (a + header + b.size) e [] behind p s bs t.1 (rw f at l) in
      (b ∷ bs', Marked-later a e [] behind p s b bs bs' t f m)
  | inr f ↦
      let heads = cons-inj (rw f at l) in
      let at : b.addr + header ≡ p = ap (λ (x : Payload). x.0) heads.0 in
      (
        record b { free = true } ∷ bs,
        record {
          found = rw (← at, (==_iff b.addr (b.addr + header - header)).1 (omega arith)) refl;
          tiles = t;
          rest = heads.1;
          low = omega (arith, at);
          high = omega (
            arith,
            at,
            ap (λ (x : Payload). x.1) heads.0,
            Tiles-le (a + header + b.size) bs e t.1,
          );
        },
      )
]
mark_free-Marked a e (x ∷ before) behind p s (b ∷ bs) t l = elim (Bool-cases b.free) [
  | inl f ↦
      let (bs', m) =
        mark_free-Marked (a + header + b.size) e (x ∷ before) behind p s bs t.1 (rw f at l) in
      (b ∷ bs', Marked-later a e (x ∷ before) behind p s b bs bs' t f m)
  | inr f ↦
      let heads = cons-inj (rw f at l) in
      let (bs', m) = mark_free-Marked (a + header + b.size) e before behind p s bs t.1 heads.1 in
      (
        b ∷ bs',
        record {
          found = rw (ne→== b.addr (p - header) (omega (arith, t.0, m.low)), m.found) refl;
          tiles = (t.0, m.tiles);
          rest = rw f (ap₂ ◌∷◌ heads.0 m.rest);
          low = omega (arith, m.low);
          high = m.high;
        },
      )
]

joins-Tiles :
    (a e : ℕ) (b c : Block) (bs : List Block)
    → Tiles a (b ∷ c ∷ bs) e
    → e < 2 ^ 32
    → joins b c ≡ (b.free && c.free)
unfolding joins
joins-Tiles a e b c bs t h =
    let end : (b.addr + header + b.size) % 2 ^ 32 ≡ c.addr =
      omega (arith, Tiles-le (a + header + b.size + header + c.size) bs e t.1.1) in
    rw (end, ==_refl c.addr) (ground arith)

-- The block that two neighbours make.
abbrev joined : Block → Block → Block
joined b c = record b { size = (b.size + header + c.size) % 2 ^ 32 }

joined-Tiles :
    (a e : ℕ) (b c : Block) (bs : List Block)
    → Tiles a (b ∷ c ∷ bs) e
    → e < 2 ^ 32
    → Tiles a (joined b c ∷ bs) e
joined-Tiles a e b c bs t h =
    let le = Tiles-le (a + header + b.size + header + c.size) bs e t.1.1 in
    (t.0, subst (λ x. Tiles x bs e) (omega (arith, le)) t.1.1)

merge-Tiles :
    (a e : ℕ) (b : Block) (bs : List Block)
    → Tiles a (b ∷ bs) e
    → e < 2 ^ 32
    → Tiles a (merge b bs) e
unfolding merge
merge-Tiles a e b [] t h = t
merge-Tiles a e b (c ∷ bs) t h = elim (Bool-cases (joins b c)) [
  | inl j ↦ rw (j, merge) (merge-Tiles a e (joined b c) bs (joined-Tiles a e b c bs t h) h)
  | inr j ↦ rw (j, merge) (t.0, merge-Tiles (a + header + b.size) e c bs t.1 h)
]

live-joined :
    (b c : Block) (bs : List Block) → joins b c ≡ true → live (joined b c ∷ bs) ≡ live (b ∷ c ∷ bs)
unfolding joins
live-joined b c bs j = ground arith

live-merge : (b : Block) (bs : List Block) → live (merge b bs) ≡ live (b ∷ bs)
unfolding merge
live-merge b [] = refl
live-merge b (c ∷ bs) = elim (Bool-cases (joins b c)) [
  | inl j ↦ rw (j, merge, live-merge (joined b c) bs) (live-joined b c bs j)
  | inr j ↦ rw (j, merge, live-merge c bs) refl
]

head_free-merge : (b : Block) (bs : List Block) → head_free (merge b bs) ≡ b.free
unfolding merge
head_free-merge b [] = refl
head_free-merge b (c ∷ bs) = elim (Bool-cases (joins b c)) [
  | inl j ↦ rw (j, merge) (head_free-merge (joined b c) bs)
  | inr j ↦ rw (j, merge) refl
]

merge-IsCoalesced :
    (a e : ℕ) (b : Block) (bs : List Block)
    → Tiles a (b ∷ bs) e
    → e < 2 ^ 32
    → IsCoalesced (merge b bs)
unfolding merge
merge-IsCoalesced a e b [] t h = ground arith
merge-IsCoalesced a e b (c ∷ bs) t h = elim (Bool-cases (joins b c)) [
  | inl j ↦ rw (j, merge) (merge-IsCoalesced a e (joined b c) bs (joined-Tiles a e b c bs t h) h)
  | inr j ↦
      rw (j, merge)
        (
          rw (head_free-merge c bs) (sym (joins-Tiles a e b c bs t h) ∙ j),
          merge-IsCoalesced (a + header + b.size) e c bs t.1 h,
        )
]

coalesce-Tiles : (a e : ℕ) (bs : List Block) → Tiles a bs e → e < 2 ^ 32 → Tiles a (coalesce bs) e
unfolding coalesce
coalesce-Tiles a e [] t h = t
coalesce-Tiles a e (b ∷ bs) t h = merge-Tiles a e b bs t h

live-coalesce : (bs : List Block) → live (coalesce bs) ≡ live bs
unfolding coalesce
live-coalesce [] = refl
live-coalesce (b ∷ bs) = live-merge b bs

coalesce-IsCoalesced :
    (a e : ℕ) (bs : List Block) → Tiles a bs e → e < 2 ^ 32 → IsCoalesced (coalesce bs)
unfolding coalesce
coalesce-IsCoalesced a e [] t h = tt
coalesce-IsCoalesced a e (b ∷ bs) t h = merge-IsCoalesced a e b bs t h

mark_free-is_nil :
    (bs : List Block) (p : ℕ) {bs' : List Block} → mark_free bs p ≡ some bs' → is_nil bs ≡ false
unfolding mark_free
mark_free-is_nil [] p e = cc
mark_free-is_nil (b ∷ bs) p e = refl

-- Past its guards `kfree` marks and merges.
kfree-eq :
    (h : Heap) (p : ℕ) {bs' : List Block}
    → h.heap_start + header ≤ p
    → p < h.heap_end
    → mark_free h.blocks (p - header) ≡ some bs'
    → kfree h p ≡ some (record h { blocks = coalesce bs' })
unfolding kfree
kfree-eq h p low high e =
    rw
      (
        ne→== p 0 (omega arith),
        mark_free-is_nil h.blocks (p - header) e,
        le→ltb p (h.heap_start + header) low,
        lt→leb p h.heap_end high,
        e,
      )
      refl

-- The heap after one payload has been freed.
pub record Freed (h : Heap) (before behind : List Payload) (h' : Heap) : Type 0 where
  pub now : live h'.blocks ≡ before ++ behind
  pub coalesced : IsCoalesced h'.blocks
  pub same_start : h'.heap_start ≡ h.heap_start
  pub same_end : h'.heap_end ≡ h.heap_end
  pub valid : IsValid h'

-- In a valid heap, `kfree` of a payload in use whose size is not 0 succeeds: exactly that
-- payload leaves the payloads in use, the heap stays valid, and no two neighbouring blocks are
-- free.
pub kfree_lem :
    {h : Heap} (before behind : List Payload) (p s : ℕ)
    → IsValid h
    → live h.blocks ≡ before ++ (p, s) ∷ behind
    → 0 < s
    → (h' : Heap) × (kfree h p ≡ some h') × Freed h before behind h'
kfree_lem {h} before behind p s v l pos =
    let (bs', m) = mark_free-Marked h.heap_start h.heap_end before behind p s h.blocks v.tiles l in
    (
      record h { blocks = coalesce bs' },
      kfree-eq h p m.low (omega (arith, m.high)) m.found,
      record {
        now = live-coalesce bs' ∙ m.rest;
        coalesced = coalesce-IsCoalesced h.heap_start h.heap_end bs' m.tiles v.bound;
        same_start = refl;
        same_end = refl;
        valid = record {
          tiles = coalesce-Tiles h.heap_start h.heap_end bs' m.tiles v.bound;
          bound = v.bound;
        };
      },
    )
