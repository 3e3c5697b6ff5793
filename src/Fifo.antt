-- ===== src/Fifo.antt =====
-- The circular array that ipc.c, input.c and keyboard_buffer.c share in shape: an array, a write
-- index `head` and a read index `tail`, both taken modulo the array's length, one slot kept empty.
-- The three components define their own operations; this module has the lemmas on the array alone.
use native.Mathlib.Nat.{mod-add-mod, mod-eq_of_lt, mod-eq-sub-mod, mod_self, add-zero}
use learning_os_project.Common.{
  ℕ, zero, suc, ◌+◌, ◌-◌, ◌%◌, ◌≤◌, ◌<◌, ◌≡◌, refl, ap, ap₂, ◌∙◌, ◌≢◌, List, [], ◌∷◌, ◌++◌, arith,
  dec_lt, leb, ◌==◌, ==_iff, ==_refl, ==→ne, ne→==, true, false, none, some, if◌then◌else◌, ◌⊎◌,
  inl, inr, ◌↔◌, length, get_or, set, length-append, get_or-set_self, get_or-set_ne,
}
use learning_os_project.BoundedQueue.{enqueue, dequeue}

-- How many entries lie between `tail` and `head`.
abbrev pub used : ℕ → ℕ → ℕ → ℕ
used cap head tail = if leb tail head then head - tail else head + cap - tail

-- The two indices are inside an array of `cap` entries.
pub record InRange (cap len head tail : ℕ) : Type 0 where
  pub room : cap ≤ len
  pub head_in : head < cap
  pub tail_in : tail < cap

next-cases :
    (cap i : ℕ)
    → i < cap
    → ((i + 1 < cap) × ((i + 1) % cap ≡ i + 1)) ⊎ ((i + 1 ≡ cap) × ((i + 1) % cap ≡ 0))
next-cases cap i h = elim (dec_lt (i + 1) cap) [
  | yes p ↦ inl (p, mod-eq_of_lt p)
  | no p ↦ let e : i + 1 ≡ cap = omega arith in inr (e, rw e (mod_self cap))
]

pub next-lt : (cap i : ℕ) → i < cap → (i + 1) % cap < cap
next-lt cap i h = omega arith

slot-cases :
    (cap t n : ℕ)
    → t < cap
    → n < cap
    → ((t + n < cap) × ((t + n) % cap ≡ t + n)) ⊎ ((cap ≤ t + n) × ((t + n) % cap ≡ t + n - cap))
slot-cases cap t n ht hn = elim (dec_lt (t + n) cap) [
  | yes p ↦ inl (p, mod-eq_of_lt p)
  | no p ↦ inr (
    omega arith,
    omega (
      arith,
      mod-eq-sub-mod {n = t + n} {m = cap} (omega arith),
      mod-eq_of_lt {n = t + n - cap} {m = cap} (omega arith),
    ),
  )
]

slot-ne : (cap t k n : ℕ) → t < cap → k < n → n < cap → (t + n) % cap ≢ (t + k) % cap
slot-ne cap t k n ht hk hn =
    omega (arith, slot-cases cap t k ht (omega arith), slot-cases cap t n ht hn)

used-lt : (cap head tail : ℕ) → head < cap → tail < cap → used cap head tail < cap
used-lt cap head tail h t = ground arith

slot-used : (cap head tail : ℕ) → head < cap → tail < cap → (tail + used cap head tail) % cap ≡ head
slot-used cap head tail h t = ground (arith, slot-cases cap tail (used cap head tail) t)

used-push :
    (cap head tail : ℕ)
    → head < cap
    → tail < cap
    → (head + 1) % cap ≢ tail
    → used cap ((head + 1) % cap) tail ≡ suc (used cap head tail)
used-push cap head tail h t ne = ground (arith, next-cases cap head h)

used-pop :
    (cap head tail : ℕ)
    → head < cap
    → tail < cap
    → head ≢ tail
    → used cap head tail ≡ suc (used cap head ((tail + 1) % cap))
used-pop cap head tail h t ne = ground (arith, next-cases cap tail t)

used-full :
    (cap head tail : ℕ)
    → head < cap
    → tail < cap
    → ((head + 1) % cap ≡ tail → used cap head tail + 1 ≡ cap)
      × (used cap head tail + 1 ≡ cap → (head + 1) % cap ≡ tail)
used-full cap head tail h t =
    (λ e. ground (arith, next-cases cap head h), λ e. ground (arith, next-cases cap head h))

module _ {ℓ} {A : Type ℓ} (d : A) where
  -- The `n` entries from index `t` on, oldest first.
  abbrev pub span : List A → ℕ → ℕ → ℕ → List A
  span buf cap t zero = []
  span buf cap t (suc n) = span buf cap t n ++ get_or buf ((t + n) % cap) d ∷ []

  pub length-span : (buf : List A) (cap t n : ℕ) → length (span buf cap t n) ≡ n
  length-span buf cap t zero = refl
  length-span buf cap t (suc n) = omega (
    arith,
    length-append (span buf cap t n) (get_or buf ((t + n) % cap) d ∷ []),
    length-span buf cap t n,
  )

  -- A write at the slot behind the last entry leaves the entries alone.
  span-set :
      (buf : List A) (cap t k n i : ℕ) (x : A)
      → t < cap
      → k ≤ n
      → n < cap
      → (t + n) % cap ≡ i
      → span (set buf i x) cap t k ≡ span buf cap t k
  span-set buf cap t zero n i x ht hk hn e = refl
  span-set buf cap t (suc k) n i x ht hk hn e =
      ap₂ (λ l y. l ++ y ∷ []) (span-set buf cap t k n i x ht (omega arith) hn e)
        (get_or-set_ne buf x d (rw (← e) (slot-ne cap t k n ht hk hn)))

  span-set_next :
      (buf : List A) (cap t n i : ℕ) (x : A)
      → cap ≤ length buf
      → t < cap
      → n < cap
      → (t + n) % cap ≡ i
      → span (set buf i x) cap t (suc n) ≡ span buf cap t n ++ x ∷ []
  span-set_next buf cap t n i x hb ht hn e =
      ap₂ (λ l y. l ++ y ∷ []) (span-set buf cap t n n i x ht (omega arith) hn e)
        (rw e (get_or-set_self buf i x d (omega arith)))

  span-suc :
      (buf : List A) (cap t n : ℕ)
      → t < cap
      → span buf cap t (suc n) ≡ get_or buf t d ∷ span buf cap ((t + 1) % cap) n
  span-suc buf cap t zero ht = rw (add-zero, mod-eq_of_lt ht)
  span-suc buf cap t (suc n) ht =
      ap₂ (λ l y. l ++ y ∷ []) (span-suc buf cap t n ht) (ap (λ i. get_or buf i d) shift)
    where
      shift : (t + suc n) % cap ≡ ((t + 1) % cap + n) % cap
      shift = rw mod-add-mod (ap (λ k. k % cap) (omega arith))

  -- The entries held, oldest first.
  abbrev pub contents : List A → ℕ → ℕ → ℕ → List A
  contents buf cap head tail = span buf cap tail (used cap head tail)

  module _ (buf : List A) (cap head tail : ℕ) (v : InRange cap (length buf) head tail) where
    contents-push :
        (x : A)
        → (head + 1) % cap ≢ tail
        → contents (set buf head x) cap ((head + 1) % cap) tail
          ≡ contents buf cap head tail ++ x ∷ []
    contents-push x ne =
        ap (span (set buf head x) cap tail) (used-push cap head tail v.head_in v.tail_in ne)
        ∙ span-set_next buf cap tail (used cap head tail) head x v.room v.tail_in
            (used-lt cap head tail v.head_in v.tail_in)
            (slot-used cap head tail v.head_in v.tail_in)

    contents-pop :
        head ≢ tail
        → contents buf cap head tail ≡ get_or buf tail d ∷ contents buf cap head ((tail + 1) % cap)
    contents-pop ne =
        rw (used-pop cap head tail v.head_in v.tail_in ne)
          (span-suc buf cap tail (used cap head ((tail + 1) % cap)) v.tail_in)

    pub contents-full : ((head + 1) % cap ≡ tail) ↔ (length (contents buf cap head tail) + 1 ≡ cap)
    contents-full =
        rw (length-span buf cap tail (used cap head tail))
          (used-full cap head tail v.head_in v.tail_in)

    contents-empty : head ≡ tail → contents buf cap head tail ≡ []
    contents-empty e = rw no_gap
      where
        no_gap : used cap head tail ≡ 0
        no_gap = ground arith

    -- The tests of the code are those of the queue of `cap - 1` entries.
    pub enqueue-full :
        (x : A)
        → ((head + 1) % cap == tail) ≡ true
        → enqueue (cap - 1) (contents buf cap head tail) x ≡ (false, contents buf cap head tail)
    unfolding enqueue
    enqueue-full x e =
        let n : length (contents buf cap head tail) ≡ cap - 1 =
          omega (arith, contents-full.0 ((==_iff _ _).0 e)) in
        rw (n, ==_refl (cap - 1))

    pub enqueue-free :
        (x : A)
        → ((head + 1) % cap == tail) ≡ false
        → enqueue (cap - 1) (contents buf cap head tail) x
          ≡ (true, contents (set buf head x) cap ((head + 1) % cap) tail)
    unfolding enqueue
    enqueue-free x e =
        let n : length (contents buf cap head tail) ≢ cap - 1 =
          λ k. ==→ne _ _ e (contents-full.1 (omega (arith, v.head_in))) in
        rw (contents-push x (==→ne _ _ e), ne→== _ _ n)

    pub dequeue-empty :
        (head == tail) ≡ true
        → dequeue (contents buf cap head tail) ≡ (none, contents buf cap head tail)
    unfolding dequeue
    dequeue-empty e = rw (contents-empty ((==_iff _ _).0 e))

    pub dequeue-some :
        (head == tail) ≡ false
        → dequeue (contents buf cap head tail)
          ≡ (some (get_or buf tail d), contents buf cap head ((tail + 1) % cap))
    unfolding dequeue
    dequeue-some e = rw (contents-pop (==→ne _ _ e))
