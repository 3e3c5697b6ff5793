-- ===== src/Frames/Alloc.antt =====
-- What `frame_alloc` and `frame_free` do to a valid bitmap.
use learning_os_project.Common.{
  ℕ, zero, suc, ◌+◌, ◌-◌, ◌*◌, ◌/◌, ◌%◌, ◌^◌, ◌≤◌, ◌<◌, ◌≡◌, refl, ap, sym, ◌∙◌, ◌⊎◌, inl, inr,
  true, false, List, [], ◌∷◌, ◌==◌, get_or, length, arith, dec_lt, Bool-cases, Option-cases,
  some-inj, none, some, ==_iff, ==→ne, lt→ltb, le→ltb, subst,
}
use learning_os_project.Common.Bits.{bit, bit-lt, bit-zero, bit-complement}
use learning_os_project.Frames.{
  Frames, test_frame, clear_bit, free_frame, frame_alloc, frame_free, set_frame,
}
use learning_os_project.Frames.Bitmap.{IsValid, Changed, set_frame-Changed, clear_frame-Changed}

-- The lowest clear bit: the bits from `b` up to it are set.
record LowestClear (w b n j : ℕ) : Type 0 where
  low : b ≤ j
  high : j < b + n
  clear : bit w j ≡ 0
  below : (i : ℕ) → b ≤ i → i < j → bit w i ≡ 1

bit_set : (w b : ℕ) → (bit w b == 0) ≡ false → bit w b ≡ 1
bit_set w b e = omega (arith, ==→ne _ _ e, bit-lt w b)

-- Bit `b` is set, and those above it up to a limit.
set_from :
    (w b i : ℕ) {limit : ℕ}
    → (b + 1 ≤ i → i < limit → bit w i ≡ 1)
    → (bit w b == 0) ≡ false
    → b ≤ i
    → i < limit
    → bit w i ≡ 1
set_from w b i above e l h = elim (Bool-cases (b == i)) [
  | inl p ↦ rw (← (==_iff b i).0 p) (bit_set w b e)
  | inr p ↦ above (omega (arith, ==→ne b i p)) h
]

clear_bit-some : (n w b : ℕ) {j : ℕ} → clear_bit n w b ≡ some j → LowestClear w b n j
unfolding clear_bit
clear_bit-some zero w b e = cc
clear_bit-some (suc n) w b {j} e = elim (Bool-cases (bit w b == 0)) [
  | inl p ↦
      let same : b ≡ j = some-inj (rw p at e) in
      record {
        low = omega arith;
        high = omega arith;
        clear = rw (← same) ((==_iff _ _).0 p);
        below = λ i l h. absurd (omega arith);
      }
  | inr p ↦
      let r = clear_bit-some n w (b + 1) {j = j} (rw p at e) in
      record {
        low = omega (arith, r.low);
        high = omega (arith, r.high);
        clear = r.clear;
        below = λ i l h. set_from w b i (r.below i) p l h;
      }
]

clear_bit-none : (n w b i : ℕ) → clear_bit n w b ≡ none → b ≤ i → i < b + n → bit w i ≡ 1
unfolding clear_bit
clear_bit-none zero w b i e l h = absurd (omega arith)
clear_bit-none (suc n) w b i e l h = elim (Bool-cases (bit w b == 0)) [
  | inl p ↦ cc (rw p at e)
  | inr p ↦
      set_from w b i (λ l' h'. clear_bit-none n w (b + 1) i (rw p at e) l' (omega arith)) p l h
]

abbrev IsFull : ℕ → Type 0
IsFull w = (i : ℕ) → i < 32 → bit w i ≡ 1

word-IsFull : IsFull (2 ^ 32 - 1)
word-IsFull i h = omega (arith, bit-complement 32 0 i (omega arith) h, bit-zero i)

-- A word is full and passed over, or gives its lowest clear bit.
free_frame-cases :
    (w : ℕ) (ws : List ℕ) (i : ℕ)
    → IsFull w × (free_frame (w ∷ ws) i ≡ free_frame ws (i + 1))
      ⊎ ((j : ℕ) × LowestClear w 0 32 j × (free_frame (w ∷ ws) i ≡ some (i * 32 + j)))
unfolding free_frame
free_frame-cases w ws i = elim (Bool-cases (w == 2 ^ 32 - 1)) [
  | inl e ↦ inl (subst IsFull (sym ((==_iff _ _).0 e)) word-IsFull, rw (e, free_frame) refl)
  | inr e ↦ elim (Option-cases (clear_bit 32 w 0)) [
    | inl n ↦
        inl
          (λ k h. clear_bit-none 32 w 0 k n (omega arith) (omega arith), rw (e, free_frame, n) refl)
    | inr (j, n) ↦ inr (j, clear_bit-some 32 w 0 n, rw (e, free_frame, n) refl)
  ]
]

-- The bit of frame `g` in the words from word `i` on.
abbrev bit_of : ℕ → List ℕ → ℕ → ℕ
bit_of i ws g = bit (get_or ws (g / 32 - i) 0) (g % 32)

bit_of-head : (i w : ℕ) (ws : List ℕ) (g : ℕ) → g / 32 ≡ i → bit_of i (w ∷ ws) g ≡ bit w (g % 32)
bit_of-head i w ws g e = let z : g / 32 - i ≡ 0 = omega arith in rw z refl

bit_of-tail :
    (i w : ℕ) (ws : List ℕ) (g : ℕ) → i < g / 32 → bit_of i (w ∷ ws) g ≡ bit_of (i + 1) ws g
bit_of-tail i w ws g h = let z : g / 32 - i ≡ suc (g / 32 - (i + 1)) = omega arith in rw z refl

-- The lowest frame that is free, among those from `32 * i` on.
record LowestFree (i : ℕ) (ws : List ℕ) (f : ℕ) : Type 0 where
  low : 32 * i ≤ f
  high : f < 32 * (i + length ws)
  free : bit_of i ws f ≡ 0
  below : (g : ℕ) → 32 * i ≤ g → g < f → bit_of i ws g ≡ 1

free_frame-some : (ws : List ℕ) (i : ℕ) {f : ℕ} → free_frame ws i ≡ some f → LowestFree i ws f
unfolding free_frame
free_frame-some [] i e = cc
free_frame-some (w ∷ ws) i {f} e = elim (free_frame-cases w ws i) [
  | inl (full, eq) ↦
      let r = free_frame-some ws (i + 1) {f = f} (sym eq ∙ e) in
      record {
        low = omega (arith, r.low);
        high = omega (arith, r.high);
        free = bit_of-tail i w ws f (omega (arith, r.low)) ∙ r.free;
        below = λ g l h. elim (dec_lt i (g / 32)) [
          | yes p ↦ bit_of-tail i w ws g p ∙ r.below g (omega arith) h
          | no p ↦ bit_of-head i w ws g (omega arith) ∙ full (g % 32) (omega arith)
        ];
      }
  | inr (j, lowest, eq) ↦
      let same : i * 32 + j ≡ f = some-inj (sym eq ∙ e) in
      let at : f % 32 ≡ j = omega (arith, lowest.high) in
      record {
        low = omega arith;
        high = omega (arith, lowest.high);
        free = bit_of-head i w ws f (omega (arith, lowest.high)) ∙ rw at lowest.clear;
        below = λ g l h.
            bit_of-head i w ws g (omega (arith, lowest.high))
            ∙ lowest.below (g % 32) (omega arith) (omega (arith, lowest.high));
      }
]

free_frame-none :
    (ws : List ℕ) (i g : ℕ)
    → free_frame ws i ≡ none
    → 32 * i ≤ g
    → g < 32 * (i + length ws)
    → bit_of i ws g ≡ 1
unfolding free_frame
free_frame-none [] i g e l h = absurd (omega arith)
free_frame-none (w ∷ ws) i g e l h = elim (free_frame-cases w ws i) [
  | inl (full, eq) ↦ elim (dec_lt i (g / 32)) [
    | yes p ↦
        bit_of-tail i w ws g p
        ∙ free_frame-none ws (i + 1) g (sym eq ∙ e) (omega arith) (omega arith)
    | no p ↦ bit_of-head i w ws g (omega arith) ∙ full (g % 32) (omega arith)
  ]
  | inr (j, lowest, eq) ↦ cc
]

bit_of-test : (bitmap : List ℕ) (g : ℕ) → bit_of 0 bitmap g ≡ test_frame bitmap g
unfolding test_frame
bit_of-test bitmap g = ap (λ (k : ℕ). bit (get_or bitmap k 0) (g % 32)) (omega arith)

-- A free frame of the bitmap is below the last frame.
inside_of_free :
    {s : Frames}
    → IsValid s
    → (f : ℕ) → f < 32 * length s.bitmap
    → test_frame s.bitmap f ≡ 0
    → f < s.total_frames
inside_of_free {s} v f h free = elim (dec_lt f s.total_frames) [
  | yes p ↦ p
  | no p ↦ absurd (omega (arith, v.beyond f (omega arith) h))
]

frame_alloc-none :
    (s : Frames) → s.ready ≡ true → free_frame s.bitmap 0 ≡ none → frame_alloc s ≡ (0, s)
unfolding frame_alloc
frame_alloc-none s r e = simp (r, e)

frame_alloc-some :
    (s : Frames) {f : ℕ}
    → s.ready ≡ true
    → free_frame s.bitmap 0 ≡ some f
    → frame_alloc s ≡ (f * 4096 % 2 ^ 32, set_frame s f)
unfolding frame_alloc
frame_alloc-some s r e = simp (r, e)

-- In a valid bitmap `frame_alloc` either returns 0, leaves the state as it is, and every frame
-- is in use; or it returns the address of the lowest free frame, which then is in use, with
-- every other frame as it was, the count one higher and the invariant kept.
pub frame_alloc_lem :
    {s : Frames}
    → IsValid s
    → s.ready ≡ true
    → (frame_alloc s ≡ (0, s)) × ((g : ℕ) → g < s.total_frames → test_frame s.bitmap g ≡ 1)
      ⊎ ((f : ℕ) × (f < s.total_frames)
          × (test_frame s.bitmap f ≡ 0)
          × ((g : ℕ) → g < f → test_frame s.bitmap g ≡ 1)
          × ((frame_alloc s).0 ≡ f * 4096)
          × Changed s f 1 (frame_alloc s).1)
frame_alloc_lem {s} v r = elim (Option-cases (free_frame s.bitmap 0)) [
  | inl e ↦ inl (
    frame_alloc-none s r e,
    λ g h.
        sym (bit_of-test s.bitmap g)
        ∙ free_frame-none s.bitmap 0 g e (omega arith) (omega (arith, v.words)),
  )
  | inr (f, e) ↦
      let lowest = free_frame-some s.bitmap 0 e in
      let free : test_frame s.bitmap f ≡ 0 = sym (bit_of-test s.bitmap f) ∙ lowest.free in
      let inside = inside_of_free v f (omega (arith, lowest.high)) free in
      inr (
        f,
        inside,
        free,
        λ g h. sym (bit_of-test s.bitmap g) ∙ lowest.below g (omega arith) h,
        ap (λ (t : ℕ × Frames). t.0) (frame_alloc-some s r e) ∙ omega (arith, v.small),
        subst (Changed s f 1) (sym (ap (λ (t : ℕ × Frames). t.1) (frame_alloc-some s r e)))
            (set_frame-Changed f v inside),
      )
]

-- In a valid bitmap `frame_free` of an address in a frame below the last one marks that frame
-- free and changes no other, keeping the invariant; of any other address it changes nothing.
pub frame_free_lem :
    {s : Frames} (addr : ℕ)
    → IsValid s
    → s.ready ≡ true
    → (addr / 4096 < s.total_frames → Changed s (addr / 4096) 0 (frame_free s addr))
      × (s.total_frames ≤ addr / 4096 → frame_free s addr ≡ s)
unfolding frame_free
frame_free_lem {s} addr v r = (
  λ h.
      subst (Changed s (addr / 4096) 0) (simp (r, lt→ltb (addr / 4096) s.total_frames h))
        (clear_frame-Changed (addr / 4096) v h),
  λ h. simp (r, le→ltb (addr / 4096) s.total_frames h),
)
