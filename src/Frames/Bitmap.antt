-- ===== src/Frames/Bitmap.antt =====
-- The bitmap of frames: what setting and clearing a bit does, and the invariant of the counters.
use Prim.Native.Nat.{bit_and, bit_or}
use learning_os_project.Common.{
  ℕ, zero, suc, ◌+◌, ◌-◌, ◌*◌, ◌/◌, ◌%◌, ◌^◌, ◌≤◌, ◌<◌, ◌≡◌, refl, ap, ap₂, sym, ◌∙◌, inl, inr,
  List, [], ◌∷◌, ◌==◌, if◌then◌else◌, get_or, set, length, arith, Bool-cases, length-set,
  get_or-set_self, get_or-set_ne, ==_iff, ne→==, ==→ne,
}
use learning_os_project.Common.Bits.{
  bit, bit-lt, bit-bit_or, bit-bit_and, bit-pow_self, bit-pow_ne, bit-complement, pow-lt, bit_or-lt,
  bit_and-le,
}
use learning_os_project.Frames.{Frames, test_frame, set_frame, clear_frame}

-- The bit of a word after a write of that word.
test-set :
    (bitmap : List ℕ) (f g w : ℕ)
    → f / 32 < length bitmap
    → test_frame (set bitmap (f / 32) w) g
      ≡ (if f / 32 == g / 32 then bit w (g % 32) else test_frame bitmap g)
unfolding test_frame
test-set bitmap f g w h = elim (Bool-cases (f / 32 == g / 32)) [
  | inl e ↦
      let same : f / 32 ≡ g / 32 = (==_iff _ _).0 e in
      rw (e, ← same, get_or-set_self bitmap (f / 32) w 0 h)
  | inr e ↦ rw (e, get_or-set_ne bitmap w 0 (==→ne _ _ e))
]

-- `frame_bitmap[f / 32] |= 1U << (f % 32)` sets the bit of `f` alone.
pub test-set_bit :
    (bitmap : List ℕ) (f g : ℕ)
    → f / 32 < length bitmap
    → test_frame (set bitmap (f / 32) (bit_or (get_or bitmap (f / 32) 0) (2 ^ (f % 32)))) g
      ≡ (if f == g then 1 else test_frame bitmap g)
unfolding test_frame
test-set_bit bitmap f g h =
    test-set bitmap f g (bit_or w one) h ∙ elim (Bool-cases (f / 32 == g / 32)) [
      | inl e ↦
          let same : f / 32 ≡ g / 32 = (==_iff _ _).0 e in
          rw (e, bit-bit_or w one (g % 32))
            (elim (Bool-cases (f == g)) [
              | inl p ↦
                  let eq : f ≡ g = (==_iff _ _).0 p in
                  rw (p, ← eq, bit-pow_self (f % 32)) (omega (arith, bit-lt w (f % 32)))
              | inr p ↦
                  rw (p, bit-pow_ne (f % 32) (g % 32) (omega (arith, ==→ne f g p)), ← same)
                    (omega arith)
            ])
      | inr e ↦ rw (e, ne→== f g (omega (arith, ==→ne _ _ e))) refl
    ]
  where
    w : ℕ
    w = get_or bitmap (f / 32) 0

    one : ℕ
    one = 2 ^ (f % 32)

pub test-clear_bit :
    (bitmap : List ℕ) (f g : ℕ)
    → f / 32 < length bitmap
    → test_frame
        (set bitmap (f / 32) (bit_and (get_or bitmap (f / 32) 0) (2 ^ 32 - 1 - 2 ^ (f % 32))))
        g
      ≡ (if f == g then 0 else test_frame bitmap g)
unfolding test_frame
test-clear_bit bitmap f g h =
    test-set bitmap f g (bit_and w (2 ^ 32 - 1 - one)) h ∙ elim (Bool-cases (f / 32 == g / 32)) [
      | inl e ↦
          let same : f / 32 ≡ g / 32 = (==_iff _ _).0 e in
          rw
            (
              e,
              bit-bit_and w (2 ^ 32 - 1 - one) (g % 32),
              bit-complement 32 one (g % 32) (pow-lt (f % 32) 32 (omega arith)) (omega arith),
            )
            (elim (Bool-cases (f == g)) [
              | inl p ↦
                  let eq : f ≡ g = (==_iff _ _).0 p in
                  rw (p, ← eq, bit-pow_self (f % 32)) (omega arith)
              | inr p ↦
                  rw (p, bit-pow_ne (f % 32) (g % 32) (omega (arith, ==→ne f g p)), ← same)
                    (omega (arith, bit-lt w (g % 32)))
            ])
      | inr e ↦ rw (e, ne→== f g (omega (arith, ==→ne _ _ e))) refl
    ]
  where
    w : ℕ
    w = get_or bitmap (f / 32) 0

    one : ℕ
    one = 2 ^ (f % 32)

-- How many of the first `n` entries of `g` are set.
unfoldable pub count_below : ℕ → (ℕ → ℕ) → ℕ
count_below zero g = 0
count_below (suc n) g = count_below n g + g n

count-same :
    (n f v : ℕ) (g h : ℕ → ℕ)
    → ((k : ℕ) → h k ≡ (if f == k then v else g k))
    → n ≤ f
    → count_below n h ≡ count_below n g
unfolding count_below
count-same zero f v g h e le = refl
count-same (suc n) f v g h e le =
    ap₂ ◌+◌ (count-same n f v g h e (omega arith)) (e n ∙ rw (ne→== f n (omega arith)))

-- A change of one entry changes the count by as much.
pub count-change :
    (n f v : ℕ) (g h : ℕ → ℕ)
    → ((k : ℕ) → h k ≡ (if f == k then v else g k))
    → f < n
    → count_below n h + g f ≡ count_below n g + v
unfolding count_below
count-change zero f v g h e lt = absurd (omega arith)
count-change (suc n) f v g h e lt = elim (Bool-cases (f == n)) [
  | inl p ↦
      let eq : f ≡ n = (==_iff _ _).0 p in
      let at : h n ≡ v = e n ∙ rw p in
      let here : g f ≡ g n = ap g eq in
      omega (arith, count-same n f v g h e (omega arith), at, here)
  | inr p ↦
      let at : h n ≡ g n = e n ∙ rw p in
      omega (arith, count-change n f v g h e (omega (arith, ==→ne f n p)), at)
]

pub count-le : (n : ℕ) (g : ℕ → ℕ) → ((k : ℕ) → g k < 2) → count_below n g ≤ n
unfolding count_below
count-le zero g h = omega arith
count-le (suc n) g h = omega (arith, count-le n g h, h n)

-- The counters agree with the bitmap, and every frame past the last one is marked in use.
pub record IsValid (s : Frames) : Type 0 where
  pub words : length s.bitmap ≡ (s.total_frames + 31) / 32
  pub small : s.total_frames < 2 ^ 20
  pub beyond : (f : ℕ) → s.total_frames ≤ f → f < 32 * length s.bitmap → test_frame s.bitmap f ≡ 1
  pub counted : s.used_frames ≡ count_below s.total_frames (test_frame s.bitmap)
  pub word : (i : ℕ) → get_or s.bitmap i 0 < 2 ^ 32

pub test_frame-lt : (bitmap : List ℕ) (f : ℕ) → test_frame bitmap f < 2
unfolding test_frame
test_frame-lt bitmap f = bit-lt (get_or bitmap (f / 32) 0) (f % 32)

get_or-set-lt :
    (xs : List ℕ) (i j v n : ℕ)
    → ((k : ℕ) → get_or xs k 0 < n)
    → v < n
    → get_or (set xs i v) j 0 < n
get_or-set-lt [] i j v n h hv = h j
get_or-set-lt (x ∷ xs) zero zero v n h hv = hv
get_or-set-lt (x ∷ xs) zero (suc j) v n h hv = h (suc j)
get_or-set-lt (x ∷ xs) (suc i) zero v n h hv = h zero
get_or-set-lt (x ∷ xs) (suc i) (suc j) v n h hv = get_or-set-lt xs i j v n (λ k. h (suc k)) hv

pub used-le : {s : Frames} → IsValid s → s.used_frames ≤ s.total_frames
used-le {s} v =
    omega (arith, v.counted, count-le s.total_frames (test_frame s.bitmap) (test_frame-lt s.bitmap))

count-pos : (n f : ℕ) (g : ℕ → ℕ) → f < n → g f ≤ count_below n g
unfolding count_below
count-pos zero f g h = absurd (omega arith)
count-pos (suc n) f g h = elim (Bool-cases (f == n)) [
  | inl p ↦ omega (arith, ap g ((==_iff f n).0 p))
  | inr p ↦ omega (arith, count-pos n f g (omega (arith, ==→ne f n p)))
]

used_pos :
    {s : Frames} → IsValid s → (f : ℕ) → f < s.total_frames → test_frame s.bitmap f ≤ s.used_frames
used_pos {s} v f h = omega (arith, v.counted, count-pos s.total_frames f (test_frame s.bitmap) h)

-- A state in which the bit of frame `f` is `v` and nothing else has changed but the count.
pub record Changed (s : Frames) (f v : ℕ) (s' : Frames) : Type 0 where
  pub at : (g : ℕ) → test_frame s'.bitmap g ≡ (if f == g then v else test_frame s.bitmap g)
  pub used : s'.used_frames + test_frame s.bitmap f ≡ s.used_frames + v
  pub total : s'.total_frames ≡ s.total_frames
  pub ready : s'.ready ≡ s.ready
  pub placed : s'.placement_addr ≡ s.placement_addr
  pub valid : IsValid s'

-- The frame has that bit already.
Changed-none : {s : Frames} (f v : ℕ) → IsValid s → test_frame s.bitmap f ≡ v → Changed s f v s
Changed-none {s} f v valid e = record {
  at = λ g. same g;
  used = ap (λ (t : ℕ). s.used_frames + t) e;
  total = refl;
  ready = refl;
  placed = refl;
  valid = valid;
}
  where
    same : (g : ℕ) → test_frame s.bitmap g ≡ (if f == g then v else test_frame s.bitmap g)
    same g = elim (Bool-cases (f == g)) [
      | inl p ↦ rw p (ap (test_frame s.bitmap) (sym ((==_iff f g).0 p)) ∙ e)
      | inr p ↦ rw p refl
    ]

-- One word is written, and the count follows.
Changed-write :
    {s : Frames} (f v w used : ℕ)
    → IsValid s
    → f < s.total_frames
    → w < 2 ^ 32
    → ((g : ℕ)
        → test_frame (set s.bitmap (f / 32) w) g ≡ (if f == g then v else test_frame s.bitmap g))
    → used + test_frame s.bitmap f ≡ s.used_frames + v
    → Changed s f v (record s { bitmap = set s.bitmap (f / 32) w; used_frames = used })
Changed-write {s} f v w used valid h small at eq = record {
  at = at;
  used = eq;
  total = refl;
  ready = refl;
  placed = refl;
  valid = record {
    words = length-set s.bitmap (f / 32) w ∙ valid.words;
    small = valid.small;
    beyond = λ g low high.
        at g
        ∙ rw (ne→== f g (omega arith))
            (valid.beyond g low (rw (length-set s.bitmap (f / 32) w) at high));
    counted = omega (
      arith,
      eq,
      valid.counted,
      count-change s.total_frames f v (test_frame s.bitmap) (test_frame (set s.bitmap (f / 32) w))
          at h,
    );
    word = λ i. get_or-set-lt s.bitmap (f / 32) i w (2 ^ 32) valid.word small;
  };
}

-- `set_frame` marks a frame in use, in the bitmap and in the count, and keeps the invariant.
pub set_frame-Changed :
    {s : Frames} (f : ℕ) → IsValid s → f < s.total_frames → Changed s f 1 (set_frame s f)
unfolding set_frame
set_frame-Changed {s} f v h = elim (Bool-cases (test_frame s.bitmap f == 0)) [
  | inl e ↦ rw e (
      Changed-write f 1 (bit_or (get_or s.bitmap (f / 32) 0) (2 ^ (f % 32)))
        ((s.used_frames + 1) % 2 ^ 32) v h
        (bit_or-lt 32 (get_or s.bitmap (f / 32) 0) (2 ^ (f % 32)) (v.word (f / 32))
          (pow-lt (f % 32) 32 (omega arith)))
        (λ g. test-set_bit s.bitmap f g (omega (arith, v.words)))
        (omega (arith, (==_iff _ _).0 e, used-le v, v.small)))
  | inr e ↦ rw e (Changed-none f 1 v (omega (arith, ==→ne _ _ e, test_frame-lt s.bitmap f)))
]

-- `clear_frame` marks a frame free, in the bitmap and in the count, and keeps the invariant.
pub clear_frame-Changed :
    {s : Frames} (f : ℕ) → IsValid s → f < s.total_frames → Changed s f 0 (clear_frame s f)
unfolding clear_frame
clear_frame-Changed {s} f v h = elim (Bool-cases (test_frame s.bitmap f == 0)) [
  | inl e ↦ rw e (Changed-none f 0 v ((==_iff _ _).0 e))
  | inr e ↦
      let mask = 2 ^ 32 - 1 - 2 ^ (f % 32) in
      rw e (
        Changed-write f 0 (bit_and (get_or s.bitmap (f / 32) 0) mask)
          ((s.used_frames + 2 ^ 32 - 1) % 2 ^ 32) v h
          (omega (
            arith,
            v.word (f / 32),
            bit_and-le (get_or s.bitmap (f / 32) 0) (get_or s.bitmap (f / 32) 0) mask (omega arith),
          ))
          (λ g. test-clear_bit s.bitmap f g (omega (arith, v.words)))
          (omega
            (arith, ==→ne _ _ e, used-le v, v.small, test_frame-lt s.bitmap f, used_pos v f h)))
]
