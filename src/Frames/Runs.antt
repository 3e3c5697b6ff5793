-- ===== src/Frames/Runs.antt =====
-- Runs of free frames, as `frame_alloc_contiguous` takes them.
use learning_os_project.Common.{
  ℕ, zero, suc, ◌+◌, ◌-◌, ◌*◌, ◌%◌, ◌^◌, ◌≤◌, ◌<◌, ◌≡◌, refl, ap, sym, ◌∙◌, ◌⊎◌, inl, inr, true,
  List, ltb, leb, ◌==◌, ◌&&◌, if◌then◌else◌, arith, dec_lt, Bool-cases, Option-cases, some-inj,
  Option, none, some, ==_iff, ne→==, ==→ne, le→ltb, leb→le, subst,
}
use learning_os_project.Frames.{
  Frames, test_frame, busy_at, free_run, set_run, frame_alloc_contiguous, set_frame,
}
use learning_os_project.Frames.Bitmap.{IsValid, set_frame-Changed, test_frame-lt}

-- The `n` frames from `a` on are free.
abbrev pub FreeRun : List ℕ → ℕ → ℕ → Type 0
FreeRun bitmap a n = (k : ℕ) → k < n → test_frame bitmap (a + k) ≡ 0

-- The first frame in use among those looked at.
record FirstBusy (bitmap : List ℕ) (start i n j : ℕ) : Type 0 where
  low : i ≤ j
  high : j < i + n
  busy : test_frame bitmap (start + j) ≡ 1

busy_at-some :
    (bitmap : List ℕ) (start i n : ℕ) {j : ℕ}
    → busy_at bitmap start i n ≡ some j
    → FirstBusy bitmap start i n j
unfolding busy_at
busy_at-some bitmap start i zero e = cc
busy_at-some bitmap start i (suc n) {j} e = elim (Bool-cases (test_frame bitmap (start + i) == 0)) [
  | inl p ↦
      let r = busy_at-some bitmap start (i + 1) n {j = j} (rw p at e) in
      record { low = omega (arith, r.low); high = omega (arith, r.high); busy = r.busy }
  | inr p ↦
      let same : i ≡ j = some-inj (rw p at e) in
      record {
        low = omega arith;
        high = omega arith;
        busy = rw (← same) (omega (arith, ==→ne _ _ p, test_frame-lt bitmap (start + i)));
      }
]

busy_at-none :
    (bitmap : List ℕ) (start i n k : ℕ)
    → busy_at bitmap start i n ≡ none
    → i ≤ k
    → k < i + n
    → test_frame bitmap (start + k) ≡ 0
unfolding busy_at
busy_at-none bitmap start i zero k e l h = absurd (omega arith)
busy_at-none bitmap start i (suc n) k e l h =
    elim (Bool-cases (test_frame bitmap (start + i) == 0)) [
      | inl p ↦ elim (Bool-cases (i == k)) [
        | inl q ↦ rw (← (==_iff i k).0 q) ((==_iff _ _).0 p)
        | inr q ↦
            busy_at-none bitmap start (i + 1) n k (rw p at e) (omega (arith, ==→ne i k q))
              (omega arith)
      ]
      | inr p ↦ cc (rw p at e)
    ]

-- What the search from `start` on finds.
abbrev Searched : List ℕ → ℕ → ℕ → ℕ → Option ℕ → Type 0
Searched bitmap total count start (some a) = (a + count ≤ total) × FreeRun bitmap a count
Searched bitmap total count start none =
    (a : ℕ)
    → start ≤ a
    → a + count ≤ total
    → (k : ℕ) × (k < count) × (test_frame bitmap (a + k) ≡ 1)

Searched-earlier :
    (bitmap : List ℕ) (total count start i : ℕ) (found : Option ℕ)
    → FirstBusy bitmap start 0 count i
    → Searched bitmap total count (start + i + 1) found
    → Searched bitmap total count start found
Searched-earlier bitmap total count start i (some a) busy r = r
Searched-earlier bitmap total count start i none busy r = λ a l h. elim (dec_lt (start + i) a) [
  | yes p ↦ r a (omega arith) h
  | no p ↦ (
    start + i - a,
    omega (arith, busy.high),
    let at : a + (start + i - a) ≡ start + i = omega arith in rw at busy.busy,
  )
]

free_run-Searched :
    (fuel : ℕ) (bitmap : List ℕ) (total count start : ℕ)
    → 0 < count
    → total < start + fuel
    → Searched bitmap total count start (free_run fuel bitmap total count start)
unfolding free_run
free_run-Searched zero bitmap total count start pos room = λ a l h. absurd (omega arith)
free_run-Searched (suc fuel) bitmap total count start pos room =
    elim (Bool-cases (leb (start + count) total)) [
      | inl p ↦ elim (Option-cases (busy_at bitmap start 0 count)) [
        | inl e ↦
            rw (p, free_run, e)
              (
                leb→le _ _ p,
                λ k h. busy_at-none bitmap start 0 count k e (omega arith) (omega arith),
              )
        | inr (i, e) ↦
            rw (p, free_run, e)
              (Searched-earlier bitmap total count start i
                (free_run fuel bitmap total count (start + i + 1))
                (busy_at-some bitmap start 0 count e)
                (free_run-Searched fuel bitmap total count (start + i + 1) pos (omega arith)))
      ]
      | inr p ↦ rw (p, free_run) (λ a l h. absurd (ground arith))
    ]

-- The `n` frames from `a` on have been taken, and nothing else has changed but the count.
pub record RunTaken (s : Frames) (a n : ℕ) (s' : Frames) : Type 0 where
  pub at :
      (g : ℕ)
      → test_frame s'.bitmap g ≡ (if leb a g && ltb g (a + n) then 1 else test_frame s.bitmap g)
  pub used : s'.used_frames ≡ s.used_frames + n
  pub total : s'.total_frames ≡ s.total_frames
  pub ready : s'.ready ≡ s.ready
  pub valid : IsValid s'

set_run-RunTaken :
    (n : ℕ) {s : Frames} (a : ℕ)
    → IsValid s
    → a + n ≤ s.total_frames
    → FreeRun s.bitmap a n
    → RunTaken s a n (set_run s a n)
unfolding set_run
set_run-RunTaken zero {s} a v h free = record {
  at = λ g. ground arith;
  used = omega arith;
  total = refl;
  ready = refl;
  valid = v;
}
set_run-RunTaken (suc n) {s} a v h free =
    let one = set_frame-Changed a v (omega arith) in
    let first : test_frame s.bitmap a ≡ 0 =
      let z : a + 0 ≡ a = omega arith in rw z at (free 0 (omega arith)) in
    let rest =
      set_run-RunTaken n {s = set_frame s a} (a + 1) one.valid (omega (arith, one.total))
        (λ k l. free_after k l) in
    record {
      at = λ g. ground (arith, rest.at g, one.at g);
      used = omega (arith, rest.used, one.used, first);
      total = rest.total ∙ one.total;
      ready = rest.ready ∙ one.ready;
      valid = rest.valid;
    }
  where
    free_after : (k : ℕ) → k < n → test_frame (set_frame s a).bitmap (a + 1 + k) ≡ 0
    free_after k l =
        let next : a + 1 + k ≡ a + suc k = omega arith in
        (set_frame-Changed a v (omega arith)).at (a + 1 + k)
        ∙ rw (ne→== a (a + 1 + k) (omega arith)) (rw next (free (suc k) (omega arith)))

contiguous-small :
    (s : Frames) (count : ℕ) → s.total_frames < count → frame_alloc_contiguous s count ≡ (0, s)
unfolding frame_alloc_contiguous
contiguous-small s count h = ground arith

module _ (s : Frames) (count : ℕ) (r : s.ready ≡ true) (pos : 0 < count)
    (fits : count ≤ s.total_frames) where
  contiguous-none :
      free_run (s.total_frames + 1) s.bitmap s.total_frames count 0 ≡ none
      → frame_alloc_contiguous s count ≡ (0, s)
  unfolding frame_alloc_contiguous
  contiguous-none e = simp (r, ne→== count 0 (omega arith), le→ltb s.total_frames count fits, e)

  contiguous-some :
      {a : ℕ}
      → free_run (s.total_frames + 1) s.bitmap s.total_frames count 0 ≡ some a
      → frame_alloc_contiguous s count ≡ (a * 4096 % 2 ^ 32, set_run s a count)
  unfolding frame_alloc_contiguous
  contiguous-some e = simp (r, ne→== count 0 (omega arith), le→ltb s.total_frames count fits, e)

-- In a valid bitmap, for a count that is not 0, `frame_alloc_contiguous` either returns 0,
-- leaves the state as it is, and every stretch of that many frames has one in use; or it
-- returns the address of a stretch that was free, all of whose frames are in use then, with
-- every other frame as it was and the count higher by the length.
pub frame_alloc_contiguous_lem :
    {s : Frames} (count : ℕ)
    → IsValid s
    → s.ready ≡ true
    → 0 < count
    → (frame_alloc_contiguous s count ≡ (0, s))
        × ((a : ℕ)
            → a + count ≤ s.total_frames
            → (k : ℕ) × (k < count) × (test_frame s.bitmap (a + k) ≡ 1))
      ⊎ ((a : ℕ) × (a + count ≤ s.total_frames)
          × FreeRun s.bitmap a count
          × ((frame_alloc_contiguous s count).0 ≡ a * 4096)
          × RunTaken s a count (frame_alloc_contiguous s count).1)
frame_alloc_contiguous_lem {s} count v r pos = elim (dec_lt s.total_frames count) [
  | yes p ↦ inl (contiguous-small s count p, λ a h. absurd (omega arith))
  | no p ↦
      let fits : count ≤ s.total_frames = omega arith in
      let search =
        free_run-Searched (s.total_frames + 1) s.bitmap s.total_frames count 0 pos (omega arith) in
      elim (Option-cases (free_run (s.total_frames + 1) s.bitmap s.total_frames count 0)) [
        | inl e ↦
            inl (contiguous-none s count r pos fits e, λ a h. (rw e at search) a (omega arith) h)
        | inr (a, e) ↦
            let (inside, free) = rw e at search in
            let eq = contiguous-some s count r pos fits e in
            inr (
              a,
              inside,
              free,
              ap (λ (t : ℕ × Frames). t.0) eq ∙ omega (arith, v.small),
              subst (RunTaken s a count) (sym (ap (λ (t : ℕ × Frames). t.1) eq))
                  (set_run-RunTaken count a v inside free),
            )
      ]
]
