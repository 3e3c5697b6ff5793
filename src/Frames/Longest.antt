-- ===== src/Frames/Longest.antt =====
-- The longest run of free frames, as `frame_largest_free_run` finds it.
use learning_os_project.Common.{
  ℕ, zero, suc, ◌+◌, ◌-◌, ◌≤◌, ◌<◌, ◌≡◌, ◌⊎◌, inl, inr, true, List, ltb, ◌==◌, if◌then◌else◌, arith,
  dec_lt, Bool-cases, ==_iff, ==→ne, le→ltb, ltb→le, ltb→lt, subst,
}
use learning_os_project.Frames.{Frames, test_frame, longest_run, frame_largest_free_run}
use learning_os_project.Frames.Bitmap.{test_frame-lt}
use learning_os_project.Frames.Runs.{FreeRun}

-- `best` is the length of the longest free run among the first `n` frames.
pub record IsLongest (bitmap : List ℕ) (n best : ℕ) : Type 0 where
  pub bound : (a m : ℕ) → a + m ≤ n → FreeRun bitmap a m → m ≤ best
  pub start : ℕ
  pub inside : start + best ≤ n
  pub free : FreeRun bitmap start best

-- The loop's variables after `i` frames: the longest run, and the run that ends at `i`.
record Scanned (bitmap : List ℕ) (i best current : ℕ) : Type 0 where
  longest : IsLongest bitmap i best
  fits : current ≤ i
  free : FreeRun bitmap (i - current) current
  stopped : current < i → test_frame bitmap (i - current - 1) ≡ 1

Scanned-start : (bitmap : List ℕ) → Scanned bitmap 0 0 0
Scanned-start bitmap = record {
  longest = record {
    bound = λ a m h f. omega arith;
    start = 0;
    inside = omega arith;
    free = λ k h. absurd (omega arith);
  };
  fits = omega arith;
  free = λ k h. absurd (omega arith);
  stopped = λ h. absurd (omega arith);
}

test_at :
    (bitmap : List ℕ) (x y : ℕ) {v : ℕ} → x ≡ y → test_frame bitmap x ≡ v → test_frame bitmap y ≡ v
test_at bitmap x y e h = rw (← e) h

-- A free run among the first `i + 1` frames is no longer than the best one and the one that
-- ends there.
run-le :
    {bitmap : List ℕ} {i best current : ℕ}
    → Scanned bitmap i best current
    → (a m : ℕ) → a + m ≤ i + 1
    → FreeRun bitmap a m
    → (m ≤ best) ⊎ (m ≤ current + 1)
run-le {bitmap} {i} {best} {current} s a m h f = elim (dec_lt i (a + m)) [
  | no p ↦ inl (s.longest.bound a m (omega arith) f)
  | yes p ↦ elim (dec_lt (current + 1) m) [
    | no q ↦ inr (omega arith)
    | yes q ↦
        let k = i - current - 1 - a in
        let zero_there =
          test_at bitmap (a + k) (i - current - 1) (omega arith) (f k (omega arith)) in
        absurd (omega (arith, zero_there, s.stopped (omega arith)))
  ]
]

free-extend :
    {bitmap : List ℕ} {i best current : ℕ}
    → Scanned bitmap i best current
    → test_frame bitmap i ≡ 0
    → FreeRun bitmap (i + 1 - (current + 1)) (current + 1)
free-extend {bitmap} {i} {current} s e k h = elim (dec_lt k current) [
  | yes p ↦ test_at bitmap (i - current + k) (i + 1 - (current + 1) + k) (omega arith) (s.free k p)
  | no p ↦ test_at bitmap i (i + 1 - (current + 1) + k) (omega (arith, s.fits)) e
]

Scanned-free :
    {bitmap : List ℕ} {i best current : ℕ}
    → Scanned bitmap i best current
    → test_frame bitmap i ≡ 0
    → Scanned bitmap (i + 1) (if ltb best (current + 1) then current + 1 else best) (current + 1)
Scanned-free {bitmap} {i} {best} {current} s e = record {
  longest = elim (Bool-cases (ltb best (current + 1))) [
    | inl p ↦ rw p (record {
      bound = λ a m h f. omega (arith, run-le s a m h f, ltb→lt _ _ p);
      start = i + 1 - (current + 1);
      inside = omega (arith, s.fits);
      free = free-extend s e;
    })
    | inr p ↦ rw p (record {
      bound = λ a m h f. omega (arith, run-le s a m h f, ltb→le _ _ p);
      start = s.longest.start;
      inside = omega (arith, s.longest.inside);
      free = s.longest.free;
    })
  ];
  fits = omega (arith, s.fits);
  free = free-extend s e;
  stopped = λ h.
      test_at bitmap (i - current - 1) (i + 1 - (current + 1) - 1) (omega arith)
        (s.stopped (omega arith));
}

Scanned-busy :
    {bitmap : List ℕ} {i best current : ℕ}
    → Scanned bitmap i best current
    → test_frame bitmap i ≡ 1
    → Scanned bitmap (i + 1) best 0
Scanned-busy {bitmap} {i} {best} {current} s e = record {
  longest = record {
    bound = λ a m h f. elim (dec_lt i (a + m)) [
      | no p ↦ s.longest.bound a m (omega arith) f
      | yes p ↦ elim (dec_lt best m) [
        | no q ↦ omega arith
        | yes q ↦
            let zero_there =
              test_at bitmap (a + (i - a)) i (omega arith) (f (i - a) (omega arith)) in
            absurd (omega (arith, zero_there, e))
      ]
    ];
    start = s.longest.start;
    inside = omega (arith, s.longest.inside);
    free = s.longest.free;
  };
  fits = omega arith;
  free = λ k h. absurd (omega arith);
  stopped = λ h. test_at bitmap i (i + 1 - 0 - 1) (omega arith) e;
}

longest_run_lem :
    (bitmap : List ℕ) (n i best current last : ℕ)
    → Scanned bitmap i best current
    → i + n ≡ last
    → IsLongest bitmap last (longest_run bitmap i n best current)
unfolding longest_run
longest_run_lem bitmap zero i best current last s e =
    let same : i ≡ last = omega arith in subst (λ j. IsLongest bitmap j best) same s.longest
longest_run_lem bitmap (suc n) i best current last s e =
    elim (Bool-cases (test_frame bitmap i == 0)) [
      | inl p ↦ rw p (
          longest_run_lem bitmap n (i + 1) (if ltb best (current + 1) then current + 1 else best)
            (current + 1) last (Scanned-free s ((==_iff _ _).0 p)) (omega arith))
      | inr p ↦
          rw (p, le→ltb best 0 (omega arith))
            (longest_run_lem bitmap n (i + 1) best 0 last
              (Scanned-busy s (omega (arith, ==→ne _ _ p, test_frame-lt bitmap i))) (omega arith))
    ]

-- `frame_largest_free_run` is the length of the longest run of free frames: there is one of
-- that length, and none is longer.
pub frame_largest_free_run_lem :
    (s : Frames) → s.ready ≡ true → IsLongest s.bitmap s.total_frames (frame_largest_free_run s)
unfolding frame_largest_free_run
frame_largest_free_run_lem s r = subst (IsLongest s.bitmap s.total_frames) (simp r) (
    longest_run_lem s.bitmap s.total_frames 0 0 0 s.total_frames (Scanned-start s.bitmap)
      (omega arith))
