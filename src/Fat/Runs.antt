-- ===== src/Fat/Runs.antt =====
-- The search for clusters that are free.
use learning_os_project.Common.{
  ℕ, zero, suc, ◌+◌, ◌-◌, ◌≤◌, ◌<◌, ◌≡◌, ◌≢◌, refl, ◌⊎◌, inl, inr, leb, ◌==◌, if◌then◌else◌, arith,
  Bool-cases, ==_iff, ==→ne, dec_lt,
}
use learning_os_project.Storage.{Device}
use learning_os_project.Fat.Volume.{Fat, fat_read_fat_entry}
use learning_os_project.Fat.Write.{free_run_from, fat_find_free_run}

-- `n` clusters from `a` on whose entries are 0.
abbrev pub AllFree : (ℕ → ℕ) → ℕ → ℕ → Type 0
AllFree entry a n = (k : ℕ) → k < n → entry (a + k) ≡ 0

-- Every stretch of `count` clusters between 2 and `c` has one in use.
abbrev pub NoRun : (ℕ → ℕ) → ℕ → ℕ → Type 0
NoRun entry count c = (a : ℕ) → 2 ≤ a → a + count ≤ c → (k : ℕ) × (k < count) × (entry (a + k) ≢ 0)

-- The loop's variables before cluster `c`.
record AtCluster (entry : ℕ → ℕ) (count c run start : ℕ) : Type 0 where
  low : run + 2 ≤ c
  short : run < count
  free : AllFree entry (c - run) run
  from : 0 < run → start ≡ c - run
  stopped : run + 2 < c → entry (c - run - 1) ≢ 0
  no_run : NoRun entry count c

-- What the search returns: 0, or where a run starts.
abbrev pub Searched : (ℕ → ℕ) → ℕ → ℕ → ℕ → Type 0
Searched entry count end_of r =
    ((r ≡ 0) × NoRun entry count end_of) ⊎ ((2 ≤ r) × (r + count ≤ end_of) × AllFree entry r count)

step_busy :
    (entry : ℕ → ℕ) (count c run start : ℕ)
    → AtCluster entry count c run start
    → entry c ≢ 0
    → AtCluster entry count (c + 1) 0 start
step_busy entry count c run start v busy = record {
  low = omega (arith, v.low);
  short = omega (arith, v.short);
  free = λ k h. absurd (omega arith);
  from = λ h. absurd (omega arith);
  stopped = λ h. let here : c + 1 - 0 - 1 ≡ c = omega arith in rw here busy;
  no_run = λ a l h. elim (dec_lt c (a + count)) [
    | yes p ↦ (
      c - a,
      omega (arith, v.short),
      let here : a + (c - a) ≡ c = omega (arith, v.short) in rw here busy,
    )
    | no p ↦ v.no_run a l (omega arith)
  ];
}

step_free :
    (entry : ℕ → ℕ) (count c run start start' : ℕ)
    → AtCluster entry count c run start
    → entry c ≡ 0
    → run + 1 < count
    → start' ≡ c - run
    → AtCluster entry count (c + 1) (run + 1) start'
step_free entry count c run start start' v free more eq =
    let begins : c + 1 - (run + 1) ≡ c - run = omega arith in
    record {
      low = omega (arith, v.low);
      short = more;
      free = λ k h. rw begins (elim (dec_lt k run) [
        | yes p ↦ v.free k p
        | no p ↦ let here : c - run + k ≡ c = omega (arith, v.low) in rw here free
      ]);
      from = λ h. omega (arith, eq);
      stopped = λ h. rw begins (v.stopped (omega arith));
      no_run = λ a l h. elim (dec_lt c (a + count)) [
        | yes p ↦ (
          c - run - 1 - a,
          omega (arith, v.low),
          let here : a + (c - run - 1 - a) ≡ c - run - 1 = omega (arith, v.low) in
              rw here (v.stopped (omega (arith, v.low))),
        )
        | no p ↦ v.no_run a l (omega arith)
      ];
    }

module _ {S : Type 0} (device : Device S) (f : Fat S) where
  abbrev entries : ℕ → ℕ
  entries c = fat_read_fat_entry device f c

  free_run_from_lem :
      (count n c run start : ℕ)
      → AtCluster entries count c run start
      → Searched entries count (c + n) (free_run_from device f count n c run start)
  unfolding free_run_from
  free_run_from_lem count zero c run start v =
      let all : c + 0 ≡ c = omega arith in rw all (inl (refl, v.no_run))
  free_run_from_lem count (suc n) c run start v =
      let shift : c + suc n ≡ c + 1 + n = omega arith in
      elim (Bool-cases (entries c == 0)) [
        | inr e ↦
            rw (e, shift, free_run_from)
              (free_run_from_lem count n (c + 1) 0 start
                (step_busy entries count c run start v (==→ne _ _ e)))
        | inl e ↦
            let free : entries c ≡ 0 = (==_iff _ _).0 e in
            let start' = if run == 0 then c else start in
            let eq : start' ≡ c - run = ground (arith, v.from) in
            elim (Bool-cases (leb count (run + 1))) [
              | inl p ↦
                  rw (e, p, free_run_from)
                    (inr (
                      omega (arith, eq, v.low),
                      ground (arith, eq, v.low, v.short),
                      λ k h. rw eq (elim (dec_lt k run) [
                        | yes q ↦ v.free k q
                        | no q ↦
                            let here : c - run + k ≡ c = ground (arith, v.low, v.short) in
                            rw here free
                      ]),
                    ))
              | inr p ↦
                  rw (e, p, shift, free_run_from)
                    (free_run_from_lem count n (c + 1) (run + 1) start'
                      (step_free entries count c run start start' v free (ground arith) eq))
            ]
      ]

  -- For a count that is not 0, `fat_find_free_run` either returns 0, and every stretch of that many
  -- clusters from 2 on and below `total_clusters` has one whose entry is not 0; or it returns where
  -- such a stretch of clusters starts whose entries are all 0.
  pub fat_find_free_run_lem :
      (count : ℕ)
      → 0 < count
      → 2 ≤ f.total_clusters
      → Searched entries count f.total_clusters (fat_find_free_run device f count)
  unfolding fat_find_free_run
  fat_find_free_run_lem count h k =
      let whole : 2 + (f.total_clusters - 2) ≡ f.total_clusters = omega arith in
      let start : AtCluster entries count 2 0 2 = record {
        low = omega arith;
        short = h;
        free = λ i l. absurd (omega arith);
        from = λ l. absurd (omega arith);
        stopped = λ l. absurd (omega arith);
        no_run = λ a l m. absurd (omega arith);
      } in
      rw whole at (free_run_from_lem count (f.total_clusters - 2) 2 0 2 start)
