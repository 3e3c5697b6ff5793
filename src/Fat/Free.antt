-- ===== src/Fat/Free.antt =====
-- Freeing a chain of clusters.
use learning_os_project.Common.{
  ℕ, zero, suc, ◌+◌, ◌*◌, ◌/◌, ◌%◌, ◌^◌, ◌≤◌, ◌<◌, ◌≡◌, ◌≢◌, refl, sym, ap, ◌∙◌, subst, inl, inr,
  Bool, true, false, ◌&&◌, ◌||◌, some, List, [], ◌∷◌, ltb, leb, ◌==◌, if◌then◌else◌, length, arith,
  Bool-cases, Option-cases, ==_iff, ==_refl,
}
use learning_os_project.Common.Bytes.{put16, length-put16}
use learning_os_project.Storage.{Device, IsLawful, IsReliable}
use learning_os_project.Fat.Volume.{
  Fat, fat_read_fat_entry, fat_write_fat_entry, read_sector, write_sector,
}
use learning_os_project.Fat.Write.{fat_free_chain}
use learning_os_project.Fat.Table.{
  IsFat16, fat_read_fat_entry-fat_write_fat_entry, read_entry-eq, entry_in,
}
use learning_os_project.Fat.Chain.{Chain, stop, link, disk-IsFat16}

abbrev pub has : ℕ → List ℕ → Bool
has j [] = false
has j (c ∷ cs) = (c == j) || has j cs

-- The end mark lies above all clusters, so a chain is told by where it starts.
Chain-longer :
    (entry : ℕ → ℕ) {c : ℕ} {xs ys : List ℕ}
    → Chain entry c xs
    → Chain entry c ys
    → length xs ≡ length ys
Chain-longer entry (stop c h) (stop c' k) = refl
Chain-longer entry (stop c h) (link c' ys l k more) = absurd (omega arith)
Chain-longer entry (link c xs l h more) (stop c' k) = absurd (omega arith)
Chain-longer entry (link c xs l h more) (link c' ys m k more') =
    ap suc (Chain-longer entry more more')

-- From a cluster of a chain on, the chain is no longer than from its start.
Chain-tail :
    (entry : ℕ → ℕ) (j : ℕ) {c : ℕ} {cs ys : List ℕ}
    → Chain entry c cs
    → has j cs ≡ true
    → Chain entry j ys
    → length ys ≤ length cs
Chain-tail entry j (stop c h) e chain = absurd (let x = e in cc)
Chain-tail entry j {ys = ys} (link c cs l h more) e chain = elim (Bool-cases (c == j)) [
  | inl p ↦
      let same : c ≡ j = (==_iff c j).0 p in
      let eq =
        Chain-longer entry (link c cs l h more)
          (subst (λ (t : ℕ). Chain entry t ys) (sym same) chain) in
      omega (arith, eq)
  | inr p ↦ let le = Chain-tail entry j more (rw p at e) chain in omega (arith, le)
]

-- A chain does not come back to its first cluster.
Chain-apart :
    (entry : ℕ → ℕ) (c : ℕ) {cs : List ℕ}
    → 2 ≤ c
    → c < 0xFFF8
    → Chain entry (entry c) cs
    → has c cs ≡ false
Chain-apart entry c {cs} l h more = elim (Bool-cases (has c cs)) [
  | inl p ↦ absurd (let le = Chain-tail entry c more p (link c cs l h more) in omega (arith, le))
  | inr p ↦ p
]

-- A chain stays where the entries of its clusters stay.
Chain-same :
    (entry entry' : ℕ → ℕ) {c : ℕ} {cs : List ℕ}
    → ((j : ℕ) → j < 0xFFF8 → has j cs ≡ true → entry' j ≡ entry j)
    → Chain entry c cs
    → Chain entry' c cs
Chain-same entry entry' same (stop c h) = stop c h
Chain-same entry entry' same (link c cs l h more) =
    let here : entry' c ≡ entry c = same c h (rw (==_refl c) refl) in
    link c cs l h (
      rw here (
        Chain-same entry entry'
          (λ j k e.
            same j k (elim (Bool-cases (c == j)) [ inl p ↦ rw p refl | inr p ↦ rw (p, e) refl ]))
          more))

Chain-nonzero : (entry : ℕ → ℕ) {c : ℕ} {cs : List ℕ} → Chain entry c cs → c ≢ 0
Chain-nonzero entry (stop c h) e = omega arith
Chain-nonzero entry (link c cs l h more) e = omega arith

not_freed :
    (c j : ℕ) (cs : List ℕ) (old : ℕ)
    → has c cs ≡ false
    → has j cs ≡ true
    → (if c == j then 0 % 2 ^ 16 else old) ≡ old
not_freed c j cs old apart e = elim (Bool-cases (c == j)) [
  | inl p ↦
      let same : c ≡ j = (==_iff c j).0 p in
      absurd (let x = sym apart ∙ ap (λ (t : ℕ). has t cs) same ∙ e in cc)
  | inr p ↦ rw p refl
]

freed_both :
    (a b : Bool) (old : ℕ)
    → (if b then 0 else if a then 0 % 2 ^ 16 else old) ≡ (if a || b then 0 else old)
freed_both true true old = refl
freed_both true false old = refl
freed_both false true old = refl
freed_both false false old = refl

module _ {S : Type 0} (device : Device S) (lawful : IsLawful device)
    (reliable : IsReliable device) where
  -- An entry that is not 0 can be written.
  write_entry-some :
      (f : Fat S) (c value : ℕ)
      → IsFat16 f
      → c < 2 ^ 16
      → fat_read_fat_entry device f c ≢ 0
      → (f' : Fat S) × (fat_write_fat_entry device f c value ≡ some f')
  unfolding fat_write_fat_entry read_sector write_sector
  write_entry-some f c value v h e =
      let r = lawful.readable in
      let w = reliable.writable in
      let place : (f.first_fat_sector + c * 2 % 2 ^ 32 / 512) % 2 ^ 32
          ≡ f.first_fat_sector + c / 256 =
        omega (arith, v.table_low) in
      let off : c * 2 % 2 ^ 32 % 512 ≡ c % 256 * 2 = omega arith in
      let eq = read_entry-eq device lawful f c v h in
      elim (Option-cases (device.read f.disk (f.first_fat_sector + c / 256))) [
        | inl p ↦ absurd (e (eq ∙ ap (λ o. entry_in o c) p))
        | inr (b, p) ↦
            let size = length-put16 b (c % 256 * 2) value ∙ lawful.sector f.disk _ p in
            let (disk, q) =
              reliable.accepts f.disk (f.first_fat_sector + c / 256) (put16 b (c % 256 * 2) value)
                size p in
            (
              record f { disk = disk },
              simp (v.kind, v.mounted, r, v.sector_size, place, p, off, w, q),
            )
      ]

  -- On a lawful device without faults, `fat_free_chain` from the first cluster of a chain of
  -- a FAT16
  -- volume comes to an end after as many steps as the chain has clusters; afterwards the entries of
  -- the chain's clusters are 0, and those of all other clusters are as before.
  pub fat_free_chain_lem :
      (f : Fat S) {c : ℕ} {cs : List ℕ} (fuel : ℕ)
      → IsFat16 f
      → Chain (fat_read_fat_entry device f) c cs
      → length cs < fuel
      → (f' : Fat S) × (fat_free_chain device fuel f c ≡ some f')
        × IsFat16 f'
        × ((j : ℕ)
            → j < 2 ^ 16
            → fat_read_fat_entry device f' j
              ≡ (if has j cs then 0 else fat_read_fat_entry device f j))
  unfolding fat_free_chain
  fat_free_chain_lem f zero v chain enough = absurd (omega arith)
  fat_free_chain_lem f (suc fuel) v (stop c h) enough =
      let done : (leb 2 c && ltb c 0xFFF8) ≡ false = ground arith in
      (f, rw (done, fat_free_chain) refl, v, λ j k. refl)
  fat_free_chain_lem f (suc fuel) v (link c cs l h more) enough =
      let goes : (leb 2 c && ltb c 0xFFF8) ≡ true = ground arith in
      let next = fat_read_fat_entry device f c in
      let used : next ≢ 0 = Chain-nonzero _ more in
      let (g, p) = write_entry-some f c 0 v (omega arith) used in
      let (read, only) =
        fat_read_fat_entry-fat_write_fat_entry device lawful f c 0 {f' = g} v (omega arith) p in
      let w : IsFat16 g = subst (λ (g : Fat S). IsFat16 g) only (disk-IsFat16 f g.disk v) in
      let apart = Chain-apart (fat_read_fat_entry device f) c l h more in
      let rest : Chain (fat_read_fat_entry device g) next cs =
        Chain-same (fat_read_fat_entry device f) (fat_read_fat_entry device g)
          (λ j k e. read j (omega arith) ∙ not_freed c j cs (fat_read_fat_entry device f j) apart e)
          more in
      let (f', q, keeps, after) = fat_free_chain_lem g fuel w rest (omega arith) in
      (
        f',
        rw (goes, p, fat_free_chain) q,
        keeps,
        λ j k.
            after j k
            ∙ ap (λ (t : ℕ). if has j cs then 0 else t) (read j k)
            ∙ freed_both (c == j) (has j cs) (fat_read_fat_entry device f j),
      )
