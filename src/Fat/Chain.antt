-- ===== src/Fat/Chain.antt =====
-- Chains of clusters in the table of a FAT16 volume: linking a run of clusters, and following the
-- links.
use learning_os_project.Common.{
  ℕ, zero, suc, ◌+◌, ◌%◌, ◌^◌, ◌≤◌, ◌<◌, ◌≡◌, ap, ◌∙◌, subst, ◌⊎◌, inl, inr, true, ◌&&◌, List, [],
  ◌∷◌, ltb, leb, ◌==◌, if◌then◌else◌, arith, Option-cases,
}
use learning_os_project.Storage.{Device, IsLawful}
use learning_os_project.Fat.Volume.{Fat, fat_read_fat_entry, fat_write_fat_entry}
use learning_os_project.Fat.Write.{link_run}
use learning_os_project.Fat.Table.{IsFat16, fat_read_fat_entry-fat_write_fat_entry}

-- `Chain entry c cs`: from cluster `c` on the links lead through `cs`, to an end mark.
pub data Chain (entry : ℕ → ℕ) : ℕ → List ℕ → Type 0 where
  stop : (c : ℕ) → 0xFFF8 ≤ c → Chain entry c []
  link :
      (c : ℕ) (cs : List ℕ) → 2 ≤ c → c < 0xFFF8 → Chain entry (entry c) cs → Chain entry c (c ∷ cs)

-- The `n` clusters from `c` on.
abbrev pub clusters : ℕ → ℕ → List ℕ
clusters c zero = []
clusters c (suc n) = c ∷ clusters (c + 1) n

-- The link that `link_run` means for cluster `j`.
abbrev pub linked : ℕ → ℕ → ℕ → ℕ → ℕ
linked cur n j old =
    if leb cur j && ltb j (cur + n) then (if j + 1 == cur + n then 0xFFFF else j + 1) else old

linked-step :
    (cur n j old : ℕ)
    → cur + suc n ≤ 2 ^ 16
    → linked (cur + 1) n j (if cur == j then (if n == 0 then 0xFFFF else cur + 1) % 2 ^ 16 else old)
      ≡ linked cur (suc n) j old
linked-step cur n j old h = ground arith

linked-none : (cur j old : ℕ) → old ≡ linked cur 0 j old
linked-none cur j old = ground arith

-- Another disk does not change what kind of volume it is.
pub disk-IsFat16 :
    {S : Type 0} → (f : Fat S) (disk : S) → IsFat16 f → IsFat16 (record f { disk = disk })
disk-IsFat16 f disk v = record {
  mounted = v.mounted;
  kind = v.kind;
  sector_size = v.sector_size;
  table_low = v.table_low;
}

-- Linked clusters are a chain that ends with them.
Chain-linked :
    (entry : ℕ → ℕ) (cur n : ℕ)
    → 2 ≤ cur
    → cur + suc n ≤ 0xFFF8
    → ((j : ℕ) → cur ≤ j → j < cur + suc n → entry j ≡ linked cur (suc n) j 0)
    → Chain entry cur (clusters cur (suc n))
Chain-linked entry cur zero l h e =
    let last : entry cur ≡ 0xFFFF = e cur (omega arith) (omega arith) ∙ ground arith in
    link cur [] l (omega arith) (stop (entry cur) (omega (arith, last)))
Chain-linked entry cur (suc n) l h e =
    let next : entry cur ≡ cur + 1 = e cur (omega arith) (omega arith) ∙ ground arith in
    link cur (clusters (cur + 1) (suc n)) l (omega arith) (
      rw next (
        Chain-linked entry (cur + 1) n (omega arith) (omega arith)
          (λ j k m. e j (omega arith) (omega arith) ∙ ground arith)))

linked-inside :
    (cur n j old : ℕ)
    → cur ≤ j
    → j < cur + suc n
    → linked cur (suc n) j old ≡ linked cur (suc n) j 0
linked-inside cur n j old h k = ground arith

linked-outside : (cur n j old : ℕ) → (j < cur) ⊎ (cur + suc n ≤ j) → linked cur (suc n) j old ≡ old
linked-outside cur n j old h = ground arith

module _ {S : Type 0} (device : Device S) (lawful : IsLawful device) where
  -- `link_run`, once it says that all was written.
  pub link_run-linked :
      (f : Fat S) (cur n : ℕ)
      → IsFat16 f
      → cur + n ≤ 2 ^ 16
      → (link_run device f cur n).0 ≡ true
      → ((j : ℕ)
          → j < 2 ^ 16
          → fat_read_fat_entry device (link_run device f cur n).1 j
            ≡ linked cur n j (fat_read_fat_entry device f j))
        × IsFat16 (link_run device f cur n).1
  unfolding link_run
  link_run-linked f cur zero v h e = (λ j k. linked-none cur j (fat_read_fat_entry device f j), v)
  link_run-linked f cur (suc n) v h e =
      let value = if n == 0 then 0xFFFF else cur + 1 in
      elim (Option-cases (fat_write_fat_entry device f cur value)) [
        | inl p ↦ absurd (let x = rw (p, link_run) at e in cc)
        | inr (f', p) ↦
            let (read, only) =
              fat_read_fat_entry-fat_write_fat_entry device lawful f cur value {f' = f'} v
                (omega arith) p in
            let w : IsFat16 f' = subst (λ (g : Fat S). IsFat16 g) only (disk-IsFat16 f f'.disk v) in
            let (rest, keeps) =
              link_run-linked f' (cur + 1) n w (omega arith) (rw (p, link_run) at e) in
            rw (p, link_run)
              (
                λ j k.
                    rest j k
                    ∙ ap (λ (t : ℕ). linked (cur + 1) n j t) (read j k)
                    ∙ linked-step cur n j (fat_read_fat_entry device f j) h,
                keeps,
              )
      ]

  -- On a lawful device, once `link_run` of a FAT16 volume says that all was written for a run of
  -- clusters between 2 and 0xFFF8, the links lead from its first cluster through the run, and the
  -- entries of all other clusters are as before.
  pub link_run-Chain :
      (f : Fat S) (cur n : ℕ)
      → IsFat16 f
      → 2 ≤ cur
      → cur + suc n ≤ 0xFFF8
      → (link_run device f cur (suc n)).0 ≡ true
      → Chain
          (fat_read_fat_entry device (link_run device f cur (suc n)).1)
          cur
          (clusters cur (suc n))
        × ((j : ℕ)
            → j < 2 ^ 16
            → (j < cur) ⊎ (cur + suc n ≤ j)
            → fat_read_fat_entry device (link_run device f cur (suc n)).1 j
              ≡ fat_read_fat_entry device f j)
  link_run-Chain f cur n v l h e =
      let (read, w) = link_run-linked f cur (suc n) v (omega arith) e in
      (
        Chain-linked (fat_read_fat_entry device (link_run device f cur (suc n)).1) cur n l h
            (λ j k m.
              read j (omega arith) ∙ linked-inside cur n j (fat_read_fat_entry device f j) k m),
        λ j k out. read j k ∙ linked-outside cur n j (fat_read_fat_entry device f j) out,
      )
