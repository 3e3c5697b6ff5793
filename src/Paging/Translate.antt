-- ===== src/Paging/Translate.antt =====
-- Where the processor finds a virtual address once paging is on.
use learning_os_project.Common.{
  ℕ, ◌+◌, ◌-◌, ◌*◌, ◌/◌, ◌%◌, ◌^◌, ◌≤◌, ◌<◌, ◌≡◌, ◌⊎◌, inl, inr, refl, sym, ap, ◌∙◌, true, false,
  ◌&&◌, Option, none, some, leb, ltb, ◌==◌, if◌then◌else◌, arith, Bool-cases,
}
use learning_os_project.Paging.{
  Arrays, Paging, clear_words, map_identity_range, map_high_kernel, paging_init,
}
use learning_os_project.Paging.Tables.{
  or_flags7, or_flags3, clear_words-at, clear_words-out, map_tables-out, map_tables-entry,
  map_tables-page,
}

-- The processor's walk through the directory and a table. `none`: a page fault.
unfoldable pub translate : Paging → ℕ → Option ℕ
translate p va =
    let pde = p.words (p.cr3 + 4 * (va / 2 ^ 22)) in
    if pde % 2 == 0
    then none
    else let pte = p.words (pde / 4096 * 4096 + 4 * (va / 4096 % 1024)) in
      if pte % 2 == 0 then none else some (pte / 4096 * 4096 + va % 4096)

-- The arrays are aligned to pages and share no byte.
pub record IsLaidOut (a : Arrays) : Type 0 where
  pub directory_page : a.directory % 4096 ≡ 0
  pub low_page : a.low % 4096 ≡ 0
  pub high_page : a.high % 4096 ≡ 0
  pub directory_low : (a.directory + 4096 ≤ a.low) ⊎ (a.low + 32768 ≤ a.directory)
  pub directory_high : (a.directory + 4096 ≤ a.high) ⊎ (a.high + 32768 ≤ a.directory)
  pub low_high : (a.low + 32768 ≤ a.high) ⊎ (a.high + 32768 ≤ a.low)

module _ (a : Arrays) (v : IsLaidOut a) (words : ℕ → ℕ) where
  mapped : ℕ → ℕ
  mapped = map_high_kernel a 0 8 (map_identity_range a 0 8 words)

  entry_low : (k : ℕ) → k < 8 → mapped (a.directory + 4 * k) ≡ a.low + 4096 * k + 7
  unfolding mapped
  entry_low k h =
      map_tables-out 3 a.high (a.directory + 4 * 768) 8 0 (map_identity_range a 0 8 words)
        (a.directory + 4 * k) (ground (arith, v.directory_high)) (ground arith)
      ∙ map_tables-entry 7 a.low a.directory 8 0 words k (ground (arith, v.directory_low))
          (omega arith) (omega arith) h
      ∙ or_flags7 (a.low + 4096 * k) (omega (arith, v.low_page))

  page_low :
      (k j : ℕ) → k < 8 → j < 1024 → mapped (a.low + 4096 * k + 4 * j) ≡ (k * 1024 + j) * 4096 + 7
  unfolding mapped
  page_low k j h l =
      map_tables-out 3 a.high (a.directory + 4 * 768) 8 0 (map_identity_range a 0 8 words)
        (a.low + 4096 * k + 4 * j) (ground (arith, v.low_high)) (ground (arith, v.directory_low))
      ∙ map_tables-page 7 a.low a.directory 8 0 words k j (ground (arith, v.directory_low))
          (omega arith) (omega arith) h l
      ∙ or_flags7 ((k * 1024 + j) * 4096 % 2 ^ 32) (omega arith)
      ∙ omega arith

  entry_high : (k : ℕ) → k < 8 → mapped (a.directory + 4 * (768 + k)) ≡ a.high + 4096 * k + 3
  unfolding mapped
  entry_high k h =
      let place : a.directory + 4 * (768 + k) ≡ a.directory + 4 * 768 + 4 * k = omega arith in
      ap mapped place
      ∙ map_tables-entry 3 a.high (a.directory + 4 * 768) 8 0 (map_identity_range a 0 8 words) k
          (ground (arith, v.directory_high)) (omega arith) (omega arith) h
      ∙ or_flags3 (a.high + 4096 * k) (omega (arith, v.high_page))

  page_high :
      (k j : ℕ) → k < 8 → j < 1024 → mapped (a.high + 4096 * k + 4 * j) ≡ (k * 1024 + j) * 4096 + 3
  unfolding mapped
  page_high k j h l =
      map_tables-page 3 a.high (a.directory + 4 * 768) 8 0 (map_identity_range a 0 8 words) k j
        (ground (arith, v.directory_high)) (omega arith) (omega arith) h l
      ∙ or_flags3 ((k * 1024 + j) * 4096 % 2 ^ 32) (omega arith)
      ∙ omega arith

  entry_none :
      (k : ℕ)
      → k < 1024
      → 8 ≤ k
      → (k < 768) ⊎ (776 ≤ k)
      → mapped (a.directory + 4 * k) ≡ words (a.directory + 4 * k)
  unfolding mapped
  entry_none k h l out =
      map_tables-out 3 a.high (a.directory + 4 * 768) 8 0 (map_identity_range a 0 8 words)
        (a.directory + 4 * k) (ground (arith, v.directory_high)) (ground arith)
      ∙ map_tables-out 7 a.low a.directory 8 0 words (a.directory + 4 * k)
          (ground (arith, v.directory_low)) (ground arith)

-- The walk, given the two words that it reads.
walk :
    (p : Paging) (va table page flags : ℕ)
    → p.words (p.cr3 + 4 * (va / 2 ^ 22)) ≡ table * 4096 + flags
    → p.words (table * 4096 + 4 * (va / 4096 % 1024)) ≡ page * 4096 + flags
    → flags % 2 ≡ 1
    → flags < 4096
    → translate p va ≡ some (page * 4096 + va % 4096)
unfolding translate
walk p va table page flags e k odd small =
    let there : ((table * 4096 + flags) % 2 == 0) ≡ false = ground arith in
    let there' : ((page * 4096 + flags) % 2 == 0) ≡ false = ground arith in
    let base : (table * 4096 + flags) / 4096 ≡ table = omega arith in
    let frame : (page * 4096 + flags) / 4096 ≡ page = omega arith in
    rw (e, there, base, k, there', frame, translate) refl

no_walk : (p : Paging) (va : ℕ) → p.words (p.cr3 + 4 * (va / 2 ^ 22)) ≡ 0 → translate p va ≡ none
unfolding translate
no_walk p va e = rw (e, translate) refl

abbrev with_words : Arrays → (ℕ → ℕ) → Paging
with_words a words = record { words = words; cr3 = a.directory; enabled = true }

translate_low :
    (a : Arrays) (v : IsLaidOut a) (words : ℕ → ℕ) (va : ℕ)
    → va < 2 ^ 25
    → translate (with_words a (mapped a v words)) va ≡ some va
translate_low a v words va h =
    let k = va / 2 ^ 22 in
    let j = va / 4096 % 1024 in
    let table : a.low + 4096 * k ≡ (a.low / 4096 + k) * 4096 = omega (arith, v.low_page) in
    let entry : mapped a v words (a.directory + 4 * k) ≡ (a.low / 4096 + k) * 4096 + 7 =
      omega (arith, entry_low a v words k (omega arith), table) in
    let page : mapped a v words ((a.low / 4096 + k) * 4096 + 4 * j) ≡ (k * 1024 + j) * 4096 + 7 =
      ap (λ (t : ℕ). mapped a v words (t + 4 * j)) (sym table)
      ∙ page_low a v words k j (omega arith) (omega arith) in
    walk (with_words a (mapped a v words)) va (a.low / 4096 + k) (k * 1024 + j) 7 entry page refl
      (omega arith)
    ∙ ap some (omega arith)

translate_high :
    (a : Arrays) (v : IsLaidOut a) (words : ℕ → ℕ) (va : ℕ)
    → 0xC0000000 ≤ va
    → va < 0xC2000000
    → translate (with_words a (mapped a v words)) va ≡ some (va - 0xC0000000)
translate_high a v words va l h =
    let k = va / 2 ^ 22 - 768 in
    let j = va / 4096 % 1024 in
    let number : va / 2 ^ 22 ≡ 768 + k = omega arith in
    let table : a.high + 4096 * k ≡ (a.high / 4096 + k) * 4096 = omega (arith, v.high_page) in
    let entry : mapped a v words (a.directory + 4 * (va / 2 ^ 22))
        ≡ (a.high / 4096 + k) * 4096 + 3 =
      ap (λ (t : ℕ). mapped a v words (a.directory + 4 * t)) number
      ∙ omega (arith, entry_high a v words k (omega arith), table) in
    let page : mapped a v words ((a.high / 4096 + k) * 4096 + 4 * j) ≡ (k * 1024 + j) * 4096 + 3 =
      ap (λ (t : ℕ). mapped a v words (t + 4 * j)) (sym table)
      ∙ page_high a v words k j (omega arith) (omega arith) in
    walk (with_words a (mapped a v words)) va (a.high / 4096 + k) (k * 1024 + j) 3 entry page refl
      (omega arith)
    ∙ ap some (omega arith)

cleared_entry :
    (a : Arrays) (v : IsLaidOut a) (words : ℕ → ℕ) (k : ℕ)
    → k < 1024
    → clear_words 8192 a.high
        (clear_words 8192 a.low (clear_words 1024 a.directory words))
        (a.directory + 4 * k)
      ≡ 0
cleared_entry a v words k h =
    clear_words-out 8192 a.high (clear_words 8192 a.low (clear_words 1024 a.directory words))
      (a.directory + 4 * k) (ground (arith, v.directory_high))
    ∙ clear_words-out 8192 a.low (clear_words 1024 a.directory words) (a.directory + 4 * k)
        (ground (arith, v.directory_low))
    ∙ clear_words-at 1024 a.directory words k h

paging_init-words :
    (a : Arrays) (v : IsLaidOut a) (p : Paging)
    → paging_init a p
      ≡ with_words a (
          mapped a v (
            clear_words 8192 a.high
              (clear_words 8192 a.low (clear_words 1024 a.directory p.words))))
unfolding paging_init mapped
paging_init-words a v p = refl

-- With the arrays aligned to pages and apart, after `paging_init` an address below 32 MB leads to
-- itself, an address in the 32 MB from 0xC0000000 on leads to as many bytes above 0, and every
-- other 32-bit address faults.
pub translate-paging_init :
    (a : Arrays) (p : Paging) (va : ℕ)
    → IsLaidOut a
    → va < 2 ^ 32
    → translate (paging_init a p) va ≡ (
        if ltb va 0x2000000
        then some va
        else if leb 0xC0000000 va && ltb va 0xC2000000
        then some (va - 0xC0000000)
        else none)
translate-paging_init a p va v h =
    let cleared =
      clear_words 8192 a.high (clear_words 8192 a.low (clear_words 1024 a.directory p.words)) in
    ap (λ (q : Paging). translate q va) (paging_init-words a v p)
    ∙ (elim (Bool-cases (ltb va 0x2000000)) [
      | inl e ↦ rw e (translate_low a v cleared va (ground arith))
      | inr e ↦ elim (Bool-cases (leb 0xC0000000 va && ltb va 0xC2000000)) [
        | inl f ↦ rw (e, f) (translate_high a v cleared va (ground arith) (ground arith))
        | inr f ↦
            let k = va / 2 ^ 22 in
            rw (e, f)
              (no_walk (with_words a (mapped a v cleared)) va (
                entry_none a v cleared k (omega arith) (ground arith) (ground arith)
                ∙ cleared_entry a v p.words k (omega arith)))
      ]
    ])
