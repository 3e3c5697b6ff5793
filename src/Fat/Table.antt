-- ===== src/Fat/Table.antt =====
-- The table of clusters of a FAT16 volume: what reading an entry gives after one has been written.
use learning_os_project.Common.{
  ℕ, ◌+◌, ◌*◌, ◌/◌, ◌%◌, ◌^◌, ◌<◌, ◌≡◌, ◌≢◌, refl, sym, ap, ◌∙◌, subst, inl, inr, true, false,
  Option, none, some, List, ◌==◌, if◌then◌else◌, length, arith, Bool-cases, Option-cases, some-inj,
  ==_iff, ==→ne,
}
use learning_os_project.Common.Bytes.{
  word16_at, put16, length-put16, word16_at-put16, word16_at-put16_ne,
}
use learning_os_project.Storage.{Device, IsLawful}
use learning_os_project.Fat.Volume.{
  Fat, read_sector, write_sector, fat_read_fat_entry, fat_write_fat_entry,
}

-- A mounted FAT16 volume with sectors of 512 bytes, whose table does not reach the end of the
-- 32-bit sector numbers.
pub record IsFat16 {S : Type 0} (f : Fat S) : Type 0 where
  pub mounted : f.dev ≡ true
  pub kind : f.fat_type ≡ 16
  pub sector_size : f.bytes_per_sector ≡ 512
  pub table_low : f.first_fat_sector < 2 ^ 31

-- The entry of a cluster in its sector.
abbrev pub entry_in : Option (List ℕ) → ℕ → ℕ
entry_in none c = 0
entry_in (some sector) c = word16_at sector (c % 256 * 2)

-- What stands at the entry of `j` once the sector of `c` has been written.
entry_in-put16 :
    (b : List ℕ) (o : Option (List ℕ)) (first c j value : ℕ)
    → length b ≡ 512
    → (c / 256 ≡ j / 256 → o ≡ some b)
    → entry_in
        (if first + c / 256 == first + j / 256 then some (put16 b (c % 256 * 2) value) else o)
        j
      ≡ (if c == j then value % 2 ^ 16 else entry_in o j)
entry_in-put16 b o first c j value size same =
    elim (Bool-cases (first + c / 256 == first + j / 256)) [
      | inr other ↦ let apart : (c == j) ≡ false = ground arith in rw (other, apart) refl
      | inl e ↦ elim (Bool-cases (c == j)) [
        | inl p ↦
            let eq : c ≡ j = (==_iff c j).0 p in
            rw (e, p)
              (ap (λ (k : ℕ). word16_at (put16 b (c % 256 * 2) value) (k % 256 * 2)) (sym eq)
                ∙ word16_at-put16 b (c % 256 * 2) value (omega (arith, size)))
        | inr p ↦
            let ne : c ≢ j = ==→ne c j p in
            let sector : c / 256 ≡ j / 256 = ground arith in
            let apart : c % 256 ≢ j % 256 = λ q. ne (omega arith) in
            rw (e, p, same sector)
              (word16_at-put16_ne b (c % 256 * 2) (j % 256 * 2) value (λ q. apart (omega arith))
                (λ q. omega arith) (λ q. omega arith))
      ]
    ]

module _ {S : Type 0} (device : Device S) (lawful : IsLawful device) where
  pub read_sector-eq :
      (disk : S) (lba : ℕ) → read_sector device true disk lba ≡ device.read disk lba
  unfolding read_sector
  read_sector-eq disk lba = let r = lawful.readable in rw r refl

  -- Where the entry of a cluster lies.
  abbrev pub entry_sector : Fat S → ℕ → ℕ
  entry_sector f c = f.first_fat_sector + c / 256

  pub read_entry-eq :
      (f : Fat S) (c : ℕ)
      → IsFat16 f
      → c < 2 ^ 16
      → fat_read_fat_entry device f c ≡ entry_in (device.read f.disk (entry_sector f c)) c
  unfolding fat_read_fat_entry read_sector
  read_entry-eq f c v h =
      let r = lawful.readable in
      let place : (f.first_fat_sector + c * 2 % 2 ^ 32 / 512) % 2 ^ 32 ≡ entry_sector f c =
        omega (arith, v.table_low) in
      let off : c * 2 % 2 ^ 32 % 512 ≡ c % 256 * 2 = omega arith in
      elim (Option-cases (device.read f.disk (entry_sector f c))) [
        | inl p ↦ simp (v.kind, v.mounted, r, v.sector_size, place, p)
        | inr (b, p) ↦ simp (v.kind, v.mounted, r, v.sector_size, place, p, off)
      ]

  pub write_entry-eq :
      (f : Fat S) (c value : ℕ) {f' : Fat S}
      → IsFat16 f
      → c < 2 ^ 16
      → fat_write_fat_entry device f c value ≡ some f'
      → (sector : List ℕ) × (disk : S) × (device.read f.disk (entry_sector f c) ≡ some sector)
        × (device.write f.disk (entry_sector f c) (put16 sector (c % 256 * 2) value) ≡ some disk)
        × (record f { disk = disk } ≡ f')
  unfolding fat_write_fat_entry read_sector write_sector
  write_entry-eq f c value {f'} v h e =
      let r = lawful.readable in
      let place : (f.first_fat_sector + c * 2 % 2 ^ 32 / 512) % 2 ^ 32 ≡ entry_sector f c =
        omega (arith, v.table_low) in
      let off : c * 2 % 2 ^ 32 % 512 ≡ c % 256 * 2 = omega arith in
      elim (Option-cases (device.read f.disk (entry_sector f c))) [
        | inl p ↦ absurd (
            let x =
              simp (v.kind, v.mounted, r, v.sector_size, place, p, fat_write_fat_entry) at e in
            cc)
        | inr (b, p) ↦ elim (Bool-cases device.can_write) [
          | inr no_write ↦ absurd (
              let x =
                simp (v.kind, v.mounted, r, v.sector_size, place, p, no_write, fat_write_fat_entry)
                  at e in
              cc)
          | inl w ↦
              elim (Option-cases
                (device.write f.disk (entry_sector f c) (put16 b (c % 256 * 2) value))) [
                  | inl q ↦ absurd (
                      let x =
                        simp
                          (
                            v.kind, v.mounted, r, v.sector_size, place, p, off, w, q,
                            fat_write_fat_entry,
                          )
                          at e in
                      cc)
                  | inr (disk, q) ↦
                      let done : fat_write_fat_entry device f c value
                          ≡ some (record f { disk = disk }) =
                        simp (v.kind, v.mounted, r, v.sector_size, place, p, off, w, q) in
                      (b, disk, p, q, some-inj (sym done ∙ e))
                ]
        ]
      ]

  -- On a lawful device, after `fat_write_fat_entry` of a FAT16 volume has written the entry of a
  -- cluster below 65536, reading gives the low 16 bits of the value for that cluster and what it
  -- gave before for every other, and nothing but the contents of the device has changed.
  pub fat_read_fat_entry-fat_write_fat_entry :
      (f : Fat S) (c value : ℕ) {f' : Fat S}
      → IsFat16 f
      → c < 2 ^ 16
      → fat_write_fat_entry device f c value ≡ some f'
      → ((j : ℕ)
          → j < 2 ^ 16
          → fat_read_fat_entry device f' j
            ≡ (if c == j then value % 2 ^ 16 else fat_read_fat_entry device f j))
        × (record f { disk = f'.disk } ≡ f')
  fat_read_fat_entry-fat_write_fat_entry f c value {f'} v h e =
      let (b, disk, p, q, eq) = write_entry-eq f c value {f' = f'} v h e in
      let g = record f { disk = disk } in
      let w : IsFat16 g = record {
        mounted = v.mounted;
        kind = v.kind;
        sector_size = v.sector_size;
        table_low = v.table_low;
      } in
      let size = lawful.sector f.disk (entry_sector f c) p in
      let new = put16 b (c % 256 * 2) value in
      let new_size = length-put16 b (c % 256 * 2) value ∙ size in
      let after : (j : ℕ)
          → j < 2 ^ 16
          → fat_read_fat_entry device g j
            ≡ (if c == j then value % 2 ^ 16 else fat_read_fat_entry device f j) =
        λ j k.
          read_entry-eq g j w k
          ∙ ap (λ o. entry_in o j)
              (lawful.read-write (entry_sector f c) (entry_sector f j) new_size q)
          ∙ entry_in-put16 b (device.read f.disk (entry_sector f j)) f.first_fat_sector c j value
              size
              (λ same. ap (λ (t : ℕ). device.read f.disk (f.first_fat_sector + t)) (sym same) ∙ p)
          ∙ ap (λ (t : ℕ). if c == j then value % 2 ^ 16 else t) (sym (read_entry-eq f j v k)) in
      (
        subst
            (λ (g : Fat S).
              (j : ℕ)
              → j < 2 ^ 16
              → fat_read_fat_entry device g j
                ≡ (if c == j then value % 2 ^ 16 else fat_read_fat_entry device f j))
            eq (λ j k. after j k),
        subst (λ (g : Fat S). record f { disk = g.disk } ≡ g) eq refl,
      )
