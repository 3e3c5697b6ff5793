-- ===== src/Tests/Disk.antt =====
-- A FAT16 volume on a small disk.
use learning_os_project.Common.{
  ℕ, zero, suc, ◌+◌, ◌%◌, ◌^◌, ◌≡◌, ◌<◌, ◌≤◌, ◌∙◌, ◌⊎◌, inl, inr, refl, List, [], ◌∷◌, ◌++◌, Option,
  none, some, arith, true, length, drop, ◌*◌, replicate, get_elem?, set, ltb, ◌==◌, if◌then◌else◌,
  Bool-cases, some-inj, subst, ==_iff,
}
use learning_os_project.Common.Int.{ℤ, pos}
use learning_os_project.Storage.{Device, IsLawful, IsReliable}
use learning_os_project.Common.Bits.{bit}
use learning_os_project.Common.Bytes.{word16_at, word32_at, put16, put32}
use learning_os_project.Libc.{memcpy, strcmp}
use learning_os_project.Fat.Runs.{Searched, fat_find_free_run_lem}
use learning_os_project.Fat.Names.{suffix}
use learning_os_project.Fat.Listed.{upper_name, fat_parse_root_dir-fat_format_name}
use learning_os_project.Fat.Chain.{Chain, stop, link, clusters, link_run-Chain}
use learning_os_project.Fat.Free.{has, fat_free_chain_lem}
use learning_os_project.Fat.Reading.{fat_read_file-le}
use learning_os_project.Fat.Contents.{IsReadable}
use learning_os_project.Fat.Table.{IsFat16, fat_read_fat_entry-fat_write_fat_entry}
use learning_os_project.Fat.Volume.{
  Fat, FileInfo, read_sector, write_sector, fat_read_fat_entry, fat_write_fat_entry,
  fat_cluster_to_lba, fat_read_cluster_sector,
}
use learning_os_project.Fat.Directory.{
  fat_format_name, fat_find_root_entry, find_in_sectors, find_in_sector, fat_parse_root_dir,
}
use learning_os_project.Fat.Files.{fat_read_file, read_chain, scan_sectors, fat_refresh_root_cache}
use learning_os_project.Fat.Write.{fat_write_file, link_run, fat_find_free_run, fat_free_chain}

abbrev Sectors : Type 0
Sectors = List (List ℕ)

-- A read that does not give 512 bytes fails.
abbrev whole : Option (List ℕ) → Option (List ℕ)
whole none = none
whole (some b) = if length b == 512 then some b else none

abbrev ram_disk : Device Sectors
ram_disk = record {
  can_read = true;
  can_write = true;
  read = λ s lba. whole (get_elem? s lba);
  write = λ s lba b. if ltb lba (length s) then some (set s lba b) else none;
}

whole-length : (o : Option (List ℕ)) {b : List ℕ} → whole o ≡ some b → length b ≡ 512
whole-length none e = absurd (let x = e in cc)
whole-length (some c) {b} e = elim (Bool-cases (length c == 512)) [
  | inl p ↦
      let same : c ≡ b = some-inj (rw p at e) in
      subst (λ (t : List ℕ). length t ≡ 512) same ((==_iff (length c) 512).0 p)
  | inr p ↦ absurd (let x = rw p at e in cc)
]

get_elem?-set :
    (s : Sectors) (i j : ℕ) (b : List ℕ)
    → i < length s
    → get_elem? (set s i b) j ≡ (if i == j then some b else get_elem? s j)
get_elem?-set [] i j b h = absurd (omega arith)
get_elem?-set (x ∷ s) zero zero b h = refl
get_elem?-set (x ∷ s) zero (suc j) b h = ground arith
get_elem?-set (x ∷ s) (suc i) zero b h = ground arith
get_elem?-set (x ∷ s) (suc i) (suc j) b h = get_elem?-set s i j b (omega arith) ∙ ground arith

ram_disk-write :
    (s : Sectors) {s' : Sectors} (lba j : ℕ) (b : List ℕ)
    → length b ≡ 512
    → ram_disk.write s lba b ≡ some s'
    → ram_disk.read s' j ≡ (if lba == j then some b else ram_disk.read s j)
ram_disk-write s {s'} lba j b size e = elim (Bool-cases (ltb lba (length s))) [
  | inr p ↦ absurd (let x = rw p at e in cc)
  | inl p ↦
      let same : set s lba b ≡ s' = some-inj (rw p at e) in
      let full : (length b == 512) ≡ true = rw size refl in
      subst
        (λ (t : Sectors).
          whole (get_elem? t j) ≡ (if lba == j then some b else whole (get_elem? s j)))
        same
        (rw (get_elem?-set s lba j b (ground arith))
          (elim (Bool-cases (lba == j)) [ inl q ↦ rw (q, full) refl | inr q ↦ rw q refl ]))
]

ram_disk-IsLawful : IsLawful ram_disk
ram_disk-IsLawful = record {
  readable = refl;
  sector = λ s lba e. whole-length (get_elem? s lba) e;
  read-write = λ {s} {s'} lba j {b} size e. ram_disk-write s {s' = s'} lba j b size e;
}

get_elem?-lt : (s : Sectors) (i : ℕ) {b : List ℕ} → whole (get_elem? s i) ≡ some b → i < length s
get_elem?-lt [] i e = absurd (let x = e in cc)
get_elem?-lt (x ∷ s) zero e = omega arith
get_elem?-lt (x ∷ s) (suc i) {b} e = omega (arith, get_elem?-lt s i {b = b} e)

ram_disk-IsReliable : IsReliable ram_disk
ram_disk-IsReliable = record {
  writable = refl;
  accepts = λ s lba {old} b size e.
      let inside : ltb lba (length s) ≡ true =
        let l = get_elem?-lt s lba {b = old} e in ground (arith, l) in
      (set s lba b, rw inside refl);
}

abbrev blank_sector : List ℕ
blank_sector = replicate 512 0

-- A sector for the table, one for the root directory, and five for data.
abbrev volume : Fat Sectors
volume = record {
  dev = true;
  bytes_per_sector = 512;
  sectors_per_cluster = 1;
  reserved_sectors = 0;
  num_fats = 1;
  fat_size = 1;
  root_entries = 16;
  root_dir_sectors = 1;
  first_fat_sector = 0;
  first_data_sector = 2;
  root_dir_sector = 1;
  root_cluster = 0;
  fat_type = 16;
  total_clusters = 7;
  files = [];
  disk = replicate 7 blank_sector;
}

-- `a.c`
abbrev small_name : List ℕ
small_name = 97 ∷ 46 ∷ 99 ∷ []

abbrev written : Fat Sectors
written =
    elim (fat_write_file ram_disk 100 volume (some small_name) (some (104 ∷ 105 ∷ [])))
      as (λ _. Fat Sectors) [ none ↦ volume | some (status, f) ↦ f ]

abbrev answer : Option (ℤ × List ℕ)
answer = fat_read_file ram_disk 100 written (some (65 ∷ 46 ∷ 67 ∷ [])) true 100

-- `a.c` holds `hi`.
answer_eq : answer ≡ some (pos 2, 104 ∷ 105 ∷ [])
unfolding fat_write_file fat_read_file fat_format_name fat_find_root_entry find_in_sectors
    find_in_sector read_sector fat_read_fat_entry word16_at fat_write_fat_entry fat_cluster_to_lba
    fat_refresh_root_cache scan_sectors put32 memcpy fat_parse_root_dir bit strcmp read_chain
    word32_at fat_read_cluster_sector
answer_eq = refl

volume-IsFat16 : IsFat16 volume
volume-IsFat16 = record { mounted = refl; kind = refl; sector_size = refl; table_low = omega arith }

-- The entry of cluster 3 is set to 9.
abbrev marked : Fat Sectors
marked = record volume { disk = set volume.disk 0 (put16 blank_sector 6 9) }

mark_eq : fat_write_fat_entry ram_disk volume 3 9 ≡ some marked
unfolding fat_write_fat_entry read_sector write_sector put16
mark_eq = refl

table_example :
    ((j : ℕ)
      → j < 2 ^ 16
      → fat_read_fat_entry ram_disk marked j
        ≡ (if 3 == j then 9 % 2 ^ 16 else fat_read_fat_entry ram_disk volume j))
    × (record volume { disk = marked.disk } ≡ marked)
table_example =
    fat_read_fat_entry-fat_write_fat_entry ram_disk ram_disk-IsLawful volume 3 9 {f' = marked}
      volume-IsFat16 (omega arith) mark_eq

free_run_example :
    Searched (fat_read_fat_entry ram_disk marked) 2 7 (fat_find_free_run ram_disk marked 2)
free_run_example = fat_find_free_run_lem ram_disk marked 2 (omega arith) (omega arith)

-- `ab.c`, with the entry's last 20 bytes 0.
name_example :
    (out : List ℕ) × (fat_format_name (some ((97 ∷ 98 ∷ []) ++ suffix (99 ∷ []))) ≡ some out)
    × (length out ≡ 11)
    × (let ent = out ++ 0x20 ∷ replicate 20 0 in
        fat_parse_root_dir 1 ent []
        ≡ fat_parse_root_dir 0 (drop 32 ent) (
            record {
              name = upper_name (97 ∷ 98 ∷ []) (99 ∷ []);
              size = word32_at ent 28;
              first_cluster = word16_at ent 20 * 2 ^ 16 + word16_at ent 26;
            }
            ∷ []))
unfolding bit
name_example =
    fat_parse_root_dir-fat_format_name (97 ∷ 98 ∷ []) (99 ∷ []) (replicate 20 0) 0 0x20 []
      (omega arith) (omega arith) (omega arith, (omega arith, tt)) (omega arith, (omega arith, tt))
      (omega arith, (omega arith, tt)) (omega arith) (omega arith) (omega arith, tt)
      (omega arith, tt) refl (omega arith)

-- Clusters 2 to 4 in a chain.
abbrev chained : Fat Sectors
chained = (link_run ram_disk volume 2 3).1

linked_all : (link_run ram_disk volume 2 3).0 ≡ true
unfolding link_run fat_write_fat_entry read_sector write_sector put16
linked_all = refl

link_example :
    Chain (fat_read_fat_entry ram_disk chained) 2 (clusters 2 3)
    × ((j : ℕ)
        → j < 2 ^ 16
        → (j < 2) ⊎ (2 + 3 ≤ j)
        → fat_read_fat_entry ram_disk chained j ≡ fat_read_fat_entry ram_disk volume j)
link_example =
    link_run-Chain ram_disk ram_disk-IsLawful volume 2 2 volume-IsFat16 (omega arith) (omega arith)
      linked_all

chained-IsFat16 : IsFat16 chained
unfolding link_run fat_write_fat_entry read_sector write_sector put16
chained-IsFat16 = record {
  mounted = refl;
  kind = refl;
  sector_size = refl;
  table_low = omega arith;
}

three-Chain : Chain (fat_read_fat_entry ram_disk chained) 2 (2 ∷ 3 ∷ 4 ∷ [])
unfolding link_run fat_write_fat_entry fat_read_fat_entry read_sector write_sector put16 word16_at
three-Chain = link 2 (3 ∷ 4 ∷ []) (omega arith) (omega arith) (
    link 3 (4 ∷ []) (omega arith) (omega arith)
      (link 4 [] (omega arith) (omega arith) (stop 0xFFFF (omega arith))))

free_chain_example :
    (f' : Fat Sectors) × (fat_free_chain ram_disk 4 chained 2 ≡ some f')
    × IsFat16 f'
    × ((j : ℕ)
        → j < 2 ^ 16
        → fat_read_fat_entry ram_disk f' j
          ≡ (if has j (2 ∷ 3 ∷ 4 ∷ []) then 0 else fat_read_fat_entry ram_disk chained j))
free_chain_example =
    fat_free_chain_lem ram_disk ram_disk-IsLawful ram_disk-IsReliable chained 4 chained-IsFat16
      three-Chain (omega arith)

read_bound_example : length {A = ℕ} (104 ∷ 105 ∷ []) ≤ 100
read_bound_example =
    fat_read_file-le ram_disk 100 written (some (65 ∷ 46 ∷ 67 ∷ [])) true 100 {status = pos 2}
      {out = 104 ∷ 105 ∷ []} (omega arith) answer_eq

-- A file of 600 bytes in clusters 2 to 4.
abbrev big_file : FileInfo
big_file = record { name = 66 ∷ []; size = 600; first_cluster = 2 }

abbrev with_file : Fat Sectors
with_file = record chained { files = big_file ∷ [] }

readable :
    (c : ℕ)
    → fat_read_cluster_sector ram_disk with_file c 0 ≡ some blank_sector
    → IsReadable ram_disk with_file c
unfolding link_run fat_write_fat_entry read_sector write_sector put16
readable c e zero h = (blank_sector, e, refl)
readable c e (suc s) h = absurd (omega arith)
