-- ===== src/Fat/Write.antt =====
-- Writing in src/fs/fat.c, on FAT16.
use learning_os_project.Common.{
  ℕ, zero, suc, ◌+◌, ◌-◌, ◌*◌, ◌/◌, ◌%◌, ◌^◌, Bool, true, false, not, ◌&&◌, ◌||◌, Option, none,
  some, List, [], ◌++◌, ltb, leb, ◌==◌, if◌then◌else◌, length, take, drop, set, replicate,
}
use learning_os_project.Common.Bytes.{word16_at, put16, put32}
use learning_os_project.Common.Int.{ℤ, pos, negsuc}
use learning_os_project.Libc.{memcpy}
use learning_os_project.Storage.{Device}
use learning_os_project.Fat.Volume.{
  Fat, read_sector, write_sector, fat_cluster_to_lba, fat_read_fat_entry, fat_write_fat_entry,
}
use learning_os_project.Fat.Directory.{
  Place, RootEntry, found, unused, full, fat_format_name, fat_find_root_entry,
}
use learning_os_project.Fat.Files.{fat_refresh_root_cache}

abbrev pub or_same : {S : Type 0} → Fat S → Option (Fat S) → Fat S
or_same f none = f
or_same f (some f') = f'

abbrev pub has_old_chain : RootEntry → ℕ → Bool
has_old_chain (found place) cluster = leb 2 cluster
has_old_chain (unused place) cluster = false
has_old_chain full cluster = false

-- The entry's bytes: the name, the attributes, the first cluster and the size.
unfoldable pub put_entry : List ℕ → ℕ → List ℕ → ℕ → ℕ → List ℕ
put_entry sector offset name first_cluster size =
    let named = take offset sector ++ memcpy (drop offset sector) name 11 in
    put32 (put16 (put16 (set named (offset + 11) 0x20) (offset + 20) 0) (offset + 26) first_cluster)
      (offset + 28) size

module _ {S : Type 0} (device : Device S) where
  -- At most `fuel` clusters. `none`: the loop goes on.
  unfoldable pub fat_free_chain : ℕ → Fat S → ℕ → Option (Fat S)
  fat_free_chain zero f cluster = none
  fat_free_chain (suc fuel) f cluster = elim (leb 2 cluster && ltb cluster 0xFFF8) [
    | false ↦ some f
    | true ↦
        let next = fat_read_fat_entry device f cluster in
        fat_free_chain fuel (or_same f (fat_write_fat_entry device f cluster 0)) next
  ]

  -- The loop over the `n` clusters from `c` on, with its variables `run` and `start`.
  unfoldable pub free_run_from : Fat S → ℕ → ℕ → ℕ → ℕ → ℕ → ℕ
  free_run_from f count zero c run start = 0
  free_run_from f count (suc n) c run start = elim (fat_read_fat_entry device f c == 0) [
    | false ↦ free_run_from f count n (c + 1) 0 start
    | true ↦
        let start' = if run == 0 then c else start in
        elim (leb count (run + 1)) [
          | true ↦ start'
          | false ↦ free_run_from f count n (c + 1) (run + 1) start'
        ]
  ]

  unfoldable pub fat_find_free_run : Fat S → ℕ → ℕ
  unfolding free_run_from
  fat_find_free_run f count = free_run_from f count (f.total_clusters - 2) 2 0 2

  -- The entries of the `n` clusters from `cur` on, each with the next one, the last with 0xFFFF.
  -- The Boolean says that all were written.
  unfoldable pub link_run : Fat S → ℕ → ℕ → Bool × Fat S
  link_run f cur zero = (true, f)
  link_run f cur (suc n) =
      elim (fat_write_fat_entry device f cur (if n == 0 then 0xFFFF else cur + 1)) [
        | none ↦ (false, f)
        | some f' ↦ link_run f' (cur + 1) n
      ]

  -- The sectors that are left of a cluster; `bytes` is what is still to write. A last sector
  -- that is
  -- not full is filled with 0. `none`: a sector is not written, and the disk is as it is then.
  unfoldable pub write_cluster : Fat S → ℕ → ℕ → ℕ → List ℕ → Option (List ℕ) × Fat S
  write_cluster f cluster zero s bytes = (some bytes, f)
  write_cluster f cluster (suc n) s bytes =
      let lba = (fat_cluster_to_lba device f cluster + s) % 2 ^ 32 in
      elim (ltb (length bytes) f.bytes_per_sector) [
        | true ↦
            elim (write_sector device f.dev f.disk lba
              (memcpy (replicate 512 0) bytes (length bytes))) [
                | none ↦ (none, f)
                | some disk ↦ (some [], record f { disk = disk })
              ]
        | false ↦ elim (write_sector device f.dev f.disk lba (take 512 bytes)) [
          | none ↦ (none, f)
          | some disk ↦
              let rest = drop f.bytes_per_sector bytes in
              elim (length rest == 0) [
                | true ↦ (some rest, record f { disk = disk })
                | false ↦ write_cluster (record f { disk = disk }) cluster n (s + 1) rest
              ]
        ]
      ]

  -- `none`: the loop goes on behind `fuel` clusters; the Boolean says that all was written.
  unfoldable pub write_chain : ℕ → Fat S → ℕ → List ℕ → Option (Bool × Fat S)
  unfolding write_cluster
  write_chain zero f cluster bytes = none
  write_chain (suc fuel) f cluster bytes =
      elim (ltb 0 (length bytes) && leb 2 cluster && ltb cluster 0xFFF8) [
        | false ↦ some (true, f)
        | true ↦
            let (left, f') = write_cluster f cluster f.sectors_per_cluster 0 bytes in
            elim left [
              | none ↦ some (false, f')
              | some rest ↦ write_chain fuel f' (fat_read_fat_entry device f' cluster) rest
            ]
      ]

  -- The first cluster of the bytes once they are written, 0 if there are none. The result is `none`
  -- where the function returns -1.
  unfoldable pub store_bytes : ℕ → Fat S → List ℕ → Option (Option ℕ × Fat S)
  unfolding fat_find_free_run link_run write_chain
  store_bytes fuel f bytes =
      if length bytes == 0
      then some (some 0, f)
      else let cluster_size = f.bytes_per_sector * f.sectors_per_cluster % 2 ^ 32 in
        let needed = (length bytes + cluster_size + 2 ^ 32 - 1) % 2 ^ 32 / cluster_size in
        let first = fat_find_free_run f needed in
        if first == 0
        then some (none, f)
        else let (linked, f1) = link_run f first needed in
          if not linked then some (none, f1) else elim (write_chain fuel f1 first bytes) [
            | none ↦ none
            | some (done, f2) ↦ some (if done then some first else none, f2)
          ]

  -- The last part: the entry of the directory, and the cache.
  unfoldable pub write_entry : ℕ → Fat S → Place → List ℕ → List ℕ → ℕ → ℕ → Option (ℤ × Fat S)
  unfolding put_entry
  write_entry fuel f place dir_sector name first_cluster size =
      elim (write_sector device f.dev f.disk place.0
        (put_entry dir_sector place.1 name first_cluster size)) [
          | none ↦ some (negsuc 0, f)
          | some disk ↦ elim (fat_refresh_root_cache device fuel (record f { disk = disk })) [
            | none ↦ none
            | some f' ↦ some (pos 0, f')
          ]
        ]

  -- With a place for the entry: the old chain is freed, the bytes are stored, the entry is written.
  unfoldable pub write_at : ℕ → Fat S → RootEntry → Place → List ℕ → List ℕ → Option (ℤ × Fat S)
  unfolding fat_free_chain store_bytes write_entry
  write_at fuel f entry place name bytes = elim (read_sector device f.dev f.disk place.0) [
    | none ↦ some (negsuc 0, f)
    | some dir_sector ↦
        let old_cluster = word16_at dir_sector (place.1 + 26) in
        elim (if has_old_chain entry old_cluster
          then fat_free_chain fuel f old_cluster
          else some f) [
            | none ↦ none
            | some freed ↦ elim (store_bytes fuel freed bytes) [
              | none ↦ none
              | some (none, f') ↦ some (negsuc 0, f')
              | some (some first, f') ↦
                  write_entry fuel f' place dir_sector name first (length bytes)
            ]
          ]
  ]

  -- `buffer`: the bytes, whose number is `size`; `none` is null.
  unfoldable pub fat_write_file : ℕ → Fat S → Option (List ℕ) → Option (List ℕ) → Option (ℤ × Fat S)
  unfolding write_at
  fat_write_file fuel f name none = some (negsuc 0, f)
  fat_write_file fuel f name (some bytes) =
      if not f.dev || not device.can_write || not (f.fat_type == 16)
      then some (negsuc 0, f)
      else elim (fat_format_name name) [
        | none ↦ some (negsuc 0, f)
        | some fat_name ↦ elim (fat_find_root_entry device f fat_name) [
          | full ↦ some (negsuc 0, f)
          | found place ↦ write_at fuel f (found place) place fat_name bytes
          | unused place ↦ write_at fuel f (unused place) place fat_name bytes
        ]
      ]
