-- ===== src/Fat/Files.antt =====
-- Mounting, listing and reading in src/fs/fat.c.
use learning_os_project.Common.{
  ℕ, zero, suc, ◌+◌, ◌-◌, ◌*◌, ◌/◌, ◌%◌, ◌^◌, Bool, true, false, not, ◌&&◌, ◌||◌, Option, none,
  some, List, [], ◌∷◌, ◌++◌, ltb, leb, ◌==◌, if◌then◌else◌, length, take, min,
}
use learning_os_project.Common.Bytes.{byte_at, word16_at, word32_at}
use learning_os_project.Common.Int.{ℤ, negsuc, is_zero, signed32}
use learning_os_project.Libc.{strcmp}
use learning_os_project.Storage.{Device}
use learning_os_project.Fat.Volume.{
  Fat, FileInfo, read_sector, fat_read_fat_entry, fat_read_cluster_sector,
}
use learning_os_project.Fat.Directory.{fat_parse_root_dir}

unfoldable pub find_file : List FileInfo → List ℕ → Option FileInfo
find_file [] name = none
find_file (fi ∷ files) name =
    if is_zero (strcmp (some fi.name) (some name)) then some fi else find_file files name

-- The files stored at `out`, whose number is returned; `out_ok` says that `out` is not null.
unfoldable pub fat_list_root : {S : Type 0} → Fat S → Bool → ℕ → List FileInfo
fat_list_root f out_ok max = if not out_ok || (max == 0) then [] else take max f.files

-- How much of a sector is copied, where `read` bytes have been: `read + chunk` is a 32-bit sum.
unfoldable pub chunk_size : ℕ → ℕ → ℕ → ℕ
chunk_size bytes_per_sector to_read read =
    if ltb to_read ((read + bytes_per_sector) % 2 ^ 32) then to_read - read else bytes_per_sector

-- The first bytes of `sector_buf`, which has 512 bytes; `none`: the sector that it holds ends
-- before.
unfoldable pub sector_bytes : ℕ → List ℕ → Option (List ℕ)
sector_bytes chunk sector =
    if leb chunk (min 512 (length sector)) then some (take chunk sector) else none

module _ {S : Type 0} (device : Device S) where
  -- FAT16: the sectors that are left of the root directory.
  unfoldable pub scan_sectors : Fat S → ℕ → ℕ → List FileInfo → List FileInfo
  scan_sectors f zero i files = files
  scan_sectors f (suc n) i files =
      elim (read_sector device f.dev f.disk ((f.root_dir_sector + i) % 2 ^ 32)) [
        | none ↦ files
        | some sector ↦
            scan_sectors f n (i + 1) (fat_parse_root_dir (f.bytes_per_sector / 32) sector files)
      ]

  -- FAT32: the sectors that are left of a cluster.
  unfoldable pub scan_cluster : Fat S → ℕ → ℕ → ℕ → List FileInfo → List FileInfo
  scan_cluster f cluster zero s files = files
  scan_cluster f cluster (suc n) s files = elim (fat_read_cluster_sector device f cluster s) [
    | none ↦ files
    | some sector ↦
        scan_cluster f cluster n (s + 1) (fat_parse_root_dir (f.bytes_per_sector / 32) sector files)
  ]

  -- FAT32: the chain of clusters, at most `fuel` of them. `none`: the chain goes on.
  unfoldable pub scan_chain : ℕ → Fat S → ℕ → List FileInfo → Option (List FileInfo)
  scan_chain zero f cluster files = none
  scan_chain (suc fuel) f cluster files = elim (leb 2 cluster && ltb cluster 0x0FFFFFF8) [
    | true ↦
        scan_chain fuel f (fat_read_fat_entry device f cluster)
          (scan_cluster f cluster f.sectors_per_cluster 0 files)
    | false ↦ some files
  ]

  unfoldable pub fat_refresh_root_cache : ℕ → Fat S → Option (Fat S)
  fat_refresh_root_cache fuel f =
      if f.fat_type == 16
      then some (record f { files = scan_sectors f f.root_dir_sectors 0 [] })
      else if f.fat_type == 32
      then elim (scan_chain fuel f f.root_cluster []) [
        | none ↦ none
        | some files ↦ some (record f { files = files })
      ]
      else some (record f { files = [] })

  -- The fields that `fat_init` takes from the boot sector; `fat_type` is 0 for FAT12.
  unfoldable pub mount : Fat S → List ℕ → Fat S
  mount f sector =
      let bytes_per_sector = word16_at sector 11 in
      let sectors_per_cluster = byte_at sector 13 in
      let reserved_sectors = word16_at sector 14 in
      let num_fats = byte_at sector 16 in
      let root_entries = word16_at sector 17 in
      let fat_size =
        if word16_at sector 22 == 0 then word32_at sector 36 else word16_at sector 22 in
      let root_dir_sectors =
        (root_entries * 32 + (bytes_per_sector + 2 ^ 32 - 1)) % 2 ^ 32 / bytes_per_sector in
      let root_dir_sector = (reserved_sectors + num_fats * fat_size) % 2 ^ 32 in
      let first_data_sector = (root_dir_sector + root_dir_sectors) % 2 ^ 32 in
      let total_sectors =
        if word16_at sector 19 == 0 then word32_at sector 32 else word16_at sector 19 in
      let total_clusters =
        (total_sectors + 2 ^ 32 - first_data_sector) % 2 ^ 32 / sectors_per_cluster in
      record f {
        dev = true;
        bytes_per_sector = bytes_per_sector;
        sectors_per_cluster = sectors_per_cluster;
        reserved_sectors = reserved_sectors;
        num_fats = num_fats;
        fat_size = fat_size;
        root_entries = root_entries;
        root_dir_sectors = root_dir_sectors;
        first_fat_sector = reserved_sectors;
        first_data_sector = first_data_sector;
        root_dir_sector = root_dir_sector;
        root_cluster = word32_at sector 44;
        total_clusters = total_clusters;
        fat_type =
            if ltb total_clusters 4085 then 0 else if ltb total_clusters 65525 then 16 else 32;
      }

  -- `default_dev`: the default device is not null. `none`: the chain of the root directory goes on
  -- behind `fuel` clusters, or the boot sector has a size of 0 and the division traps.
  unfoldable pub fat_init : ℕ → Bool → Fat S → Option (Fat S)
  unfolding fat_refresh_root_cache mount
  fat_init fuel default_dev f =
      if not default_dev || not device.can_read
      then some f
      else elim (read_sector device true f.disk 0) [
        | none ↦ some f
        | some sector ↦
            let mounted = mount f sector in
            if (mounted.bytes_per_sector == 0) || (mounted.sectors_per_cluster == 0)
            then none
            else if mounted.fat_type == 0
            then some mounted
            else fat_refresh_root_cache fuel mounted
      ]

  -- The sectors that are left of a cluster. `out` holds the bytes stored so far, in order:
  -- `read` is
  -- their number in 32 bits. `none`: the code copies bytes that are not of the sector.
  unfoldable pub read_cluster : Fat S → ℕ → ℕ → ℕ → ℕ → List ℕ → Option (List ℕ)
  unfolding sector_bytes chunk_size
  read_cluster f to_read cluster zero s out = some out
  read_cluster f to_read cluster (suc n) s out = elim (ltb (length out % 2 ^ 32) to_read) [
    | false ↦ some out
    | true ↦ elim (fat_read_cluster_sector device f cluster s) [
      | none ↦ some out
      | some sector ↦
          elim (sector_bytes (chunk_size f.bytes_per_sector to_read (length out % 2 ^ 32)) sector) [
            | none ↦ none
            | some part ↦ read_cluster f to_read cluster n (s + 1) (out ++ part)
          ]
    ]
  ]

  -- The chain of a file, at most `fuel` clusters. `none`: the loop goes on, or as above.
  unfoldable pub read_chain : ℕ → Fat S → ℕ → ℕ → List ℕ → Option (List ℕ)
  unfolding read_cluster
  read_chain zero f to_read cluster out = none
  read_chain (suc fuel) f to_read cluster out =
      elim (leb 2 cluster && ltb cluster 0x0FFFFFF8 && ltb (length out % 2 ^ 32) to_read) [
        | false ↦ some out
        | true ↦ elim (read_cluster f to_read cluster f.sectors_per_cluster 0 out) [
          | none ↦ none
          | some out' ↦
              let next = fat_read_fat_entry device f cluster in
              elim ((f.fat_type == 16) && leb 0xFFF8 next) [
                | true ↦ some out'
                | false ↦ read_chain fuel f to_read next out'
              ]
        ]
      ]

  -- The status and the bytes stored in the buffer.
  unfoldable pub fat_read_file : ℕ → Fat S → Option (List ℕ) → Bool → ℕ → Option (ℤ × List ℕ)
  unfolding find_file
  fat_read_file fuel f none buffer_ok max = some (negsuc 0, [])
  fat_read_file fuel f (some name) buffer_ok max =
      if not buffer_ok || (max == 0) then some (negsuc 0, []) else elim (find_file f.files name) [
        | none ↦ some (negsuc 0, [])
        | some fi ↦ elim (read_chain fuel f (min fi.size max) fi.first_cluster []) [
          | none ↦ none
          | some out ↦ some (signed32 (length out), out)
        ]
      ]
