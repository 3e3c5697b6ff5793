-- ===== src/Fat/Volume.antt =====
-- The static variables of src/fs/fat.c, sectors, and the table of clusters. Where the code divides
-- by a size from the boot sector that is 0, the number here is 0.
use Prim.Native.Nat.{bit_and}
use learning_os_project.Common.{
  ℕ, ◌+◌, ◌-◌, ◌*◌, ◌/◌, ◌%◌, ◌^◌, Bool, not, ◌||◌, Option, none, some, List, leb, ◌==◌,
  if◌then◌else◌,
}
use learning_os_project.Common.Bytes.{word16_at, word32_at, put16}
use learning_os_project.Storage.{Device}

-- `struct fat_file_info`; a name is the list of its bytes before the 0.
pub record FileInfo : Type 0 where
  pub name : List ℕ
  pub size : ℕ
  pub first_cluster : ℕ

-- `struct fat_fs`, the cached root directory, and the contents of the device. `dev` says that the
-- device's pointer is not null.
pub record Fat (S : Type 0) : Type 0 where
  pub dev : Bool
  pub bytes_per_sector : ℕ
  pub sectors_per_cluster : ℕ
  pub reserved_sectors : ℕ
  pub num_fats : ℕ
  pub fat_size : ℕ
  pub root_entries : ℕ
  pub root_dir_sectors : ℕ
  pub first_fat_sector : ℕ
  pub first_data_sector : ℕ
  pub root_dir_sector : ℕ
  pub root_cluster : ℕ
  pub fat_type : ℕ
  pub total_clusters : ℕ
  pub files : List FileInfo
  pub disk : S

module _ {S : Type 0} (device : Device S) where
  -- `none`: the function returns 0.
  unfoldable pub read_sector : Bool → S → ℕ → Option (List ℕ)
  read_sector dev disk lba = if not dev || not device.can_read then none else device.read disk lba

  unfoldable pub write_sector : Bool → S → ℕ → List ℕ → Option S
  write_sector dev disk lba bytes =
      if not dev || not device.can_write then none else device.write disk lba bytes

  unfoldable pub fat_cluster_to_lba : Fat S → ℕ → ℕ
  fat_cluster_to_lba f cluster =
      (f.first_data_sector + (cluster + 2 ^ 32 - 2) * f.sectors_per_cluster) % 2 ^ 32

  -- The sector of the table that holds byte `offset`, and the place there.
  abbrev pub table_sector : Fat S → ℕ → ℕ
  table_sector f offset = (f.first_fat_sector + offset / f.bytes_per_sector) % 2 ^ 32

  unfoldable pub fat_read_fat_entry : Fat S → ℕ → ℕ
  unfolding read_sector
  fat_read_fat_entry f cluster =
      if f.fat_type == 16
      then (let offset = cluster * 2 % 2 ^ 32 in
          elim (read_sector f.dev f.disk (table_sector f offset)) [
            | none ↦ 0
            | some sector ↦ word16_at sector (offset % f.bytes_per_sector)
          ])
      else (let offset = cluster * 4 % 2 ^ 32 in
          elim (read_sector f.dev f.disk (table_sector f offset)) [
            | none ↦ 0
            | some sector ↦ bit_and (word32_at sector (offset % f.bytes_per_sector)) 0x0FFFFFFF
          ])

  -- `none`: the function returns 0 and the device is as before.
  unfoldable pub fat_write_fat_entry : Fat S → ℕ → ℕ → Option (Fat S)
  unfolding read_sector write_sector
  fat_write_fat_entry f cluster value =
      if not (f.fat_type == 16)
      then none
      else let offset = cluster * 2 % 2 ^ 32 in
        elim (read_sector f.dev f.disk (table_sector f offset)) [
          | none ↦ none
          | some sector ↦
              elim (write_sector f.dev f.disk (table_sector f offset)
                (put16 sector (offset % f.bytes_per_sector) value)) [
                  | none ↦ none
                  | some disk ↦ some (record f { disk = disk })
                ]
        ]

  unfoldable pub fat_read_cluster_sector : Fat S → ℕ → ℕ → Option (List ℕ)
  unfolding read_sector fat_cluster_to_lba
  fat_read_cluster_sector f cluster sector_index =
      if leb f.sectors_per_cluster sector_index
      then none
      else read_sector f.dev f.disk ((fat_cluster_to_lba f cluster + sector_index) % 2 ^ 32)
