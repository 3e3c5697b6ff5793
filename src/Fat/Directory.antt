-- ===== src/Fat/Directory.antt =====
-- The root directory of src/fs/fat.c: names in 8.3 form, the cache of files, the search for an
-- entry.
-- An entry has 32 bytes: its name in 0 to 10, its attributes in 11.
use learning_os_project.Common.{
  ℕ, zero, suc, ◌+◌, ◌-◌, ◌*◌, ◌/◌, ◌%◌, ◌^◌, Bool, true, false, not, ◌&&◌, ◌||◌, Option, none,
  some, List, [], ◌∷◌, ◌++◌, leb, ◌==◌, if◌then◌else◌, length, take, drop, replicate,
}
use learning_os_project.Common.Bits.{bit}
use learning_os_project.Common.Int.{is_zero}
use learning_os_project.Common.Bytes.{byte_at, word16_at, word32_at}
use learning_os_project.Libc.{memcmp}
use learning_os_project.Libc.Strings.{text}
use learning_os_project.Storage.{Device}
use learning_os_project.Fat.Volume.{Fat, FileInfo, read_sector}

abbrev pub max_files : ℕ
max_files = 32

unfoldable pub fat_add_file : List FileInfo → List ℕ → ℕ → ℕ → List FileInfo
fat_add_file files name size cluster =
    if leb max_files (length files)
    then files
    else files ++ record { name = take 12 (text name); size = size; first_cluster = cluster } ∷ []

-- `for (j = from; j < from + n; j++) { if (ent[j] == ' ') break; name[pos++] = ent[j]; }`
unfoldable pub until_space : ℕ → List ℕ → List ℕ
until_space zero ent = []
until_space (suc n) [] = []
until_space (suc n) (c ∷ ent) = if c == 32 then [] else c ∷ until_space n ent

-- The name of an entry: eight bytes, and three behind a dot if the first of them is no space.
unfoldable pub entry_name : List ℕ → List ℕ
unfolding until_space
entry_name ent =
    until_space 8 ent ++ (if byte_at ent 8 == 32 then [] else 46 ∷ until_space 3 (drop 8 ent))

abbrev pub entry_cluster : List ℕ → ℕ
entry_cluster ent = word16_at ent 20 * 2 ^ 16 + word16_at ent 26

-- Entries that are passed over: deleted, part of a long name, or the volume's label.
abbrev pub is_skipped : List ℕ → Bool
is_skipped ent =
    (byte_at ent 0 == 0xE5) || (byte_at ent 11 == 0x0F) || not (bit (byte_at ent 11) 3 == 0)

-- The loop over the entries that are left of a sector.
unfoldable pub fat_parse_root_dir : ℕ → List ℕ → List FileInfo → List FileInfo
unfolding fat_add_file entry_name
fat_parse_root_dir zero sector files = files
fat_parse_root_dir (suc n) sector files = elim (byte_at sector 0 == 0) [
  | true ↦ files
  | false ↦ fat_parse_root_dir n (drop 32 sector) (
      if is_skipped sector
      then files
      else fat_add_file files (entry_name sector) (word32_at sector 28) (entry_cluster sector))
]

abbrev pub to_upper : ℕ → ℕ
to_upper c = if leb 97 c && leb c 122 then c - 97 + 65 else c

-- The first loop of `fat_format_name`: at most `n` bytes up to a dot, and where it stops.
unfoldable pub copy_base : ℕ → List ℕ → List ℕ × List ℕ
copy_base zero name = ([], name)
copy_base (suc n) [] = ([], [])
copy_base (suc n) (c ∷ name) =
    if c == 46
    then ([], c ∷ name)
    else (let (base, rest) = copy_base n name in (to_upper c ∷ base, rest))

-- `if (name[i] == '.') i++;`
abbrev pub skip_dot : List ℕ → List ℕ
skip_dot [] = []
skip_dot (c ∷ name) = if c == 46 then name else c ∷ name

abbrev pub map_upper : List ℕ → List ℕ
map_upper [] = []
map_upper (c ∷ s) = to_upper c ∷ map_upper s

-- `out` is filled with spaces first.
abbrev pub padded : ℕ → List ℕ → List ℕ
padded n s = s ++ replicate (n - length s) 32

-- The name is the list of its bytes before the 0; `none`: null or empty.
unfoldable pub fat_format_name : Option (List ℕ) → Option (List ℕ)
unfolding copy_base
fat_format_name none = none
fat_format_name (some []) = none
fat_format_name (some (c ∷ name)) =
    let (base, rest) = copy_base 8 (c ∷ name) in
    some (padded 8 base ++ padded 3 (map_upper (take 3 (skip_dot rest))))

-- Where an entry lies: its sector and its place there.
abbrev pub Place : Type 0
Place = ℕ × ℕ

abbrev pub first_place : Option Place → Place → Option Place
first_place none place = some place
first_place (some first) place = some first

-- The inner loop of `fat_find_root_entry` over the `n` entries from entry `e` on: the entry of that
-- name, and the first free entry met so far.
unfoldable pub find_in_sector :
    ℕ → List ℕ → List ℕ → ℕ → ℕ → Option Place → Option Place × Option Place
find_in_sector zero name ents lba e free = (none, free)
find_in_sector (suc n) name ents lba e free =
    let free' = first_place free (lba, e * 32) in
    elim (byte_at ents 0 == 0) [
      | true ↦ (none, free')
      | false ↦ elim (byte_at ents 0 == 0xE5) [
        | true ↦ find_in_sector n name (drop 32 ents) lba (e + 1) free'
        | false ↦ elim (not (byte_at ents 11 == 0x0F) && is_zero (memcmp ents name 11)) [
          | true ↦ (some (lba, e * 32), free)
          | false ↦ find_in_sector n name (drop 32 ents) lba (e + 1) free
        ]
      ]
    ]

-- What `fat_find_root_entry` returns: 1, 0 or -1, with the place that it stores.
pub data RootEntry : Type 0 where
  found : Place → RootEntry
  unused : Place → RootEntry
  full : RootEntry

abbrev pub unused_or_full : Option Place → RootEntry
unused_or_full none = full
unused_or_full (some place) = unused place

module _ {S : Type 0} (device : Device S) where
  -- The outer loop, over the sectors that are left.
  unfoldable pub find_in_sectors : Fat S → List ℕ → ℕ → ℕ → Option Place → RootEntry
  find_in_sectors f name zero i free = unused_or_full free
  find_in_sectors f name (suc n) i free =
      let lba = (f.root_dir_sector + i) % 2 ^ 32 in
      elim (read_sector device f.dev f.disk lba) [
        | none ↦ unused_or_full free
        | some sector ↦
            let (hit, free') = find_in_sector (f.bytes_per_sector / 32) name sector lba 0 free in
            elim hit [ some place ↦ found place | none ↦ find_in_sectors f name n (i + 1) free' ]
      ]

  unfoldable pub fat_find_root_entry : Fat S → List ℕ → RootEntry
  fat_find_root_entry f name = find_in_sectors f name f.root_dir_sectors 0 none
