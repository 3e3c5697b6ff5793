-- ===== src/Fat/Listed.antt =====
-- An entry of the root directory with a name that `fat_format_name` made is listed.
use learning_os_project.Common.{
  ℕ, suc, ◌+◌, ◌*◌, ◌^◌, ◌≤◌, ◌<◌, ◌≡◌, ◌≢◌, refl, sym, ap, ◌∙◌, ◌⊎◌, inl, inr, some-inj, false,
  some, List, [], ◌∷◌, ◌++◌, leb, ◌==◌, length, length-append, take, take-all, drop, subst, arith,
  ne→==,
}
use learning_os_project.Common.Bits.{bit}
use learning_os_project.Common.Bytes.{byte_at, word16_at, word32_at}
use learning_os_project.Libc.Strings.{text}
use learning_os_project.Fat.Volume.{FileInfo}
use learning_os_project.Fat.Directory.{
  to_upper, map_upper, copy_base, is_skipped, entry_name, fat_add_file, fat_parse_root_dir,
  fat_format_name,
}
use learning_os_project.Fat.Names.{
  NoSpace, NoDot, suffix, written_name, byte_at-append, length-map_upper,
}

-- A name has no byte 0.
abbrev pub NoZero : List ℕ → Type 0
NoZero [] = Unit {0}
NoZero (c ∷ s) = (c ≢ 0) × NoZero s

text-NoZero : (s : List ℕ) → NoZero s → text s ≡ s
text-NoZero [] v = refl
text-NoZero (c ∷ s) v = rw (ne→== c 0 v.0) (ap (λ (t : List ℕ). c ∷ t) (text-NoZero s v.1))

to_upper-ne : (c d : ℕ) → d < 65 ⊎ 90 < d → c ≢ d → to_upper c ≢ d
to_upper-ne c d h ne = ground arith

map_upper-NoZero : (s : List ℕ) → NoZero s → NoZero (map_upper s)
map_upper-NoZero [] v = tt
map_upper-NoZero (c ∷ s) v = (to_upper-ne c 0 (inl (omega arith)) v.0, map_upper-NoZero s v.1)

suffix-NoZero : (ext : List ℕ) → NoZero ext → NoZero (suffix ext)
suffix-NoZero [] v = tt
suffix-NoZero (c ∷ ext) v = (omega arith, v)

append-NoZero : (s t : List ℕ) → NoZero s → NoZero t → NoZero (s ++ t)
append-NoZero [] t v w = w
append-NoZero (c ∷ s) t v w = (v.0, append-NoZero s t v.1 w)

length-suffix : (ext : List ℕ) → length (suffix ext) ≤ 1 + length ext
length-suffix [] = omega arith
length-suffix (c ∷ ext) = omega arith

-- The listed name, in upper case.
abbrev pub upper_name : List ℕ → List ℕ → List ℕ
upper_name base ext = map_upper base ++ suffix (map_upper ext)

upper_name-whole :
    (base ext : List ℕ)
    → length base ≤ 8
    → length ext ≤ 3
    → NoZero base
    → NoZero ext
    → take 12 (text (upper_name base ext)) ≡ upper_name base ext
upper_name-whole base ext h k v w =
    let up = map_upper base in
    let up_ext = map_upper ext in
    let whole = text-NoZero (upper_name base ext) (
      append-NoZero up (suffix up_ext) (map_upper-NoZero base v)
        (suffix-NoZero up_ext (map_upper-NoZero ext w))) in
    ap (take 12) whole
    ∙ take-all 12 (upper_name base ext) (
        omega (
          arith,
          length-append up (suffix up_ext),
          length-suffix up_ext,
          length-map_upper base,
          length-map_upper ext,
        ))

-- The first byte of what is written is the first of the name, in upper case.
written-first :
    (c : ℕ) (base ext out : List ℕ)
    → c ≢ 46
    → fat_format_name (some ((c ∷ base) ++ suffix ext)) ≡ some out
    → byte_at out 0 ≡ to_upper c
unfolding fat_format_name copy_base
written-first c base ext out dot e =
    let made = some-inj (rw (ne→== c 46 dot) at e) in ap (λ (t : List ℕ). byte_at t 0) (sym made)

first-append : (s t : List ℕ) → 0 < length s → byte_at (s ++ t) 0 ≡ byte_at s 0
first-append [] t h = absurd (omega arith)
first-append (c ∷ s) t h = refl

module _ (n : ℕ) (sector : List ℕ) (files : List FileInfo) where
  parse-listed :
      (byte_at sector 0 == 0) ≡ false
      → is_skipped sector ≡ false
      → fat_parse_root_dir (suc n) sector files
        ≡ fat_parse_root_dir n (drop 32 sector) (
            fat_add_file files
              (entry_name sector)
              (word32_at sector 28)
              (word16_at sector 20 * 2 ^ 16 + word16_at sector 26))
  unfolding fat_parse_root_dir
  parse-listed p q = rw (p, q, fat_parse_root_dir) refl

bit3-attributes : (attr : ℕ) → bit attr 3 ≡ 0 → (attr == 0x0F) ≡ false
unfolding bit
bit3-attributes attr h = ne→== attr 0x0F (λ (e : attr ≡ 0x0F).
    absurd (let one : bit 0x0F 3 ≡ 0 = subst (λ (a : ℕ). bit a 3 ≡ 0) e h in omega (arith, one)))

-- For a base of 1 to 8 bytes without dot, space and 0 that does not begin with the mark of a
-- deleted entry, and an extension of at most 3 bytes without space and 0, `fat_format_name` of the
-- two with a dot between them (no dot if there is no extension) gives 11 bytes; and
-- `fat_parse_root_dir`, at an entry that begins with them, whose attributes have neither the
-- volume bit nor the mark of a long name, and with room in the cache, adds a file under the same
-- name in upper case, with the entry's size and first cluster, and goes on with the next entry.
pub fat_parse_root_dir-fat_format_name :
    (base ext rest : List ℕ) (n attr : ℕ) (files : List FileInfo)
    → 0 < length base
    → length base ≤ 8
    → NoDot base
    → NoSpace base
    → NoZero base
    → byte_at base 0 ≢ 0xE5
    → length ext ≤ 3
    → NoSpace ext
    → NoZero ext
    → bit attr 3 ≡ 0
    → length files < 32
    → (out : List ℕ) × (fat_format_name (some (base ++ suffix ext)) ≡ some out)
      × (length out ≡ 11)
      × (let ent = out ++ attr ∷ rest in
          fat_parse_root_dir (suc n) ent files
          ≡ fat_parse_root_dir n (drop 32 ent) (
              files
              ++ record {
                name = upper_name base ext;
                size = word32_at ent 28;
                first_cluster = word16_at ent 20 * 2 ^ 16 + word16_at ent 26;
              }
                ∷ []))
unfolding fat_add_file
fat_parse_root_dir-fat_format_name [] ext rest n attr files some_base h d v z live k w y a room =
    absurd (omega arith)
fat_parse_root_dir-fat_format_name (c ∷ base) ext rest n attr files some_base h d v z live k w y a
      room =
    let (out, made, size, shown) = written_name (c ∷ base) ext (attr ∷ rest) some_base h d v k w in
    let ent = out ++ attr ∷ rest in
    let first : byte_at ent 0 ≡ to_upper c =
      first-append out (attr ∷ rest) (omega (arith, size))
      ∙ written-first c base ext out d.0 made in
    let attributes : byte_at ent 11 ≡ attr = byte_at-append out (attr ∷ rest) 11 size in
    let in_use : (byte_at ent 0 == 0) ≡ false =
      rw first (ne→== (to_upper c) 0 (to_upper-ne c 0 (inl (omega arith)) z.0)) in
    let not_deleted : (to_upper c == 0xE5) ≡ false =
      ne→== (to_upper c) 0xE5 (to_upper-ne c 0xE5 (inr (omega arith)) live) in
    let shown_file : is_skipped ent ≡ false =
      rw (first, attributes, not_deleted, bit3-attributes attr a, a) refl in
    let fits : leb 32 (length files) ≡ false = ground arith in
    let whole : take 12 (text (entry_name ent)) ≡ upper_name (c ∷ base) ext =
      ap (λ (s : List ℕ). take 12 (text s)) shown ∙ upper_name-whole (c ∷ base) ext h k z y in
    (out, made, size, parse-listed n ent files in_use shown_file ∙ rw (fits, whole) refl)
