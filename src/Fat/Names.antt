-- ===== src/Fat/Names.antt =====
-- Names in 8.3 form: what `fat_format_name` writes into an entry, `entry_name` reads back.
use learning_os_project.Common.{
  ℕ, zero, suc, ◌+◌, ◌-◌, ◌≤◌, ◌<◌, ◌≡◌, ◌≢◌, refl, ap, ap₂, ◌∙◌, some, List, [], ◌∷◌, ◌++◌,
  append_assoc, ◌==◌, if◌then◌else◌, length, length-append, length-replicate, take-all, drop,
  replicate, arith, ne→==,
}
use learning_os_project.Common.Bytes.{byte_at}
use learning_os_project.Fat.Directory.{
  to_upper, map_upper, copy_base, skip_dot, padded, until_space, entry_name, fat_format_name,
}

-- A name without spaces; `dots` says that dots are allowed too.
abbrev pub NoSpace : List ℕ → Type 0
NoSpace [] = Unit {0}
NoSpace (c ∷ s) = (c ≢ 32) × NoSpace s

abbrev pub NoDot : List ℕ → Type 0
NoDot [] = Unit {0}
NoDot (c ∷ s) = (c ≢ 46) × NoDot s

-- The extension behind its dot; no dot where there is none.
abbrev pub suffix : List ℕ → List ℕ
suffix [] = []
suffix (c ∷ ext) = 46 ∷ c ∷ ext

pub length-map_upper : (s : List ℕ) → length (map_upper s) ≡ length s
length-map_upper [] = refl
length-map_upper (c ∷ s) = ap suc (length-map_upper s)

to_upper-space : (c : ℕ) → c ≢ 32 → to_upper c ≢ 32
to_upper-space c h = ground arith

map_upper-NoSpace : (s : List ℕ) → NoSpace s → NoSpace (map_upper s)
map_upper-NoSpace [] h = tt
map_upper-NoSpace (c ∷ s) h = (to_upper-space c h.0, map_upper-NoSpace s h.1)

copy_base-suffix :
    (base ext : List ℕ) (n : ℕ)
    → NoDot base
    → length base ≤ n
    → copy_base n (base ++ suffix ext) ≡ (map_upper base, suffix ext)
unfolding copy_base
copy_base-suffix [] [] zero d h = refl
copy_base-suffix [] [] (suc n) d h = refl
copy_base-suffix [] (c ∷ ext) zero d h = refl
copy_base-suffix [] (c ∷ ext) (suc n) d h = refl
copy_base-suffix (c ∷ base) ext zero d h = absurd (omega arith)
copy_base-suffix (c ∷ base) ext (suc n) d h =
    rw (ne→== c 46 d.0, copy_base-suffix base ext n d.1 (omega arith)) refl

skip_dot-suffix : (ext : List ℕ) → skip_dot (suffix ext) ≡ ext
skip_dot-suffix [] = refl
skip_dot-suffix (c ∷ ext) = refl

length-padded : (n : ℕ) (s : List ℕ) → length s ≤ n → length (padded n s) ≡ n
length-padded n s h = omega (
  arith,
  length-append s (replicate (n - length s) 32),
  length-replicate {A = ℕ} (n - length s) 32,
)

until_space-spaces : (n m : ℕ) (rest : List ℕ) → n ≤ m → until_space n (replicate m 32 ++ rest) ≡ []
unfolding until_space
until_space-spaces zero m rest h = refl
until_space-spaces (suc n) zero rest h = absurd (omega arith)
until_space-spaces (suc n) (suc m) rest h = refl

until_space-padded :
    (n : ℕ) (s rest : List ℕ)
    → NoSpace s
    → length s ≤ n
    → until_space n (s ++ (replicate (n - length s) 32 ++ rest)) ≡ s
unfolding until_space
until_space-padded n [] rest v h = until_space-spaces n (n - 0) rest (omega arith)
until_space-padded zero (c ∷ s) rest v h = absurd (omega arith)
until_space-padded (suc n) (c ∷ s) rest v h =
    let less : suc n - suc (length s) ≡ n - length s = omega arith in
    rw (less, ne→== c 32 v.0)
      (ap (λ (t : List ℕ). c ∷ t) (until_space-padded n s rest v.1 (omega arith)))

drop-append : (s rest : List ℕ) (n : ℕ) → length s ≡ n → drop n (s ++ rest) ≡ rest
drop-append [] rest zero e = refl
drop-append [] rest (suc n) e = absurd (omega arith)
drop-append (c ∷ s) rest zero e = absurd (omega arith)
drop-append (c ∷ s) rest (suc n) e = drop-append s rest n (omega arith)

pub byte_at-append :
    (s rest : List ℕ) (n : ℕ) → length s ≡ n → byte_at (s ++ rest) n ≡ byte_at rest 0
byte_at-append [] rest zero e = refl
byte_at-append [] rest (suc n) e = absurd (omega arith)
byte_at-append (c ∷ s) rest zero e = absurd (omega arith)
byte_at-append (c ∷ s) rest (suc n) e = byte_at-append s rest n (omega arith)

-- The part behind the base: no dot for an extension of spaces.
extension_shown :
    (ext rest : List ℕ)
    → NoSpace ext
    → length ext ≤ 3
    → (if byte_at (padded 3 ext ++ rest) 0 == 32
        then []
        else 46 ∷ until_space 3 (padded 3 ext ++ rest))
      ≡ suffix ext
extension_shown [] rest v h = refl
extension_shown (c ∷ ext) rest v h = rw (ne→== c 32 v.0) (
    ap (λ (t : List ℕ). 46 ∷ t)
      (rw (append_assoc (c ∷ ext) (replicate (3 - length (c ∷ ext)) 32) rest)
        (until_space-padded 3 (c ∷ ext) rest v h)))

entry_name-padded :
    (base ext rest : List ℕ)
    → NoSpace base
    → length base ≤ 8
    → NoSpace ext
    → length ext ≤ 3
    → entry_name ((padded 8 base ++ padded 3 ext) ++ rest) ≡ base ++ suffix ext
unfolding entry_name
entry_name-padded base ext rest v h w k =
    let whole = append_assoc (padded 8 base) (padded 3 ext) rest in
    let tail = padded 3 ext ++ rest in
    let behind = drop-append (padded 8 base) tail 8 (length-padded 8 base h) in
    let ninth = byte_at-append (padded 8 base) tail 8 (length-padded 8 base h) in
    let front = append_assoc base (replicate (8 - length base) 32) tail in
    let left : until_space 8 (padded 8 base ++ tail) ≡ base =
      rw front (until_space-padded 8 base tail v h) in
    let right : (if byte_at (padded 8 base ++ tail) 8 == 32
          then []
          else 46 ∷ until_space 3 (drop 8 (padded 8 base ++ tail)))
        ≡ suffix ext =
      rw (ninth, behind) (extension_shown ext rest w k) in
    rw whole (ap₂ ◌++◌ left right)

-- The 11 bytes written, and the name read from them.
pub written_name :
    (base ext rest : List ℕ)
    → 0 < length base
    → length base ≤ 8
    → NoDot base
    → NoSpace base
    → length ext ≤ 3
    → NoSpace ext
    → (out : List ℕ) × (fat_format_name (some (base ++ suffix ext)) ≡ some out)
      × (length out ≡ 11)
      × (entry_name (out ++ rest) ≡ map_upper base ++ suffix (map_upper ext))
unfolding fat_format_name
written_name [] ext rest some_base h d v k w = absurd (omega arith)
written_name (c ∷ base) ext rest some_base h d v k w =
    let up = map_upper (c ∷ base) in
    let up_ext = map_upper ext in
    let low = length-map_upper (c ∷ base) in
    let low_ext = length-map_upper ext in
    let split = copy_base-suffix (c ∷ base) ext 8 d h in
    let left = skip_dot-suffix ext in
    let whole = take-all 3 ext k in
    let out = padded 8 up ++ padded 3 up_ext in
    let size : length out ≡ 11 =
      length-append (padded 8 up) (padded 3 up_ext)
      ∙ ap₂ ◌+◌ (length-padded 8 up (omega (arith, low)))
          (length-padded 3 up_ext (omega (arith, low_ext))) in
    (
      out,
      rw (split, left, whole) refl,
      size,
      entry_name-padded up up_ext rest (map_upper-NoSpace (c ∷ base) v) (omega (arith, low))
          (map_upper-NoSpace ext w) (omega (arith, low_ext)),
    )
