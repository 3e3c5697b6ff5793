-- ===== src/Libc.antt =====
-- src/lib/libc.c: memory and string functions. Memory is a list of bytes. A string is read from the
-- bytes that its pointer leads to, up to the first 0; the end of the list reads as 0. `none` is the
-- null pointer.
pub mod Strings
use learning_os_project.Common.{
  ℕ, zero, suc, ◌+◌, ◌%◌, Bool, true, false, Option, none, some, List, [], ◌∷◌, ◌==◌, if◌then◌else◌,
}
use learning_os_project.Common.Int.{ℤ, pos, negsuc, sub_ℕ}

abbrev pub CString : Type 0
CString = Option (List ℕ)

-- The first `count` bytes become `(u8int)value`; a write past the list is not modelled.
unfoldable pub memset : List ℕ → ℕ → ℕ → List ℕ
memset dest value zero = dest
memset [] value (suc n) = []
memset (x ∷ dest) value (suc n) = (value % 256) ∷ memset dest value n

-- Bytes past the end of `src` read as 0.
unfoldable pub memcpy : List ℕ → List ℕ → ℕ → List ℕ
memcpy dest src zero = dest
memcpy [] src (suc n) = []
memcpy (x ∷ dest) [] (suc n) = 0 ∷ memcpy dest [] n
memcpy (x ∷ dest) (y ∷ src) (suc n) = y ∷ memcpy dest src n

-- The first two bytes that differ decide.
unfoldable pub memcmp : List ℕ → List ℕ → ℕ → ℤ
memcmp a b zero = pos 0
memcmp [] [] (suc n) = memcmp [] [] n
memcmp (x ∷ a) [] (suc n) = if x == 0 then memcmp a [] n else sub_ℕ x 0
memcmp [] (y ∷ b) (suc n) = if 0 == y then memcmp [] b n else sub_ℕ 0 y
memcmp (x ∷ a) (y ∷ b) (suc n) = if x == y then memcmp a b n else sub_ℕ x y

unfoldable pub strlen_from : List ℕ → ℕ
strlen_from [] = 0
strlen_from (c ∷ s) = if c == 0 then 0 else suc (strlen_from s)

unfoldable pub strlen : CString → ℕ
unfolding strlen_from
strlen none = 0
strlen (some s) = strlen_from s

-- `while (*a && *a == *b) { a++; b++; }` and the difference of the bytes where it stops.
unfoldable pub strcmp_from : List ℕ → List ℕ → ℤ
strcmp_from [] [] = pos 0
strcmp_from [] (y ∷ b) = sub_ℕ 0 y
strcmp_from (x ∷ a) [] = sub_ℕ x 0
strcmp_from (x ∷ a) (y ∷ b) =
    if x == 0 then sub_ℕ x y else if x == y then strcmp_from a b else sub_ℕ x y

-- Two equal pointers lead to the same bytes, where the loop returns 0 too.
unfoldable pub strcmp : CString → CString → ℤ
unfolding strcmp_from
strcmp none none = pos 0
strcmp none (some b) = negsuc 0
strcmp (some a) none = pos 1
strcmp (some a) (some b) = strcmp_from a b

-- The loop of `strncmp`, entered with a count that is not 0: `suc n` is the count.
unfoldable pub strncmp_from : ℕ → List ℕ → List ℕ → ℤ
strncmp_from n [] [] = pos 0
strncmp_from n [] (y ∷ b) = sub_ℕ 0 y
strncmp_from n (x ∷ a) [] = sub_ℕ x 0
strncmp_from zero (x ∷ a) (y ∷ b) = sub_ℕ x y
strncmp_from (suc n) (x ∷ a) (y ∷ b) =
    if x == 0 then sub_ℕ x y else if x == y then strncmp_from n a b else sub_ℕ x y

unfoldable pub strncmp : CString → CString → ℕ → ℤ
unfolding strncmp_from
strncmp a b zero = pos 0
strncmp none none (suc n) = pos 0
strncmp none (some b) (suc n) = negsuc 0
strncmp (some a) none (suc n) = pos 1
strncmp (some a) (some b) (suc n) = strncmp_from n a b
