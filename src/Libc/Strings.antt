-- ===== src/Libc/Strings.antt =====
-- What the comparisons of libc.c decide.
use learning_os_project.Common.{
  ℕ, zero, suc, ◌≤◌, ◌≡◌, refl, ap, ◌↔◌, Bool, true, false, some, List, [], ◌∷◌, ◌++◌, arith, ◌==◌,
  if◌then◌else◌, ltb, length, take, drop,
}
use learning_os_project.Common.Int.{pos, is_neg}
use learning_os_project.Libc.{memcpy, memcmp, strlen, strcmp, strncmp}

-- The text that a string holds: its bytes before the first 0.
abbrev pub text : List ℕ → List ℕ
text [] = []
text (c ∷ s) = if c == 0 then [] else c ∷ text s

pub head_or_zero : List ℕ → ℕ
head_or_zero [] = 0
head_or_zero (c ∷ s) = c

-- Texts in the order of a dictionary, byte by byte.
unfoldable pub before : List ℕ → List ℕ → Bool
before [] [] = false
before [] (y ∷ b) = true
before (x ∷ a) [] = false
before (x ∷ a) (y ∷ b) = if x == y then before a b else ltb x y

-- `strlen` counts the bytes of the text.
pub strlen-text : (s : List ℕ) → strlen (some s) ≡ length (text s)
unfolding strlen
strlen-text [] = refl
strlen-text (c ∷ s) = ground (arith, strlen-text s)

cons-inj : {x y : ℕ} {a b : List ℕ} → x ∷ a ≡ y ∷ b → (x ≡ y) × (a ≡ b)
cons-inj e = (cc, cc)

-- `strcmp` of two strings is 0 exactly if their texts are equal.
pub strcmp_iff : (a b : List ℕ) → (strcmp (some a) (some b) ≡ pos 0) ↔ (text a ≡ text b)
unfolding strcmp
strcmp_iff [] [] = (λ e. refl, λ e. refl)
strcmp_iff [] (y ∷ b) = ground arith
strcmp_iff (x ∷ a) [] = ground arith
strcmp_iff (x ∷ a) (y ∷ b) = ground (arith, strcmp_iff a b)

-- `strcmp` of two strings is negative exactly if the first text comes before the second in the
-- order of a dictionary.
strcmp-before : (a b : List ℕ) → is_neg (strcmp (some a) (some b)) ≡ before (text a) (text b)
unfolding strcmp before
strcmp-before [] [] = refl
strcmp-before [] (y ∷ b) = ground arith
strcmp-before (x ∷ a) [] = ground arith
strcmp-before (x ∷ a) (y ∷ b) = ground (arith, strcmp-before a b)

-- `strncmp` with a count of `n` is 0 exactly if the first `n` bytes of the texts are equal.
strncmp_iff :
    (a b : List ℕ) (n : ℕ)
    → (strncmp (some a) (some b) n ≡ pos 0) ↔ (take n (text a) ≡ take n (text b))
unfolding strncmp
strncmp_iff a b zero = (λ e. refl, λ e. refl)
strncmp_iff [] [] (suc n) = (λ e. refl, λ e. refl)
strncmp_iff [] (y ∷ b) (suc n) = ground arith
strncmp_iff (x ∷ a) [] (suc n) = ground arith
strncmp_iff (x ∷ a) (y ∷ b) (suc zero) = ground arith
strncmp_iff (x ∷ a) (y ∷ b) (suc (suc n)) = ground (arith, strncmp_iff a b (suc n))

-- `memcpy` within both arrays makes the first bytes those of the source and leaves the others.
memcpy-take-drop :
    (dest src : List ℕ) (n : ℕ)
    → n ≤ length dest
    → n ≤ length src
    → memcpy dest src n ≡ take n src ++ drop n dest
unfolding memcpy
memcpy-take-drop dest src zero h k = refl
memcpy-take-drop [] src (suc n) h k = absurd (omega arith)
memcpy-take-drop (x ∷ dest) [] (suc n) h k = absurd (omega arith)
memcpy-take-drop (x ∷ dest) (y ∷ src) (suc n) h k =
    ap (λ l. y ∷ l) (memcpy-take-drop dest src n (omega arith) (omega arith))

-- `memcmp` within both arrays is 0 exactly if the first `n` bytes are equal.
memcmp_iff :
    (a b : List ℕ) (n : ℕ)
    → n ≤ length a
    → n ≤ length b
    → (memcmp a b n ≡ pos 0) ↔ (take n a ≡ take n b)
unfolding memcmp
memcmp_iff a b zero h k = (λ e. refl, λ e. refl)
memcmp_iff [] b (suc n) h k = absurd (omega arith)
memcmp_iff (x ∷ a) [] (suc n) h k = absurd (omega arith)
memcmp_iff (x ∷ a) (y ∷ b) (suc n) h k = ground (arith, memcmp_iff a b n)
