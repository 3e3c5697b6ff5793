-- ===== src/Shell/Parse.antt =====
-- `parse_line` of src/user/shell.c. The line is the list of its bytes before the 0; an argument is
-- what its pointer leads to once the code has put a 0 behind it.
use learning_os_project.Common.{
  ℕ, zero, suc, Bool, true, false, ◌||◌, List, [], ◌∷◌, ◌==◌, if◌then◌else◌,
}

abbrev pub is_blank : ℕ → Bool
is_blank c = (c == 32) || (c == 9)

unfoldable pub ltrim : List ℕ → List ℕ
ltrim [] = []
ltrim (c ∷ s) = if is_blank c then ltrim s else c ∷ s

abbrev pub is_trailing : ℕ → Bool
is_trailing c = (c == 32) || (c == 9) || (c == 13) || (c == 10)

-- A byte stays if it is no blank or something stays behind it.
abbrev pub keep_front : ℕ → List ℕ → List ℕ
keep_front c [] = if is_trailing c then [] else c ∷ []
keep_front c (d ∷ s) = c ∷ d ∷ s

unfoldable pub rtrim : List ℕ → List ℕ
rtrim [] = []
rtrim (c ∷ s) = keep_front c (rtrim s)

-- `while (*p && *p != '"') p++`, and past the closing quote: the bytes passed, and those left.
unfoldable pub until_quote : List ℕ → List ℕ × List ℕ
until_quote [] = ([], [])
until_quote (c ∷ p) =
    if c == 34 then ([], p) else (let (arg, rest) = until_quote p in (c ∷ arg, rest))

-- `while (*p && *p != ' ' && *p != '\t') p++`
unfoldable pub until_blank : List ℕ → List ℕ × List ℕ
until_blank [] = ([], [])
until_blank (c ∷ p) =
    if is_blank c then ([], c ∷ p) else (let (arg, rest) = until_blank p in (c ∷ arg, rest))

-- The loop, with room for `n` more arguments.
unfoldable pub parse_args : ℕ → List ℕ → List (List ℕ)
unfolding until_quote until_blank ltrim
parse_args zero p = []
parse_args (suc n) [] = []
parse_args (suc n) (c ∷ p) = elim (c == 34) [
  | true ↦ let (arg, rest) = until_quote p in arg ∷ parse_args n (ltrim rest)
  | false ↦ let (arg, rest) = until_blank (c ∷ p) in arg ∷ parse_args n (ltrim rest)
]

unfoldable pub parse_line : List ℕ → ℕ → List (List ℕ)
unfolding parse_args ltrim rtrim
parse_line line max_args = parse_args max_args (rtrim (ltrim line))
