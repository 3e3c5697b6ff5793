-- ===== src/Keyboard/Layout.antt =====
-- The characters of a US keyboard, by scan code, against the tables of src/drivers/keyboard.c.
use learning_os_project.Common.{
  ℕ, zero, suc, ◌+◌, ◌≤◌, ◌<◌, ◌≡◌, refl, Bool, true, false, not, ◌&&◌, ◌||◌, List, [], ◌∷◌, ◌==◌,
  ==_iff, if◌then◌else◌, get_or, length, dec_lt, arith,
}
use learning_os_project.Common.Table.{holds_below, holds_below-at}
use learning_os_project.Keyboard.{kbdus, kbdus_shift, key_char}

-- The keys of the letters, in the order of the alphabet.
abbrev pub letter_keys : List ℕ
letter_keys =
    30 ∷ 48 ∷ 46 ∷ 32 ∷ 18 ∷ 33 ∷ 34 ∷ 35 ∷ 23 ∷ 36 ∷ 37 ∷ 38 ∷ 50 ∷ 49 ∷ 24 ∷ 25 ∷ 16 ∷ 19 ∷ 31
    ∷ 20 ∷ 22 ∷ 47 ∷ 17 ∷ 45 ∷ 21 ∷ 44 ∷ []

-- The other keys that give a character: escape, the digits from 1 on, minus and equals, backspace,
-- tab, brackets, return, semicolon, quotes, backslash, comma, point, slash, the star and space.
abbrev pub symbol_keys : List ℕ
symbol_keys =
    1 ∷ 2 ∷ 3 ∷ 4 ∷ 5 ∷ 6 ∷ 7 ∷ 8 ∷ 9 ∷ 10 ∷ 11 ∷ 12 ∷ 13 ∷ 14 ∷ 15 ∷ 26 ∷ 27 ∷ 28 ∷ 39 ∷ 40 ∷ 41
    ∷ 43 ∷ 51 ∷ 52 ∷ 53 ∷ 55 ∷ 57 ∷ []

abbrev pub plain_symbols : List ℕ
plain_symbols =
    27 ∷ 49 ∷ 50 ∷ 51 ∷ 52 ∷ 53 ∷ 54 ∷ 55 ∷ 56 ∷ 57 ∷ 48 ∷ 45 ∷ 61 ∷ 8 ∷ 9 ∷ 91 ∷ 93 ∷ 10 ∷ 59 ∷ 39
    ∷ 96 ∷ 92 ∷ 44 ∷ 46 ∷ 47 ∷ 42 ∷ 32 ∷ []

abbrev pub shifted_symbols : List ℕ
shifted_symbols =
    27 ∷ 33 ∷ 64 ∷ 35 ∷ 36 ∷ 37 ∷ 94 ∷ 38 ∷ 42 ∷ 40 ∷ 41 ∷ 95 ∷ 43 ∷ 8 ∷ 9 ∷ 123 ∷ 125 ∷ 10 ∷ 58
    ∷ 34 ∷ 126 ∷ 124 ∷ 60 ∷ 62 ∷ 63 ∷ 42 ∷ 32 ∷ []

unfoldable pub has : List ℕ → ℕ → Bool
has [] key = false
has (k ∷ keys) key = (k == key) || has keys key

-- One of the two, not both.
abbrev pub one_of : Bool → Bool → Bool
one_of a b = (a && not b) || (b && not a)

abbrev letter : Bool → Bool → ℕ → ℕ
letter shift caps i = if one_of shift caps then 65 + i else 97 + i

abbrev symbol : Bool → ℕ → ℕ
symbol shift i = get_or (if shift then shifted_symbols else plain_symbols) i 0

letter_table :
    (shift caps : Bool)
    → holds_below (λ i. key_char shift caps (get_or letter_keys i 0) == letter shift caps i) 26
      ≡ true
unfolding holds_below key_char
letter_table false false = refl
letter_table false true = refl
letter_table true false = refl
letter_table true true = refl

symbol_table :
    (shift caps : Bool)
    → holds_below (λ i. key_char shift caps (get_or symbol_keys i 0) == symbol shift i) 27 ≡ true
unfolding holds_below key_char
symbol_table false false = refl
symbol_table false true = refl
symbol_table true false = refl
symbol_table true true = refl

-- A key in one of the lists, or without a character.
abbrev listed : Bool → Bool → ℕ → Bool
listed shift caps key = has letter_keys key || has symbol_keys key || (key_char shift caps key == 0)

listed_table : (shift caps : Bool) → holds_below (listed shift caps) 58 ≡ true
unfolding holds_below key_char has
listed_table false false = refl
listed_table false true = refl
listed_table true false = refl
listed_table true true = refl

get_or-beyond : (xs : List ℕ) (i : ℕ) → length xs ≤ i → get_or xs i 0 ≡ 0
get_or-beyond [] i h = refl
get_or-beyond (x ∷ xs) zero h = absurd (omega arith)
get_or-beyond (x ∷ xs) (suc i) h = get_or-beyond xs i (omega arith)

-- The tables end before key 58.
key_char-beyond : (shift caps : Bool) (key : ℕ) → 58 ≤ key → key_char shift caps key ≡ 0
unfolding key_char
key_char-beyond false caps key h = rw (get_or-beyond kbdus key h) refl
key_char-beyond true caps key h = rw (get_or-beyond kbdus_shift key h) refl

-- Whatever shift and caps lock are: the key of the i-th letter of the alphabet gives the capital
-- if exactly one of the two holds, else the small letter; each of the 27 other keys of the layout
-- gives its upper sign under shift and its lower sign without, caps lock or not; every other
-- key gives no character.
pub key_char-layout :
    (shift caps : Bool)
    → ((i : ℕ)
        → i < 26
        → key_char shift caps (get_or letter_keys i 0)
          ≡ (if one_of shift caps then 65 + i else 97 + i))
      × ((i : ℕ)
          → i < 27
          → key_char shift caps (get_or symbol_keys i 0)
            ≡ get_or (if shift then shifted_symbols else plain_symbols) i 0)
      × ((key : ℕ)
          → has letter_keys key ≡ false
          → has symbol_keys key ≡ false
          → key_char shift caps key ≡ 0)
key_char-layout shift caps = (
  λ i h. (==_iff _ _).0 (holds_below-at _ 26 (letter_table shift caps) i h),
  λ i h. (==_iff _ _).0 (holds_below-at _ 27 (symbol_table shift caps) i h),
  λ key no_letter no_symbol. elim (dec_lt key 58) [
    | yes h ↦
        let there = holds_below-at (listed shift caps) 58 (listed_table shift caps) key h in
        (==_iff _ _).0 (rw (no_letter, no_symbol) at there)
    | no h ↦ key_char-beyond shift caps key (omega arith)
  ],
)
