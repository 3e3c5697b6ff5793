-- ===== src/Kprintf/Digits.antt =====
-- The digits that kprintf.c prints are those of the number.
use native.Mathlib.Nat.{pow-zero, pow-suc, div-add-mod, div-lt_iff_lt-mul, div-le_self}
use learning_os_project.Common.{
  ℕ, zero, suc, ◌+◌, ◌-◌, ◌*◌, ◌/◌, ◌%◌, ◌^◌, ◌≤◌, ◌<◌, ◌≡◌, refl, ap, ◌∙◌, sym, inl, inr, Bool,
  true, false, arith, leb, ◌&&◌, ◌||◌, ◌==◌, ==_iff, if◌then◌else◌, Bool-cases, List, [], ◌∷◌, ◌++◌,
  length, get_or, length-append, replicate,
}
use learning_os_project.Common.Table.{holds_below, holds_below-at}
use learning_os_project.Kprintf.{lower_digits, upper_digits, fill, backwards, print_uint_base}
use learning_os_project.Kprintf.Divmod.{u64_divmod_lem}

-- The value of a digit.
unfoldable pub digit_of : ℕ → ℕ
digit_of c = if leb 97 c then c - 87 else if leb 65 c then c - 55 else c - 48

-- A character that stands for a digit: `0` to `9`, and `A` to `F` or `a` to `f`.
abbrev pub is_digit : Bool → ℕ → Bool
is_digit upper c =
    (leb 48 c && leb c 57) || (if upper then leb 65 c && leb c 70 else leb 97 c && leb c 102)

abbrev pub AllDigits : Bool → List ℕ → Type 0
AllDigits upper [] = Unit {0}
AllDigits upper (c ∷ s) = (is_digit upper c ≡ true) × AllDigits upper s

-- The value of a numeral, highest digit first, behind what `acc` holds.
unfoldable pub decode : ℕ → ℕ → List ℕ → ℕ
decode base acc [] = acc
decode base acc (c ∷ s) = decode base (acc * base + digit_of c) s

lowest_first : ℕ → List ℕ → ℕ
lowest_first base [] = 0
lowest_first base (c ∷ s) = digit_of c + base * lowest_first base s

abbrev digits_of : Bool → List ℕ
digits_of upper = if upper then upper_digits else lower_digits

lower_table : holds_below (λ d. digit_of (get_or lower_digits d 0) == d) 16 ≡ true
unfolding holds_below digit_of
lower_table = refl

upper_table : holds_below (λ d. digit_of (get_or upper_digits d 0) == d) 16 ≡ true
unfolding holds_below digit_of
upper_table = refl

digit_of-digits : (upper : Bool) (d : ℕ) → d < 16 → digit_of (get_or (digits_of upper) d 0) ≡ d
digit_of-digits false d h = (==_iff _ _).0 (holds_below-at _ 16 lower_table d h)
digit_of-digits true d h = (==_iff _ _).0 (holds_below-at _ 16 upper_table d h)

lower_digits_there : holds_below (λ d. is_digit false (get_or lower_digits d 0)) 16 ≡ true
unfolding holds_below
lower_digits_there = refl

upper_digits_there : holds_below (λ d. is_digit true (get_or upper_digits d 0)) 16 ≡ true
unfolding holds_below
upper_digits_there = refl

digits_of-is_digit :
    (upper : Bool) (d : ℕ) → d < 16 → is_digit upper (get_or (digits_of upper) d 0) ≡ true
digits_of-is_digit false d h = holds_below-at _ 16 lower_digits_there d h
digits_of-is_digit true d h = holds_below-at _ 16 upper_digits_there d h

fill-AllDigits :
    (places : ℕ) (upper : Bool) (value base : ℕ)
    → 2 ≤ base
    → base ≤ 16
    → value < 2 ^ 64
    → AllDigits upper (fill places (digits_of upper) value base)
unfolding fill
fill-AllDigits zero upper value base h k small = tt
fill-AllDigits (suc places) upper value base h k small = elim (Bool-cases (value == 0)) [
  | inl e ↦ rw (e, fill) tt
  | inr e ↦
      rw (e, fill, u64_divmod_lem value base small (omega arith) (omega arith))
        (
          digits_of-is_digit upper (value % base) (omega arith),
          fill-AllDigits places upper (value / base) base h k
              (omega (arith, div-le_self value base)),
        )
]

AllDigits-append :
    (upper : Bool) (s t : List ℕ) → AllDigits upper s → AllDigits upper t → AllDigits upper (s ++ t)
AllDigits-append upper [] t v w = w
AllDigits-append upper (c ∷ s) t v w = (v.0, AllDigits-append upper s t v.1 w)

AllDigits-backwards :
    (upper : Bool) (s : List ℕ) → AllDigits upper s → AllDigits upper (backwards s)
AllDigits-backwards upper [] v = tt
AllDigits-backwards upper (c ∷ s) v =
    AllDigits-append upper (backwards s) (c ∷ []) (AllDigits-backwards upper s v.1) (v.0, tt)

fill_lem :
    (places : ℕ) (upper : Bool) (value base : ℕ)
    → 2 ≤ base
    → base ≤ 16
    → value < 2 ^ 64
    → value < base ^ places
    → lowest_first base (fill places (digits_of upper) value base) ≡ value
unfolding fill lowest_first
fill_lem zero upper value base h k small room = omega (arith, pow-zero base)
fill_lem (suc places) upper value base h k small room = elim (Bool-cases (value == 0)) [
  | inl e ↦ rw (e, fill) (sym ((==_iff _ _).0 e))
  | inr e ↦
      let ih =
        fill_lem places upper (value / base) base h k (omega (arith, div-le_self value base))
          ((div-lt_iff_lt-mul (omega arith)).1 (omega (arith, pow-suc base places))) in
      rw
        (
          e,
          fill,
          u64_divmod_lem value base small (omega arith) (omega arith),
          digit_of-digits upper (value % base) (omega arith),
          ih,
        )
        (omega (arith, div-add-mod value base))
]

length-fill :
    (places : ℕ) (digits : List ℕ) (value base : ℕ)
    → (value == 0) ≡ false
    → 1 ≤ length (fill (suc places) digits value base)
unfolding fill
length-fill places digits value base e = rw (e, fill) (omega arith)

decode-snoc :
    (base acc c : ℕ) (s : List ℕ)
    → decode base acc (s ++ c ∷ []) ≡ decode base acc s * base + digit_of c
unfolding decode
decode-snoc base acc c [] = refl
decode-snoc base acc c (x ∷ s) = decode-snoc base (acc * base + digit_of x) c s

decode-backwards : (base : ℕ) (s : List ℕ) → decode base 0 (backwards s) ≡ lowest_first base s
unfolding decode lowest_first
decode-backwards base [] = refl
decode-backwards base (c ∷ s) =
    omega (
      arith,
      decode-snoc base 0 c (backwards s),
      ap (λ (t : ℕ). t * base) (decode-backwards base s),
    )

length-backwards : (s : List ℕ) → length (backwards s) ≡ length s
length-backwards [] = refl
length-backwards (c ∷ s) = omega (arith, length-append (backwards s) (c ∷ []), length-backwards s)

-- What is printed is padding up to the width, then the numeral of the value.
pub record Printed (value base width pad : ℕ) (upper : Bool) (out : List ℕ) : Type 0 where
  pub numeral : List ℕ
  pub out_eq : out ≡ replicate (width - length numeral) pad ++ numeral
  pub some_digit : 1 ≤ length numeral
  pub digits : AllDigits upper numeral
  pub decodes : decode base 0 numeral ≡ value

-- For a base from 2 to 16 and a 64-bit value that has at most 32 digits in it,
-- `print_uint_base` puts padding up to the width and then at least one character, each of them
-- `0` to `9` or a letter from `a` to `f` (from `A` to `F` for upper case), and these digits read in
-- that base are the value.
pub print_uint_base-Printed :
    (value base width pad : ℕ) (upper : Bool)
    → 2 ≤ base
    → base ≤ 16
    → value < 2 ^ 64
    → value < base ^ 32
    → Printed value base width pad upper (print_uint_base value base width pad upper)
unfolding print_uint_base decode digit_of
print_uint_base-Printed value base width pad upper h k small room =
    let ds = digits_of upper in
    elim (Bool-cases (value == 0)) [
      | inl e ↦ rw e (record {
        numeral = 48 ∷ [];
        out_eq = refl;
        some_digit = omega arith;
        digits = (ground arith, tt);
        decodes = omega (arith, (==_iff value 0).0 e);
      })
      | inr e ↦ rw e (record {
        numeral = backwards (fill 32 ds value base);
        out_eq = rw length-backwards;
        some_digit = rw length-backwards (length-fill 31 ds value base e);
        digits =
            AllDigits-backwards upper (fill 32 ds value base)
              (fill-AllDigits 32 upper value base h k small);
        decodes =
            decode-backwards base (fill 32 ds value base)
            ∙ fill_lem 32 upper value base h k small room;
      })
    ]
