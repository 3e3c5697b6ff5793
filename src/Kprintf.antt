-- ===== src/Kprintf.antt =====
-- src/lib/kprintf.c. What goes to the monitor is a list of characters, in order.
pub mod Divmod
pub mod Digits
pub mod Format
use learning_os_project.Common.{
  ℕ, zero, suc, ◌+◌, ◌-◌, ◌*◌, ◌/◌, ◌%◌, ◌^◌, Bool, true, false, ◌&&◌, List, [], ◌∷◌, ◌++◌, bit_or,
  ltb, leb, ◌==◌, if◌then◌else◌, length, replicate, get_or,
}
use learning_os_project.Common.Int.{ℤ, pos, negsuc}

-- `denom << 1` in 64 bits.
abbrev pub double64 : ℕ → ℕ
double64 d = d * 2 % 2 ^ 64

-- `while ((denom << 1) > denom && (denom << 1) <= n)`: the last `denom` and `current`.
unfoldable pub scale_up : ℕ → ℕ → ℕ → ℕ → ℕ × ℕ
scale_up zero n denom current = (denom, current)
scale_up (suc fuel) n denom current = elim (ltb denom (double64 denom) && leb (double64 denom) n) [
  | true ↦ scale_up fuel n (double64 denom) (double64 current)
  | false ↦ (denom, current)
]

-- `while (current != 0)`: the quotient and the rest.
unfoldable pub scale_down : ℕ → ℕ → ℕ → ℕ → ℕ → ℕ × ℕ
scale_down zero n denom current quotient = (quotient, n)
scale_down (suc fuel) n denom current quotient = elim (current == 0) [
  | true ↦ (quotient, n)
  | false ↦ elim (leb denom n) [
    | true ↦ scale_down fuel (n - denom) (denom / 2) (current / 2) (bit_or quotient current)
    | false ↦ scale_down fuel n (denom / 2) (current / 2) quotient
  ]
]

-- The quotient and `*rem`. Each loop runs at most 64 rounds, as `current` has one bit in 64.
unfoldable pub u64_divmod : ℕ → ℕ → ℕ × ℕ
u64_divmod n base =
    if base == 0
    then (0, 0)
    else let (denom, current) = scale_up 64 n base 1 in
      let (quotient, rest) = scale_down 65 n denom current 0 in (quotient, rest % 2 ^ 32)

abbrev pub lower_digits : List ℕ
lower_digits = 48 ∷ 49 ∷ 50 ∷ 51 ∷ 52 ∷ 53 ∷ 54 ∷ 55 ∷ 56 ∷ 57 ∷ 97 ∷ 98 ∷ 99 ∷ 100 ∷ 101 ∷ 102 ∷ []

abbrev pub upper_digits : List ℕ
upper_digits = 48 ∷ 49 ∷ 50 ∷ 51 ∷ 52 ∷ 53 ∷ 54 ∷ 55 ∷ 56 ∷ 57 ∷ 65 ∷ 66 ∷ 67 ∷ 68 ∷ 69 ∷ 70 ∷ []

-- `while (value > 0 && i < sizeof(buf))`: the digits, lowest first; the count is of the places left
-- in `buf`.
unfoldable pub fill : ℕ → List ℕ → ℕ → ℕ → List ℕ
fill zero digits value base = []
fill (suc places) digits value base = elim (value == 0) [
  | true ↦ []
  | false ↦
      let (rest, digit) = u64_divmod value base in
      get_or digits digit 0 ∷ fill places digits rest base
]

-- `while (i--) monitor_put(buf[i])`
abbrev pub backwards : List ℕ → List ℕ
backwards [] = []
backwards (c ∷ s) = backwards s ++ c ∷ []

-- `put_padding` takes the count as an int; at 0 or less it puts nothing.
unfoldable pub put_padding : ℕ → ℕ → List ℕ
put_padding count pad = replicate count pad

unfoldable pub print_uint_base : ℕ → ℕ → ℕ → ℕ → Bool → List ℕ
unfolding fill put_padding
print_uint_base value base width pad uppercase =
    let digits = if uppercase then upper_digits else lower_digits in
    let buf = if value == 0 then 48 ∷ [] else fill 32 digits value base in
    put_padding (width - length buf) pad ++ backwards buf

-- A negative value puts its sign first, and the sign takes one place of the width.
unfoldable pub print_int_decimal : ℤ → ℕ → ℕ → List ℕ
unfolding print_uint_base
print_int_decimal (pos n) width pad = print_uint_base n 10 width pad false
print_int_decimal (negsuc n) width pad = 45 ∷ print_uint_base (n + 1) 10 (width - 1) pad false
