-- ===== src/Kprintf/Format.antt =====
-- `kvprintf` of src/lib/kprintf.c: the interpreter of format strings. A format string is the
-- list of
-- its bytes before the 0.
use mathlib.Core.Option
use learning_os_project.Common.{
  ℕ, zero, suc, ◌+◌, ◌-◌, ◌*◌, ◌%◌, true, false, ◌&&◌, ◌||◌, Option, none, some, List, [], ◌∷◌,
  ◌++◌, leb, ◌==◌, if◌then◌else◌, length,
}
use learning_os_project.Common.Int.{signed32}
use learning_os_project.Libc.{CString, strlen}
use learning_os_project.Libc.Strings.{text}
use learning_os_project.Kprintf.{print_uint_base, print_int_decimal, put_padding}

-- The arguments: 32-bit words, 64-bit words and strings.
pub data Arg : Type 0 where
  word : ℕ → Arg
  long : ℕ → Arg
  string : CString → Arg

-- `va_arg`; `none`: no argument of that type is there.
unfoldable pub word_arg : List Arg → Option (ℕ × List Arg)
word_arg [] = none
word_arg (word v ∷ args) = some (v, args)
word_arg (long v ∷ args) = none
word_arg (string s ∷ args) = none

unfoldable pub long_arg : List Arg → Option (ℕ × List Arg)
long_arg [] = none
long_arg (word v ∷ args) = none
long_arg (long v ∷ args) = some (v, args)
long_arg (string s ∷ args) = none

unfoldable pub string_arg : List Arg → Option (CString × List Arg)
string_arg [] = none
string_arg (word v ∷ args) = none
string_arg (long v ∷ args) = none
string_arg (string s ∷ args) = some (s, args)

-- `"(null)"` stands for a null string.
abbrev pub shown : CString → List ℕ
shown none = 40 ∷ 110 ∷ 117 ∷ 108 ∷ 108 ∷ 41 ∷ []
shown (some s) = s

unfoldable pub print_string : CString → ℕ → ℕ → List ℕ
print_string s width pad = put_padding (width - strlen (some (shown s))) pad ++ text (shown s)

-- The loop over the digits of the width.
unfoldable pub read_width : List ℕ → ℕ → ℕ × List ℕ
read_width [] width = (width, [])
read_width (c ∷ fmt) width =
    if leb 48 c && leb c 57 then read_width fmt (width * 10 + (c - 48)) else (width, c ∷ fmt)

-- The `switch` at the character `c`: what is put, and the arguments left.
unfoldable pub print_conversion : ℕ → ℕ → ℕ → List Arg → Option (List ℕ × List Arg)
print_conversion c width pad args =
    if c == 99
    then Option.map (λ (v, rest). (v % 256 ∷ [], rest)) (word_arg args)
    else if c == 115
    then Option.map (λ (s, rest). (print_string s width pad, rest)) (string_arg args)
    else if c == 100
    then Option.map (λ (v, rest). (print_int_decimal (signed32 v) width pad, rest)) (word_arg args)
    else if c == 117
    then Option.map (λ (v, rest). (print_uint_base v 10 width pad false, rest)) (word_arg args)
    else if (c == 120) || (c == 88)
    then Option.map (λ (v, rest). (print_uint_base v 16 width pad true, rest)) (word_arg args)
    else if c == 112
    then Option.map
        (λ (v, rest). (
          48
              ∷ 120
              ∷ print_uint_base v 16 (if width == 0 then 8 else width)
                  (if width == 0 then 48 else pad) true,
          rest,
        ))
        (word_arg args)
    else if c == 37
    then some (37 ∷ [], args)
    else some (37 ∷ c ∷ [], args)

-- The conversion at the character behind the width: what is put, and the format and the arguments
-- left. `none`: the format ends there, and the code goes on behind its 0; or an argument is
-- missing.
unfoldable pub conversion : List ℕ → ℕ → ℕ → List Arg → Option (List ℕ × List ℕ × List Arg)
conversion [] width pad args = none
conversion (c ∷ []) width pad args =
    Option.map (λ (out, rest). (out, [], rest)) (print_conversion c width pad args)
conversion (c ∷ d ∷ []) width pad args =
    if (c == 108) && (d == 108)
    then some ([], [], args)
    else Option.map (λ (out, rest). (out, d ∷ [], rest)) (print_conversion c width pad args)
conversion (c ∷ d ∷ e ∷ fmt) width pad args =
    if (c == 108) && (d == 108)
    then (if e == 117
        then Option.map (λ (v, rest). (print_uint_base v 10 width pad false, fmt, rest))
            (long_arg args)
        else some (37 ∷ 108 ∷ 108 ∷ e ∷ [], fmt, args))
    else Option.map (λ (out, rest). (out, d ∷ e ∷ fmt, rest)) (print_conversion c width pad args)

-- What stands behind a `%`: the fill character, the width, the conversion.
unfoldable pub directive : List ℕ → List Arg → Option (List ℕ × List ℕ × List Arg)
directive [] args = some ([], [], args)
directive (c ∷ fmt) args =
    if c == 48
    then (let (width, rest) = read_width fmt 0 in conversion rest width 48 args)
    else (let (width, rest) = read_width (c ∷ fmt) 0 in conversion rest width 32 args)

-- The loop, with a bound on its rounds: all that is put.
unfoldable pub put_format : ℕ → List ℕ → List Arg → Option (List ℕ)
put_format fuel [] args = some []
put_format zero (c ∷ fmt) args = none
put_format (suc fuel) (c ∷ fmt) args = elim (c == 37) [
  | false ↦ Option.map (λ out. c ∷ out) (put_format fuel fmt args)
  | true ↦ elim (directive fmt args) [
    | none ↦ none
    | some (out, rest, args') ↦ Option.map (λ more. out ++ more) (put_format fuel rest args')
  ]
]

unfoldable pub kvprintf : List ℕ → List Arg → Option (List ℕ)
kvprintf fmt args = put_format (length fmt) fmt args
