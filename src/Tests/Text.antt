-- ===== src/Tests/Text.antt =====
-- Strings and printed numbers at concrete inputs.
use learning_os_project.Common.{◌≡◌, refl, some, [], ◌∷◌, arith, true, length}
use learning_os_project.Libc.{strlen}
use learning_os_project.Libc.Strings.{text, strlen-text}
use learning_os_project.Kprintf.{u64_divmod, print_uint_base, scale_up, scale_down}
use learning_os_project.Kprintf.Divmod.{u64_divmod_lem}
use learning_os_project.Logger
use learning_os_project.Logger.{Logger, log_set_level, log_level_warn, log_err, log_info}
use learning_os_project.Kprintf.Format.{kvprintf, put_format}
use learning_os_project.Kprintf.Digits.{Printed, print_uint_base-Printed}

u64_divmod_example : u64_divmod 1234 10 ≡ (123, 4)
u64_divmod_example = u64_divmod_lem 1234 10 (omega arith) (omega arith) (omega arith)

u64_divmod_runs : u64_divmod 18446744073709551615 10 ≡ (1844674407370955161, 5)
unfolding u64_divmod scale_up scale_down
u64_divmod_runs = refl

print_uint_base_example : Printed 255 16 4 48 true (print_uint_base 255 16 4 48 true)
print_uint_base_example =
    print_uint_base-Printed 255 16 4 48 true (omega arith) (omega arith) (omega arith) (omega arith)

strlen_example : strlen (some (97 ∷ 98 ∷ 0 ∷ 7 ∷ [])) ≡ length (text (97 ∷ 98 ∷ 0 ∷ 7 ∷ []))
strlen_example = strlen-text (97 ∷ 98 ∷ 0 ∷ 7 ∷ [])

-- Under the level of warnings an error is put, and an information is not.
abbrev warn_only : Logger
warn_only = log_set_level Logger.at_load log_level_warn

error_put : log_err warn_only (79 ∷ 75 ∷ []) [] ≡ some (91 ∷ 69 ∷ 82 ∷ 82 ∷ 93 ∷ 32 ∷ 79 ∷ 75 ∷ [])
unfolding log_err log_set_level kvprintf put_format
error_put = refl

info_dropped : log_info warn_only (79 ∷ 75 ∷ []) [] ≡ some []
unfolding log_info log_set_level
info_dropped = refl
