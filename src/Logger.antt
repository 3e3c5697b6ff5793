-- ===== src/Logger.antt =====
-- src/lib/logger.c: the messages of the kernel's log. What is put on the screen is a list of
-- characters.
use learning_os_project.Common.{ℕ, Option, none, some, List, [], ◌∷◌, ◌++◌, ltb, if◌then◌else◌}
use learning_os_project.Kprintf.Format.{Arg, kvprintf}

-- `enum log_level`
pub data LogLevel : Type 0 where
  log_level_info log_level_warn log_level_err : LogLevel

abbrev pub level_number : LogLevel → ℕ
level_number log_level_info = 0
level_number log_level_warn = 1
level_number log_level_err = 2

-- `[INFO] `, `[WARN] ` and `[ERR] `
abbrev pub level_prefix : LogLevel → List ℕ
level_prefix log_level_info = 91 ∷ 73 ∷ 78 ∷ 70 ∷ 79 ∷ 93 ∷ 32 ∷ []
level_prefix log_level_warn = 91 ∷ 87 ∷ 65 ∷ 82 ∷ 78 ∷ 93 ∷ 32 ∷ []
level_prefix log_level_err = 91 ∷ 69 ∷ 82 ∷ 82 ∷ 93 ∷ 32 ∷ []

pub record Logger : Type 0 where
  pub current_level : LogLevel

abbrev pub at_load : Logger
at_load = record { current_level = log_level_info }

unfoldable pub log_set_level : Logger → LogLevel → Logger
log_set_level l level = record l { current_level = level }

-- What is put; `none`: the arguments do not fit the format.
unfoldable pub vlog_message : Logger → LogLevel → List ℕ → List Arg → Option (List ℕ)
vlog_message l level fmt args =
    if ltb (level_number level) (level_number l.current_level)
    then some []
    else elim (kvprintf fmt args) [ none ↦ none | some out ↦ some (level_prefix level ++ out) ]

unfoldable pub log_message : Logger → LogLevel → List ℕ → List Arg → Option (List ℕ)
unfolding vlog_message
log_message l level fmt args = vlog_message l level fmt args

unfoldable pub log_info : Logger → List ℕ → List Arg → Option (List ℕ)
unfolding vlog_message
log_info l fmt args = vlog_message l log_level_info fmt args

unfoldable pub log_warn : Logger → List ℕ → List Arg → Option (List ℕ)
unfolding vlog_message
log_warn l fmt args = vlog_message l log_level_warn fmt args

unfoldable pub log_err : Logger → List ℕ → List Arg → Option (List ℕ)
unfolding vlog_message
log_err l fmt args = vlog_message l log_level_err fmt args
