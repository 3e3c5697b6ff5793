-- ===== src/Shell/Commands.antt =====
-- One line of `shell_run`: its command, with the commands that need the disk.
use learning_os_project.Common.{
  ℕ, zero, suc, true, Option, none, some, List, [], ◌∷◌, ◌++◌, if◌then◌else◌,
}
use learning_os_project.Common.Int.{ℤ, pos, negsuc, is_zero}
use learning_os_project.Ramfs.{Ramfs, ramfs_mkdir, ramfs_create, ramfs_unlink}
use learning_os_project.Storage.{Device}
use learning_os_project.Fat.Files.{fat_read_file}
use learning_os_project.Fat.Write.{fat_write_file}
use learning_os_project.Shell.{
  Shell, max_args, write, put, is_named, shell_usage, shell_help_cmd, shell_ls_path, shell_cat,
  shell_fatls, shell_heap, shell_mem,
}
use learning_os_project.Shell.Parse.{parse_line}
use learning_os_project.Shell.Texts.{
  usage_cat, usage_fatcat, usage_fatwrite, usage_mkdir, usage_touch, usage_rm, unknown_command,
  fat_read_failed, ok, fatwrite_failed, mkdir_failed, touch_failed, rm_failed, cmd_help, cmd_ls,
  cmd_cat, cmd_fatls, cmd_fatcat, cmd_fatwrite, cmd_mkdir, cmd_touch, cmd_rm, cmd_heap, cmd_mem,
}

-- `argc > 1 ? argv[1] : 0`
abbrev pub first_arg : List (List ℕ) → Option (List ℕ)
first_arg [] = none
first_arg (arg ∷ args) = some arg

module _ {S : Type 0} where
  -- `ok`, or what is written where the status is not 0.
  abbrev pub report : Shell S → ℤ → List ℕ → Shell S
  report sh status failed = write sh (if is_zero status then ok else failed)

  -- A command of the RAM file system that takes a name.
  abbrev pub with_name :
      Shell S
      → List (List ℕ)
      → List ℕ
      → List ℕ
      → (Ramfs → List ℕ → Option (ℤ × Ramfs))
      → Option (Shell S)
  with_name sh [] usage failed f = some (shell_usage sh usage)
  with_name sh (name ∷ args) usage failed f = elim (f sh.ramfs name) [
    | none ↦ none
    | some (status, ramfs) ↦ some (report (record sh { ramfs = ramfs }) status failed)
  ]

  unfoldable pub do_cat : ℕ → Shell S → List (List ℕ) → Option (Shell S)
  do_cat fuel sh [] = some (shell_usage sh usage_cat)
  do_cat fuel sh (path ∷ args) = shell_cat fuel sh path

module _ {S : Type 0} (device : Device S) where
  unfoldable pub shell_fatcat : ℕ → Shell S → List ℕ → Option (Shell S)
  shell_fatcat fuel sh [] = some (write sh (usage_fatcat ++ 10 ∷ []))
  shell_fatcat fuel sh (c ∷ name) =
      elim (fat_read_file device fuel sh.fat (some (c ∷ name)) true 1024) [
        | none ↦ none
        | some (pos zero, bytes) ↦ some (write sh fat_read_failed)
        | some (pos (suc n), bytes) ↦ some (put sh (bytes ++ 10 ∷ []))
        | some (negsuc n, bytes) ↦ some (write sh fat_read_failed)
      ]

  unfoldable pub shell_fatwrite : ℕ → Shell S → List ℕ → List ℕ → Option (Shell S)
  shell_fatwrite fuel sh [] content = some (write sh (usage_fatwrite ++ 10 ∷ []))
  shell_fatwrite fuel sh (c ∷ name) content =
      elim (fat_write_file device fuel sh.fat (some (c ∷ name)) (some content)) [
        | none ↦ none
        | some (status, fat) ↦ some (report (record sh { fat = fat }) status fatwrite_failed)
      ]

  unfoldable pub do_fatcat : ℕ → Shell S → List (List ℕ) → Option (Shell S)
  unfolding shell_fatcat
  do_fatcat fuel sh [] = some (shell_usage sh usage_fatcat)
  do_fatcat fuel sh (name ∷ args) = shell_fatcat fuel sh name

  unfoldable pub do_fatwrite : ℕ → Shell S → List (List ℕ) → Option (Shell S)
  unfolding shell_fatwrite
  do_fatwrite fuel sh [] = some (shell_usage sh usage_fatwrite)
  do_fatwrite fuel sh (name ∷ []) = some (shell_usage sh usage_fatwrite)
  do_fatwrite fuel sh (name ∷ content ∷ args) = shell_fatwrite fuel sh name content

  -- The `if` chain on the command and its arguments.
  unfoldable pub run_command : ℕ → Shell S → List ℕ → List (List ℕ) → Option (Shell S)
  unfolding do_cat do_fatcat do_fatwrite
  run_command fuel sh cmd args =
      if is_named cmd cmd_help
      then some (shell_help_cmd sh (first_arg args))
      else if is_named cmd cmd_ls
      then shell_ls_path fuel sh (first_arg args)
      else if is_named cmd cmd_cat
      then do_cat fuel sh args
      else if is_named cmd cmd_fatls
      then shell_fatls sh
      else if is_named cmd cmd_fatcat
      then do_fatcat fuel sh args
      else if is_named cmd cmd_fatwrite
      then do_fatwrite fuel sh args
      else if is_named cmd cmd_mkdir
      then with_name sh args usage_mkdir mkdir_failed (λ r name. some (ramfs_mkdir r name))
      else if is_named cmd cmd_touch
      then with_name sh args usage_touch touch_failed (λ r name. some (ramfs_create r name))
      else if is_named cmd cmd_rm
      then with_name sh args usage_rm rm_failed ramfs_unlink
      else if is_named cmd cmd_heap
      then shell_heap sh
      else if is_named cmd cmd_mem
      then shell_mem sh
      else some (write sh unknown_command)

  -- The body of the loop behind `keyboard_readline`.
  unfoldable pub shell_line : ℕ → Shell S → List ℕ → Option (Shell S)
  unfolding run_command
  shell_line fuel sh line = elim (parse_line line max_args) [
    | [] ↦ some sh
    | cmd ∷ args ↦ run_command fuel sh cmd args
  ]
