-- ===== src/Shell.antt =====
-- The kernel's shell, src/user/shell.c: its commands on the file systems, the heap and the frames.
-- What a command writes goes to the screen. `keyboard_readline` stands outside: a line is given.
pub mod Texts
pub mod Parse
pub mod Commands
pub mod Words
pub mod Cat
use learning_os_project.Common.{
  ℕ, zero, suc, ◌+◌, Bool, true, false, not, Option, none, some, List, [], ◌∷◌, ◌++◌, leb, ltb,
  ◌==◌, if◌then◌else◌, length, take, get_or,
}
use learning_os_project.Common.Int.{ℤ, pos, negsuc, is_zero}
use learning_os_project.Libc.{strcmp}
use learning_os_project.Monitor.{Monitor, monitor_put, monitor_write}
use learning_os_project.Kprintf.Format.{Arg, word, string, kvprintf}
use learning_os_project.Vfs.{Vfs, vfs_get_root, vfs_resolve_path}
use learning_os_project.Ramfs.{
  Ramfs, Node, no_node, is_dir, ramfs_finddir, ramfs_readdir, ramfs_read, ramfs_mkdir, ramfs_create,
  ramfs_unlink,
}
use learning_os_project.Heap.{heap_stats}
use learning_os_project.Frames.{
  Frames, frame_total, frame_used, frame_free_count, frame_largest_free_run,
}
use learning_os_project.Storage.{Device}
use learning_os_project.Fat.Volume.{Fat, FileInfo}
use learning_os_project.Fat.Files.{fat_list_root, fat_read_file}
use learning_os_project.Fat.Write.{fat_write_file}
use Texts.{
  help_text, usage_ls, usage_cat, usage_fatls, usage_fatcat, usage_fatwrite, usage_mkdir,
  usage_touch, usage_rm, usage_heap, usage_mem, unknown_command, not_found, not_a_directory,
  no_entries, fat_read_failed, ok, fatwrite_failed, mkdir_failed, touch_failed, rm_failed,
  name_format, file_format, heap_format, mem_format, cmd_help, cmd_ls, cmd_cat, cmd_fatls,
  cmd_fatcat, cmd_fatwrite, cmd_mkdir, cmd_touch, cmd_rm, cmd_heap, cmd_mem,
}
use Parse.{parse_line}

abbrev pub max_args : ℕ
max_args = 8

-- What the commands read and change; the heap is the one that the RAM file system takes memory
-- from.
pub record Shell (S : Type 0) : Type 0 where
  pub vfs : Vfs
  pub ramfs : Ramfs
  pub fat : Fat S
  pub frames : Frames
  pub screen : Monitor

-- `monitor_put` for each byte.
unfoldable pub put_all : Monitor → List ℕ → Monitor
put_all m [] = m
put_all m (c ∷ bytes) = put_all (monitor_put m c) bytes

abbrev pub is_named : List ℕ → List ℕ → Bool
is_named a b = is_zero (strcmp (some a) (some b))

module _ {S : Type 0} where
  abbrev pub write : Shell S → List ℕ → Shell S
  write sh text = record sh { screen = monitor_write sh.screen text }

  abbrev pub put : Shell S → List ℕ → Shell S
  put sh bytes = record sh { screen = put_all sh.screen bytes }

  -- `none`: an argument is missing, or the format's loop goes on.
  unfoldable pub kprintf : Shell S → List ℕ → List Arg → Option (Shell S)
  kprintf sh fmt args = elim (kvprintf fmt args) [ none ↦ none | some out ↦ some (put sh out) ]

  abbrev pub shell_usage : Shell S → List ℕ → Shell S
  shell_usage sh usage = put (write sh usage) (10 ∷ [])

  unfoldable pub shell_help_cmd : Shell S → Option (List ℕ) → Shell S
  shell_help_cmd sh none = write sh help_text
  shell_help_cmd sh (some []) = write sh help_text
  shell_help_cmd sh (some (c ∷ cmd)) =
      if is_named (c ∷ cmd) cmd_ls
      then shell_usage sh usage_ls
      else if is_named (c ∷ cmd) cmd_cat
      then shell_usage sh usage_cat
      else if is_named (c ∷ cmd) cmd_fatls
      then shell_usage sh usage_fatls
      else if is_named (c ∷ cmd) cmd_fatcat
      then shell_usage sh usage_fatcat
      else if is_named (c ∷ cmd) cmd_fatwrite
      then shell_usage sh usage_fatwrite
      else if is_named (c ∷ cmd) cmd_mkdir
      then shell_usage sh usage_mkdir
      else if is_named (c ∷ cmd) cmd_touch
      then shell_usage sh usage_touch
      else if is_named (c ∷ cmd) cmd_rm
      then shell_usage sh usage_rm
      else if is_named (c ∷ cmd) cmd_heap
      then shell_usage sh usage_heap
      else if is_named (c ∷ cmd) cmd_mem
      then shell_usage sh usage_mem
      else write sh unknown_command

  -- The loop over the entries of a directory from number `i` on. `none`: `fuel` entries are
  -- not all.
  unfoldable pub list_entries : ℕ → Shell S → ℕ → ℕ → Option (Shell S)
  unfolding kprintf
  list_entries zero sh node i = none
  list_entries (suc fuel) sh node i = elim (ramfs_readdir sh.ramfs node i) [
    | none ↦ some sh
    | some (name, inode) ↦ elim (kprintf sh name_format (string (some name) ∷ [])) [
      | none ↦ none
      | some sh' ↦ list_entries fuel sh' node (i + 1)
    ]
  ]

  abbrev pub resolve : Shell S → List ℕ → Option ℕ
  resolve sh path = vfs_resolve_path (ramfs_finddir sh.ramfs) sh.vfs (some path)

  -- The root for a null or an empty path.
  abbrev pub start_node : Shell S → Option (List ℕ) → Option ℕ
  start_node sh none = vfs_get_root sh.vfs
  start_node sh (some []) = vfs_get_root sh.vfs
  start_node sh (some (c ∷ path)) = resolve sh (c ∷ path)

  unfoldable pub shell_ls_path : ℕ → Shell S → Option (List ℕ) → Option (Shell S)
  unfolding list_entries
  shell_ls_path fuel sh path = elim (start_node sh path) [
    | none ↦ some (write sh not_found)
    | some node ↦
        if not (is_dir (get_or sh.ramfs.nodes node no_node).flags)
        then some (write sh not_a_directory)
        else list_entries fuel sh node 0
  ]

  -- The loop that copies a file to the screen, 512 bytes at a time. `none`: it goes on behind
  -- `fuel`
  -- rounds, or the file system copies past the end of the data.
  unfoldable pub cat_from : ℕ → Shell S → ℕ → ℕ → Option (Shell S)
  cat_from zero sh node off = none
  cat_from (suc fuel) sh node off = elim (ramfs_read sh.ramfs node off 512) [
    | none ↦ none
    | some [] ↦ some sh
    | some (c ∷ bytes) ↦ cat_from fuel (put sh (c ∷ bytes)) node (off + length (c ∷ bytes))
  ]

  unfoldable pub shell_cat : ℕ → Shell S → List ℕ → Option (Shell S)
  unfolding cat_from
  shell_cat fuel sh path =
      if length path == 0 then some (write sh (usage_cat ++ 10 ∷ [])) else elim (resolve sh path) [
        | none ↦ some (write sh not_found)
        | some node ↦ elim (cat_from fuel sh node 0) [
          | none ↦ none
          | some sh' ↦ some (put sh' (10 ∷ []))
        ]
      ]

  unfoldable pub list_files : Shell S → List FileInfo → Option (Shell S)
  unfolding kprintf
  list_files sh [] = some sh
  list_files sh (fi ∷ files) =
      elim (kprintf sh file_format (string (some fi.name) ∷ word fi.size ∷ [])) [
        | none ↦ none
        | some sh' ↦ list_files sh' files
      ]

  unfoldable pub shell_fatls : Shell S → Option (Shell S)
  unfolding list_files
  shell_fatls sh = elim (fat_list_root sh.fat true 16) [
    | [] ↦ some (write sh no_entries)
    | fi ∷ files ↦ list_files sh (fi ∷ files)
  ]

  unfoldable pub shell_heap : Shell S → Option (Shell S)
  unfolding kprintf
  shell_heap sh =
      let stats = heap_stats sh.ramfs.heap in
      kprintf sh heap_format
        (word stats.used ∷ word stats.free ∷ word stats.blocks ∷ word stats.free_blocks ∷ [])

  unfoldable pub shell_mem : Shell S → Option (Shell S)
  unfolding kprintf
  shell_mem sh = kprintf sh mem_format (
      word (frame_total sh.frames)
      ∷ word (frame_used sh.frames)
      ∷ word (frame_free_count sh.frames)
      ∷ word (frame_largest_free_run sh.frames)
      ∷ [])
