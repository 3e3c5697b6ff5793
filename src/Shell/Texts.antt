-- ===== src/Shell/Texts.antt =====
-- The texts of src/user/shell.c as ASCII bytes.
use learning_os_project.Common.{ℕ, List, [], ◌∷◌}

abbrev pub help_text : List ℕ
help_text =
    67 ∷ 111 ∷ 109 ∷ 109 ∷ 97 ∷ 110 ∷ 100 ∷ 115 ∷ 58 ∷ 10 ∷ 32 ∷ 32 ∷ 104 ∷ 101 ∷ 108 ∷ 112 ∷ 32
    ∷ 91 ∷ 99 ∷ 109 ∷ 100 ∷ 93 ∷ 10 ∷ 32 ∷ 32 ∷ 108 ∷ 115 ∷ 32 ∷ 91 ∷ 112 ∷ 97 ∷ 116 ∷ 104 ∷ 93 ∷ 10
    ∷ 32 ∷ 32 ∷ 99 ∷ 97 ∷ 116 ∷ 32 ∷ 60 ∷ 112 ∷ 97 ∷ 116 ∷ 104 ∷ 62 ∷ 10 ∷ 32 ∷ 32 ∷ 102 ∷ 97 ∷ 116
    ∷ 108 ∷ 115 ∷ 10 ∷ 32 ∷ 32 ∷ 102 ∷ 97 ∷ 116 ∷ 99 ∷ 97 ∷ 116 ∷ 32 ∷ 60 ∷ 102 ∷ 105 ∷ 108 ∷ 101
    ∷ 62 ∷ 10 ∷ 32 ∷ 32 ∷ 102 ∷ 97 ∷ 116 ∷ 119 ∷ 114 ∷ 105 ∷ 116 ∷ 101 ∷ 32 ∷ 60 ∷ 102 ∷ 105 ∷ 108
    ∷ 101 ∷ 62 ∷ 32 ∷ 60 ∷ 116 ∷ 101 ∷ 120 ∷ 116 ∷ 62 ∷ 10 ∷ 32 ∷ 32 ∷ 109 ∷ 107 ∷ 100 ∷ 105 ∷ 114
    ∷ 32 ∷ 60 ∷ 110 ∷ 97 ∷ 109 ∷ 101 ∷ 62 ∷ 10 ∷ 32 ∷ 32 ∷ 116 ∷ 111 ∷ 117 ∷ 99 ∷ 104 ∷ 32 ∷ 60
    ∷ 110 ∷ 97 ∷ 109 ∷ 101 ∷ 62 ∷ 10 ∷ 32 ∷ 32 ∷ 114 ∷ 109 ∷ 32 ∷ 60 ∷ 110 ∷ 97 ∷ 109 ∷ 101 ∷ 62
    ∷ 10 ∷ 32 ∷ 32 ∷ 104 ∷ 101 ∷ 97 ∷ 112 ∷ 10 ∷ 32 ∷ 32 ∷ 109 ∷ 101 ∷ 109 ∷ 10 ∷ []

-- `usage: ls [path]`
abbrev pub usage_ls : List ℕ
usage_ls =
    117 ∷ 115 ∷ 97 ∷ 103 ∷ 101 ∷ 58 ∷ 32 ∷ 108 ∷ 115 ∷ 32 ∷ 91 ∷ 112 ∷ 97 ∷ 116 ∷ 104 ∷ 93 ∷ []

-- `usage: cat <path>`
abbrev pub usage_cat : List ℕ
usage_cat =
    117 ∷ 115 ∷ 97 ∷ 103 ∷ 101 ∷ 58 ∷ 32 ∷ 99 ∷ 97 ∷ 116 ∷ 32 ∷ 60 ∷ 112 ∷ 97 ∷ 116 ∷ 104 ∷ 62 ∷ []

-- `usage: fatls`
abbrev pub usage_fatls : List ℕ
usage_fatls = 117 ∷ 115 ∷ 97 ∷ 103 ∷ 101 ∷ 58 ∷ 32 ∷ 102 ∷ 97 ∷ 116 ∷ 108 ∷ 115 ∷ []

-- `usage: fatcat <file>`
abbrev pub usage_fatcat : List ℕ
usage_fatcat =
    117 ∷ 115 ∷ 97 ∷ 103 ∷ 101 ∷ 58 ∷ 32 ∷ 102 ∷ 97 ∷ 116 ∷ 99 ∷ 97 ∷ 116 ∷ 32 ∷ 60 ∷ 102 ∷ 105
    ∷ 108 ∷ 101 ∷ 62 ∷ []

-- `usage: fatwrite <file> <text>`
abbrev pub usage_fatwrite : List ℕ
usage_fatwrite =
    117 ∷ 115 ∷ 97 ∷ 103 ∷ 101 ∷ 58 ∷ 32 ∷ 102 ∷ 97 ∷ 116 ∷ 119 ∷ 114 ∷ 105 ∷ 116 ∷ 101 ∷ 32 ∷ 60
    ∷ 102 ∷ 105 ∷ 108 ∷ 101 ∷ 62 ∷ 32 ∷ 60 ∷ 116 ∷ 101 ∷ 120 ∷ 116 ∷ 62 ∷ []

-- `usage: mkdir <name>`
abbrev pub usage_mkdir : List ℕ
usage_mkdir =
    117 ∷ 115 ∷ 97 ∷ 103 ∷ 101 ∷ 58 ∷ 32 ∷ 109 ∷ 107 ∷ 100 ∷ 105 ∷ 114 ∷ 32 ∷ 60 ∷ 110 ∷ 97 ∷ 109
    ∷ 101 ∷ 62 ∷ []

-- `usage: touch <name>`
abbrev pub usage_touch : List ℕ
usage_touch =
    117 ∷ 115 ∷ 97 ∷ 103 ∷ 101 ∷ 58 ∷ 32 ∷ 116 ∷ 111 ∷ 117 ∷ 99 ∷ 104 ∷ 32 ∷ 60 ∷ 110 ∷ 97 ∷ 109
    ∷ 101 ∷ 62 ∷ []

-- `usage: rm <name>`
abbrev pub usage_rm : List ℕ
usage_rm =
    117 ∷ 115 ∷ 97 ∷ 103 ∷ 101 ∷ 58 ∷ 32 ∷ 114 ∷ 109 ∷ 32 ∷ 60 ∷ 110 ∷ 97 ∷ 109 ∷ 101 ∷ 62 ∷ []

-- `usage: heap`
abbrev pub usage_heap : List ℕ
usage_heap = 117 ∷ 115 ∷ 97 ∷ 103 ∷ 101 ∷ 58 ∷ 32 ∷ 104 ∷ 101 ∷ 97 ∷ 112 ∷ []

-- `usage: mem`
abbrev pub usage_mem : List ℕ
usage_mem = 117 ∷ 115 ∷ 97 ∷ 103 ∷ 101 ∷ 58 ∷ 32 ∷ 109 ∷ 101 ∷ 109 ∷ []

-- `unknown command\n`
abbrev pub unknown_command : List ℕ
unknown_command =
    117 ∷ 110 ∷ 107 ∷ 110 ∷ 111 ∷ 119 ∷ 110 ∷ 32 ∷ 99 ∷ 111 ∷ 109 ∷ 109 ∷ 97 ∷ 110 ∷ 100 ∷ 10 ∷ []

-- `not found\n`
abbrev pub not_found : List ℕ
not_found = 110 ∷ 111 ∷ 116 ∷ 32 ∷ 102 ∷ 111 ∷ 117 ∷ 110 ∷ 100 ∷ 10 ∷ []

-- `not a directory\n`
abbrev pub not_a_directory : List ℕ
not_a_directory =
    110 ∷ 111 ∷ 116 ∷ 32 ∷ 97 ∷ 32 ∷ 100 ∷ 105 ∷ 114 ∷ 101 ∷ 99 ∷ 116 ∷ 111 ∷ 114 ∷ 121 ∷ 10 ∷ []

-- `fat: no entries\n`
abbrev pub no_entries : List ℕ
no_entries =
    102 ∷ 97 ∷ 116 ∷ 58 ∷ 32 ∷ 110 ∷ 111 ∷ 32 ∷ 101 ∷ 110 ∷ 116 ∷ 114 ∷ 105 ∷ 101 ∷ 115 ∷ 10 ∷ []

-- `fat: not found or read failed\n`
abbrev pub fat_read_failed : List ℕ
fat_read_failed =
    102 ∷ 97 ∷ 116 ∷ 58 ∷ 32 ∷ 110 ∷ 111 ∷ 116 ∷ 32 ∷ 102 ∷ 111 ∷ 117 ∷ 110 ∷ 100 ∷ 32 ∷ 111 ∷ 114
    ∷ 32 ∷ 114 ∷ 101 ∷ 97 ∷ 100 ∷ 32 ∷ 102 ∷ 97 ∷ 105 ∷ 108 ∷ 101 ∷ 100 ∷ 10 ∷ []

-- `ok\n`
abbrev pub ok : List ℕ
ok = 111 ∷ 107 ∷ 10 ∷ []

-- `fatwrite failed\n`
abbrev pub fatwrite_failed : List ℕ
fatwrite_failed =
    102 ∷ 97 ∷ 116 ∷ 119 ∷ 114 ∷ 105 ∷ 116 ∷ 101 ∷ 32 ∷ 102 ∷ 97 ∷ 105 ∷ 108 ∷ 101 ∷ 100 ∷ 10 ∷ []

-- `mkdir failed\n`
abbrev pub mkdir_failed : List ℕ
mkdir_failed = 109 ∷ 107 ∷ 100 ∷ 105 ∷ 114 ∷ 32 ∷ 102 ∷ 97 ∷ 105 ∷ 108 ∷ 101 ∷ 100 ∷ 10 ∷ []

-- `touch failed\n`
abbrev pub touch_failed : List ℕ
touch_failed = 116 ∷ 111 ∷ 117 ∷ 99 ∷ 104 ∷ 32 ∷ 102 ∷ 97 ∷ 105 ∷ 108 ∷ 101 ∷ 100 ∷ 10 ∷ []

-- `rm failed\n`
abbrev pub rm_failed : List ℕ
rm_failed = 114 ∷ 109 ∷ 32 ∷ 102 ∷ 97 ∷ 105 ∷ 108 ∷ 101 ∷ 100 ∷ 10 ∷ []

-- `%s\n`
abbrev pub name_format : List ℕ
name_format = 37 ∷ 115 ∷ 10 ∷ []

-- `%s (%u)\n`
abbrev pub file_format : List ℕ
file_format = 37 ∷ 115 ∷ 32 ∷ 40 ∷ 37 ∷ 117 ∷ 41 ∷ 10 ∷ []

-- `heap: used=%u free=%u blocks=%u free_blocks=%u\n`
abbrev pub heap_format : List ℕ
heap_format =
    104 ∷ 101 ∷ 97 ∷ 112 ∷ 58 ∷ 32 ∷ 117 ∷ 115 ∷ 101 ∷ 100 ∷ 61 ∷ 37 ∷ 117 ∷ 32 ∷ 102 ∷ 114 ∷ 101
    ∷ 101 ∷ 61 ∷ 37 ∷ 117 ∷ 32 ∷ 98 ∷ 108 ∷ 111 ∷ 99 ∷ 107 ∷ 115 ∷ 61 ∷ 37 ∷ 117 ∷ 32 ∷ 102 ∷ 114
    ∷ 101 ∷ 101 ∷ 95 ∷ 98 ∷ 108 ∷ 111 ∷ 99 ∷ 107 ∷ 115 ∷ 61 ∷ 37 ∷ 117 ∷ 10 ∷ []

-- `frames: total=%u used=%u free=%u largest_run=%u\n`
abbrev pub mem_format : List ℕ
mem_format =
    102 ∷ 114 ∷ 97 ∷ 109 ∷ 101 ∷ 115 ∷ 58 ∷ 32 ∷ 116 ∷ 111 ∷ 116 ∷ 97 ∷ 108 ∷ 61 ∷ 37 ∷ 117 ∷ 32
    ∷ 117 ∷ 115 ∷ 101 ∷ 100 ∷ 61 ∷ 37 ∷ 117 ∷ 32 ∷ 102 ∷ 114 ∷ 101 ∷ 101 ∷ 61 ∷ 37 ∷ 117 ∷ 32 ∷ 108
    ∷ 97 ∷ 114 ∷ 103 ∷ 101 ∷ 115 ∷ 116 ∷ 95 ∷ 114 ∷ 117 ∷ 110 ∷ 61 ∷ 37 ∷ 117 ∷ 10 ∷ []

-- `help`
abbrev pub cmd_help : List ℕ
cmd_help = 104 ∷ 101 ∷ 108 ∷ 112 ∷ []

-- `ls`
abbrev pub cmd_ls : List ℕ
cmd_ls = 108 ∷ 115 ∷ []

-- `cat`
abbrev pub cmd_cat : List ℕ
cmd_cat = 99 ∷ 97 ∷ 116 ∷ []

-- `fatls`
abbrev pub cmd_fatls : List ℕ
cmd_fatls = 102 ∷ 97 ∷ 116 ∷ 108 ∷ 115 ∷ []

-- `fatcat`
abbrev pub cmd_fatcat : List ℕ
cmd_fatcat = 102 ∷ 97 ∷ 116 ∷ 99 ∷ 97 ∷ 116 ∷ []

-- `fatwrite`
abbrev pub cmd_fatwrite : List ℕ
cmd_fatwrite = 102 ∷ 97 ∷ 116 ∷ 119 ∷ 114 ∷ 105 ∷ 116 ∷ 101 ∷ []

-- `mkdir`
abbrev pub cmd_mkdir : List ℕ
cmd_mkdir = 109 ∷ 107 ∷ 100 ∷ 105 ∷ 114 ∷ []

-- `touch`
abbrev pub cmd_touch : List ℕ
cmd_touch = 116 ∷ 111 ∷ 117 ∷ 99 ∷ 104 ∷ []

-- `rm`
abbrev pub cmd_rm : List ℕ
cmd_rm = 114 ∷ 109 ∷ []

-- `heap`
abbrev pub cmd_heap : List ℕ
cmd_heap = 104 ∷ 101 ∷ 97 ∷ 112 ∷ []

-- `mem`
abbrev pub cmd_mem : List ℕ
cmd_mem = 109 ∷ 101 ∷ 109 ∷ []
