-- ===== src/Tests/Files.antt =====
-- The RAM file system as it is at the start.
use learning_os_project.Common.{ℕ, ◌≡◌, ◌≢◌, refl, List, [], ◌∷◌, none, some, arith}
use learning_os_project.Common.Int.{pos}
use learning_os_project.Heap.{heap_init}
use learning_os_project.Libc.{strcmp, strcmp_from}
use learning_os_project.Libc.Strings.{text}
use learning_os_project.Ramfs.{Ramfs, ramfs_init, ramfs_finddir, find_child, ramfs_create}
use learning_os_project.Ramfs.Names.{IsValid}
use learning_os_project.Ramfs.Create.{ramfs_create-finddir}

abbrev start : Ramfs
start = ramfs_init (record { nodes = []; heap = heap_init 65536 65536 }) 1048576

start-IsValid : IsValid start
unfolding ramfs_init
start-IsValid = record { root_in = omega arith; listed = (omega arith, tt) }

abbrev new_name : List ℕ
new_name = 97 ∷ 98 ∷ []

not_found : ramfs_finddir start 0 new_name ≡ none
unfolding ramfs_init ramfs_finddir find_child strcmp strcmp_from
not_found = refl

create_example :
    ((ramfs_create start new_name).0 ≡ pos 0)
    × (ramfs_finddir (ramfs_create start new_name).1 0 new_name ≡ some 2)
    × ((other : List ℕ)
        → text new_name ≢ text other
        → ramfs_finddir (ramfs_create start new_name).1 0 other ≡ ramfs_finddir start 0 other)
unfolding ramfs_init
create_example =
    ramfs_create-finddir new_name start-IsValid (omega arith) (omega arith) not_found (omega arith)
      (omega arith)
