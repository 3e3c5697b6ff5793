-- ===== src/Tests/Commands.antt =====
-- The shell's lines, interrupts and devices.
use learning_os_project.Common.{
  ℕ, ◌+◌, ◌*◌, ◌≡◌, ◌≢◌, ◌<◌, ◌≤◌, refl, List, [], ◌∷◌, ◌++◌, some, none, arith, true, false,
  length, replicate, get_or,
}
use learning_os_project.Heap.{heap_init}
use learning_os_project.Ramfs.{no_node, ramfs_init, ramfs_finddir, find_child}
use learning_os_project.Frames
use learning_os_project.Monitor.{Monitor}
use learning_os_project.Libc.{strcmp}
use learning_os_project.Vfs.{vfs_resolve_path, walk_names, skip_slashes, next_name}
use learning_os_project.Fat.Volume.{Fat}
use learning_os_project.Shell.{Shell, put, shell_cat, resolve}
use learning_os_project.Shell.Parse.{parse_line}
use learning_os_project.Shell.Words.{joined, AreWords, parse_line-joined}
use learning_os_project.Shell.Cat.{IsFile, shell_cat_lem}
use learning_os_project.Ports.{Ports}
use learning_os_project.Ata.{AtaDevice, StorageDevice, ata_read28, ata_init}
use learning_os_project.Ata.Transfer.{ata_read28_lem, ata_init-default}
use learning_os_project.Irq.{
  Handlers, Calls, register_irq_handler, irq_handler, irq_handler-register_irq_handler,
}
use learning_os_project.Pci.{Located, pci_find_device, pci_find_device_lem}

-- `cat a.c`
cat_words : AreWords ((99 ∷ 97 ∷ 116 ∷ []) ∷ (97 ∷ 46 ∷ 99 ∷ []) ∷ [])
cat_words = (
  (λ e. omega arith, (refl, (refl, (refl, tt)))),
  ((λ e. omega arith, (refl, (refl, (refl, tt)))), tt),
)

parse_example :
    parse_line (joined ((99 ∷ 97 ∷ 116 ∷ []) ∷ (97 ∷ 46 ∷ 99 ∷ []) ∷ [])) 8
    ≡ (99 ∷ 97 ∷ 116 ∷ []) ∷ (97 ∷ 46 ∷ 99 ∷ []) ∷ []
parse_example = parse_line-joined ((99 ∷ 97 ∷ 116 ∷ []) ∷ (97 ∷ 46 ∷ 99 ∷ []) ∷ []) 8 cat_words

abbrev screen : Monitor
screen = record {
  video_memory = replicate 2000 0x0720;
  cursor_x = 0;
  cursor_y = 0;
  serial_enabled = false;
  serial_out = [];
  hardware_cursor = 0;
}

abbrev no_fat : Fat (List (List ℕ))
no_fat = record {
  dev = false;
  bytes_per_sector = 0;
  sectors_per_cluster = 0;
  reserved_sectors = 0;
  num_fats = 0;
  fat_size = 0;
  root_entries = 0;
  root_dir_sectors = 0;
  first_fat_sector = 0;
  first_data_sector = 0;
  root_dir_sector = 0;
  root_cluster = 0;
  fat_type = 0;
  total_clusters = 0;
  files = [];
  disk = [];
}

-- The RAM file system as it starts, with its one file.
abbrev shell : Shell (List (List ℕ))
shell = record {
  vfs = record { root = some 0 };
  ramfs = ramfs_init (record { nodes = []; heap = heap_init 65536 65536 }) 4096;
  fat = no_fat;
  frames = Frames.at_load;
  screen = screen;
}

-- `hello.txt`
abbrev hello : List ℕ
hello = 104 ∷ 101 ∷ 108 ∷ 108 ∷ 111 ∷ 46 ∷ 116 ∷ 120 ∷ 116 ∷ []

hello_found : resolve shell hello ≡ some 1
unfolding vfs_resolve_path ramfs_finddir ramfs_init walk_names skip_slashes find_child strcmp
    next_name
hello_found = refl

hello-IsFile : IsFile (get_or shell.ramfs.nodes 1 no_node)
unfolding ramfs_init
hello-IsFile = record { with_data = λ e. omega arith; whole = refl; small = omega arith }

hello_size : length (get_or shell.ramfs.nodes 1 no_node).bytes < 20
unfolding ramfs_init
hello_size = omega arith

cat_example :
    shell_cat 20 shell hello
    ≡ some (put shell ((get_or shell.ramfs.nodes 1 no_node).bytes ++ 10 ∷ []))
cat_example = shell_cat_lem 20 shell hello 1 (omega arith) hello_found hello-IsFile hello_size

-- A controller that is always ready, and counts the words that it gives.
abbrev ready : Ports ℕ
ready = record {
  inb = λ n port. (0x48, n);
  inw = λ n port. (n, n + 1);
  outb = λ n port value. n;
  outw = λ n port value. n;
}

abbrev primary : AtaDevice
primary = record { io = 0x1F0; ctrl = 0x3F6; slave = 0 }

read28_example :
    ((ata_read28 ready 0 true primary 5 2).0 ≤ 2)
    × (length (ata_read28 ready 0 true primary 5 2).1
        ≡ 256 * (ata_read28 ready 0 true primary 5 2).0)
read28_example = ata_read28_lem ready 0 true primary 5 2

abbrev no_device : StorageDevice
no_device = record {
  sector_size = 0;
  sector_count = 0;
  has_read = false;
  has_write = false;
  has_driver_data = false;
}

ata_init_example :
    (ata_init ready 0 1 no_device (record { default_dev = none })).1 ≡ record { default_dev = none }
ata_init_example = ata_init-default ready 0 1 no_device (record { default_dev = none })

-- What was called, as a list of numbers.
abbrev calls : Calls (List ℕ)
calls = record {
  syscall = λ w. 128 ∷ w;
  handler = λ address w. address ∷ w;
  warn = λ irq w. irq ∷ w;
  eoi = λ n w. n ∷ w;
}

abbrev no_handlers : Handlers
no_handlers = replicate 16 none

irq_example :
    (irq_handler calls (register_irq_handler no_handlers 1 (some 4096)) (32 + 1) []
      ≡ some (33 ∷ 4096 ∷ []))
    × ((n : ℕ)
        → n ≢ 32 + 1
        → irq_handler calls (register_irq_handler no_handlers 1 (some 4096)) n []
          ≡ irq_handler calls no_handlers n [])
irq_example = irq_handler-register_irq_handler calls no_handlers 1 4096 [] refl (omega arith)

-- Every function answers as the network card.
pci_example :
    Located
      (λ address. 0x813910EC)
      0x10EC
      0x8139
      (pci_find_device (λ address. 0x813910EC) 0x10EC 0x8139)
pci_example = pci_find_device_lem (λ address. 0x813910EC) 0x10EC 0x8139
