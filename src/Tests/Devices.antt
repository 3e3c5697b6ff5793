-- ===== src/Tests/Devices.antt =====
-- Keys, mouse packets, paths and system calls at concrete inputs.
use learning_os_project.Descriptors.{IdtEntry, init_idt, no_gate}
use learning_os_project.Descriptors.Fields.{LeadsTo, init_idt-gates}
use learning_os_project.Common.{get_or, if◌then◌else◌}
use learning_os_project.Common.{
  ℕ, ◌+◌, ◌*◌, ◌≡◌, ◌≢◌, ◌≤◌, ◌<◌, refl, List, [], ◌∷◌, ◌++◌, Option, none, some, arith, true,
  false, length, replicate, ◌%◌,
}
use learning_os_project.Common.Bits.{bit}
use learning_os_project.Kprintf.{
  backwards, fill, put_padding, print_uint_base, u64_divmod, scale_up, scale_down,
}
use learning_os_project.Kprintf.Format.{
  kvprintf, put_format, directive, conversion, print_conversion, read_width, word_arg, string_arg,
  print_string, word, string,
}
use learning_os_project.Libc.{strlen, strlen_from}
use learning_os_project.Keyboard.{key_char, keyboard_readline}
use learning_os_project.Keyboard.Line.{AllPlain, keyboard_readline-line}
use learning_os_project.Keyboard.Layout.{
  letter_keys, symbol_keys, plain_symbols, shifted_symbols, has, one_of, key_char-layout,
}
use learning_os_project.Mouse.{Mouse}
use learning_os_project.Mouse.Packets.{after_three, packet_event, mouse_handler-packet}
use learning_os_project.Input.Refine.{waiting, at_load-IsValid}
use learning_os_project.Monitor.{Monitor, monitor_put, blank}
use learning_os_project.Monitor
use learning_os_project.Input
use learning_os_project.Input.{Input, input_push_mouse}
use learning_os_project.Vfs.{vfs_resolve_path}
use learning_os_project.Vfs.Paths.{follow, path_of, vfs_resolve_path-follow}
use learning_os_project.Ipc
use learning_os_project.Syscall.{Kernel, Registers}
use learning_os_project.Heap.{heap_init}

-- Shift alone.
key_char_example :
    ((i : ℕ)
      → i < 26
      → key_char true false (get_or letter_keys i 0)
        ≡ (if one_of true false then 65 + i else 97 + i))
    × ((i : ℕ)
        → i < 27
        → key_char true false (get_or symbol_keys i 0)
          ≡ get_or (if true then shifted_symbols else plain_symbols) i 0)
    × ((key : ℕ)
        → has letter_keys key ≡ false
        → has symbol_keys key ≡ false
        → key_char true false key ≡ 0)
key_char_example = key_char-layout true false

readline_example :
    (line echoed : List ℕ) × (keyboard_readline 16 ((97 ∷ 8 ∷ 98 ∷ []) ++ 10 ∷ [])
      ≡ some (length line, backwards line ++ 0 ∷ [], echoed))
    × (length line < 16)
    × AllPlain line
readline_example = keyboard_readline-line 16 (97 ∷ 8 ∷ 98 ∷ []) [] (omega arith)

abbrev mouse : Mouse
mouse = record {
  mouse_cycle = 0;
  mouse_bytes = 0 ∷ 0 ∷ 0 ∷ [];
  packet_count = 0;
  events = Input.at_load;
}

packet_example :
    ((after_three mouse 1 9 5 250).mouse_cycle ≡ 0)
    × ((after_three mouse 1 9 5 250).mouse_bytes ≡ 9 ∷ 5 ∷ 250 ∷ [])
    × (length (waiting mouse.events) < 63
        → waiting (after_three mouse 1 9 5 250).events
          ≡ waiting mouse.events ++ packet_event 9 5 250 ∷ [])
    × (length (waiting mouse.events) ≡ 63
        → waiting (after_three mouse 1 9 5 250).events ≡ waiting mouse.events)
unfolding bit Input.input_init
packet_example = mouse_handler-packet mouse 1 9 5 250 refl refl at_load-IsValid refl refl

abbrev screen : Monitor
screen = record {
  video_memory = replicate 2000 blank;
  cursor_x = 79;
  cursor_y = 24;
  serial_enabled = false;
  serial_out = [];
  hardware_cursor = 0;
}

screen-IsValid : Monitor.Screen.IsValid screen
screen-IsValid = record { cells = refl; in_row = omega arith; in_column = omega arith }

monitor_put_example :
    Monitor.Screen.IsValid (monitor_put screen 65)
    × ((monitor_put screen 65).hardware_cursor
        ≡ (monitor_put screen 65).cursor_y * 80 + (monitor_put screen 65).cursor_x)
monitor_put_example = Monitor.Screen.monitor_put-IsValid 65 screen-IsValid

-- Two directories, each the other's child of any name.
abbrev lookup : ℕ → List ℕ → Option ℕ
lookup n name = some (length name)

resolve_example :
    vfs_resolve_path lookup
      (record { root = some 0 })
      (some (path_of ((97 ∷ []) ∷ (98 ∷ 99 ∷ []) ∷ [])))
    ≡ follow lookup 0 ((97 ∷ []) ∷ (98 ∷ 99 ∷ []) ∷ [])
resolve_example =
    vfs_resolve_path-follow lookup (record { root = some 0 }) 0 (97 ∷ []) ((98 ∷ 99 ∷ []) ∷ []) refl
      (
        (omega arith, tt),
        omega arith,
        omega arith,
        ((omega arith, (omega arith, tt)), omega arith, omega arith, tt),
      )

abbrev kernel : Kernel
kernel = record {
  monitor = screen;
  messages = Ipc.at_load;
  scheduler = record {
    tasks = [];
    task_count = 0;
    current_task = none;
    active_tasks = 0;
    scheduling_enabled = false;
    need_resched = false;
    kernel_esp = 0;
    next_pid = 1;
    ticks = 0;
    heap = heap_init 65536 65536;
    stored = [];
  };
  memory = replicate 12 7;
}

-- A read of at most 2 bytes to address 2; the saved `eax` lies at 8.
abbrev read_call : Registers
read_call = record { eax_at = 0xC0000008; eax = 0; ebx = 0; ecx = 2; edx = 2 }

-- `a` is stored and then an end of line, and the count 2.
abbrev after_read : Kernel
after_read = record kernel { memory = 7 ∷ 7 ∷ 97 ∷ 10 ∷ 7 ∷ 7 ∷ 7 ∷ 7 ∷ 2 ∷ 0 ∷ 0 ∷ 0 ∷ [] }

-- `"<%03x>%s"`
format_runs :
    kvprintf
      (60 ∷ 37 ∷ 48 ∷ 51 ∷ 120 ∷ 62 ∷ 37 ∷ 115 ∷ [])
      (word 171 ∷ string (some (111 ∷ 107 ∷ [])) ∷ [])
    ≡ some (60 ∷ 48 ∷ 65 ∷ 66 ∷ 62 ∷ 111 ∷ 107 ∷ [])
unfolding kvprintf put_format directive conversion print_conversion read_width word_arg string_arg
    print_string print_uint_base fill put_padding u64_divmod scale_up scale_down strlen strlen_from
format_runs = refl

abbrev timer_gate : IdtEntry
timer_gate = get_or (init_idt (λ n. 65536 + n % 256 * 16)) 32 no_gate

-- The timer's gate.
gates_example :
    (◌<◌ 32 48 → LeadsTo timer_gate (65536 + 32 * 16) 0)
    × (◌≡◌ {A = ℕ} 32 128 → LeadsTo timer_gate (65536 + 128 * 16) 3)
    × (◌≤◌ 48 32 → ◌≢◌ {A = ℕ} 32 128 → timer_gate ≡ no_gate)
gates_example = init_idt-gates (λ n. 65536 + n % 256 * 16) 32 (λ i. omega arith)
