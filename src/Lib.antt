-- ===== src/Lib.antt =====
-- A verification library for the kernel under src/ (i386, freestanding C).
--
-- The kernel boots with a memory map from the boot loader, gives physical frames out from a bitmap,
-- takes task stacks from a heap of header-linked blocks, runs up to four tasks round-robin from the
-- timer interrupt, and passes keys, mouse packets and messages through ring buffers. Each part is a
-- module here; a C function is the definition of the same name, which takes the file's static
-- variables as a record and returns them changed.
--
--   Scheduler   src/proc/scheduler.c, src/proc/task.c, with the timer's tick (src/drivers/timer.c)
--   Heap        src/mm/heap.c
--   Frames      src/mm/memory.c
--   Ipc         src/proc/ipc.c
--   KbdBuffer   src/drivers/keyboard_buffer.c
--   Input       src/lib/input.c
--   Libc        src/lib/libc.c
--   Kprintf     src/lib/kprintf.c: the printing of numbers
--               and the interpreter of format strings
--   Monitor     src/lib/monitor.c
--   Keyboard    src/drivers/keyboard.c
--   Mouse       src/drivers/mouse.c: the interrupt handler
--   Vfs         src/fs/vfs.c
--   Ramfs       src/fs/ramfs.c
--   Syscall     src/proc/syscall.c, over Monitor, Ipc, Scheduler and memory as Paging maps it
--   Descriptors src/interrupt/idt.c, src/interrupt/gdt.c: the tables
--   Irq         src/interrupt/irq.c
--   Paging      src/mm/paging.c
--   Storage     src/fs/storage.c, and the block device that Fat stands on
--   Fat         src/fs/fat.c
--   Ports       src/drivers/pic.c, src/drivers/pit.c, src/drivers/serial.c, over port I/O
--   Ata         src/drivers/ata.c, over port I/O
--   Pci         src/net/pci.c: the search for a device
--   Elf         src/user/elf.c: loading an image, and the stack of a program
--   Logger      src/lib/logger.c
--   Shell       src/user/shell.c, over Vfs, Ramfs, Fat, Frames and Monitor
--   Common, Fifo, BoundedQueue: lists, numbers and words; ring buffers and the queue they implement.
--   Tests       the theorems at concrete inputs, and runs of the definitions.
--
-- Machine integers are natural numbers with the wrap-around written out, or integers for `int`.
-- Addresses are numbers, a null pointer is 0 or `none`. Loops are structural recursion where they walk
-- a list or a range. The other loops have a bound on their rounds, which is enough: `scale_up` and
-- `scale_down` run at most once for each of 64 bits, `free_run` advances at every round, `fill` fills
-- at most the 32 places of the buffer in the source, `each_frame` has a round for each frame up to the
-- end, `put_format` one for each character of the format, `walk_names` one for each byte of the path,
-- and the chains of clusters and the entries that the shell lists one for each of their members; a
-- chain that does not end gives `none`, as does a read of a file that copies bytes from behind a
-- sector. The three tries and 100000 looks of the ATA driver and the 65535 rounds of `load_segments`
-- are the source's own bounds.
--
-- Hardware is a parameter: a record of port accesses on a state of any type (Ports), a function from
-- a PCI address to its word (Pci), a block device that gives and takes sectors (Storage), whose
-- laws are hypotheses. Fat and Shell take the device, not the ATA driver, since the driver's disk never
-- becomes the default device.
--
-- Not modelled: memory-mapped I/O (src/net/rtl8139.c), the assembly of the boot and interrupt entry,
-- the start-up of the mouse, the text that drivers log, panics (src/lib/panic.c), the order of start-up
-- (src/core/kernel.c) and the programs in user mode (src/user/user_shell.c, src/user/userlib.c). So far
-- `pci_write_dword` is not modelled.
pub mod Common
pub mod Fifo
pub mod BoundedQueue
pub mod Ipc
pub mod KbdBuffer
pub mod Input
pub mod Libc
pub mod Kprintf
pub mod Heap
pub mod Tests
pub mod Frames
pub mod Scheduler
pub mod Monitor
pub mod Keyboard
pub mod Mouse
pub mod Vfs
pub mod Ramfs
pub mod Syscall
pub mod Descriptors
pub mod Storage
pub mod Fat
pub mod Ports
pub mod Ata
pub mod Paging
pub mod Irq
pub mod Pci
pub mod Logger
pub mod Shell
pub mod Elf
