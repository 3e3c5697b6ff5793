-- ===== src/Descriptors.antt =====
-- src/interrupt/idt.c and src/interrupt/gdt.c: the tables of gates and segments. Loading them into
-- the processor and the set-up of the interrupt controller are port I/O and assembly.
pub mod Fields
use Prim.Native.Nat.{bit_and, bit_or}
use learning_os_project.Common.{
  ℕ, zero, suc, ◌+◌, ◌-◌, ◌*◌, ◌/◌, ◌%◌, ◌^◌, List, [], ◌∷◌, get_or, set, replicate,
}

-- `struct idt_entry_struct`
pub record IdtEntry : Type 0 where
  pub base_low : ℕ
  pub sel : ℕ
  pub always0 : ℕ
  pub flags : ℕ
  pub base_high : ℕ

abbrev pub no_gate : IdtEntry
no_gate = record { base_low = 0; sel = 0; always0 = 0; flags = 0; base_high = 0 }

abbrev pub gate : ℕ → ℕ → ℕ → IdtEntry
gate base sel flags = record {
  base_low = base % 2 ^ 16;
  sel = sel;
  always0 = 0;
  flags = flags;
  base_high = base / 2 ^ 16 % 2 ^ 16;
}

unfoldable pub idt_set_gate : List IdtEntry → ℕ → ℕ → ℕ → ℕ → List IdtEntry
idt_set_gate entries num base sel flags = set entries num (gate base sel flags)

-- `count` calls of `idt_set_gate` in a row, for the numbers from `num` on.
unfoldable pub set_gates : (ℕ → ℕ) → ℕ → ℕ → List IdtEntry → List IdtEntry
set_gates stub zero num entries = entries
set_gates stub (suc count) num entries =
    set_gates stub count (num + 1) (idt_set_gate entries num (stub num) 0x08 0x8E)

-- `stub n` is the address of the assembly entry of interrupt `n`: `isr0` to `isr31`, `irq0` to
-- `irq15` behind them, and `isr128`.
unfoldable pub init_idt : (ℕ → ℕ) → List IdtEntry
init_idt stub =
    set_gates stub 16 32
      (idt_set_gate (set_gates stub 32 0 (replicate 256 no_gate)) 128 (stub 128) 0x08 0xEE)

-- `struct gdt_entry_struct`
pub record GdtEntry : Type 0 where
  pub limit_low : ℕ
  pub base_low : ℕ
  pub base_middle : ℕ
  pub access : ℕ
  pub granularity : ℕ
  pub base_high : ℕ

abbrev pub no_segment : GdtEntry
no_segment = record {
  limit_low = 0;
  base_low = 0;
  base_middle = 0;
  access = 0;
  granularity = 0;
  base_high = 0;
}

abbrev pub segment : ℕ → ℕ → ℕ → ℕ → GdtEntry
segment base limit access gran = record {
  limit_low = limit % 2 ^ 16;
  base_low = base % 2 ^ 16;
  base_middle = base / 2 ^ 16 % 2 ^ 8;
  access = access;
  granularity = bit_or (limit / 2 ^ 16 % 2 ^ 4) (bit_and gran 0xF0);
  base_high = base / 2 ^ 24 % 2 ^ 8;
}

unfoldable pub gdt_set_gate : List GdtEntry → ℕ → ℕ → ℕ → ℕ → ℕ → List GdtEntry
gdt_set_gate entries num base limit access gran = set entries num (segment base limit access gran)

-- The fields of `struct tss_entry_struct` that are not 0.
pub record Tss : Type 0 where
  pub ss0 : ℕ
  pub esp0 : ℕ
  pub cs : ℕ
  pub data_segments : ℕ
  pub iomap_base : ℕ

abbrev pub tss_size : ℕ
tss_size = 104

-- The segment and the task state; `tss_at` is the address of `tss_entry`.
unfoldable pub write_tss : List GdtEntry → ℕ → ℕ → ℕ → ℕ → List GdtEntry × Tss
write_tss entries tss_at num ss0 esp0 = (
  gdt_set_gate entries num tss_at (tss_size - 1) 0x89 0x40,
  record { ss0 = ss0; esp0 = esp0; cs = 0x0B; data_segments = 0x13; iomap_base = tss_size },
)

unfoldable pub init_gdt : ℕ → List GdtEntry × Tss
init_gdt tss_at =
    let null = gdt_set_gate (replicate 6 no_segment) 0 0 0 0 0 in
    let code = gdt_set_gate null 1 0 0xFFFFFFFF 0x9A 0xCF in
    let data_segment = gdt_set_gate code 2 0 0xFFFFFFFF 0x92 0xCF in
    let user_code = gdt_set_gate data_segment 3 0 0xFFFFFFFF 0xFA 0xCF in
    let user_data = gdt_set_gate user_code 4 0 0xFFFFFFFF 0xF2 0xCF in
    write_tss user_data tss_at 5 0x10 0

unfoldable pub set_kernel_stack : Tss → ℕ → Tss
set_kernel_stack tss stack = record tss { esp0 = stack }
