-- ===== src/Emulator/State.antt =====
-- The global state of src/tools/hyppotest.c: the registers (`struct regs`), the memories and their
-- blame arrays, `struct cpu`, the instruction log, and a state monad over all of them. The
-- messages that the program prints are not part of the state.
use mega65_core.Prelude.{ℕ, Bool, true, Option, ◌+◌, ◌*◌, ◌==◌, bool_to_nat}
use mega65_core.Prelude.Bits.{bit}

-- `struct regs`. The flags are the bit fields of its union; the byte `flags` over them is
-- `flags_byte` below, as `sp` is the pair of `spl` and `sph`.
pub record Regs : Type 0 where
  pub pc : ℕ
  pub a : ℕ
  pub x : ℕ
  pub y : ℕ
  pub z : ℕ
  pub flag_c : Bool
  pub flag_z : Bool
  pub flag_i : Bool
  pub flag_d : Bool
  pub flag_b : Bool
  pub flag_e : Bool
  pub flag_v : Bool
  pub flag_n : Bool
  pub b : ℕ
  pub spl : ℕ
  pub sph : ℕ
  pub in_hyper : ℕ
  pub map_irq_inhibit : ℕ
  pub maplo : ℕ
  pub maphi : ℕ
  pub maplomb : ℕ
  pub maphimb : ℕ

-- The byte `flags` of the union: FLAG_C is 0x01 and FLAG_N is 0x80.
unfoldable pub flags_byte : Regs → ℕ
flags_byte r =
    bool_to_nat r.flag_c
    + bool_to_nat r.flag_z * 0x02
    + bool_to_nat r.flag_i * 0x04
    + bool_to_nat r.flag_d * 0x08
    + bool_to_nat r.flag_b * 0x10
    + bool_to_nat r.flag_e * 0x20
    + bool_to_nat r.flag_v * 0x40
    + bool_to_nat r.flag_n * 0x80

-- An assignment to the byte `flags`.
unfoldable pub set_flags : ℕ → Regs → Regs
set_flags v r = record r {
  flag_c = bit 0 v == 1;
  flag_z = bit 1 v == 1;
  flag_i = bit 2 v == 1;
  flag_d = bit 3 v == 1;
  flag_b = bit 4 v == 1;
  flag_e = bit 5 v == 1;
  flag_v = bit 6 v == 1;
  flag_n = bit 7 v == 1;
}

-- The 16 bits of `sp`.
unfoldable pub sp : Regs → ℕ
sp r = r.spl + r.sph * 256

-- `struct termination_conditions`.
pub record Termination : Type 0 where
  pub done : Bool
  pub error : Bool
  pub rts : ℕ
  pub brk : Bool
  pub log_dma : Bool

-- `symbols`, `symbol_count` and `sym_by_addr`. A name is the pointer to its text, and an entry of
-- `sym_by_addr` the index of its symbol.
pub record Symbols : Type 0 where
  pub name : ℕ → ℕ
  pub addr : ℕ → ℕ
  pub count : ℕ
  pub by_addr : ℕ → Option ℕ

-- How far the model follows the program. `lists`: it has called `show_recent_instructions`, and is only
-- where the state says if that call has returned. `unfinished`: a DMA job has not returned within the
-- fuel and the depth of the model. `crashed`: it has divided by zero.
pub data Fate : Type 0 where
  runs lists unfinished crashed : Fate

-- The program has met `f`; what has stopped it before stays.
unfoldable pub meet : Fate → Fate → Fate
meet f Fate.runs = f
meet f Fate.lists = f
meet f Fate.unfinished = Fate.unfinished
meet f Fate.crashed = Fate.crashed

-- What the memory functions and the DMA controller read and write: the four memories, the instruction that wrote each
-- cell last, the symbols, and of `struct cpu` the fields `term` and `instruction_count`.
pub record Bus : Type 0 where
  pub chipram : ℕ → ℕ
  pub hypporam : ℕ → ℕ
  pub colourram : ℕ → ℕ
  pub ffdram : ℕ → ℕ
  pub chipram_blame : ℕ → ℕ
  pub hypporam_blame : ℕ → ℕ
  pub colourram_blame : ℕ → ℕ
  pub ffdram_blame : ℕ → ℕ
  pub term : Termination
  pub instruction_count : ℕ
  pub symbols : Symbols
  pub fate : Fate

abbrev pub chipram_size : ℕ
chipram_size = 384 * 1024

abbrev pub hypporam_size : ℕ
hypporam_size = 16 * 1024

abbrev pub colourram_size : ℕ
colourram_size = 32 * 1024

-- `cpu->term.error = true`
abbrev pub set_error : Bus → Bus
set_error s = record s { term = record s.term { error = true } }

abbrev pub reach : Fate → Bus → Bus
reach f s = record s { fate = meet f s.fate }

-- `cpu->term.error = true` with a listing of the latest instructions.
abbrev pub set_error_listing : Bus → Bus
set_error_listing s = reach Fate.lists (set_error s)

-- `struct instruction_log`. `overrun` says that a pop has written past `pop_blame`. `bytes` and `pop_blame` are arrays.
pub record Log : Type 0 where
  pub pc : ℕ
  pub bytes : ℕ → ℕ
  pub len : ℕ
  pub dup : ℕ
  pub zp16 : ℕ
  pub zp32 : ℕ
  pub zp_pointer : ℕ
  pub zp_pointer_addr : ℕ
  pub regs : Regs
  pub count : ℕ
  pub pops : ℕ
  pub pop_blame : ℕ → ℕ
  pub overrun : Bool

-- The instruction log. Entries are allocated on a heap: `entries p` is the entry at the pointer `p`,
-- or `none` once it is freed, and `next_entry` the pointer that `malloc` returns next. `cpulog` and
-- `lastataddr` are arrays of pointers, `none` for NULL.
pub record Trace : Type 0 where
  pub entries : ℕ → Option Log
  pub next_entry : ℕ
  pub cpulog : ℕ → Option ℕ
  pub cpulog_len : ℕ
  pub lastataddr : ℕ → Option ℕ

-- `log` is the entry of the instruction that runs, which `cpu_step` puts on the heap.
pub record Machine : Type 0 where
  pub regs : Regs
  pub bus : Bus
  pub stack_overflow : Bool
  pub stack_underflow : Bool
  pub log : Log
  pub trace : Trace

-- A function of the program: from the state to its result and the next state.
abbrev pub M : Type 0 → Type 0
M A = Machine → A × Machine

infixl 5 ◌>>=◌ ◌>>◌
abbrev pub ◌>>=◌ : {A B : Type 0} → M A → (A → M B) → M B
◌>>=◌ c f m = let (r, m') = c m in f r m'

abbrev pub ◌>>◌ : {B : Type 0} → M (Unit {0}) → M B → M B
c >> k = c >>= λ _. k

abbrev pub pure : {A : Type 0} → A → M A
pure r m = (r, m)

abbrev pub modify_regs : (Regs → Regs) → M (Unit {0})
modify_regs f m = (tt, record m { regs = f m.regs })

abbrev pub modify_log : (Log → Log) → M (Unit {0})
modify_log f m = (tt, record m { log = f m.log })

abbrev pub modify_bus : (Bus → Bus) → M (Unit {0})
modify_bus f m = (tt, record m { bus = f m.bus })

abbrev pub get_regs : M Regs
get_regs m = (m.regs, m)

abbrev pub get_log : M Log
get_log m = (m.log, m)
