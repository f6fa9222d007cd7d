-- ===== src/Emulator/Disassemble/Recent.antt =====
-- `show_recent_instructions` of src/tools/hyppotest.c, which lists entries of the log. What it prints
-- is a list of lines. Printing the label of an address above $FFFF makes `addr_to_28bit` list the
-- latest entries in turn: those lines are left out, but not whether that ends.
use mega65_core.Prelude.{
  ℕ, zero, suc, ◌-◌, List, [], ◌∷◌, Bool, true, false, ◌&&◌, ◌==◌, ltb, leb, not, if◌then◌else◌,
  bit_and, min,
}
use mega65_core.Prelude.Printing.{Text}
use mega65_core.Emulator.State.{Regs, Log, Machine, Symbols, flags_byte}
use mega65_core.Emulator.Memory.{addr_to_28bit}
use mega65_core.Emulator.Describe.{SymbolList, Label, describe_address_label28}
use mega65_core.Emulator.Disassemble.Listing.{
  Shown, shown, too_deep, ◌>>=◌, cpulog_entry, disassemble_instruction,
}

-- The columns of an entry. `newest` is the mark `>>>`, which replaces the index of the last one.
pub record Row : Type 0 where
  pub index : ℕ
  pub newest : Bool
  pub pc : ℕ
  pub count : ℕ
  pub regs : Regs
  pub flags : Text
  pub label : Label
  pub bytes : List ℕ
  pub text : Text

-- "No relevant instruction history available", "Machine reset", "duplicated instructions omitted",
-- and an entry.
pub data ListedLine : Type 0 where
  no_history : ListedLine
  machine_reset : ListedLine
  omitted : ListedLine
  instruction : Row → ListedLine

-- A letter for each flag, or a dot.
unfoldable pub flag_letters : Regs → Text
flag_letters r =
    let flags = flags_byte r in
    let letter : ℕ → ℕ → ℕ = λ mask c. if bit_and flags mask == 0 then b'.' else c in
    letter 0x80 b'N'
    ∷ letter 0x40 b'V'
    ∷ letter 0x20 b'E'
    ∷ letter 0x10 b'B'
    ∷ letter 0x08 b'D'
    ∷ letter 0x04 b'I'
    ∷ letter 0x02 b'Z'
    ∷ letter 0x01 b'C'
    ∷ []

-- The first `n` bytes from `i` on.
unfoldable pub first_bytes : (ℕ → ℕ) → ℕ → ℕ → List ℕ
first_bytes bytes i zero = []
first_bytes bytes i (suc n) = bytes i ∷ first_bytes bytes (suc i) n

abbrev pub program_symbols : Symbols → SymbolList
program_symbols s = record { name = s.name; addr = s.addr; count = s.count }

-- An entry, as the part of the loop that is not about duplicates prints it. `complain` is the listing
-- that `addr_to_28bit` may print.
unfoldable pub show_entry :
    (Machine → Shown (Unit {0})) → ℕ → SymbolList → Machine → ℕ → Log → Shown (Row × Machine)
show_entry complain depth hyppo m i log = do
  _ ← (if ltb 0xffff log.regs.pc then complain m else shown tt)
  let (addr, bus) = addr_to_28bit m.regs m.bus log.regs.pc false
  let m' = record m { bus = bus }
  text ← disassemble_instruction complain depth m' log
  shown (
    record {
      index = i;
      newest = m.trace.cpulog_len - i - 1 == 0;
      pc = log.pc;
      count = log.count;
      regs = log.regs;
      flags = flag_letters log.regs;
      label = describe_address_label28 hyppo (program_symbols m.bus.symbols) addr;
      bytes = first_bytes log.bytes 0 (min 3 log.len);
      text = text;
    },
    m',
  )

-- The loop. `left` is `count`, which stops it at 0, and `was_dup` is `last_was_dup`.
unfoldable pub show_entries :
    (Machine → Shown (Unit {0}))
    → ℕ
    → SymbolList
    → ℕ
    → ℕ
    → ℕ
    → Bool
    → Machine
    → Shown (List ListedLine × Machine)
show_entries complain depth hyppo first zero i was_dup m = shown ([], m)
show_entries complain depth hyppo first (suc left) i was_dup m =
    let from =
      λ (was : Bool) (m' : Machine). show_entries complain depth hyppo first left (suc i) was m' in
    if leb m.trace.cpulog_len i
    then shown ([], m)
    else if i == 0
    then (do (lines, m') ← from was_dup m; shown (machine_reset ∷ lines, m'))
    else do
      log ← cpulog_entry m i
      if not (log.dup == 0) && ltb first i
          then (do
            (lines, m') ← from true m
            shown ((if was_dup then lines else omitted ∷ lines), m'))
          else (do
            (row, m') ← show_entry complain depth hyppo m i log
            (lines, m'') ← from false m'
            shown (instruction row ∷ lines, m''))

-- The first instruction as an `int`: an index, or how far before the log it is.
pub data First : Type 0 where
  at_index : ℕ → First
  before_log : ℕ → First

-- `first - n` of an index.
abbrev pub back_by : ℕ → ℕ → First
back_by first n = if leb n first then at_index (first - n) else before_log (n - first)

unfoldable pub show_recent_instructions :
    ℕ → SymbolList → First → ℕ → Machine → Shown (List ListedLine × Machine)
show_recent_instructions zero hyppo first count m = too_deep
show_recent_instructions (suc depth) hyppo first count m =
    let complain : Machine → Shown (Unit {0}) = λ m'.
      show_recent_instructions depth hyppo (back_by m'.trace.cpulog_len 6) 6 m' >>= λ _. shown tt in
    elim first [
      | at_index zero ↦ shown (no_history ∷ [], m)
      | at_index (suc f) ↦ show_entries complain depth hyppo (suc f) count (suc f) false m
      | before_log n ↦ show_entries complain depth hyppo 0 (count - n) 0 false m
    ]
