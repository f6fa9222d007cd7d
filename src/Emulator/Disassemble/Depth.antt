-- ===== src/Emulator/Disassemble/Depth.antt =====
-- Whether `disassemble_instruction` of src/tools/hyppotest.c ends: it goes on to the instructions that
-- an entry of the log blames for the bytes that it has read.
use Prim.Native.String.{String}
use mathlib.Core.Logic.{◌≢◌}
use mega65_core.Prelude.{
  ℕ, zero, suc, ◌+◌, ◌≤◌, ◌<◌, ◌≡◌, refl, inl, inr, arith, false, ◌==◌, ltb, Bool-cases, some,
  word32, Option-cases,
}
use mega65_core.Prelude.Printing.{Text}
use mega65_core.Emulator.State.{Log, Machine}
use mega65_core.Emulator.Memory.{memory_blame}
use mega65_core.Emulator.Disassemble.Operands.{Operand, indirect, pulled, returned}
use mega65_core.Emulator.Disassemble.Listing.{
  Shown, shown, too_deep, ◌>>=◌, cpulog_entry, blame_of, writer_of, disassemble_iabs, pusher,
  disassemble_stack_source, return_sources, print_operand, all_texts, find_text,
  disassemble_instruction,
}

-- There is a result.
abbrev pub Shows {ℓ} : {A : Type ℓ} → Shown A → Type ℓ
Shows {A} r = (a : A) × (r ≡ shown a)

pub Shows-bind {ℓ κ} :
    {A : Type ℓ} {B : Type κ} {r : Shown A} (f : A → Shown B)
    → Shows r
    → ((a : A) → Shows (f a))
    → Shows (r >>= f)
Shows-bind f (a, e) k = rw e (k a)

-- The instruction blamed for the byte at an address, as the entry sees the memory.
abbrev pub blamed : Machine → Log → ℕ → ℕ
blamed m log addr = (memory_blame addr (record m { regs = log.regs })).0

-- What is looked up for the operand of the entry `i` is older than it.
abbrev pub ComesBefore : Machine → ℕ → Log → Operand → Type 0
ComesBefore m i log indirect =
    (log.zp_pointer < 0xffff)
    × (blamed m log log.zp_pointer < i)
    × (blamed m log (word32 (log.zp_pointer + 1)) < i)
ComesBefore m i log pulled = log.pop_blame 0 < i
ComesBefore m i log returned = (log.pop_blame 0 < i) × (log.pop_blame 1 < i)
ComesBefore m i log operand = Unit {0}

-- A log without gaps in which that holds of every entry. The entry 0 stands for the reset.
pub record IsBackward (m : Machine) : Type 0 where
  pub present : (i : ℕ) → 0 < i → i < m.trace.cpulog_len → Shows (cpulog_entry m i)
  pub older :
      (i : ℕ) (log : Log) (name : String) (operand : Operand)
      → 0 < i
      → i < m.trace.cpulog_len
      → cpulog_entry m i ≡ shown log
      → find_text (log.bytes 0) all_texts ≡ some (name, operand)
      → ComesBefore m i log operand

module _ (complain : Machine → Shown (Unit {0})) (again : Log → Shown Text) (m : Machine) (i : ℕ)
    (present : (j : ℕ) → 0 < j → j < i → Shows (cpulog_entry m j))
    (goes_on : (j : ℕ) (log : Log)
      → 0 < j
      → j < i
      → cpulog_entry m j ≡ shown log
      → Shows (again log)) where
  pusher-Shows : (blame : ℕ) → blame < i → Shows (pusher complain again m blame)
  unfolding pusher
  pusher-Shows blame h = elim (Bool-cases (blame == 0)) [
    | inl none_there ↦ rw none_there (_, refl)
    | inr some_there ↦
        let (entry, e) = present blame (ground arith) h in
        let (text, e') = goes_on blame entry (ground arith) h e in
        rw some_there (rw e (rw e' (_, refl)))
  ]

  writer_of-Shows :
      (log : Log) (addr : ℕ)
      → addr ≤ 0xffff
      → blamed m log addr < i
      → Shows (writer_of complain again m log addr)
  unfolding writer_of blame_of
  writer_of-Shows log addr small h =
      let within : ltb 0xffff addr ≡ false = ground arith in
      rw within (elim (Bool-cases (blamed m log addr == 0)) [
        | inl none_there ↦ rw none_there (_, refl)
        | inr some_there ↦
            let (entry, e) = present (blamed m log addr) (ground arith) h in
            let (text, e') = goes_on (blamed m log addr) entry (ground arith) h e in
            rw some_there (rw e (rw e' (_, refl)))
      ])

  return_sources-Shows :
      (log : Log)
      → log.pop_blame 0 < i
      → log.pop_blame 1 < i
      → Shows (return_sources complain again m log)
  unfolding return_sources
  return_sources-Shows log low high = elim (Bool-cases (log.pop_blame 0 == log.pop_blame 1)) [
    | inl same ↦ let (text, e) = pusher-Shows (log.pop_blame 0) low in rw same (rw e (_, refl))
    | inr two ↦
        let (text, e) = pusher-Shows (log.pop_blame 0) low in
        let (text', e') = pusher-Shows (log.pop_blame 1) high in rw two (rw e (rw e' (_, refl)))
  ]

  print_operand-Shows :
      (operand : Operand) (log : Log)
      → ComesBefore m i log operand
      → Shows (print_operand complain again m operand log)
  unfolding print_operand disassemble_iabs disassemble_stack_source
  print_operand-Shows indirect log (small, low, high) =
      let (text, e) = writer_of-Shows log log.zp_pointer (omega arith) low in
      let (text', e') = writer_of-Shows log (word32 (log.zp_pointer + 1)) (omega arith) high in
      rw e (rw e' (_, refl))
  print_operand-Shows pulled log h =
      let (text, e) = pusher-Shows (log.pop_blame 0) h in rw e (_, refl)
  print_operand-Shows returned log (low, high) = return_sources-Shows log low high
  print_operand-Shows _ log h = (_, refl)

-- Where every entry comes after what is looked up for it (`IsBackward`), the disassembly of an entry
-- of the log ends and shows a text, with a depth above the index of the entry.
pub disassemble_instruction-Shows :
    (complain : Machine → Shown (Unit {0})) (m : Machine)
    → IsBackward m
    → (depth i : ℕ) (log : Log) → i < depth
    → 0 < i
    → i < m.trace.cpulog_len
    → cpulog_entry m i ≡ shown log
    → Shows (disassemble_instruction complain depth m log)
unfolding disassemble_instruction
disassemble_instruction-Shows complain m b zero i log hd pos hl e = absurd (omega arith)
disassemble_instruction-Shows complain m b (suc depth) i log hd pos hl e =
    elim (Bool-cases (log.len == 0)) [
      | inl empty ↦ rw empty (_, refl)
      | inr full ↦ rw full (elim (Option-cases (find_text (log.bytes 0) all_texts)) [
        | inl no_case ↦ rw no_case (_, refl)
        | inr ((name, operand), found) ↦
            let (text, e') =
              print_operand-Shows complain (disassemble_instruction complain depth m) m i
                (λ j pos' lt. b.present j pos' (omega arith))
                (λ j entry pos' lt.
                  disassemble_instruction-Shows complain m b depth j entry (omega arith) pos'
                    (omega arith))
                operand log (b.older i log name operand pos hl e found) in
            rw found (rw e' (_, refl))
      ])
    ]

writer_of_deep :
    (complain : Machine → Shown (Unit {0})) (again : Log → Shown Text) (m : Machine) (i addr : ℕ)
    (log entry : Log)
    → 0 < i
    → addr ≤ 0xffff
    → blamed m log addr ≡ i
    → cpulog_entry m i ≡ shown entry
    → again entry ≡ too_deep
    → writer_of complain again m log addr ≡ too_deep
unfolding writer_of blame_of
writer_of_deep complain again m i addr log entry pos small writer e deeper =
    let within : ltb 0xffff addr ≡ false = ground arith in
    let some_there : (i == 0) ≡ false = ground arith in
    rw within (rw writer (rw some_there (rw e (rw deeper refl))))

-- An indirect JSR or JMP in the log that is itself blamed for the low byte of its pointer, which lies
-- in the 16 bits, is never shown: the disassembly goes deeper than any depth.
pub disassemble_instruction_deep :
    (complain : Machine → Shown (Unit {0})) (m : Machine) (i : ℕ) (log : Log) (name : String)
    → cpulog_entry m i ≡ shown log
    → 0 < i
    → log.len ≢ 0
    → find_text (log.bytes 0) all_texts ≡ some (name, indirect)
    → log.zp_pointer ≤ 0xffff
    → blamed m log log.zp_pointer ≡ i
    → (depth : ℕ) → disassemble_instruction complain depth m log ≡ too_deep
unfolding disassemble_instruction print_operand disassemble_iabs
disassemble_instruction_deep complain m i log name e pos full found small self zero = refl
disassemble_instruction_deep complain m i log name e pos full found small self (suc depth) =
    let deeper =
      disassemble_instruction_deep complain m i log name e pos full found small self depth in
    let not_empty : (log.len == 0) ≡ false = ground (arith, full) in
    let low =
      writer_of_deep complain (disassemble_instruction complain depth m) m i log.zp_pointer log log
        pos small self e deeper in
    rw not_empty (rw found (rw low refl))
