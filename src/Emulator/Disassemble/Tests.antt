-- ===== src/Emulator/Disassemble/Tests.antt =====
-- Small logs, and the theorems on the disassembler and the listing of the log applied to them.
use Prim.Native.String.{String}
use mathlib.Core.Path.{subst}
use mega65_core.Prelude.{
  ℕ, ◌+◌, ◌-◌, ◌^◌, ◌≤◌, ◌<◌, ◌≡◌, refl, ◌⊎◌, arith, true, some, none, ◌==◌, ltb, if◌then◌else◌,
  List, [], ◌∷◌, ◌++◌, word32, min,
}
use mega65_core.Prelude.Bits.{bit}
use mega65_core.Prelude.Printing.{codes, hex}
use mega65_core.Emulator.State.{Log, Machine, M, Trace}
use mega65_core.Emulator.Memory.{
  memory_blame, addr_to_28bit, c64_bank, port_lines, is_mapped, cell_of, read_memory, read_memory28,
}
use mega65_core.Emulator.Addressing.{addr_zp}
use mega65_core.Emulator.Describe.{SymbolList}
use mega65_core.Emulator.Instructions.Flow.{Outcome, branch, branch_on_bit, entry_at}
use mega65_core.Emulator.Execute.{all_cases, unimplemented}
use mega65_core.Emulator.Execute.Switch.{switch}
use mega65_core.Emulator.Tests.{no_dma, bus, entry, machine, regs}
use mega65_core.Emulator.Disassemble.Operands.{
  Operand, indirect, pulled, returned, disassemble_rel8, disassemble_zp_rel8,
}
use mega65_core.Emulator.Disassemble.Texts0.{texts_0, texts_1, texts_2, texts_3}
use mega65_core.Emulator.Disassemble.Texts4.{texts_4, texts_5, texts_6, texts_7}
use mega65_core.Emulator.Disassemble.Listing.{
  Shown, shown, too_deep, cpulog_entry, print_operand, disassemble_stack_source, pusher, all_texts,
  find_text, disassemble_instruction,
}
use mega65_core.Emulator.Disassemble.Depth.{
  Shows, blamed, ComesBefore, IsBackward, disassemble_instruction-Shows,
  disassemble_instruction_deep,
}
use mega65_core.Emulator.Disassemble.Targets.{
  disassemble_rel8-branch, disassemble_zp_rel8-branch_on_bit,
}
use mega65_core.Emulator.Disassemble.Opcodes.{find_case, find_text-switch}
use mega65_core.Emulator.Disassemble.Recent.{
  ListedLine, at_index, back_by, show_recent_instructions,
}
use mega65_core.Emulator.Disassemble.Rows.{
  indices, range, without_dups, is_dup, show_recent_instructions-indices,
}
use mega65_core.Emulator.Disassemble.Runaway.{show_recent_instructions_endless}

-- A log whose entries stand at the pointers with their indices.
abbrev log_of : ℕ → (ℕ → Log) → Trace
log_of len entries = record {
  entries = λ p. some (entries p);
  next_entry = len;
  cpulog = λ i. some i;
  cpulog_len = len;
  lastataddr = λ a. none;
}

-- PHA, the PLA that takes its byte, and a duplicate of that.
abbrev push_and_pull : ℕ → Log
push_and_pull i = record entry {
  bytes = λ k. if i == 1 then 0x48 else 0x68;
  len = 1;
  dup = if i == 3 then 1 else 0;
  pop_blame = λ k. if ltb 1 i then 1 else 0;
}

abbrev pulling : Machine
pulling = record machine { trace = log_of 4 push_and_pull }

pull_text :
    disassemble_instruction (λ m. too_deep) 3 pulling (push_and_pull 2)
    ≡ shown (codes "PLA  {Pushed by $1000 PHA}")
unfolding disassemble_instruction find_text all_texts texts_0 texts_1 texts_2 texts_3 texts_4
    texts_5 texts_6 texts_7 print_operand disassemble_stack_source pusher cpulog_entry codes hex
pull_text = refl

shown_injective {ℓ} : {A : Type ℓ} {a b : A} → ◌≡◌ {A = Shown A} (shown a) (shown b) → a ≡ b
shown_injective e = cc

pulling-entry : (i : ℕ) (log : Log) → cpulog_entry pulling i ≡ shown log → push_and_pull i ≡ log
unfolding cpulog_entry
pulling-entry i log e = shown_injective e

pulling-ComesBefore :
    (i : ℕ) (operand : Operand) → 0 < i → ComesBefore pulling i (push_and_pull i) operand
unfolding memory_blame addr_to_28bit c64_bank port_lines is_mapped cell_of
pulling-ComesBefore i indirect h = (omega arith, ground arith, ground arith)
pulling-ComesBefore i pulled h = ground arith
pulling-ComesBefore i returned h = (ground arith, ground arith)
pulling-ComesBefore _ _ h = tt

pulling-IsBackward : IsBackward pulling
unfolding cpulog_entry
pulling-IsBackward = record {
  present = λ i pos lt. (push_and_pull i, refl);
  older = λ i log name operand pos lt e found.
      subst (λ l. ComesBefore pulling i l operand) (pulling-entry i log e)
        (pulling-ComesBefore i operand pos);
}

disassemble_instruction-Shows_example :
    Shows (disassemble_instruction (λ m. too_deep) 3 pulling (push_and_pull 2))
unfolding cpulog_entry
disassemble_instruction-Shows_example =
    disassemble_instruction-Shows (λ m. too_deep) pulling pulling-IsBackward 3 2 (push_and_pull 2)
      (omega arith) (omega arith) (omega arith) refl

-- JSR ($01FE) that has pushed to its own pointer.
abbrev own_pointer : ℕ → Log
own_pointer i = record entry {
  bytes = λ k. if k == 0 then 0x22 else if k == 1 then 0xfe else 0x01;
  len = 3;
  zp_pointer = 0x1fe;
}

abbrev looping : Machine
looping = record machine {
  trace = log_of 2 own_pointer;
  bus = record bus { chipram_blame = λ i. 1 };
}

own_pointer_text : find_text 0x22 all_texts ≡ some ("JSR  ", indirect)
unfolding find_text all_texts texts_0 texts_1 texts_2
own_pointer_text = refl

own_pointer_blame : blamed looping (own_pointer 1) 0x1fe ≡ 1
unfolding memory_blame addr_to_28bit c64_bank port_lines is_mapped cell_of
own_pointer_blame = refl

own_pointer_entry : cpulog_entry looping 1 ≡ shown (own_pointer 1)
unfolding cpulog_entry
own_pointer_entry = refl

disassemble_instruction_deep_example :
    disassemble_instruction (λ m. shown tt) 1000 looping (own_pointer 1) ≡ too_deep
disassemble_instruction_deep_example =
    disassemble_instruction_deep (λ m. shown tt) looping 1 (own_pointer 1) "JSR  " own_pointer_entry
      (omega arith) (λ e. absurd (omega (arith, e))) own_pointer_text (omega arith)
      own_pointer_blame 1000

disassemble_rel8-branch_example :
    disassemble_rel8 machine.log ≡ codes "$" ++ hex 4 (branch (λ r. true) machine).1.regs.pc
disassemble_rel8-branch_example = disassemble_rel8-branch (λ r. true) machine refl refl

bit_there : (bit 0 (read_memory (addr_zp machine).0 (addr_zp machine).1).0 == 0) ≡ true
unfolding bit read_memory addr_zp addr_to_28bit c64_bank port_lines is_mapped read_memory28 cell_of
bit_there = refl

disassemble_zp_rel8-branch_on_bit_example :
    let target = (branch_on_bit 0 0 machine).1.regs.pc in
    disassemble_zp_rel8 machine.log
    ≡ codes "$"
      ++ (hex 2 (machine.log.bytes 1) ++ (codes ",$" ++ hex 4 (word32 (target + (2 ^ 32 - 1)))))
disassemble_zp_rel8-branch_on_bit_example =
    disassemble_zp_rel8-branch_on_bit 0 0 machine refl bit_there

find_text-switch_example :
    ((text : String × Operand) × (body : M Outcome) × (find_text 0x22 all_texts ≡ some text)
      × (find_case 0x22 (all_cases ⦃dma = no_dma⦄) ≡ some body)
      × (switch 0x22 (all_cases ⦃dma = no_dma⦄) unimplemented ≡ body))
    ⊎ ((find_text 0x22 all_texts ≡ none)
        × (switch 0x22 (all_cases ⦃dma = no_dma⦄) unimplemented ≡ unimplemented))
find_text-switch_example = find_text-switch ⦃dma = no_dma⦄ 0x22 (omega arith)

abbrev no_symbols : SymbolList
no_symbols = record { name = λ i. 0; addr = λ i. 0; count = 0 }

listed : without_dups pulling 1 (range 1 (min 5 3)) ≡ 1 ∷ 2 ∷ []
unfolding is_dup cpulog_entry
listed = refl

show_recent_instructions-indices_example :
    (lines : List ListedLine) × (show_recent_instructions 5 no_symbols (at_index 1) 5 pulling
      ≡ shown (lines, pulling))
    × (indices lines ≡ without_dups pulling 1 (range 1 (min 5 3)))
show_recent_instructions-indices_example =
    show_recent_instructions-indices 4 no_symbols pulling 1 5 pulling-IsBackward (omega arith) low
      (omega arith)
  where
    low : (i : ℕ) (log : Log) → cpulog_entry pulling i ≡ shown log → log.regs.pc ≤ 0xffff
    low i log e = subst (λ l. l.regs.pc ≤ 0xffff) (pulling-entry i log e) (omega arith)

-- Entries from above $FFFF.
abbrev high_up : ℕ → Log
high_up i = record entry { regs = record regs { pc = 0x10000 } }

high_entry : entry_at (log_of 8 high_up) (some 7) ≡ some (high_up 7)
unfolding entry_at
high_entry = refl

show_recent_instructions_endless_example : ¬ Shows (
    show_recent_instructions 1000 no_symbols
      (back_by 8 6)
      6
      (record machine { trace = log_of 8 high_up }))
show_recent_instructions_endless_example =
    show_recent_instructions_endless no_symbols (log_of 8 high_up) 7 (high_up 7) refl (omega arith)
      high_entry refl (omega arith) 1000 (record machine { trace = log_of 8 high_up }) refl
