-- ===== src/Emulator/Disassemble/Rows.antt =====
-- Which entries of the log `show_recent_instructions` of src/tools/hyppotest.c lists.
use mega65_core.Prelude.{
  ℕ, zero, suc, ◌-◌, ◌≤◌, ◌<◌, ◌≡◌, refl, ◌∙◌, inl, inr, arith, Bool, true, false, ◌&&◌, not, ◌==◌,
  ltb, leb, min, Bool-cases, List, [], ◌∷◌, if◌then◌else◌,
}
use mega65_core.Emulator.State.{Log, Machine, Regs, Bus}
use mega65_core.Emulator.Memory.{addr_to_28bit}
use mega65_core.Emulator.Describe.{SymbolList}
use mega65_core.Emulator.Disassemble.Listing.{Shown, shown, cpulog_entry}
use mega65_core.Emulator.Disassemble.Depth.{IsBackward, disassemble_instruction-Shows}
use mega65_core.Emulator.Disassemble.Recent.{
  Row, ListedLine, no_history, machine_reset, omitted, instruction, at_index, show_entry,
  show_entries, show_recent_instructions,
}

-- The indices of the entries among the lines.
abbrev pub indices : List ListedLine → List ℕ
indices [] = []
indices (instruction row ∷ lines) = row.index ∷ indices lines
indices (no_history ∷ lines) = indices lines
indices (machine_reset ∷ lines) = indices lines
indices (omitted ∷ lines) = indices lines

-- Whether an entry is marked as a duplicate.
unfoldable pub is_dup : Machine → ℕ → Bool
is_dup m i = elim (cpulog_entry m i) [ shown log ↦ not (log.dup == 0) | _ ↦ false ]

-- `n` numbers from `i` on, and those of them that are no duplicates or are `first`.
abbrev pub range : ℕ → ℕ → List ℕ
range i zero = []
range i (suc n) = i ∷ range (suc i) n

abbrev pub without_dups : Machine → ℕ → List ℕ → List ℕ
without_dups m first [] = []
without_dups m first (i ∷ is) =
    let rest = without_dups m first is in if is_dup m i && ltb first i then rest else i ∷ rest

indices_after_omitted :
    (was_dup : Bool) (lines : List ListedLine)
    → indices (if was_dup then lines else omitted ∷ lines) ≡ indices lines
indices_after_omitted true lines = refl
indices_after_omitted false lines = refl

addr_to_28bit_bus :
    (r : Regs) (s : Bus) (addr : ℕ) (write_p : Bool)
    → addr ≤ 0xffff
    → (addr_to_28bit r s addr write_p).1 ≡ s
unfolding addr_to_28bit
addr_to_28bit_bus r s addr write_p h =
    let within : ltb 0xffff addr ≡ false = ground arith in rw within refl

is_dup-entry :
    (m : Machine) (i : ℕ) (log : Log)
    → cpulog_entry m i ≡ shown log
    → is_dup m i ≡ not (log.dup == 0)
unfolding is_dup
is_dup-entry m i log e = ground (arith, e)

module _ (complain : Machine → Shown (Unit {0})) (depth : ℕ) (hyppo : SymbolList) (m : Machine)
    (b : IsBackward m) (deep : m.trace.cpulog_len ≤ depth)
    (low : (i : ℕ) (log : Log) → cpulog_entry m i ≡ shown log → log.regs.pc ≤ 0xffff) where
  show_entry-row :
      (i : ℕ) (log : Log)
      → 0 < i
      → i < m.trace.cpulog_len
      → cpulog_entry m i ≡ shown log
      → (row : Row) × (show_entry complain depth hyppo m i log ≡ shown (row, m)) × (row.index ≡ i)
  unfolding show_entry
  show_entry-row i log pos lt e =
      let within : ltb 0xffff log.regs.pc ≡ false = ground (arith, low i log e) in
      let same_bus = addr_to_28bit_bus m.regs m.bus log.regs.pc false (low i log e) in
      let (text, e') =
        disassemble_instruction-Shows complain m b depth i log (omega arith) pos lt e in
      rw within (rw same_bus (rw e' (_, refl, refl)))

  -- The lines from `i` on.
  abbrev Lists : ℕ → ℕ → ℕ → Bool → Type 0
  Lists first left i was_dup =
      (lines : List ListedLine) × (show_entries complain depth hyppo first left i was_dup m
        ≡ shown (lines, m))
      × (indices lines ≡ without_dups m first (range i (min left (m.trace.cpulog_len - i))))

  inside_step :
      (first left i : ℕ) (was_dup : Bool) (log : Log)
      → 0 < i
      → i < m.trace.cpulog_len
      → cpulog_entry m i ≡ shown log
      → ((was : Bool) → Lists first left (suc i) was)
      → Lists first (suc left) i was_dup
  unfolding show_entries
  inside_step first left i was_dup log pos lt e rest =
      let inside : leb m.trace.cpulog_len i ≡ false = ground arith in
      let later : (i == 0) ≡ false = ground arith in
      let some_left : min (suc left) (m.trace.cpulog_len - i)
          ≡ suc (min left (m.trace.cpulog_len - suc i)) =
        omega arith in
      rw inside (
        rw later (
          rw e (
            rw some_left (
              rw (is_dup-entry m i log e) (elim (Bool-cases (not (log.dup == 0) && ltb first i)) [
                | inl skip ↦
                    let (lines, e', listed) = rest true in
                    rw skip (rw e' (_, refl, indices_after_omitted was_dup lines ∙ listed))
                | inr keep ↦
                    let (row, e', index) = show_entry-row i log pos lt e in
                    let (lines, e'', listed) = rest false in rw keep (rw e' (rw e'' (_, refl, cc)))
              ])))))

  show_entries-indices : (first left i : ℕ) (was_dup : Bool) → 0 < i → Lists first left i was_dup
  unfolding show_entries
  show_entries-indices first zero i was_dup pos =
      let nothing : min 0 (m.trace.cpulog_len - i) ≡ 0 = omega arith in ([], refl, rw nothing refl)
  show_entries-indices first (suc left) i was_dup pos =
      elim (Bool-cases (leb m.trace.cpulog_len i)) [
        | inl past ↦
            let nothing : min (suc left) (m.trace.cpulog_len - i) ≡ 0 = ground arith in
            rw past ([], refl, rw nothing refl)
        | inr inside ↦
            let (log, e) = b.present i pos (ground arith) in
            inside_step first left i was_dup log pos (ground arith) e
              (λ was. show_entries-indices first left (suc i) was (omega arith))
      ]

-- Where the log is in order (`IsBackward`) and no entry in it stems from above $FFFF, a listing from an
-- entry of the log on ends, with a depth above the length of the log, and leaves the machine as it
-- is. Of as many entries as are asked for, it lists those that are in the log, in order and without the
-- duplicates, but with the first entry in any case.
pub show_recent_instructions-indices :
    (depth : ℕ) (hyppo : SymbolList) (m : Machine) (first count : ℕ)
    → IsBackward m
    → m.trace.cpulog_len ≤ depth
    → ((i : ℕ) (log : Log) → cpulog_entry m i ≡ shown log → log.regs.pc ≤ 0xffff)
    → 0 < first
    → (lines : List ListedLine) × (show_recent_instructions
          (suc depth)
          hyppo
          (at_index first)
          count
          m
        ≡ shown (lines, m))
      × (indices lines
          ≡ without_dups m first (range first (min count (m.trace.cpulog_len - first))))
unfolding show_recent_instructions
show_recent_instructions-indices depth hyppo m zero count b deep low pos = absurd (omega arith)
show_recent_instructions-indices depth hyppo m (suc f) count b deep low pos =
    show_entries-indices _ depth hyppo m b deep low (suc f) count (suc f) false pos
