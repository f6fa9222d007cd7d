-- ===== src/Emulator/Run.antt =====
-- `cpu_step` and `cpu_run` of src/tools/hyppotest.c, with `identical_cpustates`.
pub mod Steps
pub mod Total
use mega65_core.Prelude.{
  ℕ, zero, suc, ◌+◌, ◌-◌, ◌*◌, ◌<◌, Bool, true, false, ◌&&◌, ltb, leb, ◌==◌, if◌then◌else◌, store,
  Option, none, some,
}
use mega65_core.Emulator.State.{
  Regs, Bus, Log, Trace, Termination, Machine, M, ◌>>=◌, ◌>>◌, pure, flags_byte, set_error,
  set_error_listing, Fate,
}
use mega65_core.Emulator.Memory.{DmaController, memory_blame}
use mega65_core.Emulator.Instructions.Flow.{Outcome, entry_at}
use mega65_core.Emulator.Execute.{execute_instruction}

-- The globals that a run reads and does not change. `fresh n` is what the block holds that `malloc`
-- returns for the entry number n: `cpu_step` sets only some of its fields.
pub record Settings : Type 0 where
  pub breakpoints : ℕ → Bool
  pub fail_on_stack_overflow : Bool
  pub fail_on_stack_underflow : Bool
  pub fresh : ℕ → Log

abbrev pub max_log_length : ℕ
max_log_length = 32 * 1024 * 1024

abbrev pub infinite_loop_threshold : ℕ
infinite_loop_threshold = 65536

unfoldable pub same_regs : Regs → Regs → Bool
unfolding flags_byte
same_regs r s =
    r.pc == s.pc
    && r.a == s.a
    && r.x == s.x
    && r.y == s.y
    && r.z == s.z
    && flags_byte r == flags_byte s
    && r.b == s.b
    && r.spl == s.spl
    && r.sph == s.sph
    && r.in_hyper == s.in_hyper
    && r.map_irq_inhibit == s.map_irq_inhibit
    && r.maplo == s.maplo
    && r.maphi == s.maphi
    && r.maplomb == s.maplomb
    && r.maphimb == s.maphimb

abbrev pub same_below : ℕ → (ℕ → ℕ) → (ℕ → ℕ) → Bool
same_below zero f g = true
same_below (suc n) f g = f n == g n && same_below n f g

-- `memcmp` over the whole entry but `count`. The bytes of padding count as equal.
unfoldable pub identical_cpustates : Log → Log → Bool
unfolding same_regs
identical_cpustates k l =
    k.pc == l.pc
    && same_below 6 k.bytes l.bytes
    && k.len == l.len
    && k.dup == l.dup
    && k.zp16 == l.zp16
    && k.zp32 == l.zp32
    && k.zp_pointer == l.zp_pointer
    && k.zp_pointer_addr == l.zp_pointer_addr
    && same_regs k.regs l.regs
    && k.pops == l.pops
    && same_below 4 k.pop_blame l.pop_blame

abbrev pub with_term : (Termination → Termination) → Machine → Machine
with_term f m = record m { bus = record m.bus { term = f m.bus.term } }

abbrev pub fail : Machine → Machine
fail m = record m { bus = set_error m.bus }

-- An error after which the latest instructions are listed.
abbrev pub fail_listing : Machine → Machine
fail_listing m = record m { bus = set_error_listing m.bus }

module _ (settings : Settings) where
  -- The entry for the instruction at the program counter.
  unfoldable pub new_entry : Machine → Log
  new_entry m = record (settings.fresh m.trace.next_entry) {
    regs = m.regs;
    pc = m.regs.pc;
    len = 0;
    count = 1;
    dup = 0;
    overrun = false;
  }

  -- `cpu.instruction_count = cpulog_len; cpulog[cpulog_len++] = log;`
  unfoldable pub add_entry : Machine → Machine
  unfolding new_entry
  add_entry m =
      let t = m.trace in
      record m {
        log = new_entry m;
        bus = record m.bus { instruction_count = t.cpulog_len };
        trace = record t {
          entries = store t.entries t.next_entry (some (new_entry m));
          next_entry = suc t.next_entry;
          cpulog = store t.cpulog t.cpulog_len (some t.next_entry);
          cpulog_len = suc t.cpulog_len;
        };
      }

-- The instruction has written to its entry, at the pointer that was allocated last.
unfoldable pub keep_entry : Machine → Machine
keep_entry m =
    let t = m.trace in
    record m { trace = record t { entries = store t.entries (t.next_entry - 1) (some m.log) } }

-- The entry of the instruction becomes the latest at the new program counter.
unfoldable pub renew : M Outcome
renew m =
    let t = m.trace in
    (
      Outcome.returned true,
      record m {
        trace = record t { lastataddr = store t.lastataddr m.regs.pc (some (t.next_entry - 1)) };
      },
    )

-- `last`, at the pointer `p`, is the latest entry at the new program counter, `none` if it has been
-- freed. If it is identical, its count is raised; otherwise the new entry takes its place.
unfoldable pub compare_entries : ℕ → Option Log → M Outcome
unfolding identical_cpustates renew
compare_entries p none m = (Outcome.crashed, m)
compare_entries p (some last) m =
    let t = m.trace in
    let counted = store t.entries p (some (record last { count = last.count + 1 })) in
    let log' = record m.log { dup = 1 } in
    if identical_cpustates last m.log
    then (
      Outcome.returned true,
      record m {
        log = log';
        trace = record t { entries = store counted (t.next_entry - 1) (some log') };
      },
    )
    else renew m

-- Reading through a pointer to a freed entry is undefined behaviour: a crash.
unfoldable pub note_at : Option ℕ → M Outcome
unfolding renew compare_entries
note_at none m = renew m
note_at (some p) m = compare_entries p (m.trace.entries p) m

unfoldable pub note_address : M Outcome
unfolding note_at
note_address m = note_at (m.trace.lastataddr m.regs.pc) m

-- The checks after the instruction, from the stack on.
unfoldable pub check_stack : Settings → M Outcome
check_stack settings m =
    if m.stack_underflow && settings.fail_on_stack_underflow
    then (Outcome.returned false, fail_listing m)
    else (let calm = record m { stack_underflow = false } in
        if calm.stack_overflow && settings.fail_on_stack_overflow
        then (Outcome.returned false, fail_listing calm)
        else note_address (record calm {
          stack_overflow = false;
          bus = record m.bus { instruction_count = m.trace.cpulog_len };
        }))

-- What has happened below the handler decides: a job that died or has not returned, or a write past
-- the end of the entry, which is undefined behaviour.
unfoldable pub by_fate : Fate → Outcome → Outcome
by_fate Fate.crashed o = Outcome.crashed
by_fate Fate.unfinished o = Outcome.unfinished
by_fate Fate.runs o = o
by_fate Fate.lists o = o

unfoldable pub decided : Outcome → Machine → Outcome
unfolding by_fate
decided Outcome.crashed m = Outcome.crashed
decided Outcome.unfinished m = Outcome.unfinished
decided (Outcome.returned b) m =
    if m.log.overrun then Outcome.crashed else by_fate m.bus.fate (Outcome.returned b)

-- What follows the instruction, by how it ended.
unfoldable pub after_execution : Settings → Outcome → M Outcome
unfolding check_stack
after_execution settings Outcome.crashed m = (Outcome.crashed, m)
after_execution settings Outcome.unfinished m = (Outcome.unfinished, m)
after_execution settings (Outcome.returned false) m = (Outcome.returned false, fail_listing m)
after_execution settings (Outcome.returned true) m =
    if m.bus.term.done then (Outcome.returned false, m) else check_stack settings m

-- The test for an infinite loop, on the entry at the new program counter.
unfoldable pub looped : Machine → Option Bool
unfolding entry_at
looped m = elim (entry_at m.trace (m.trace.lastataddr m.regs.pc)) [
  | none ↦ none
  | some entry ↦ some (ltb infinite_loop_threshold entry.count)
]

-- The rest of a round of the loop, after `cpu_step`; `none` is another round.
unfoldable pub end_of_round : Outcome → Machine → Option (Outcome × Machine)
unfolding looped
end_of_round Outcome.crashed m = some (Outcome.crashed, m)
end_of_round Outcome.unfinished m = some (Outcome.unfinished, m)
end_of_round (Outcome.returned false) m = some (Outcome.returned false, m)
end_of_round (Outcome.returned true) m = elim (looped m) [
  | none ↦ some (Outcome.crashed, m)
  | some stuck ↦ if stuck then some (Outcome.returned false, fail_listing m) else none
]

module _ ⦃dma : DmaController⦄ (settings : Settings) where
  unfoldable pub cpu_step : M Outcome
  unfolding add_entry keep_entry decided after_execution
  cpu_step m =
      if settings.breakpoints m.regs.pc
      then (Outcome.returned false, with_term (λ t. record t { done = true }) m)
      else (let (ended, m') = execute_instruction (add_entry settings m) in
          after_execution settings (decided ended m') (keep_entry m'))

  -- One round of the loop of `cpu_run`, with its tests: how the loop ends, or the next state.
  unfoldable pub round : Machine → Option (Outcome × Machine) × Machine
  unfolding cpu_step end_of_round
  round m =
      if ltb m.trace.cpulog_len max_log_length
      then (if m.bus.term.done
          then (some (Outcome.returned true, m), m)
          else (let (ended, m') = cpu_step m in (end_of_round ended m', m')))
      else (some (Outcome.returned true, m), m)

  -- The loop on fuel; `none` means that the fuel ran out.
  unfoldable pub run_loop : ℕ → Machine → Option (Outcome × Machine)
  run_loop zero m = none
  run_loop (suc fuel) m =
      let rest = run_loop fuel (round m).1 in elim (round m).0 [ some end ↦ some end | none ↦ rest ]

  unfoldable pub cpu_run : Machine → Option (Outcome × Machine)
  cpu_run m =
      run_loop (suc max_log_length) (record m { stack_overflow = false; stack_underflow = false })
