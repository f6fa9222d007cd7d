-- ===== src/Emulator/Rig/Faults.antt =====
-- A routine of src/tools/hyppotest.c whose first instruction looks at the one before it.
use mega65_core.Prelude.{◌≡◌, refl, false, none}
use mega65_core.Emulator.State.{Machine, Trace, M}
use mega65_core.Emulator.Memory.{DmaController, read_memory}
use mega65_core.Emulator.Execute.{execute_instruction, fetch_bytes, fetch_byte, all_cases}
use mega65_core.Emulator.Execute.Switch.{switch}
use mega65_core.Emulator.Execute.Rows0.{row_0, row_1, row_2, row_3}
use mega65_core.Emulator.Execute.Rows4.{row_4, row_5, row_6, row_7}
use mega65_core.Emulator.Execute.Rows8.{row_8, row_9}
use mega65_core.Emulator.Instructions.Moves.{advance, set_len}
use mega65_core.Emulator.Instructions.Flow.{
  Outcome, save_z_indirect, save_after, follows_nop, entry_at,
}
use mega65_core.Emulator.Run.{Settings, add_entry, after_execution, decided, cpu_step}
use mega65_core.Emulator.Rig.Calls.{cpu_log_reset}

module _ ⦃dma : DmaController⦄ where
  sta_crashes :
      (m : Machine)
      → m.trace.cpulog_len ≡ 2
      → m.trace.cpulog 0 ≡ none
      → (save_z_indirect m).0 ≡ Outcome.crashed
  unfolding save_z_indirect save_after follows_nop entry_at advance set_len
  sta_crashes m h k = simp (h, k)

  opcode_92 :
      (otherwise : M Outcome) (m : Machine) → switch 0x92 all_cases otherwise m ≡ save_z_indirect m
  unfolding switch row_0 row_1 row_2 row_3 row_4 row_5 row_6 row_7 row_8 row_9
  opcode_92 otherwise m = refl

  fetch_bytes-trace : (m : Machine) → (fetch_bytes m).1.trace ≡ m.trace
  unfolding fetch_bytes fetch_byte read_memory
  fetch_bytes-trace m = refl

  execute_crashes :
      (m : Machine)
      → m.trace.cpulog_len ≡ 2
      → m.trace.cpulog 0 ≡ none
      → (fetch_bytes m).1.log.bytes 0 ≡ 0x92
      → (execute_instruction m).0 ≡ Outcome.crashed
  unfolding execute_instruction
  execute_crashes m h k e =
      let fetched = (fetch_bytes m).1 in
      let len : fetched.trace.cpulog_len ≡ 2 = rw (fetch_bytes-trace m) h in
      let null : fetched.trace.cpulog 0 ≡ none = rw (fetch_bytes-trace m) k in
      rw e (rw (opcode_92 _ fetched) (sta_crashes fetched len null))

crashed-stays :
    (settings : Settings) (o : Outcome) (m : Machine)
    → o ≡ Outcome.crashed
    → (after_execution settings o m).0 ≡ Outcome.crashed
unfolding after_execution
crashed-stays settings o m h = rw h

decided-crashed : (o : Outcome) (m : Machine) → o ≡ Outcome.crashed → decided o m ≡ Outcome.crashed
unfolding decided
decided-crashed o m h = rw h

-- A step right after the log is reset crashes where the opcode that it fetches is STA ($xx),Z and no
-- breakpoint stops it: the instruction looks for its predecessor in an entry that is NULL.
pub cpu_step_after_reset :
    ⦃dma : DmaController⦄ (settings : Settings) (m : Machine) (t : Trace)
    → m.trace ≡ cpu_log_reset t
    → settings.breakpoints m.regs.pc ≡ false
    → (fetch_bytes (add_entry settings m)).1.log.bytes 0 ≡ 0x92
    → (cpu_step settings m).0 ≡ Outcome.crashed
unfolding cpu_step
cpu_step_after_reset settings m t reset free e =
    let len : (add_entry settings m).trace.cpulog_len ≡ 2 =
      unfold add_entry cpu_log_reset in simp reset in
    let null : (add_entry settings m).trace.cpulog 0 ≡ none =
      unfold add_entry cpu_log_reset in simp reset in
    rw free (
      crashed-stays settings _ _
        (decided-crashed _ _ (execute_crashes (add_entry settings m) len null e)))
