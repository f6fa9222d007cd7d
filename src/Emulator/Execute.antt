-- ===== src/Emulator/Execute.antt =====
-- `execute_instruction` of src/tools/hyppotest.c: it fetches six bytes at the program counter and
-- runs the case of the first.
pub mod Switch
pub mod Rows0
pub mod Rows4
pub mod Rows8
pub mod Rowsc
use mega65_core.Prelude.{ℕ, zero, suc, ◌+◌, Bool, true, false, List, [], ◌∷◌, ◌++◌, store, word32}
use mega65_core.Emulator.State.{Regs, Log, Machine, M, ◌>>=◌, ◌>>◌, pure, modify_log}
use mega65_core.Emulator.Memory.{DmaController, read_memory}
use mega65_core.Emulator.Instructions.Flow.{Outcome}
use mega65_core.Emulator.Instructions.Moves.{set_len}
use Switch.{Case, switch}
use Rows0.{row_0, row_1, row_2, row_3}
use Rows4.{row_4, row_5, row_6, row_7}
use Rows8.{row_8, row_9, row_a, row_b}
use Rowsc.{row_c, row_d, row_e, row_f}

-- `log->bytes[i] = read_memory(cpu, cpu->regs.pc + i)`
unfoldable pub fetch_byte : ℕ → M (Unit {0})
fetch_byte i m =
    (do
      v ← read_memory (word32 (m.regs.pc + i))
      modify_log (λ l. record l { bytes = store l.bytes i v }))
      m

unfoldable pub fetch_bytes : M (Unit {0})
unfolding fetch_byte
fetch_bytes = do fetch_byte 0; fetch_byte 1; fetch_byte 2; fetch_byte 3; fetch_byte 4; fetch_byte 5

unfoldable pub unimplemented : M Outcome
unfolding set_len
unimplemented = do set_len 6; pure (Outcome.returned false)

module _ ⦃dma : DmaController⦄ where
  abbrev pub all_cases : List Case
  all_cases =
      row_0
      ++ (row_1
          ++ (row_2
              ++ (row_3
                  ++ (row_4
                      ++ (row_5
                          ++ (row_6
                              ++ (row_7
                                  ++ (row_8
                                      ++ (row_9
                                          ++ (row_a
                                              ++ (row_b
                                                  ++ (row_c
                                                      ++ (row_d ++ (row_e ++ row_f))))))))))))))

  unfoldable pub execute_instruction : M Outcome
  execute_instruction = do fetch_bytes; λ m. switch (m.log.bytes 0) all_cases unimplemented m
