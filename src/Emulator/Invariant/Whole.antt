-- ===== src/Emulator/Invariant/Whole.antt =====
-- `execute_instruction` of src/tools/hyppotest.c as a whole, and the invariant.
use mega65_core.Prelude.{ℕ, ◌<◌, arith, store}
use mega65_core.Emulator.State.{Trace, Machine}
use mega65_core.Emulator.Memory.{DmaController}
use mega65_core.Emulator.Execute.{
  fetch_byte, fetch_bytes, unimplemented, all_cases, execute_instruction,
}
use mega65_core.Emulator.Invariant.Parts.{IsValid, StoresBytes, read_memory-IsValid, read_memory-lt}
use mega65_core.Emulator.Invariant.Handlers.{set_len-IsValid}
use mega65_core.Emulator.Invariant.AllKeep.{AllKeep, AllKeep-append, switch-keeps}
use mega65_core.Emulator.Invariant.Cases.Rows0.{row_0-keeps, row_1-keeps, row_2-keeps, row_3-keeps}
use mega65_core.Emulator.Invariant.Cases.Rows4.{row_4-keeps, row_5-keeps, row_6-keeps, row_7-keeps}
use mega65_core.Emulator.Invariant.Cases.Rows8.{row_8-keeps, row_9-keeps, row_a-keeps, row_b-keeps}
use mega65_core.Emulator.Invariant.Cases.Rowsc.{row_c-keeps, row_d-keeps, row_e-keeps, row_f-keeps}

store_byte :
    {t : Trace} (i w : ℕ) (m : Machine)
    → w < 256
    → IsValid t m
    → IsValid t (record m { log = record m.log { bytes = store m.log.bytes i w } })
store_byte i w m h v = record {
  regs = v.regs;
  memory = v.memory;
  bytes = λ j. ground (arith, v.bytes j, h);
  base = v.base;
  trace = v.trace;
}

module _ {t : Trace} where
  fetch_byte-IsValid : (i : ℕ) (m : Machine) → IsValid t m → IsValid t (fetch_byte i m).1
  unfolding fetch_byte
  fetch_byte-IsValid i m v = store_byte i _ _ (read_memory-lt _ m v) (read_memory-IsValid _ m v)

  fetch_bytes-IsValid : (m : Machine) → IsValid t m → IsValid t (fetch_bytes m).1
  unfolding fetch_bytes
  fetch_bytes-IsValid m v = fetch_byte-IsValid 5 _ (
      fetch_byte-IsValid 4 _ (
        fetch_byte-IsValid 3 _
          (fetch_byte-IsValid 2 _ (fetch_byte-IsValid 1 _ (fetch_byte-IsValid 0 m v)))))

  unimplemented-IsValid : (m : Machine) → IsValid t m → IsValid t (unimplemented m).1
  unfolding unimplemented
  unimplemented-IsValid m v = set_len-IsValid 6 m v

module _ ⦃dma : DmaController⦄ (stores : StoresBytes dma) where
  all_cases-keep : (t : Trace) → AllKeep t all_cases
  all_cases-keep t = AllKeep-append (row_0-keeps stores t) (
      AllKeep-append (row_1-keeps stores t) (
        AllKeep-append (row_2-keeps stores t) (
          AllKeep-append (row_3-keeps stores t) (
            AllKeep-append (row_4-keeps stores t) (
              AllKeep-append (row_5-keeps stores t) (
                AllKeep-append (row_6-keeps stores t) (
                  AllKeep-append (row_7-keeps stores t) (
                    AllKeep-append (row_8-keeps stores t) (
                      AllKeep-append (row_9-keeps stores t) (
                        AllKeep-append (row_a-keeps stores t) (
                          AllKeep-append (row_b-keeps stores t) (
                            AllKeep-append (row_c-keeps stores t) (
                              AllKeep-append (row_d-keeps stores t) (
                                AllKeep-append (row_e-keeps stores t)
                                  (row_f-keeps stores t)))))))))))))))

  -- From a machine that keeps the invariant, with a DMA controller that stores bytes, every
  -- instruction, also one that is not implemented, leaves each register, each memory cell and each
  -- operand byte in the range of its C type, and does not touch the log of the instructions before it.
  pub execute_instruction-IsValid :
      {t : Trace} (m : Machine) → IsValid t m → IsValid t (execute_instruction m).1
  unfolding execute_instruction
  execute_instruction-IsValid {t} m v =
      switch-keeps _ unimplemented (all_cases-keep t) (λ k w. unimplemented-IsValid k w) _
        (fetch_bytes-IsValid m v)
