-- ===== src/Emulator/Rig/Tests.antt =====
-- Routines called and compared at a concrete machine.
use mega65_core.Prelude.{ℕ, ◌+◌, ◌≡◌, ◌↔◌, refl, true, false, ◌&&◌, leb, arith, if◌then◌else◌, some}
use mega65_core.Emulator.State.{Machine, chipram_size, hypporam_size, colourram_size}
use mega65_core.Emulator.Memory.{
  cell_of, write_cell, read_cell, read_memory, read_memory28, addr_to_28bit, is_mapped, map_address,
  c64_bank, port_lines,
}
use mega65_core.Emulator.Execute.{fetch_bytes, fetch_byte}
use mega65_core.Emulator.Instructions.Flow.{Outcome}
use mega65_core.Emulator.Run.{add_entry, cpu_step, cpu_run, run_loop, round}
use mega65_core.Emulator.Run.Steps.{IsReady}
use mega65_core.Emulator.Rig.{Rig}
use mega65_core.Emulator.Rig.Registers.{SameRegisters, compare_register_contents_lem}
use mega65_core.Emulator.Rig.Expect.{Agrees, write_mem_expected28, write_mem_expected28-Agrees}
use mega65_core.Emulator.Rig.Compare.{
  AgreeBelow, compare_ram_contents, compare_ram_contents_lem, compare_register_contents,
  ignore_ram_changes, ignore_ram_changes_lem,
}
use mega65_core.Emulator.Rig.Calls.{
  cpu_log_reset, prepare_call, call_regs, cpu_stash_ram, finish_call, end_call, judge_call,
  cpu_call_routine, cpu_call_routine-true,
}
use mega65_core.Emulator.Rig.Faults.{cpu_step_after_reset}
use mega65_core.Emulator.Rig.Init.{
  IsClear, machine_init, compare_ram_contents-machine_init, hypervisor_cell,
  machine_init-hypervisor_cell,
}
use mega65_core.Emulator.Tests.{
  no_dma, no_dma-StoresBytes, regs, bus, machine, machine-IsReady, settings, settings-HoldsBytes,
}

abbrev rig : Rig
rig = record {
  machine = machine;
  expected = record {
    chipram = λ i. 0;
    hypporam = λ i. 0;
    colourram = λ i. 0;
    ffdram = λ i. 0;
    regs = record regs { a = 0 };
  };
}

compare_ram_contents_lem_example : ((compare_ram_contents rig).0 ≡ 0) ↔ (
    AgreeBelow chipram_size bus.chipram rig.expected.chipram
    × AgreeBelow hypporam_size bus.hypporam rig.expected.hypporam
    × AgreeBelow colourram_size bus.colourram rig.expected.colourram
    × AgreeBelow 65536 bus.ffdram rig.expected.ffdram)
compare_ram_contents_lem_example = compare_ram_contents_lem rig

compare_register_contents_lem_example :
    ((compare_register_contents rig).0 ≡ false)
    ↔ ((bus.term.error ≡ false) × SameRegisters regs rig.expected.regs)
compare_register_contents_lem_example = compare_register_contents_lem rig

-- STA ($00),Z at $1000, right after a reset of the log.
abbrev reset_machine : Machine
reset_machine = record machine {
  bus = record bus { chipram = λ i. 0x92 };
  trace = cpu_log_reset machine.trace;
}

cpu_step_after_reset_example : (cpu_step ⦃dma = no_dma⦄ settings reset_machine).0 ≡ Outcome.crashed
unfolding fetch_bytes fetch_byte read_memory read_memory28 read_cell cell_of addr_to_28bit is_mapped
    map_address c64_bank port_lines add_entry
cpu_step_after_reset_example =
    cpu_step_after_reset ⦃dma = no_dma⦄ settings reset_machine machine.trace refl refl refl

abbrev blank_rig : Rig
blank_rig = record rig { machine = record machine { bus = record bus { chipram = λ i. 0 } } }

blank_rig-IsClear : IsClear blank_rig.machine.bus
blank_rig-IsClear = record {
  chipram = λ i. refl;
  hypporam = λ i. refl;
  colourram = λ i. refl;
  ffdram = λ i. refl;
}

compare_ram_contents-machine_init_example : (compare_ram_contents (machine_init blank_rig)).0 ≡ 0
compare_ram_contents-machine_init_example =
    compare_ram_contents-machine_init blank_rig blank_rig-IsClear

write_mem_expected28-Agrees_example :
    Agrees
      (write_cell ⦃dma = no_dma⦄ (cell_of 0xff80010) 7 blank_rig.machine.bus)
      (write_mem_expected28 0xff80010 7 blank_rig.expected)
unfolding cell_of
write_mem_expected28-Agrees_example =
    write_mem_expected28-Agrees ⦃dma = no_dma⦄ 0xff80010 7 blank_rig.machine.bus blank_rig.expected
      tt
      (record {
        chipram = λ i. refl;
        hypporam = λ i. refl;
        colourram = λ i. refl;
        ffdram = λ i. refl;
      })

ignore_ram_changes_lem_example :
    let within = λ (a : ℕ). leb 0x1000 a && leb a 0x1003 in
    (g' : Rig) × (ignore_ram_changes 0x1000 0x1003 rig ≡ some g')
    × (g'.expected.chipram 0x1002
        ≡ (if within 0x1002 then bus.chipram 0x1002 else rig.expected.chipram 0x1002))
    × (g'.expected.hypporam 5
        ≡ (if within (0xfff8000 + 5) then bus.hypporam 5 else rig.expected.hypporam 5))
    × (g'.machine ≡ rig.machine)
    × (g'.expected.colourram ≡ rig.expected.colourram)
    × (g'.expected.ffdram ≡ rig.expected.ffdram)
ignore_ram_changes_lem_example =
    ignore_ram_changes_lem 0x1000 0x1003 rig 0x1002 5 (omega arith) (omega arith) (omega arith)

machine_init-hypervisor_cell_example :
    let m = (machine_init rig).machine in
    (cell_of (addr_to_28bit m.regs m.bus 0x8123 false).0 ≡ hypervisor_cell 0x8123 false)
    × (m.trace.cpulog_len ≡ 0)
    × (m.bus.fate ≡ rig.machine.bus.fate)
machine_init-hypervisor_cell_example = machine_init-hypervisor_cell rig 0x8123 false (omega arith)

-- A call right where the termination condition is met already.
abbrev done_machine : Machine
done_machine = record machine { bus = record bus { term = record bus.term { done = true } } }

done_machine-IsReady : IsReady done_machine
done_machine-IsReady = record {
  regs = machine-IsReady.regs;
  memory = record {
    chipram = machine-IsReady.memory.chipram;
    hypporam = machine-IsReady.memory.hypporam;
    colourram = machine-IsReady.memory.colourram;
    ffdram = machine-IsReady.memory.ffdram;
  };
  bytes = machine-IsReady.bytes;
  base = machine-IsReady.base;
  trace = refl;
}

abbrev done_rig : Rig
done_rig = record rig { machine = done_machine }

abbrev called_rig : Rig
called_rig =
    let prepared = prepare_call 0x1000 done_rig in
    record {
      machine = record prepared.machine { stack_overflow = false; stack_underflow = false };
      expected = prepared.expected;
    }

done_call :
    cpu_call_routine ⦃dma = no_dma⦄ settings 0x1000 done_rig
    ≡ some (Outcome.returned true, called_rig)
unfolding cpu_call_routine prepare_call call_regs cpu_stash_ram cpu_log_reset addr_to_28bit cpu_run
    run_loop round finish_call end_call judge_call
done_call = refl

cpu_call_routine-true_example :
    (done_rig.machine.bus.term.done ≡ true)
    × (called_rig.machine.regs.pc ≡ 0x1000)
    × (called_rig.machine.trace.cpulog_len ≡ 1)
    × (called_rig.machine.bus.term.brk ≡ false)
    × (called_rig.expected.chipram ≡ done_rig.machine.bus.chipram)
    × (called_rig.expected.hypporam ≡ done_rig.machine.bus.hypporam)
cpu_call_routine-true_example =
    cpu_call_routine-true ⦃dma = no_dma⦄ settings settings-HoldsBytes no_dma-StoresBytes 0x1000
      done_rig called_rig (omega arith) done_machine-IsReady done_call
