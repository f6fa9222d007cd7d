-- ===== src/Emulator/Tests.antt =====
-- A small machine, runs of it, and the theorems at concrete inputs.
use mega65_core.Prelude.{
  ℕ, ◌+◌, ◌-◌, ◌*◌, ◌≤◌, ◌<◌, ◌≡◌, ◌↔◌, ◌⊎◌, inl, inr, refl, true, false, arith, byte, bool_to_nat,
  ◌==◌, if◌then◌else◌, none, ◌/◌, ◌%◌, ◌^◌, ◌&&◌, not, ltb, word32, min, max,
}
use mega65_core.Emulator.State.{Regs, Bus, Fate, Log, Machine, sp}
use mega65_core.Emulator.Memory.{
  DmaController, cell_of, is_mapped, addr_to_28bit, read_memory28, write_mem28, write_cell,
}
use mega65_core.Emulator.Memory.Mapping.{IsInside, addr_to_28bit-IsInside}
use mega65_core.Emulator.Memory.Access.{flat_address, read_memory28-write_mem28}
use mega65_core.Emulator.Alu.{adc_regs, sbc, update_cmp_flags}
use mega65_core.Emulator.Alu.Laws.{excess, adc_sum, adc_overflow, sbc_difference, compare_flags}
use mega65_core.Emulator.Stack.{stack_push, stack_pop}
use mega65_core.Emulator.Stack.Laws.{StackReady, stack_pop-stack_push}
use mega65_core.Emulator.Instructions.Flow.{branch, jsr, rts, map}
use mega65_core.Emulator.Addressing.{addr_abs}
use mega65_core.Emulator.Instructions.Subroutines.{CallReady, rts-jsr}
use mega65_core.Emulator.Instructions.Laws.{
  branch_target, map-is_mapped, plp_keeps_e_b, ror_a-rol_a,
}
use mega65_core.Emulator.Instructions.Shifts.{rol_a, ror_a}
use mega65_core.Emulator.Instructions.Moves.{plp}
use mega65_core.Emulator.Instructions.Logic.{conjoin_immediate, eor_immediate, ora_immediate}
use mega65_core.Emulator.Instructions.Digits.{logic_bits}
use mega65_core.Prelude.Bits.{bit}
use mega65_core.Emulator.Invariant.Parts.{RegsFit, StoresBytes}
use mega65_core.Emulator.Run.{Settings}
use mega65_core.Emulator.Run.Steps.{IsReady, HoldsBytes}

-- A controller that moves nothing.
abbrev pub no_dma : DmaController
no_dma = record { run = λ e addr s. s }

pub no_dma-StoresBytes : StoresBytes no_dma
no_dma-StoresBytes e addr s h = h

abbrev pub regs : Regs
regs = record {
  pc = 0x1000;
  a = 0x7f;
  x = 2;
  y = 3;
  z = 4;
  flag_c = true;
  flag_z = false;
  flag_i = true;
  flag_d = false;
  flag_b = false;
  flag_e = true;
  flag_v = false;
  flag_n = false;
  b = 0;
  spl = 0xff;
  sph = 1;
  in_hyper = 0;
  map_irq_inhibit = 0;
  maplo = 0;
  maphi = 0x3f00;
  maplomb = 0;
  maphimb = 0xff;
}

-- The program at $1000 is ADC #$01, PHA, JMP $1000.
abbrev program : ℕ → ℕ
program i =
    if i == 0x1000
    then 0x69
    else if i == 0x1001
    then 1
    else if i == 0x1002
    then 0x48
    else if i == 0x1003
    then 0x4c
    else if i == 0x1005
    then 0x10
    else 0

abbrev pub bus : Bus
bus = record {
  chipram = program;
  hypporam = λ i. 0;
  colourram = λ i. 0;
  ffdram = λ i. 0;
  chipram_blame = λ i. 0;
  hypporam_blame = λ i. 0;
  colourram_blame = λ i. 0;
  ffdram_blame = λ i. 0;
  term = record { done = false; error = false; rts = 0; brk = false; log_dma = false };
  instruction_count = 0;
  symbols = record { name = λ i. 0; addr = λ i. 0; count = 0; by_addr = λ a. none };
  fate = Fate.runs;
}

abbrev pub entry : Log
entry = record {
  pc = 0x1000;
  bytes = λ i. 0xfe;
  len = 0;
  dup = 0;
  zp16 = 0;
  zp32 = 0;
  zp_pointer = 0;
  zp_pointer_addr = 0;
  regs = regs;
  count = 1;
  pops = 0;
  pop_blame = λ i. 0;
  overrun = false;
}

abbrev pub machine : Machine
machine = record {
  regs = regs;
  bus = bus;
  stack_overflow = false;
  stack_underflow = false;
  log = entry;
  trace = record {
    entries = λ p. none;
    next_entry = 0;
    cpulog = λ n. none;
    cpulog_len = 1;
    lastataddr = λ n. none;
  };
}

abbrev pub settings : Settings
settings = record {
  breakpoints = λ addr. false;
  fail_on_stack_overflow = true;
  fail_on_stack_underflow = true;
  fresh = λ n. entry;
}

program-lt : (i : ℕ) → program i < 256
program-lt i = ground arith

regs-RegsFit : RegsFit regs
regs-RegsFit = omega arith

pub machine-IsReady : IsReady machine
machine-IsReady = record {
  regs = regs-RegsFit;
  memory = record {
    chipram = program-lt;
    hypporam = λ i. omega arith;
    colourram = λ i. omega arith;
    ffdram = λ i. omega arith;
  };
  bytes = λ i. omega arith;
  base = omega arith;
  trace = refl;
}

pub settings-HoldsBytes : HoldsBytes settings
settings-HoldsBytes n i = omega arith

machine-StackReady : StackReady machine 0x42
unfolding is_mapped sp cell_of flat_address
machine-StackReady = record {
  spl_fits = omega arith;
  sph_fits = omega arith;
  flat = (omega arith, inr (omega arith));
  plain = inl (omega arith);
}

stack_pop-stack_push_example :
    let pushed = (stack_push ⦃dma = no_dma⦄ 0x42 machine).1 in
    ((stack_pop pushed).0 ≡ byte 0x42)
    × ((stack_pop pushed).1.regs ≡ machine.regs)
    × ((stack_pop pushed).1.bus
        ≡ write_cell ⦃dma = no_dma⦄
            (cell_of (flat_address machine.regs (sp machine.regs)))
            (byte 0x42)
            machine.bus)
stack_pop-stack_push_example = stack_pop-stack_push ⦃dma = no_dma⦄ 0x42 machine machine-StackReady

read_memory28-write_mem28_example :
    read_memory28 (write_mem28 ⦃dma = no_dma⦄ 0xffd3020 7 machine).1.bus 0xffd3021
    ≡ (if 0xffd3020 == 0xffd3021 then 7 else read_memory28 machine.bus 0xffd3021)
unfolding cell_of
read_memory28-write_mem28_example =
    read_memory28-write_mem28 ⦃dma = no_dma⦄ 0xffd3020 0xffd3021 7 machine (omega arith)
      (omega arith) (omega arith, omega arith, omega arith)

adc_overflow_example :
    let sum = excess 1 + excess regs.a + bool_to_nat regs.flag_c in
    ((adc_regs 1 regs).flag_v ≡ true) ↔ ((sum < 128) ⊎ (383 < sum))
adc_overflow_example = adc_overflow 1 regs (omega arith) (omega arith)

adc_sum_example :
    (adc_regs 1 regs).a + 256 * bool_to_nat (adc_regs 1 regs).flag_c
    ≡ 1 + regs.a + bool_to_nat regs.flag_c
adc_sum_example = adc_sum 1 regs (omega arith) (omega arith)

sbc_difference_example :
    let r = (sbc 0x80 machine).1.regs in
    r.a + 0x80 + 1 + 256 * bool_to_nat r.flag_c
    ≡ machine.regs.a + bool_to_nat machine.regs.flag_c + 256
sbc_difference_example = sbc_difference 0x80 machine (omega arith) (omega arith) refl

abbrev operand : ℕ
operand = 0xf0

compare_flags_example :
    let r = (update_cmp_flags (byte (regs.a + 256 - operand)) machine).1.regs in
    ((r.flag_z ≡ true) ↔ (regs.a ≡ operand))
    × ((r.flag_c ≡ true)
        ↔ (((operand ≤ regs.a) × (regs.a < operand + 128)) ⊎ (regs.a + 128 < operand)))
compare_flags_example = compare_flags regs.a operand machine (omega arith) (omega arith)

addr_to_28bit-IsInside_example : IsInside (cell_of (addr_to_28bit regs bus 0xd020 true).0)
addr_to_28bit-IsInside_example = addr_to_28bit-IsInside regs bus 0xd020 true (record {
  maplo = omega arith;
  maphi = omega arith;
  maplomb = omega arith;
  maphimb = omega arith;
})

map-is_mapped_example :
    let r = machine.regs in
    let r' = (map machine).1.regs in
    let chosen = λ (v : ℕ). v / 2 ^ (4 + 0x2000 / 2 ^ 13) % 2 == 1 in
    (is_mapped r' 0xa000 ≡ is_mapped r 0xa000)
    × (is_mapped r' 0x2000 ≡ (
        if (r.in_hyper == 0) && not (r.z == 0x0f)
        then chosen r.z
        else if r.x == 0x0f
        then is_mapped r 0x2000
        else chosen r.x))
map-is_mapped_example =
    map-is_mapped machine 0x2000 0xa000 (omega arith) (omega arith) (omega arith) (omega arith)
      (omega arith)

branch_target_example :
    let offset = machine.log.bytes 1 in
    word32 ((branch (λ r. r.flag_c) machine).1.regs.pc + (if ltb offset 0x80 then 0 else 256))
    ≡ word32 (machine.regs.pc + 2 + offset)
branch_target_example = branch_target (λ r. r.flag_c) machine refl (omega arith)

ror_a-rol_a_example :
    let m' = (ror_a (rol_a machine).1).1 in
    (m'.regs.a ≡ machine.regs.a) × (m'.regs.flag_c ≡ machine.regs.flag_c)
ror_a-rol_a_example = ror_a-rol_a machine (omega arith)

plp_keeps_e_b_example :
    let r = (plp machine).1.regs in
    (r.flag_e ≡ machine.regs.flag_e) × (r.flag_b ≡ machine.regs.flag_b)
plp_keeps_e_b_example = plp_keeps_e_b machine

regs-CallReady : CallReady regs
unfolding is_mapped sp cell_of flat_address
regs-CallReady = record {
  spl_fits = omega arith;
  sph_fits = omega arith;
  first = (omega arith, inr (omega arith));
  second = (omega arith, inr (omega arith));
  first_plain = inl (omega arith);
  second_plain = inl (omega arith);
  apart = λ e. ground arith;
}

rts-jsr_example :
    let back = (rts (jsr ⦃dma = no_dma⦄ addr_abs machine).1).1 in
    (back.regs ≡ record machine.regs { pc = machine.regs.pc + 3 })
    × (back.bus.term ≡ machine.bus.term)
rts-jsr_example = rts-jsr ⦃dma = no_dma⦄ machine regs-CallReady (omega arith)

logic_bits_example :
    let v = machine.log.bytes 1 in
    let a = machine.regs.a in
    (bit 3 (ora_immediate machine).1.regs.a ≡ max (bit 3 v) (bit 3 a))
    × (bit 3 (conjoin_immediate machine).1.regs.a ≡ min (bit 3 v) (bit 3 a))
    × (bit 3 (eor_immediate machine).1.regs.a ≡ (bit 3 v + bit 3 a) % 2)
logic_bits_example = logic_bits machine 3 (omega arith)
