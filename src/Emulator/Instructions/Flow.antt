-- ===== src/Emulator/Instructions/Flow.antt =====
-- Branches, jumps, calls, MAP, and the instruction that can follow a 32-bit pointer.
use mega65_core.Prelude.{
  ℕ, ◌+◌, ◌-◌, ◌*◌, ◌/◌, ◌^◌, bit_or, Bool, true, false, ◌==◌, ltb, if◌then◌else◌, word32, Option,
  none, some,
}
use mega65_core.Prelude.Bits.{bit}
use mega65_core.Emulator.State.{
  Regs, Log, Trace, Termination, Machine, M, ◌>>=◌, ◌>>◌, modify_regs, modify_log, modify_bus,
  get_regs,
}
use mega65_core.Emulator.Memory.{DmaController, read_memory, write_mem28, write_mem16}
use mega65_core.Emulator.Addressing.{rel8_delta, rel16_delta, addr_zp, addr_izpz, addr_izpz32}
use mega65_core.Emulator.Stack.{stack_pop, stack_push}
use mega65_core.Emulator.Instructions.Moves.{advance, set_len, pull_flags, operand}

-- How `execute_instruction` ends: it returns, it dies, as when it follows a NULL pointer, or a DMA job
-- that it starts does not return within the fuel and the depth of the model.
pub data Outcome : Type 0 where
  returned : Bool → Outcome
  crashed : Outcome
  unfinished : Outcome

abbrev pub set_pc : ℕ → M (Unit {0})
set_pc v = modify_regs (λ r. record r { pc = v })

-- Bxx $rr: `taken` is the condition on the flags.
unfoldable pub branch : (Regs → Bool) → M (Unit {0})
branch taken = do
  set_len 2
  r ← get_regs
  offset ← operand 1
  advance (if taken r then 2 + rel8_delta offset else 2)

-- Bxx $rrrr. The cases differ in the `base` of the target and in the operand bytes that they read.
unfoldable pub long_branch : (Regs → Bool) → ℕ → (Machine → ℕ) → M (Unit {0})
long_branch taken base offset m =
    (do set_len 3; advance (if taken m.regs then base + rel16_delta (offset m) else 3)) m

abbrev pub low_operand : Machine → ℕ
low_operand m = m.log.bytes 1

-- BBRk and BBSk: the branch is taken if bit k of the byte in the base page is `wanted`.
unfoldable pub branch_on_bit : ℕ → ℕ → M (Unit {0})
branch_on_bit k wanted = do
  address ← addr_zp
  v ← read_memory address
  offset ← operand 2
  advance (if bit k v == wanted then rel8_delta offset else 0)
  advance 3
  set_len 3

unfoldable pub jmp : M ℕ → M (Unit {0})
jmp mode = do address ← mode; set_pc address; set_len 3

abbrev pub modify_term : (Termination → Termination) → M (Unit {0})
modify_term f = modify_bus (λ s. record s { term = f s.term })

-- `if (cpu->term.rts) cpu->term.rts++`
unfoldable pub count_call : Termination → Termination
count_call t = if t.rts == 0 then t else record t { rts = t.rts + 1 }

unfoldable pub count_return : Termination → Termination
count_return t =
    if t.rts == 0
    then t
    else if t.rts == 1
    then record t { rts = 0; done = true }
    else record t { rts = t.rts - 1 }

-- `pc = stack_pop(cpu, log); pc |= stack_pop(cpu, log) << 8`
unfoldable pub pull_pc : M (Unit {0})
pull_pc = do
  lo ← stack_pop
  set_pc lo
  hi ← stack_pop
  modify_regs (λ r. record r { pc = bit_or r.pc (hi * 2 ^ 8) })

unfoldable pub rts : M (Unit {0})
unfolding count_return pull_pc
rts = do set_len 1; modify_term count_return; pull_pc; advance 1

unfoldable pub rti : M (Unit {0})
unfolding pull_pc
rti = do set_len 1; pull_flags; pull_pc

unfoldable pub brk : M (Unit {0})
brk = do set_len 2; modify_term (λ t. record t { error = true; brk = true; done = true })

-- The high half stores into `maplo` too, as the source has it.
unfoldable pub map_regs : Regs → Regs
map_regs r =
    let lower =
      if r.x == 0x0f then record r { maplomb = r.a } else record r { maplo = r.a + r.x * 256 } in
    let upper =
      if r.in_hyper == 0
      then (if r.z == 0x0f
          then record lower { maphimb = r.y }
          else record lower { maplo = r.y + r.z * 256 })
      else lower in
    record upper { map_irq_inhibit = 1 }

unfoldable pub map : M (Unit {0})
unfolding map_regs
map = do advance 1; modify_regs map_regs; set_len 1

unfoldable pub eom : M (Unit {0})
eom = do advance 1; modify_regs (λ r. record r { map_irq_inhibit = 0 }); set_len 1

-- The entry that a pointer of the log points to; `none` if it is NULL or the entry is freed.
unfoldable pub entry_at : Trace → Option ℕ → Option Log
entry_at t none = none
entry_at t (some p) = t.entries p

-- `cpulog_len > 1 && cpulog[cpulog_len - 2]->bytes[0] == 0xEA`; `none` if there is no such entry.
unfoldable pub follows_nop : Trace → Option Bool
unfolding entry_at
follows_nop t =
    if ltb 1 t.cpulog_len
    then elim (entry_at t (t.cpulog (t.cpulog_len - 2))) [
      | none ↦ none
      | some previous ↦ some (previous.bytes 0 == 0xea)
    ]
    else some false

module _ ⦃dma : DmaController⦄ where
  unfoldable pub jsr : M ℕ → M (Unit {0})
  unfolding count_call
  jsr mode = do
    modify_term count_call
    r ← get_regs
    stack_push (word32 (r.pc + 2) / 2 ^ 8)
    stack_push (word32 (r.pc + 2))
    address ← mode
    set_pc address
    set_len 3

  -- STA ($xx),Z. The 32-bit pointer is computed once for the message and once for the write.
  unfoldable pub save_far : M (Unit {0})
  save_far = do
    address ← addr_izpz32
    modify_log (λ l. record l { zp32 = 1 })
    again ← addr_izpz32
    r ← get_regs
    write_mem28 again r.a

  unfoldable pub save_near : M (Unit {0})
  save_near = do
    modify_log (λ l. record l { zp16 = 1 })
    address ← addr_izpz
    r ← get_regs
    write_mem16 address r.a

  -- The two stores of STA ($xx),Z, after the test of the instruction before it.
  unfoldable pub save_after : Option Bool → M Outcome
  unfolding save_far save_near
  save_after none m = (Outcome.crashed, m)
  save_after (some true) m = (Outcome.returned true, (save_far m).1)
  save_after (some false) m = (Outcome.returned true, (save_near m).1)

  unfoldable pub save_z_indirect : M Outcome
  unfolding follows_nop save_after
  save_z_indirect = do set_len 2; advance 2; λ m. save_after (follows_nop m.trace) m
