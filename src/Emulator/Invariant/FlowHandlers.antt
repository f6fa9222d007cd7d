-- ===== src/Emulator/Invariant/FlowHandlers.antt =====
-- Branches, jumps, calls and MAP keep the invariant.
use mega65_core.Prelude.{ℕ, ◌^◌, ◌<◌, Bool, true, false, arith, Option, none, some}
use mega65_core.Prelude.Bits.{bit_or-lt}
use mega65_core.Emulator.State.{Regs, Trace, Termination, Machine, M}
use mega65_core.Emulator.Memory.{DmaController}
use mega65_core.Emulator.Stack.{stack_pop}
use mega65_core.Emulator.Instructions.Moves.{advance, set_len}
use mega65_core.Emulator.Instructions.Flow
use mega65_core.Emulator.Instructions.Flow.{Outcome, follows_nop, save_far, save_near}
use mega65_core.Emulator.Invariant.Parts.{
  RegsFit, IsValid, StoresBytes, with_regs, with_bus, read_memory-IsValid, stack_pop-IsValid,
  stack_pop-lt, stack_push-IsValid, write_mem16-IsValid, write_mem28-IsValid,
}
use mega65_core.Emulator.Invariant.Modes.{
  IsMode, addr_zp-IsMode, addr_izpz-IsMode, addr_izpz32-IsMode,
}
use mega65_core.Emulator.Invariant.Handlers.{
  Keeps, advance-IsValid, set_len-IsValid, set_both-IsValid, pull_flags-IsValid, set_zp16-IsValid,
}

map_regs-fits : (r : Regs) → RegsFit r → RegsFit (Flow.map_regs r)
unfolding Flow.map_regs
map_regs-fits r h = ground (arith, h)

with_pc :
    {t : Trace} (p : ℕ) (m : Machine)
    → p < 2 ^ 32
    → IsValid t m
    → IsValid t (record m { regs = record m.regs { pc = p } })
with_pc p m k v = with_regs m _ v (ground (arith, v.regs, k))

with_term-IsValid :
    {t : Trace} (f : Termination → Termination) (m : Machine)
    → IsValid t m
    → IsValid t (record m { bus = record m.bus { term = f m.bus.term } })
with_term-IsValid f m v = with_bus m _ v (record {
  chipram = v.memory.chipram;
  hypporam = v.memory.hypporam;
  colourram = v.memory.colourram;
  ffdram = v.memory.ffdram;
})

module _ {t : Trace} where
  pub branch-IsValid : (c : Regs → Bool) → Keeps t (Flow.branch c)
  unfolding Flow.branch
  branch-IsValid c m v = advance-IsValid _ _ (set_len-IsValid 2 m v)

  pub long_branch-IsValid :
      (c : Regs → Bool) (base : ℕ) (offset : Machine → ℕ) → Keeps t (Flow.long_branch c base offset)
  unfolding Flow.long_branch
  long_branch-IsValid c base offset m v = advance-IsValid _ _ (set_len-IsValid 3 m v)

  pub branch_on_bit-IsValid : (k w : ℕ) → Keeps t (Flow.branch_on_bit k w)
  unfolding Flow.branch_on_bit
  branch_on_bit-IsValid k w m v =
      set_len-IsValid 3 _
        (advance-IsValid 3 _ (advance-IsValid _ _ (read_memory-IsValid _ _ (addr_zp-IsMode m v).0)))

  pub jmp-IsValid : (mode : M ℕ) → IsMode t mode → Keeps t (Flow.jmp mode)
  unfolding Flow.jmp
  jmp-IsValid mode k m v = set_len-IsValid 3 _ (with_pc _ _ (k m v).1 (k m v).0)

  pull_pc-IsValid : Keeps t Flow.pull_pc
  unfolding Flow.pull_pc
  pull_pc-IsValid m v =
      let lo = stack_pop-lt m v in
      let v1 = with_pc (stack_pop m).0 _ (omega arith) (stack_pop-IsValid m v) in
      let v2 = stack_pop-IsValid _ v1 in
      let hi = stack_pop-lt _ v1 in with_pc _ _ (bit_or-lt 32 _ _ v2.regs.pc (omega arith)) v2

  pub rts-IsValid : Keeps t Flow.rts
  unfolding Flow.rts
  rts-IsValid m v =
      advance-IsValid 1 _
        (pull_pc-IsValid _ (with_term-IsValid Flow.count_return _ (set_len-IsValid 1 m v)))

  pub rti-IsValid : Keeps t Flow.rti
  unfolding Flow.rti
  rti-IsValid m v = pull_pc-IsValid _ (pull_flags-IsValid _ (set_len-IsValid 1 m v))

  pub brk-IsValid : Keeps t Flow.brk
  unfolding Flow.brk
  brk-IsValid m v =
      with_term-IsValid (λ (k : Termination). record k { error = true; brk = true; done = true }) _
        (set_len-IsValid 2 m v)

  pub map-IsValid : Keeps t Flow.map
  unfolding Flow.map
  map-IsValid m v =
      let v1 = advance-IsValid 1 m v in
      set_len-IsValid 1 _ (with_regs _ _ v1 (map_regs-fits _ v1.regs))

  pub eom-IsValid : Keeps t Flow.eom
  unfolding Flow.eom
  eom-IsValid m v =
      let v1 = advance-IsValid 1 m v in
      set_len-IsValid 1 _ (with_regs _ _ v1 (ground (arith, v1.regs)))

  module _ ⦃dma : DmaController⦄ (stores : StoresBytes dma) where
    pub jsr-IsValid : (mode : M ℕ) → IsMode t mode → Keeps t (Flow.jsr mode)
    unfolding Flow.jsr
    jsr-IsValid mode k m v =
        let pushed =
          stack_push-IsValid stores _ _
            (stack_push-IsValid stores _ _ (with_term-IsValid Flow.count_call m v)) in
        set_len-IsValid 3 _ (with_pc _ _ (k _ pushed).1 (k _ pushed).0)

    set_zp32-IsValid :
        (m : Machine) → IsValid t m → IsValid t (record m { log = record m.log { zp32 = 1 } })
    set_zp32-IsValid m v = record {
      regs = v.regs;
      memory = v.memory;
      bytes = v.bytes;
      base = v.base;
      trace = v.trace;
    }

    save_far-IsValid : Keeps t Flow.save_far
    unfolding Flow.save_far
    save_far-IsValid m v =
        let at = (addr_izpz32-IsMode _ (set_zp32-IsValid _ (addr_izpz32-IsMode m v).0)).0 in
        write_mem28-IsValid stores _ _ _ at.regs.a at

    save_near-IsValid : Keeps t Flow.save_near
    unfolding Flow.save_near
    save_near-IsValid m v =
        let at = (addr_izpz-IsMode _ (set_zp16-IsValid m v)).0 in
        write_mem16-IsValid stores _ _ _ at.regs.a at

    after_nop-IsValid :
        (n : Option Bool) (m : Machine) → IsValid t m → IsValid t (Flow.save_after n m).1
    unfolding Flow.save_after
    after_nop-IsValid none m v = v
    after_nop-IsValid (some true) m v = save_far-IsValid m v
    after_nop-IsValid (some false) m v = save_near-IsValid m v

    pub save_z_indirect-IsValid : (m : Machine) → IsValid t m → IsValid t (Flow.save_z_indirect m).1
    unfolding Flow.save_z_indirect
    save_z_indirect-IsValid m v =
        let v' = set_both-IsValid 2 m v in
        after_nop-IsValid (follows_nop (advance 2 (set_len 2 m).1).1.trace) _ v'
