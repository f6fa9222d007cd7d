-- ===== src/Emulator/Stack.antt =====
-- The stack of src/tools/hyppotest.c: `stack_push`, `stack_pop_ext` and `stack_pop`. With FLAG_E set
-- the stack stays in one page.
pub mod Laws
use mega65_core.Prelude.{
  ℕ, ◌+◌, ◌-◌, ◌*◌, ◌/◌, ◌%◌, Bool, true, ◌||◌, ltb, leb, if◌then◌else◌, byte, word16, store,
}
use mega65_core.Emulator.State.{
  Regs, Log, Machine, M, ◌>>=◌, ◌>>◌, pure, modify_regs, modify_log, sp,
}
use mega65_core.Emulator.Memory.{DmaController, read_memory, memory_blame, write_mem16}

abbrev pub set_sp : ℕ → Regs → Regs
set_sp v r = record r { spl = v % 256; sph = v / 256 }

unfoldable pub move_up : ℕ → M (Unit {0})
unfolding sp
move_up amount m =
    if m.regs.flag_e
    then (let new_spl = byte (m.regs.spl + amount) in
        (
          tt,
          record m {
            regs = record m.regs { spl = new_spl };
            stack_underflow = m.stack_underflow || ltb new_spl m.regs.spl;
          },
        ))
    else (let new_sp = word16 (sp m.regs + amount) in
        (
          tt,
          record m {
            regs = set_sp new_sp m.regs;
            stack_underflow = m.stack_underflow || ltb new_sp (sp m.regs);
          },
        ))

unfoldable pub move_down : M (Unit {0})
unfolding sp
move_down m =
    if m.regs.flag_e
    then (let new_spl = byte (m.regs.spl + 256 - 1) in
        (
          tt,
          record m {
            regs = record m.regs { spl = new_spl };
            stack_overflow = m.stack_overflow || ltb m.regs.spl new_spl;
          },
        ))
    else (let new_sp = word16 (sp m.regs + 65536 - 1) in
        (
          tt,
          record m {
            regs = set_sp new_sp m.regs;
            stack_overflow = m.stack_overflow || ltb (sp m.regs) new_sp;
          },
        ))

-- `log->pop_blame[log->pops++] = blame`. The array has four elements, and `pops` is not initialised.
unfoldable pub note_pop : ℕ → M (Unit {0})
note_pop blame = modify_log λ l. record l {
  pop_blame = if ltb l.pops 4 then store l.pop_blame l.pops blame else l.pop_blame;
  pops = byte (l.pops + 1);
  overrun = l.overrun || leb 4 l.pops;
}

unfoldable pub read_top : M ℕ
unfolding sp
read_top m = read_memory (sp m.regs) m

unfoldable pub blame_top : M ℕ
unfolding sp
blame_top m = memory_blame (sp m.regs) m

unfoldable pub stack_pop_ext : ℕ → M ℕ
stack_pop_ext amount = do move_up amount; blame ← blame_top; note_pop blame; read_top

unfoldable pub stack_pop : M ℕ
unfolding stack_pop_ext
stack_pop = stack_pop_ext 1

module _ ⦃dma : DmaController⦄ where
  unfoldable pub write_top : ℕ → M (Unit {0})
  unfolding sp
  write_top v m = write_mem16 (sp m.regs) v m

  unfoldable pub stack_push : ℕ → M (Unit {0})
  stack_push v = do write_top (byte v); move_down
