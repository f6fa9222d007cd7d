-- ===== src/Emulator/Stack/Laws.antt =====
-- `stack_push` and `stack_pop` of src/tools/hyppotest.c, one after the other.
use mega65_core.Prelude.{ℕ, ◌<◌, ◌≡◌, refl, ap, ◌∙◌, true, false, arith, byte}
use mega65_core.Emulator.State.{Regs, Bus, Machine, sp}
use mega65_core.Emulator.Memory.{
  DmaController, cell_of, read_memory28, read_memory, memory_blame, write_mem28, write_mem16,
  write_cell,
}
use mega65_core.Emulator.Memory.Access.{
  IsPlain, IsFlat, flat_address, addr_to_28bit_flat, write_cell_self,
}
use mega65_core.Emulator.Stack.{
  move_up, move_down, write_top, read_top, blame_top, note_pop, stack_pop_ext, stack_pop,
  stack_push,
}

-- The registers of the stack are bytes, and it lies where reads and writes meet in a cell that only
-- stores.
pub record StackReady (m : Machine) (v : ℕ) : Type 0 where
  pub spl_fits : m.regs.spl < 256
  pub sph_fits : m.regs.sph < 256
  pub flat : IsFlat m.regs (sp m.regs)
  pub plain : IsPlain (cell_of (flat_address m.regs (sp m.regs))) (byte v)

move_up-move_down :
    (m : Machine)
    → m.regs.spl < 256
    → m.regs.sph < 256
    → ((move_up 1 (move_down m).1).1.regs ≡ m.regs) × ((move_up 1 (move_down m).1).1.bus ≡ m.bus)
unfolding move_up move_down sp
move_up-move_down m h k = ground arith

module _ ⦃dma : DmaController⦄ where
  -- What a push writes, where the stack is ready.
  write_top_flat :
      (v : ℕ) (m : Machine)
      → IsFlat m.regs (sp m.regs)
      → write_top v m
        ≡ (tt, record m { bus = write_cell (cell_of (flat_address m.regs (sp m.regs))) v m.bus })
  unfolding write_top write_mem16 write_mem28
  write_top_flat v m h = rw (addr_to_28bit_flat m.regs m.bus (sp m.regs) true h) refl

  pub stack_push_flat :
      (v : ℕ) (m : Machine)
      → IsFlat m.regs (sp m.regs)
      → stack_push v m
        ≡ move_down (record m {
          bus = write_cell (cell_of (flat_address m.regs (sp m.regs))) (byte v) m.bus;
        })
  unfolding stack_push
  stack_push_flat v m h = rw (write_top_flat (byte v) m h) refl

  read_top_flat :
      (m : Machine)
      → IsFlat m.regs (sp m.regs)
      → read_top m ≡ (read_memory28 m.bus (flat_address m.regs (sp m.regs)), m)
  unfolding read_top read_memory
  read_top_flat m h = rw (addr_to_28bit_flat m.regs m.bus (sp m.regs) false h) refl

  blame_top_flat : (m : Machine) → IsFlat m.regs (sp m.regs) → (blame_top m).1 ≡ m
  unfolding blame_top memory_blame
  blame_top_flat m h = rw (addr_to_28bit_flat m.regs m.bus (sp m.regs) false h) refl

  read_top_after :
      (m : Machine) (r : Regs) (s : Bus)
      → m.regs ≡ r
      → m.bus ≡ s
      → IsFlat r (sp r)
      → ((read_top m).0 ≡ read_memory28 s (flat_address r (sp r)))
        × ((read_top m).1.regs ≡ r)
        × ((read_top m).1.bus ≡ s)
  read_top_after m r s er es h =
      let flat : IsFlat m.regs (sp m.regs) = rw er h in
      rw (read_top_flat m flat) (rw (er, es) (refl, refl, refl))

  -- A pop where the stack pointer is already known after its move.
  pub stack_pop_after :
      (m : Machine) (r : Regs) (s : Bus)
      → (move_up 1 m).1.regs ≡ r
      → (move_up 1 m).1.bus ≡ s
      → IsFlat r (sp r)
      → ((stack_pop m).0 ≡ read_memory28 s (flat_address r (sp r)))
        × ((stack_pop m).1.regs ≡ r)
        × ((stack_pop m).1.bus ≡ s)
  unfolding stack_pop stack_pop_ext note_pop
  stack_pop_after m r s er es h =
      let moved = (move_up 1 m).1 in
      let flat : IsFlat moved.regs (sp moved.regs) = rw er h in
      let same : (blame_top moved).1 ≡ moved = blame_top_flat moved flat in
      read_top_after (note_pop (blame_top moved).0 (blame_top moved).1).1 r s
        (ap (λ (k : Machine). k.regs) same ∙ er) (ap (λ (k : Machine). k.bus) same ∙ es) h

  -- Where the stack lies in plain memory (`StackReady`), a pop after a push gives back the byte, and all registers are as before the push, the stack
  -- pointer too, whether FLAG_E holds the stack in one page or not. So is the memory, but for the
  -- cell that was pushed to.
  pub stack_pop-stack_push :
      (v : ℕ) (m : Machine)
      → StackReady m v
      → let pushed = (stack_push v m).1 in
        ((stack_pop pushed).0 ≡ byte v)
        × ((stack_pop pushed).1.regs ≡ m.regs)
        × ((stack_pop pushed).1.bus
            ≡ write_cell (cell_of (flat_address m.regs (sp m.regs))) (byte v) m.bus)
  unfolding stack_push
  stack_pop-stack_push v m ready =
      let here = flat_address m.regs (sp m.regs) in
      let s = write_cell (cell_of here) (byte v) m.bus in
      let m' = record m { bus = s } in
      let (regs', bus') = move_up-move_down m' ready.spl_fits ready.sph_fits in
      let (value, regs, bus) = stack_pop_after (move_down m').1 m.regs s regs' bus' ready.flat in
      rw (write_top_flat (byte v) m ready.flat) (
        value ∙ (unfold read_memory28 in write_cell_self (cell_of here) (byte v) m.bus ready.plain),
        regs,
        bus,
      )
