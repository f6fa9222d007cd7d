-- ===== src/Emulator/Instructions/Subroutines.antt =====
-- JSR and RTS of src/tools/hyppotest.c, one after the other.
use mega65_core.Prelude.{
  ℕ, ◌+◌, ◌-◌, ◌*◌, ◌/◌, ◌^◌, ◌<◌, ◌≡◌, ◌≢◌, refl, ap, ◌∙◌, arith, byte, word16, bit_or, word32,
  if◌then◌else◌,
}
use mega65_core.Prelude.Bits.{bit_or-add}
use mega65_core.Emulator.State.{Regs, Bus, Termination, Machine, sp}
use mega65_core.Emulator.Memory.{
  DmaController, Cell, io_action, is_mapped, map_address, cell_of, read_cell, read_memory28,
  write_cell,
}
use mega65_core.Emulator.Memory.Access.{
  IsPlain, IsFlat, flat_address, write_cell_self, write_cell_other,
}
use mega65_core.Emulator.Addressing.{addr_abs, operand16}
use mega65_core.Emulator.Stack.{set_sp, move_up, move_down, stack_pop, stack_push}
use mega65_core.Emulator.Stack.Laws.{stack_push_flat, stack_pop_after}
use mega65_core.Emulator.Instructions.Moves.{advance, set_len}
use mega65_core.Emulator.Instructions.Flow.{jsr, rts, pull_pc, count_call, count_return}

count_return-count_call : (t : Termination) → count_return (count_call t) ≡ t
unfolding count_return count_call
count_return-count_call t = ground arith

-- The registers after a move of the stack pointer.
abbrev pub down : Regs → Regs
down r =
    if r.flag_e
    then record r { spl = byte (r.spl + 256 - 1) }
    else set_sp (word16 (r.spl + r.sph * 256 + 65536 - 1)) r

abbrev up : Regs → Regs
up r =
    if r.flag_e
    then record r { spl = byte (r.spl + 1) }
    else set_sp (word16 (r.spl + r.sph * 256 + 1)) r

move_down-down :
    (m : Machine) → ((move_down m).1.regs ≡ down m.regs) × ((move_down m).1.bus ≡ m.bus)
unfolding move_down sp
move_down-down m = ground arith

move_up-up : (m : Machine) → ((move_up 1 m).1.regs ≡ up m.regs) × ((move_up 1 m).1.bus ≡ m.bus)
unfolding move_up sp
move_up-up m = ground arith

up-down :
    (r : Regs) (p : ℕ)
    → r.spl < 256
    → r.sph < 256
    → up (record (down r) { pc = p }) ≡ record r { pc = p }
up-down r p h k = ground arith

down-fits : (r : Regs) → r.spl < 256 → r.sph < 256 → ((down r).spl < 256) × ((down r).sph < 256)
down-fits r h k = ground arith

-- The cell that the stack pointer points to.
abbrev pub top_cell : Regs → Cell
top_cell r = cell_of (flat_address r (sp r))

read_cell-term :
    (s : Bus) (t : Termination) (c : Cell) → read_cell (record s { term = t }) c ≡ read_cell s c
unfolding read_cell
read_cell-term s t (Cell.hyppo i) = refl
read_cell-term s t (Cell.chip i) = refl
read_cell-term s t (Cell.colour i) = refl
read_cell-term s t (Cell.io i) = refl
read_cell-term s t Cell.unmapped = refl

-- The return address of JSR.
abbrev high_byte : Regs → ℕ
high_byte r = byte (word32 (r.pc + 2) / 2 ^ 8)

abbrev low_byte : Regs → ℕ
low_byte r = byte (word32 (r.pc + 2))

-- The registers of the stack are bytes, and its two cells below lie where reads and writes meet, only
-- store, and are not the same.
pub record CallReady (r : Regs) : Type 0 where
  pub spl_fits : r.spl < 256
  pub sph_fits : r.sph < 256
  pub first : IsFlat r (sp r)
  pub second : IsFlat (down r) (sp (down r))
  pub first_plain : IsPlain (top_cell r) (high_byte r)
  pub second_plain : IsPlain (top_cell (down r)) (low_byte r)
  pub apart : top_cell (down r) ≢ top_cell r

module _ ⦃dma : DmaController⦄ where
  write_cell-term : (c : Cell) (v : ℕ) (s : Bus) → IsPlain c v → (write_cell c v s).term ≡ s.term
  unfolding write_cell io_action
  write_cell-term (Cell.hyppo i) v s h = refl
  write_cell-term (Cell.chip i) v s h = ground arith
  write_cell-term (Cell.colour i) v s h = refl
  write_cell-term (Cell.io i) v s h = ground arith
  write_cell-term Cell.unmapped v s h = absurd h

  pushed :
      (v : ℕ) (n : Machine) (r : Regs) (s : Bus)
      → n.regs ≡ r
      → n.bus ≡ s
      → IsFlat r (sp r)
      → ((stack_push v n).1.regs ≡ down r)
        × ((stack_push v n).1.bus ≡ write_cell (top_cell r) (byte v) s)
  pushed v n r s er es flat =
      let flat' : IsFlat n.regs (sp n.regs) = rw er flat in
      rw (stack_push_flat v n flat') (
        (move_down-down _).0 ∙ ap down er,
        (move_down-down _).1
            ∙ ap (write_cell (top_cell n.regs) (byte v)) es
            ∙ ap (λ (q : Regs). write_cell (top_cell q) (byte v) s) er,
      )

  -- A pop after the stack pointer has gone down from `r`.
  popped :
      (n : Machine) (r : Regs) (p : ℕ)
      → r.spl < 256
      → r.sph < 256
      → n.regs ≡ record (down r) { pc = p }
      → IsFlat r (sp r)
      → ((stack_pop n).0 ≡ read_cell n.bus (top_cell r))
        × ((stack_pop n).1.regs ≡ record r { pc = p })
        × ((stack_pop n).1.bus ≡ n.bus)
  unfolding sp flat_address read_memory28 is_mapped map_address
  popped n r p h k e flat =
      stack_pop_after (record n { regs = n.regs }) (record r { pc = p }) n.bus
        ((move_up-up n).0 ∙ ap up e ∙ up-down r p h k) (move_up-up n).1 flat

  -- Two pops make the program counter from what lies in the two cells.
  pull_pc-popped :
      (n : Machine) (r : Regs) (p : ℕ)
      → r.spl < 256
      → r.sph < 256
      → n.regs ≡ record (down (down r)) { pc = p }
      → IsFlat r (sp r)
      → IsFlat (down r) (sp (down r))
      → let lo = read_cell n.bus (top_cell (down r)) in
        let hi = read_cell n.bus (top_cell r) in
        ((pull_pc n).1.regs ≡ record r { pc = bit_or lo (hi * 2 ^ 8) })
        × ((pull_pc n).1.bus ≡ n.bus)
  unfolding pull_pc
  pull_pc-popped n r p h k e first second =
      let (h', k') = down-fits r h k in
      let (lo, regs, bus) = popped n (down r) p h' k' e second in
      let v = (stack_pop n).0 in
      let n' = record (stack_pop n).1 { regs = record (stack_pop n).1.regs { pc = v } } in
      let (hi, regs', bus') =
        popped n' r v h k (ap (λ (q : Regs). record q { pc = v }) regs) first in
      (
        ap (λ (q : Regs). record q { pc = bit_or q.pc ((stack_pop n').0 * 2 ^ 8) }) regs' ∙ (λ i.
            record r {
              pc = bit_or (lo i) ((hi ∙ ap (λ (s : Bus). read_cell s (top_cell r)) bus) i * 2 ^ 8);
            }),
        bus' ∙ bus,
      )

  return_address :
      (r : Regs) → r.pc + 2 < 65536 → bit_or (low_byte r) (high_byte r * 2 ^ 8) ≡ r.pc + 2
  return_address r h = omega (arith, bit_or-add 8 (low_byte r) (high_byte r) (omega arith))

  -- What the two cells hold after both writes.
  slots :
      (r : Regs) (s : Bus) (t : Termination)
      → CallReady r
      → let s1 = write_cell (top_cell r) (high_byte r) s in
        let s2 = record (write_cell (top_cell (down r)) (low_byte r) s1) { term = t } in
        (read_cell s2 (top_cell (down r)) ≡ low_byte r) × (read_cell s2 (top_cell r) ≡ high_byte r)
  slots r s t c =
      let s1 = write_cell (top_cell r) (high_byte r) s in
      let s2 = write_cell (top_cell (down r)) (low_byte r) s1 in
      (
        read_cell-term s2 t (top_cell (down r))
            ∙ write_cell_self (top_cell (down r)) (low_byte r) s1 c.second_plain,
        read_cell-term s2 t (top_cell r)
            ∙ write_cell_other (top_cell (down r)) (top_cell r) (low_byte r) s1 c.second_plain
                c.apart
            ∙ write_cell_self (top_cell r) (high_byte r) s c.first_plain,
      )

  -- An RTS right after a JSR to an absolute address comes back behind the three bytes of the JSR,
  -- with all other registers, the stack pointer too, as they were before, where the stack lies in
  -- plain memory (`CallReady`) and the return address is below 65536. The termination conditions,
  -- with the count of nested calls, are as before too.
  pub rts-jsr :
      (m : Machine)
      → CallReady m.regs
      → m.regs.pc + 2 < 65536
      → let back = (rts (jsr addr_abs m).1).1 in
        (back.regs ≡ record m.regs { pc = m.regs.pc + 3 }) × (back.bus.term ≡ m.bus.term)
  unfolding rts jsr addr_abs advance set_len
  rts-jsr m c h =
      let r = m.regs in
      let s0 = record m.bus { term = count_call m.bus.term } in
      let m0 = record m { bus = s0 } in
      let s1 = write_cell (top_cell r) (high_byte r) s0 in
      let (regs1, bus1) = pushed (word32 (r.pc + 2) / 2 ^ 8) m0 r s0 refl refl c.first in
      let m1 = (stack_push (word32 (r.pc + 2) / 2 ^ 8) m0).1 in
      let (regs2, bus2) = pushed (word32 (r.pc + 2)) m1 (down r) s1 regs1 bus1 c.second in
      let m2 = (stack_push (word32 (r.pc + 2)) m1).1 in
      let a = operand16 m2 in
      let n = record m2 {
        regs = record m2.regs { pc = a };
        log = record m2.log { len = 1 };
        bus = record m2.bus { term = count_return m2.bus.term };
      } in
      let (regs3, bus3) =
        pull_pc-popped n r a c.spl_fits c.sph_fits (ap (λ (q : Regs). record q { pc = a }) regs2)
          c.first c.second in
      let t = count_return m2.bus.term in
      let kept = slots r s0 t c in
      let lo =
        ap (λ (s : Bus). read_cell (record s { term = t }) (top_cell (down r))) bus2 ∙ kept.0 in
      let hi = ap (λ (s : Bus). read_cell (record s { term = t }) (top_cell r)) bus2 ∙ kept.1 in
      let pc : word32 (r.pc + 2 + 1) ≡ r.pc + 3 = omega arith in
      (
        ap (λ (q : Regs). record q { pc = word32 (q.pc + 1) }) regs3
            ∙ (λ i. record r { pc = word32 (bit_or (lo i) (hi i * 2 ^ 8) + 1) })
            ∙ ap (λ (k : ℕ). record r { pc = word32 (k + 1) }) (return_address r h)
            ∙ ap (λ (k : ℕ). record r { pc = k }) pc,
        ap (λ (s : Bus). s.term) bus3
            ∙ ap count_return (
                ap (λ (s : Bus). s.term) bus2
                ∙ write_cell-term (top_cell (down r)) (low_byte r) s1 c.second_plain
                ∙ write_cell-term (top_cell r) (high_byte r) s0 c.first_plain)
            ∙ count_return-count_call m.bus.term,
      )
