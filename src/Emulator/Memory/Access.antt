-- ===== src/Emulator/Memory/Access.antt =====
-- Reads after writes in the memory of src/tools/hyppotest.c.
use mega65_core.Prelude.{
  ℕ, ◌<◌, ◌≡◌, ◌≢◌, ◌⊎◌, inl, inr, Bool, true, arith, ◌==◌, if◌then◌else◌, Bool-cases, ==_iff,
}
use mega65_core.Emulator.State.{Regs, Bus, Machine}
use mega65_core.Emulator.Memory.{
  Cell, cell_of, read_cell, read_memory28, DmaController, write_cell, write_mem28, c64_bank,
  is_mapped, map_address, addr_to_28bit,
}

-- A write that only stores: not to an unmapped address, not to the registers of the DMA controller,
-- and not the values that set the CPU speed at address 0.
abbrev pub IsPlain : Cell → ℕ → Type 0
IsPlain (Cell.hyppo i) v = Unit {0}
IsPlain (Cell.chip i) v = (i ≢ 0) ⊎ ((v ≢ 0x41) × (v ≢ 0x40))
IsPlain (Cell.colour i) v = Unit {0}
IsPlain (Cell.io i) v = (i ≢ 0x3700) × (i ≢ 0x3702) × (i ≢ 0x3705)
IsPlain Cell.unmapped v = ⊥

IsPlain-mapped : (c : Cell) (v : ℕ) → IsPlain c v → c ≢ Cell.unmapped
IsPlain-mapped c v h e = rw e at h

cell_of-injective :
    (a b : ℕ)
    → a < 0x1ffd0000
    → b < 0x1ffd0000
    → cell_of a ≡ cell_of b
    → cell_of a ≢ Cell.unmapped
    → a ≡ b
unfolding cell_of
cell_of-injective a b ha hb e p = ground arith

-- An address that reads and writes take to the same place, whatever the port holds: MAP covers it,
-- or it lies below the banked areas.
abbrev pub IsFlat : Regs → ℕ → Type 0
IsFlat r addr = (addr < 0x10000) × ((is_mapped r addr ≡ true) ⊎ (addr < 0xa000))

unfoldable pub flat_address : Regs → ℕ → ℕ
flat_address r addr = if is_mapped r addr then map_address r addr else addr

pub addr_to_28bit_flat :
    (r : Regs) (s : Bus) (addr : ℕ) (w : Bool)
    → IsFlat r addr
    → addr_to_28bit r s addr w ≡ (flat_address r addr, s)
unfolding addr_to_28bit c64_bank flat_address
addr_to_28bit_flat r s addr w h = ground arith

module _ ⦃dma : DmaController⦄ where
  pub write_cell_self :
      (c : Cell) (v : ℕ) (s : Bus) → IsPlain c v → read_cell (write_cell c v s) c ≡ v
  unfolding write_cell read_cell
  write_cell_self (Cell.hyppo i) v s h = ground arith
  write_cell_self (Cell.chip i) v s h = ground arith
  write_cell_self (Cell.colour i) v s h = ground arith
  write_cell_self (Cell.io i) v s h = ground arith
  write_cell_self Cell.unmapped v s h = absurd h

  pub write_cell_other :
      (c d : Cell) (v : ℕ) (s : Bus)
      → IsPlain c v
      → c ≢ d
      → read_cell (write_cell c v s) d ≡ read_cell s d
  unfolding write_cell read_cell
  write_cell_other (Cell.hyppo i) d v s h ne = ground arith
  write_cell_other (Cell.chip i) d v s h ne = ground arith
  write_cell_other (Cell.colour i) d v s h ne = ground arith
  write_cell_other (Cell.io i) d v s h ne = ground arith
  write_cell_other Cell.unmapped d v s h ne = absurd h

  pub read_memory28-write_cell :
      (a b v : ℕ) (s : Bus)
      → a < 0x1ffd0000
      → b < 0x1ffd0000
      → IsPlain (cell_of a) v
      → read_memory28 (write_cell (cell_of a) v s) b ≡ (if a == b then v else read_memory28 s b)
  unfolding read_memory28
  read_memory28-write_cell a b v s ha hb h = elim (Bool-cases (a == b)) [
    | inl same ↦ rw same (rw (← (==_iff a b).0 same) (write_cell_self (cell_of a) v s h))
    | inr other ↦ rw other (
        write_cell_other (cell_of a) (cell_of b) v s h
          (λ e. absurd (ground (arith, cell_of-injective a b ha hb e (IsPlain-mapped _ v h)))))
  ]

  -- After a write that only stores (`IsPlain`), its address reads as the value written, and every other address
  -- as before. The bound covers all addresses that `addr_to_28bit` returns for 16-bit ones.
  pub read_memory28-write_mem28 :
      (a b v : ℕ) (m : Machine)
      → a < 0x1ffd0000
      → b < 0x1ffd0000
      → IsPlain (cell_of a) v
      → read_memory28 (write_mem28 a v m).1.bus b ≡ (if a == b then v else read_memory28 m.bus b)
  unfolding write_mem28
  read_memory28-write_mem28 a b v m ha hb h = read_memory28-write_cell a b v m.bus ha hb h
