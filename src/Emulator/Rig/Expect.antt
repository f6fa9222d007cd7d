-- ===== src/Emulator/Rig/Expect.antt =====
-- `write_mem_expected28` of src/tools/hyppotest.c, beside `write_mem28`.
use mega65_core.Prelude.{ℕ, ◌≡◌, store, arith}
use mega65_core.Emulator.State.{Bus}
use mega65_core.Emulator.Memory.{DmaController, Cell, cell_of, write_cell}
use mega65_core.Emulator.Memory.Access.{IsPlain}
use mega65_core.Emulator.Rig.{Expected}

-- A write to an unmapped address is a message.
unfoldable pub write_expected : Cell → ℕ → Expected → Expected
write_expected (Cell.hyppo i) v e = record e { hypporam = store e.hypporam i v }
write_expected (Cell.chip i) v e = record e { chipram = store e.chipram i v }
write_expected (Cell.colour i) v e = record e { colourram = store e.colourram i v }
write_expected (Cell.io i) v e = record e { ffdram = store e.ffdram i v }
write_expected Cell.unmapped v e = e

unfoldable pub write_mem_expected28 : ℕ → ℕ → Expected → Expected
unfolding write_expected
write_mem_expected28 addr v e = write_expected (cell_of addr) v e

-- The memories are the expected ones.
pub record Agrees (s : Bus) (e : Expected) : Type 0 where
  pub chipram : (i : ℕ) → s.chipram i ≡ e.chipram i
  pub hypporam : (i : ℕ) → s.hypporam i ≡ e.hypporam i
  pub colourram : (i : ℕ) → s.colourram i ≡ e.colourram i
  pub ffdram : (i : ℕ) → s.ffdram i ≡ e.ffdram i

module _ ⦃dma : DmaController⦄ where
  write_expected-Agrees :
      (c : Cell) (v : ℕ) (s : Bus) (e : Expected)
      → IsPlain c v
      → Agrees s e
      → Agrees (write_cell c v s) (write_expected c v e)
  unfolding write_cell write_expected
  write_expected-Agrees (Cell.hyppo i) v s e p h = record {
    chipram = h.chipram;
    hypporam = λ j. ground (arith, h.hypporam j);
    colourram = h.colourram;
    ffdram = h.ffdram;
  }
  write_expected-Agrees (Cell.chip i) v s e p h = record {
    chipram = λ j. ground (arith, h.chipram j);
    hypporam = λ j. ground (arith, h.hypporam j);
    colourram = λ j. ground (arith, h.colourram j);
    ffdram = λ j. ground (arith, h.ffdram j);
  }
  write_expected-Agrees (Cell.colour i) v s e p h = record {
    chipram = h.chipram;
    hypporam = h.hypporam;
    colourram = λ j. ground (arith, h.colourram j);
    ffdram = h.ffdram;
  }
  write_expected-Agrees (Cell.io i) v s e p h = record {
    chipram = λ j. ground (arith, h.chipram j);
    hypporam = λ j. ground (arith, h.hypporam j);
    colourram = λ j. ground (arith, h.colourram j);
    ffdram = λ j. ground (arith, h.ffdram j);
  }
  write_expected-Agrees Cell.unmapped v s e p h = absurd p

  -- A write that only stores (`IsPlain`) and its expected write, of the same value to the same
  -- address, keep memories that agree in agreement.
  pub write_mem_expected28-Agrees :
      (addr v : ℕ) (s : Bus) (e : Expected)
      → IsPlain (cell_of addr) v
      → Agrees s e
      → Agrees (write_cell (cell_of addr) v s) (write_mem_expected28 addr v e)
  unfolding write_mem_expected28
  write_mem_expected28-Agrees addr v s e p h = write_expected-Agrees (cell_of addr) v s e p h
