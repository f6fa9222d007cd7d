-- ===== src/Emulator/Invariant/Parts.antt =====
-- The invariant, and that memory accesses, the stack, the flags and the addressing modes keep it.
use mega65_core.Prelude.{
  ℕ, ◌-◌, ◌^◌, ◌<◌, ◌≡◌, Bool, true, false, arith, store, byte, Bool-cases, ltb, inl, inr, if_both,
  ◌==◌, ◌&&◌, ◌||◌,
}
use mega65_core.Prelude.Bits.{bit_and-lt, bit_or-lt}
use mega65_core.Emulator.State.{Regs, Bus, Trace, Machine, sp, set_error, Fate, reach}
use mega65_core.Emulator.Memory.{
  DmaController, Cell, cell_of, read_cell, read_memory28, read_memory, memory_blame, write_cell,
  io_action, set_io, write_mem28, write_mem16, addr_to_28bit,
}
use mega65_core.Emulator.Alu.{update_nz, update_bit_flags, update_cmp_flags, adc_regs, adc, sbc}
use mega65_core.Emulator.Stack.{
  move_up, move_down, note_pop, read_top, blame_top, stack_pop_ext, stack_pop, write_top,
  stack_push,
}

pub record RegsFit (r : Regs) : Type 0 where
  pub pc : r.pc < 2 ^ 32
  pub a : r.a < 256
  pub x : r.x < 256
  pub y : r.y < 256
  pub z : r.z < 256
  pub b : r.b < 256
  pub spl : r.spl < 256
  pub sph : r.sph < 256
  pub maplo : r.maplo < 65536
  pub maphi : r.maphi < 65536
  pub maplomb : r.maplomb < 256
  pub maphimb : r.maphimb < 256

pub record MemoryFits (s : Bus) : Type 0 where
  pub chipram : (i : ℕ) → s.chipram i < 256
  pub hypporam : (i : ℕ) → s.hypporam i < 256
  pub colourram : (i : ℕ) → s.colourram i < 256
  pub ffdram : (i : ℕ) → s.ffdram i < 256

-- `trace` is the log of the earlier instructions, which no instruction changes.
pub record IsValid (t : Trace) (m : Machine) : Type 0 where
  pub regs : RegsFit m.regs
  pub memory : MemoryFits m.bus
  pub bytes : (i : ℕ) → m.log.bytes i < 256
  pub base : m.log.regs.b < 256
  pub trace : m.trace ≡ t

-- What is asked of the DMA controller: it stores bytes.
abbrev pub StoresBytes : DmaController → Type 0
StoresBytes dma = (e : Bool) (addr : ℕ) (s : Bus) → MemoryFits s → MemoryFits (dma.run e addr s)

store-lt : (f : ℕ → ℕ) (p v i : ℕ) → ((j : ℕ) → f j < 256) → v < 256 → store f p v i < 256
store-lt f p v i h k = ground (arith, h i)

pub set_error-fits : (s : Bus) → MemoryFits s → MemoryFits (set_error s)
set_error-fits s h = record {
  chipram = h.chipram;
  hypporam = h.hypporam;
  colourram = h.colourram;
  ffdram = h.ffdram;
}

pub reach-fits : (f : Fate) (s : Bus) → MemoryFits s → MemoryFits (reach f s)
reach-fits f s h = record {
  chipram = h.chipram;
  hypporam = h.hypporam;
  colourram = h.colourram;
  ffdram = h.ffdram;
}

pub read_cell-lt : (s : Bus) (c : Cell) → MemoryFits s → read_cell s c < 256
unfolding read_cell
read_cell-lt s (Cell.hyppo i) h = h.hypporam i
read_cell-lt s (Cell.chip i) h = h.chipram i
read_cell-lt s (Cell.colour i) h = h.colourram i
read_cell-lt s (Cell.io i) h = h.ffdram i
read_cell-lt s Cell.unmapped h = omega arith

set_io-fits : (i v : ℕ) (s : Bus) → MemoryFits s → v < 256 → MemoryFits (set_io i v s)
set_io-fits i v s h k = record {
  chipram = h.chipram;
  hypporam = h.hypporam;
  colourram = h.colourram;
  ffdram = λ j. store-lt s.ffdram i v j h.ffdram k;
}

-- Address translation records an error at most.
pub translated-fits :
    (r : Regs) (s : Bus) (addr : ℕ) (w : Bool)
    → MemoryFits s
    → MemoryFits (addr_to_28bit r s addr w).1
unfolding addr_to_28bit
translated-fits r s addr w h = elim (Bool-cases (ltb 0xffff addr)) [
  | inl big ↦ rw big (reach-fits Fate.lists (set_error s) (set_error-fits s h))
  | inr fits ↦ rw fits h
]

pub with_bus :
    {t : Trace} (m : Machine) (s : Bus)
    → IsValid t m
    → MemoryFits s
    → IsValid t (record m { bus = s })
with_bus m s v h = record {
  regs = v.regs;
  memory = h;
  bytes = v.bytes;
  base = v.base;
  trace = v.trace;
}

pub with_regs :
    {t : Trace} (m : Machine) (r : Regs)
    → IsValid t m
    → RegsFit r
    → IsValid t (record m { regs = r })
with_regs m r v h = record {
  regs = h;
  memory = v.memory;
  bytes = v.bytes;
  base = v.base;
  trace = v.trace;
}

module _ {t : Trace} where
  pub read_memory-IsValid : (a : ℕ) (m : Machine) → IsValid t m → IsValid t (read_memory a m).1
  unfolding read_memory
  read_memory-IsValid a m v = with_bus m _ v (translated-fits m.regs m.bus a false v.memory)

  pub memory_blame-IsValid : (a : ℕ) (m : Machine) → IsValid t m → IsValid t (memory_blame a m).1
  unfolding memory_blame
  memory_blame-IsValid a m v = with_bus m _ v (translated-fits m.regs m.bus a false v.memory)

  pub read_memory-lt : (a : ℕ) (m : Machine) → IsValid t m → (read_memory a m).0 < 256
  unfolding read_memory read_memory28
  read_memory-lt a m v = read_cell-lt _ _ (translated-fits m.regs m.bus a false v.memory)

  pub update_nz-IsValid : (w : ℕ) (m : Machine) → IsValid t m → IsValid t (update_nz w m).1
  unfolding update_nz
  update_nz-IsValid w m v = with_regs m _ v (ground (arith, v.regs))

  pub update_bit_flags-IsValid :
      (w : ℕ) (m : Machine) → IsValid t m → IsValid t (update_bit_flags w m).1
  unfolding update_bit_flags
  update_bit_flags-IsValid w m v = with_regs m _ v (ground (arith, v.regs))

  pub update_cmp_flags-IsValid :
      (w : ℕ) (m : Machine) → IsValid t m → IsValid t (update_cmp_flags w m).1
  unfolding update_cmp_flags
  update_cmp_flags-IsValid w m v = with_regs m _ v (ground (arith, v.regs))

  pub adc-IsValid : (w : ℕ) (m : Machine) → IsValid t m → IsValid t (adc w m).1
  unfolding adc adc_regs
  adc-IsValid w m v =
      if_both (λ (k : Unit {0} × Machine). IsValid t k.1) m.regs.flag_d
        (with_bus m _ v (set_error-fits m.bus v.memory)) (with_regs m _ v (ground (arith, v.regs)))

  pub sbc-IsValid : (w : ℕ) (m : Machine) → IsValid t m → IsValid t (sbc w m).1
  unfolding sbc
  sbc-IsValid w m v = adc-IsValid (0xff - w) m v

  pub move_up-IsValid : (n : ℕ) (m : Machine) → IsValid t m → IsValid t (move_up n m).1
  unfolding move_up sp
  move_up-IsValid n m v = elim (Bool-cases m.regs.flag_e) [
    | inl page ↦ rw page (record {
      regs = ground (arith, v.regs);
      memory = v.memory;
      bytes = v.bytes;
      base = v.base;
      trace = v.trace;
    })
    | inr wide ↦ rw wide (record {
      regs = ground (arith, v.regs);
      memory = v.memory;
      bytes = v.bytes;
      base = v.base;
      trace = v.trace;
    })
  ]

  pub move_down-IsValid : (m : Machine) → IsValid t m → IsValid t (move_down m).1
  unfolding move_down sp
  move_down-IsValid m v = elim (Bool-cases m.regs.flag_e) [
    | inl page ↦ rw page (record {
      regs = ground (arith, v.regs);
      memory = v.memory;
      bytes = v.bytes;
      base = v.base;
      trace = v.trace;
    })
    | inr wide ↦ rw wide (record {
      regs = ground (arith, v.regs);
      memory = v.memory;
      bytes = v.bytes;
      base = v.base;
      trace = v.trace;
    })
  ]

  note_pop-IsValid : (w : ℕ) (m : Machine) → IsValid t m → IsValid t (note_pop w m).1
  unfolding note_pop
  note_pop-IsValid w m v = record {
    regs = v.regs;
    memory = v.memory;
    bytes = v.bytes;
    base = v.base;
    trace = v.trace;
  }

  read_top-IsValid : (m : Machine) → IsValid t m → IsValid t (read_top m).1
  unfolding read_top
  read_top-IsValid m v = read_memory-IsValid (sp m.regs) m v

  read_top-lt : (m : Machine) → IsValid t m → (read_top m).0 < 256
  unfolding read_top
  read_top-lt m v = read_memory-lt (sp m.regs) m v

  blame_top-IsValid : (m : Machine) → IsValid t m → IsValid t (blame_top m).1
  unfolding blame_top
  blame_top-IsValid m v = memory_blame-IsValid (sp m.regs) m v

  popped-IsValid :
      (n : ℕ) (m : Machine)
      → IsValid t m
      → IsValid t (note_pop (blame_top (move_up n m).1).0 (blame_top (move_up n m).1).1).1
  popped-IsValid n m v = note_pop-IsValid _ _ (blame_top-IsValid _ (move_up-IsValid n m v))

  pub stack_pop-IsValid : (m : Machine) → IsValid t m → IsValid t (stack_pop m).1
  unfolding stack_pop stack_pop_ext
  stack_pop-IsValid m v = read_top-IsValid _ (popped-IsValid 1 m v)

  pub stack_pop-lt : (m : Machine) → IsValid t m → (stack_pop m).0 < 256
  unfolding stack_pop stack_pop_ext
  stack_pop-lt m v = read_top-lt _ (popped-IsValid 1 m v)

module _ ⦃dma : DmaController⦄ (stores : StoresBytes dma) where
  io_action-fits : (i v : ℕ) (s : Bus) → MemoryFits s → v < 256 → MemoryFits (io_action i v s)
  unfolding io_action
  io_action-fits i v s h k =
      if_both MemoryFits (i == 0x3700) (stores false _ _ (set_io-fits 0x3705 v s h k)) (
        if_both MemoryFits (i == 0x3702)
          (set_io-fits 0x3704 _ s h
            (bit_or-lt 8 _ _ (bit_and-lt 8 (s.ffdram 0x3704) 0xf1 (omega arith)) (omega arith)))
          (if_both MemoryFits (i == 0x3705) (stores true _ _ (set_io-fits 0x3700 v s h k)) h))

  pub write_cell-fits :
      (c : Cell) (v : ℕ) (s : Bus) → MemoryFits s → v < 256 → MemoryFits (write_cell c v s)
  unfolding write_cell
  write_cell-fits (Cell.hyppo i) v s h k = record {
    chipram = h.chipram;
    hypporam = λ j. store-lt s.hypporam i v j h.hypporam k;
    colourram = h.colourram;
    ffdram = h.ffdram;
  }
  write_cell-fits (Cell.chip i) v s h k =
      if_both MemoryFits (i == 0 && (v == 0x41 || v == 0x40)) h (record {
        chipram = λ j. store-lt s.chipram i v j h.chipram k;
        hypporam = h.hypporam;
        colourram = h.colourram;
        ffdram = h.ffdram;
      })
  write_cell-fits (Cell.colour i) v s h k = record {
    chipram = h.chipram;
    hypporam = h.hypporam;
    colourram = λ j. store-lt s.colourram i v j h.colourram k;
    ffdram = h.ffdram;
  }
  write_cell-fits (Cell.io i) v s h k = io_action-fits i v _ (set_io-fits i v s h k) k
  write_cell-fits Cell.unmapped v s h k = reach-fits Fate.lists (set_error s) (set_error-fits s h)

  module _ {t : Trace} where
    pub write_mem28-IsValid :
        (a w : ℕ) (m : Machine) → w < 256 → IsValid t m → IsValid t (write_mem28 a w m).1
    unfolding write_mem28
    write_mem28-IsValid a w m k v = with_bus m _ v (write_cell-fits (cell_of a) w m.bus v.memory k)

    pub write_mem16-IsValid :
        (a w : ℕ) (m : Machine) → w < 256 → IsValid t m → IsValid t (write_mem16 a w m).1
    unfolding write_mem16
    write_mem16-IsValid a w m k v =
        write_mem28-IsValid _ w _ k (with_bus m _ v (translated-fits m.regs m.bus a true v.memory))

    write_top-IsValid : (w : ℕ) (m : Machine) → w < 256 → IsValid t m → IsValid t (write_top w m).1
    unfolding write_top
    write_top-IsValid w m k v = write_mem16-IsValid (sp m.regs) w m k v

    pub stack_push-IsValid : (w : ℕ) (m : Machine) → IsValid t m → IsValid t (stack_push w m).1
    unfolding stack_push
    stack_push-IsValid w m v = move_down-IsValid _ (write_top-IsValid (byte w) m (omega arith) v)
