-- ===== src/Emulator/Dma/Tests.antt =====
-- Jobs of the DMA controller at concrete lists.
use mega65_core.Prelude.{
  ℕ, ◌+◌, ◌-◌, ◌*◌, ◌^◌, ◌≤◌, ◌≡◌, inl, refl, true, false, arith, byte, word32, ◌==◌, if◌then◌else◌,
  none, some,
}
use mega65_core.Prelude.Bits.{bit}
use mega65_core.Emulator.State.{Bus, Symbols}
use mega65_core.Emulator.Memory.{cell_of, read_cell, read_memory28}
use mega65_core.Emulator.Dma.Options.{Line, first_job, next_job, no_line}
use mega65_core.Emulator.Dma.DmaList.{read_list}
use mega65_core.Emulator.Dma.Moves.{line_step, move_right, move_down_y}
use mega65_core.Emulator.Dma.SymbolTable.{max_symbols, copy_symbols, copy_symbols-le}
use mega65_core.Emulator.Dma.Blocks.{IsForward, is_inside, IsPlainBlock}
use mega65_core.Emulator.Dma.Lines.{line_step_lem}
use mega65_core.Emulator.Dma.Memory.{single_list, do_dma_fill, do_dma_copy}
use mega65_core.Emulator.Dma.{returned, do_dma}
use mega65_core.Emulator.Tests.{no_dma, bus}

-- At 0: copy 16 bytes from $4000 to $2000. At $20: fill 4 bytes at $2000 from $0041 on.
abbrev lists : ℕ → ℕ
lists i =
    if i == 1
    then 16
    else if i == 4
    then 0x40
    else if i == 7
    then 0x20
    else if i == 0x20
    then 3
    else if i == 0x21
    then 4
    else if i == 0x23
    then 0x41
    else if i == 0x27
    then 0x20
    else 0

abbrev listed : Bus
listed = record bus { chipram = lists }

plain_block : (n : ℕ) → n ≤ 16 → IsPlainBlock 0x2000 n
unfolding cell_of
plain_block n h i v l = ground arith

copy_list-IsForward : IsForward (single_list 0 listed) (next_job first_job)
unfolding read_list next_job read_memory28 read_cell cell_of bit
copy_list-IsForward = record {
  src_hold = refl;
  src_direction = refl;
  dest_hold = refl;
  dest_direction = refl;
  spiral_mode = refl;
  line = refl;
  s_line = refl;
  src_skip = refl;
  dst_skip = refl;
}

fill_list-IsForward : IsForward (single_list 0x20 listed) (next_job first_job)
unfolding read_list next_job read_memory28 read_cell cell_of bit
fill_list-IsForward = record {
  src_hold = refl;
  src_direction = refl;
  dest_hold = refl;
  dest_direction = refl;
  spiral_mode = refl;
  line = refl;
  s_line = refl;
  src_skip = refl;
  dst_skip = refl;
}

do_dma_copy_example :
    (s' : Bus) × (do_dma ⦃dma = no_dma⦄ 1 false 0 listed ≡ returned s')
    × (read_memory28 s' 0x2003 ≡ (
        if is_inside 0x2000 16 0x2003
        then read_memory28 listed (0x4000 + (0x2003 - 0x2000))
        else read_memory28 listed 0x2003))
unfolding read_list next_job read_memory28 read_cell cell_of
do_dma_copy_example =
    do_dma_copy ⦃dma = no_dma⦄ 0 0 listed copy_list-IsForward (omega arith) (omega arith)
      (plain_block 16 (omega arith)) refl (inl (omega arith)) (omega arith) 0x2003 (omega arith)

do_dma_fill_example :
    (s' : Bus) × (do_dma ⦃dma = no_dma⦄ 1 false 0x20 listed ≡ returned s')
    × (read_memory28 s' 0x2003 ≡ (
        if is_inside 0x2000 4 0x2003
        then byte (0x41 + (0x2003 - 0x2000))
        else read_memory28 listed 0x2003))
unfolding read_list next_job read_memory28 read_cell cell_of
do_dma_fill_example =
    do_dma_fill ⦃dma = no_dma⦄ 0 0x20 listed fill_list-IsForward (omega arith) (omega arith)
      (plain_block 4 (omega arith)) refl 0x2003 (omega arith)

-- A line without a slope, and one that carries.
abbrev flat_line : Line
flat_line = record no_line { mode = true }

abbrev steep_line : Line
steep_line = record no_line { mode = true; slope = 0x8000; fraction_start = 0x8000 }

line_step_lem_example :
    let fraction = word32 (steep_line.fraction_start + steep_line.slope) in
    line_step steep_line 0x200000 ≡ (
      if bit 16 fraction == 0
      then none
      else some (
        record steep_line { fraction_start = fraction; overflow_toggle = 0 },
        if steep_line.x_or_y
            then move_down_y (steep_line.y8_offset * 2 ^ 8) 0x200000
            else move_right (steep_line.x8_offset * 2 ^ 8) 0x200000,
      ))
line_step_lem_example = line_step_lem steep_line 0x200000 refl

-- One symbol, in a table of which the array is full.
abbrev full_table : Symbols
full_table = record { name = λ i. 1; addr = λ i. 0x4000; count = max_symbols; by_addr = λ a. none }

copy_symbols-le_example : (copy_symbols 0x4000 0x2000 16 5 0 full_table).1.count ≤ max_symbols
copy_symbols-le_example = copy_symbols-le 0x4000 0x2000 16 5 0 full_table (omega arith)
