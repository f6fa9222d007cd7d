-- ===== src/Emulator/Dma/Memory.antt =====
-- What whole jobs of `do_dma` in src/tools/hyppotest.c leave in memory.
use mega65_core.Prelude.{
  ℕ, suc, ◌+◌, ◌-◌, ◌*◌, ◌/◌, ◌%◌, ◌^◌, ◌≤◌, ◌<◌, ◌≡◌, ◌⊎◌, refl, sym, ◌∙◌, ap, true, false,
  if◌then◌else◌, arith, byte,
}
use mega65_core.Emulator.State.{Bus, Symbols}
use mega65_core.Emulator.Memory.{DmaController, Cell, cell_of, read_cell, read_memory28}
use mega65_core.Emulator.Dma.Options.{first_job, next_job}
use mega65_core.Emulator.Dma.DmaList.{Request, read_list}
use mega65_core.Emulator.Dma.SymbolTable.{
  max_symbols, copy_symbols, erase_symbols, copy_symbols-enough,
}
use mega65_core.Emulator.Dma.Blocks.{
  IsForward, is_inside, block, IsPlainBlock, block_bus, transfer_bytes-block, filled, copied,
  block_bus-fill, block_bus-copy,
}
use mega65_core.Emulator.Dma.{
  going, returned, Transfer, transfer_bytes, keep_copied, move_symbols, run_job, read_job, run_jobs,
  do_dma,
}

read_cell-symbols :
    (s : Bus) (t : Symbols) (c : Cell) → read_cell (record s { symbols = t }) c ≡ read_cell s c
unfolding read_cell
read_cell-symbols s t (Cell.hyppo i) = refl
read_cell-symbols s t (Cell.chip i) = refl
read_cell-symbols s t (Cell.colour i) = refl
read_cell-symbols s t (Cell.io i) = refl
read_cell-symbols s t Cell.unmapped = refl

read_memory28-symbols :
    (s : Bus) (t : Symbols) (a : ℕ) → read_memory28 (record s { symbols = t }) a ≡ read_memory28 s a
unfolding read_memory28
read_memory28-symbols s t a = read_cell-symbols s t (cell_of a)

-- The list of a job that is not enhanced.
abbrev pub single_list : ℕ → Bus → Request
single_list addr s = read_list addr (next_job first_job) s

src_whole :
    (addr : ℕ) (s : Bus)
    → (single_list addr s).src_addr / 2 ^ 8 * 2 ^ 8 ≡ (single_list addr s).src_addr
unfolding read_list next_job
src_whole addr s = omega arith

dest_whole :
    (addr : ℕ) (s : Bus)
    → (single_list addr s).dest_addr / 2 ^ 8 * 2 ^ 8 ≡ (single_list addr s).dest_addr
unfolding read_list next_job
dest_whole addr s = omega arith

module _ ⦃dma : DmaController⦄ (fuel addr : ℕ) (s : Bus) where
  -- A single job ends where its transfer ends.
  do_dma-transfer_bytes :
      (s1 : Bus) (t : Transfer)
      → let q = single_list addr s in
        q.dma_cmd / 4 % 2 ≡ 0
        → move_symbols q s ≡ going s1
        → transfer_bytes q.dma_count q
            (block (q.src_addr / 2 ^ 8) (q.dest_addr / 2 ^ 8) (next_job first_job) s1)
          ≡ going t
        → do_dma (suc fuel) false addr s ≡ returned t.bus
  unfolding do_dma run_jobs read_job run_job
  do_dma-transfer_bytes s1 t single symbols e =
      let q = single_list addr s in
      let j = next_job first_job in
      let start : Transfer = record {
        src_addr = q.src_addr;
        dest_addr = q.dest_addr;
        job = j;
        bus = s1;
      } in
      let same : start ≡ block (q.src_addr / 2 ^ 8) (q.dest_addr / 2 ^ 8) j s1 = λ i. record {
        src_addr = sym (src_whole addr s) i;
        dest_addr = sym (dest_whole addr s) i;
        job = j;
        bus = s1;
      } in
      let moved : transfer_bytes q.dma_count q start ≡ going t =
        ap (transfer_bytes q.dma_count q) same ∙ e in
      simp (symbols, moved, single)

module _ ⦃dma : DmaController⦄ (fuel addr : ℕ) (s : Bus)
    (forward : IsForward (single_list addr s) (next_job first_job))
    (room : (single_list addr s).dest_addr / 2 ^ 8 + (single_list addr s).dma_count ≤ 0x1ffd0000)
    (inside : (single_list addr s).src_addr / 2 ^ 8 + (single_list addr s).dma_count ≤ 0x1ffd0000)
    (plain : IsPlainBlock
      ((single_list addr s).dest_addr / 2 ^ 8)
      (single_list addr s).dma_count) where
  -- A single fill that runs forward over memory that only stores returns. It has stored a value that
  -- counts up with the source address, byte by byte, in its destination, and no other byte.
  pub do_dma_fill :
      let q = single_list addr s in
      let dst = q.dest_addr / 2 ^ 8 in
      q.dma_cmd % 8 ≡ 3
      → (a : ℕ) → a < 0x1ffd0000
      → (s' : Bus) × (do_dma (suc fuel) false addr s ≡ returned s')
        × (read_memory28 s' a ≡ (
            if is_inside dst q.dma_count a
            then byte (q.src_addr / 2 ^ 8 + (a - dst))
            else read_memory28 s a))
  unfolding move_symbols
  do_dma_fill fill a l =
      let q = single_list addr s in
      let src = q.src_addr / 2 ^ 8 in
      let dst = q.dest_addr / 2 ^ 8 in
      let t = erase_symbols dst q.dma_count s.symbols.count 0 s.symbols in
      let s1 = record s { symbols = t } in
      let cmd : q.dma_cmd % 4 ≡ 3 = omega arith in
      let symbols : move_symbols q s ≡ going s1 = simp cmd in
      (
        block_bus (λ b _. byte b) q.dma_count src dst s1,
        do_dma-transfer_bytes fuel addr s s1 _ (omega arith) symbols (
            transfer_bytes-block (λ b _. byte b) q (next_job first_job) forward 0x1ffd0000
              (omega arith)
              (λ b d u h k. filled q (next_job first_job) forward b d u (omega arith) cmd)
              q.dma_count src dst s1 inside room),
        block_bus-fill q.dma_count src dst s1 a room plain l ∙ rw (read_memory28-symbols s t a),
      )

  -- A single copy that runs forward over memory that only stores, from a source that its destination
  -- does not run into, returns, where the symbols have room for their clones. It has stored what the
  -- source held before in its destination, and no other byte.
  pub do_dma_copy :
      let q = single_list addr s in
      let src = q.src_addr / 2 ^ 8 in
      let dst = q.dest_addr / 2 ^ 8 in
      q.dma_cmd % 8 ≡ 0
      → (dst ≤ src) ⊎ (src + q.dma_count ≤ dst)
      → s.symbols.count + s.symbols.count ≤ max_symbols
      → (a : ℕ) → a < 0x1ffd0000
      → (s' : Bus) × (do_dma (suc fuel) false addr s ≡ returned s')
        × (read_memory28 s' a ≡ (
            if is_inside dst q.dma_count a
            then read_memory28 s (src + (a - dst))
            else read_memory28 s a))
  unfolding move_symbols keep_copied
  do_dma_copy copy apart room_for_clones a l =
      let q = single_list addr s in
      let src = q.src_addr / 2 ^ 8 in
      let dst = q.dest_addr / 2 ^ 8 in
      let r = copy_symbols src dst q.dma_count s.symbols.count 0 s.symbols in
      let s1 = record s { symbols = r.1 } in
      let cmd : q.dma_cmd % 4 ≡ 0 = omega arith in
      let enough : r.0 ≡ true =
        copy_symbols-enough src dst q.dma_count s.symbols.count 0 s.symbols room_for_clones in
      let symbols : move_symbols q s ≡ going s1 = simp (cmd, enough) in
      (
        block_bus (λ b u. read_memory28 u b) q.dma_count src dst s1,
        do_dma-transfer_bytes fuel addr s s1 _ (omega arith) symbols (
            transfer_bytes-block (λ b u. read_memory28 u b) q (next_job first_job) forward
              0x1ffd0000 (omega arith)
              (λ b d u h k.
                copied q (next_job first_job) forward b d u (omega arith) (omega arith) cmd)
              q.dma_count src dst s1 inside room),
        block_bus-copy q.dma_count src dst s1 a inside room plain apart l
            ∙ rw (read_memory28-symbols s r.1 a, read_memory28-symbols s r.1 (src + (a - dst))),
      )
