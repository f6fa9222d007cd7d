-- ===== src/Emulator/Dma/SymbolTable.antt =====
-- What `do_dma` of src/tools/hyppotest.c does to the symbols: a copy clones those of its source, and
-- a fill erases those of its destination. Freeing a name is no part of the state.
use mega65_core.Prelude.{
  ℕ, zero, suc, ◌+◌, ◌-◌, ◌≤◌, ◌≡◌, arith, Bool, true, false, ◌&&◌, leb, ltb, if◌then◌else◌, store,
  word32, refl, some,
}
use mega65_core.Emulator.State.{Symbols, chipram_size}

abbrev pub max_symbols : ℕ
max_symbols = chipram_size

-- Whether a symbol lies in the `count` bytes from `start` on.
abbrev pub is_within : ℕ → ℕ → ℕ → Bool
is_within start count addr = leb start addr && ltb addr (start + count)

-- The clone of a symbol, at the end of the table. `src` and `dst` are `src_addr >> 8` and
-- `dest_addr >> 8`.
unfoldable pub clone_symbol : ℕ → ℕ → ℕ → Symbols → Symbols
clone_symbol src dst i t =
    let addr = dst + (t.addr i - src) in
    record t {
      name = store t.name t.count (t.name i);
      addr = store t.addr t.count (word32 addr);
      by_addr = if ltb addr chipram_size then store t.by_addr addr (some t.count) else t.by_addr;
      count = suc t.count;
    }

-- The loop over the symbols from `i` on, `left` many; false if it stops since the table is full.
unfoldable pub copy_symbols : ℕ → ℕ → ℕ → ℕ → ℕ → Symbols → Bool × Symbols
unfolding clone_symbol
copy_symbols src dst count zero i t = (true, t)
copy_symbols src dst count (suc left) i t =
    let within = is_within src count (t.addr i) in
    let rest =
      copy_symbols src dst count left (suc i) (if within then clone_symbol src dst i t else t) in
    if within && leb max_symbols t.count then (false, t) else rest

-- The last symbol takes the place of the symbol i. It is not looked at again.
unfoldable pub erase_symbol : ℕ → Symbols → Symbols
erase_symbol i t =
    let last = t.count - 1 in
    record t {
      addr = store t.addr i (t.addr last);
      name = store t.name i (t.name last);
      count = last;
    }

-- `for (i = 0; i < symbol_count; i++)`. `left` is the number of symbols at the start, and so the
-- rounds suffice.
unfoldable pub erase_symbols : ℕ → ℕ → ℕ → ℕ → Symbols → Symbols
unfolding erase_symbol
erase_symbols dst count zero i t = t
erase_symbols dst count (suc left) i t =
    let within = is_within dst count (t.addr i) in
    let rest = erase_symbols dst count left (suc i) (if within then erase_symbol i t else t) in
    if ltb i t.count then rest else t

copy_step-count :
    (within : Bool) (src dst i : ℕ) (t : Symbols)
    → (if within then clone_symbol src dst i t else t).count ≤ suc t.count
unfolding clone_symbol
copy_step-count within src dst i t = ground arith

-- However many symbols a copy finds, the table keeps within its array.
pub copy_symbols-le :
    (src dst count left i : ℕ) (t : Symbols)
    → t.count ≤ max_symbols
    → (copy_symbols src dst count left i t).1.count ≤ max_symbols
unfolding copy_symbols clone_symbol
copy_symbols-le src dst count zero i t h = h
copy_symbols-le src dst count (suc left) i t h =
    let within = is_within src count (t.addr i) in
    ground (
      arith,
      copy_symbols-le src dst count left (suc i) (if within then clone_symbol src dst i t else t),
    )

-- A table with room for a clone of each symbol is no error.
pub copy_symbols-enough :
    (src dst count left i : ℕ) (t : Symbols)
    → t.count + left ≤ max_symbols
    → (copy_symbols src dst count left i t).0 ≡ true
unfolding copy_symbols
copy_symbols-enough src dst count zero i t h = refl
copy_symbols-enough src dst count (suc left) i t h =
    let within = is_within src count (t.addr i) in
    let t' = if within then clone_symbol src dst i t else t in
    ground
      (arith, copy_step-count within src dst i t, copy_symbols-enough src dst count left (suc i) t')
