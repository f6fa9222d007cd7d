-- ===== src/Emulator/Dma.antt =====
-- `do_dma` of src/tools/hyppotest.c. The writes of a job go through `write_mem28`, which can start
-- another job; the `DmaController` of this module stands for that one. `controller` ties the knot,
-- up to a depth.
pub mod Options
pub mod Moves
pub mod SymbolTable
pub mod DmaList
pub mod Blocks
pub mod Lines
pub mod Bytes
pub mod Memory
mod Tests
use mega65_core.Prelude.{
  ℕ, zero, suc, ◌+◌, ◌-◌, ◌*◌, ◌/◌, ◌%◌, ◌^◌, Bool, true, false, not, ◌==◌, if◌then◌else◌, Option,
  none, some, byte, word32,
}
use mega65_core.Emulator.State.{Symbols, Bus, Termination, set_error}
use mega65_core.Emulator.Memory.{DmaController, cell_of, read_memory28, write_cell}
use Options.{Line, Job, first_job, next_job, read_options}
use Moves.{line_step, plain_step, spiral_step}
use SymbolTable.{copy_symbols, erase_symbols}
use DmaList.{Request, read_list}

-- How a part of a job ends: it goes on with a value, `do_dma` returns, it divides by zero, or the
-- fuel ran out.
pub data Progress {ℓ} (A : Type ℓ) : Type ℓ where
  going : A → Progress A
  returned : Bus → Progress A
  crashed : Progress A
  unfinished : Progress A

infixl 5 ◌>>=◌
abbrev pub ◌>>=◌ {ℓ κ} : {A : Type ℓ} {B : Type κ} → Progress A → (A → Progress B) → Progress B
going a >>= f = f a
returned s >>= f = returned s
crashed >>= f = crashed
unfinished >>= f = unfinished

unfoldable pub given {ℓ} : {A : Type ℓ} → Option A → Progress A
given none = unfinished
given (some a) = going a

-- What changes from byte to byte.
pub record Transfer : Type 0 where
  pub src_addr : ℕ
  pub dest_addr : ℕ
  pub job : Job
  pub bus : Bus

abbrev give_up : Bus → Bus
give_up s = record s { term = record s.term { error = true; done = true } }

-- Where the table is full, `do_dma` returns.
unfoldable pub keep_copied : Bool → Symbols → Bus → Progress Bus
keep_copied true copied s = going (record s { symbols = copied })
keep_copied false copied s = returned (give_up (record s { symbols = copied }))

-- The symbols that the job copies or erases, before it starts.
unfoldable pub move_symbols : Request → Bus → Progress Bus
unfolding keep_copied
move_symbols q s =
    let src = q.src_addr / 2 ^ 8 in
    let dst = q.dest_addr / 2 ^ 8 in
    let (enough, copied) = copy_symbols src dst q.dma_count s.symbols.count 0 s.symbols in
    let erased = erase_symbols dst q.dma_count s.symbols.count 0 s.symbols in
    if q.dma_cmd % 4 == 0
    then keep_copied enough copied s
    else if q.dma_cmd % 4 == 3
    then going (record s { symbols = erased })
    else going s

-- What a step of a line leaves; `none` is a division by zero.
unfoldable pub place_source : Transfer → Option (Line × ℕ) → Progress Transfer
place_source t none = crashed
place_source t (some (l, addr)) =
    going (record t { src_addr = addr; job = record t.job { s_line = l } })

unfoldable pub place_destination : Transfer → Option (Line × ℕ) → Progress Transfer
place_destination t none = crashed
place_destination t (some (l, addr)) =
    going (record t { dest_addr = addr; job = record t.job { line = l } })

unfoldable pub move_source : Request → Transfer → Progress Transfer
unfolding place_source
move_source q t =
    if not t.job.s_line.mode
    then going
        (record t { src_addr = plain_step q.src_hold q.src_direction t.job.src_skip t.src_addr })
    else place_source t (line_step t.job.s_line t.src_addr)

unfoldable pub move_destination : Request → Transfer → Progress Transfer
unfolding place_destination
move_destination q t =
    if t.job.spiral_mode
    then (let (j, addr) = spiral_step t.job t.dest_addr in
        going (record t { dest_addr = addr; job = j }))
    else if not t.job.line.mode
    then going (record t {
      dest_addr = plain_step q.dest_hold q.dest_direction t.job.dst_skip t.dest_addr;
    })
    else place_destination t (line_step t.job.line t.dest_addr)

module _ ⦃dma : DmaController⦄ where
  -- One byte: a copy, a fill, or the end of the job. The addresses are passed as `unsigned int`.
  unfoldable pub operate : Request → Transfer → Progress Transfer
  operate q t =
      let dst = word32 (t.dest_addr / 2 ^ 8) in
      let copied = read_memory28 t.bus (word32 (t.src_addr / 2 ^ 8)) in
      if q.dma_cmd % 4 == 0
      then going (record t { bus = write_cell (cell_of dst) copied t.bus })
      else if q.dma_cmd % 4 == 3
      then going (record t { bus = write_cell (cell_of dst) (byte (t.src_addr / 2 ^ 8)) t.bus })
      else returned (give_up t.bus)

  unfoldable pub move_byte : Request → Transfer → Progress Transfer
  unfolding operate move_source move_destination
  move_byte q t = operate q t >>= λ t'. move_source q t' >>= move_destination q

  -- `while (dma_count--)`.
  unfoldable pub transfer_bytes : ℕ → Request → Transfer → Progress Transfer
  transfer_bytes zero q t = going t
  transfer_bytes (suc n) q t = move_byte q t >>= transfer_bytes n q

  -- A job from its list on.
  unfoldable pub run_job : Request → Job → Bus → Progress Transfer
  unfolding move_symbols
  run_job q j s = move_symbols q s >>= λ s'.
      transfer_bytes q.dma_count q
        (record { src_addr = q.src_addr; dest_addr = q.dest_addr; job = j; bus = s' })

  -- The options, where the job is an enhanced one.
  unfoldable pub read_job : ℕ → Bool → ℕ → Job → Bus → Progress (ℕ × Job × Bus)
  unfolding given
  read_job fuel eDMA addr j s =
      if eDMA then given (read_options fuel addr (next_job j, s)) else going (addr, next_job j, s)

  -- The chain of jobs.
  unfoldable pub run_jobs : ℕ → Bool → ℕ → Job → Bus → Progress Bus
  run_jobs zero eDMA addr j s = unfinished
  run_jobs (suc fuel) eDMA addr j s = read_job (suc fuel) eDMA addr j s >>= λ (list, j', s').
      (let q = read_list list j' s' in
        run_job q j' s' >>= λ t.
        (let rest = run_jobs fuel eDMA q.after t.job t.bus in
          if q.dma_cmd / 4 % 2 == 0 then returned t.bus else rest))

  -- `unfinished` means that the fuel ran out.
  unfoldable pub do_dma : ℕ → Bool → ℕ → Bus → Progress Bus
  do_dma fuel eDMA addr s = run_jobs fuel eDMA addr first_job s
