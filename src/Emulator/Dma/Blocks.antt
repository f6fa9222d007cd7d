-- ===== src/Emulator/Dma/Blocks.antt =====
-- Jobs of `do_dma` in src/tools/hyppotest.c that run forward over memory, byte by byte.
use mega65_core.Prelude.{
  ℕ, zero, suc, ◌+◌, ◌-◌, ◌*◌, ◌/◌, ◌%◌, ◌^◌, ◌≤◌, ◌<◌, ◌≡◌, ◌⊎◌, ◌∙◌, Bool, false, ◌&&◌, leb, ltb,
  if◌then◌else◌, arith, byte, word32,
}
use mega65_core.Emulator.State.{Bus}
use mega65_core.Emulator.Memory.{DmaController, cell_of, read_memory28, write_cell}
use mega65_core.Emulator.Memory.Access.{IsPlain, read_memory28-write_cell}
use mega65_core.Emulator.Dma.Options.{Job}
use mega65_core.Emulator.Dma.DmaList.{Request}
use mega65_core.Emulator.Dma.Moves.{plain_step, shift}
use mega65_core.Emulator.Dma.{
  going, Transfer, move_source, move_destination, operate, move_byte, transfer_bytes,
}

-- A job in steps of one byte, forward at both ends.
pub record IsForward (q : Request) (j : Job) : Type 0 where
  pub src_hold : q.src_hold ≡ false
  pub src_direction : q.src_direction ≡ false
  pub dest_hold : q.dest_hold ≡ false
  pub dest_direction : q.dest_direction ≡ false
  pub spiral_mode : j.spiral_mode ≡ false
  pub line : j.line.mode ≡ false
  pub s_line : j.s_line.mode ≡ false
  pub src_skip : j.src_skip ≡ 0x100
  pub dst_skip : j.dst_skip ≡ 0x100

-- Whether an address lies in the `n` from `start` on.
abbrev pub is_inside : ℕ → ℕ → ℕ → Bool
is_inside start n a = leb start a && ltb a (start + n)

-- A transfer of bytes at `src` to bytes at `dst`.
abbrev pub block : ℕ → ℕ → Job → Bus → Transfer
block src dst j s = record { src_addr = src * 2 ^ 8; dest_addr = dst * 2 ^ 8; job = j; bus = s }

-- No write of the block does more than to store.
abbrev pub IsPlainBlock : ℕ → ℕ → Type 0
IsPlainBlock dst n = (i v : ℕ) → i < n → IsPlain (cell_of (dst + i)) v

shifted : (a : ℕ) → a < 2 ^ 32 → shift (a * 2 ^ 8) 0x100 0 ≡ suc a * 2 ^ 8
unfolding shift
shifted a h = omega arith

whole : (a : ℕ) → a < 2 ^ 32 → word32 (a * 2 ^ 8 / 2 ^ 8) ≡ a
whole a h = omega arith

low : (a : ℕ) → byte (a * 2 ^ 8 / 2 ^ 8) ≡ byte a
low a = omega arith

module _ (q : Request) (j : Job) (forward : IsForward q j) (src dst : ℕ) (s : Bus) where
  source_moved : src < 2 ^ 32 → move_source q (block src dst j s) ≡ going (block (suc src) dst j s)
  unfolding move_source plain_step
  source_moved h =
      simp
        (forward.s_line, forward.src_hold, forward.src_direction, forward.src_skip, shifted src h)

  destination_moved :
      dst < 2 ^ 32 → move_destination q (block src dst j s) ≡ going (block src (suc dst) j s)
  unfolding move_destination plain_step
  destination_moved h = simp (
    forward.spiral_mode,
    forward.line,
    forward.dest_hold,
    forward.dest_direction,
    forward.dst_skip,
    shifted dst h,
  )

module _ ⦃dma : DmaController⦄ (q : Request) (j : Job) (forward : IsForward q j) where
  -- A byte of the block: the value is stored, and both ends move on.
  byte_moved :
      (src dst v : ℕ) (s : Bus)
      → src < 2 ^ 32
      → dst < 2 ^ 32
      → operate q (block src dst j s) ≡ going (block src dst j (write_cell (cell_of dst) v s))
      → move_byte q (block src dst j s)
        ≡ going (block (suc src) (suc dst) j (write_cell (cell_of dst) v s))
  unfolding move_byte
  byte_moved src dst v s h k e =
      let s' = write_cell (cell_of dst) v s in
      simp
        (e, source_moved q j forward src dst s' h, destination_moved q j forward (suc src) dst s' k)

  pub filled :
      (src dst : ℕ) (s : Bus)
      → dst < 2 ^ 32
      → q.dma_cmd % 4 ≡ 3
      → operate q (block src dst j s)
        ≡ going (block src dst j (write_cell (cell_of dst) (byte src) s))
  unfolding operate
  filled src dst s k fill = simp (fill, whole dst k, low src)

  pub copied :
      (src dst : ℕ) (s : Bus)
      → src < 2 ^ 32
      → dst < 2 ^ 32
      → q.dma_cmd % 4 ≡ 0
      → operate q (block src dst j s)
        ≡ going (block src dst j (write_cell (cell_of dst) (read_memory28 s src) s))
  unfolding operate
  copied src dst s h k copy = simp (copy, whole dst k, whole src h)

-- The source and destination after `n` bytes.
next_place :
    (n src dst : ℕ) (j : Job) (s : Bus)
    → block (suc src + n) (suc dst + n) j s ≡ block (src + suc n) (dst + suc n) j s
next_place n src dst j s =
    let e : suc src + n ≡ src + suc n = omega arith in
    let f : suc dst + n ≡ dst + suc n = omega arith in λ i. block (e i) (f i) j s

IsPlainBlock-suc : (dst n : ℕ) → IsPlainBlock dst (suc n) → IsPlainBlock (suc dst) n
IsPlainBlock-suc dst n plain i v l =
    let e : dst + suc i ≡ suc dst + i = omega arith in rw (← e) (plain (suc i) v (omega arith))

first-IsPlain : (dst n v : ℕ) → IsPlainBlock dst (suc n) → IsPlain (cell_of dst) v
first-IsPlain dst n v plain =
    let e : dst + 0 ≡ dst = omega arith in rw (← e) (plain 0 v (omega arith))

module _ ⦃dma : DmaController⦄ (value : ℕ → Bus → ℕ) where
  -- The memory after `n` writes of the values that `value` gives for the source address.
  unfoldable pub block_bus : ℕ → ℕ → ℕ → Bus → Bus
  block_bus zero src dst s = s
  block_bus (suc n) src dst s =
      block_bus n (suc src) (suc dst) (write_cell (cell_of dst) (value src s) s)

  module _ (q : Request) (j : Job) (forward : IsForward q j) (limit : ℕ) (small : limit ≤ 2 ^ 32)
      (writes : (src dst : ℕ) (s : Bus)
        → src < limit
        → dst < limit
        → operate q (block src dst j s)
          ≡ going (block src dst j (write_cell (cell_of dst) (value src s) s))) where
    pub transfer_bytes-block :
        (n src dst : ℕ) (s : Bus)
        → src + n ≤ limit
        → dst + n ≤ limit
        → transfer_bytes n q (block src dst j s)
          ≡ going (block (src + n) (dst + n) j (block_bus n src dst s))
    unfolding transfer_bytes block_bus
    transfer_bytes-block zero src dst s h k =
        let e : src ≡ src + 0 = omega arith in
        let f : dst ≡ dst + 0 = omega arith in λ i. going (block (e i) (f i) j s)
    transfer_bytes-block (suc n) src dst s h k =
        let s' = write_cell (cell_of dst) (value src s) s in
        simp (
          byte_moved q j forward src dst (value src s) s (omega arith) (omega arith)
              (writes src dst s (omega arith) (omega arith)),
          transfer_bytes-block n (suc src) (suc dst) s' (omega arith) (omega arith),
          next_place n src dst j,
        )

module _ ⦃dma : DmaController⦄ where
  pub block_bus-fill :
      (n src dst : ℕ) (s : Bus) (a : ℕ)
      → dst + n ≤ 0x1ffd0000
      → IsPlainBlock dst n
      → a < 0x1ffd0000
      → read_memory28 (block_bus (λ b s. byte b) n src dst s) a
        ≡ (if is_inside dst n a then byte (src + (a - dst)) else read_memory28 s a)
  unfolding block_bus
  block_bus-fill zero src dst s a k plain l = ground arith
  block_bus-fill (suc n) src dst s a k plain l =
      let s' = write_cell (cell_of dst) (byte src) s in
      block_bus-fill n (suc src) (suc dst) s' a (omega arith) (IsPlainBlock-suc dst n plain) l
      ∙ ground (
        arith,
        read_memory28-write_cell dst a (byte src) s (omega arith) l
            (first-IsPlain dst n (byte src) plain),
      )

  pub block_bus-copy :
      (n src dst : ℕ) (s : Bus) (a : ℕ)
      → src + n ≤ 0x1ffd0000
      → dst + n ≤ 0x1ffd0000
      → IsPlainBlock dst n
      → (dst ≤ src) ⊎ (src + n ≤ dst)
      → a < 0x1ffd0000
      → read_memory28 (block_bus (λ b s. read_memory28 s b) n src dst s) a
        ≡ (if is_inside dst n a then read_memory28 s (src + (a - dst)) else read_memory28 s a)
  unfolding block_bus
  block_bus-copy zero src dst s a h k plain apart l = ground arith
  block_bus-copy (suc n) src dst s a h k plain apart l =
      let v = read_memory28 s src in
      let s' = write_cell (cell_of dst) v s in
      block_bus-copy n (suc src) (suc dst) s' a (omega arith) (omega arith)
        (IsPlainBlock-suc dst n plain) (omega arith) l
      ∙ ground (
        arith,
        read_memory28-write_cell dst a v s (omega arith) l (first-IsPlain dst n v plain),
        λ (p : suc src + (a - suc dst) < 0x1ffd0000).
            read_memory28-write_cell dst (suc src + (a - suc dst)) v s (omega arith) p
              (first-IsPlain dst n v plain),
      )
