-- ===== src/Emulator/Dma/Lines.antt =====
-- The lines of `do_dma` in src/tools/hyppotest.c.
use mega65_core.Prelude.{
  ℕ, suc, ◌+◌, ◌*◌, ◌%◌, ◌^◌, ◌≡◌, ◌≢◌, ◌⊎◌, inl, inr, refl, Bool, true, false, not, ◌&&◌, ◌||◌,
  ◌==◌, if◌then◌else◌, arith, word32, bit_and, Bool-cases, none, some,
}
use mega65_core.Prelude.Bits.{bit, bit_and-pow}
use mega65_core.Emulator.Memory.{DmaController}
use mega65_core.Emulator.Dma.Options.{Line}
use mega65_core.Emulator.Dma.DmaList.{Request}
use mega65_core.Emulator.Dma.Moves.{line_step, move_pixel, move_right, move_down_y}
use mega65_core.Emulator.Dma.{
  crashed, Transfer, move_source, move_destination, operate, move_byte, transfer_bytes,
}

-- The line of the source or the destination cannot go on: its fraction does not carry.
abbrev pub IsStuck : Line → Type 0
IsStuck l = bit 16 (word32 (l.fraction_start + l.slope)) ≡ 0

carry-eq : (x : ℕ) → bit_and x 0x10000 ≡ bit 16 x * 0x10000
carry-eq x = bit_and-pow 16 x

line_step-none : (l : Line) (addr : ℕ) → IsStuck l → line_step l addr ≡ none
unfolding line_step
line_step-none l addr h = simp (carry-eq, h)

bit_16-one : (x : ℕ) → bit 16 x ≢ 0 → bit 16 x ≡ 1
unfolding bit
bit_16-one x h = omega arith

-- The move along the major axis, which `b` says to be Y.
major :
    (l : Line) (b n : Bool) (addr : ℕ)
    → move_pixel l (not b || false) (b && (false && n)) (b || false) (not b && (false && n)) addr
      ≡ (if b
          then move_down_y (l.y8_offset * 2 ^ 8) addr
          else move_right (l.x8_offset * 2 ^ 8) addr)
unfolding move_pixel
major l true n addr = refl
major l false n addr = refl

-- With the toggle that a job starts with, a step of a line divides by zero where bit 16 of the
-- fraction is clear. Otherwise it moves along the major axis alone, so that the slope has no effect,
-- and leaves the toggle as it is.
pub line_step_lem :
    (l : Line) (addr : ℕ)
    → l.overflow_toggle ≡ 0
    → let fraction = word32 (l.fraction_start + l.slope) in
      line_step l addr ≡ (
        if bit 16 fraction == 0
        then none
        else some (
          record l { fraction_start = fraction; overflow_toggle = 0 },
          if l.x_or_y
              then move_down_y (l.y8_offset * 2 ^ 8) addr
              else move_right (l.x8_offset * 2 ^ 8) addr,
        ))
unfolding line_step
line_step_lem l addr h =
    let fraction = word32 (l.fraction_start + l.slope) in
    elim (Bool-cases (bit 16 fraction == 0)) [
      | inl clear ↦ rw clear (line_step-none l addr (ground arith))
      | inr set ↦
          let one : bit 16 fraction ≡ 1 = bit_16-one fraction (ground arith) in
          simp (carry-eq, one, h, major l l.x_or_y l.slope_negative addr)
    ]

module _ ⦃dma : DmaController⦄ where
  -- A transfer to a line whose fraction does not carry divides by zero at its first byte.
  transfer_stuck :
      (n : ℕ) (q : Request) (t : Transfer)
      → (q.dma_cmd % 4 ≡ 0) ⊎ (q.dma_cmd % 4 ≡ 3)
      → t.job.s_line.mode ≡ false
      → t.job.spiral_mode ≡ false
      → t.job.line.mode ≡ true
      → IsStuck t.job.line
      → transfer_bytes (suc n) q t ≡ crashed
  unfolding transfer_bytes move_byte operate move_source move_destination
  transfer_stuck n q t (inl copy) plain spiral line stuck =
      simp (copy, plain, spiral, line, line_step-none t.job.line t.dest_addr stuck)
  transfer_stuck n q t (inr fill) plain spiral line stuck =
      simp (fill, plain, spiral, line, line_step-none t.job.line t.dest_addr stuck)
