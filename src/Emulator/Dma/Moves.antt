-- ===== src/Emulator/Dma/Moves.antt =====
-- How `do_dma` of src/tools/hyppotest.c moves on the source and the destination of a job. Both are
-- an `unsigned long long` with eight bits of fraction.
use mega65_core.Prelude.{
  ℕ, ◌+◌, ◌-◌, ◌*◌, ◌/◌, ◌%◌, ◌^◌, bit_and, bit_or, Bool, not, ◌&&◌, ◌||◌, ◌==◌, ltb, if◌then◌else◌,
  Option, none, some, word32,
}
use mega65_core.Emulator.Dma.Options.{Line, Job}

-- `addr += up - down`, where `up` and `down` are below 2 ^ 64.
unfoldable pub shift : ℕ → ℕ → ℕ → ℕ
shift addr up down = (addr + up + (2 ^ 64 - down)) % 2 ^ 64

-- `(addr >> 8) & 0x3f`: the place of a pixel in its card of 8 by 8. Its low three bits are the
-- column, the others the row.
abbrev pub pixel : ℕ → ℕ
pixel addr = addr / 2 ^ 8 % 0x40

abbrev pub column : ℕ → ℕ
column addr = addr / 2 ^ 8 % 8

abbrev pub row : ℕ → ℕ
row addr = addr / 2 ^ 11 % 8

-- The eight moves of a line. `x` and `y` are what the source adds at the edge of a card,
-- `x8_offset << 8` and `y8_offset << 8`.
unfoldable pub move_down_y : ℕ → ℕ → ℕ
move_down_y y addr = if row addr == 7 then bit_or addr (256 * 8 + y) else bit_or addr (256 * 8)

unfoldable pub move_up_y : ℕ → ℕ → ℕ
unfolding shift
move_up_y y addr = if row addr == 0 then shift addr 0 (256 * 8 + y) else shift addr 0 (256 * 8)

unfoldable pub move_right : ℕ → ℕ → ℕ
unfolding shift
move_right x addr = if column addr == 7 then shift addr (256 + x) 0 else shift addr 256 0

unfoldable pub move_left : ℕ → ℕ → ℕ
unfolding shift
move_left x addr = if column addr == 0 then shift addr 0 (256 + x) else shift addr 0 256

unfoldable pub move_right_down : ℕ → ℕ → ℕ → ℕ
unfolding shift
move_right_down x y addr =
    if pixel addr == 0x3f
    then shift addr (256 * 9 + x + y) 0
    else if pixel addr == 0x38
    then shift addr (256 * 9 + y) 0
    else if pixel addr == 0x07
    then shift addr (256 * 9 + x) 0
    else shift addr (256 * 9) 0

-- The third test is no `else` of the first two, so that it moves what they have moved already.
unfoldable pub move_right_up : ℕ → ℕ → ℕ → ℕ
unfolding shift
move_right_up x y addr =
    let moved =
      if pixel addr == 0x07
      then shift addr (256 * 1 + x) (256 * 8 + y)
      else if ltb (pixel addr) 0x08
      then shift addr (256 * 1) (256 * 8 + y)
      else addr in
    if column moved == 0x07
    then shift moved (256 * 1 + x) (256 * 8)
    else shift moved (256 * 1) (256 * 8)

unfoldable pub move_left_down : ℕ → ℕ → ℕ → ℕ
unfolding shift
move_left_down x y addr =
    if pixel addr == 0x38
    then shift addr (256 * 8 + y) (256 * 1 + x)
    else if row addr == 0x07
    then shift addr (256 * 8 + y) (256 * 1)
    else if column addr == 0
    then shift addr (256 * 8) (256 * 1 + x)
    else shift addr (256 * 8) (256 * 1)

unfoldable pub move_left_up : ℕ → ℕ → ℕ → ℕ
unfolding shift
move_left_up x y addr =
    if pixel addr == 0
    then shift addr 0 (256 * 1 + 256 * 8 + x + y)
    else if row addr == 0
    then shift addr 0 (256 * 1 + 256 * 8 + y)
    else if column addr == 0
    then shift addr 0 (256 * 1 + 256 * 8 + x)
    else shift addr 0 (256 * 1 + 256 * 8)

-- The moves by `line_x_move`, `line_x_move_negative`, `line_y_move` and `line_y_move_negative`.
unfoldable pub move_pixel : Line → Bool → Bool → Bool → Bool → ℕ → ℕ
unfolding move_down_y move_up_y move_right move_left move_right_down move_right_up move_left_down
    move_left_up
move_pixel l x_move x_negative y_move y_negative addr =
    let x = l.x8_offset * 2 ^ 8 in
    let y = l.y8_offset * 2 ^ 8 in
    if not x_move && (y_move && not y_negative)
    then move_down_y y addr
    else if not x_move && (y_move && y_negative)
    then move_up_y y addr
    else if x_move && (not x_negative && not y_move)
    then move_right x addr
    else if x_move && (x_negative && not y_move)
    then move_left x addr
    else if x_move && (not x_negative && (y_move && not y_negative))
    then move_right_down x y addr
    else if x_move && (not x_negative && (y_move && y_negative))
    then move_right_up x y addr
    else if x_move && (x_negative && (y_move && not y_negative))
    then move_left_down x y addr
    else if x_move && (x_negative && (y_move && y_negative))
    then move_left_up x y addr
    else addr

-- One step of a line. `overflow_toggle /= carry` divides, and so is undefined where `carry` is 0:
-- `none`. The minor axis moves where the quotient is not 0.
unfoldable pub line_step : Line → ℕ → Option (Line × ℕ)
unfolding move_pixel
line_step l addr =
    let fraction = word32 (l.fraction_start + l.slope) in
    let carry = bit_and fraction 0x10000 in
    let quotient = l.overflow_toggle / carry in
    let minor = not (quotient == 0) in
    let l' = record l {
      fraction_start = fraction;
      overflow_toggle = if minor then carry else quotient;
    } in
    if carry == 0
    then none
    else some (
      l',
      move_pixel l (not l.x_or_y || minor) (l.x_or_y && (minor && l.slope_negative))
          (l.x_or_y || minor) (not l.x_or_y && (minor && l.slope_negative)) addr,
    )

-- The step of a normal copy or fill.
unfoldable pub plain_step : Bool → Bool → ℕ → ℕ → ℕ
unfolding shift
plain_step hold direction skip addr =
    if hold then addr else if direction then shift addr 0 skip else shift addr skip 0

-- The step of the spiral.
unfoldable pub spiral_step : Job → ℕ → Job × ℕ
unfolding shift
spiral_step j addr =
    let addr' =
      if j.spiral_phase == 0
      then shift addr 0x100 0
      else if j.spiral_phase == 1
      then shift addr 0x2800 0
      else if j.spiral_phase == 2
      then shift addr 0 0x100
      else if j.spiral_phase == 3
      then shift addr 0 0x2800
      else addr in
    let remaining =
      if not (j.spiral_len_remaining == 0)
      then j.spiral_len_remaining - 1
      else if j.spiral_phase % 2 == 0
      then word32 (j.spiral_len + 2 ^ 32 - 16)
      else j.spiral_len in
    let len = if j.spiral_len_remaining == 0 then j.spiral_len - 1 else j.spiral_len in
    (
      record j {
        spiral_len_remaining = remaining;
        spiral_len = len;
        spiral_phase = (j.spiral_phase + 1) % 4;
      },
      addr',
    )
