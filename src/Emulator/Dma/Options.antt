-- ===== src/Emulator/Dma/Options.antt =====
-- The variables of `do_dma` in src/tools/hyppotest.c, and the options of a job.
use mega65_core.Prelude.{
  ℕ, zero, suc, ◌+◌, ◌*◌, ◌^◌, bit_or, Bool, true, false, ◌&&◌, ◌==◌, leb, if◌then◌else◌, Option,
  none, some, word32,
}
use mega65_core.Prelude.Bits.{bit}
use mega65_core.Emulator.State.{Bus, set_error}
use mega65_core.Emulator.Memory.{read_memory28}

-- The variables of a line, which the source and the destination have each.
pub record Line : Type 0 where
  pub x8_offset : ℕ
  pub y8_offset : ℕ
  pub slope : ℕ
  pub overflow_toggle : ℕ
  pub fraction_start : ℕ
  pub mode : Bool
  pub x_or_y : Bool
  pub slope_negative : Bool

-- The variables that live from job to job of a chain.
pub record Job : Type 0 where
  pub f011b : Bool
  pub with_transparency : Bool
  pub floppy_mode : Bool
  pub floppy_ignore_ff : Bool
  pub spiral_mode : Bool
  pub spiral_len : ℕ
  pub spiral_len_remaining : ℕ
  pub spiral_phase : ℕ
  pub src_mb : ℕ
  pub dst_mb : ℕ
  pub src_skip : ℕ
  pub dst_skip : ℕ
  pub transparent_value : ℕ
  pub dma_count : ℕ
  pub line : Line
  pub s_line : Line

abbrev pub no_line : Line
no_line = record {
  x8_offset = 0;
  y8_offset = 0;
  slope = 0;
  overflow_toggle = 0;
  fraction_start = 0;
  mode = false;
  x_or_y = false;
  slope_negative = false;
}

-- The values that the variables are declared with.
abbrev pub first_job : Job
first_job = record {
  f011b = false;
  with_transparency = false;
  floppy_mode = false;
  floppy_ignore_ff = false;
  spiral_mode = false;
  spiral_len = 0;
  spiral_len_remaining = 0;
  spiral_phase = 0;
  src_mb = 0;
  dst_mb = 0;
  src_skip = 0;
  dst_skip = 0;
  transparent_value = 0;
  dma_count = 0;
  line = no_line;
  s_line = no_line;
}

-- What each job of a chain sets anew.
unfoldable pub next_job : Job → Job
next_job j = record j { dma_count = 0; src_skip = 0x0100; dst_skip = 0x0100 }

-- The options of a line, with `base` 0x87 for the destination and 0x97 for the source.
unfoldable pub line_option : ℕ → ℕ → ℕ → Line → Line
line_option base option arg l =
    if option == base
    then record l { x8_offset = bit_or l.x8_offset arg }
    else if option == base + 1
    then record l { x8_offset = bit_or l.x8_offset (arg * 2 ^ 8) }
    else if option == base + 2
    then record l { y8_offset = bit_or l.y8_offset arg }
    else if option == base + 3
    then record l { y8_offset = bit_or l.y8_offset (arg * 2 ^ 8) }
    else if option == base + 4
    then record l { slope = bit_or l.slope arg }
    else if option == base + 5
    then record l { slope = bit_or l.slope (arg * 2 ^ 8) }
    else if option == base + 6
    then record l { fraction_start = bit_or l.fraction_start arg }
    else if option == base + 7
    then record l { fraction_start = bit_or l.fraction_start (arg * 2 ^ 8) }
    else record l {
      mode = bit 7 arg == 1;
      x_or_y = bit 6 arg == 1;
      slope_negative = bit 5 arg == 1;
    }

-- The `switch` on an option; `none` is its default.
unfoldable pub job_option : ℕ → ℕ → Job → Option Job
unfolding line_option
job_option option arg j =
    if option == 0x06
    then some (record j { with_transparency = false })
    else if option == 0x07
    then some (record j { with_transparency = false })
    else if option == 0x0a
    then some (record j { f011b = false })
    else if option == 0x0b
    then some (record j { f011b = true })
    else if option == 0x0d
    then some (record j { floppy_mode = true })
    else if option == 0x0e
    then some (record j { floppy_mode = true; floppy_ignore_ff = true })
    else if option == 0x0f
    then some (record j { floppy_mode = true; floppy_ignore_ff = false })
    else if option == 0x53
    then some (record j { spiral_mode = true; spiral_len = 39; spiral_len_remaining = 38 })
    else if option == 0x80
    then some (record j { src_mb = arg })
    else if option == 0x81
    then some (record j { dst_mb = arg })
    else if option == 0x82
    then some (record j { src_skip = bit_or j.src_skip arg })
    else if option == 0x83
    then some (record j { src_skip = bit_or j.src_skip (arg * 2 ^ 8) })
    else if option == 0x84
    then some (record j { dst_skip = bit_or j.dst_skip arg })
    else if option == 0x85
    then some (record j { dst_skip = bit_or j.dst_skip (arg * 2 ^ 8) })
    else if option == 0x86
    then some (record j { transparent_value = arg })
    else if leb 0x87 option && leb option 0x8f
    then some (record j { line = line_option 0x87 option arg j.line })
    else if option == 0x90
    then some (record j { dma_count = bit_or j.dma_count (arg * 2 ^ 16) })
    else if leb 0x97 option && leb option 0x9f
    then some (record j { s_line = line_option 0x97 option arg j.s_line })
    else none

-- An unknown option is an error, and the job goes on.
unfoldable pub keep_option : Option Job → Job × Bus → Job × Bus
keep_option (some j') (j, s) = (j', s)
keep_option none (j, s) = (j, set_error s)

unfoldable pub take_option : ℕ → ℕ → Job × Bus → Job × Bus
unfolding job_option keep_option
take_option option arg (j, s) = keep_option (job_option option arg j) (j, s)

-- The loop over the options, up to the byte $00; the address after it. `none` means that the fuel
-- ran out.
unfoldable pub read_options : ℕ → ℕ → Job × Bus → Option (ℕ × Job × Bus)
unfolding take_option
read_options zero addr (j, s) = none
read_options (suc fuel) addr (j, s) =
    let option = read_memory28 s addr in
    let long = leb 0x80 option in
    let arg = if long then read_memory28 s (word32 (addr + 1)) else 0 in
    let rest =
      read_options fuel (word32 (addr + (if long then 2 else 1))) (take_option option arg (j, s)) in
    if option == 0 then some (word32 (addr + 1), j, s) else rest
