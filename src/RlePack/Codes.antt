-- ===== src/RlePack/Codes.antt =====
-- The two masks that src/tools/pngprepare/rlepack.c applies to a code byte, on the codes that a
-- token has.
use mega65_core.Prelude.{
  ℕ, ◌+◌, ◌≤◌, ◌≡◌, refl, arith, Bool, true, ◌&&◌, ◌==◌, bit_and, holds_below, holds_below-lt,
}

abbrev masks : ℕ → Bool
masks n =
    bit_and n 0x80 == 0
    && (bit_and n 0x7f == n && (bit_and (0x80 + n) 0x80 == 0x80 && bit_and (0x80 + n) 0x7f == n))

masks_table : holds_below masks 128 ≡ true
unfolding holds_below
masks_table = refl

pub masks_lem :
    (n : ℕ)
    → n ≤ 127
    → (bit_and n 0x80 ≡ 0)
      × (bit_and n 0x7f ≡ n)
      × (bit_and (0x80 + n) 0x80 ≡ 0x80)
      × (bit_and (0x80 + n) 0x7f ≡ n)
masks_lem n h =
    let all : masks n ≡ true = holds_below-lt masks 128 n masks_table (omega arith) in
    (ground arith, ground arith, ground arith, ground arith)
