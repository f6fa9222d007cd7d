-- ===== src/Emulator/Dma/DmaList.antt =====
-- The DMA list of `do_dma` in src/tools/hyppotest.c.
use mega65_core.Prelude.{ℕ, ◌+◌, ◌*◌, ◌%◌, ◌^◌, bit_or, Bool, ◌==◌, if◌then◌else◌, word32}
use mega65_core.Prelude.Bits.{bit}
use mega65_core.Emulator.State.{Bus}
use mega65_core.Emulator.Memory.{read_memory28}
use mega65_core.Emulator.Dma.Options.{Job}

-- What a list asks for. The modulo bits and bytes are read and not used. `after` is the address
-- after the list.
pub record Request : Type 0 where
  pub dma_cmd : ℕ
  pub dma_count : ℕ
  pub src_addr : ℕ
  pub dest_addr : ℕ
  pub src_direction : Bool
  pub src_hold : Bool
  pub dest_direction : Bool
  pub dest_hold : Bool
  pub after : ℕ

abbrev pub list_byte : Bus → ℕ → ℕ → ℕ
list_byte s addr k = read_memory28 s (word32 (addr + k))

abbrev pub list_24bit : Bus → ℕ → ℕ → ℕ
list_24bit s addr k =
    list_byte s addr k + list_byte s addr (k + 1) * 2 ^ 8 + list_byte s addr (k + 2) * 2 ^ 16

-- The count is at least 1: 0 asks for 0x10000. The megabyte bytes stand above the 28 bits of an
-- address with its fraction, so that `|` is a sum.
unfoldable pub read_list : ℕ → Job → Bus → Request
read_list addr j s =
    let low = list_byte s addr 0 in
    let cmd = if j.f011b then bit_or low (list_byte s addr 9 * 2 ^ 8) else low in
    let count = bit_or (bit_or j.dma_count (list_byte s addr 1)) (list_byte s addr 2 * 2 ^ 8) in
    let src = list_24bit s addr 3 in
    let dst = list_24bit s addr 6 in
    record {
      dma_cmd = cmd;
      dma_count = if count == 0 then 0x10000 else count;
      src_addr = src % 0x100000 * 2 ^ 8 + j.src_mb * 2 ^ 28;
      dest_addr = dst % 0x100000 * 2 ^ 8 + j.dst_mb * 2 ^ 28;
      src_direction = bit (if j.f011b then 4 else 22) (if j.f011b then cmd else src) == 1;
      src_hold = bit (if j.f011b then 9 else 20) (if j.f011b then cmd else src) == 1;
      dest_direction = bit (if j.f011b then 5 else 22) (if j.f011b then cmd else dst) == 1;
      dest_hold = bit (if j.f011b then 11 else 20) (if j.f011b then cmd else dst) == 1;
      after = word32 (addr + (if j.f011b then 12 else 11));
    }
