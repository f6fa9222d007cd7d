-- ===== src/Emulator/Memory.antt =====
-- Banking and the address space of src/tools/hyppotest.c: `addr_to_28bit`, `read_memory28`,
-- `read_memory`, `memory_blame`, `write_mem28` and `write_mem16`.
pub mod Mapping
pub mod Access
use mega65_core.Prelude.{
  ℕ, ◌+◌, ◌-◌, ◌*◌, ◌/◌, ◌%◌, ◌^◌, bit_and, bit_or, Bool, true, false, not, ◌&&◌, ◌||◌, ltb, leb,
  ◌==◌, if◌then◌else◌, store,
}
use mega65_core.Emulator.State.{
  Regs, Bus, Termination, Machine, M, ◌>>=◌, set_error_listing, chipram_size, hypporam_size,
  colourram_size,
}

-- `lnc`: the low bits of the processor port $01, where the direction register $00 has a 0 bit
-- read as 1. `~x & 7` is `7 - x % 8`.
unfoldable pub port_lines : Bus → ℕ
port_lines s = bit_or (s.chipram 1 % 8) (7 - s.chipram 0 % 8)

-- The Commodore 64 banking: bank 13 holds the character ROM or the I/O area, banks 10 and 11 BASIC, and
-- banks 14 and 15 the KERNAL. `addr & 0xfff` is `addr % 0x1000`, and the `|=` sets bits that the
-- mask has cleared.
unfoldable pub c64_bank : ℕ → ℕ → Bool → ℕ
c64_bank lnc addr write_p =
    let bank = addr / 2 ^ 12 in
    if bank == 13
    then (if lnc == 0 || lnc == 4
        then addr
        else if leb lnc 3
        then (if write_p then addr else 0x2d000 + addr % 0x1000)
        else 0xffd3000 + addr % 0x1000)
    else if write_p
    then addr
    else if bank == 10 || bank == 11
    then (if lnc == 3 || lnc == 7 then 0x2a000 + addr % 0x2000 else addr)
    else if bank == 14 || bank == 15
    then (if lnc == 2 || lnc == 3 || (lnc == 6 || lnc == 7) then 0x2e000 + addr % 0x2000 else addr)
    else addr

-- Whether MAP covers the 8KB area of the address: a bit of the top four of `maplo` or `maphi`.
unfoldable pub is_mapped : Regs → ℕ → Bool
is_mapped r addr =
    let zone = addr / 2 ^ 13 in
    if ltb zone 4
    then r.maplo / 2 ^ (12 + zone) % 2 == 1
    else r.maphi / 2 ^ (12 + zone - 4) % 2 == 1

-- The address that MAP gives.
unfoldable pub map_address : Regs → ℕ → ℕ
map_address r addr =
    if ltb (addr / 2 ^ 13) 4
    then addr + r.maplo % 0x1000 * 2 ^ 8 + r.maplomb * 2 ^ 20
    else addr + r.maphi % 0x1000 * 2 ^ 8 + r.maphimb * 2 ^ 20

-- `addr_to_28bit`, with the error that it records and the listing that it prints. -1 is returned as an `unsigned int`. The
-- source's `bank > 15` and `zone > 7` never hold below 0x10000.
unfoldable pub addr_to_28bit : Regs → Bus → ℕ → Bool → ℕ × Bus
addr_to_28bit r s addr write_p =
    if ltb 0xffff addr
    then (2 ^ 32 - 1, set_error_listing s)
    else (if is_mapped r addr then map_address r addr else c64_bank (port_lines s) addr write_p, s)

-- The memory that a 28-bit address falls into, with the index in its array: the chain of range
-- tests that `read_memory28`, `memory_blame` and `write_mem28` share.
pub data Cell : Type 0 where
  hyppo chip colour io : ℕ → Cell
  unmapped : Cell

unfoldable pub cell_of : ℕ → Cell
cell_of addr =
    if leb 0xfff8000 addr && ltb addr 0xfffc000
    then Cell.hyppo (addr - 0xfff8000)
    else if ltb addr chipram_size
    then Cell.chip addr
    else if leb 0xff80000 addr && ltb addr (0xff80000 + colourram_size)
    then Cell.colour (addr - 0xff80000)
    else if addr / 0x10000 % 0x1000 == 0xffd
    then Cell.io (addr - 0xffd0000)
    else Cell.unmapped

unfoldable pub read_cell : Bus → Cell → ℕ
read_cell s (Cell.hyppo i) = s.hypporam i
read_cell s (Cell.chip i) = s.chipram i
read_cell s (Cell.colour i) = s.colourram i
read_cell s (Cell.io i) = s.ffdram i
read_cell s Cell.unmapped = 0xbd

unfoldable pub read_memory28 : Bus → ℕ → ℕ
unfolding read_cell
read_memory28 s addr = read_cell s (cell_of addr)

unfoldable pub read_memory : ℕ → M ℕ
read_memory addr16 m =
    let (addr, s) = addr_to_28bit m.regs m.bus addr16 false in
    (read_memory28 s addr, record m { bus = s })

unfoldable pub blame_cell : Bus → Cell → ℕ
blame_cell s (Cell.hyppo i) = s.hypporam_blame i
blame_cell s (Cell.chip i) = s.chipram_blame i
blame_cell s (Cell.colour i) = s.colourram_blame i
blame_cell s (Cell.io i) = s.ffdram_blame i
blame_cell s Cell.unmapped = 0

unfoldable pub memory_blame : ℕ → M ℕ
unfolding blame_cell
memory_blame addr16 m =
    let (addr, s) = addr_to_28bit m.regs m.bus addr16 false in
    (blame_cell s (cell_of addr), record m { bus = s })

-- The DMA controller that a write to $D700 or $D705 starts: `run eDMA addr` is the effect of
-- `do_dma(cpu, eDMA, addr)`, with a crash or a job without end in the `fate` of the bus that it leaves.
-- That function writes through `write_mem28`, which can start a further job; the definitions below
-- hold for every controller.
pub record DmaController : Type 0 where
  pub run : Bool → ℕ → Bus → Bus

-- The address of the DMA list, from the registers $D700 to $D702 and $D704.
unfoldable pub dma_list_address : Bus → ℕ
dma_list_address s =
    bit_or (s.ffdram 0x3700 + s.ffdram 0x3701 * 2 ^ 8 + s.ffdram 0x3702 % 0x80 * 2 ^ 16)
      (s.ffdram 0x3704 * 2 ^ 20)

-- A write to one register of the DMA controller, with its entry in the blame array.
abbrev pub set_io : ℕ → ℕ → Bus → Bus
set_io i value s = record s {
  ffdram = store s.ffdram i value;
  ffdram_blame = store s.ffdram_blame i s.instruction_count;
}

module _ ⦃dma : DmaController⦄ where
  -- The `switch` on the special addresses, after the write itself. The messages on entering and
  -- leaving the hypervisor change no state.
  unfoldable pub io_action : ℕ → ℕ → Bus → Bus
  io_action i value s =
      if i == 0x3700
      then (let s' = set_io 0x3705 value s in dma.run false (dma_list_address s') s')
      else if i == 0x3702
      then set_io 0x3704 (bit_or (bit_and (s.ffdram 0x3704) 0xf1) (value / 16 % 8)) s
      else if i == 0x3705
      then (let s' = set_io 0x3700 value s in dma.run true (dma_list_address s') s')
      else s

  unfoldable pub write_cell : Cell → ℕ → Bus → Bus
  unfolding io_action
  write_cell (Cell.hyppo i) value s = record s {
    hypporam = store s.hypporam i value;
    hypporam_blame = store s.hypporam_blame i s.instruction_count;
  }
  write_cell (Cell.chip i) value s =
      if i == 0 && (value == 0x41 || value == 0x40) then s else record s {
        chipram = store s.chipram i value;
        chipram_blame = store s.chipram_blame i s.instruction_count;
      }
  write_cell (Cell.colour i) value s = record s {
    colourram = store s.colourram i value;
    colourram_blame = store s.colourram_blame i s.instruction_count;
  }
  write_cell (Cell.io i) value s = io_action i value (set_io i value s)
  write_cell Cell.unmapped value s = set_error_listing s

  -- `write_mem28` returns 0 on every path, so the `return false` of MEM_WRITE16 and MEM_WRITE28 is
  -- never taken.
  unfoldable pub write_mem28 : ℕ → ℕ → M (Unit {0})
  unfolding write_cell
  write_mem28 addr value m = (tt, record m { bus = write_cell (cell_of addr) value m.bus })

  unfoldable pub write_mem16 : ℕ → ℕ → M (Unit {0})
  write_mem16 addr16 value m =
      let (addr, s) = addr_to_28bit m.regs m.bus addr16 true in
      write_mem28 addr value (record m { bus = s })
