-- ===== src/Emulator/Memory/Mapping.antt =====
-- The results of `addr_to_28bit` of src/tools/hyppotest.c, against the sizes of the memories.
use mega65_core.Prelude.{ℕ, ◌-◌, ◌^◌, ◌<◌, ◌≡◌, inl, inr, Bool, true, arith, Bool-cases, ltb}
use mega65_core.Emulator.State.{
  Regs, Bus, chipram_size, hypporam_size, colourram_size, set_error_listing,
}
use mega65_core.Emulator.Memory.{Cell, cell_of, c64_bank, map_address, port_lines, addr_to_28bit}

-- The index lies in the array of its memory.
abbrev pub IsInside : Cell → Type 0
IsInside (Cell.hyppo i) = i < hypporam_size
IsInside (Cell.chip i) = i < chipram_size
IsInside (Cell.colour i) = i < colourram_size
IsInside (Cell.io i) = i < 65536
IsInside Cell.unmapped = Unit

-- The range of the registers that MAP loads.
pub record MapFits (r : Regs) : Type 0 where
  pub maplo : r.maplo < 65536
  pub maphi : r.maphi < 65536
  pub maplomb : r.maplomb < 256
  pub maphimb : r.maphimb < 256

cell_of-IsInside : (addr : ℕ) → addr < 0x1ffd0000 → IsInside (cell_of addr)
unfolding cell_of
cell_of-IsInside addr h = ground arith

map_address-lt :
    (r : Regs) (addr : ℕ) → MapFits r → addr < 0x10000 → map_address r addr < 0x10010000
unfolding map_address
map_address-lt r addr h k = ground arith

c64_bank-lt : (lnc addr : ℕ) (w : Bool) → addr < 0x10000 → c64_bank lnc addr w < 0x10010000
unfolding c64_bank
c64_bank-lt lnc addr w k = ground arith

addr_to_28bit-lt :
    (r : Regs) (s : Bus) (addr : ℕ) (w : Bool)
    → MapFits r
    → addr < 0x10000
    → (addr_to_28bit r s addr w).0 < 0x10010000
unfolding addr_to_28bit
addr_to_28bit-lt r s addr w h k =
    ground (arith, map_address-lt r addr h k, c64_bank-lt (port_lines s) addr w k)

addr_to_28bit-big :
    (r : Regs) (s : Bus) (addr : ℕ) (w : Bool)
    → ltb 0xffff addr ≡ true
    → addr_to_28bit r s addr w ≡ (2 ^ 32 - 1, set_error_listing s)
unfolding addr_to_28bit
addr_to_28bit-big r s addr w big = rw big

-- Whatever address the program asks for, whatever the port holds, and whatever MAP has loaded
-- into its registers of 16 and 8 bits, the
-- address that `addr_to_28bit` returns indexes inside the array that the memory functions pick.
pub addr_to_28bit-IsInside :
    (r : Regs) (s : Bus) (addr : ℕ) (w : Bool)
    → MapFits r
    → IsInside (cell_of (addr_to_28bit r s addr w).0)
addr_to_28bit-IsInside r s addr w h = elim (Bool-cases (ltb 0xffff addr)) [
  | inl big ↦ rw (addr_to_28bit-big r s addr w big) (unfold cell_of in tt)
  | inr fits ↦ cell_of-IsInside _ (omega (arith, addr_to_28bit-lt r s addr w h (ground arith)))
]
