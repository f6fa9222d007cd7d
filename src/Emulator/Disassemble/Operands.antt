-- ===== src/Emulator/Disassemble/Operands.antt =====
-- What the functions `disassemble_rel8` to `disassemble_izpz32` of src/tools/hyppotest.c print for
-- the operands of an instruction, and which of them a case of `disassemble_instruction` calls.
use Prim.Native.String.{String}
use mega65_core.Prelude.{ℕ, ◌+◌, ◌*◌, ◌++◌, word16, word32}
use mega65_core.Prelude.Printing.{Text, codes, hex}
use mega65_core.Emulator.State.{Log}
use mega65_core.Emulator.Addressing.{rel8_delta, rel16_delta}

-- What a case of the `switch` does after the name: nothing, one of the functions, or the code of
-- `returned` (RTS) or `indirect_z_or_long` (the test of `zp32`) in the case itself.
pub data Operand : Type 0 where
  implied immediate absolute absolute_x absolute_y zero_page zero_page_x zero_page_y : Operand
  indirect_x indirect_y indirect_z indirect_z_or_long indirect indirect_absolute_x : Operand
  relative long_relative bit_relative pulled returned : Operand

-- A case: the opcode, the text of its `fprintf`, and its operand.
abbrev pub TextCase : Type 0
TextCase = ℕ × String × Operand

unfoldable pub disassemble_rel8 : Log → Text
disassemble_rel8 log = codes "$" ++ hex 4 (word32 (log.pc + 2 + rel8_delta (log.bytes 1)))

-- The source adds `bytes[1]` as the high byte too.
unfoldable pub disassemble_rel16 : Log → Text
disassemble_rel16 log =
    codes "$"
    ++ hex 4 (word32 (log.pc + 2 + rel16_delta (word16 (log.bytes 1 + log.bytes 1 * 256))))

unfoldable pub disassemble_imm : Log → Text
disassemble_imm log = codes "#$" ++ hex 2 (log.bytes 1)

unfoldable pub disassemble_abs : Log → Text
disassemble_abs log = codes "$" ++ (hex 2 (log.bytes 2) ++ hex 2 (log.bytes 1))

unfoldable pub disassemble_iabsx : Log → Text
disassemble_iabsx log = codes "($" ++ (hex 2 (log.bytes 2) ++ (hex 2 (log.bytes 1) ++ codes ",X)"))

unfoldable pub disassemble_absx : Log → Text
disassemble_absx log = codes "$" ++ (hex 2 (log.bytes 2) ++ (hex 2 (log.bytes 1) ++ codes ",X"))

unfoldable pub disassemble_absy : Log → Text
disassemble_absy log = codes "$" ++ (hex 2 (log.bytes 2) ++ (hex 2 (log.bytes 1) ++ codes ",Y"))

unfoldable pub disassemble_zp : Log → Text
disassemble_zp log = codes "$" ++ hex 2 (log.bytes 1)

unfoldable pub disassemble_zpx : Log → Text
disassemble_zpx log = codes "$" ++ (hex 2 (log.bytes 1) ++ codes ",X")

unfoldable pub disassemble_zpy : Log → Text
disassemble_zpy log = codes "$" ++ (hex 2 (log.bytes 1) ++ codes ",Y")

-- `{PTR=$%04X,ADDR16=$%04X}`.
unfoldable pub followed_pointer : Log → Text
followed_pointer log =
    codes " {PTR=$"
    ++ (hex 4 log.zp_pointer ++ (codes ",ADDR16=$" ++ (hex 4 log.zp_pointer_addr ++ codes "}")))

unfoldable pub disassemble_izpy : Log → Text
disassemble_izpy log = codes "($" ++ (hex 2 (log.bytes 1) ++ (codes "),Y" ++ followed_pointer log))

unfoldable pub disassemble_izpx : Log → Text
disassemble_izpx log = codes "($" ++ (hex 2 (log.bytes 1) ++ (codes ",X)" ++ followed_pointer log))

unfoldable pub disassemble_izpz : Log → Text
disassemble_izpz log = codes "($" ++ (hex 2 (log.bytes 1) ++ (codes "),Z" ++ followed_pointer log))

unfoldable pub disassemble_izpz32 : Log → Text
disassemble_izpz32 log =
    codes "[$"
    ++ (hex 2 (log.bytes 1)
        ++ (codes "],Z {PTR=$"
            ++ (hex 4 log.zp_pointer
                ++ (codes ",ADDR32=$" ++ (hex 7 log.zp_pointer_addr ++ codes "}")))))

unfoldable pub disassemble_zp_rel8 : Log → Text
disassemble_zp_rel8 log =
    codes "$"
    ++ (hex 2 (log.bytes 1)
        ++ (codes ",$" ++ hex 4 (word32 (log.pc + 2 + rel8_delta (log.bytes 2)))))
