-- ===== src/Emulator/Disassemble/Texts0.antt =====
-- The cases 0x00 to 0x3f of the `switch` in `disassemble_instruction` of src/tools/hyppotest.c, in
-- the order of the source.
use mega65_core.Prelude.{List, [], ◌∷◌}
use mega65_core.Emulator.Disassemble.Operands.{
  TextCase, absolute, absolute_x, absolute_y, bit_relative, immediate, implied, indirect,
  indirect_x, indirect_y, indirect_z, long_relative, pulled, relative, zero_page, zero_page_x,
}

unfoldable pub texts_0 : List TextCase
texts_0 =
    (0x00, "BRK  ", immediate)
    ∷ (0x01, "ORA  ", indirect_x)
    ∷ (0x03, "SEE", implied)
    ∷ (0x04, "TSB  ", zero_page)
    ∷ (0x05, "ORA  ", zero_page)
    ∷ (0x06, "ASL  ", zero_page)
    ∷ (0x07, "RMB0 ", zero_page)
    ∷ (0x08, "PHP", implied)
    ∷ (0x09, "ORA  ", immediate)
    ∷ (0x0a, "ASL  A", implied)
    ∷ (0x0c, "TSB  ", absolute)
    ∷ (0x0d, "ORA  ", absolute)
    ∷ (0x0e, "ASL  ", absolute)
    ∷ (0x0f, "BBR0 ", bit_relative)
    ∷ []

unfoldable pub texts_1 : List TextCase
texts_1 =
    (0x10, "BPL  ", relative)
    ∷ (0x11, "ORA  ", indirect_y)
    ∷ (0x12, "ORA  ", indirect_z)
    ∷ (0x13, "BPL  ", long_relative)
    ∷ (0x14, "TRB  ", zero_page)
    ∷ (0x15, "ORA  ", zero_page_x)
    ∷ (0x16, "ASL  ", zero_page_x)
    ∷ (0x17, "RMB1 ", zero_page)
    ∷ (0x18, "CLC", implied)
    ∷ (0x19, "ORA  ", absolute_y)
    ∷ (0x1a, "INC", implied)
    ∷ (0x1b, "INZ", implied)
    ∷ (0x1c, "TRB  ", absolute)
    ∷ (0x1d, "ORA  ", absolute_x)
    ∷ (0x1e, "ASL  ", absolute_x)
    ∷ (0x1f, "BBR1 ", bit_relative)
    ∷ []

unfoldable pub texts_2 : List TextCase
texts_2 =
    (0x20, "JSR  ", absolute)
    ∷ (0x21, "AND  ", indirect_x)
    ∷ (0x22, "JSR  ", indirect)
    ∷ (0x24, "BIT  ", zero_page)
    ∷ (0x25, "AND  ", zero_page)
    ∷ (0x26, "ROL  ", zero_page)
    ∷ (0x27, "RMB2 ", zero_page)
    ∷ (0x28, "PLP", pulled)
    ∷ (0x29, "AND  ", immediate)
    ∷ (0x2a, "ROL  A", implied)
    ∷ (0x2b, "TYS", implied)
    ∷ (0x2c, "BIT  ", absolute)
    ∷ (0x2d, "AND  ", absolute)
    ∷ (0x2e, "ROL  ", absolute)
    ∷ (0x2f, "BBR2 ", bit_relative)
    ∷ []

unfoldable pub texts_3 : List TextCase
texts_3 =
    (0x30, "BMI  ", relative)
    ∷ (0x31, "AND  ", indirect_y)
    ∷ (0x32, "AND  ", indirect_z)
    ∷ (0x33, "BMI  ", long_relative)
    ∷ (0x34, "BIT  ", zero_page_x)
    ∷ (0x35, "AND  ", zero_page_x)
    ∷ (0x36, "ROL  ", zero_page_x)
    ∷ (0x37, "RMB3 ", zero_page)
    ∷ (0x38, "SEC", implied)
    ∷ (0x39, "AND  ", absolute_y)
    ∷ (0x3a, "DEC", implied)
    ∷ (0x3c, "BIT  ", absolute_x)
    ∷ (0x3d, "AND  ", absolute_x)
    ∷ (0x3e, "ROL  ", absolute_x)
    ∷ (0x3f, "BBR3 ", bit_relative)
    ∷ []
