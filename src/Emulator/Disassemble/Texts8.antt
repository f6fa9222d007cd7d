-- ===== src/Emulator/Disassemble/Texts8.antt =====
-- The cases 0x80 to 0xbf of the `switch` in `disassemble_instruction` of src/tools/hyppotest.c, in
-- the order of the source.
use mega65_core.Prelude.{List, [], ◌∷◌}
use mega65_core.Emulator.Disassemble.Operands.{
  TextCase, absolute, absolute_x, absolute_y, bit_relative, immediate, implied, indirect_x,
  indirect_y, indirect_z, indirect_z_or_long, long_relative, relative, zero_page, zero_page_x,
  zero_page_y,
}

unfoldable pub texts_8 : List TextCase
texts_8 =
    (0x80, "BRA  ", relative)
    ∷ (0x81, "STA  ", indirect_x)
    ∷ (0x83, "BRA  ", long_relative)
    ∷ (0x84, "STY  ", zero_page)
    ∷ (0x85, "STA  ", zero_page)
    ∷ (0x86, "STX  ", zero_page)
    ∷ (0x87, "SMB0 ", zero_page)
    ∷ (0x88, "DEY", implied)
    ∷ (0x89, "BIT  ", immediate)
    ∷ (0x8a, "TXA", implied)
    ∷ (0x8c, "STY  ", absolute)
    ∷ (0x8d, "STA  ", absolute)
    ∷ (0x8e, "STX  ", absolute)
    ∷ (0x8f, "BBS0 ", bit_relative)
    ∷ []

unfoldable pub texts_9 : List TextCase
texts_9 =
    (0x90, "BCC  ", relative)
    ∷ (0x91, "STA  ", indirect_y)
    ∷ (0x92, "STA  ", indirect_z_or_long)
    ∷ (0x93, "BCC  ", long_relative)
    ∷ (0x94, "STY  ", zero_page_x)
    ∷ (0x95, "STA  ", zero_page_x)
    ∷ (0x96, "STX  ", zero_page_y)
    ∷ (0x97, "SMB1 ", zero_page)
    ∷ (0x98, "TYA", implied)
    ∷ (0x99, "STA  ", absolute_y)
    ∷ (0x9a, "TXS", implied)
    ∷ (0x9c, "STZ  ", absolute)
    ∷ (0x9d, "STA  ", absolute_x)
    ∷ (0x9e, "STZ  ", absolute_x)
    ∷ (0x9f, "BBS1 ", bit_relative)
    ∷ []

unfoldable pub texts_a : List TextCase
texts_a =
    (0xa0, "LDY  ", immediate)
    ∷ (0xa1, "LDA  ", indirect_x)
    ∷ (0xa2, "LDX  ", immediate)
    ∷ (0xa3, "LDZ  ", immediate)
    ∷ (0xa4, "LDY  ", zero_page)
    ∷ (0xa5, "LDA  ", zero_page)
    ∷ (0xa6, "LDX  ", zero_page)
    ∷ (0xa7, "SMB2 ", zero_page)
    ∷ (0xa8, "TAY", implied)
    ∷ (0xa9, "LDA  ", immediate)
    ∷ (0xaa, "TAX", implied)
    ∷ (0xac, "LDY  ", absolute)
    ∷ (0xad, "LDA  ", absolute)
    ∷ (0xae, "LDX  ", absolute)
    ∷ (0xaf, "BBS2 ", bit_relative)
    ∷ []

unfoldable pub texts_b : List TextCase
texts_b =
    (0xb0, "BCS  ", relative)
    ∷ (0xb1, "LDA  ", indirect_y)
    ∷ (0xb2, "LDA  ", indirect_z)
    ∷ (0xb4, "LDY  ", zero_page_x)
    ∷ (0xb5, "LDA  ", zero_page_x)
    ∷ (0xb6, "LDX  ", zero_page_y)
    ∷ (0xb7, "SMB3 ", zero_page)
    ∷ (0xb8, "CLV", implied)
    ∷ (0xb9, "LDA  ", absolute_y)
    ∷ (0xba, "TSX", implied)
    ∷ (0xbc, "LDY  ", absolute_x)
    ∷ (0xbd, "LDA  ", absolute_x)
    ∷ (0xbe, "LDX  ", absolute_y)
    ∷ (0xbf, "BBS3 ", bit_relative)
    ∷ []
