-- ===== src/Emulator/Disassemble/Textsc.antt =====
-- The cases 0xc0 to 0xff of the `switch` in `disassemble_instruction` of src/tools/hyppotest.c, in
-- the order of the source.
use mega65_core.Prelude.{List, [], ◌∷◌}
use mega65_core.Emulator.Disassemble.Operands.{
  TextCase, absolute, absolute_x, absolute_y, bit_relative, immediate, implied, indirect_x,
  indirect_y, indirect_z, long_relative, pulled, relative, zero_page, zero_page_x,
}

unfoldable pub texts_c : List TextCase
texts_c =
    (0xc0, "CPY  ", immediate)
    ∷ (0xc1, "CMP  ", indirect_x)
    ∷ (0xc4, "CPY  ", zero_page)
    ∷ (0xc5, "CMP  ", zero_page)
    ∷ (0xc6, "DEC  ", zero_page)
    ∷ (0xc7, "SMB4 ", zero_page)
    ∷ (0xc8, "INY", implied)
    ∷ (0xc9, "CMP  ", immediate)
    ∷ (0xca, "DEX", implied)
    ∷ (0xcc, "CPY  ", absolute)
    ∷ (0xcd, "CMP  ", absolute)
    ∷ (0xce, "DEC  ", absolute)
    ∷ (0xcf, "BBS4 ", bit_relative)
    ∷ []

unfoldable pub texts_d : List TextCase
texts_d =
    (0xd0, "BNE  ", relative)
    ∷ (0xd1, "CMP  ", indirect_y)
    ∷ (0xd2, "CMP  ", indirect_z)
    ∷ (0xd5, "CMP  ", zero_page_x)
    ∷ (0xd6, "DEC  ", zero_page_x)
    ∷ (0xd7, "SMB5 ", zero_page)
    ∷ (0xd8, "CLD", implied)
    ∷ (0xd9, "CMP  ", absolute_y)
    ∷ (0xda, "PHX", implied)
    ∷ (0xdb, "PHZ", implied)
    ∷ (0xdd, "CMP  ", absolute_x)
    ∷ (0xde, "DEC  ", absolute_x)
    ∷ (0xdf, "BBS5 ", bit_relative)
    ∷ []

unfoldable pub texts_e : List TextCase
texts_e =
    (0xe0, "CPX  ", immediate)
    ∷ (0xe1, "SBC  ", indirect_x)
    ∷ (0xe4, "CPX  ", zero_page)
    ∷ (0xe5, "SBC  ", zero_page)
    ∷ (0xe6, "INC  ", zero_page)
    ∷ (0xe7, "SMB6 ", zero_page)
    ∷ (0xe8, "INX", implied)
    ∷ (0xe9, "SBC  ", immediate)
    ∷ (0xea, "EOM", implied)
    ∷ (0xec, "CPX  ", absolute)
    ∷ (0xed, "SBC  ", absolute)
    ∷ (0xee, "INC  ", absolute)
    ∷ (0xef, "BBS6 ", bit_relative)
    ∷ []

unfoldable pub texts_f : List TextCase
texts_f =
    (0xf0, "BEQ  ", relative)
    ∷ (0xf1, "SBC  ", indirect_y)
    ∷ (0xf2, "SBC  ", indirect_z)
    ∷ (0xf3, "BEQ  ", long_relative)
    ∷ (0xf5, "SBC  ", zero_page_x)
    ∷ (0xf6, "INC  ", zero_page_x)
    ∷ (0xf7, "SMB7 ", zero_page)
    ∷ (0xf8, "SED", implied)
    ∷ (0xf9, "SBC  ", absolute_y)
    ∷ (0xfa, "PLX", pulled)
    ∷ (0xfb, "PLZ", pulled)
    ∷ (0xfd, "SBC  ", absolute_x)
    ∷ (0xfe, "INC  ", absolute_x)
    ∷ (0xff, "BBS7 ", bit_relative)
    ∷ []
