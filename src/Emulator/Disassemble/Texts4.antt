-- ===== src/Emulator/Disassemble/Texts4.antt =====
-- The cases 0x40 to 0x7f of the `switch` in `disassemble_instruction` of src/tools/hyppotest.c, in
-- the order of the source.
use mega65_core.Prelude.{List, [], ◌∷◌}
use mega65_core.Emulator.Disassemble.Operands.{
  TextCase, absolute, absolute_x, absolute_y, bit_relative, immediate, implied, indirect,
  indirect_absolute_x, indirect_x, indirect_y, indirect_z, pulled, relative, returned, zero_page,
  zero_page_x,
}

unfoldable pub texts_4 : List TextCase
texts_4 =
    (0x40, "RTI", implied)
    ∷ (0x41, "EOR  ", zero_page_x)
    ∷ (0x45, "EOR  ", zero_page)
    ∷ (0x46, "LSR  ", zero_page)
    ∷ (0x47, "RMB4 ", zero_page)
    ∷ (0x48, "PHA", implied)
    ∷ (0x49, "EOR  ", immediate)
    ∷ (0x4a, "LSR  A", implied)
    ∷ (0x4b, "TAZ", implied)
    ∷ (0x4c, "JMP  ", absolute)
    ∷ (0x4d, "EOR  ", absolute)
    ∷ (0x4e, "LSR  ", absolute)
    ∷ (0x4f, "BBR4 ", bit_relative)
    ∷ []

unfoldable pub texts_5 : List TextCase
texts_5 =
    (0x50, "BVC  ", relative)
    ∷ (0x51, "EOR  ", indirect_y)
    ∷ (0x52, "EOR  ", indirect_z)
    ∷ (0x56, "LSR  ", zero_page_x)
    ∷ (0x55, "EOR  ", zero_page_x)
    ∷ (0x57, "RMB5 ", zero_page)
    ∷ (0x58, "CLI", implied)
    ∷ (0x59, "EOR  ", absolute_y)
    ∷ (0x5a, "PHY", implied)
    ∷ (0x5b, "TAB", implied)
    ∷ (0x5c, "MAP", implied)
    ∷ (0x5d, "EOR  ", absolute_x)
    ∷ (0x5e, "LSR  ", absolute_x)
    ∷ (0x5f, "BBR5 ", bit_relative)
    ∷ []

unfoldable pub texts_6 : List TextCase
texts_6 =
    (0x60, "RTS {Address pushed by ", returned)
    ∷ (0x61, "ADC  ", indirect_x)
    ∷ (0x64, "STZ  ", zero_page)
    ∷ (0x65, "ADC  ", zero_page)
    ∷ (0x66, "ROR  ", zero_page)
    ∷ (0x67, "RMB6 ", zero_page)
    ∷ (0x68, "PLA", pulled)
    ∷ (0x69, "ADC  ", immediate)
    ∷ (0x6a, "ROR  A", implied)
    ∷ (0x6b, "TZA", implied)
    ∷ (0x6c, "JMP  ", indirect)
    ∷ (0x6d, "ADC  ", absolute)
    ∷ (0x6e, "ROR  ", absolute)
    ∷ (0x6f, "BBR6 ", bit_relative)
    ∷ []

unfoldable pub texts_7 : List TextCase
texts_7 =
    (0x70, "BVS  ", relative)
    ∷ (0x71, "ADC  ", indirect_y)
    ∷ (0x72, "ADC  ", indirect_z)
    ∷ (0x74, "STZ  ", zero_page_x)
    ∷ (0x75, "ADC  ", zero_page_x)
    ∷ (0x76, "ROR  ", zero_page_x)
    ∷ (0x77, "RMB7 ", zero_page)
    ∷ (0x78, "SEI", implied)
    ∷ (0x79, "ADC  ", absolute_y)
    ∷ (0x7a, "PLY", pulled)
    ∷ (0x7b, "TBA", implied)
    ∷ (0x7d, "ADC  ", absolute_x)
    ∷ (0x7c, "JMP  ", indirect_absolute_x)
    ∷ (0x7e, "ROR  ", absolute_x)
    ∷ (0x7f, "BBR7 ", bit_relative)
    ∷ []
