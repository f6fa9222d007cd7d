-- ===== src/Emulator/Describe/Tests.antt =====
-- A small table of symbols, and the theorems on the description of addresses applied to it.
use mega65_core.Prelude.{◌≡◌, refl, ◌==◌, if◌then◌else◌}
use mega65_core.Emulator.Describe.{
  SymbolList, nowhere, first_in, after_symbol, at_symbol, no_label, describe_address,
  describe_address_label28,
}
use mega65_core.Emulator.Describe.Nearest.{IsLabelOf, describe_address_label28-IsLabelOf}
use mega65_core.Emulator.Describe.Exact.{IsExactPlace, describe_address-IsExactPlace}

-- Symbols 10, 11 and 12 at $8100, $8000 and $8200.
abbrev three : SymbolList
three = record {
  name = λ i. if i == 0 then 10 else if i == 1 then 11 else 12;
  addr = λ i. if i == 0 then 0x8100 else if i == 1 then 0x8000 else 0x8200;
  count = 3;
}

label_between : describe_address_label28 three three 0xfff8180 ≡ after_symbol 10 0x80
unfolding describe_address_label28
label_between = refl

label_there : describe_address_label28 three three 0x8000 ≡ at_symbol 11
unfolding describe_address_label28
label_there = refl

label_below : describe_address_label28 three three 0x7fff ≡ no_label
unfolding describe_address_label28
label_below = refl

place_between : describe_address three 0x8180 ≡ nowhere
unfolding describe_address
place_between = refl

place_there : describe_address three 0x8100 ≡ first_in 10
unfolding describe_address
place_there = refl

describe_address_label28-IsLabelOf_example :
    IsLabelOf three 0x8180 (describe_address_label28 three three 0xfff8180)
describe_address_label28-IsLabelOf_example =
    describe_address_label28-IsLabelOf three three 0xfff8180

describe_address-IsExactPlace_example : IsExactPlace three 0x8100 (describe_address three 0x8100)
describe_address-IsExactPlace_example = describe_address-IsExactPlace three 0x8100
