-- ===== src/Prelude/Printing.antt =====
-- What `fprintf` of the C library writes, as a list of codes: a literal text, `%02X` and `%04X`, and
-- `%d`.
use Prim.Native.Char.{code}
use Prim.Native.String.{String}
use Prim.Native.Nat.{ℕ, zero, suc, ◌+◌, ◌-◌, ◌/◌, ◌%◌}
use mathlib.Core.Bool.{◌&&◌}
use mathlib.Core.List.{List, [], ◌∷◌}
use mega65_core.Prelude.Tests.{◌==◌, ltb, if◌then◌else◌}

abbrev pub Text : Type 0
Text = List ℕ

unfoldable pub codes : String → Text
codes String.[] = []
codes (String.◌∷◌ c s) = code c ∷ codes s

abbrev hex_digit : ℕ → ℕ
hex_digit d = if ltb d 10 then b'0' + d else b'A' + (d - 10)

-- The digits of `n`, as many as `width` at least, in front of a text. An `unsigned int` has no more
-- than the eight that `left` allows.
unfoldable hex_onto : ℕ → ℕ → ℕ → Text → Text
hex_onto zero width n text = text
hex_onto (suc left) width n text =
    let more = hex_onto left (width - 1) (n / 16) (hex_digit (n % 16) ∷ text) in
    if n == 0 && width == 0 then text else more

-- `%0wX`.
unfoldable pub hex : ℕ → ℕ → Text
unfolding hex_onto
hex width n = hex_onto 8 width n []

unfoldable decimal_onto : ℕ → ℕ → Text → Text
decimal_onto zero n text = text
decimal_onto (suc left) n text =
    let text' = (b'0' + n % 10) ∷ text in
    let more = decimal_onto left (n / 10) text' in if ltb n 10 then text' else more

-- `%d` of an `unsigned int`, which has ten digits at most.
unfoldable pub decimal : ℕ → Text
unfolding decimal_onto
decimal n = decimal_onto 10 n []
