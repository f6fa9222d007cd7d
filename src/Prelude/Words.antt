-- ===== src/Prelude/Words.antt =====
-- The integer types of C as native numbers below their modulus, and arrays as functions of the
-- index.
use Prim.Native.Nat.{ℕ, ◌%◌}
use mathlib.Core.Bool.{Bool, true, false}
use mega65_core.Prelude.Tests.{◌==◌, if◌then◌else◌}

-- The conversions to `unsigned char`, `unsigned short` and `unsigned int`.
abbrev pub byte : ℕ → ℕ
byte v = v % 256

abbrev pub word16 : ℕ → ℕ
word16 v = v % 65536

abbrev pub word32 : ℕ → ℕ
word32 v = v % 4294967296

-- An array written at one index.
abbrev pub store {ℓ} : {A : Type ℓ} → (ℕ → A) → ℕ → A → ℕ → A
store f p v q = if p == q then v else f q

abbrev pub bool_to_nat : Bool → ℕ
bool_to_nat true = 1
bool_to_nat false = 0
