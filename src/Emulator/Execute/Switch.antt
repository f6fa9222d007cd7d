-- ===== src/Emulator/Execute/Switch.antt =====
-- A `switch` on the opcode as a list of cases.
use mega65_core.Prelude.{ℕ, true, List, [], ◌∷◌, ◌==◌, if◌then◌else◌}
use mega65_core.Emulator.State.{M, ◌>>◌, pure}
use mega65_core.Emulator.Instructions.Flow.{Outcome}

-- A label with the code up to its `break`.
abbrev pub Case : Type 0
Case = ℕ × M Outcome

-- A body that ends in `break`: `execute_instruction` returns true after the `switch`.
abbrev pub on : ℕ → M (Unit {0}) → Case
on op body = (op, body >> pure (Outcome.returned true))

unfoldable pub switch : ℕ → List Case → M Outcome → M Outcome
switch op [] otherwise = otherwise
switch op ((label, body) ∷ cases) otherwise =
    if op == label then body else switch op cases otherwise
