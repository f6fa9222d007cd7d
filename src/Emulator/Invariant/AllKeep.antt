-- ===== src/Emulator/Invariant/AllKeep.antt =====
-- Every case of a list keeps the invariant, and so does the `switch` over them.
use mega65_core.Prelude.{ℕ, List, [], ◌∷◌, ◌++◌, if_both, ◌==◌}
use mega65_core.Emulator.State.{Trace, Machine, M}
use mega65_core.Emulator.Instructions.Flow.{Outcome}
use mega65_core.Emulator.Execute.Switch.{Case, switch}
use mega65_core.Emulator.Invariant.Parts.{IsValid}

abbrev pub KeepsOutcome : Trace → M Outcome → Type 0
KeepsOutcome t c = (m : Machine) → IsValid t m → IsValid t (c m).1

infixr 6 ◌⊳◌
pub data AllKeep (t : Trace) : List Case → Type 0 where
  none_left : AllKeep t []
  ◌⊳◌ : {c : Case} {cs : List Case} → KeepsOutcome t c.1 → AllKeep t cs → AllKeep t (c ∷ cs)

pub AllKeep-append :
    {t : Trace} {cs ds : List Case} → AllKeep t cs → AllKeep t ds → AllKeep t (cs ++ ds)
AllKeep-append none_left q = q
AllKeep-append (k ⊳ p) q = k ⊳ AllKeep-append p q

pub switch-keeps :
    {t : Trace} {cs : List Case} (op : ℕ) (otherwise : M Outcome)
    → AllKeep t cs
    → KeepsOutcome t otherwise
    → KeepsOutcome t (switch op cs otherwise)
unfolding switch
switch-keeps op otherwise none_left d m v = d m v
switch-keeps {t} op otherwise (◌⊳◌ {c = c} k p) d m v =
    if_both (λ (f : M Outcome). IsValid t (f m).1) (op == c.0) (k m v)
      (switch-keeps op otherwise p d m v)
