-- ===== src/Emulator/Disassemble/Opcodes.antt =====
-- The cases of `disassemble_instruction` of src/tools/hyppotest.c against those of
-- `execute_instruction`.
use Prim.Native.String.{String}
use mega65_core.Prelude.{
  ℕ, ◌<◌, ◌≡◌, refl, ◌⊎◌, inl, inr, arith, Bool, true, false, ◌==◌, Bool-cases, Option, none, some,
  List, [], ◌∷◌, if◌then◌else◌, holds_below, holds_below-lt,
}
use mega65_core.Emulator.State.{M}
use mega65_core.Emulator.Memory.{DmaController}
use mega65_core.Emulator.Instructions.Flow.{Outcome}
use mega65_core.Emulator.Execute.{all_cases, unimplemented}
use mega65_core.Emulator.Execute.Switch.{Case, switch}
use mega65_core.Emulator.Execute.Rows0.{row_0, row_1, row_2, row_3}
use mega65_core.Emulator.Execute.Rows4.{row_4, row_5, row_6, row_7}
use mega65_core.Emulator.Execute.Rows8.{row_8, row_9, row_a, row_b}
use mega65_core.Emulator.Execute.Rowsc.{row_c, row_d, row_e, row_f}
use mega65_core.Emulator.Disassemble.Operands.{Operand}
use mega65_core.Emulator.Disassemble.Texts0.{texts_0, texts_1, texts_2, texts_3}
use mega65_core.Emulator.Disassemble.Texts4.{texts_4, texts_5, texts_6, texts_7}
use mega65_core.Emulator.Disassemble.Texts8.{texts_8, texts_9, texts_a, texts_b}
use mega65_core.Emulator.Disassemble.Textsc.{texts_c, texts_d, texts_e, texts_f}
use mega65_core.Emulator.Disassemble.Listing.{all_texts, find_text}

-- The code of the case with a label.
pub find_case : ℕ → List Case → Option (M Outcome)
find_case op [] = none
find_case op ((label, body) ∷ cases) = if op == label then some body else find_case op cases

switch-find_case :
    (op : ℕ) (cases : List Case) (otherwise : M Outcome)
    → switch op cases otherwise ≡ elim (find_case op cases) [ none ↦ otherwise | some body ↦ body ]
unfolding switch find_case
switch-find_case op [] otherwise = refl
switch-find_case op ((label, body) ∷ cases) otherwise = elim (Bool-cases (op == label)) [
  | inl e ↦ rw e refl
  | inr ne ↦ rw ne (switch-find_case op cases otherwise)
]

abbrev is_some {ℓ} : {A : Type ℓ} → Option A → Bool
is_some none = false
is_some (some a) = true

abbrev agree : Bool → Bool → Bool
agree true b = b
agree false true = false
agree false false = true

agree-eq : (a b : Bool) → agree a b ≡ true → a ≡ b
agree-eq true b h = ground arith
agree-eq false true h = ground arith
agree-eq false false h = refl

both_or_none {ℓ κ} :
    {A : Type ℓ} {B : Type κ} (a : Option A) (b : Option B)
    → is_some a ≡ is_some b
    → ((x : A) × (y : B) × (a ≡ some x) × (b ≡ some y)) ⊎ ((a ≡ none) × (b ≡ none))
both_or_none none none h = inr (refl, refl)
both_or_none (some x) (some y) h = inl (x, y, refl, refl)
both_or_none none (some y) h = cc
both_or_none (some x) none h = cc

module _ ⦃dma : DmaController⦄ where
  opcode_table :
      holds_below
        (λ op. agree (is_some (find_text op all_texts)) (is_some (find_case op all_cases)))
        256
      ≡ true
  unfolding holds_below find_text find_case all_texts texts_0 texts_1 texts_2 texts_3 texts_4
      texts_5 texts_6 texts_7 texts_8 texts_9 texts_a texts_b texts_c texts_d texts_e texts_f row_0
      row_1 row_2 row_3 row_4 row_5 row_6 row_7 row_8 row_9 row_a row_b row_c row_d row_e row_f
  opcode_table = refl

  -- The disassembler has a text for an opcode exactly where `execute_instruction` has a case for it,
  -- and for every other opcode `execute_instruction` takes its default.
  pub find_text-switch :
      (op : ℕ)
      → op < 256
      → ((text : String × Operand) × (body : M Outcome) × (find_text op all_texts ≡ some text)
          × (find_case op all_cases ≡ some body)
          × (switch op all_cases unimplemented ≡ body))
        ⊎ ((find_text op all_texts ≡ none) × (switch op all_cases unimplemented ≡ unimplemented))
  find_text-switch op h =
      let same : is_some (find_text op all_texts) ≡ is_some (find_case op all_cases) =
        agree-eq _ _ (holds_below-lt _ 256 op opcode_table h) in
      let result = switch-find_case op all_cases unimplemented in
      elim (both_or_none (find_text op all_texts) (find_case op all_cases) same) [
        | inl (text, body, has_text, has_case) ↦
            inl (text, body, has_text, has_case, rw has_case at result)
        | inr (no_text, no_case) ↦ inr (no_text, rw no_case at result)
      ]
