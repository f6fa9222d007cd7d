-- ===== src/RlePack/Token.antt =====
-- What the comment at the top of src/tools/pngprepare/rlepack.c says of the packed format, apart from
-- the program: its tokens, which bytes each stands for, and how many bytes it takes.
use mega65_core.Prelude.{ℕ, ◌+◌, ◌*◌, ◌≤◌, ◌<◌, ◌≡◌, List, [], ◌∷◌, ◌++◌}
use mega65_core.RlePack.Output.{bytes_from}

-- Raw bytes, one byte repeated, and two bytes repeated.
pub data Token : Type 0 where
  literal : ℕ → Token
  run : ℕ → Token
  pairs : ℕ → Token

-- How many bytes of the input a token stands for.
abbrev pub span : Token → ℕ
span (literal n) = n
span (run n) = n
span (pairs n) = n * 2

-- How many bytes of the output it takes.
abbrev pub size : Token → ℕ
size (literal n) = 1 + n
size (run n) = 2
size (pairs n) = 4

abbrev pub code_of : Token → ℕ
code_of (literal n) = n
code_of (run n) = 0x80 + n
code_of (pairs n) = 0x80

-- Whether a token may stand for the bytes of `raw` from `s` on.
abbrev pub Matches : (ℕ → ℕ) → ℕ → Token → Type 0
Matches raw s (literal n) = (1 ≤ n) × (n ≤ 127)
Matches raw s (run n) = (1 ≤ n) × (n ≤ 127) × ((i : ℕ) → i < n → raw (s + i) ≡ raw s)
Matches raw s (pairs n) =
    (1 ≤ n)
    × (n ≤ 255)
    × ((i : ℕ) → i < n → (raw (s + i * 2) ≡ raw s) × (raw (s + i * 2 + 1) ≡ raw (s + 1)))

-- Whether tokens, one after the other, stand for the bytes from `s` up to `e`.
abbrev pub Encodes : (ℕ → ℕ) → ℕ → List Token → ℕ → Type 0
Encodes raw s [] e = s ≡ e
Encodes raw s (tok ∷ toks) e = Matches raw s tok × Encodes raw (s + span tok) toks e

abbrev pub total_size : List Token → ℕ
total_size [] = 0
total_size (tok ∷ toks) = size tok + total_size toks

-- The bytes of a token, and of a file, which a zero ends.
abbrev pub token_bytes : (ℕ → ℕ) → ℕ → Token → List ℕ
token_bytes raw s (literal n) = n ∷ bytes_from raw s n
token_bytes raw s (run n) = (0x80 + n) ∷ raw s ∷ []
token_bytes raw s (pairs n) = 0x80 ∷ n ∷ raw s ∷ raw (s + 1) ∷ []

abbrev pub file_bytes : (ℕ → ℕ) → ℕ → List Token → List ℕ
file_bytes raw s [] = 0x00 ∷ []
file_bytes raw s (tok ∷ toks) = token_bytes raw s tok ++ file_bytes raw (s + span tok) toks
