-- ===== src/RlePack/Holding.antt =====
-- What an array holds after src/tools/pngprepare/rlepack.c has read its own output back into it.
use mega65_core.Prelude.{ℕ, zero, suc, ◌+◌, ◌<◌, ◌≡◌, refl, ap, arith, List, [], ◌∷◌, ◌++◌}
use mathlib.Core.Path.{subst}
use mega65_core.RlePack.Output.{bytes_from, length, read_into}
use mega65_core.RlePack.Token.{Token, literal, run, pairs, size, token_bytes}

-- The array holds these bytes from an index on.
abbrev pub Holds : (ℕ → ℕ) → ℕ → List ℕ → Type 0
Holds packed o [] = Unit {0}
Holds packed o (x ∷ xs) = (packed o ≡ x) × Holds packed (o + 1) xs

pub Holds-append :
    (packed : ℕ → ℕ) (o : ℕ) (xs ys : List ℕ)
    → Holds packed o (xs ++ ys)
    → Holds packed o xs × Holds packed (o + length xs) ys
Holds-append packed o [] ys h = (tt, subst (λ p. Holds packed p ys) (omega arith) h)
Holds-append packed o (x ∷ xs) ys h =
    let (front, back) = Holds-append packed (o + 1) xs ys h.1 in
    ((h.0, front), subst (λ p. Holds packed p ys) (omega arith) back)

Holds-shift : (f : ℕ → ℕ) (o : ℕ) (xs : List ℕ) → Holds (λ i. f (suc i)) o xs → Holds f (suc o) xs
Holds-shift f o [] h = tt
Holds-shift f o (x ∷ xs) h =
    (h.0, subst (λ p. Holds f p xs) (omega arith) (Holds-shift f (o + 1) xs h.1))

pub read_into-Holds : (junk : ℕ → ℕ) (xs : List ℕ) → Holds (read_into junk xs) 0 xs
read_into-Holds junk [] = tt
read_into-Holds junk (x ∷ xs) =
    (refl, Holds-shift (read_into junk (x ∷ xs)) 0 xs (read_into-Holds (λ j. junk (suc j)) xs))

length-bytes_from : (raw : ℕ → ℕ) (s n : ℕ) → length (bytes_from raw s n) ≡ n
length-bytes_from raw s zero = refl
length-bytes_from raw s (suc n) = ap suc (length-bytes_from raw (suc s) n)

pub length-token_bytes :
    (raw : ℕ → ℕ) (s : ℕ) (tok : Token) → length (token_bytes raw s tok) ≡ size tok
length-token_bytes raw s (literal n) = omega (arith, length-bytes_from raw s n)
length-token_bytes raw s (run n) = refl
length-token_bytes raw s (pairs n) = refl

pub Holds-bytes_from :
    (packed raw : ℕ → ℕ) (o s n i : ℕ)
    → Holds packed o (bytes_from raw s n)
    → i < n
    → packed (o + i) ≡ raw (s + i)
Holds-bytes_from packed raw o s zero i h lt = absurd (omega arith)
Holds-bytes_from packed raw o s (suc n) zero h lt =
    let here : o + 0 ≡ o = omega arith in
    let there : s + 0 ≡ s = omega arith in rw (here, there) h.0
Holds-bytes_from packed raw o s (suc n) (suc i) h lt =
    let here : o + 1 + i ≡ o + suc i = omega arith in
    let there : suc s + i ≡ s + suc i = omega arith in
    rw (← here, ← there) (Holds-bytes_from packed raw (o + 1) (suc s) n i h.1 (omega arith))
