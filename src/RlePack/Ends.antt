-- ===== src/RlePack/Ends.antt =====
-- The loops over `end` of `main` in src/tools/pngprepare/rlepack.c: which tokens they offer.
use mega65_core.Prelude.{
  ℕ, zero, suc, ◌+◌, ◌*◌, ◌≤◌, ◌<◌, ◌≡◌, ap, ◌∙◌, inl, inr, arith, Bool, true, Bool-cases,
}
use mega65_core.RlePack.Table.{Table, for_ends}
use mega65_core.RlePack.Token.{Token, span, size, Matches}
use mega65_core.RlePack.Improve.{
  cost, improve, improve-le, improve-Improves, Improves, Improves-refl, Improves-trans,
}

-- What a loop has found: the token of the last round, if there was a round.
abbrev pub Found : (ℕ → ℕ) → ℕ → (ℕ → Token) → ℕ → Type 0
Found raw s token zero = Unit {0}
Found raw s token (suc k) = Matches raw s (token (suc k))

-- A loop with a test and a body that offers `token 1`, `token 2` and so on from `s`, which `c` leads
-- up to.
pub record Offers (raw : ℕ → ℕ) (raw_size s c : ℕ) (test : ℕ → Bool) (body : ℕ → Table → Table)
    (step : ℕ) (token : ℕ → Token) : Type 0 where
  pub reaches : (k : ℕ) → span (token k) ≡ k * step
  pub same :
      (k : ℕ) (t : Table)
      → Matches raw s (token (suc k))
      → body (s + suc k * step) t ≡ improve s c (token (suc k)) t
  pub sound :
      (k : ℕ) → Found raw s token k → test (s + suc k * step) ≡ true → Matches raw s (token (suc k))
  pub complete :
      (k j : ℕ)
      → j ≤ k
      → Matches raw s (token (suc k))
      → s + suc k * step ≤ raw_size
      → test (s + suc j * step) ≡ true
  pub drops : (e : ℕ) (t : Table) (x : ℕ) → cost (body e t) x ≤ cost t x

module _ {raw : ℕ → ℕ} {raw_size s c : ℕ} {test : ℕ → Bool} {body : ℕ → Table → Table} {step : ℕ}
    {token : ℕ → Token} (o : Offers raw raw_size s c test body step token) where
  body-Improves :
      (k : ℕ) (t : Table)
      → Matches raw s (token (suc k))
      → cost t s ≡ c
      → Improves raw s t (body (s + suc k * step) t)
  body-Improves k t m h = rw (o.same k t m) (rw (← h) (improve-Improves raw s (token (suc k)) t m))

  pub for_ends-Improves :
      (rounds k : ℕ) (t : Table)
      → Found raw s token k
      → cost t s ≡ c
      → Improves raw s t (for_ends test body step rounds (s + suc k * step) t)
  unfolding for_ends
  for_ends-Improves zero k t f h = Improves-refl raw s t
  for_ends-Improves (suc rounds) k t f h = elim (Bool-cases (test (s + suc k * step))) [
    | inr stop ↦ rw stop (Improves-refl raw s t)
    | inl on ↦
        let m = o.sound k f on in
        let first = body-Improves k t m h in
        let next : s + suc k * step + step ≡ s + suc (suc k) * step = grind arith in
        let rest =
          for_ends-Improves rounds (suc k) (body (s + suc k * step) t) m
            (ap (λ i. i.cumulative_cost) (first.kept s (omega arith)) ∙ h) in
        rw on (rw next (Improves-trans raw s _ _ _ first rest))
  ]

  pub for_ends-le :
      (rounds e : ℕ) (t : Table) (x : ℕ) → cost (for_ends test body step rounds e t) x ≤ cost t x
  unfolding for_ends
  for_ends-le zero e t x = omega arith
  for_ends-le (suc rounds) e t x =
      ground (arith, o.drops e t x, for_ends-le rounds (e + step) (body e t) x)

  -- `left` rounds after the one with `j` the token `k` is offered.
  pub for_ends-offers :
      (left rounds j k : ℕ) (t : Table)
      → left < rounds
      → j + left ≡ k
      → Matches raw s (token (suc k))
      → s + suc k * step ≤ raw_size
      → cost (for_ends test body step rounds (s + suc j * step) t) (s + span (token (suc k)))
        ≤ size (token (suc k)) + c
  unfolding for_ends
  for_ends-offers left zero j k t h e m fits = absurd (omega arith)
  for_ends-offers zero (suc rounds) j k t h e m fits =
      let here : j ≡ k = omega arith in
      rw here (
        rw (o.complete k k (omega arith) m fits) (
          rw (o.same k t m) (
            omega (
              arith,
              for_ends-le rounds (s + suc k * step + step) (improve s c (token (suc k)) t)
                  (s + span (token (suc k))),
              improve-le s c (token (suc k)) t,
            ))))
  for_ends-offers (suc left) (suc rounds) j k t h e m fits =
      let next : s + suc j * step + step ≡ s + suc (suc j) * step = grind arith in
      rw (o.complete k j (omega arith) m fits) (
        rw next (
          for_ends-offers left rounds (suc j) k (body (s + suc j * step) t) (omega arith)
            (omega arith) m fits))
