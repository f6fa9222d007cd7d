-- ===== src/RlePack/Improve.antt =====
-- What an offer in a loop of `main` in src/tools/pngprepare/rlepack.c does to the table.
use mega65_core.Prelude.{
  ℕ, ◌+◌, ◌≤◌, ◌<◌, ◌≡◌, refl, ◌∙◌, ap, ◌⊎◌, inl, inr, arith, ltb, if◌then◌else◌, store, some, true,
  ◌==◌, ==_iff, Bool-cases, ltb→lt,
}
use mathlib.Core.Path.{subst}
use mega65_core.RlePack.Table.{DpItem, Table}
use mega65_core.RlePack.Token.{Token, literal, run, pairs, span, size, code_of, Matches}

abbrev pub cost : Table → ℕ → ℕ
cost t e = (t e).cumulative_cost

abbrev pub code2_of : Token → ℕ → ℕ
code2_of (literal n) old = old
code2_of (run n) old = old
code2_of (pairs n) old = n

-- The item for a token from `s`, which `c` leads up to.
abbrev pub noted : ℕ → ℕ → Token → DpItem → DpItem
noted s c tok item = record item {
  code_byte = code_of tok;
  code_byte2 = code2_of tok item.code_byte2;
  cumulative_cost = size tok + c;
  raw_region = some s;
  parent = some s;
}

unfoldable pub improve : ℕ → ℕ → Token → Table → Table
improve s c tok t =
    let e = s + span tok in
    if ltb (size tok + c) (cost t e) then store t e (noted s c tok (t e)) else t

-- The offer is taken, or was no better.
pub improve-le :
    (s c : ℕ) (tok : Token) (t : Table) → cost (improve s c tok t) (s + span tok) ≤ size tok + c
unfolding improve
improve-le s c tok t = ground arith

code2_of_twice : (tok : Token) (old : ℕ) → code2_of tok old ≡ code2_of tok (code2_of tok old)
code2_of_twice (literal n) old = refl
code2_of_twice (run n) old = refl
code2_of_twice (pairs n) old = refl

module _ (raw : ℕ → ℕ) where
  -- The item at `e` holds a token from `s`.
  pub record Entry (t : Table) (s e : ℕ) : Type 0 where
    pub tok : Token
    pub reaches : s + span tok ≡ e
    pub matches : Matches raw s tok
    pub code : (t e).code_byte ≡ code_of tok
    pub code2 : (t e).code_byte2 ≡ code2_of tok (t e).code_byte2
    pub region : (t e).raw_region ≡ some s
    pub from : (t e).parent ≡ some s
    pub paid : cost t e ≡ size tok + cost t s

  pub Entry-same : {t u : Table} {s e : ℕ} → u s ≡ t s → u e ≡ t e → Entry t s e → Entry u s e
  Entry-same hs he n = record {
    tok = n.tok;
    reaches = n.reaches;
    matches = n.matches;
    code = rw he n.code;
    code2 = rw he n.code2;
    region = rw he n.region;
    from = rw he n.from;
    paid = omega (arith, ap (λ i. i.cumulative_cost) hs, ap (λ i. i.cumulative_cost) he, n.paid);
  }

  -- The table `u` comes from `t` by offers of tokens from `s`.
  pub record Improves (s : ℕ) (t u : Table) : Type 0 where
    pub kept : (x : ℕ) → x ≤ s → u x ≡ t x
    pub falls : (x : ℕ) → cost u x ≤ cost t x
    pub fresh : (x : ℕ) → (u x ≡ t x) ⊎ Entry u s x

  pub Improves-refl : (s : ℕ) (t : Table) → Improves s t t
  Improves-refl s t = record { kept = λ x h. refl; falls = λ x. omega arith; fresh = λ x. inl refl }

  pub Improves-trans : (s : ℕ) (t u v : Table) → Improves s t u → Improves s u v → Improves s t v
  Improves-trans s t u v p q = record {
    kept = λ x h. q.kept x h ∙ p.kept x h;
    falls = λ x. omega (arith, p.falls x, q.falls x);
    fresh = λ x. elim (q.fresh x) [
      | inr n ↦ inr n
      | inl e ↦ elim (p.fresh x) [
        | inl e' ↦ inl (e ∙ e')
        | inr n ↦ inr (Entry-same (q.kept s (omega arith)) e n)
      ]
    ];
  }

  pub Matches-span : (s : ℕ) (tok : Token) → Matches raw s tok → 0 < span tok
  Matches-span s (literal n) m = omega arith
  Matches-span s (run n) m = omega (arith, m.0)
  Matches-span s (pairs n) m = omega (arith, m.0)

  -- The table with the token noted, at an end `e` that is a variable.
  noted-Entry :
      (s e : ℕ) (tok : Token) (t : Table)
      → s + span tok ≡ e
      → Matches raw s tok
      → Entry (store t e (noted s (cost t s) tok (t e))) s e
  noted-Entry s e tok t h m =
      let itself : (e == e) ≡ true = ground arith in
      record {
        tok = tok;
        reaches = h;
        matches = m;
        code = rw itself;
        code2 = rw itself (code2_of_twice tok (t e).code_byte2);
        region = rw itself;
        from = rw itself;
        paid = ground (arith, Matches-span s tok);
      }

  taken-Improves :
      (s e : ℕ) (tok : Token) (t : Table)
      → s + span tok ≡ e
      → Matches raw s tok
      → size tok + cost t s < cost t e
      → Improves s t (store t e (noted s (cost t s) tok (t e)))
  taken-Improves s e tok t h m less = record {
    kept = λ x le. ground (arith, Matches-span s tok);
    falls = λ x. ground arith;
    fresh = λ x. elim (Bool-cases (e == x)) [
      | inr ne ↦ inl (rw ne)
      | inl eq ↦ inr (
          subst (Entry (store t e (noted s (cost t s) tok (t e))) s) ((==_iff e x).0 eq)
            (noted-Entry s e tok t h m))
    ];
  }

  pub improve-Improves :
      (s : ℕ) (tok : Token) (t : Table)
      → Matches raw s tok
      → Improves s t (improve s (cost t s) tok t)
  unfolding improve
  improve-Improves s tok t m =
      elim (Bool-cases (ltb (size tok + cost t s) (cost t (s + span tok)))) [
        | inr worse ↦ rw worse (Improves-refl s t)
        | inl better ↦ rw better (taken-Improves s (s + span tok) tok t refl m (ltb→lt _ _ better))
      ]
