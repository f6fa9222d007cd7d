-- ===== src/RlePack/Best.antt =====
-- The table that the loop over `start` of `main` in src/tools/pngprepare/rlepack.c fills: its items,
-- their costs, and the costs of the tokens that it does not hold.
use mega65_core.Prelude.{
  ℕ, zero, suc, ◌+◌, ◌*◌, ◌≤◌, ◌<◌, ◌≡◌, ◌⊎◌, inl, inr, refl, sym, ap, ◌∙◌, arith, Bool-cases, ◌==◌,
  ==_iff,
}
use mathlib.Core.Path.{subst}
use mega65_core.RlePack.Table.{
  Table, infinite_cost, initial_table, pack_from, pack_table, for_ends, offer_raw, offer_rle,
  offer_pairs, raw_goes_on, rle_goes_on, pairs_go_on,
}
use mega65_core.RlePack.Token.{Token, literal, run, pairs, span, size, Matches}
use mega65_core.RlePack.Improve.{cost, Entry, Entry-same, Improves, Improves-trans}
use mega65_core.RlePack.Ends.{for_ends-Improves, for_ends-le, for_ends-offers}
use mega65_core.RlePack.Kinds.{raw-Offers, rle-Offers, pairs-Offers}

module _ (raw : ℕ → ℕ) (raw_size : ℕ) where
  -- What a round does, beside the offers being from `s`: every token from `s` was offered.
  record IsRound (s : ℕ) (t u : Table) : Type 0 where
    improves : Improves raw s t u
    offered :
        (tok : Token)
        → Matches raw s tok
        → s + span tok ≤ raw_size
        → cost u (s + span tok) ≤ size tok + cost u s

  -- The three loops one after the other, with the tables between them.
  module _ (s : ℕ) (t : Table) where
    abbrev c : ℕ
    c = cost t s

    with_raw : Table
    with_raw = for_ends (raw_goes_on raw raw_size s) (offer_raw s c) 1 128 (s + 1) t

    with_rle : Table
    with_rle = for_ends (rle_goes_on raw raw_size s) (offer_rle s c) 1 128 (s + 1) with_raw

    with_pairs : Table
    with_pairs = for_ends (pairs_go_on raw raw_size s) (offer_pairs s c) 2 256 (s + 2) with_rle

    with_raw-Improves : Improves raw s t with_raw
    unfolding with_raw
    with_raw-Improves = for_ends-Improves (raw-Offers raw raw_size s c) 128 0 t tt refl

    with_rle-Improves : Improves raw s t with_rle
    unfolding with_rle
    with_rle-Improves = Improves-trans raw s _ _ _ with_raw-Improves (
        for_ends-Improves (rle-Offers raw raw_size s c) 128 0 with_raw tt
          (ap (λ i. i.cumulative_cost) (with_raw-Improves.kept s (omega arith))))

    with_pairs-Improves : Improves raw s t with_pairs
    unfolding with_pairs
    with_pairs-Improves = Improves-trans raw s _ _ _ with_rle-Improves (
        for_ends-Improves (pairs-Offers raw raw_size s c) 256 0 with_rle tt
          (ap (λ i. i.cumulative_cost) (with_rle-Improves.kept s (omega arith))))

    with_rle-le : (x : ℕ) → cost with_rle x ≤ cost with_raw x
    unfolding with_rle
    with_rle-le x = for_ends-le (rle-Offers raw raw_size s c) 128 (s + 1) with_raw x

    with_pairs-le : (x : ℕ) → cost with_pairs x ≤ cost with_rle x
    unfolding with_pairs
    with_pairs-le x = for_ends-le (pairs-Offers raw raw_size s c) 256 (s + 2) with_rle x

    with_pairs-offered :
        (tok : Token)
        → Matches raw s tok
        → s + span tok ≤ raw_size
        → cost with_pairs (s + span tok) ≤ size tok + c
    unfolding with_raw with_rle with_pairs
    with_pairs-offered (literal zero) m fits = absurd (omega (arith, m.0))
    with_pairs-offered (literal (suc k)) m fits = omega (
      arith,
      for_ends-offers (raw-Offers raw raw_size s c) k 128 0 k t (omega (arith, m.1)) (omega arith) m
          (omega arith),
      with_rle-le (s + suc k),
      with_pairs-le (s + suc k),
    )
    with_pairs-offered (run zero) m fits = absurd (omega (arith, m.0))
    with_pairs-offered (run (suc k)) m fits = omega (
      arith,
      for_ends-offers (rle-Offers raw raw_size s c) k 128 0 k with_raw (omega (arith, m.1))
          (omega arith) m (omega arith),
      with_pairs-le (s + suc k),
    )
    with_pairs-offered (pairs zero) m fits = absurd (omega (arith, m.0))
    with_pairs-offered (pairs (suc k)) m fits =
        for_ends-offers (pairs-Offers raw raw_size s c) k 256 0 k with_rle (omega (arith, m.1))
          (omega arith) m fits

    pack_from-IsRound : IsRound s t (pack_from raw raw_size s t)
    unfolding pack_from with_raw with_rle with_pairs
    pack_from-IsRound = record {
      improves = with_pairs-Improves;
      offered = λ tok m fits. omega (
        arith,
        with_pairs-offered tok m fits,
        ap (λ i. i.cumulative_cost) (with_pairs-Improves.kept s (omega arith)),
      );
    }

  -- The table after the rounds below `s`.
  pub record IsPacked (s : ℕ) (t : Table) : Type 0 where
    pub origin : cost t 0 ≡ 0
    pub entries :
        (e : ℕ) → 0 < e → (cost t e ≡ infinite_cost) ⊎ ((p : ℕ) × (p < s) × Entry raw t p e)
    pub bounded : (e : ℕ) → e ≤ s → cost t e ≤ e * 2
    pub best :
        (p : ℕ) (tok : Token)
        → p < s
        → Matches raw p tok
        → p + span tok ≤ raw_size
        → cost t (p + span tok) ≤ size tok + cost t p

  initial_table-IsPacked : IsPacked 0 initial_table
  unfolding initial_table
  initial_table-IsPacked = record {
    origin = refl;
    entries = λ e h. inl (ground arith);
    bounded = λ e h. ground arith;
    best = λ p tok h. absurd (omega arith);
  }

  round-entries :
      (s : ℕ) (t u : Table)
      → IsPacked s t
      → IsRound s t u
      → (e : ℕ) → 0 < e
      → (cost u e ≡ infinite_cost) ⊎ ((p : ℕ) × (p < suc s) × Entry raw u p e)
  round-entries s t u k r e h = elim (r.improves.fresh e) [
    | inr n ↦ inr (s, omega arith, n)
    | inl same ↦ elim (k.entries e h) [
      | inl far ↦ inl (ap (λ i. i.cumulative_cost) same ∙ far)
      | inr (p, lt, n) ↦
          inr (p, omega arith, Entry-same raw (r.improves.kept p (omega arith)) same n)
    ]
  ]

  round-bounded :
      (s : ℕ) (t u : Table)
      → s < raw_size
      → IsPacked s t
      → IsRound s t u
      → (e : ℕ) → e ≤ suc s
      → cost u e ≤ e * 2
  round-bounded s t u inside k r e h = elim (Bool-cases (e == suc s)) [
    | inr ne ↦ omega (arith, k.bounded e (ground arith), r.improves.falls e)
    | inl eq ↦
        let one_more = r.offered (literal 1) (omega arith, omega arith) (omega arith) in
        let at : s + 1 ≡ suc s = omega arith in
        rw ((==_iff e (suc s)).0 eq)
          (omega (arith, rw at at one_more, k.bounded s (omega arith), r.improves.falls s))
  ]

  round-best :
      (s : ℕ) (t u : Table)
      → IsPacked s t
      → IsRound s t u
      → (p : ℕ) (tok : Token) → p < suc s
      → Matches raw p tok
      → p + span tok ≤ raw_size
      → cost u (p + span tok) ≤ size tok + cost u p
  round-best s t u k r p tok h m fits = elim (Bool-cases (p == s)) [
    | inl eq ↦
        subst
          (λ q.
            Matches raw q tok
            → q + span tok ≤ raw_size
            → cost u (q + span tok) ≤ size tok + cost u q)
          (sym ((==_iff p s).0 eq)) (r.offered tok) m fits
    | inr ne ↦ omega (
      arith,
      k.best p tok (ground arith) m fits,
      r.improves.falls (p + span tok),
      ap (λ i. i.cumulative_cost) (r.improves.kept p (omega arith)),
    )
  ]

  round-IsPacked :
      (s : ℕ) (t u : Table) → s < raw_size → IsPacked s t → IsRound s t u → IsPacked (suc s) u
  round-IsPacked s t u inside k r = record {
    origin = ap (λ i. i.cumulative_cost) (r.improves.kept 0 (omega arith)) ∙ k.origin;
    entries = round-entries s t u k r;
    bounded = round-bounded s t u inside k r;
    best = round-best s t u k r;
  }

  pub pack_table-IsPacked : (s : ℕ) → s ≤ raw_size → IsPacked s (pack_table raw raw_size s)
  unfolding pack_table
  pack_table-IsPacked zero h = initial_table-IsPacked
  pack_table-IsPacked (suc s) h =
      round-IsPacked s _ _ (omega arith) (pack_table-IsPacked s (omega arith))
        (pack_from-IsRound s (pack_table raw raw_size s))
