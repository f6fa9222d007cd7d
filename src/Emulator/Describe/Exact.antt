-- ===== src/Emulator/Describe/Exact.antt =====
-- Which symbol `describe_address` of src/tools/hyppotest.c chooses.
use mathlib.Core.Logic.{◌≢◌}
use mathlib.Core.Path.{subst}
use mega65_core.Prelude.{
  ℕ, zero, suc, ◌+◌, ◌<◌, ◌≡◌, refl, sym, inl, inr, arith, false, Option, none, some, ◌==◌, ==_iff,
  ltb, Bool-cases, below_suc, ◌&&◌,
}
use mega65_core.Emulator.Describe.{
  SymbolList, Place, nowhere, first_in, inside, keep_match, match_place, print_place,
  describe_address,
}

module _ (addrs : ℕ → ℕ) (target : ℕ) where
  -- The last of the first `n` symbols that is at the address.
  abbrev IsLastMatch : ℕ → Option ℕ → Type 0
  IsLastMatch n none = (j : ℕ) → j < n → addrs j ≢ target
  IsLastMatch n (some m) =
      (m < n) × (addrs m ≡ target) × ((j : ℕ) → j < n → m < j → addrs j ≢ target)

  keep_match-IsLastMatch :
      (i : ℕ) (match : Option ℕ)
      → IsLastMatch i match
      → IsLastMatch (suc i) (keep_match addrs target i match)
  unfolding keep_match
  keep_match-IsLastMatch i none h = elim (Bool-cases (target == addrs i)) [
    | inl e ↦
        rw e (omega arith, sym ((==_iff target (addrs i)).0 e), λ j lt above. absurd (omega arith))
    | inr ne ↦ rw ne (below_suc (λ j. addrs j ≢ target) i h (λ e. ground (arith, e)))
  ]
  keep_match-IsLastMatch i (some m) h = elim (Bool-cases (target == addrs i)) [
    | inl e ↦
        let not_below : (ltb (addrs i) (addrs i) && ltb (addrs i) target) ≡ false = ground arith in
        rw e (
          rw not_below
            (omega arith, sym ((==_iff target (addrs i)).0 e), λ j lt above. absurd (omega arith)))
    | inr ne ↦
        let not_between : (ltb (addrs m) (addrs i) && ltb (addrs i) target) ≡ false =
          ground (arith, h.1) in
        rw ne (
          rw not_between (
            omega (arith, h.0),
            h.1,
            below_suc (λ j. m < j → addrs j ≢ target) i h.2 (λ above e. ground (arith, e)),
          ))
  ]

  match_place-IsLastMatch :
      (left i : ℕ) (match : Option ℕ)
      → IsLastMatch i match
      → IsLastMatch (i + left) (match_place addrs target left i match)
  unfolding match_place
  match_place-IsLastMatch zero i match h = subst (λ n. IsLastMatch n match) (omega arith) h
  match_place-IsLastMatch (suc left) i match h =
      subst
        (λ n.
          IsLastMatch n (match_place addrs target left (suc i) (keep_match addrs target i match)))
        (omega arith)
        (match_place-IsLastMatch left (suc i) (keep_match addrs target i match)
          (keep_match-IsLastMatch i match h))

-- A description by the last symbol at the address, or by none where there is no such symbol.
abbrev pub IsExactPlace : SymbolList → ℕ → Place → Type 0
IsExactPlace s target nowhere = (j : ℕ) → j < s.count → s.addr j ≢ target
IsExactPlace s target (first_in n) =
    (m : ℕ) × (s.name m ≡ n)
    × (m < s.count)
    × (s.addr m ≡ target)
    × ((j : ℕ) → j < s.count → m < j → s.addr j ≢ target)
IsExactPlace s target (inside n distance) = ⊥

print_place-IsExactPlace :
    (s : SymbolList) (target : ℕ) (match : Option ℕ)
    → IsLastMatch s.addr target s.count match
    → IsExactPlace s target (print_place s target match)
unfolding print_place
print_place-IsExactPlace s target none h = h
print_place-IsExactPlace s target (some m) h =
    rw ((==_iff (s.addr m) target).1 h.1) (m, refl, h.0, h.1, h.2)

-- An address is described by the last symbol that is exactly there (`IsExactPlace`), and by none where
-- there is no such symbol. A symbol below the address is never used.
pub describe_address-IsExactPlace :
    (hyppo : SymbolList) (addr : ℕ) → IsExactPlace hyppo addr (describe_address hyppo addr)
unfolding describe_address
describe_address-IsExactPlace hyppo addr =
    let none_yet : IsLastMatch hyppo.addr addr 0 none = λ j h. absurd (omega arith) in
    let zero_add : 0 + hyppo.count ≡ hyppo.count = omega arith in
    print_place-IsExactPlace hyppo addr _ (
      subst (λ n. IsLastMatch hyppo.addr addr n (match_place hyppo.addr addr hyppo.count 0 none))
        zero_add (match_place-IsLastMatch hyppo.addr addr hyppo.count 0 none none_yet))
