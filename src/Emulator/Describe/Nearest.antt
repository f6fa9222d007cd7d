-- ===== src/Emulator/Describe/Nearest.antt =====
-- Which symbol `describe_address_label28` of src/tools/hyppotest.c chooses.
use mathlib.Core.Path.{subst}
use mathlib.Core.Logic.{◌≢◌}
use mega65_core.Prelude.{
  ℕ, zero, suc, ◌+◌, ◌-◌, ◌≤◌, ◌<◌, ◌≡◌, refl, sym, inl, inr, arith, Bool, true, false, Option,
  none, some, ◌==◌, ==_iff, ltb, leb, Bool-cases, below_suc, if◌then◌else◌, ltb→lt, ◌&&◌,
}
use mega65_core.Emulator.Describe.{
  SymbolList, Label, no_label, at_symbol, after_symbol, closer_match, match_label, print_label,
  label_in, describe_address_label28,
}

-- What a symbol below `n` that is no match is, next to the best match `m` so far.
abbrev NoCloser : (ℕ → ℕ) → ℕ → ℕ → ℕ → Type 0
NoCloser addrs target m j = (addrs j ≢ target) × (addrs j < target → addrs j ≤ addrs m)

-- What the loop over the first `n` symbols may end with.
abbrev Nearest : (ℕ → ℕ) → ℕ → ℕ → Bool × Option ℕ → Type 0
Nearest addrs target n (true, none) = ⊥
Nearest addrs target n (true, some m) =
    (m < n) × (addrs m ≡ target) × ((j : ℕ) → j < m → addrs j ≢ target)
Nearest addrs target n (false, none) = (j : ℕ) → j < n → target < addrs j
Nearest addrs target n (false, some m) =
    (m < n) × (addrs m < target) × ((j : ℕ) → j < n → NoCloser addrs target m j)

module _ (addrs : ℕ → ℕ) (target : ℕ) where
  closer_match-Nearest :
      (i : ℕ) (match : Option ℕ)
      → Nearest addrs target i (false, match)
      → addrs i ≢ target
      → Nearest addrs target (suc i) (false, closer_match addrs target i match)
  unfolding closer_match
  closer_match-Nearest i none h ne = elim (Bool-cases (ltb (addrs i) target)) [
    | inl below ↦ rw below (
      omega arith,
      ltb→lt _ _ below,
      below_suc (NoCloser addrs target i) i
          (λ j lt. (λ e. absurd (omega (arith, h j lt, e)), λ b. absurd (omega (arith, h j lt))))
          (ne, λ b. omega arith),
    )
    | inr above ↦ rw above (below_suc (λ j. target < addrs j) i h (ground (arith, ne)))
  ]
  closer_match-Nearest i (some m) h ne =
      elim (Bool-cases (ltb (addrs m) (addrs i) && ltb (addrs i) target)) [
        | inl closer ↦ rw closer (
          omega arith,
          ground arith,
          below_suc (NoCloser addrs target i) i
              (λ j lt. (λ e. (h.2 j lt).0 e, λ b. ground (arith, (h.2 j lt).1 b)))
              (ne, λ b. omega arith),
        )
        | inr farther ↦ rw farther (
          omega (arith, h.0),
          h.1,
          below_suc (NoCloser addrs target m) i h.2 (ne, λ b. ground arith),
        )
      ]

  never_equal :
      (i : ℕ) (match : Option ℕ)
      → Nearest addrs target i (false, match)
      → (j : ℕ) → j < i
      → addrs j ≢ target
  never_equal i none h j lt e = absurd (omega (arith, h j lt, e))
  never_equal i (some m) h j lt e = (h.2 j lt).0 e

  match_label-Nearest :
      (left i : ℕ) (match : Option ℕ)
      → Nearest addrs target i (false, match)
      → Nearest addrs target (i + left) (match_label addrs target left i match)
  unfolding match_label
  match_label-Nearest zero i match h =
      subst (λ n. Nearest addrs target n (false, match)) (omega arith) h
  match_label-Nearest (suc left) i match h = elim (Bool-cases (target == addrs i)) [
    | inl e ↦ rw e (omega arith, sym ((==_iff target (addrs i)).0 e), never_equal i match h)
    | inr ne ↦
        let next : suc i + left ≡ i + suc left = omega arith in
        rw ne (
          rw (← next) (
            match_label-Nearest left (suc i) (closer_match addrs target i match)
              (closer_match-Nearest i match h (λ e. ground (arith, e)))))
  ]

-- A label that is right for an address: with a name and no distance that of the first symbol at the
-- address, with both that of a symbol below it where no symbol is at the address or between, and none
-- where all symbols are above it.
abbrev pub IsLabelOf : SymbolList → ℕ → Label → Type 0
IsLabelOf s target no_label = (j : ℕ) → j < s.count → target < s.addr j
IsLabelOf s target (at_symbol n) =
    (m : ℕ) × (s.name m ≡ n)
    × (m < s.count)
    × (s.addr m ≡ target)
    × ((j : ℕ) → j < m → s.addr j ≢ target)
IsLabelOf s target (after_symbol n distance) =
    (m : ℕ) × (s.name m ≡ n)
    × (m < s.count)
    × (0 < distance)
    × (s.addr m + distance ≡ target)
    × ((j : ℕ) → j < s.count → NoCloser s.addr target m j)

print_label-IsLabelOf :
    (s : SymbolList) (target : ℕ) (r : Bool × Option ℕ)
    → Nearest s.addr target s.count r
    → IsLabelOf s target (print_label s target r)
unfolding print_label
print_label-IsLabelOf s target (true, none) h = absurd h
print_label-IsLabelOf s target (false, none) h = h
print_label-IsLabelOf s target (true, some m) h = (m, refl, h.0, h.1, h.2)
print_label-IsLabelOf s target (false, some m) h =
    (m, refl, h.0, omega (arith, h.1), omega (arith, h.1), h.2)

label_in-IsLabelOf : (s : SymbolList) (target : ℕ) → IsLabelOf s target (label_in s target)
unfolding label_in
label_in-IsLabelOf s target =
    let none_yet : Nearest s.addr target 0 (false, none) = λ j h. absurd (omega arith) in
    let zero_add : 0 + s.count ≡ s.count = omega arith in
    print_label-IsLabelOf s target _ (
      subst (λ n. Nearest s.addr target n (match_label s.addr target s.count 0 none)) zero_add
        (match_label-Nearest s.addr target s.count 0 none none_yet))

-- The label of an address is right (`IsLabelOf`) for the table of the hypervisor from $FFF8000 up to
-- $FFFBFFF, with the addresses that this table has, and for the table of the program elsewhere.
pub describe_address_label28-IsLabelOf :
    (hyppo symbols : SymbolList) (addr : ℕ)
    → let within = leb 0xfff8000 addr && ltb addr 0xfffc000 in
      IsLabelOf
        (if within then hyppo else symbols)
        (if within then addr - 0xfff0000 else addr)
        (describe_address_label28 hyppo symbols addr)
unfolding describe_address_label28
describe_address_label28-IsLabelOf hyppo symbols addr =
    elim (Bool-cases (leb 0xfff8000 addr && ltb addr 0xfffc000)) [
      | inl e ↦ rw e (label_in-IsLabelOf hyppo (addr - 0xfff0000))
      | inr e ↦ rw e (label_in-IsLabelOf symbols addr)
    ]
