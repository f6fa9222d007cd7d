-- ===== src/Emulator/Rig/Compare.antt =====
-- `compare_register_contents`, `compare_ram_contents` and `ignore_ram_changes` of
-- src/tools/hyppotest.c.
use mega65_core.Prelude.{
  ℕ, zero, suc, ◌+◌, ◌-◌, ◌^◌, ◌<◌, ◌≡◌, ◌↔◌, refl, Bool, true, false, not, ◌&&◌, ◌==◌, leb, ltb,
  if◌then◌else◌, store, arith, List, [], ◌∷◌, Bool-cases, ==_iff, inl, inr, ◌∙◌, bool_to_nat,
  Option, none, some, lt→ltb,
}
use mega65_core.Emulator.State.{Regs, chipram_size, hypporam_size, colourram_size, set_error}
use mega65_core.Emulator.Rig.{Rig}

abbrev pub same_bool : Bool → Bool → Bool
same_bool true c = c
same_bool false c = not c

abbrev pub every : List Bool → Bool
every [] = true
every (b ∷ bs) = b && every bs

-- The sixteen comparisons of registers and flags.
abbrev pub comparisons : Regs → Regs → List Bool
comparisons r s =
    ((r.a == s.a)
      ∷ (r.x == s.x)
      ∷ (r.y == s.y)
      ∷ (r.z == s.z)
      ∷ (r.b == s.b)
      ∷ (r.spl == s.spl)
      ∷ (r.sph == s.sph)
      ∷ (r.pc == s.pc)
      ∷ same_bool r.flag_c s.flag_c
      ∷ same_bool r.flag_z s.flag_z
      ∷ same_bool r.flag_i s.flag_i
      ∷ same_bool r.flag_d s.flag_d
      ∷ same_bool r.flag_b s.flag_b
      ∷ same_bool r.flag_e s.flag_e
      ∷ same_bool r.flag_v s.flag_v
      ∷ same_bool r.flag_n s.flag_n
      ∷ [])

unfoldable pub same_registers : Regs → Regs → Bool
same_registers r s = every (comparisons r s)

-- Each difference sets `term.error`, which is the result.
unfoldable pub compare_register_contents : Rig → Bool × Rig
unfolding same_registers
compare_register_contents g =
    let m = g.machine in
    let bus = if same_registers m.regs g.expected.regs then m.bus else set_error m.bus in
    (bus.term.error, record g { machine = record m { bus = bus } })

-- The loop that counts the differences of two arrays, from the first element on.
unfoldable pub differences : ℕ → (ℕ → ℕ) → (ℕ → ℕ) → ℕ
differences zero f g = 0
differences (suc n) f g = differences n f g + bool_to_nat (not (f n == g n))

-- The rest of the function prints the differences.
unfoldable pub compare_ram_contents : Rig → ℕ × Rig
compare_ram_contents g =
    let m = g.machine in
    let e = g.expected in
    let errors =
      differences chipram_size m.bus.chipram e.chipram
      + differences hypporam_size m.bus.hypporam e.hypporam
      + differences colourram_size m.bus.colourram e.colourram
      + differences 65536 m.bus.ffdram e.ffdram in
    let bus = if errors == 0 then m.bus else set_error m.bus in
    (errors, record g { machine = record m { bus = bus } })

-- One round of the loop of `ignore_ram_changes`, and the loop over `n` addresses from `low` on.
unfoldable pub ignore_address : ℕ → Rig → Rig
ignore_address i g =
    let e = g.expected in
    let s = g.machine.bus in
    record g {
      expected = record e {
        chipram = if ltb i chipram_size then store e.chipram i (s.chipram i) else e.chipram;
        hypporam =
            if leb 0xfff8000 i && ltb i 0xfffc000
            then store e.hypporam (i - 0xfff8000) (s.hypporam (i - 0xfff8000))
            else e.hypporam;
      };
    }

unfoldable pub ignore_range : ℕ → ℕ → Rig → Rig
unfolding ignore_address
ignore_range low zero g = g
ignore_range low (suc n) g = ignore_range (suc low) n (ignore_address low g)

-- `for (i = low; i <= high; i++)`. `i` is an `int`, and `none` stands for undefined behaviour: it runs
-- past 2 ^ 31 - 1 where `high` is not below that, or starts as a negative index.
unfoldable pub ignore_ram_changes : ℕ → ℕ → Rig → Option Rig
unfolding ignore_range
ignore_ram_changes low high g =
    if ltb high low
    then some g
    else if ltb high (2 ^ 31 - 1)
    then some (ignore_range low (high + 1 - low) g)
    else none

-- Two arrays agree on their first `n` elements.
abbrev pub AgreeBelow : ℕ → (ℕ → ℕ) → (ℕ → ℕ) → Type 0
AgreeBelow n f g = (i : ℕ) → i < n → f i ≡ g i

differences-zero : (n : ℕ) (f g : ℕ → ℕ) → differences n f g ≡ 0 → AgreeBelow n f g
unfolding differences
differences-zero zero f g e i h = absurd (omega arith)
differences-zero (suc n) f g e i h = elim (Bool-cases (i == n)) [
  | inl last ↦ let same : i ≡ n = (==_iff i n).0 last in rw same (ground arith)
  | inr other ↦ differences-zero n f g (ground arith) i (ground arith)
]

AgreeBelow-differences : (n : ℕ) (f g : ℕ → ℕ) → AgreeBelow n f g → differences n f g ≡ 0
unfolding differences
AgreeBelow-differences zero f g h = refl
AgreeBelow-differences (suc n) f g h =
    ground (arith, h n, AgreeBelow-differences n f g (λ i l. h i (omega arith)))

-- The comparison of the memories finds no difference exactly where all four agree with the expected
-- ones, over their whole length.
pub compare_ram_contents_lem :
    (g : Rig)
    → let s = g.machine.bus in
      let e = g.expected in
      ((compare_ram_contents g).0 ≡ 0) ↔ (
        AgreeBelow chipram_size s.chipram e.chipram
        × AgreeBelow hypporam_size s.hypporam e.hypporam
        × AgreeBelow colourram_size s.colourram e.colourram
        × AgreeBelow 65536 s.ffdram e.ffdram)
unfolding compare_ram_contents
compare_ram_contents_lem g =
    let s = g.machine.bus in
    let x = g.expected in
    (
      λ e. (
        differences-zero chipram_size s.chipram x.chipram (omega arith),
        differences-zero hypporam_size s.hypporam x.hypporam (omega arith),
        differences-zero colourram_size s.colourram x.colourram (omega arith),
        differences-zero 65536 s.ffdram x.ffdram (omega arith),
      ),
      λ (c, h, k, f). omega (
        arith,
        AgreeBelow-differences chipram_size s.chipram x.chipram c,
        AgreeBelow-differences hypporam_size s.hypporam x.hypporam h,
        AgreeBelow-differences colourram_size s.colourram x.colourram k,
        AgreeBelow-differences 65536 s.ffdram x.ffdram f,
      ),
    )

-- Whether an address of the chip RAM, or an offset of the hypervisor RAM, is among those from `low`
-- on, `n` many.
abbrev pub is_ignored : ℕ → ℕ → ℕ → Bool
is_ignored low n i = leb low i && ltb i (low + n)

ignore_range-chipram :
    (low n : ℕ) (g : Rig) (i : ℕ)
    → i < chipram_size
    → (ignore_range low n g).expected.chipram i
      ≡ (if is_ignored low n i then g.machine.bus.chipram i else g.expected.chipram i)
unfolding ignore_range ignore_address
ignore_range-chipram low zero g i h = ground arith
ignore_range-chipram low (suc n) g i h =
    ignore_range-chipram (suc low) n (ignore_address low g) i h ∙ ground arith

ignore_range-hypporam :
    (low n : ℕ) (g : Rig) (i : ℕ)
    → i < hypporam_size
    → (ignore_range low n g).expected.hypporam i ≡ (
        if is_ignored low n (0xfff8000 + i)
        then g.machine.bus.hypporam i
        else g.expected.hypporam i)
unfolding ignore_range ignore_address
ignore_range-hypporam low zero g i h = ground arith
ignore_range-hypporam low (suc n) g i h =
    ignore_range-hypporam (suc low) n (ignore_address low g) i h ∙ ground arith

ignore_range-rest :
    (low n : ℕ) (g : Rig)
    → let g' = ignore_range low n g in
      (g'.machine ≡ g.machine)
      × (g'.expected.colourram ≡ g.expected.colourram)
      × (g'.expected.ffdram ≡ g.expected.ffdram)
unfolding ignore_range ignore_address
ignore_range-rest low zero g = (refl, refl, refl)
ignore_range-rest low (suc n) g = ignore_range-rest (suc low) n (ignore_address low g)

-- The changes from `low` to `high` can be ignored where `high` is below 2 ^ 31 - 1. Then exactly the
-- bytes of the chip RAM and of the hypervisor RAM at these addresses are expected to be what they are,
-- and the others as before, and the machine and the other expected memories are left alone.
pub ignore_ram_changes_lem :
    (low high : ℕ) (g : Rig) (i j : ℕ)
    → high < 2 ^ 31 - 1
    → i < chipram_size
    → j < hypporam_size
    → let s = g.machine.bus in
      let within = λ (a : ℕ). leb low a && leb a high in
      (g' : Rig) × (ignore_ram_changes low high g ≡ some g')
      × (g'.expected.chipram i ≡ (if within i then s.chipram i else g.expected.chipram i))
      × (g'.expected.hypporam j
          ≡ (if within (0xfff8000 + j) then s.hypporam j else g.expected.hypporam j))
      × (g'.machine ≡ g.machine)
      × (g'.expected.colourram ≡ g.expected.colourram)
      × (g'.expected.ffdram ≡ g.expected.ffdram)
unfolding ignore_ram_changes
ignore_ram_changes_lem low high g i j b h k = elim (Bool-cases (ltb high low)) [
  | inl empty ↦ (g, rw empty, ground arith, ground arith, refl, refl, refl)
  | inr some_left ↦
      let n = high + 1 - low in
      let small : ltb high (2 ^ 31 - 1) ≡ true = lt→ltb _ _ b in
      let (machine, colour, io) = ignore_range-rest low n g in
      (
        ignore_range low n g,
        rw (some_left, small),
        ignore_range-chipram low n g i h ∙ ground arith,
        ignore_range-hypporam low n g j k ∙ ground arith,
        machine,
        colour,
        io,
      )
]
