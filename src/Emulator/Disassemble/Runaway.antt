-- ===== src/Emulator/Disassemble/Runaway.antt =====
-- `show_recent_instructions` of src/tools/hyppotest.c on a log whose newest entry stems from above
-- $FFFF: the label of that address makes `addr_to_28bit` list the newest entries again.
use mega65_core.Prelude.{
  ℕ, zero, suc, ◌+◌, ◌-◌, ◌≤◌, ◌<◌, ◌≡◌, refl, sym, ap, ◌∙◌, ◌⊎◌, inl, inr, arith, Bool, true,
  false, ◌&&◌, not, ◌==◌, ==_iff, some, ltb, leb, Bool-cases, if◌then◌else◌,
}
use mega65_core.Emulator.State.{Log, Machine, Trace}
use mathlib.Core.Path.{subst}
use mega65_core.Emulator.Memory.{addr_to_28bit}
use mega65_core.Emulator.Instructions.Flow.{entry_at}
use mega65_core.Emulator.Describe.{SymbolList}
use mega65_core.Emulator.Disassemble.Listing.{
  Shown, shown, unreadable_entry, too_deep, ◌>>=◌, cpulog_entry, disassemble_instruction,
}
use mega65_core.Emulator.Disassemble.Depth.{Shows}
use mega65_core.Emulator.Disassemble.Recent.{
  Row, at_index, back_by, show_entry, show_entries, show_recent_instructions,
}

Shown-cases {ℓ} : {A : Type ℓ} (r : Shown A) → Shows r ⊎ ((r ≡ unreadable_entry) ⊎ (r ≡ too_deep))
Shown-cases (shown a) = inl (a, refl)
Shown-cases unreadable_entry = inr (inl refl)
Shown-cases too_deep = inr (inr refl)

-- What comes after a step that may fail fails if it does so for every result of the step.
fails-bind {ℓ κ} :
    {A : Type ℓ} {B : Type κ} (r : Shown A) (f : A → Shown B)
    → ((a : A) → r ≡ shown a → ¬ Shows (f a))
    → ¬ Shows (r >>= f)
fails-bind r f h = elim (Shown-cases r) [
  | inl (a, e) ↦ rw e (h a e)
  | inr (inl e) ↦ rw e (λ s. cc (s.1))
  | inr (inr e) ↦ rw e (λ s. cc (s.1))
]

-- A step that fails itself.
fails-first {ℓ κ} :
    {A : Type ℓ} {B : Type κ} (r : Shown A) (f : A → Shown B) → ¬ Shows r → ¬ Shows (r >>= f)
fails-first r f h = fails-bind r f (λ a e s. h (a, e))

-- Every result satisfies `P`.
abbrev Always {ℓ κ} : {A : Type ℓ} → (A → Type κ) → Shown A → Type κ
Always P (shown a) = P a
Always P unreadable_entry = Unit
Always P too_deep = Unit

Always-bind {ℓ κ ℓ'} :
    {A : Type ℓ} {B : Type κ} (P : B → Type ℓ') (r : Shown A) (f : A → Shown B)
    → ((a : A) → Always P (f a))
    → Always P (r >>= f)
Always-bind P (shown a) f h = h a
Always-bind P unreadable_entry f h = tt
Always-bind P too_deep f h = tt

back_by_six : (j : ℕ) → 5 < j → back_by (suc j) 6 ≡ at_index (suc (j - 6))
back_by_six j h =
    let enough : leb 6 (suc j) ≡ true = ground arith in rw enough (ap at_index (omega arith))

cpulog_entry-some :
    (m : Machine) (j : ℕ) (log : Log)
    → entry_at m.trace (m.trace.cpulog j) ≡ some log
    → cpulog_entry m j ≡ shown log
unfolding cpulog_entry
cpulog_entry-some m j log h = ground (arith, h)

newest_entry :
    (t : Trace) (m : Machine) (j : ℕ) (log : Log)
    → m.trace ≡ t
    → entry_at t (t.cpulog j) ≡ some log
    → cpulog_entry m j ≡ shown log
newest_entry t m j log e here =
    cpulog_entry-some m j log (subst (λ r. entry_at r (r.cpulog j) ≡ some log) (sym e) here)

module _ (hyppo : SymbolList) (t : Trace) (complain : Machine → Shown (Unit {0})) (depth : ℕ)
    (fails : (m : Machine) → m.trace ≡ t → ¬ Shows (complain m)) where
  show_entry_high :
      (m : Machine) (i : ℕ) (log : Log)
      → m.trace ≡ t
      → 0xffff < log.regs.pc
      → ¬ Shows (show_entry complain depth hyppo m i log)
  unfolding show_entry
  show_entry_high m i log e high =
      let above : ltb 0xffff log.regs.pc ≡ true = ground arith in
      rw above (fails-first (complain m) _ (fails m e))

  show_entry_trace :
      (m m' : Machine) (i : ℕ) (log : Log) (row : Row)
      → show_entry complain depth hyppo m i log ≡ shown (row, m')
      → m'.trace ≡ m.trace
  unfolding show_entry
  show_entry_trace m m' i log row e =
      let m1 = record m { bus = (addr_to_28bit m.regs m.bus log.regs.pc false).1 } in
      let keeps : Always (λ p. p.1.trace ≡ m.trace) (show_entry complain depth hyppo m i log) =
        Always-bind _ (if ltb 0xffff log.regs.pc then complain m else shown tt) _
          (λ _. Always-bind _ (disassemble_instruction complain depth m1 log) _ (λ text. refl)) in
      subst (Always (λ p. p.1.trace ≡ m.trace)) e keeps

  -- The entry at `i` is the high one.
  show_entries_here :
      (first left i : ℕ) (was_dup : Bool) (m : Machine) (log : Log)
      → m.trace ≡ t
      → 0 < i
      → i < m.trace.cpulog_len
      → cpulog_entry m i ≡ shown log
      → log.dup ≡ 0
      → 0xffff < log.regs.pc
      → ¬ Shows (show_entries complain depth hyppo first (suc left) i was_dup m)
  unfolding show_entries
  show_entries_here first left i was m log e pos lt here fresh high =
      let inside : leb m.trace.cpulog_len i ≡ false = ground arith in
      let later : (i == 0) ≡ false = ground arith in
      let kept : (not (log.dup == 0) && ltb first i) ≡ false = ground (arith, fresh) in
      rw inside (
        rw later (
          rw here (
            rw kept (
              fails-first (show_entry complain depth hyppo m i log) _
                (show_entry_high m i log e high)))))

  -- It comes after the entry at `i`.
  show_entries_before :
      (first left i : ℕ) (was_dup : Bool) (m : Machine)
      → i < m.trace.cpulog_len
      → ((was : Bool) (m' : Machine)
          → m'.trace ≡ m.trace
          → ¬ Shows (show_entries complain depth hyppo first left (suc i) was m'))
      → ¬ Shows (show_entries complain depth hyppo first (suc left) i was_dup m)
  unfolding show_entries
  show_entries_before first left i was m lt rest =
      let inside : leb m.trace.cpulog_len i ≡ false = ground arith in
      rw inside (elim (Bool-cases (i == 0)) [
        | inl reset ↦ rw reset (
            fails-first (show_entries complain depth hyppo first left (suc i) was m) _
              (rest was m refl))
        | inr later ↦ rw later (
            fails-bind (cpulog_entry m i) _ (λ log e.
              elim (Bool-cases (not (log.dup == 0) && ltb first i)) [
                | inl skip ↦ rw skip (
                    fails-first (show_entries complain depth hyppo first left (suc i) true m) _
                      (rest true m refl))
                | inr keep ↦ rw keep (
                    fails-bind (show_entry complain depth hyppo m i log) _ (λ p e'.
                      fails-first (show_entries complain depth hyppo first left (suc i) false p.1) _
                        (rest false p.1 (show_entry_trace m p.1 i log p.0 e'))))
              ]))
      ])

  -- `j` is the newest entry, and among the `left` from `i` on.
  show_entries_high :
      (first j : ℕ) (log : Log)
      → t.cpulog_len ≡ suc j
      → 0 < j
      → log.dup ≡ 0
      → 0xffff < log.regs.pc
      → (left i : ℕ) (was_dup : Bool) (m : Machine) → m.trace ≡ t
      → entry_at t (t.cpulog j) ≡ some log
      → i ≤ j
      → j < i + left
      → ¬ Shows (show_entries complain depth hyppo first left i was_dup m)
  show_entries_high first j log len pos fresh high zero i was m e here le lt = absurd (omega arith)
  show_entries_high first j log len pos fresh high (suc left) i was m e here le lt =
      let more : i < m.trace.cpulog_len = omega (arith, len, ap (λ r. r.cpulog_len) e) in
      elim (Bool-cases (i == j)) [
        | inl same ↦
            let here_now = newest_entry t m j log e here in
            show_entries_here first left i was m log e (ground arith) more
              (subst (λ k. cpulog_entry m k ≡ shown log) (sym ((==_iff i j).0 same)) here_now) fresh
              high
        | inr before ↦ show_entries_before first left i was m more (λ was' m' e'.
            show_entries_high first j log len pos fresh high left (suc i) was' m' (e' ∙ e) here
              (ground arith) (omega arith))
      ]

-- Where the log has more than six entries, and the newest has a program counter above $FFFF and is
-- not marked as a duplicate, the listing of the six newest entries never has a result, to any depth
-- and for any machine with this log.
pub show_recent_instructions_endless :
    (hyppo : SymbolList) (t : Trace) (j : ℕ) (log : Log)
    → t.cpulog_len ≡ suc j
    → 5 < j
    → entry_at t (t.cpulog j) ≡ some log
    → log.dup ≡ 0
    → 0xffff < log.regs.pc
    → (depth : ℕ) (m : Machine) → m.trace ≡ t
    → ¬ Shows (show_recent_instructions depth hyppo (back_by t.cpulog_len 6) 6 m)
unfolding show_recent_instructions
show_recent_instructions_endless hyppo t j log len large here fresh high zero m e = λ s. cc (s.1)
show_recent_instructions_endless hyppo t j log len large here fresh high (suc depth) m e =
    let ih = show_recent_instructions_endless hyppo t j log len large here fresh high depth in
    let first : back_by t.cpulog_len 6 ≡ at_index (suc (j - 6)) = rw len (back_by_six j large) in
    rw first (
      show_entries_high hyppo t _ depth
        (λ m' e'.
          fails-first (show_recent_instructions depth hyppo (back_by m'.trace.cpulog_len 6) 6 m') _
            (subst
              (λ r. ¬ Shows (show_recent_instructions depth hyppo (back_by r.cpulog_len 6) 6 m'))
              (sym e') (ih m' e')))
        (suc (j - 6)) j log len (omega arith) fresh high 6 (suc (j - 6)) false m e here
        (omega arith) (omega arith))
