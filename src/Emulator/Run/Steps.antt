-- ===== src/Emulator/Run/Steps.antt =====
-- One `cpu_step` of src/tools/hyppotest.c: the invariant, the length of the log and the pointer to
-- the latest entry.
use mega65_core.Prelude.{
  ℕ, suc, ◌<◌, ◌≤◌, ◌≡◌, ◌≢◌, inl, inr, refl, ◌∙◌, ap, Bool, true, false, ◌&&◌, arith, if_both,
  if_split, Bool-cases, Option, none, some,
}
use mega65_core.Emulator.State.{Log, Bus, Trace, Machine}
use mega65_core.Emulator.Memory.{DmaController}
use mega65_core.Emulator.Instructions.Flow.{Outcome}
use mega65_core.Emulator.Execute.{execute_instruction}
use mega65_core.Emulator.Invariant.Parts.{IsValid, StoresBytes, with_bus}
use mega65_core.Emulator.Invariant.Whole.{execute_instruction-IsValid}
use mega65_core.Emulator.Run.{
  Settings, new_entry, add_entry, keep_entry, renew, compare_entries, note_at, note_address,
  check_stack, decided, after_execution, cpu_step, fail_listing, with_term, identical_cpustates,
}

-- The invariant of a machine between two instructions.
abbrev pub IsReady : Machine → Type 0
IsReady m = IsValid m.trace m

-- What `malloc` returns consists of bytes.
abbrev pub HoldsBytes : Settings → Type 0
HoldsBytes settings = (n i : ℕ) → (settings.fresh n).bytes i < 256

-- Ready, with the log as long as before.
abbrev IsAfter : Machine → Outcome × Machine → Type 0
IsAfter m r = IsReady r.1 × (r.1.trace.cpulog_len ≡ m.trace.cpulog_len)

fail_listing-IsReady : (m : Machine) → IsReady m → IsReady (fail_listing m)
fail_listing-IsReady m v = with_bus m _ v (record {
  chipram = v.memory.chipram;
  hypporam = v.memory.hypporam;
  colourram = v.memory.colourram;
  ffdram = v.memory.ffdram;
})

done-IsReady : (m : Machine) → IsReady m → IsReady (with_term (λ t. record t { done = true }) m)
done-IsReady m v = with_bus m _ v (record {
  chipram = v.memory.chipram;
  hypporam = v.memory.hypporam;
  colourram = v.memory.colourram;
  ffdram = v.memory.ffdram;
})

retrace : (m : Machine) (t : Trace) → IsReady m → IsReady (record m { trace = t })
retrace m t v = record {
  regs = v.regs;
  memory = v.memory;
  bytes = v.bytes;
  base = v.base;
  trace = refl;
}

mark :
    (m : Machine) (t : Trace)
    → IsReady m
    → IsReady (record m { log = record m.log { dup = 1 }; trace = t })
mark m t v = record {
  regs = v.regs;
  memory = v.memory;
  bytes = v.bytes;
  base = v.base;
  trace = refl;
}

renew-IsAfter : (m : Machine) → IsReady m → IsAfter m (renew m)
unfolding renew
renew-IsAfter m v = (retrace m _ v, refl)

compare_entries-IsAfter :
    (p : ℕ) (last : Option Log) (m : Machine) → IsReady m → IsAfter m (compare_entries p last m)
unfolding compare_entries
compare_entries-IsAfter p none m v = (v, refl)
compare_entries-IsAfter p (some last) m v =
    if_both (IsAfter m) (identical_cpustates last m.log) (mark m _ v, refl) (renew-IsAfter m v)

note_at-IsAfter : (p : Option ℕ) (m : Machine) → IsReady m → IsAfter m (note_at p m)
unfolding note_at
note_at-IsAfter none m v = renew-IsAfter m v
note_at-IsAfter (some p) m v = compare_entries-IsAfter p (m.trace.entries p) m v

calm :
    (m : Machine) (o u : Bool)
    → IsReady m
    → IsReady (record m { stack_overflow = o; stack_underflow = u })
calm m o u v = record {
  regs = v.regs;
  memory = v.memory;
  bytes = v.bytes;
  base = v.base;
  trace = v.trace;
}

counted :
    (m : Machine) (n : ℕ)
    → IsReady m
    → IsReady (record m { bus = record m.bus { instruction_count = n } })
counted m n v = with_bus m _ v (record {
  chipram = v.memory.chipram;
  hypporam = v.memory.hypporam;
  colourram = v.memory.colourram;
  ffdram = v.memory.ffdram;
})

note_address-IsAfter : (m : Machine) → IsReady m → IsAfter m (note_address m)
unfolding note_address
note_address-IsAfter m v = note_at-IsAfter (m.trace.lastataddr m.regs.pc) m v

check_stack-IsAfter : (s : Settings) (m : Machine) → IsReady m → IsAfter m (check_stack s m)
unfolding check_stack
check_stack-IsAfter s m v =
    if_both (IsAfter m) (m.stack_underflow && s.fail_on_stack_underflow)
      (fail_listing-IsReady m v, refl)
      (if_both (IsAfter m) (m.stack_overflow && s.fail_on_stack_overflow)
        (fail_listing-IsReady _ (calm m m.stack_overflow false v), refl)
        (note_address-IsAfter _ (counted _ _ (calm m false false v))))

after_execution-IsAfter :
    (s : Settings) (o : Outcome) (m : Machine) → IsReady m → IsAfter m (after_execution s o m)
unfolding after_execution
after_execution-IsAfter s Outcome.crashed m v = (v, refl)
after_execution-IsAfter s Outcome.unfinished m v = (v, refl)
after_execution-IsAfter s (Outcome.returned false) m v = (fail_listing-IsReady m v, refl)
after_execution-IsAfter s (Outcome.returned true) m v =
    if_both (IsAfter m) m.bus.term.done (v, refl) (check_stack-IsAfter s m v)

add_entry-IsReady :
    (s : Settings) (m : Machine) → HoldsBytes s → IsReady m → IsReady (add_entry s m)
unfolding add_entry new_entry
add_entry-IsReady s m h v = record {
  regs = v.regs;
  memory = record {
    chipram = v.memory.chipram;
    hypporam = v.memory.hypporam;
    colourram = v.memory.colourram;
    ffdram = v.memory.ffdram;
  };
  bytes = λ i. h m.trace.next_entry i;
  base = v.regs.b;
  trace = refl;
}

keep_entry-IsReady : {t : Trace} (m : Machine) → IsValid t m → IsReady (keep_entry m)
unfolding keep_entry
keep_entry-IsReady m v = record {
  regs = v.regs;
  memory = v.memory;
  bytes = v.bytes;
  base = v.base;
  trace = refl;
}

keep_entry-len : (m : Machine) → (keep_entry m).trace.cpulog_len ≡ m.trace.cpulog_len
unfolding keep_entry
keep_entry-len m = refl

add_entry-len :
    (s : Settings) (m : Machine) → (add_entry s m).trace.cpulog_len ≡ suc m.trace.cpulog_len
unfolding add_entry
add_entry-len s m = refl

-- `note_address` leaves a pointer at the program counter, where it returns.
compare_entries-latest :
    (p : ℕ) (last : Option Log) (m : Machine)
    → m.trace.lastataddr m.regs.pc ≡ some p
    → (compare_entries p last m).0 ≡ Outcome.returned true
    → (compare_entries p last m).1.trace.lastataddr (compare_entries p last m).1.regs.pc ≢ none
unfolding compare_entries renew
compare_entries-latest p none m e h = cc
compare_entries-latest p (some last) m e h = elim (Bool-cases (identical_cpustates last m.log)) [
  | inl same ↦ ground arith
  | inr other ↦ ground arith
]

note_at-latest :
    (p : Option ℕ) (m : Machine)
    → m.trace.lastataddr m.regs.pc ≡ p
    → (note_at p m).0 ≡ Outcome.returned true
    → (note_at p m).1.trace.lastataddr (note_at p m).1.regs.pc ≢ none
unfolding note_at renew
note_at-latest none m e h = ground arith
note_at-latest (some p) m e h = compare_entries-latest p (m.trace.entries p) m e h

-- What a step that returns true leaves behind.
abbrev Latest : Outcome × Machine → Type 0
Latest r = r.0 ≡ Outcome.returned true → r.1.trace.lastataddr r.1.regs.pc ≢ none

note_address-Latest : (m : Machine) → Latest (note_address m)
unfolding note_address
note_address-Latest m = note_at-latest (m.trace.lastataddr m.regs.pc) m refl

check_stack-Latest : (s : Settings) (m : Machine) → Latest (check_stack s m)
unfolding check_stack
check_stack-Latest s m =
    if_both Latest (m.stack_underflow && s.fail_on_stack_underflow) (λ e. cc)
      (if_both Latest (m.stack_overflow && s.fail_on_stack_overflow) (λ e. cc)
        (note_address-Latest _))

after_execution-Latest : (s : Settings) (o : Outcome) (m : Machine) → Latest (after_execution s o m)
unfolding after_execution
after_execution-Latest s Outcome.crashed m = λ e. cc
after_execution-Latest s Outcome.unfinished m = λ e. cc
after_execution-Latest s (Outcome.returned false) m = λ e. cc
after_execution-Latest s (Outcome.returned true) m =
    if_both Latest m.bus.term.done (λ e. cc) (check_stack-Latest s m)

-- A step that returns true has not met the termination condition.
abbrev Undone : Outcome × Machine → Type 0
Undone r = r.0 ≡ Outcome.returned true → r.1.bus.term.done ≡ false

compare_entries-bus :
    (p : ℕ) (last : Option Log) (m : Machine) → (compare_entries p last m).1.bus ≡ m.bus
unfolding compare_entries renew
compare_entries-bus p none m = refl
compare_entries-bus p (some last) m =
    if_both (λ (r : Outcome × Machine). r.1.bus ≡ m.bus) (identical_cpustates last m.log) refl refl

note_at-bus : (p : Option ℕ) (m : Machine) → (note_at p m).1.bus ≡ m.bus
unfolding note_at renew
note_at-bus none m = refl
note_at-bus (some p) m = compare_entries-bus p (m.trace.entries p) m

note_address-Undone : (m : Machine) → m.bus.term.done ≡ false → Undone (note_address m)
unfolding note_address
note_address-Undone m h =
    λ e. ap (λ (s : Bus). s.term.done) (note_at-bus (m.trace.lastataddr m.regs.pc) m) ∙ h

check_stack-Undone :
    (s : Settings) (m : Machine) → m.bus.term.done ≡ false → Undone (check_stack s m)
unfolding check_stack
check_stack-Undone s m h =
    if_both Undone (m.stack_underflow && s.fail_on_stack_underflow) (λ e. cc)
      (if_both Undone (m.stack_overflow && s.fail_on_stack_overflow) (λ e. cc)
        (note_address-Undone _ h))

after_execution-Undone : (s : Settings) (o : Outcome) (m : Machine) → Undone (after_execution s o m)
unfolding after_execution
after_execution-Undone s Outcome.crashed m = λ e. cc
after_execution-Undone s Outcome.unfinished m = λ e. cc
after_execution-Undone s (Outcome.returned false) m = λ e. cc
after_execution-Undone s (Outcome.returned true) m =
    if_split Undone m.bus.term.done (λ done e. cc) (λ going. check_stack-Undone s m going)

module _ ⦃dma : DmaController⦄ (settings : Settings) (m : Machine) where
  pub cpu_step-Undone :
      (cpu_step settings m).0 ≡ Outcome.returned true
      → (cpu_step settings m).1.bus.term.done ≡ false
  unfolding cpu_step
  cpu_step-Undone =
      let ran = execute_instruction (add_entry settings m) in
      if_both Undone (settings.breakpoints m.regs.pc) (λ e. cc)
        (after_execution-Undone settings (decided ran.0 ran.1) (keep_entry ran.1))

  -- After a step that returns true, the pointer in `lastataddr` that `cpu_run` follows next is not
  -- NULL.
  cpu_step-lastataddr :
      (cpu_step settings m).0 ≡ Outcome.returned true
      → let m' = (cpu_step settings m).1 in m'.trace.lastataddr m'.regs.pc ≢ none
  unfolding cpu_step
  cpu_step-lastataddr =
      let ran = execute_instruction (add_entry settings m) in
      if_both Latest (settings.breakpoints m.regs.pc) (λ e. cc)
        (after_execution-Latest settings (decided ran.0 ran.1) (keep_entry ran.1))

-- What a step does to the length of the log.
abbrev Grows : Machine → Outcome × Machine → Type 0
Grows m r =
    IsReady r.1
    × (r.0 ≡ Outcome.returned true → r.1.trace.cpulog_len ≡ suc m.trace.cpulog_len)
    × (r.1.trace.cpulog_len ≤ suc m.trace.cpulog_len)

module _ ⦃dma : DmaController⦄ (settings : Settings) (bytes : HoldsBytes settings)
    (stores : StoresBytes dma) where
  -- Both of the theorems below, on the branches of a step.
  cpu_step-Grows : (m : Machine) → IsReady m → Grows m (cpu_step settings m)
  unfolding cpu_step
  cpu_step-Grows m v =
      let before = add_entry settings m in
      let ran = execute_instruction-IsValid stores before (add_entry-IsReady settings m bytes v) in
      let after =
        after_execution-IsAfter settings
          (decided (execute_instruction before).0 (execute_instruction before).1)
          (keep_entry (execute_instruction before).1) (keep_entry-IsReady _ ran) in
      let grown =
        after.1
        ∙ keep_entry-len (execute_instruction before).1
        ∙ ap (λ (t : Trace). t.cpulog_len) ran.trace
        ∙ add_entry-len settings m in
      if_both (Grows m) (settings.breakpoints m.regs.pc) (done-IsReady m v, λ e. cc, omega arith)
        (after.0, λ _. grown, omega (arith, grown))

  -- A step keeps the invariant, whatever instruction it runs and whatever it returns, where fresh
  -- entries of the log and what the DMA controller stores are bytes.
  pub cpu_step-IsReady : (m : Machine) → IsReady m → IsReady (cpu_step settings m).1
  cpu_step-IsReady m v = (cpu_step-Grows m v).0

  pub cpu_step-cpulog_len :
      (m : Machine)
      → IsReady m
      → (cpu_step settings m).0 ≡ Outcome.returned true
      → (cpu_step settings m).1.trace.cpulog_len ≡ suc m.trace.cpulog_len
  cpu_step-cpulog_len m v = (cpu_step-Grows m v).1

  pub cpulog_len-cpu_step-le :
      (m : Machine) → IsReady m → (cpu_step settings m).1.trace.cpulog_len ≤ suc m.trace.cpulog_len
  cpulog_len-cpu_step-le m v = (cpu_step-Grows m v).2
