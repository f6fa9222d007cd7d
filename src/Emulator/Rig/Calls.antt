-- ===== src/Emulator/Rig/Calls.antt =====
-- `cpu_log_reset`, `cpu_stash_ram` and `cpu_call_routine` of src/tools/hyppotest.c.
use mega65_core.Prelude.{
  ℕ, zero, suc, ◌<◌, ◌≤◌, ◌≡◌, ◌≢◌, refl, ap, sym, ◌∙◌, inl, inr, ◌⊎◌, if_split, Bool, true, false,
  ◌&&◌, ◌==◌, leb, ltb, if◌then◌else◌, store, arith, Option, none, some,
}
use mega65_core.Emulator.State.{Regs, Log, Trace, Machine, Fate, reach}
use mega65_core.Emulator.Memory.{DmaController, addr_to_28bit, memory_blame}
use mega65_core.Emulator.Instructions.Flow.{Outcome}
use mega65_core.Emulator.Invariant.Parts.{RegsFit, StoresBytes, translated-fits}
use mega65_core.Emulator.Run.{Settings, max_log_length, fail, cpu_run}
use mega65_core.Emulator.Run.Steps.{IsReady, HoldsBytes}
use mega65_core.Emulator.Run.Total.{cpu_run-Ends}
use mega65_core.Emulator.Rig.{Expected, Rig}

-- `free`; the first entry of the log can be NULL.
unfoldable pub free_entry : Option ℕ → (ℕ → Option Log) → ℕ → Option Log
free_entry none entries = entries
free_entry (some p) entries = store entries p none

-- The loop over the first `n` entries of the log.
unfoldable pub free_entries : ℕ → Trace → ℕ → Option Log
unfolding free_entry
free_entries zero t = t.entries
free_entries (suc n) t = free_entry (t.cpulog n) (free_entries n t)

-- `lastataddr` is left as it is.
unfoldable pub cpu_log_reset : Trace → Trace
unfolding free_entries
cpu_log_reset t = record t {
  entries = free_entries t.cpulog_len t;
  cpulog_len = 1;
  cpulog = store t.cpulog 0 none;
}

unfoldable pub cpu_stash_ram : Rig → Rig
cpu_stash_ram g =
    let s = g.machine.bus in
    record g { expected = record g.expected { chipram = s.chipram; hypporam = s.hypporam } }

-- The stack, the base page and the mode for a routine in the hypervisor or outside it.
unfoldable pub call_regs : ℕ → Regs → Regs
call_regs addr r =
    if leb 0x8000 addr && ltb addr 0xc000
    then record r { spl = 0xff; b = 0xbf; sph = 0xbe; in_hyper = 1 }
    else record r { spl = 0xff; b = 0x00; sph = 0x01; in_hyper = 0 }

-- Up to the start of the routine. The message asks for the label of its address, and with it for
-- `addr_to_28bit`.
unfoldable pub prepare_call : ℕ → Rig → Rig
unfolding call_regs cpu_stash_ram cpu_log_reset
prepare_call addr g =
    let m = g.machine in
    let r = call_regs addr m.regs in
    let s = (addr_to_28bit r m.bus addr true).1 in
    let stashed = cpu_stash_ram (record g { machine = record m { regs = r; bus = s } }) in
    record {
      machine = record m { regs = record r { pc = addr }; bus = s; trace = cpu_log_reset m.trace };
      expected = record stashed.expected { regs = r };
    }

-- The tests after a run that returned true. On BRK the latest instructions are
-- listed, and those that led to its being written.
unfoldable pub judge_call : Machine → Bool × Machine
judge_call m =
    if m.trace.cpulog_len == max_log_length
    then (false, fail m)
    else if m.bus.term.brk
    then (false, (memory_blame m.regs.pc (record m { bus = reach Fate.lists m.bus })).1)
    else (true, m)

unfoldable pub end_call : Expected → Outcome × Machine → Outcome × Rig
unfolding judge_call
end_call e (Outcome.returned true, m) =
    (Outcome.returned (judge_call m).0, record { machine = (judge_call m).1; expected = e })
end_call e (o, m) = (o, record { machine = m; expected = e })

unfoldable pub finish_call : Expected → Option (Outcome × Machine) → Option (Outcome × Rig)
unfolding end_call
finish_call e none = none
finish_call e (some r) = some (end_call e r)

call_regs-RegsFit :
    (addr : ℕ) (r : Regs)
    → addr < 65536
    → RegsFit r
    → RegsFit (record (call_regs addr r) { pc = addr })
unfolding call_regs
call_regs-RegsFit addr r h v = ground arith

prepare_call-IsReady :
    (addr : ℕ) (g : Rig) → addr < 65536 → IsReady g.machine → IsReady (prepare_call addr g).machine
unfolding prepare_call
prepare_call-IsReady addr g h v = record {
  regs = call_regs-RegsFit addr g.machine.regs h v.regs;
  memory = translated-fits (call_regs addr g.machine.regs) g.machine.bus addr true v.memory;
  bytes = v.bytes;
  base = v.base;
  trace = refl;
}

prepare_call-len :
    (addr : ℕ) (g : Rig) → (prepare_call addr g).machine.trace.cpulog_len ≤ max_log_length
unfolding prepare_call cpu_log_reset
prepare_call-len addr g = omega arith

prepare_call-keeps :
    (addr : ℕ) (g : Rig)
    → addr < 65536
    → let p = prepare_call addr g in
      (p.expected.chipram ≡ g.machine.bus.chipram)
      × (p.expected.hypporam ≡ g.machine.bus.hypporam)
      × (p.machine.bus.term.done ≡ g.machine.bus.term.done)
      × (p.machine.regs.pc ≡ addr)
      × (p.machine.trace.cpulog_len ≡ 1)
unfolding prepare_call cpu_stash_ram cpu_log_reset addr_to_28bit
prepare_call-keeps addr g h = (ground arith, ground arith, ground arith, refl, refl)

-- A run is judged a success only where it has not filled the log and has not met a BRK.
abbrev Judged : Machine → Bool × Machine → Type 0
Judged m r =
    r.0 ≡ true
    → (r.1 ≡ m) × ((m.trace.cpulog_len == max_log_length) ≡ false) × (m.bus.term.brk ≡ false)

judge_call-Judged : (m : Machine) → Judged m (judge_call m)
unfolding judge_call
judge_call-Judged m =
    if_split (Judged m) (m.trace.cpulog_len == max_log_length) (λ full e. cc)
      (λ room. if_split (Judged m) m.bus.term.brk (λ brk e. cc) (λ quiet e. (refl, room, quiet)))

outcome : Option (Outcome × Rig) → Bool
outcome (some (Outcome.returned b, g)) = b
outcome r = false

rig_of : Rig → Option (Outcome × Rig) → Rig
rig_of d none = d
rig_of d (some (o, g)) = g

neq_of_test : (a b : ℕ) → (a == b) ≡ false → a ≢ b
neq_of_test a b h = ground arith

-- Of the three ways in which a run can stop, the one that is left.
left_over : {A B C : Type 0} → A → ¬ B → (¬ A) ⊎ (B ⊎ C) → C
left_over a b (inl na) = absurd (na a)
left_over a b (inr (inl k)) = absurd (b k)
left_over a b (inr (inr c)) = c

-- What a call that returns true comes from.
finish_call-true :
    (e : Expected) (o : Outcome) (m : Machine) (g : Rig)
    → finish_call e (some (o, m)) ≡ some (Outcome.returned true, g)
    → (o ≡ Outcome.returned true)
      × ((judge_call m).0 ≡ true)
      × (g ≡ record { machine = (judge_call m).1; expected = e })
unfolding finish_call end_call outcome rig_of
finish_call-true e Outcome.crashed m g h = cc
finish_call-true e Outcome.unfinished m g h = cc
finish_call-true e (Outcome.returned false) m g h = cc
finish_call-true e (Outcome.returned true) m g h = (refl, ap outcome h, sym (ap (rig_of g) h))

module _ ⦃dma : DmaController⦄ (settings : Settings) where
  unfoldable pub cpu_call_routine : ℕ → Rig → Option (Outcome × Rig)
  unfolding prepare_call finish_call
  cpu_call_routine addr g =
      let prepared = prepare_call addr g in
      finish_call prepared.expected (cpu_run settings prepared.machine)

  -- The call of a routine at a 16-bit address, from a machine that keeps the invariant, returns true
  -- only where `term.done` was set before it, and then no instruction of the routine has run: the
  -- program counter is at its first. The chip RAM and the hypervisor RAM are then expected to be
  -- as they were before the call. So no call that runs a routine returns true. Fresh
  -- entries of the log and what the DMA controller stores are bytes.
  pub cpu_call_routine-true :
      HoldsBytes settings
      → StoresBytes dma
      → (addr : ℕ) (g g' : Rig) → addr < 65536
      → IsReady g.machine
      → cpu_call_routine addr g ≡ some (Outcome.returned true, g')
      → (g.machine.bus.term.done ≡ true)
        × (g'.machine.regs.pc ≡ addr)
        × (g'.machine.trace.cpulog_len ≡ 1)
        × (g'.machine.bus.term.brk ≡ false)
        × (g'.expected.chipram ≡ g.machine.bus.chipram)
        × (g'.expected.hypporam ≡ g.machine.bus.hypporam)
  unfolding cpu_call_routine
  cpu_call_routine-true bytes stores addr g g' h v returns =
      let prepared = prepare_call addr g in
      let (o, m, run, short, why) =
        cpu_run-Ends settings bytes stores prepared.machine (prepare_call-IsReady addr g h v)
          (prepare_call-len addr g) in
      let (success, passed, whole) =
        finish_call-true prepared.expected o m g' (rw run at returns) in
      let (same, room, quiet) = judge_call-Judged m passed in
      let (done, idle) = left_over success (neq_of_test _ _ room) why in
      let (chip, hyppo, was_done, pc, len) = prepare_call-keeps addr g h in
      let machine = ap (λ (k : Rig). k.machine) whole ∙ same in
      let expected = ap (λ (k : Rig). k.expected) whole in
      (
        sym was_done ∙ done,
        ap (λ (n : Machine). n.regs.pc) (machine ∙ idle) ∙ pc,
        ap (λ (n : Machine). n.trace.cpulog_len) (machine ∙ idle) ∙ len,
        ap (λ (n : Machine). n.bus.term.brk) machine ∙ quiet,
        ap (λ (x : Expected). x.chipram) expected ∙ chip,
        ap (λ (x : Expected). x.hypporam) expected ∙ hyppo,
      )
