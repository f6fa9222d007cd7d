-- ===== src/Emulator/Run/Total.antt =====
-- Termination of the loop of `cpu_run` in src/tools/hyppotest.c, by the free entries of the log.
use mega65_core.Prelude.{
  ℕ, zero, suc, ◌+◌, ◌<◌, ◌≤◌, ◌≡◌, ◌≢◌, ◌⊎◌, inl, inr, refl, Bool, true, false, arith,
  if◌then◌else◌, ltb, ltb→lt, if_both, if_split, Option, none, some,
}
use mega65_core.Emulator.State.{Machine}
use mega65_core.Emulator.Memory.{DmaController}
use mega65_core.Emulator.Instructions.Flow.{Outcome}
use mega65_core.Emulator.Invariant.Parts.{StoresBytes}
use mega65_core.Emulator.Run.{
  Settings, max_log_length, end_of_round, round, run_loop, cpu_run, cpu_step, looped, fail_listing,
}
use mega65_core.Emulator.Run.Steps.{
  IsReady, HoldsBytes, cpu_step-IsReady, cpu_step-cpulog_len, cpu_step-Undone,
  cpulog_len-cpu_step-le,
}

end_of_round-goes_on :
    (o : Outcome) (m : Machine) → end_of_round o m ≡ none → o ≡ Outcome.returned true
unfolding end_of_round
end_of_round-goes_on Outcome.crashed m h = cc
end_of_round-goes_on Outcome.unfinished m h = cc
end_of_round-goes_on (Outcome.returned false) m h = cc
end_of_round-goes_on (Outcome.returned true) m h = refl

-- A round that is not the last one keeps the invariant, makes the log longer, and has not met the
-- termination condition.
abbrev pub Continues : Machine → Option (Outcome × Machine) × Machine → Type 0
Continues m r =
    r.0 ≡ none
    → (m.trace.cpulog_len < max_log_length)
      × IsReady r.1
      × (r.1.trace.cpulog_len ≡ suc m.trace.cpulog_len)
      × (r.1.bus.term.done ≡ false)

-- How a run from `start` stops: within the bound of the log, and with true only where the log is full,
-- or where `term.done` was set at the start and nothing has run.
abbrev pub Stopped : Machine → Outcome → Machine → Type 0
Stopped start o m =
    (m.trace.cpulog_len ≤ max_log_length)
    × ((o ≢ Outcome.returned true)
        ⊎ ((m.trace.cpulog_len ≡ max_log_length) ⊎ ((start.bus.term.done ≡ true) × (m ≡ start))))

abbrev pub Stops : Machine → Option (Outcome × Machine) → Type 0
Stops start none = Unit
Stops start (some (o, m)) = Stopped start o m

abbrev pub Ends : Machine → Option (Outcome × Machine) → Type 0
Ends start r = (o : Outcome) × (m : Machine) × (r ≡ some (o, m)) × Stopped start o m

-- After `cpu_step`, the loop does not end with true.
end_of_round-Stops :
    (start : Machine) (o : Outcome) (m : Machine)
    → m.trace.cpulog_len ≤ max_log_length
    → Stops start (end_of_round o m)
unfolding end_of_round
end_of_round-Stops start Outcome.crashed m h = (h, inl λ e. cc)
end_of_round-Stops start Outcome.unfinished m h = (h, inl λ e. cc)
end_of_round-Stops start (Outcome.returned false) m h = (h, inl λ e. cc)
end_of_round-Stops start (Outcome.returned true) m h =
    elim (looped m)
      as (λ (r : Option Bool). Stops start (elim r as (λ _. Option (Outcome × Machine)) [
        | none ↦ some (Outcome.crashed, m)
        | some stuck ↦ if stuck then some (Outcome.returned false, fail_listing m) else none
      ])) [ none ↦ (h, inl λ e. cc) | some stuck ↦ if_both (Stops start) stuck (h, inl λ e. cc) tt ]

-- A start that has not met the termination condition is as good as any.
Stopped-later :
    (start next : Machine) (o : Outcome) (m : Machine)
    → next.bus.term.done ≡ false
    → Stopped next o m
    → Stopped start o m
Stopped-later start next o m h (short, inl other) = (short, inl other)
Stopped-later start next o m h (short, inr (inl full)) = (short, inr (inl full))
Stopped-later start next o m h (short, inr (inr (done, same))) = absurd (cc)

ltb-false→le : (a b : ℕ) → ltb a b ≡ false → b ≤ a
ltb-false→le a b h = ground arith

ended_or_more :
    (start next : Machine) (r rest : Option (Outcome × Machine))
    → Stops start r
    → (r ≡ none → (next.bus.term.done ≡ false) × Ends next rest)
    → Ends start (elim r as (λ _. Option (Outcome × Machine)) [ some end ↦ some end | none ↦ rest ])
ended_or_more start next none rest s h =
    let (going, (o, m, e, stopped)) = h refl in
    (o, m, e, Stopped-later start next o m going stopped)
ended_or_more start next (some (o, m)) rest s h = (o, m, refl, s)

-- A round that is the last one stops the run as it should, and any other goes on as it should.
abbrev Round : Machine → Option (Outcome × Machine) × Machine → Type 0
Round m r = Stops m r.0 × Continues m r

module _ ⦃dma : DmaController⦄ (settings : Settings) (bytes : HoldsBytes settings)
    (stores : StoresBytes dma) where
  round-Round :
      (m : Machine) → IsReady m → m.trace.cpulog_len ≤ max_log_length → Round m (round settings m)
  unfolding round
  round-Round m v h =
      let step = cpu_step settings m in
      if_split (Round m) (ltb m.trace.cpulog_len max_log_length)
        (λ room.
          if_split (Round m) m.bus.term.done (λ done. ((h, inr (inr (done, refl))), λ e. cc))
            λ more. (
              end_of_round-Stops m step.0 step.1 (
                  omega (arith, ltb→lt _ _ room, cpulog_len-cpu_step-le settings bytes stores m v)),
              λ e.
                  let success = end_of_round-goes_on step.0 step.1 e in
                  (
                    ltb→lt _ _ room,
                    cpu_step-IsReady settings bytes stores m v,
                    cpu_step-cpulog_len settings bytes stores m v success,
                    cpu_step-Undone settings m success,
                  ),
            ))
        (λ full. ((h, inr (inl (omega (arith, ltb-false→le _ _ full)))), λ e. cc))

  -- With more fuel than there are free entries in the log, the loop does not run out of it.
  pub run_loop-Ends :
      (fuel : ℕ) (m : Machine)
      → IsReady m
      → m.trace.cpulog_len ≤ max_log_length
      → max_log_length < fuel + m.trace.cpulog_len
      → Ends m (run_loop settings fuel m)
  unfolding run_loop
  run_loop-Ends zero m v k h = absurd (omega arith)
  run_loop-Ends (suc fuel) m v k h =
      let (stops, goes_on) = round-Round m v k in
      let next = (round settings m).1 in
      ended_or_more m next (round settings m).0 (run_loop settings fuel next) stops λ e.
        let (room, ready, grown, going) = goes_on e in
        (going, run_loop-Ends fuel next ready (omega (arith, grown)) (omega (arith, grown)))

  pub cpu_run-Ends :
      (m : Machine)
      → IsReady m
      → m.trace.cpulog_len ≤ max_log_length
      → let start = record m { stack_overflow = false; stack_underflow = false } in
        (o : Outcome) × (m' : Machine) × (cpu_run settings m ≡ some (o, m'))
        × (m'.trace.cpulog_len ≤ max_log_length)
        × ((o ≢ Outcome.returned true)
            ⊎ ((m'.trace.cpulog_len ≡ max_log_length) ⊎ ((m.bus.term.done ≡ true) × (m' ≡ start))))
  unfolding cpu_run
  cpu_run-Ends m v h =
      let start = record m { stack_overflow = false; stack_underflow = false } in
      let (o, m', e, (short, why)) =
        run_loop-Ends (suc max_log_length) start
          (record {
            regs = v.regs;
            memory = v.memory;
            bytes = v.bytes;
            base = v.base;
            trace = v.trace;
          })
          h (omega arith) in
      (o, m', e, short, why)
