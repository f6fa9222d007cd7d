-- ===== src/Emulator/Dma/Bytes.antt =====
-- `do_dma` of src/tools/hyppotest.c on bytes, and as the controller of the memory functions.
use mega65_core.Prelude.{
  ℕ, zero, suc, ◌+◌, ◌/◌, ◌%◌, ◌≡◌, refl, Bool, true, false, not, leb, ◌==◌, if◌then◌else◌, arith,
  word32, if_both, Option, none, some,
}
use mega65_core.Emulator.State.{Bus, Symbols, Fate, reach}
use mega65_core.Emulator.Memory.{DmaController, read_memory28}
use mega65_core.Emulator.Invariant.Parts.{
  MemoryFits, StoresBytes, write_cell-fits, read_cell-lt, set_error-fits, reach-fits,
}
use mega65_core.Emulator.Dma.Options.{
  keep_option, job_option, take_option, read_options, Line, Job, first_job, next_job,
}
use mega65_core.Emulator.Dma.DmaList.{Request, read_list}
use mega65_core.Emulator.Dma.{
  Progress, going, returned, crashed, unfinished, ◌>>=◌, given, keep_copied, Transfer, place_source,
  place_destination, move_source, move_destination, operate, move_byte, transfer_bytes,
  move_symbols, run_job, read_job, run_jobs, do_dma,
}

-- What a part of a job leaves: `P` of a value that goes on, and bytes in memory where it returns.
-- `E` is what is known where the fuel runs out.
abbrev pub Keeps {ℓ} : {A : Type ℓ} → Type 0 → (A → Type 0) → Progress A → Type 0
Keeps E P (going a) = P a
Keeps E P (returned s) = MemoryFits s
Keeps E P crashed = Unit
Keeps E P unfinished = E

Keeps-bind {ℓ κ} :
    {A : Type ℓ} {B : Type κ} (E F : Type 0) (P : A → Type 0) (Q : B → Type 0) (r : Progress A)
    (f : A → Progress B)
    → (E → F)
    → Keeps E P r
    → ((a : A) → P a → Keeps F Q (f a))
    → Keeps F Q (r >>= f)
Keeps-bind E F P Q (going a) f w h k = k a h
Keeps-bind E F P Q (returned s) f w h k = h
Keeps-bind E F P Q crashed f w h k = tt
Keeps-bind E F P Q unfinished f w h k = w h

abbrev Fits : Transfer → Type 0
Fits t = MemoryFits t.bus

place_source-Keeps :
    (t : Transfer) (r : Option (Line × ℕ)) → Fits t → Keeps ⊥ Fits (place_source t r)
unfolding place_source
place_source-Keeps t none h = tt
place_source-Keeps t (some (l, addr)) h = h

place_destination-Keeps :
    (t : Transfer) (r : Option (Line × ℕ)) → Fits t → Keeps ⊥ Fits (place_destination t r)
unfolding place_destination
place_destination-Keeps t none h = tt
place_destination-Keeps t (some (l, addr)) h = h

move_source-Keeps : (q : Request) (t : Transfer) → Fits t → Keeps ⊥ Fits (move_source q t)
unfolding move_source
move_source-Keeps q t h =
    if_both (Keeps ⊥ Fits) (not t.job.s_line.mode) h (place_source-Keeps t _ h)

move_destination-Keeps : (q : Request) (t : Transfer) → Fits t → Keeps ⊥ Fits (move_destination q t)
unfolding move_destination
move_destination-Keeps q t h =
    if_both (Keeps ⊥ Fits) t.job.spiral_mode h
      (if_both (Keeps ⊥ Fits) (not t.job.line.mode) h (place_destination-Keeps t _ h))

same_memory :
    (s s' : Bus)
    → MemoryFits s
    → s'.chipram ≡ s.chipram
    → s'.hypporam ≡ s.hypporam
    → s'.colourram ≡ s.colourram
    → s'.ffdram ≡ s.ffdram
    → MemoryFits s'
same_memory s s' h c y k f = record {
  chipram = λ i. rw c (h.chipram i);
  hypporam = λ i. rw y (h.hypporam i);
  colourram = λ i. rw k (h.colourram i);
  ffdram = λ i. rw f (h.ffdram i);
}

keep_copied-Keeps :
    (enough : Bool) (t : Symbols) (s : Bus)
    → MemoryFits s
    → Keeps ⊥ MemoryFits (keep_copied enough t s)
unfolding keep_copied
keep_copied-Keeps true t s h = same_memory s _ h refl refl refl refl
keep_copied-Keeps false t s h = same_memory s _ h refl refl refl refl

move_symbols-Keeps : (q : Request) (s : Bus) → MemoryFits s → Keeps ⊥ MemoryFits (move_symbols q s)
unfolding move_symbols
move_symbols-Keeps q s h =
    if_both (Keeps ⊥ MemoryFits) (q.dma_cmd % 4 == 0) (keep_copied-Keeps _ _ s h)
      (if_both (Keeps ⊥ MemoryFits) (q.dma_cmd % 4 == 3) (same_memory s _ h refl refl refl refl) h)

-- What the options leave.
abbrev JobFits : ℕ × Job × Bus → Type 0
JobFits r = MemoryFits r.2

keep_option-fits :
    (r : Option Job) (j : Job) (s : Bus) → MemoryFits s → MemoryFits (keep_option r (j, s)).1
unfolding keep_option
keep_option-fits (some j') j s h = h
keep_option-fits none j s h = set_error-fits s h

take_option-fits :
    (option arg : ℕ) (r : Job × Bus) → MemoryFits r.1 → MemoryFits (take_option option arg r).1
unfolding take_option
take_option-fits option arg (j, s) h = keep_option-fits (job_option option arg j) j s h

abbrev ReadFits : Option (ℕ × Job × Bus) → Type 0
ReadFits none = Unit
ReadFits (some r) = JobFits r

read_options-fits :
    (fuel addr : ℕ) (r : Job × Bus) → MemoryFits r.1 → ReadFits (read_options fuel addr r)
unfolding read_options
read_options-fits zero addr (j, s) h = tt
read_options-fits (suc fuel) addr (j, s) h =
    let option = read_memory28 s addr in
    let arg = if leb 0x80 option then read_memory28 s (word32 (addr + 1)) else 0 in
    if_both ReadFits (option == 0) h
      (read_options-fits fuel _ _ (take_option-fits option arg (j, s) h))

given-Keeps : (r : Option (ℕ × Job × Bus)) → ReadFits r → Keeps Unit JobFits (given r)
unfolding given
given-Keeps none h = tt
given-Keeps (some r) h = h

module _ ⦃dma : DmaController⦄ (stores : StoresBytes dma) where
  operate-Keeps : (q : Request) (t : Transfer) → Fits t → Keeps ⊥ Fits (operate q t)
  unfolding operate read_memory28
  operate-Keeps q t h =
      if_both (Keeps ⊥ Fits) (q.dma_cmd % 4 == 0)
        (write_cell-fits stores _ _ t.bus h (read_cell-lt t.bus _ h))
        (if_both (Keeps ⊥ Fits) (q.dma_cmd % 4 == 3)
          (write_cell-fits stores _ _ t.bus h (omega arith))
          (same_memory t.bus _ h refl refl refl refl))

  move_byte-Keeps : (q : Request) (t : Transfer) → Fits t → Keeps ⊥ Fits (move_byte q t)
  unfolding move_byte
  move_byte-Keeps q t h =
      Keeps-bind ⊥ ⊥ Fits Fits (operate q t) _ (λ e. e) (operate-Keeps q t h)
        λ t1 h1.
          Keeps-bind ⊥ ⊥ Fits Fits (move_source q t1) _ (λ e. e) (move_source-Keeps q t1 h1)
            (move_destination-Keeps q)

  transfer_bytes-Keeps :
      (n : ℕ) (q : Request) (t : Transfer) → Fits t → Keeps ⊥ Fits (transfer_bytes n q t)
  unfolding transfer_bytes
  transfer_bytes-Keeps zero q t h = h
  transfer_bytes-Keeps (suc n) q t h =
      Keeps-bind ⊥ ⊥ Fits Fits (move_byte q t) _ (λ e. e) (move_byte-Keeps q t h)
        (transfer_bytes-Keeps n q)

  run_job-Keeps : (q : Request) (j : Job) (s : Bus) → MemoryFits s → Keeps ⊥ Fits (run_job q j s)
  unfolding run_job
  run_job-Keeps q j s h =
      Keeps-bind ⊥ ⊥ MemoryFits Fits (move_symbols q s) _ (λ e. e) (move_symbols-Keeps q s h)
        λ s' h'. transfer_bytes-Keeps q.dma_count q _ h'

  read_job-Keeps :
      (fuel : ℕ) (e : Bool) (addr : ℕ) (j : Job) (s : Bus)
      → MemoryFits s
      → Keeps Unit JobFits (read_job fuel e addr j s)
  unfolding read_job
  read_job-Keeps fuel e addr j s h =
      if_both (Keeps Unit JobFits) e (given-Keeps _ (read_options-fits fuel addr (next_job j, s) h))
        h

  run_jobs-Keeps :
      (fuel : ℕ) (e : Bool) (addr : ℕ) (j : Job) (s : Bus)
      → MemoryFits s
      → Keeps Unit MemoryFits (run_jobs fuel e addr j s)
  unfolding run_jobs
  run_jobs-Keeps zero e addr j s h = tt
  run_jobs-Keeps (suc fuel) e addr j s h =
      Keeps-bind Unit Unit JobFits MemoryFits (read_job (suc fuel) e addr j s) _ (λ u. u)
        (read_job-Keeps (suc fuel) e addr j s h)
        λ (list, j', s') h'.
          (let q = read_list list j' s' in
            Keeps-bind ⊥ Unit Fits MemoryFits (run_job q j' s') _ (λ (u : ⊥). absurd u)
              (run_job-Keeps q j' s' h')
              λ t k.
                if_both (Keeps Unit MemoryFits) (q.dma_cmd / 4 % 2 == 0) k
                  (run_jobs-Keeps fuel e q.after t.job t.bus k))

  -- Where a job returns, memory holds bytes, whatever its list says, if it did so before and the jobs
  -- that its own writes start store bytes.
  pub do_dma-Keeps :
      (fuel : ℕ) (e : Bool) (addr : ℕ) (s : Bus)
      → MemoryFits s
      → Keeps Unit MemoryFits (do_dma fuel e addr s)
  unfolding do_dma
  do_dma-Keeps fuel e addr s h = run_jobs-Keeps fuel e addr first_job s h

-- What a job leaves. Where it does not return, that is the bus as it was, marked with why: nothing is
-- said of what the job has written.
unfoldable pub settle : Bus → Progress Bus → Bus
settle s (going s') = s'
settle s (returned s') = s'
settle s crashed = reach Fate.crashed s
settle s unfinished = reach Fate.unfinished s

-- `do_dma` as the controller of the memory functions, where jobs start further jobs to a depth. A job
-- that would be deeper is unfinished, as is one that starts itself.
unfoldable pub controller : ℕ → ℕ → DmaController
unfolding settle
controller fuel zero = record { run = λ e addr s. reach Fate.unfinished s }
controller fuel (suc depth) = record {
  run = λ e addr s. settle s (do_dma ⦃dma = controller fuel depth⦄ fuel e addr s);
}

settle-fits :
    (s : Bus) (r : Progress Bus) → MemoryFits s → Keeps Unit MemoryFits r → MemoryFits (settle s r)
unfolding settle
settle-fits s (going s') h k = k
settle-fits s (returned s') h k = k
settle-fits s crashed h k = reach-fits Fate.crashed s h
settle-fits s unfinished h k = reach-fits Fate.unfinished s h

-- `do_dma`, with any fuel and to any depth of jobs that start jobs, meets what the theorems on
-- instructions and runs ask of a DMA controller.
pub controller-StoresBytes : (fuel depth : ℕ) → StoresBytes (controller fuel depth)
unfolding controller
controller-StoresBytes fuel zero e addr s h = reach-fits Fate.unfinished s h
controller-StoresBytes fuel (suc depth) e addr s h =
    settle-fits s _ h (
      do_dma-Keeps ⦃dma = controller fuel depth⦄ (controller-StoresBytes fuel depth) fuel e addr s
        h)
