-- ===== src/Emulator/Invariant/Handlers.antt =====
-- The bodies of the cases keep the invariant.
use mega65_core.Prelude.{ℕ, ◌<◌, arith}
use mega65_core.Emulator.State.{Regs, Trace, Machine, M, set_flags}
use mega65_core.Emulator.Memory.{DmaController}
use mega65_core.Emulator.Instructions.Moves
use mega65_core.Emulator.Instructions.Moves.{Register, get_register, set_register, advance, set_len}
use mega65_core.Emulator.Invariant.Parts.{
  RegsFit, IsValid, StoresBytes, with_regs, read_memory-IsValid, read_memory-lt, update_nz-IsValid,
  stack_pop-IsValid, stack_pop-lt, stack_push-IsValid, write_mem16-IsValid,
}
use mega65_core.Emulator.Invariant.Modes.{IsMode}

abbrev pub Keeps : Trace → M (Unit {0}) → Type 0
Keeps t c = (m : Machine) → IsValid t m → IsValid t (c m).1

set_register-fits :
    (reg : Register) (w : ℕ) (r : Regs) → w < 256 → RegsFit r → RegsFit (set_register reg w r)
unfolding set_register
set_register-fits Register.a w r h k = ground (arith, k)
set_register-fits Register.x w r h k = ground (arith, k)
set_register-fits Register.y w r h k = ground (arith, k)
set_register-fits Register.z w r h k = ground (arith, k)
set_register-fits Register.b w r h k = ground (arith, k)
set_register-fits Register.spl w r h k = ground (arith, k)
set_register-fits Register.sph w r h k = ground (arith, k)

set_flags-fits : (w : ℕ) (r : Regs) → RegsFit r → RegsFit (set_flags w r)
unfolding set_flags
set_flags-fits w r h = ground (arith, h)

module _ {t : Trace} where
  pub put-IsValid :
      (reg : Register) (w : ℕ) (m : Machine)
      → w < 256
      → IsValid t m
      → IsValid t (record m { regs = set_register reg w m.regs })
  put-IsValid reg w m h v = with_regs m _ v (set_register-fits reg w m.regs h v.regs)

  pub advance-IsValid : (n : ℕ) → Keeps t (advance n)
  unfolding advance
  advance-IsValid n m v = with_regs m _ v (ground (arith, v.regs))

  pub set_len-IsValid : (n : ℕ) → Keeps t (set_len n)
  unfolding set_len
  set_len-IsValid n m v = record {
    regs = v.regs;
    memory = v.memory;
    bytes = v.bytes;
    base = v.base;
    trace = v.trace;
  }

  -- The length and the program counter, as most cases set them.
  pub set_both-IsValid :
      (n : ℕ) (m : Machine) → IsValid t m → IsValid t (advance n (set_len n m).1).1
  set_both-IsValid n m v = advance-IsValid n _ (set_len-IsValid n m v)

  pub finish-IsValid : (m : Machine) → IsValid t m → IsValid t (set_len 1 (advance 1 m).1).1
  finish-IsValid m v = set_len-IsValid 1 _ (advance-IsValid 1 m v)

  pub set_zp16-IsValid :
      (m : Machine) → IsValid t m → IsValid t (record m { log = record m.log { zp16 = 1 } })
  set_zp16-IsValid m v = record {
    regs = v.regs;
    memory = v.memory;
    bytes = v.bytes;
    base = v.base;
    trace = v.trace;
  }

  pub get_register-lt : (reg : Register) (m : Machine) → IsValid t m → get_register reg m.regs < 256
  unfolding get_register
  get_register-lt Register.a m v = v.regs.a
  get_register-lt Register.x m v = v.regs.x
  get_register-lt Register.y m v = v.regs.y
  get_register-lt Register.z m v = v.regs.z
  get_register-lt Register.b m v = v.regs.b
  get_register-lt Register.spl m v = v.regs.spl
  get_register-lt Register.sph m v = v.regs.sph

  pub load-IsValid :
      (reg : Register) (n : ℕ) (mode : M ℕ) → IsMode t mode → Keeps t (Moves.load reg n mode)
  unfolding Moves.load
  load-IsValid reg n mode k m v =
      let at = (k _ (set_both-IsValid n m v)).0 in
      update_nz-IsValid _ _
        (put-IsValid reg _ _ (read_memory-lt _ _ at) (read_memory-IsValid _ _ at))

  pub load_indirect-IsValid : (mode : M ℕ) → IsMode t mode → Keeps t (Moves.load_indirect mode)
  unfolding Moves.load_indirect
  load_indirect-IsValid mode k m v = load-IsValid Register.a 2 mode k _ (set_zp16-IsValid m v)

  pub load_immediate-IsValid : (reg : Register) → Keeps t (Moves.load_immediate reg)
  unfolding Moves.load_immediate
  load_immediate-IsValid reg m v =
      set_both-IsValid 2 _ (update_nz-IsValid _ _ (put-IsValid reg _ m (v.bytes 1) v))

  pub transfer-IsValid : (src dst : Register) → Keeps t (Moves.transfer src dst)
  unfolding Moves.transfer
  transfer-IsValid src dst m v =
      finish-IsValid _ (update_nz-IsValid _ _ (put-IsValid dst _ m (get_register-lt src m v) v))

  pub transfer_quietly-IsValid : (src dst : Register) → Keeps t (Moves.transfer_quietly src dst)
  unfolding Moves.transfer_quietly
  transfer_quietly-IsValid src dst m v =
      finish-IsValid _ (put-IsValid dst _ m (get_register-lt src m v) v)

  pub pull-IsValid : (reg : Register) → Keeps t (Moves.pull reg)
  unfolding Moves.pull
  pull-IsValid reg m v =
      set_both-IsValid 1 _
        (update_nz-IsValid _ _ (put-IsValid reg _ _ (stack_pop-lt m v) (stack_pop-IsValid m v)))

  pub pull_flags-IsValid : Keeps t Moves.pull_flags
  unfolding Moves.pull_flags
  pull_flags-IsValid m v =
      let v' = with_regs m _ v (set_flags-fits _ m.regs v.regs) in
      let popped = stack_pop-IsValid _ v' in with_regs _ _ popped (set_flags-fits _ _ popped.regs)

  pub plp-IsValid : Keeps t Moves.plp
  unfolding Moves.plp
  plp-IsValid m v = finish-IsValid _ (pull_flags-IsValid m v)

  module _ ⦃dma : DmaController⦄ (stores : StoresBytes dma) where
    pub save-IsValid :
        (reg : Register) (n : ℕ) (mode : M ℕ) → IsMode t mode → Keeps t (Moves.save reg n mode)
    unfolding Moves.save
    save-IsValid reg n mode k m v =
        let at = (k _ (set_both-IsValid n m v)).0 in
        write_mem16-IsValid stores _ _ _ (get_register-lt reg _ at) at

    pub save_indirect-IsValid : (mode : M ℕ) → IsMode t mode → Keeps t (Moves.save_indirect mode)
    unfolding Moves.save_indirect
    save_indirect-IsValid mode k m v = save-IsValid Register.a 2 mode k _ (set_zp16-IsValid m v)

    pub push-IsValid : (reg : Register) → Keeps t (Moves.push reg)
    unfolding Moves.push
    push-IsValid reg m v = finish-IsValid _ (stack_push-IsValid stores _ m v)

    pub php-IsValid : Keeps t Moves.php
    unfolding Moves.php
    php-IsValid m v = finish-IsValid _ (stack_push-IsValid stores _ m v)
