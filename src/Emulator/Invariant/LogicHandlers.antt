-- ===== src/Emulator/Invariant/LogicHandlers.antt =====
-- The cases for logic, arithmetic, shifts and read-modify-write keep the invariant.
use mega65_core.Prelude.{ℕ, Bool, arith, byte}
use mega65_core.Emulator.State.{Regs, Trace, Machine, M}
use mega65_core.Emulator.Memory.{DmaController, read_memory}
use mega65_core.Emulator.Instructions.Moves.{Register, set_register}
use mega65_core.Emulator.Alu.{update_nz}
use mega65_core.Emulator.Instructions.Logic
use mega65_core.Emulator.Instructions.Shifts
use mega65_core.Emulator.Invariant.Parts.{
  RegsFit, IsValid, StoresBytes, with_regs, read_memory-IsValid, update_nz-IsValid,
  update_bit_flags-IsValid, update_cmp_flags-IsValid, adc-IsValid, sbc-IsValid, write_mem16-IsValid,
}
use mega65_core.Emulator.Invariant.Modes.{IsMode}
use mega65_core.Emulator.Invariant.Handlers.{Keeps, put-IsValid, set_both-IsValid, finish-IsValid}

module _ {t : Trace} where
  pub set_z-IsValid :
      (b : Bool) (m : Machine)
      → IsValid t m
      → IsValid t (record m { regs = record m.regs { flag_z = b } })
  set_z-IsValid b m v = with_regs m _ v (ground (arith, v.regs))

  pub set_c-IsValid :
      (b : Bool) (m : Machine)
      → IsValid t m
      → IsValid t (record m { regs = record m.regs { flag_c = b } })
  set_c-IsValid b m v = with_regs m _ v (ground (arith, v.regs))

  -- The flags of a result, and the result in the accumulator.
  pub result-IsValid :
      (w n : ℕ) (m : Machine)
      → IsValid t m
      → IsValid t (record (update_nz n m).1 {
        regs = set_register Register.a (byte w) (update_nz n m).1.regs;
      })
  result-IsValid w n m v = put-IsValid Register.a _ _ (omega arith) (update_nz-IsValid n m v)

  read_from :
      (mode : M ℕ) (m : Machine)
      → IsMode t mode
      → IsValid t m
      → IsValid t (read_memory (mode m).0 (mode m).1).1
  read_from mode m k v = read_memory-IsValid _ _ (k m v).0

  pub ora-IsValid : (n : ℕ) (mode : M ℕ) → IsMode t mode → Keeps t (Logic.ora n mode)
  unfolding Logic.ora
  ora-IsValid n mode k m v = result-IsValid _ _ _ (read_from mode _ k (set_both-IsValid n m v))

  pub ora_immediate-IsValid : Keeps t Logic.ora_immediate
  unfolding Logic.ora_immediate
  ora_immediate-IsValid m v = set_both-IsValid 2 _ (result-IsValid _ _ m v)

  pub conjoin-IsValid : (n : ℕ) (mode : M ℕ) → IsMode t mode → Keeps t (Logic.conjoin n mode)
  unfolding Logic.conjoin
  conjoin-IsValid n mode k m v = set_both-IsValid n _ (result-IsValid _ _ _ (read_from mode m k v))

  pub conjoin_immediate-IsValid : Keeps t Logic.conjoin_immediate
  unfolding Logic.conjoin_immediate
  conjoin_immediate-IsValid m v = set_both-IsValid 2 _ (result-IsValid _ _ m v)

  pub eor-IsValid : (n : ℕ) (mode : M ℕ) → IsMode t mode → Keeps t (Logic.eor n mode)
  unfolding Logic.eor
  eor-IsValid n mode k m v = set_both-IsValid n _ (result-IsValid _ _ _ (read_from mode m k v))

  pub eor_immediate-IsValid : Keeps t Logic.eor_immediate
  unfolding Logic.eor_immediate
  eor_immediate-IsValid m v = set_both-IsValid 2 _ (result-IsValid _ _ m v)

  pub bit_test-IsValid : (n : ℕ) (mode : M ℕ) → IsMode t mode → Keeps t (Logic.bit_test n mode)
  unfolding Logic.bit_test
  bit_test-IsValid n mode k m v =
      update_bit_flags-IsValid _ _ (read_from mode _ k (set_both-IsValid n m v))

  pub bit_immediate-IsValid : Keeps t Logic.bit_immediate
  unfolding Logic.bit_immediate
  bit_immediate-IsValid m v = set_z-IsValid _ _ (set_both-IsValid 2 m v)

  pub compare_memory-IsValid :
      (reg : Register) (n : ℕ) (mode : M ℕ)
      → IsMode t mode
      → Keeps t (Logic.compare_memory reg n mode)
  unfolding Logic.compare_memory
  compare_memory-IsValid reg n mode k m v =
      set_both-IsValid n _ (update_cmp_flags-IsValid _ _ (read_from mode m k v))

  pub compare_immediate-IsValid : (reg : Register) → Keeps t (Logic.compare_immediate reg)
  unfolding Logic.compare_immediate
  compare_immediate-IsValid reg m v = set_both-IsValid 2 _ (update_cmp_flags-IsValid _ m v)

  pub increment-IsValid : (reg : Register) → Keeps t (Logic.increment reg)
  unfolding Logic.increment
  increment-IsValid reg m v =
      finish-IsValid _ (update_nz-IsValid _ _ (put-IsValid reg _ m (omega arith) v))

  pub decrement-IsValid : (reg : Register) → Keeps t (Logic.decrement reg)
  unfolding Logic.decrement
  decrement-IsValid reg m v =
      finish-IsValid _ (update_nz-IsValid _ _ (put-IsValid reg _ m (omega arith) v))

  pub change_flag-IsValid :
      (f : Regs → Regs) → ((r : Regs) → RegsFit r → RegsFit (f r)) → Keeps t (Logic.change_flag f)
  unfolding Logic.change_flag
  change_flag-IsValid f h m v = finish-IsValid _ (with_regs m _ v (h m.regs v.regs))

  pub adc_memory-IsValid : (n : ℕ) (mode : M ℕ) → IsMode t mode → Keeps t (Logic.adc_memory n mode)
  unfolding Logic.adc_memory
  adc_memory-IsValid n mode k m v = set_both-IsValid n _ (adc-IsValid _ _ (read_from mode m k v))

  pub adc_immediate-IsValid : Keeps t Logic.adc_immediate
  unfolding Logic.adc_immediate
  adc_immediate-IsValid m v = set_both-IsValid 2 _ (adc-IsValid _ m v)

  pub sbc_memory-IsValid : (n : ℕ) (mode : M ℕ) → IsMode t mode → Keeps t (Logic.sbc_memory n mode)
  unfolding Logic.sbc_memory
  sbc_memory-IsValid n mode k m v = set_both-IsValid n _ (sbc-IsValid _ _ (read_from mode m k v))

  pub sbc_immediate-IsValid : Keeps t Logic.sbc_immediate
  unfolding Logic.sbc_immediate
  sbc_immediate-IsValid m v = set_both-IsValid 2 _ (sbc-IsValid _ m v)

  pub asl_a-IsValid : Keeps t Shifts.asl_a
  unfolding Shifts.asl_a
  asl_a-IsValid m v = set_both-IsValid 1 _ (result-IsValid _ _ _ (set_c-IsValid _ m v))

  pub rol_a-IsValid : Keeps t Shifts.rol_a
  unfolding Shifts.rol_a
  rol_a-IsValid m v = set_both-IsValid 1 _ (result-IsValid _ _ _ (set_c-IsValid _ m v))

  pub lsr_a-IsValid : Keeps t Shifts.lsr_a
  unfolding Shifts.lsr_a
  lsr_a-IsValid m v = set_both-IsValid 1 _ (result-IsValid _ _ _ (set_c-IsValid _ m v))

  pub ror_a-IsValid : Keeps t Shifts.ror_a
  unfolding Shifts.ror_a
  ror_a-IsValid m v = set_both-IsValid 1 _ (result-IsValid _ _ _ (set_c-IsValid _ m v))

  module _ ⦃dma : DmaController⦄ (stores : StoresBytes dma) where
    pub write_back-IsValid :
        (mode : M ℕ) (w : ℕ) (m : Machine)
        → IsMode t mode
        → IsValid t m
        → IsValid t (Logic.write_back mode w m).1
    write_back-IsValid mode w m k v = write_mem16-IsValid stores _ _ _ (omega arith) (k m v).0

    pub tsb-IsValid : (n : ℕ) (mode : M ℕ) → IsMode t mode → Keeps t (Logic.tsb n mode)
    unfolding Logic.tsb
    tsb-IsValid n mode k m v =
        write_back-IsValid mode _ _ k
          (set_z-IsValid _ _ (read_from mode _ k (set_both-IsValid n m v)))

    pub trb-IsValid : (n : ℕ) (mode : M ℕ) → IsMode t mode → Keeps t (Logic.trb n mode)
    unfolding Logic.trb
    trb-IsValid n mode k m v =
        write_back-IsValid mode _ _ k
          (set_z-IsValid _ _ (read_from mode _ k (set_both-IsValid n m v)))

    pub rmb-IsValid : (i : ℕ) (mode : M ℕ) → IsMode t mode → Keeps t (Logic.rmb i mode)
    unfolding Logic.rmb
    rmb-IsValid i mode k m v =
        set_both-IsValid 2 _ (write_back-IsValid mode _ _ k (read_from mode m k v))

    pub smb-IsValid : (i : ℕ) (mode : M ℕ) → IsMode t mode → Keeps t (Logic.smb i mode)
    unfolding Logic.smb
    smb-IsValid i mode k m v =
        set_both-IsValid 2 _ (write_back-IsValid mode _ _ k (read_from mode m k v))

    pub dec_memory-IsValid :
        (n : ℕ) (mode : M ℕ) → IsMode t mode → Keeps t (Logic.dec_memory n mode)
    unfolding Logic.dec_memory
    dec_memory-IsValid n mode k m v =
        update_nz-IsValid _ _
          (write_back-IsValid mode _ _ k (read_from mode _ k (set_both-IsValid n m v)))

    pub inc_memory-IsValid :
        (n : ℕ) (mode : M ℕ) → IsMode t mode → Keeps t (Logic.inc_memory n mode)
    unfolding Logic.inc_memory
    inc_memory-IsValid n mode k m v =
        update_nz-IsValid _ _
          (write_back-IsValid mode _ _ k (read_from mode _ k (set_both-IsValid n m v)))

    pub asl-IsValid : (n : ℕ) (mode : M ℕ) → IsMode t mode → Keeps t (Shifts.asl n mode)
    unfolding Shifts.asl
    asl-IsValid n mode k m v = set_both-IsValid n _ (
        write_back-IsValid mode _ _ k
          (update_nz-IsValid _ _ (read_from mode _ k (set_c-IsValid _ m v))))

    pub rol-IsValid : (n : ℕ) (mode : M ℕ) → IsMode t mode → Keeps t (Shifts.rol n mode)
    unfolding Shifts.rol
    rol-IsValid n mode k m v = set_both-IsValid n _ (
        write_back-IsValid mode _ _ k
          (update_nz-IsValid _ _ (set_c-IsValid _ _ (read_from mode m k v))))

    pub lsr-IsValid : (n : ℕ) (mode : M ℕ) → IsMode t mode → Keeps t (Shifts.lsr n mode)
    unfolding Shifts.lsr
    lsr-IsValid n mode k m v = set_both-IsValid n _ (
        write_back-IsValid mode _ _ k
          (update_nz-IsValid _ _ (set_c-IsValid _ _ (read_from mode m k v))))

    pub ror-IsValid : (n : ℕ) (mode : M ℕ) → IsMode t mode → Keeps t (Shifts.ror n mode)
    unfolding Shifts.ror
    ror-IsValid n mode k m v = set_both-IsValid n _ (
        write_back-IsValid mode _ _ k
          (update_nz-IsValid _ _ (set_c-IsValid _ _ (read_from mode m k v))))
