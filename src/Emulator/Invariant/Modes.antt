-- ===== src/Emulator/Invariant/Modes.antt =====
-- The addressing modes keep the invariant, and give addresses of 32 bits.
use mega65_core.Prelude.{ℕ, ◌+◌, ◌^◌, ◌<◌, arith}
use mega65_core.Emulator.State.{Trace, Machine, M}
use mega65_core.Emulator.Addressing.{
  addr_abs, addr_zp, addr_zpx, addr_zpy, addr_izpy, addr_izpx, addr_deref16, addr_izpz, addr_izpz32,
  addr_absx, addr_absy, addr_iabsx, deref,
}
use mega65_core.Emulator.Invariant.Parts.{IsValid, read_memory-IsValid}

abbrev pub IsMode : Trace → M ℕ → Type 0
IsMode t mode = (m : Machine) → IsValid t m → IsValid t (mode m).1 × ((mode m).0 < 2 ^ 32)

module _ {t : Trace} where
  set_pointer :
      (p : ℕ) (m : Machine)
      → IsValid t m
      → IsValid t (record m { log = record m.log { zp_pointer = p } })
  set_pointer p m v = record {
    regs = v.regs;
    memory = v.memory;
    bytes = v.bytes;
    base = v.base;
    trace = v.trace;
  }

  set_target :
      (p : ℕ) (m : Machine)
      → IsValid t m
      → IsValid t (record m { log = record m.log { zp_pointer_addr = p } })
  set_target p m v = record {
    regs = v.regs;
    memory = v.memory;
    bytes = v.bytes;
    base = v.base;
    trace = v.trace;
  }

  deref-IsMode : (p index : ℕ) → IsMode t (deref p index)
  unfolding deref
  deref-IsMode p index m v = (
    set_target _ _ (read_memory-IsValid (p + 1) _ (read_memory-IsValid p _ (set_pointer p m v))),
    omega arith,
  )

  pub addr_abs-IsMode : IsMode t addr_abs
  unfolding addr_abs
  addr_abs-IsMode m v = (v, omega (arith, v.bytes 1, v.bytes 2))

  pub addr_zp-IsMode : IsMode t addr_zp
  unfolding addr_zp
  addr_zp-IsMode m v = (v, omega (arith, v.bytes 1, v.base))

  pub addr_zpx-IsMode : IsMode t addr_zpx
  unfolding addr_zpx
  addr_zpx-IsMode m v = (v, omega arith)

  pub addr_zpy-IsMode : IsMode t addr_zpy
  unfolding addr_zpy
  addr_zpy-IsMode m v = (v, omega arith)

  pub addr_absx-IsMode : IsMode t addr_absx
  unfolding addr_absx
  addr_absx-IsMode m v = (v, omega arith)

  pub addr_absy-IsMode : IsMode t addr_absy
  unfolding addr_absy
  addr_absy-IsMode m v = (v, omega arith)

  pub addr_izpy-IsMode : IsMode t addr_izpy
  unfolding addr_izpy
  addr_izpy-IsMode m v = deref-IsMode _ _ m v

  pub addr_izpx-IsMode : IsMode t addr_izpx
  unfolding addr_izpx
  addr_izpx-IsMode m v = deref-IsMode _ _ m v

  pub addr_izpz-IsMode : IsMode t addr_izpz
  unfolding addr_izpz
  addr_izpz-IsMode m v = deref-IsMode _ _ m v

  pub addr_deref16-IsMode : IsMode t addr_deref16
  unfolding addr_deref16
  addr_deref16-IsMode m v = deref-IsMode _ _ m v

  pub addr_iabsx-IsMode : IsMode t addr_iabsx
  unfolding addr_iabsx addr_absx
  addr_iabsx-IsMode m v = deref-IsMode _ _ m v

  pub addr_izpz32-IsMode : IsMode t addr_izpz32
  unfolding addr_izpz32
  addr_izpz32-IsMode m v = (
    set_target _ _ (
        read_memory-IsValid _ _ (
          read_memory-IsValid _ _
            (read_memory-IsValid _ _ (read_memory-IsValid _ _ (set_pointer _ m v))))),
    omega arith,
  )
