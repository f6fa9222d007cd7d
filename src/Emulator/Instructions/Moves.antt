-- ===== src/Emulator/Instructions/Moves.antt =====
-- Loads, stores, transfers and the stack.
use mega65_core.Prelude.{ℕ, ◌+◌, bit_and, bit_or, word32}
use mega65_core.Emulator.State.{
  Regs, M, ◌>>=◌, ◌>>◌, modify_regs, modify_log, get_regs, flags_byte, set_flags,
}
use mega65_core.Emulator.Memory.{DmaController, read_memory, write_mem16}
use mega65_core.Emulator.Alu.{update_nz}
use mega65_core.Emulator.Stack.{stack_pop, stack_push}

-- The registers of one byte.
pub data Register : Type 0 where
  a x y z b spl sph : Register

unfoldable pub get_register : Register → Regs → ℕ
get_register Register.a r = r.a
get_register Register.x r = r.x
get_register Register.y r = r.y
get_register Register.z r = r.z
get_register Register.b r = r.b
get_register Register.spl r = r.spl
get_register Register.sph r = r.sph

unfoldable pub set_register : Register → ℕ → Regs → Regs
set_register Register.a v r = record r { a = v }
set_register Register.x v r = record r { x = v }
set_register Register.y v r = record r { y = v }
set_register Register.z v r = record r { z = v }
set_register Register.b v r = record r { b = v }
set_register Register.spl v r = record r { spl = v }
set_register Register.sph v r = record r { sph = v }

abbrev pub put : Register → ℕ → M (Unit {0})
put reg v = modify_regs (set_register reg v)

abbrev pub get : Register → M ℕ
get reg m = (get_register reg m.regs, m)

-- `cpu->regs.pc += n`
unfoldable pub advance : ℕ → M (Unit {0})
advance n = modify_regs (λ r. record r { pc = word32 (r.pc + n) })

-- `log->len = n`
unfoldable pub set_len : ℕ → M (Unit {0})
set_len n = modify_log (λ l. record l { len = n })

abbrev pub operand : ℕ → M ℕ
operand i m = (m.log.bytes i, m)

-- LDA, LDX and LDY from memory.
unfoldable pub load : Register → ℕ → M ℕ → M (Unit {0})
load reg n mode = do
  set_len n
  advance n
  address ← mode
  v ← read_memory address
  put reg v
  update_nz v

-- LDA through a pointer, which marks the log.
unfoldable pub load_indirect : M ℕ → M (Unit {0})
unfolding load
load_indirect mode = do modify_log (λ l. record l { zp16 = 1 }); load Register.a 2 mode

unfoldable pub load_immediate : Register → M (Unit {0})
load_immediate reg = do v ← operand 1; put reg v; update_nz v; set_len 2; advance 2

-- TAX and the other transfers that set N and Z.
unfoldable pub transfer : Register → Register → M (Unit {0})
transfer src dst = do v ← get src; put dst v; update_nz v; advance 1; set_len 1

-- TAB, TYS and TXS.
unfoldable pub transfer_quietly : Register → Register → M (Unit {0})
transfer_quietly src dst = do v ← get src; put dst v; advance 1; set_len 1

-- PLA, PLX, PLY and PLZ.
unfoldable pub pull : Register → M (Unit {0})
pull reg = do v ← stack_pop; put reg v; update_nz v; set_len 1; advance 1

-- E and B cannot be set: `flags &= FLAG_E | FLAG_B; flags |= v & ~(FLAG_E | FLAG_B)`.
unfoldable pub pull_flags : M (Unit {0})
pull_flags = do
  modify_regs (λ r. set_flags (bit_and (flags_byte r) 0x30) r)
  v ← stack_pop
  modify_regs (λ r. set_flags (bit_or (flags_byte r) (bit_and v 0xcf)) r)

unfoldable pub plp : M (Unit {0})
unfolding pull_flags
plp = do pull_flags; advance 1; set_len 1

module _ ⦃dma : DmaController⦄ where
  -- STA, STX, STY and STZ.
  unfoldable pub save : Register → ℕ → M ℕ → M (Unit {0})
  save reg n mode = do set_len n; advance n; address ← mode; v ← get reg; write_mem16 address v

  -- STA ($xx),Y.
  unfoldable pub save_indirect : M ℕ → M (Unit {0})
  unfolding save
  save_indirect mode = do modify_log (λ l. record l { zp16 = 1 }); save Register.a 2 mode

  -- PHA, PHX, PHY and PHZ.
  unfoldable pub push : Register → M (Unit {0})
  push reg = do v ← get reg; stack_push v; advance 1; set_len 1

  -- The B flag is always pushed as set.
  unfoldable pub php : M (Unit {0})
  php = do r ← get_regs; stack_push (bit_or (flags_byte r) 0x10); advance 1; set_len 1
