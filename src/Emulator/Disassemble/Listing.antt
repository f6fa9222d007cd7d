-- ===== src/Emulator/Disassemble/Listing.antt =====
-- `disassemble_instruction` of src/tools/hyppotest.c, with the functions that go on to the instructions
-- that wrote a pointer or pushed a byte.
use Prim.Native.String.{String}
use mega65_core.Prelude.{
  ℕ, zero, suc, ◌+◌, ◌++◌, Option, none, some, List, [], ◌∷◌, ◌==◌, ltb, if◌then◌else◌, word32,
}
use mega65_core.Prelude.Printing.{Text, codes, hex, decimal}
use mega65_core.Emulator.State.{Log, Machine}
use mega65_core.Emulator.Memory.{memory_blame}
use mega65_core.Emulator.Instructions.Flow.{entry_at}
use mega65_core.Emulator.Disassemble.Operands.{
  Operand, implied, immediate, absolute, absolute_x, absolute_y, zero_page, zero_page_x,
  zero_page_y, indirect_x, indirect_y, indirect_z, indirect_z_or_long, indirect,
  indirect_absolute_x, relative, long_relative, bit_relative, pulled, returned, TextCase,
  disassemble_rel8, disassemble_rel16, disassemble_imm, disassemble_abs, disassemble_iabsx,
  disassemble_absx, disassemble_absy, disassemble_zp, disassemble_zpx, disassemble_zpy,
  disassemble_izpy, disassemble_izpx, disassemble_izpz, disassemble_izpz32, disassemble_zp_rel8,
}
use mega65_core.Emulator.Disassemble.Texts0.{texts_0, texts_1, texts_2, texts_3}
use mega65_core.Emulator.Disassemble.Texts4.{texts_4, texts_5, texts_6, texts_7}
use mega65_core.Emulator.Disassemble.Texts8.{texts_8, texts_9, texts_a, texts_b}
use mega65_core.Emulator.Disassemble.Textsc.{texts_c, texts_d, texts_e, texts_f}

-- What comes of printing: a result, a read through NULL or a freed entry, or a recursion deeper than
-- the depth that is given.
pub data Shown {ℓ} (A : Type ℓ) : Type ℓ where
  shown : A → Shown A
  unreadable_entry : Shown A
  too_deep : Shown A

infixl 5 ◌>>=◌ ◌>>◌
abbrev pub ◌>>=◌ {ℓ κ} : {A : Type ℓ} {B : Type κ} → Shown A → (A → Shown B) → Shown B
shown a >>= f = f a
unreadable_entry >>= f = unreadable_entry
too_deep >>= f = too_deep

abbrev pub ◌>>◌ {ℓ} : {B : Type ℓ} → Shown (Unit {0}) → Shown B → Shown B
c >> k = c >>= λ _. k

-- `*cpulog[i]`.
unfoldable pub cpulog_entry : Machine → ℕ → Shown Log
unfolding entry_at
cpulog_entry m i = elim (entry_at m.trace (m.trace.cpulog i)) [
  | none ↦ unreadable_entry
  | some log ↦ shown log
]

-- `memory_blame(&fakecpu, addr)`, where `fakecpu` has the registers of the entry. `addr_to_28bit`
-- prints a message of its own for an address above $FFFF, and `complain` is whether that ends.
unfoldable pub blame_of : (Machine → Shown (Unit {0})) → Machine → Log → ℕ → Shown ℕ
blame_of complain m log addr =
    let fakecpu = record m { regs = log.regs } in
    let blame = shown (memory_blame addr fakecpu).0 in
    if ltb 0xffff addr then complain fakecpu >> blame else blame

-- `again` is `disassemble_instruction` for another entry.
module _ (complain : Machine → Shown (Unit {0})) (again : Log → Shown Text) (m : Machine) where
  -- The instruction that wrote a byte of a pointer.
  unfoldable pub writer_of : Log → ℕ → Shown Text
  writer_of log addr = do
    blame ← blame_of complain m log addr
    if blame == 0 then shown (codes "<uninitialised memory>") else do
      writer ← cpulog_entry m blame
      text ← again writer
      shown (codes "I" ++ (decimal blame ++ (codes ": " ++ text)))

  unfoldable pub disassemble_iabs : Log → Shown Text
  disassemble_iabs log = do
    low ← writer_of log log.zp_pointer
    high ← writer_of log (word32 (log.zp_pointer + 1))
    shown (
        codes "($"
        ++ (hex 2 (log.bytes 2)
            ++ (hex 2 (log.bytes 1)
                ++ (codes ") {PTR=$"
                    ++ (hex 4 log.zp_pointer
                        ++ (codes ",ADDR=$"
                            ++ (hex 4 log.zp_pointer_addr
                                ++ (codes ", Pointer written by "
                                    ++ (low ++ (codes " and " ++ (high ++ codes "}")))))))))))

  -- The instruction that pushed a byte.
  unfoldable pub pusher : ℕ → Shown Text
  pusher blame = if blame == 0 then shown (codes "<unitialised stack location>") else do
    entry ← cpulog_entry m blame
    text ← again entry
    shown (codes "$" ++ (hex 4 entry.pc ++ (codes " " ++ text)))

  unfoldable pub disassemble_stack_source : Log → Shown Text
  disassemble_stack_source log = do
    source ← pusher (log.pop_blame 0)
    shown (codes "  {Pushed by " ++ (source ++ codes "}"))

  -- RTS: the two bytes of the address may come from two instructions.
  unfoldable pub return_sources : Log → Shown Text
  return_sources log =
      if log.pop_blame 0 == log.pop_blame 1
      then (pusher (log.pop_blame 0) >>= λ source. shown (source ++ codes "}"))
      else do
        low ← pusher (log.pop_blame 0)
        high ← pusher (log.pop_blame 1)
        shown (
            codes " two different instructions: "
            ++ (low ++ (codes " and " ++ (high ++ codes "}"))))

  unfoldable pub print_operand : Operand → Log → Shown Text
  print_operand implied log = shown []
  print_operand immediate log = shown (disassemble_imm log)
  print_operand absolute log = shown (disassemble_abs log)
  print_operand absolute_x log = shown (disassemble_absx log)
  print_operand absolute_y log = shown (disassemble_absy log)
  print_operand zero_page log = shown (disassemble_zp log)
  print_operand zero_page_x log = shown (disassemble_zpx log)
  print_operand zero_page_y log = shown (disassemble_zpy log)
  print_operand indirect_x log = shown (disassemble_izpx log)
  print_operand indirect_y log = shown (disassemble_izpy log)
  print_operand indirect_z log = shown (disassemble_izpz log)
  print_operand indirect_z_or_long log =
      shown (if log.zp32 == 0 then disassemble_izpz log else disassemble_izpz32 log)
  print_operand indirect log = disassemble_iabs log
  print_operand indirect_absolute_x log = shown (disassemble_iabsx log)
  print_operand relative log = shown (disassemble_rel8 log)
  print_operand long_relative log = shown (disassemble_rel16 log)
  print_operand bit_relative log = shown (disassemble_zp_rel8 log)
  print_operand pulled log = disassemble_stack_source log
  print_operand returned log = return_sources log

unfoldable pub all_texts : List TextCase
all_texts =
    texts_0
    ++ (texts_1
        ++ (texts_2
            ++ (texts_3
                ++ (texts_4
                    ++ (texts_5
                        ++ (texts_6
                            ++ (texts_7
                                ++ (texts_8
                                    ++ (texts_9
                                        ++ (texts_a
                                            ++ (texts_b
                                                ++ (texts_c
                                                    ++ (texts_d ++ (texts_e ++ texts_f))))))))))))))

-- The `switch`: the case of an opcode, if there is one.
unfoldable pub find_text : ℕ → List TextCase → Option (String × Operand)
find_text op [] = none
find_text op ((label, name, operand) ∷ cases) =
    if op == label then some (name, operand) else find_text op cases

-- `depth` bounds the recursion.
unfoldable pub disassemble_instruction :
    (Machine → Shown (Unit {0})) → ℕ → Machine → Log → Shown Text
disassemble_instruction complain zero m log = too_deep
disassemble_instruction complain (suc depth) m log =
    if log.len == 0 then shown [] else elim (find_text (log.bytes 0) all_texts) [
      | none ↦ shown []
      | some (name, operand) ↦ do
        text ← print_operand complain (disassemble_instruction complain depth m) m operand log
        shown (codes name ++ text)
    ]
