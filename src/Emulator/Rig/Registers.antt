-- ===== src/Emulator/Rig/Registers.antt =====
-- The comparison of the registers in src/tools/hyppotest.c, against equality.
use mega65_core.Prelude.{
  ℕ, ◌≡◌, ◌↔◌, refl, Bool, true, false, ◌==◌, List, [], ◌∷◌, Bool-cases, ==_iff, inl, inr,
}
use mega65_core.Emulator.State.{Regs}
use mega65_core.Emulator.Rig.{Rig}
use mega65_core.Emulator.Rig.Compare.{
  same_bool, every, comparisons, same_registers, compare_register_contents,
}

-- The registers that a test compares are the same.
pub record SameRegisters (r s : Regs) : Type 0 where
  pub a : r.a ≡ s.a
  pub x : r.x ≡ s.x
  pub y : r.y ≡ s.y
  pub z : r.z ≡ s.z
  pub b : r.b ≡ s.b
  pub spl : r.spl ≡ s.spl
  pub sph : r.sph ≡ s.sph
  pub pc : r.pc ≡ s.pc
  pub flag_c : r.flag_c ≡ s.flag_c
  pub flag_z : r.flag_z ≡ s.flag_z
  pub flag_i : r.flag_i ≡ s.flag_i
  pub flag_d : r.flag_d ≡ s.flag_d
  pub flag_b : r.flag_b ≡ s.flag_b
  pub flag_e : r.flag_e ≡ s.flag_e
  pub flag_v : r.flag_v ≡ s.flag_v
  pub flag_n : r.flag_n ≡ s.flag_n

same_bool-eq : (b c : Bool) → same_bool b c ≡ true → b ≡ c
same_bool-eq true true h = refl
same_bool-eq true false h = cc
same_bool-eq false true h = cc
same_bool-eq false false h = refl

same_bool_self : (b : Bool) → same_bool b b ≡ true
same_bool_self true = refl
same_bool_self false = refl

==_of_eq : (a b : ℕ) → a ≡ b → (a == b) ≡ true
==_of_eq a b h = (==_iff a b).1 h

same_bool_of_eq : (b c : Bool) → b ≡ c → same_bool b c ≡ true
same_bool_of_eq b c h = rw h (same_bool_self c)

abbrev AllTrue : List Bool → Type 0
AllTrue [] = Unit
AllTrue (b ∷ bs) = (b ≡ true) × AllTrue bs

every-AllTrue : (bs : List Bool) → every bs ≡ true → AllTrue bs
every-AllTrue [] h = tt
every-AllTrue (true ∷ bs) h = (refl, every-AllTrue bs h)
every-AllTrue (false ∷ bs) h = cc

same_registers-SameRegisters : (r s : Regs) → same_registers r s ≡ true → SameRegisters r s
unfolding same_registers
same_registers-SameRegisters r s h =
    let t = every-AllTrue (comparisons r s) h in
    record {
      a = (==_iff _ _).0 t.0;
      x = (==_iff _ _).0 t.1.0;
      y = (==_iff _ _).0 t.1.1.0;
      z = (==_iff _ _).0 t.1.1.1.0;
      b = (==_iff _ _).0 t.1.1.1.1.0;
      spl = (==_iff _ _).0 t.1.1.1.1.1.0;
      sph = (==_iff _ _).0 t.1.1.1.1.1.1.0;
      pc = (==_iff _ _).0 t.1.1.1.1.1.1.1.0;
      flag_c = same_bool-eq _ _ t.1.1.1.1.1.1.1.1.0;
      flag_z = same_bool-eq _ _ t.1.1.1.1.1.1.1.1.1.0;
      flag_i = same_bool-eq _ _ t.1.1.1.1.1.1.1.1.1.1.0;
      flag_d = same_bool-eq _ _ t.1.1.1.1.1.1.1.1.1.1.1.0;
      flag_b = same_bool-eq _ _ t.1.1.1.1.1.1.1.1.1.1.1.1.0;
      flag_e = same_bool-eq _ _ t.1.1.1.1.1.1.1.1.1.1.1.1.1.0;
      flag_v = same_bool-eq _ _ t.1.1.1.1.1.1.1.1.1.1.1.1.1.1.0;
      flag_n = same_bool-eq _ _ t.1.1.1.1.1.1.1.1.1.1.1.1.1.1.1.0;
    }

SameRegisters-same_registers : (r s : Regs) → SameRegisters r s → same_registers r s ≡ true
unfolding same_registers
SameRegisters-same_registers r s e = simp (
  ==_of_eq r.a s.a e.a,
  ==_of_eq r.x s.x e.x,
  ==_of_eq r.y s.y e.y,
  ==_of_eq r.z s.z e.z,
  ==_of_eq r.b s.b e.b,
  ==_of_eq r.spl s.spl e.spl,
  ==_of_eq r.sph s.sph e.sph,
  ==_of_eq r.pc s.pc e.pc,
  same_bool_of_eq r.flag_c s.flag_c e.flag_c,
  same_bool_of_eq r.flag_z s.flag_z e.flag_z,
  same_bool_of_eq r.flag_i s.flag_i e.flag_i,
  same_bool_of_eq r.flag_d s.flag_d e.flag_d,
  same_bool_of_eq r.flag_b s.flag_b e.flag_b,
  same_bool_of_eq r.flag_e s.flag_e e.flag_e,
  same_bool_of_eq r.flag_v s.flag_v e.flag_v,
  same_bool_of_eq r.flag_n s.flag_n e.flag_n,
)

-- The comparison of the registers returns false exactly where there was no error before it and the
-- registers are the expected ones.
pub compare_register_contents_lem :
    (g : Rig)
    → ((compare_register_contents g).0 ≡ false)
      ↔ ((g.machine.bus.term.error ≡ false) × SameRegisters g.machine.regs g.expected.regs)
unfolding compare_register_contents
compare_register_contents_lem g =
    let r = g.machine.regs in
    let s = g.expected.regs in
    elim (Bool-cases (same_registers r s)) [
      | inl same ↦
          rw (same, compare_register_contents)
            (λ e. (e, same_registers-SameRegisters r s same), λ (e, k). e)
      | inr other ↦
          rw (other, compare_register_contents)
            (λ e. cc, λ (e, k). cc (other, SameRegisters-same_registers r s k))
    ]
