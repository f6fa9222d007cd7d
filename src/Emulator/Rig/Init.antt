-- ===== src/Emulator/Rig/Init.antt =====
-- `machine_init` of src/tools/hyppotest.c. The breakpoints and the symbols of the hypervisor, which it
-- clears too, are outside.
use mega65_core.Prelude.{
  ℕ, zero, suc, ◌-◌, ◌*◌, ◌<◌, ◌≤◌, ◌≡◌, ◌≢◌, refl, ◌+◌, ◌/◌, ◌%◌, ◌^◌, ◌==◌, Bool, true, false,
  ◌&&◌, leb, ltb, if◌then◌else◌, store, arith, List, [], ◌∷◌, none,
}
use mega65_core.Emulator.State.{Regs, Bus}
use mega65_core.Emulator.Memory.{
  Cell, cell_of, addr_to_28bit, is_mapped, map_address, c64_bank, port_lines,
}
use mega65_core.Emulator.Rig.{Rig}
use mega65_core.Emulator.Rig.Calls.{free_entries}
use mega65_core.Emulator.Rig.Compare.{compare_ram_contents, compare_ram_contents_lem}

abbrev pub viciv_regs : List ℕ
viciv_regs =
    0 ∷ 0 ∷ 0 ∷ 0 ∷ 0 ∷ 0 ∷ 0 ∷ 0 ∷ 0 ∷ 0 ∷ 0 ∷ 0 ∷ 0 ∷ 0 ∷ 0 ∷ 0 ∷ 0 ∷ 155 ∷ 55 ∷ 0 ∷ 0 ∷ 0 ∷ 200
    ∷ 0 ∷ 20 ∷ 113 ∷ 224 ∷ 0 ∷ 0 ∷ 0 ∷ 0 ∷ 0 ∷ 14 ∷ 6 ∷ 1 ∷ 2 ∷ 3 ∷ 4 ∷ 0 ∷ 1 ∷ 2 ∷ 3 ∷ 4 ∷ 5 ∷ 6
    ∷ 7 ∷ 12 ∷ 0 ∷ 0 ∷ 32 ∷ 0 ∷ 0 ∷ 0 ∷ 0 ∷ 0 ∷ 0 ∷ 0 ∷ 0 ∷ 0 ∷ 0 ∷ 0 ∷ 0 ∷ 0 ∷ 0 ∷ 255 ∷ 255 ∷ 255
    ∷ 255 ∷ 255 ∷ 255 ∷ 255 ∷ 255 ∷ 104 ∷ 0 ∷ 248 ∷ 1 ∷ 80 ∷ 0 ∷ 104 ∷ 0 ∷ 12 ∷ 131 ∷ 233 ∷ 129 ∷ 5
    ∷ 0 ∷ 0 ∷ 0 ∷ 80 ∷ 0 ∷ 120 ∷ 1 ∷ 80 ∷ 192 ∷ 40 ∷ 0 ∷ 0 ∷ 184 ∷ 0 ∷ 0 ∷ 0 ∷ 0 ∷ 0 ∷ 0 ∷ 0 ∷ 144
    ∷ 0 ∷ 0 ∷ 248 ∷ 7 ∷ 0 ∷ 0 ∷ 255 ∷ 0 ∷ 0 ∷ 1 ∷ 0 ∷ 0 ∷ 0 ∷ 0 ∷ 0 ∷ 55 ∷ 129 ∷ 24 ∷ 194 ∷ 0 ∷ 0
    ∷ 127 ∷ []

-- An element of a table, and 0 after its end.
unfoldable pub table_at : List ℕ → ℕ → ℕ
table_at [] i = 0
table_at (x ∷ xs) zero = x
table_at (x ∷ xs) (suc i) = table_at xs i

-- `bzero`, with `flags` set to FLAG_E and FLAG_I.
abbrev pub first_regs : Regs
first_regs = record {
  pc = 0;
  a = 0;
  x = 0;
  y = 0;
  z = 0;
  flag_c = false;
  flag_z = false;
  flag_i = true;
  flag_d = false;
  flag_b = false;
  flag_e = true;
  flag_v = false;
  flag_n = false;
  b = 0;
  spl = 0;
  sph = 0;
  in_hyper = 0;
  map_irq_inhibit = 0;
  maplo = 0;
  maphi = 0;
  maplomb = 0;
  maphimb = 0;
}

-- The VIC-IV registers, from $3000 on, in an array of the I/O area.
unfoldable pub set_viciv : (ℕ → ℕ) → ℕ → ℕ
set_viciv f i = if leb 0x3000 i && ltb i 0x3080 then table_at viciv_regs (i - 0x3000) else f i

-- The processor port, in an array of the chip RAM.
unfoldable pub set_port : (ℕ → ℕ) → ℕ → ℕ
set_port f = store (store f 0 0x3f) 1 0x27

-- The expected memories are cleared, and the memories themselves are not.
unfoldable pub machine_init : Rig → Rig
unfolding set_viciv set_port
machine_init g =
    let m = g.machine in
    let t = m.trace in
    record {
      machine = record m {
        regs = record first_regs { b = 0xbf; in_hyper = 1; maphimb = 0xff; maphi = 0x3f00 };
        stack_overflow = false;
        stack_underflow = false;
        bus = record m.bus {
          chipram = set_port m.bus.chipram;
          ffdram = set_viciv m.bus.ffdram;
          chipram_blame = λ i. 0;
          hypporam_blame = λ i. 0;
          term = record { done = false; error = false; rts = 0; brk = false; log_dma = false };
          instruction_count = 0;
        };
        trace = record t {
          entries = free_entries t.cpulog_len t;
          cpulog_len = 0;
          lastataddr = λ a. none;
        };
      };
      expected = record {
        chipram = set_port (λ i. 0);
        hypporam = λ i. 0;
        colourram = λ i. 0;
        ffdram = set_viciv (λ i. 0);
        regs = first_regs;
      };
    }

-- Every byte of the memories is 0, as when the program starts.
pub record IsClear (s : Bus) : Type 0 where
  pub chipram : (i : ℕ) → s.chipram i ≡ 0
  pub hypporam : (i : ℕ) → s.hypporam i ≡ 0
  pub colourram : (i : ℕ) → s.colourram i ≡ 0
  pub ffdram : (i : ℕ) → s.ffdram i ≡ 0

-- After `machine_init` the memories compare as expected where they were clear before.
pub compare_ram_contents-machine_init :
    (g : Rig) → IsClear g.machine.bus → (compare_ram_contents (machine_init g)).0 ≡ 0
unfolding machine_init set_port set_viciv
compare_ram_contents-machine_init g c = (compare_ram_contents_lem (machine_init g)).1 (
  λ i h. ground (arith, c.chipram i),
  λ i h. c.hypporam i,
  λ i h. c.colourram i,
  λ i h. ground (arith, c.ffdram i),
)

-- Where it does not clear a byte of the chip RAM that an earlier test has left, the comparison after
-- `machine_init` finds differences.
machine_init-stale :
    (g : Rig) (i : ℕ)
    → 2 ≤ i
    → i < 384 * 1024
    → g.machine.bus.chipram i ≢ 0
    → (compare_ram_contents (machine_init g)).0 ≢ 0
unfolding machine_init set_port
machine_init-stale g i low high stale e =
    let agree = ((compare_ram_contents_lem (machine_init g)).0 e).0 in
    stale (ground (arith, agree i high))

-- The memory map of the hypervisor: its RAM in the third quarter of the addresses, I/O at $D000, the
-- KERNAL from $E000 on for reading, and otherwise the chip RAM.
abbrev pub hypervisor_cell : ℕ → Bool → Cell
hypervisor_cell addr write_p =
    if ltb addr 0x8000
    then Cell.chip addr
    else if ltb addr 0xc000
    then Cell.hyppo (addr - 0x8000)
    else if ltb addr 0xd000
    then Cell.chip addr
    else if ltb addr 0xe000
    then Cell.io (addr - 0xa000)
    else if write_p
    then Cell.chip addr
    else Cell.chip (0x20000 + addr)

-- Which zones MAP covers then.
zone_mapped :
    (zone addr : ℕ)
    → addr / 2 ^ 13 ≡ zone
    → addr < 0x10000
    → (if ltb zone 4 then 0 / 2 ^ (12 + zone) % 2 == 1 else 0x3f00 / 2 ^ (12 + zone - 4) % 2 == 1)
      ≡ (leb 0x8000 addr && ltb addr 0xc000)
zone_mapped zero addr e h = ground arith
zone_mapped (suc zero) addr e h = ground arith
zone_mapped (suc (suc zero)) addr e h = ground arith
zone_mapped (suc (suc (suc zero))) addr e h = ground arith
zone_mapped (suc (suc (suc (suc zero)))) addr e h = ground arith
zone_mapped (suc (suc (suc (suc (suc zero))))) addr e h = ground arith
zone_mapped (suc (suc (suc (suc (suc (suc zero)))))) addr e h = ground arith
zone_mapped (suc (suc (suc (suc (suc (suc (suc zero))))))) addr e h = ground arith
zone_mapped (suc (suc (suc (suc (suc (suc (suc (suc zone)))))))) addr e h = absurd (omega arith)

first_mapped :
    (r : Regs) (addr : ℕ)
    → r.maplo ≡ 0
    → r.maphi ≡ 0x3f00
    → addr < 0x10000
    → is_mapped r addr ≡ (leb 0x8000 addr && ltb addr 0xc000)
unfolding is_mapped
first_mapped r addr l h k = rw (l, h) (zone_mapped (addr / 2 ^ 13) addr refl k)

-- After `machine_init`, `addr_to_28bit` gives the memory map of the hypervisor for every 16-bit address,
-- whatever ran before, the program still runs as far as it did, and the log is empty.
pub machine_init-hypervisor_cell :
    (g : Rig) (addr : ℕ) (w : Bool)
    → addr < 0x10000
    → let m = (machine_init g).machine in
      (cell_of (addr_to_28bit m.regs m.bus addr w).0 ≡ hypervisor_cell addr w)
      × (m.trace.cpulog_len ≡ 0)
      × (m.bus.fate ≡ g.machine.bus.fate)
unfolding machine_init addr_to_28bit map_address c64_bank port_lines set_port cell_of
machine_init-hypervisor_cell g addr w h =
    let m = (machine_init g).machine in
    (rw (first_mapped m.regs addr refl refl h) (ground arith), refl, refl)
