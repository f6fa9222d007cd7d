-- ===== src/RlePack/Writing.antt =====
-- The queue that `main` of src/tools/pngprepare/rlepack.c traces back, and the file it writes from it.
use mega65_core.Prelude.{
  ℕ, zero, suc, ◌+◌, ◌≤◌, ◌<◌, ◌≡◌, refl, ap, ◌∙◌, inl, inr, arith, List, ◌∷◌, some, false, ◌==◌,
}
use mega65_core.RlePack.Table.{DpItem, Table, max_raw_size}
use mega65_core.RlePack.Output.{ok, trace, write_queue, write_item, write_region}
use mega65_core.RlePack.Token.{
  Token, literal, run, pairs, code_of, Matches, Encodes, total_size, token_bytes, file_bytes,
}
use mega65_core.RlePack.Improve.{cost, code2_of, Entry, Matches-span}
use mega65_core.RlePack.Best.{IsPacked}
use mega65_core.RlePack.Codes.{masks_lem}

trace_step :
    (rounds : ℕ) (t : Table) (o p : ℕ) (queue : List DpItem)
    → (t (suc o)).parent ≡ some p
    → p < suc o
    → trace (suc rounds) t (suc o) queue ≡ trace rounds t p (t (suc o) ∷ queue)
unfolding trace
trace_step rounds t o p queue from lt = ground arith

module _ (raw : ℕ → ℕ) where
  write_region-token :
      (s : ℕ) (tok : Token) (item : DpItem)
      → Matches raw s tok
      → item.code_byte ≡ code_of tok
      → item.code_byte2 ≡ code2_of tok item.code_byte2
      → write_region raw item s ≡ token_bytes raw s tok
  unfolding write_region
  write_region-token s (literal n) item m e e2 =
      let masks = masks_lem n m.1 in
      let other : (n == 0x80) ≡ false = ground arith in rw e (rw (other, masks.0, masks.1) refl)
  write_region-token s (run n) item m e e2 =
      let masks = masks_lem n m.1 in
      let other : (0x80 + n == 0x80) ≡ false = ground arith in rw e (rw (other, masks.2) refl)
  write_region-token s (pairs n) item m e e2 = rw (e, e2) refl

  write_item-Entry :
      (t : Table) (s e : ℕ) (n : Entry raw t s e)
      → write_item raw (t e) ≡ ok (token_bytes raw s n.tok)
  unfolding write_item
  write_item-Entry t s e n =
      rw n.region (ap ok (write_region-token s n.tok (t e) n.matches n.code n.code2))

  -- What following the parents from an end leads to, where the queue already holds the tokens from
  -- there on.
  pub record IsTraced (n : ℕ) (t : Table) (rounds e : ℕ) (queue : List DpItem) (extra : ℕ)
      : Type 0 where
    pub toks : List Token
    pub items : List DpItem
    pub traced : trace rounds t e queue ≡ ok items
    pub encodes : Encodes raw 0 toks n
    pub written : write_queue raw items ≡ ok (file_bytes raw 0 toks)
    pub paid : total_size toks ≡ cost t e + extra

  module _ (n : ℕ) (t : Table) (small : n ≤ max_raw_size) (k : IsPacked raw n n t) where
    reached-Entry : (e : ℕ) → 0 < e → e ≤ n → (p : ℕ) × (p < e) × Entry raw t p e
    reached-Entry e pos h = elim (k.entries e pos) [
      | inl far ↦ absurd (omega (arith, far, k.bounded e h))
      | inr (p, lt, entry) ↦
          (p, omega (arith, entry.reaches, Matches-span raw p entry.tok entry.matches), entry)
    ]

    pub trace-IsTraced :
        (rounds e : ℕ) (queue : List DpItem) (toks : List Token)
        → e ≤ rounds
        → e ≤ n
        → Encodes raw e toks n
        → write_queue raw queue ≡ ok (file_bytes raw e toks)
        → IsTraced n t rounds e queue (total_size toks)
    unfolding trace write_queue
    trace-IsTraced rounds zero queue toks hr hn enc w = record {
      toks = toks;
      items = queue;
      traced = refl;
      encodes = enc;
      written = w;
      paid = omega (arith, k.origin);
    }
    trace-IsTraced zero (suc o) queue toks hr hn enc w = absurd (omega arith)
    trace-IsTraced (suc rounds) (suc o) queue toks hr hn enc w =
        let (p, lt, entry) = reached-Entry (suc o) (omega arith) hn in
        let ih =
          trace-IsTraced rounds p (t (suc o) ∷ queue) (entry.tok ∷ toks) (omega arith) (omega arith)
            (entry.matches, rw entry.reaches enc)
            (rw (write_item-Entry t p (suc o) entry) (rw w (rw entry.reaches refl))) in
        record {
          toks = ih.toks;
          items = ih.items;
          traced = trace_step rounds t o p queue entry.from lt ∙ ih.traced;
          encodes = ih.encodes;
          written = ih.written;
          paid = omega (arith, ih.paid, entry.paid);
        }
