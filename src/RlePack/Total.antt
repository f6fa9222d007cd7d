-- ===== src/RlePack/Total.antt =====
-- `main` of src/tools/pngprepare/rlepack.c as a whole: its outcome, and the file that it writes.
use mega65_core.Prelude.{
  ℕ, zero, suc, ◌+◌, ◌*◌, ◌≤◌, ◌<◌, ◌≡◌, refl, sym, ap, ◌∙◌, arith, false, ltb, List, [], ◌∷◌,
}
use mathlib.Core.Path.{subst}
use mega65_core.RlePack.Table.{Table, max_raw_size, pack_table}
use mega65_core.RlePack.Output.{Unpacker, ok, length, Result, verify_file, pack_file, write_queue}
use mega65_core.RlePack.Token.{Token, literal, span, Encodes, total_size, file_bytes}
use mega65_core.RlePack.Improve.{cost, Matches-span}
use mega65_core.RlePack.Best.{IsPacked, pack_table-IsPacked}
use mega65_core.RlePack.Writing.{IsTraced, trace-IsTraced}
use mega65_core.RlePack.Unpacking.{Encodes-le}
use mega65_core.RlePack.Verifying.{length-file_bytes, verify_file-ok}

some_input : (n : ℕ) → 1 ≤ n → ltb n 1 ≡ false
some_input n h = ground arith

module _ (raw : ℕ → ℕ) (n : ℕ) where
  -- No tokens cost less than the table says.
  cost-le :
      (t : Table)
      → IsPacked raw n n t
      → (p : ℕ) (toks : List Token) → Encodes raw p toks n
      → cost t n ≤ cost t p + total_size toks
  cost-le t k p [] h = omega (arith, ap (cost t) h)
  cost-le t k p (tok ∷ toks) h =
      let more = Matches-span raw p tok h.0 in
      let fits = Encodes-le raw (p + span tok) n toks h.1 in
      omega (arith, cost-le t k (p + span tok) toks h.1, k.best p tok (omega arith) h.0 fits)

-- The cost of the whole leaves room for the final zero in the array that it is read back into.
cost-fits :
    (raw : ℕ → ℕ) (n : ℕ) (t : Table)
    → n ≤ max_raw_size
    → IsPacked raw n n t
    → cost t n + 1 ≤ max_raw_size * 2
cost-fits raw zero t h k = omega (arith, k.origin)
cost-fits raw (suc zero) t h k = omega (arith, k.bounded 1 (omega arith))
cost-fits raw (suc (suc m)) t h k =
    let e : m + 2 ≡ suc (suc m) = omega arith in
    let last =
      subst (λ q. cost t q ≤ 3 + cost t m) e
        (k.best m (literal 2) (omega arith) (omega arith, omega arith) (omega arith)) in
    omega (arith, last, k.bounded m (omega arith))

-- What the program has written: the bytes of tokens that stand for its input, and no tokens that do
-- take fewer.
pub record IsShortest (raw : ℕ → ℕ) (n : ℕ) (file : List ℕ) : Type 0 where
  pub toks : List Token
  pub encodes : Encodes raw 0 toks n
  pub written : file ≡ file_bytes raw 0 toks
  pub least :
      (others : List Token)
      → Encodes raw 0 others n
      → length file ≤ length (file_bytes raw 0 others)

module _ (raw : ℕ → ℕ) (n : ℕ) (junk scratch : ℕ → ℕ) (pos : 1 ≤ n) (small : n ≤ max_raw_size) where
  abbrev packed_table : Table
  packed_table = pack_table raw n n

  packed_table-IsTraced : IsTraced raw n packed_table n n [] 0
  unfolding write_queue
  packed_table-IsTraced =
      trace-IsTraced raw n packed_table small (pack_table-IsPacked raw n n (omega arith)) n n [] []
        (omega arith) (omega arith) refl refl

  pack_file-tokens :
      let toks = packed_table-IsTraced.toks in
      (pack_file raw n junk scratch ≡ ok (file_bytes raw 0 toks))
      × (total_size toks ≡ cost packed_table n)
  unfolding pack_file
  pack_file-tokens =
      let tr = packed_table-IsTraced in
      let paid : total_size tr.toks ≡ cost packed_table n = omega (arith, tr.paid) in
      let fits = cost-fits raw n packed_table small (pack_table-IsPacked raw n n (omega arith)) in
      let (u, done, same) = verify_file-ok raw n tr.toks junk scratch tr.encodes (omega arith) in
      (rw (some_input n pos) (rw tr.traced (rw tr.written (rw done refl))), paid)

  packed_file :
      (file : List ℕ)
      → pack_file raw n junk scratch ≡ ok file
      → file ≡ file_bytes raw 0 packed_table-IsTraced.toks
  packed_file file h = ok_injective (sym h ∙ pack_file-tokens.0)
    where
      ok_injective : {A : Type 0} {a b : A} → ◌≡◌ {A = Result A} (ok a) (ok b) → a ≡ b
      ok_injective e = cc

  -- A file of 1 to 128K bytes is packed with success, and what is written unpacks to it again,
  -- whatever the arrays of the program held before.
  pub pack_file-total :
      (file : List ℕ) × (pack_file raw n junk scratch ≡ ok file)
      × (((junk' scratch' : ℕ → ℕ)
          → (u : Unpacker) × (verify_file raw n junk' scratch' file ≡ ok u)
            × ((q : ℕ) → q < n → u.unpacked q ≡ raw q)))
  pack_file-total =
      let tr = packed_table-IsTraced in
      let fits = cost-fits raw n packed_table small (pack_table-IsPacked raw n n (omega arith)) in
      let paid = pack_file-tokens.1 in
      (
        file_bytes raw 0 tr.toks,
        pack_file-tokens.0,
        λ junk' scratch'. verify_file-ok raw n tr.toks junk' scratch' tr.encodes (omega arith),
      )

  -- From an input of 1 to 128K bytes, the file that is written is a sequence of tokens that match the
  -- input, one after the other, with a zero at its end, and no sequence that also matches all of it
  -- takes fewer bytes.
  pub pack_file-IsShortest :
      (file : List ℕ) → pack_file raw n junk scratch ≡ ok file → IsShortest raw n file
  pack_file-IsShortest file h =
      let tr = packed_table-IsTraced in
      let k = pack_table-IsPacked raw n n (omega arith) in
      record {
        toks = tr.toks;
        encodes = tr.encodes;
        written = packed_file file h;
        least = λ others enc. rw (packed_file file h) (
            omega (
              arith,
              length-file_bytes raw 0 tr.toks,
              length-file_bytes raw 0 others,
              pack_file-tokens.1,
              cost-le raw n packed_table k 0 others enc,
              k.origin,
            ));
      }

  -- The file that is written from 1 to 128K bytes is one byte longer than the cost in the table, which
  -- the program prints as its size.
  pub length-pack_file :
      (file : List ℕ)
      → pack_file raw n junk scratch ≡ ok file
      → length file ≡ (pack_table raw n n n).cumulative_cost + 1
  length-pack_file file h =
      rw (packed_file file h)
        (omega (arith, length-file_bytes raw 0 packed_table-IsTraced.toks, pack_file-tokens.1))
