-- ===== src/RlePack/Table.antt =====
-- `dp_item`, `dp_list` and the loops of `main` in src/tools/pngprepare/rlepack.c that fill the table.
-- `raw` is the array that the file was read into, and may hold anything from `raw_size` on, where the
-- tests of the loops read. A pointer into it is an index. NULL and the invalid parent -1 are `none`.
use mega65_core.Prelude.{
  ℕ, zero, suc, ◌+◌, ◌-◌, ◌*◌, ◌/◌, Bool, ◌&&◌, leb, ltb, ◌==◌, if◌then◌else◌, byte, store, Option,
  none, some,
}

abbrev pub max_raw_size : ℕ
max_raw_size = 128 * 1024

pub record DpItem : Type 0 where
  pub code_byte : ℕ
  pub code_byte2 : ℕ
  pub raw_region : Option ℕ
  pub cumulative_cost : ℕ
  pub parent : Option ℕ
  pub offset : ℕ

-- `dp_list`.
abbrev pub Table : Type 0
Table = ℕ → DpItem

abbrev pub infinite_cost : ℕ
infinite_cost = 999999999

-- What the program sets an item to; the rest of a global is zero.
abbrev pub initial_item : ℕ → DpItem
initial_item i = record {
  code_byte = 0;
  code_byte2 = 0;
  raw_region = none;
  cumulative_cost = infinite_cost;
  parent = none;
  offset = i;
}

unfoldable pub initial_table : Table
initial_table = store initial_item 0 (record (initial_item 0) { cumulative_cost = 0 })

-- `for (end = ...; test; end += step)`, with a number of rounds after which the test is false.
unfoldable pub for_ends : (ℕ → Bool) → (ℕ → Table → Table) → ℕ → ℕ → ℕ → Table → Table
for_ends test body step zero end t = t
for_ends test body step (suc rounds) end t =
    let rest = for_ends test body step rounds (end + step) (body end t) in
    if test end then rest else t

module _ (start cumulative_cost : ℕ) where
  -- The bodies of the three loops.
  unfoldable pub offer_raw : ℕ → Table → Table
  offer_raw end t =
      let this_cost = 1 + (end - start) in
      if ltb (this_cost + cumulative_cost) (t end).cumulative_cost
      then store t end (record (t end) {
        code_byte = byte (0x00 + (end - start));
        cumulative_cost = this_cost + cumulative_cost;
        raw_region = some start;
        parent = some start;
      })
      else t

  unfoldable pub offer_rle : ℕ → Table → Table
  offer_rle end t =
      let this_cost : ℕ = 1 + 1 in
      if ltb (this_cost + cumulative_cost) (t end).cumulative_cost
      then store t end (record (t end) {
        code_byte = byte (0x80 + (end - start));
        cumulative_cost = this_cost + cumulative_cost;
        raw_region = some start;
        parent = some start;
      })
      else t

  unfoldable pub offer_pairs : ℕ → Table → Table
  offer_pairs end t =
      let this_cost : ℕ = 1 + 1 + 2 in
      if ltb (this_cost + cumulative_cost) (t end).cumulative_cost
      then store t end (record (t end) {
        code_byte = 0x80;
        code_byte2 = byte ((end - start) / 2);
        cumulative_cost = this_cost + cumulative_cost;
        raw_region = some start;
        parent = some start;
      })
      else t

module _ (raw : ℕ → ℕ) (raw_size start : ℕ) where
  -- Their tests.
  unfoldable pub raw_goes_on : ℕ → Bool
  raw_goes_on end = leb end raw_size && ltb (end - start) 128

  unfoldable pub rle_goes_on : ℕ → Bool
  rle_goes_on end = raw (end - 1) == raw start && (leb end raw_size && ltb (end - start) 128)

  unfoldable pub pairs_go_on : ℕ → Bool
  pairs_go_on end =
      raw (end - 2) == raw start
      && (raw (end - 1) == raw (start + 1) && (leb end raw_size && ltb (end - start) 512))

  -- A round of the loop over `start`.
  unfoldable pub pack_from : Table → Table
  pack_from t =
      let cumulative_cost = (t start).cumulative_cost in
      let with_raw = for_ends raw_goes_on (offer_raw start cumulative_cost) 1 128 (start + 1) t in
      let with_rle =
        for_ends rle_goes_on (offer_rle start cumulative_cost) 1 128 (start + 1) with_raw in
      for_ends pairs_go_on (offer_pairs start cumulative_cost) 2 256 (start + 2) with_rle

-- The table after the rounds below `start`.
unfoldable pub pack_table : (raw : ℕ → ℕ) (raw_size start : ℕ) → Table
unfolding pack_from initial_table for_ends offer_raw offer_rle offer_pairs raw_goes_on rle_goes_on
    pairs_go_on
pack_table raw raw_size zero = initial_table
pack_table raw raw_size (suc start) = pack_from raw raw_size start (pack_table raw raw_size start)
