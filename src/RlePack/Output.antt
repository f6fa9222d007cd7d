-- ===== src/RlePack/Output.antt =====
-- `main` of src/tools/pngprepare/rlepack.c from the filled table on: the queue of tokens, the file
-- that is written, and the verification that unpacks it again.
use mega65_core.Prelude.{
  ℕ, zero, suc, ◌+◌, ◌*◌, Bool, true, ◌&&◌, leb, ltb, ◌==◌, if◌then◌else◌, store, none, some, List,
  [], ◌∷◌, ◌++◌, bit_and, min,
}
use mega65_core.RlePack.Table.{DpItem, Table, max_raw_size, pack_table}

-- Why the program ends without success. `endless` is a loop that has run out of rounds, and
-- `null_region` a read through NULL.
pub data PackError : Type 0 where
  unreadable : PackError
  circular : PackError
  endless : PackError
  null_region : PackError
  wrong_length : PackError
  unused_bytes : PackError
  wrong_byte : PackError

pub data Result (A : Type 0) : Type 0 where
  ok : A → Result A
  err : PackError → Result A

infixl 5 ◌>>=◌
abbrev pub ◌>>=◌ : {A B : Type 0} → Result A → (A → Result B) → Result B
ok a >>= f = f a
err e >>= f = err e

-- The loop that follows the parents. The item that was queued last, which is written first, is the
-- head of the list.
unfoldable pub trace : ℕ → Table → ℕ → List DpItem → Result (List DpItem)
trace rounds t zero queue = ok queue
trace zero t (suc o) queue = err endless
trace (suc rounds) t (suc o) queue =
    let item = t (suc o) in
    elim item.parent [
      | none ↦ ok (item ∷ queue)
      | some p ↦ if leb (suc o) p then err circular else trace rounds t p (item ∷ queue)
    ]

-- `n` bytes of an array from an index on.
abbrev pub bytes_from : (ℕ → ℕ) → ℕ → ℕ → List ℕ
bytes_from raw i zero = []
bytes_from raw i (suc n) = raw i ∷ bytes_from raw (suc i) n

unfoldable pub write_region : (ℕ → ℕ) → DpItem → ℕ → List ℕ
write_region raw item region =
    if item.code_byte == 0x80
    then item.code_byte ∷ item.code_byte2 ∷ raw region ∷ raw (region + 1) ∷ []
    else if ltb 0 (bit_and item.code_byte 0x80)
    then item.code_byte ∷ raw region ∷ []
    else item.code_byte ∷ bytes_from raw region (bit_and item.code_byte 0x7f)

unfoldable pub write_item : (ℕ → ℕ) → DpItem → Result (List ℕ)
unfolding write_region
write_item raw item = elim item.raw_region [
  | none ↦ err null_region
  | some region ↦ ok (write_region raw item region)
]

unfoldable pub write_queue : (ℕ → ℕ) → List DpItem → Result (List ℕ)
unfolding write_item
write_queue raw [] = ok (0x00 ∷ [])
write_queue raw (item ∷ queue) = do
  token ← write_item raw item
  rest ← write_queue raw queue
  ok (token ++ rest)

-- The variables of the verification.
pub record Unpacker : Type 0 where
  pub offset : ℕ
  pub unpacked_len : ℕ
  pub unpacked : ℕ → ℕ

-- `unpacked[unpacked_len++] = v`.
abbrev pub append_byte : ℕ → Unpacker → Unpacker
append_byte v u = record u {
  unpacked = store u.unpacked u.unpacked_len v;
  unpacked_len = suc u.unpacked_len;
}

unfoldable pub append_pairs : ℕ → ℕ → ℕ → Unpacker → Unpacker
append_pairs v w zero u = u
append_pairs v w (suc n) u = append_pairs v w n (append_byte w (append_byte v u))

unfoldable pub append_run : ℕ → ℕ → Unpacker → Unpacker
append_run v zero u = u
append_run v (suc n) u = append_run v n (append_byte v u)

-- `bcopy`, from the index `i` of `packed`.
unfoldable pub append_copy : (ℕ → ℕ) → ℕ → ℕ → Unpacker → Unpacker
append_copy packed i zero u = u
append_copy packed i (suc n) u = append_copy packed (suc i) n (append_byte (packed i) u)

abbrev pub skip : ℕ → Unpacker → Unpacker
skip n u = record u { offset = u.offset + n }

-- The body of the loop.
unfoldable pub unpack_token : (ℕ → ℕ) → Unpacker → Unpacker
unpack_token packed u =
    let o = u.offset in
    let count = bit_and (packed o) 0x7f in
    if packed o == 0x80
    then skip 4 (append_pairs (packed (o + 2)) (packed (o + 3)) (packed (o + 1)) u)
    else if ltb 0 (bit_and (packed o) 0x80)
    then skip 2 (append_run (packed (o + 1)) count u)
    else skip (1 + count) (append_copy packed (o + 1) count u)

unfoldable pub unpack : ℕ → (ℕ → ℕ) → ℕ → ℕ → Unpacker → Result Unpacker
unfolding unpack_token
unpack zero packed packed_len raw_size u = err endless
unpack (suc rounds) packed packed_len raw_size u =
    let rest = unpack rounds packed packed_len raw_size (unpack_token packed u) in
    if leb u.offset packed_len && ltb u.unpacked_len raw_size then rest else ok u

-- Whether the arrays agree on the `n` indices from `i` on.
unfoldable pub same_from : (ℕ → ℕ) → (ℕ → ℕ) → ℕ → ℕ → Bool
same_from raw unpacked i zero = true
same_from raw unpacked i (suc n) = raw i == unpacked i && same_from raw unpacked (suc i) n

-- The checks after the loop.
unfoldable pub check_unpacked : (ℕ → ℕ) → ℕ → (ℕ → ℕ) → ℕ → Unpacker → Result Unpacker
unfolding same_from
check_unpacked raw raw_size packed packed_len u =
    let offset = if packed u.offset == 0 then suc u.offset else u.offset in
    if u.unpacked_len == raw_size
    then if offset == packed_len
      then if same_from raw u.unpacked 0 raw_size then ok u else err wrong_byte
      else err unused_bytes
    else err wrong_length

-- `fread` into an array that holds `junk` so far.
abbrev pub read_into : (ℕ → ℕ) → List ℕ → ℕ → ℕ
read_into junk [] i = junk i
read_into junk (x ∷ xs) zero = x
read_into junk (x ∷ xs) (suc i) = read_into (λ j. junk (suc j)) xs i

abbrev pub length : List ℕ → ℕ
length [] = 0
length (x ∷ xs) = suc (length xs)

-- `junk` and `scratch` are what the local arrays `packed` and `unpacked` hold before. A round of the
-- loop moves `offset` on, so that two rounds more than bytes suffice.
unfoldable pub verify_file : (ℕ → ℕ) → ℕ → (ℕ → ℕ) → (ℕ → ℕ) → List ℕ → Result Unpacker
verify_file raw raw_size junk scratch file = do
  let packed_len = min (length file) (max_raw_size * 2)
  let packed = read_into junk file
  u ←
      unpack (packed_len + 2) packed packed_len raw_size
        (record { offset = 0; unpacked_len = 0; unpacked = scratch })
  check_unpacked raw raw_size packed packed_len u

-- `main`, from the input in `raw` to the file that it leaves.
unfoldable pub pack_file : (ℕ → ℕ) → ℕ → (ℕ → ℕ) → (ℕ → ℕ) → Result (List ℕ)
pack_file raw raw_size junk scratch = if ltb raw_size 1 then err unreadable else do
  queue ← trace raw_size (pack_table raw raw_size raw_size) raw_size []
  file ← write_queue raw queue
  _ ← verify_file raw raw_size junk scratch file
  ok file
