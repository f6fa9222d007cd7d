-- ===== src/RlePack/Verifying.antt =====
-- The verification at the end of `main` in src/tools/pngprepare/rlepack.c, on a file of tokens.
use mega65_core.Prelude.{
  ℕ, zero, suc, ◌+◌, ◌*◌, ◌≤◌, ◌<◌, ◌≡◌, refl, ap, ◌∙◌, arith, true, ◌==◌, List, [], ◌∷◌, ◌++◌, min,
}
use mathlib.Core.Path.{subst}
use mega65_core.RlePack.Table.{max_raw_size}
use mega65_core.RlePack.Output.{
  Unpacker, unpack, ok, length, read_into, check_unpacked, same_from, verify_file,
}
use mega65_core.RlePack.Token.{Token, span, Encodes, total_size, token_bytes, file_bytes}
use mega65_core.RlePack.Holding.{read_into-Holds, length-token_bytes}
use mega65_core.RlePack.Unpacking.{IsUnpacked, IsDone, unpack-IsDone}

length-append : (xs ys : List ℕ) → length (xs ++ ys) ≡ length xs + length ys
length-append [] ys = omega arith
length-append (x ∷ xs) ys = omega (arith, length-append xs ys)

pub length-file_bytes :
    (raw : ℕ → ℕ) (s : ℕ) (toks : List Token) → length (file_bytes raw s toks) ≡ total_size toks + 1
length-file_bytes raw s [] = refl
length-file_bytes raw s (tok ∷ toks) = omega (
  arith,
  length-append (token_bytes raw s tok) (file_bytes raw (s + span tok) toks),
  length-token_bytes raw s tok,
  length-file_bytes raw (s + span tok) toks,
)

same_from-true :
    (raw f : ℕ → ℕ) (i n : ℕ) → ((q : ℕ) → q < i + n → f q ≡ raw q) → same_from raw f i n ≡ true
unfolding same_from
same_from-true raw f i zero h = refl
same_from-true raw f i (suc n) h =
    ground (arith, h i, same_from-true raw f (suc i) n (λ q lt. h q (omega arith)))

module _ (raw : ℕ → ℕ) (n : ℕ) where
  check_unpacked-ok :
      (packed : ℕ → ℕ) (o : ℕ) (u : Unpacker)
      → IsUnpacked raw o n u
      → packed o ≡ 0
      → check_unpacked raw n packed (o + 1) u ≡ ok u
  unfolding check_unpacked
  check_unpacked-ok packed o u k z =
      let zero_there : packed u.offset ≡ 0 = ap packed k.at ∙ z in
      let agree = same_from-true raw u.unpacked 0 n (λ q h. k.same q (omega arith)) in
      let used : (suc u.offset == o + 1) ≡ true = ground (arith, k.at) in
      let full : (u.unpacked_len == n) ≡ true = ground (arith, k.len) in
      rw (zero_there, full, used, agree) refl

  verify_parts :
      (file : List ℕ) (junk scratch : ℕ → ℕ) (u : Unpacker)
      → let len = min (length file) (max_raw_size * 2) in
        unpack
            (len + 2)
            (read_into junk file)
            len
            n
            (record { offset = 0; unpacked_len = 0; unpacked = scratch })
          ≡ ok u
        → check_unpacked raw n (read_into junk file) (min (length file) (max_raw_size * 2)) u ≡ ok u
        → verify_file raw n junk scratch file ≡ ok u
  unfolding verify_file
  verify_parts file junk scratch u e c = rw e c

  unpack_file-IsDone :
      (toks : List Token) (junk scratch : ℕ → ℕ)
      → Encodes raw 0 toks n
      → let packed = read_into junk (file_bytes raw 0 toks) in
        IsDone raw
          (unpack
            (total_size toks + 1 + 2)
            packed
            (total_size toks + 1)
            n
            (record { offset = 0; unpacked_len = 0; unpacked = scratch }))
          packed
          (total_size toks)
          n
  unpack_file-IsDone toks junk scratch enc =
      let packed = read_into junk (file_bytes raw 0 toks) in
      let len = total_size toks + 1 in
      let start : Unpacker = record { offset = 0; unpacked_len = 0; unpacked = scratch } in
      let zero_add : 0 + total_size toks ≡ total_size toks = omega arith in
      subst (λ o. IsDone raw (unpack (len + 2) packed len n start) packed o n) zero_add
        (unpack-IsDone raw packed len n toks (len + 2) 0 0 start (omega arith) (omega arith)
          (record { at = refl; len = refl; same = λ q h. absurd (omega arith) }) enc
          (read_into-Holds junk (file_bytes raw 0 toks)))

  -- The verification of a file that encodes the input succeeds, whatever its arrays held before.
  pub verify_file-ok :
      (toks : List Token) (junk scratch : ℕ → ℕ)
      → Encodes raw 0 toks n
      → total_size toks + 1 ≤ max_raw_size * 2
      → (u : Unpacker) × (verify_file raw n junk scratch (file_bytes raw 0 toks) ≡ ok u)
        × ((q : ℕ) → q < n → u.unpacked q ≡ raw q)
  verify_file-ok toks junk scratch enc fits =
      let file = file_bytes raw 0 toks in
      let done = unpack_file-IsDone toks junk scratch enc in
      let whole : min (length file) (max_raw_size * 2) ≡ total_size toks + 1 =
        omega (arith, length-file_bytes raw 0 toks) in
      (
        done.final,
        verify_parts file junk scratch done.final (rw whole done.returned) (
            rw whole (
              check_unpacked-ok (read_into junk file) (total_size toks) done.final done.complete
                done.zero_there)),
        done.complete.same,
      )
