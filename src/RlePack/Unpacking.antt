-- ===== src/RlePack/Unpacking.antt =====
-- The loop of `main` in src/tools/pngprepare/rlepack.c that unpacks what was written.
use mega65_core.Prelude.{
  ℕ, zero, suc, ◌+◌, ◌*◌, ◌≤◌, ◌<◌, ◌≡◌, refl, sym, ap, ◌∙◌, arith, List, [], ◌∷◌, false, true,
  ◌==◌, leb, lt→ltb,
}
use mathlib.Core.Path.{subst}
use mega65_core.RlePack.Output.{
  Unpacker, append_byte, append_run, append_pairs, append_copy, unpack_token, Result, unpack, ok,
  skip,
}
use mega65_core.RlePack.Token.{
  Token, literal, run, pairs, span, size, Matches, Encodes, total_size, token_bytes, file_bytes,
}
use mega65_core.RlePack.Improve.{Matches-span}
use mega65_core.RlePack.Codes.{masks_lem}
use mega65_core.RlePack.Holding.{Holds, Holds-append, Holds-bytes_from, length-token_bytes}

size-pos : (tok : Token) → 0 < size tok
size-pos (literal n) = omega arith
size-pos (run n) = omega arith
size-pos (pairs n) = omega arith

module _ (raw : ℕ → ℕ) where
  -- The bytes below `s` are unpacked, and the next token is at `o`.
  pub record IsUnpacked (o s : ℕ) (u : Unpacker) : Type 0 where
    pub at : u.offset ≡ o
    pub len : u.unpacked_len ≡ s
    pub same : (q : ℕ) → q < s → u.unpacked q ≡ raw q

  moved : (s i : ℕ) → raw (suc s + i) ≡ raw (s + suc i)
  moved s i = ap raw (omega arith)

  append_byte-IsUnpacked :
      (o s v : ℕ) (u : Unpacker)
      → IsUnpacked o s u
      → v ≡ raw s
      → IsUnpacked o (suc s) (append_byte v u)
  append_byte-IsUnpacked o s v u k h = record {
    at = k.at;
    len = ap suc k.len;
    same = λ q lt. ground (arith, k.len, k.same q, ap raw {x = s} {y = q});
  }

  append_run-IsUnpacked :
      (o s v n : ℕ) (u : Unpacker)
      → IsUnpacked o s u
      → ((i : ℕ) → i < n → raw (s + i) ≡ v)
      → IsUnpacked o (s + n) (append_run v n u)
  unfolding append_run
  append_run-IsUnpacked o s v zero u k h = subst (λ t. IsUnpacked o t u) (omega arith) k
  append_run-IsUnpacked o s v (suc n) u k h =
      let here : s + 0 ≡ s = omega arith in
      let first = append_byte-IsUnpacked o s v u k (sym (h 0 (omega arith)) ∙ ap raw here) in
      let rest =
        append_run-IsUnpacked o (suc s) v n (append_byte v u) first
          (λ i lt. moved s i ∙ h (suc i) (omega arith)) in
      subst (λ t. IsUnpacked o t (append_run v n (append_byte v u))) (omega arith) rest

  append_copy-IsUnpacked :
      (packed : ℕ → ℕ) (o s p n : ℕ) (u : Unpacker)
      → IsUnpacked o s u
      → ((i : ℕ) → i < n → packed (p + i) ≡ raw (s + i))
      → IsUnpacked o (s + n) (append_copy packed p n u)
  unfolding append_copy
  append_copy-IsUnpacked packed o s p zero u k h = subst (λ t. IsUnpacked o t u) (omega arith) k
  append_copy-IsUnpacked packed o s p (suc n) u k h =
      let first : IsUnpacked o (suc s) (append_byte (packed p) u) =
        append_byte-IsUnpacked o s (packed p) u k
          (ap packed (omega arith) ∙ h 0 (omega arith) ∙ ap raw (omega arith)) in
      let rest : IsUnpacked o (suc s + n)
          (append_copy packed (suc p) n (append_byte (packed p) u)) =
        append_copy-IsUnpacked packed o (suc s) (suc p) n (append_byte (packed p) u) first
          (λ i lt. ap packed (omega arith) ∙ h (suc i) (omega arith) ∙ sym (moved s i)) in
      subst (λ t. IsUnpacked o t (append_copy packed (suc p) n (append_byte (packed p) u)))
        (omega arith) rest

  append_pairs-IsUnpacked :
      (o s v w n : ℕ) (u : Unpacker)
      → IsUnpacked o s u
      → ((i : ℕ) → i < n → (raw (s + i * 2) ≡ v) × (raw (s + i * 2 + 1) ≡ w))
      → IsUnpacked o (s + n * 2) (append_pairs v w n u)
  unfolding append_pairs
  append_pairs-IsUnpacked o s v w zero u k h = subst (λ t. IsUnpacked o t u) (omega arith) k
  append_pairs-IsUnpacked o s v w (suc n) u k h =
      let u' = append_byte w (append_byte v u) in
      let first : IsUnpacked o (suc (suc s)) u' =
        append_byte-IsUnpacked o (suc s) w (append_byte v u)
          (append_byte-IsUnpacked o s v u k (sym ((h 0 (omega arith)).0) ∙ ap raw (omega arith)))
          (sym ((h 0 (omega arith)).1) ∙ ap raw (omega arith)) in
      let rest : IsUnpacked o (suc (suc s) + n * 2) (append_pairs v w n u') =
        append_pairs-IsUnpacked o (suc (suc s)) v w n u' first (λ i lt. (
          ap raw (omega arith) ∙ (h (suc i) (omega arith)).0,
          ap raw (omega arith) ∙ (h (suc i) (omega arith)).1,
        )) in
      subst (λ t. IsUnpacked o t (append_pairs v w n u')) (omega arith) rest

  skip-IsUnpacked : (o s n : ℕ) (u : Unpacker) → IsUnpacked o s u → IsUnpacked (o + n) s (skip n u)
  skip-IsUnpacked o s n u k = record { at = ap (λ p. p + n) k.at; len = k.len; same = k.same }

  unpack_token-IsUnpacked :
      (packed : ℕ → ℕ) (s : ℕ) (tok : Token) (u : Unpacker)
      → IsUnpacked u.offset s u
      → Matches raw s tok
      → Holds packed u.offset (token_bytes raw s tok)
      → IsUnpacked (u.offset + size tok) (s + span tok) (unpack_token packed u)
  unfolding unpack_token
  unpack_token-IsUnpacked packed s (literal n) u k m h =
      let masks = masks_lem n m.1 in
      let other : (n == 0x80) ≡ false = ground arith in
      rw (h.0, other, masks.0, masks.1)
        (skip-IsUnpacked u.offset (s + n) (1 + n) _ (
          append_copy-IsUnpacked packed u.offset s (u.offset + 1) n u k
            λ i. Holds-bytes_from packed raw (u.offset + 1) s n i h.1))
  unpack_token-IsUnpacked packed s (run n) u k m h =
      let masks = masks_lem n m.1 in
      let other : (0x80 + n == 0x80) ≡ false = ground arith in
      rw (h.0, other, masks.2, masks.3, h.1.0)
        (skip-IsUnpacked u.offset (s + n) 2 _ (append_run-IsUnpacked u.offset s (raw s) n u k m.2))
  unpack_token-IsUnpacked packed s (pairs n) u k m h =
      let second : packed (u.offset + 2) ≡ raw s = ap packed (omega arith) ∙ h.1.1.0 in
      let third : packed (u.offset + 3) ≡ raw (s + 1) = ap packed (omega arith) ∙ h.1.1.1.0 in
      rw (h.0, h.1.0, second, third)
        (skip-IsUnpacked u.offset (s + n * 2) 4 _
          (append_pairs-IsUnpacked u.offset s (raw s) (raw (s + 1)) n u k m.2))

  pub Encodes-le : (s e : ℕ) (toks : List Token) → Encodes raw s toks e → s ≤ e
  Encodes-le s e [] h = omega arith
  Encodes-le s e (tok ∷ toks) h = omega (arith, Encodes-le (s + span tok) e toks h.1)

  -- How the loop ends, with `o` the place of the zero.
  pub record IsDone (r : Result Unpacker) (packed : ℕ → ℕ) (o n : ℕ) : Type 0 where
    pub final : Unpacker
    pub returned : r ≡ ok final
    pub complete : IsUnpacked o n final
    pub zero_there : packed o ≡ 0

  unpack_next :
      (packed : ℕ → ℕ) (packed_len n rounds : ℕ) (u : Unpacker)
      → u.offset ≤ packed_len
      → u.unpacked_len < n
      → unpack (suc rounds) packed packed_len n u
        ≡ unpack rounds packed packed_len n (unpack_token packed u)
  unfolding unpack
  unpack_next packed len n rounds u hl hn =
      let inside : leb u.offset len ≡ true = ground arith in rw (inside, lt→ltb _ _ hn) refl

  unpack_stop :
      (packed : ℕ → ℕ) (packed_len n rounds : ℕ) (u : Unpacker)
      → u.unpacked_len ≡ n
      → unpack (suc rounds) packed packed_len n u ≡ ok u
  unfolding unpack
  unpack_stop packed len n rounds u h = ground arith

  -- `unpack_token-IsUnpacked`, with a name for the offset.
  unpack_token_at :
      (packed : ℕ → ℕ) (o s : ℕ) (tok : Token) (u : Unpacker)
      → IsUnpacked o s u
      → Matches raw s tok
      → Holds packed o (token_bytes raw s tok)
      → IsUnpacked (o + size tok) (s + span tok) (unpack_token packed u)
  unpack_token_at packed o s tok u k m h =
      subst (λ p. IsUnpacked (p + size tok) (s + span tok) (unpack_token packed u)) k.at
        (unpack_token-IsUnpacked packed s tok u (record { at = refl; len = k.len; same = k.same }) m
          (subst (λ p. Holds packed p (token_bytes raw s tok)) (sym k.at) h))

  pub unpack-IsDone :
      (packed : ℕ → ℕ) (packed_len n : ℕ) (toks : List Token) (rounds o s : ℕ) (u : Unpacker)
      → total_size toks < rounds
      → o + total_size toks < packed_len
      → IsUnpacked o s u
      → Encodes raw s toks n
      → Holds packed o (file_bytes raw s toks)
      → IsDone (unpack rounds packed packed_len n u) packed (o + total_size toks) n
  unpack-IsDone packed len n toks zero o s u hr hl k enc h = absurd (omega arith)
  unpack-IsDone packed len n [] (suc rounds) o s u hr hl k enc h =
      let here : o + 0 ≡ o = omega arith in
      rw here (record {
        final = u;
        returned = unpack_stop packed len n rounds u (k.len ∙ enc);
        complete = subst (λ t. IsUnpacked o t u) enc k;
        zero_there = h.0;
      })
  unpack-IsDone packed len n (tok ∷ toks) (suc rounds) o s u hr hl k enc h =
      let rest = file_bytes raw (s + span tok) toks in
      let (front, back) = Holds-append packed o (token_bytes raw s tok) rest h in
      let more = Matches-span raw s tok enc.0 in
      let next = unpack_token_at packed o s tok u k enc.0 front in
      let whole : o + size tok + total_size toks ≡ o + (size tok + total_size toks) = omega arith in
      let ih =
        unpack-IsDone packed len n toks rounds (o + size tok) (s + span tok) (unpack_token packed u)
          (omega (arith, size-pos tok)) (omega arith) next enc.1
          (subst (λ l. Holds packed (o + l) rest) (length-token_bytes raw s tok) back) in
      let on =
        unpack_next packed len n rounds u (omega (arith, k.at))
          (omega (arith, k.len, Encodes-le (s + span tok) n toks enc.1)) in
      rw on (
        subst (λ p. IsDone (unpack rounds packed len n (unpack_token packed u)) packed p n) whole
          ih)
