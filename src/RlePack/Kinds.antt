-- ===== src/RlePack/Kinds.antt =====
-- The tests and the bodies of the three loops over `end` in src/tools/pngprepare/rlepack.c, each as
-- a loop that offers the tokens of its kind.
use mega65_core.Prelude.{
  ℕ, zero, suc, ◌+◌, ◌-◌, ◌*◌, ◌/◌, ◌%◌, ◌≤◌, ◌<◌, ◌≡◌, refl, ap, arith, true, below_suc,
}
use mega65_core.RlePack.Table.{
  Table, offer_raw, offer_rle, offer_pairs, raw_goes_on, rle_goes_on, pairs_go_on,
}
use mega65_core.RlePack.Token.{literal, run, pairs, Matches}
use mega65_core.RlePack.Improve.{improve}
use mega65_core.RlePack.Ends.{Offers, Found}

one : (n : ℕ) → n * 1 ≡ n
one n = omega arith

module _ (s c : ℕ) where
  offer_raw-improve :
      (n : ℕ) (t : Table) → n ≤ 127 → offer_raw s c (s + n) t ≡ improve s c (literal n) t
  unfolding offer_raw improve
  offer_raw-improve n t h =
      let back : s + n - s ≡ n = omega arith in
      let whole : (0 + n) % 256 ≡ n = omega arith in rw (back, whole) refl

  offer_rle-improve :
      (n : ℕ) (t : Table) → n ≤ 127 → offer_rle s c (s + n) t ≡ improve s c (run n) t
  unfolding offer_rle improve
  offer_rle-improve n t h =
      let back : s + n - s ≡ n = omega arith in
      let whole : (128 + n) % 256 ≡ 128 + n = omega arith in rw (back, whole) refl

  offer_pairs-improve :
      (n : ℕ) (t : Table) → n ≤ 255 → offer_pairs s c (s + n * 2) t ≡ improve s c (pairs n) t
  unfolding offer_pairs improve
  offer_pairs-improve n t h = let half : (s + n * 2 - s) / 2 % 256 ≡ n = omega arith in rw half refl

module _ (raw : ℕ → ℕ) (raw_size s c : ℕ) where
  pub raw-Offers : Offers raw raw_size s c (raw_goes_on raw raw_size s) (offer_raw s c) 1 literal
  unfolding offer_raw raw_goes_on
  raw-Offers = record {
    reaches = λ k. omega arith;
    same = λ k t m. rw (one (suc k)) (offer_raw-improve s c (suc k) t m.1);
    sound = λ k f h. ground arith;
    complete = λ k j h m fits. ground arith;
    drops = λ e t x. ground arith;
  }

  rle_test :
      (k : ℕ)
      → rle_goes_on raw raw_size s (s + suc k * 1) ≡ true
      → (raw (s + k) ≡ raw s) × (suc k ≤ 127)
  unfolding rle_goes_on
  rle_test k h =
      let last : s + suc k * 1 - 1 ≡ s + k = omega arith in
      (ground (arith, ap raw last), ground arith)

  rle_loop_sound :
      (k : ℕ)
      → Found raw s run k
      → rle_goes_on raw raw_size s (s + suc k * 1) ≡ true
      → Matches raw s (run (suc k))
  rle_loop_sound k f h =
      let (e, most) = rle_test k h in
      (omega arith, most, below_suc (λ i. raw (s + i) ≡ raw s) k (earlier k f) e)
    where
      earlier : (k : ℕ) → Found raw s run k → (i : ℕ) → i < k → raw (s + i) ≡ raw s
      earlier zero f i h = elim h [ ]
      earlier (suc k) f i h = f.2 i h

  rle_loop_complete :
      (k j : ℕ)
      → j ≤ k
      → Matches raw s (run (suc k))
      → s + suc k * 1 ≤ raw_size
      → rle_goes_on raw raw_size s (s + suc j * 1) ≡ true
  unfolding rle_goes_on
  rle_loop_complete k j h m fits =
      let last : s + suc j * 1 - 1 ≡ s + j = omega arith in ground (arith, ap raw last, m.2 j)

  pub rle-Offers : Offers raw raw_size s c (rle_goes_on raw raw_size s) (offer_rle s c) 1 run
  unfolding offer_rle
  rle-Offers = record {
    reaches = λ k. omega arith;
    same = λ k t m. rw (one (suc k)) (offer_rle-improve s c (suc k) t m.1);
    sound = rle_loop_sound;
    complete = rle_loop_complete;
    drops = λ e t x. ground arith;
  }

  pairs_test :
      (k : ℕ)
      → pairs_go_on raw raw_size s (s + suc k * 2) ≡ true
      → (raw (s + k * 2) ≡ raw s) × (raw (s + k * 2 + 1) ≡ raw (s + 1)) × (suc k ≤ 255)
  unfolding pairs_go_on
  pairs_test k h =
      let first : s + suc k * 2 - 2 ≡ s + k * 2 = omega arith in
      let second : s + suc k * 2 - 1 ≡ s + k * 2 + 1 = omega arith in
      (ground (arith, ap raw first), ground (arith, ap raw second), ground arith)

  pairs_loop_sound :
      (k : ℕ)
      → Found raw s pairs k
      → pairs_go_on raw raw_size s (s + suc k * 2) ≡ true
      → Matches raw s (pairs (suc k))
  pairs_loop_sound k f h =
      let (e, e', most) = pairs_test k h in
      (
        omega arith,
        most,
        below_suc (λ i. (raw (s + i * 2) ≡ raw s) × (raw (s + i * 2 + 1) ≡ raw (s + 1))) k
            (earlier k f) (e, e'),
      )
    where
      earlier :
          (k : ℕ)
          → Found raw s pairs k
          → (i : ℕ) → i < k
          → (raw (s + i * 2) ≡ raw s) × (raw (s + i * 2 + 1) ≡ raw (s + 1))
      earlier zero f i h = elim h [ ]
      earlier (suc k) f i h = f.2 i h

  pairs_loop_complete :
      (k j : ℕ)
      → j ≤ k
      → Matches raw s (pairs (suc k))
      → s + suc k * 2 ≤ raw_size
      → pairs_go_on raw raw_size s (s + suc j * 2) ≡ true
  unfolding pairs_go_on
  pairs_loop_complete k j h m fits =
      let first : s + suc j * 2 - 2 ≡ s + j * 2 = omega arith in
      let second : s + suc j * 2 - 1 ≡ s + j * 2 + 1 = omega arith in
      ground (arith, ap raw first, ap raw second, m.2 j)

  pub pairs-Offers : Offers raw raw_size s c (pairs_go_on raw raw_size s) (offer_pairs s c) 2 pairs
  unfolding offer_pairs
  pairs-Offers = record {
    reaches = λ k. refl;
    same = λ k t m. offer_pairs-improve s c (suc k) t m.1;
    sound = pairs_loop_sound;
    complete = pairs_loop_complete;
    drops = λ e t x. ground arith;
  }
