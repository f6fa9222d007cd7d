-- ===== src/RlePack/Tests.antt =====
-- Small inputs for the packer of src/tools/pngprepare/rlepack.c, and the theorems applied to them.
use mega65_core.Prelude.{
  ℕ, ◌+◌, ◌<◌, ◌≡◌, refl, arith, List, [], ◌∷◌, ltb, ◌==◌, ◌%◌, if◌then◌else◌,
}
use mega65_core.RlePack.Table.{pack_table}
use mega65_core.RlePack.Output.{
  ok, err, unreadable, wrong_byte, Unpacker, pack_file, verify_file, unpack, check_unpacked, trace,
  write_queue, append_run, append_copy, append_pairs,
}
use mega65_core.RlePack.Total.{pack_file-total, pack_file-IsShortest, length-pack_file, IsShortest}

-- Three bytes 7, then two bytes 9.
abbrev five_bytes : ℕ → ℕ
five_bytes i = if ltb i 3 then 7 else 9

-- 00 ff and so on.
abbrev stripes : ℕ → ℕ
stripes i = if i % 2 == 0 then 0x00 else 0xff

abbrev junk : ℕ → ℕ
junk i = 0xaa

pack_five : pack_file five_bytes 5 junk junk ≡ ok (0x83 ∷ 7 ∷ 0x82 ∷ 9 ∷ 0x00 ∷ [])
unfolding pack_file pack_table trace write_queue verify_file unpack check_unpacked append_run
    append_copy append_pairs
pack_five = refl

pack_stripes : pack_file stripes 7 junk junk ≡ ok (0x01 ∷ 0x00 ∷ 0x80 ∷ 3 ∷ 0xff ∷ 0x00 ∷ 0x00 ∷ [])
unfolding pack_file pack_table trace write_queue verify_file unpack check_unpacked append_run
    append_copy append_pairs
pack_stripes = refl

pack_nothing : pack_file stripes 0 junk junk ≡ err unreadable
unfolding pack_file
pack_nothing = refl

wrong_file : verify_file five_bytes 3 junk junk (0x83 ∷ 8 ∷ 0x00 ∷ []) ≡ err wrong_byte
unfolding verify_file unpack check_unpacked append_run
wrong_file = refl

pack_file-total_example :
    (file : List ℕ) × (pack_file stripes 7 junk junk ≡ ok file)
    × (((junk' scratch' : ℕ → ℕ)
        → (u : Unpacker) × (verify_file stripes 7 junk' scratch' file ≡ ok u)
          × ((q : ℕ) → q < 7 → u.unpacked q ≡ stripes q)))
pack_file-total_example = pack_file-total stripes 7 junk junk (omega arith) (omega arith)

pack_file-IsShortest_example : IsShortest five_bytes 5 (0x83 ∷ 7 ∷ 0x82 ∷ 9 ∷ 0x00 ∷ [])
pack_file-IsShortest_example =
    pack_file-IsShortest five_bytes 5 junk junk (omega arith) (omega arith)
      (0x83 ∷ 7 ∷ 0x82 ∷ 9 ∷ 0x00 ∷ []) pack_five

length-pack_file_example : 5 ≡ (pack_table five_bytes 5 5 5).cumulative_cost + 1
length-pack_file_example =
    length-pack_file five_bytes 5 junk junk (omega arith) (omega arith)
      (0x83 ∷ 7 ∷ 0x82 ∷ 9 ∷ 0x00 ∷ []) pack_five
