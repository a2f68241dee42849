-- ===== src/Tests/Hashing.antt =====
-- common/src/hashes.cxx on a processor with another checksum, and at concrete bytes.
use hurricache_cpp_client.Prelude.{
  ℕ, suc, zero, ◌+◌, ◌*◌, ◌/◌, ◌%◌, ◌^◌, ◌≡◌, refl, ap, ◌∙◌, List, [], ◌∷◌, flatten, some, arith,
  length,
}
use hurricache_cpp_client.Hashes.{
  CrcUnit, little_endian, strong_hash, crc32_finalize, week_hash, words_of, week_fours, week_ones,
  tail_four, tail_two, tail_one, week_end, mux64, rot64, absorb,
}
use hurricache_cpp_client.Hashes.Crc.{AreBytes, crc_bytes, IsCrcUnit}
use hurricache_cpp_client.Hashes.Chunked.{accumulate_chunks, crc32_finalize-strong_hash}

-- The bytes of a number, from the lowest on.
bytes_of : ℕ → ℕ → List ℕ
bytes_of zero v = []
bytes_of (suc n) v = v % 256 ∷ bytes_of n (v / 256)

bytes_of-little_endian : (bs : List ℕ) → AreBytes bs → bytes_of (length bs) (little_endian bs) ≡ bs
unfolding bytes_of little_endian
bytes_of-little_endian [] h = refl
bytes_of-little_endian (b ∷ bs) h =
    let low : (b + 256 * little_endian bs) % 256 ≡ b = omega (arith, h.0) in
    let high : (b + 256 * little_endian bs) / 256 ≡ little_endian bs = omega (arith, h.0) in
    ap (λ x. x ∷ bytes_of (length bs) ((b + 256 * little_endian bs) / 256)) low
    ∙ ap (λ v. b ∷ bytes_of (length bs) v) high
    ∙ ap (λ r. b ∷ r) (bytes_of-little_endian bs h.1)

-- A checksum of one byte, and of several bytes by it.
abbrev step : ℕ → ℕ → ℕ
step crc b = (crc * 31 + b) % 2 ^ 32

abbrev summing : CrcUnit
summing = record {
  crc_u64 = λ crc v. crc_bytes step crc (bytes_of 8 v);
  crc_u32 = λ crc v. crc_bytes step crc (bytes_of 4 v);
  crc_u16 = λ crc v. crc_bytes step crc (bytes_of 2 v);
  crc_u8 = step;
}

summing-IsCrcUnit : IsCrcUnit summing
summing-IsCrcUnit = record {
  small = λ crc b. omega arith;
  eight_bytes = λ crc a b c d e f g h low are.
      ap (crc_bytes step crc) (bytes_of-little_endian (a ∷ b ∷ c ∷ d ∷ e ∷ f ∷ g ∷ h ∷ []) are);
  four_bytes = λ crc a b c d low are.
      ap (crc_bytes step crc) (bytes_of-little_endian (a ∷ b ∷ c ∷ d ∷ []) are);
  two_bytes = λ crc a b low are. ap (crc_bytes step crc) (bytes_of-little_endian (a ∷ b ∷ []) are);
}

-- Nine bytes and three, in two chunks.
abbrev chunks : List (List ℕ)
chunks = (1 ∷ 2 ∷ 3 ∷ 4 ∷ 5 ∷ 6 ∷ 7 ∷ 8 ∷ 9 ∷ []) ∷ (10 ∷ 11 ∷ 12 ∷ []) ∷ []

crc32_finalize-strong_hash_example :
    crc32_finalize (accumulate_chunks summing chunks 0) (length (flatten chunks))
    ≡ strong_hash summing (some (flatten chunks))
crc32_finalize-strong_hash_example =
    crc32_finalize-strong_hash summing summing-IsCrcUnit chunks (omega arith)

-- `week_hash` of three bytes, with a tail of two and one.
week_hash_test : week_hash (some (97 ∷ 98 ∷ 99 ∷ [])) 0 ≡ 2087961577
unfolding week_hash words_of week_fours week_ones tail_four tail_two tail_one week_end mux64 rot64
    absorb little_endian
week_hash_test = refl

-- Of 47 bytes, through both loops and the whole tail.
abbrev many_bytes : List ℕ
many_bytes =
    0 ∷ 1 ∷ 2 ∷ 3 ∷ 4 ∷ 5 ∷ 6 ∷ 7 ∷ 8 ∷ 9 ∷ 10 ∷ 11 ∷ 12 ∷ 13 ∷ 14 ∷ 15 ∷ 16 ∷ 17 ∷ 18 ∷ 19 ∷ 20
    ∷ 21 ∷ 22 ∷ 23 ∷ 24 ∷ 25 ∷ 26 ∷ 27 ∷ 28 ∷ 29 ∷ 30 ∷ 31 ∷ 32 ∷ 33 ∷ 34 ∷ 35 ∷ 36 ∷ 37 ∷ 38 ∷ 39
    ∷ 40 ∷ 41 ∷ 42 ∷ 43 ∷ 44 ∷ 45 ∷ 46 ∷ []

week_hash_long_test : week_hash (some many_bytes) 0 ≡ 161189835
unfolding week_hash words_of week_fours week_ones tail_four tail_two tail_one week_end mux64 rot64
    absorb little_endian
week_hash_long_test = refl
