-- ===== src/Hashes.antt =====
-- common/src/hashes.cxx: the hashes of a key. A `char *` is the list of the bytes behind it, as
-- unsigned numbers; the CRC instructions of the processor are parameters.
pub mod Bits
pub mod Crc
pub mod Chunked
pub mod Upper
use Prim.Native.Nat.{bit_and, bit_or, bit_xor}
use hurricache_cpp_client.Prelude.{
  ℕ, ◌+◌, ◌-◌, ◌*◌, ◌/◌, ◌%◌, ◌^◌, Bool, List, [], ◌∷◌, Option, none, some, length,
}

-- `_mm_crc32_u64` and its like: the CRC and the number, to the new CRC.
pub record CrcUnit : Type 0 where
  pub crc_u64 : ℕ → ℕ → ℕ
  pub crc_u32 : ℕ → ℕ → ℕ
  pub crc_u16 : ℕ → ℕ → ℕ
  pub crc_u8 : ℕ → ℕ → ℕ

-- `memcpy` of bytes into a number, on x86.
unfoldable pub little_endian : List ℕ → ℕ
little_endian [] = 0
little_endian (b ∷ bs) = b + 256 * little_endian bs

-- The loop of eight bytes; what it leaves.
unfoldable pub crc_eights : CrcUnit → ℕ → List ℕ → ℕ × List ℕ
unfolding little_endian
crc_eights u crc (a ∷ b ∷ c ∷ d ∷ e ∷ f ∷ g ∷ h ∷ rest) =
    crc_eights u (u.crc_u64 crc (little_endian (a ∷ b ∷ c ∷ d ∷ e ∷ f ∷ g ∷ h ∷ []))) rest
crc_eights u crc rest = (crc, rest)

-- The three steps of the tail.
unfoldable pub crc_four : CrcUnit → ℕ × List ℕ → ℕ × List ℕ
unfolding little_endian
crc_four u (crc, a ∷ b ∷ c ∷ d ∷ rest) =
    (u.crc_u32 (crc % 2 ^ 32) (little_endian (a ∷ b ∷ c ∷ d ∷ [])), rest)
crc_four u (crc, rest) = (crc, rest)

unfoldable pub crc_two : CrcUnit → ℕ × List ℕ → ℕ × List ℕ
unfolding little_endian
crc_two u (crc, a ∷ b ∷ rest) = (u.crc_u16 (crc % 2 ^ 32) (little_endian (a ∷ b ∷ [])), rest)
crc_two u (crc, rest) = (crc, rest)

unfoldable pub crc_one : CrcUnit → ℕ × List ℕ → ℕ
crc_one u (crc, a ∷ rest) = u.crc_u8 (crc % 2 ^ 32) a
crc_one u (crc, []) = crc

-- `crc32_accumulate`.
unfoldable pub crc32_accumulate : CrcUnit → List ℕ → ℕ → ℕ
unfolding crc_eights crc_four crc_two crc_one
crc32_accumulate u bytes seed = crc_one u (crc_two u (crc_four u (crc_eights u seed bytes)))

-- `x ^= x >> k`.
abbrev pub xor_shift : ℕ → ℕ → ℕ
xor_shift k x = bit_xor x (x / 2 ^ k)

-- The last steps, which both hashes have, on a CRC in 32 bits.
unfoldable pub mix : ℕ → ℕ → ℕ
mix crc size =
    xor_shift 16
      (xor_shift 13 (xor_shift 16 (bit_xor crc size) * 0x85ebca77 % 2 ^ 32) * 0xc2b2ae3d % 2 ^ 32)

-- `crc32_finalize`.
unfoldable pub crc32_finalize : ℕ → ℕ → ℕ
unfolding mix
crc32_finalize crc total_size = mix (crc % 2 ^ 32) (total_size % 2 ^ 32)

-- The instruction of eight bytes where the CRC is kept in 32 bits.
abbrev pub narrow : CrcUnit → CrcUnit
narrow u = record u { crc_u64 = λ crc v. u.crc_u64 crc v % 2 ^ 32 }

-- `strong_hash`.
unfoldable pub strong_hash : CrcUnit → Option (List ℕ) → ℕ
unfolding crc_eights crc_four crc_two crc_one mix
strong_hash u none = 0
strong_hash u (some bytes) =
    mix (crc_one u (crc_two u (crc_four u (crc_eights (narrow u) 0 bytes)))) (length bytes % 2 ^ 32)

abbrev pub prime_0 : ℕ
prime_0 = 0xEC997CE353AD73ED

abbrev pub prime_1 : ℕ
prime_1 = 0xBE1F145728F2090D

-- `rot64`.
unfoldable pub rot64 : ℕ → ℕ → ℕ
rot64 v s = bit_or (v / 2 ^ s) (v * 2 ^ (64 - s) % 2 ^ 64)

-- `mux64`, with 128 bits: the lower half of the product and the upper.
unfoldable pub mux64 : ℕ → ℕ → ℕ × ℕ
mux64 v p = (v * p % 2 ^ 64, v * p / 2 ^ 64 % 2 ^ 64)

-- `mm` of `mux64` without 128 bits.
unfoldable pub middle : ℕ → ℕ → ℕ
middle v p =
    let l = v % 2 ^ 32 * (p % 2 ^ 32) in
    let m1 = v / 2 ^ 32 * (p % 2 ^ 32) in
    let m2 = v % 2 ^ 32 * (p / 2 ^ 32) in (m1 + m2 + l / 2 ^ 32) % 2 ^ 64

-- `mux64` without them.
unfoldable pub mux64_portable : ℕ → ℕ → ℕ × ℕ
unfolding middle
mux64_portable v p =
    let l = v % 2 ^ 32 * (p % 2 ^ 32) in
    let h = v / 2 ^ 32 * (p / 2 ^ 32) in
    let mm = middle v p in (bit_or (l % 2 ^ 32) (mm * 2 ^ 32 % 2 ^ 64), (h + mm / 2 ^ 32) % 2 ^ 64)

-- One step of a loop of `week_hash`: `b += mux64(v ^ a, prime, h); a ^= h`.
unfoldable pub absorb : ℕ → ℕ → ℕ × ℕ → ℕ × ℕ
unfolding mux64
absorb prime v (a, b) =
    let (low, high) = mux64 (bit_xor v a) prime in (bit_xor a high, (b + low) % 2 ^ 64)

-- The numbers of eight bytes that the loops of `week_hash` copy out, and the bytes behind them.
unfoldable pub words_of : List ℕ → List ℕ × List ℕ
unfolding little_endian
words_of (a ∷ b ∷ c ∷ d ∷ e ∷ f ∷ g ∷ h ∷ rest) =
    let (words, tail) = words_of rest in
    (little_endian (a ∷ b ∷ c ∷ d ∷ e ∷ f ∷ g ∷ h ∷ []) ∷ words, tail)
words_of rest = ([], rest)

-- The loop of 32 bytes, and the words it leaves.
unfoldable pub week_fours : ℕ × ℕ → List ℕ → (ℕ × ℕ) × List ℕ
unfolding absorb
week_fours s (v0 ∷ v1 ∷ v2 ∷ v3 ∷ rest) =
    week_fours (absorb prime_1 v3 (absorb prime_0 v2 (absorb prime_1 v1 (absorb prime_0 v0 s))))
      rest
week_fours s rest = (s, rest)

-- The loop of eight bytes.
unfoldable pub week_ones : ℕ × ℕ → List ℕ → ℕ × ℕ
unfolding absorb
week_ones s [] = s
week_ones s (v ∷ rest) = week_ones (absorb prime_0 v s) rest

-- The tail into `b`: four bytes, two and one.
unfoldable pub tail_four : ℕ × List ℕ → ℕ × List ℕ
unfolding little_endian
tail_four (x, a ∷ b ∷ c ∷ d ∷ rest) = (bit_xor x (little_endian (a ∷ b ∷ c ∷ d ∷ [])), rest)
tail_four (x, rest) = (x, rest)

unfoldable pub tail_two : ℕ × List ℕ → ℕ × List ℕ
unfolding little_endian
tail_two (x, a ∷ b ∷ rest) = (bit_xor x (little_endian (a ∷ b ∷ [])), rest)
tail_two (x, rest) = (x, rest)

unfoldable pub tail_one : ℕ × List ℕ → ℕ
tail_one (x, a ∷ rest) = bit_xor x a
tail_one (x, []) = x

-- `week_hash` from `a` and `b` on.
unfoldable pub week_end : ℕ × ℕ → ℕ
unfolding mux64 rot64
week_end (a, b) =
    let (final_low, final_high) = mux64 (bit_xor a (rot64 b 17)) prime_1 in
    let res64 = bit_xor final_low final_high in bit_xor res64 (res64 / 2 ^ 32) % 2 ^ 32

-- `week_hash`.
unfoldable pub week_hash : Option (List ℕ) → ℕ → ℕ
unfolding words_of week_fours week_ones tail_four tail_two tail_one week_end
week_hash none seed = 0
week_hash (some bytes) seed =
    let (words, tail) = words_of bytes in
    let (s, rest) = week_fours (bit_xor seed prime_0, bit_xor (length bytes) prime_1) words in
    let (a, b) = week_ones s rest in week_end (a, tail_one (tail_two (tail_four (b, tail))))
