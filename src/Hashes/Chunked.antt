-- ===== src/Hashes/Chunked.antt =====
-- common/src/hashes.cxx: `strong_hash` and the CRC of bytes that come in parts.
use hurricache_cpp_client.Prelude.{
  ℕ, ◌%◌, ◌^◌, ◌<◌, ◌≡◌, refl, sym, ap, ◌∙◌, List, [], ◌∷◌, ◌++◌, flatten, some, length, arith,
}
use hurricache_cpp_client.Hashes.{
  CrcUnit, narrow, crc32_accumulate, mix, crc32_finalize, strong_hash,
}
use hurricache_cpp_client.Hashes.Crc.{
  AreBytes, crc_bytes, IsCrcUnit, crc_bytes-lt, crc_bytes-append, fits, crc32_accumulate-crc_bytes,
}

-- The chunks of a Cord, one after the other through `crc32_accumulate`.
unfoldable pub accumulate_chunks : CrcUnit → List (List ℕ) → ℕ → ℕ
accumulate_chunks u [] seed = seed
accumulate_chunks u (c ∷ cs) seed = accumulate_chunks u cs (crc32_accumulate u c seed)

-- Every chunk is one of bytes.
abbrev pub AreChunks : List (List ℕ) → Type 0
AreChunks [] = Unit {0}
AreChunks (c ∷ cs) = AreBytes c × AreChunks cs

AreBytes-append : (xs ys : List ℕ) → AreBytes xs → AreBytes ys → AreBytes (xs ++ ys)
AreBytes-append [] ys h k = k
AreBytes-append (x ∷ xs) ys h k = (h.0, AreBytes-append xs ys h.1 k)

AreBytes-flatten : (chunks : List (List ℕ)) → AreChunks chunks → AreBytes (flatten chunks)
unfolding flatten
AreBytes-flatten [] h = h
AreBytes-flatten (c ∷ cs) h = AreBytes-append c (flatten cs) h.0 (AreBytes-flatten cs h.1)

module _ (u : CrcUnit) (law : IsCrcUnit u) where
  accumulate_chunks-crc_bytes :
      (chunks : List (List ℕ)) (seed : ℕ)
      → seed < 2 ^ 32
      → AreChunks chunks
      → accumulate_chunks u chunks seed ≡ crc_bytes u.crc_u8 seed (flatten chunks)
  unfolding accumulate_chunks flatten crc_bytes
  accumulate_chunks-crc_bytes [] seed small are = refl
  accumulate_chunks-crc_bytes (c ∷ cs) seed small (are, more) =
      let e = crc32_accumulate-crc_bytes u law c seed small are in
      ap (accumulate_chunks u cs) e
      ∙ accumulate_chunks-crc_bytes cs (crc_bytes u.crc_u8 seed c) (crc_bytes-lt u law seed c small)
          more
      ∙ sym (crc_bytes-append u seed c (flatten cs))

  narrow-IsCrcUnit : IsCrcUnit (narrow u)
  narrow-IsCrcUnit = record {
    small = law.small;
    eight_bytes = λ crc a b c d e f g h low are.
        let x = crc_bytes-lt u law crc (a ∷ b ∷ c ∷ d ∷ e ∷ f ∷ g ∷ h ∷ []) low in
        let s = law.eight_bytes crc a b c d e f g h low are in ap (λ k. k % 2 ^ 32) s ∙ fits _ x;
    four_bytes = law.four_bytes;
    two_bytes = law.two_bytes;
  }

  strong_hash-mix :
      (bytes : List ℕ)
      → AreBytes bytes
      → strong_hash u (some bytes) ≡ mix (crc_bytes u.crc_u8 0 bytes) (length bytes % 2 ^ 32)
  unfolding strong_hash crc32_accumulate
  strong_hash-mix bytes are =
      ap (λ crc. mix crc (length bytes % 2 ^ 32))
        (crc32_accumulate-crc_bytes (narrow u) narrow-IsCrcUnit bytes 0 (omega arith) are)

  -- Bytes that come in chunks of any sizes, put through `crc32_accumulate` one chunk after the other
  -- and finished by `crc32_finalize` with their number in all, give the `strong_hash` of all the
  -- bytes together, on a processor whose CRC instructions agree with the one of a single byte.
  pub crc32_finalize-strong_hash :
      (chunks : List (List ℕ))
      → AreChunks chunks
      → crc32_finalize (accumulate_chunks u chunks 0) (length (flatten chunks))
        ≡ strong_hash u (some (flatten chunks))
  unfolding crc32_finalize
  crc32_finalize-strong_hash chunks are =
      let bytes = flatten chunks in
      let crc = crc_bytes u.crc_u8 0 bytes in
      ap (λ k. mix (k % 2 ^ 32) (length bytes % 2 ^ 32))
        (accumulate_chunks-crc_bytes chunks 0 (omega arith) are)
      ∙ ap (λ k. mix k (length bytes % 2 ^ 32))
          (fits crc (crc_bytes-lt u law 0 bytes (omega arith)))
      ∙ sym (strong_hash-mix bytes (AreBytes-flatten chunks are))
