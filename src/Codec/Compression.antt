-- ===== src/Codec/Compression.antt =====
-- common/src/compression.cxx: the `decompress` that takes a Cord, and what it makes of what
-- `compress` wrote. The code selects libdeflate; the zlib functions are built with GZIP only.
use hurricache_cpp_client.Prelude.{
  ℕ, ◌%◌, ◌^◌, ◌<◌, ◌≡◌, ◌≢◌, refl, ap, ◌∙◌, inl, inr, false, List, [], ◌∷◌, flatten, Option, none,
  some, arith, Run, ok, fault, wild_write, ltb, ◌==◌, if◌then◌else◌, length, ◌>>=◌,
}
use hurricache_cpp_client.Proto.{Cord}
use hurricache_cpp_client.Env.{Libdeflate, IsLibdeflate}
use hurricache_cpp_client.Codec.{compress}
use hurricache_cpp_client.Codec.Parse.{decompress, flat_chunk, copy_chunks}
use hurricache_cpp_client.Codec.RoundTrip.{
  copy_chunks-flatten, flat_chunk-cases, decompress_lem, compress-some, compress-reads,
}

-- The bytes of a Cord that is not flat, copied to a buffer of `source_len` bytes.
unfoldable pub gather : Cord → ℕ → Run (List ℕ)
unfolding copy_chunks
gather cord source_len =
    let buffer = copy_chunks [] cord in
    if ltb source_len (length buffer) then fault wild_write else ok buffer

-- `gzip_decompress_libdeflate(source_cord, expectedLen)`, whose `sourceLen` has 32 bits.
unfoldable pub decompress_cord : Libdeflate → Cord → ℕ → Run (Option (List ℕ))
unfolding flat_chunk gather decompress
decompress_cord z cord expected =
    let size = length (flatten cord) in
    let source_len = size % 2 ^ 32 in
    if source_len == 0 then ok none else elim (flat_chunk cord size) [
      | some flat ↦ ok (decompress z flat source_len expected)
      | none ↦ do source ← gather cord source_len; ok (decompress z source source_len expected)
    ]

gather_lem :
    (cord : Cord)
    → length (flatten cord) < 2 ^ 32
    → gather cord (length (flatten cord) % 2 ^ 32) ≡ ok (flatten cord)
unfolding gather
gather_lem cord small = rw (copy_chunks-flatten [] cord) (ground arith)

-- A Cord of some bytes that fit 32 bits is decompressed as its bytes in one run.
decompress_cord_lem :
    (z : Libdeflate) (cord : Cord) (expected : ℕ)
    → 0 < length (flatten cord)
    → length (flatten cord) < 2 ^ 32
    → decompress_cord z cord expected ≡ ok (z.gzip_decompress (flatten cord) expected)
unfolding decompress_cord
decompress_cord_lem z cord expected some_bytes small =
    let n = length (flatten cord) in
    let present : (n % 2 ^ 32 == 0) ≡ false = ground arith in
    let inflates = ap ok (decompress_lem z expected (flatten cord) small) in
    elim (flat_chunk-cases cord n) [
      | inl e ↦ rw (present, e, gather_lem cord small) inflates
      | inr e ↦ rw (present, e) inflates
    ]

length-positive : {A : Type 0} (xs : List A) → xs ≢ [] → 0 < length xs
length-positive [] full = absurd (full refl)
length-positive (x ∷ xs) full = omega arith

-- What `compress` wrote is decompressed to its source, in whatever chunks a Cord holds it: a Cord is
-- never written behind its buffer, and never refused. The compressor does what libdeflate promises,
-- and its bound for the source fits 32 bits.
pub decompress_cord-compress :
    (z : Libdeflate)
    → IsLibdeflate z
    → (source out : List ℕ) → compress z source ≡ some out
    → z.compress_bound (length source) < 2 ^ 32
    → (cord : Cord) → flatten cord ≡ out
    → decompress_cord z cord (length source) ≡ ok (some source)
decompress_cord-compress z law source out wrote room cord holds =
    let (short, reads) = compress-reads z law source out wrote room in
    let (same, full) = compress-some z source out wrote in
    decompress_cord_lem z cord (length source) (rw holds (length-positive out full))
      (rw holds short)
    ∙ ap ok (rw holds reads)
