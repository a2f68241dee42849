-- ===== src/Env.antt =====
-- What the messages of common/src/utils.cxx rest on: libdeflate, the two hashes as functions of the
-- bytes, the serialized sizes that protobuf computes, and the clock.
use hurricache_cpp_client.Prelude.{ℕ, ◌≡◌, ◌≢◌, ◌≤◌, ◌<◌, ◌^◌, List, [], Option, some, length}
use hurricache_cpp_client.Proto.{KeyMessage, OrderedKeyMessage, ValueMessage, OrderedValueMessage}

-- `gzip_compress` writes at most so many bytes, and gives `[]` (the size 0) if it has no room.
-- `gzip_decompress` is called with no pointer for the actual size: it gives the bytes only if
-- they are as many as expected.
pub record Libdeflate : Type 0 where
  pub compress_bound : ℕ → ℕ
  pub gzip_compress : List ℕ → ℕ → List ℕ
  pub gzip_decompress : List ℕ → ℕ → Option (List ℕ)

-- The documented behaviour of libdeflate: the bound suffices, no more is written than there is
-- room for, and a compressed stream is read back.
pub record IsLibdeflate (z : Libdeflate) : Type 0 where
  pub bound_suffices : (x : List ℕ) → z.gzip_compress x (z.compress_bound (length x)) ≢ []
  pub within : (x : List ℕ) (n : ℕ) → length (z.gzip_compress x n) ≤ n
  pub reads_back :
      (x : List ℕ) (n : ℕ)
      → z.gzip_compress x n ≢ []
      → z.gzip_decompress (z.gzip_compress x n) (length x) ≡ some x

pub record Env : Type 0 where
  pub deflate : Libdeflate
  pub week_hash : List ℕ → ℕ
  pub strong_hash : List ℕ → ℕ
  pub key_bytes : KeyMessage → ℕ
  pub value_bytes : ValueMessage → ℕ
  pub ordered_value_bytes : OrderedValueMessage → ℕ
  pub ordered_key_bytes : OrderedKeyMessage → ℕ
  pub now_ms : ℕ

-- Protobuf serializes no message of 2 GB or more.
pub record HasSmallMessages (env : Env) : Type 0 where
  pub key_small : (m : KeyMessage) → env.key_bytes m < 2 ^ 31
  pub value_small : (m : ValueMessage) → env.value_bytes m < 2 ^ 31
  pub ordered_value_small : (m : OrderedValueMessage) → env.ordered_value_bytes m < 2 ^ 31
  pub ordered_key_small : (m : OrderedKeyMessage) → env.ordered_key_bytes m < 2 ^ 31
