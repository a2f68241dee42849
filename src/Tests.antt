-- ===== src/Tests.antt =====
-- Test data: an environment, values, nodes and a client with routes.
pub mod Codecs
pub mod Chunking
pub mod Inserts
pub mod Pivots
pub mod Tables
pub mod Guards
pub mod Executes
pub mod Streams
pub mod Coordinators
pub mod Hashing
pub mod Standalone
pub mod Maps
use hurricache_cpp_client.Prelude.{
  ℕ, suc, ◌+◌, ◌%◌, ◌^◌, ◌≡◌, ◌≤◌, ◌<◌, refl, Bool, true, false, List, [], ◌∷◌, ◌++◌, Option, none,
  some, arith, ltb, ◌==◌, if◌then◌else◌, length, take, drop,
}
use hurricache_cpp_client.Prelude.Dict.{Text}
use hurricache_cpp_client.Prelude.Int.{ℤ, pos, negsuc}
use hurricache_cpp_client.Types.{
  KeyHint, Key, Content, bytes, int, double, Value, OrderedValue, OrderedKey,
}
use hurricache_cpp_client.Env.{Libdeflate, IsLibdeflate, Env, HasSmallMessages}

-- A compressor that puts one byte before what it is given, if there is room.
abbrev pub pack : List ℕ → ℕ → List ℕ
pack x n = if ltb (length x) n then 31 ∷ x else []

abbrev pub unpack : List ℕ → ℕ → Option (List ℕ)
unpack [] n = none
unpack (m ∷ x) n = if length x == n then some x else none

abbrev pub packer : Libdeflate
packer = record { compress_bound = λ n. suc n; gzip_compress = pack; gzip_decompress = unpack }

pub packer-IsLibdeflate : IsLibdeflate packer
packer-IsLibdeflate = record {
  bound_suffices = λ x h. ground arith;
  within = λ x n. ground arith;
  reads_back = λ x n h. ground arith;
}

-- Messages of two million bytes: no two values fit one call.
abbrev pub test_env : Env
test_env = record {
  deflate = packer;
  week_hash = λ x. length x;
  strong_hash = λ x. length x + 1;
  key_bytes = λ m. 100;
  value_bytes = λ m. 2000000;
  ordered_value_bytes = λ m. 2000000;
  ordered_key_bytes = λ m. 90;
  now_ms = 1000;
}

pub test_env-HasSmallMessages : HasSmallMessages test_env
test_env-HasSmallMessages = record {
  key_small = λ m. omega arith;
  value_small = λ m. omega arith;
  ordered_value_small = λ m. omega arith;
  ordered_key_small = λ m. omega arith;
}

abbrev pub word : Value
word = record { size = 3; content = bytes (some (65 ∷ 66 ∷ 67 ∷ [])) }

abbrev pub number : Value
number = record { size = 8; content = int (negsuc 4) }

abbrev pub fraction : Value
fraction = record { size = 8; content = double 4611686018427387904 }

abbrev pub test_key : Key
test_key = record { size = 2; buffer = some (7 ∷ 8 ∷ []) }
