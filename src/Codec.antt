-- ===== src/Codec.antt =====
-- common/src/utils.cxx and common/src/compression.cxx: messages from keys and values.
pub mod Parse
pub mod RoundTrip
pub mod KeyRoundTrip
pub mod Requests
pub mod Containers
pub mod Compression
use hurricache_cpp_client.Prelude.{
  ℕ, ◌+◌, ◌%◌, ◌^◌, Bool, true, false, List, [], ◌∷◌, Option, none, some, ltb, if◌then◌else◌, Run,
  ok, fault, null_string, ◌>>=◌, length,
}
use hurricache_cpp_client.Prelude.Int.{ℤ, pos, is_positive, to_u32, to_u64}
use hurricache_cpp_client.Types.{Key, KeyHint, Value, OrderedValue, bytes, int, double, read}
use hurricache_cpp_client.Proto
use hurricache_cpp_client.Proto.{
  Cord, KeyMessage, ValueMessage, OrderedValueMessage, HintMessage, KeyBinaryPayload,
  CompressedInfo, LockInfo, BinaryPayload, payload, int_payload, double_payload,
}
use hurricache_cpp_client.Env.{Env, Libdeflate}

-- `gzip_compress_libdeflate`: null if the compressor reports the size 0. The source is the
-- `sourceLen` bytes at the pointer.
unfoldable pub compress : Libdeflate → List ℕ → Option (List ℕ)
compress z source = elim (z.gzip_compress source (z.compress_bound (length source))) [
  | [] ↦ none
  | b ∷ bs ↦ some (b ∷ bs)
]

-- `calculateKeyHint`.
unfoldable pub calculate_key_hint : Env → Key → Option KeyHint
calculate_key_hint env key = elim key.buffer [
  | none ↦ none
  | some b ↦
      if ltb 0 key.size
      then some (record {
        weak_hash = env.week_hash (read (some b) key.size);
        strong_hash = env.strong_hash (read (some b) key.size);
      })
      else none
]

-- `hint == nullptr ? calculateKeyHint(key) : hint`.
unfoldable pub effective_hint : Env → Key → Option KeyHint → Option KeyHint
unfolding calculate_key_hint
effective_hint env key none = calculate_key_hint env key
effective_hint env key (some h) = some h

-- `set_weak_hash` and `set_strong_hash` of the key's hint, if there is one.
unfoldable pub hint_message : Option KeyHint → Option HintMessage
hint_message none = none
hint_message (some h) =
    some (record { weak_hash = some h.weak_hash; strong_hash = some h.strong_hash })

-- `kDefaultCompressionThreshold`.
abbrev pub default_compression_threshold : ℤ
default_compression_threshold = pos 1024

-- The payload of a key, compressed over the threshold. The comparison is one of uint32_t with
-- int32_t, which is made unsigned. A failed compression is handed to `std::string` unchecked.
unfoldable pub key_payload : Env → Key → ℤ → Run (KeyBinaryPayload × Option CompressedInfo)
unfolding compress
key_payload env key threshold =
    if ltb (to_u32 threshold) key.size
    then elim (compress env.deflate (read key.buffer key.size)) [
      | none ↦ fault null_string
      | some c ↦ ok (
        record { payload = c; size = length c % 2 ^ 32 },
        some (record { enabled = true; raw_size = some key.size }),
      )
    ]
    else ok (record { payload = read key.buffer key.size; size = key.size }, none)

-- `buildKeyProto`.
unfoldable pub build_key_proto : Env → Key → Option KeyHint → ℤ → ℤ → Run KeyMessage
unfolding key_payload effective_hint hint_message
build_key_proto env key hint client_id threshold = do
  (body, info) ← key_payload env key threshold
  ok (record {
    payload = some body;
    compression_info = info;
    key_hint = hint_message (effective_hint env key hint);
    client_id = some (to_u32 client_id);
  })

-- `absl::MakeCordFromExternal` of one view: no chunk for an empty one.
unfoldable pub make_cord : List ℕ → Cord
make_cord [] = []
make_cord (b ∷ bs) = (b ∷ bs) ∷ []

-- The payload and the compression info of `buildValueProto`'s BYTES case. The compressor is given
-- the size in 32 bits, and a failed compression falls back to the plain bytes.
unfoldable pub bytes_payload : Env → Option (List ℕ) → ℕ → ℤ → BinaryPayload × Option CompressedInfo
unfolding compress make_cord
bytes_payload env buffer size threshold =
    let raw = read buffer size in
    let plain : BinaryPayload = record {
      content = payload (make_cord raw);
      size = size % 2 ^ 32;
    } in
    if ltb (to_u64 threshold) size
    then elim (compress env.deflate (read buffer (size % 2 ^ 32))) [
      | none ↦ (plain, none)
      | some c ↦ (
        record { content = payload (make_cord c); size = length c % 2 ^ 32 },
        some (record { enabled = true; raw_size = some (size % 2 ^ 32) }),
      )
    ]
    else (plain, none)

-- `set_ttl(now_ms + ttl)` where a ttl is given; in uint64_t.
unfoldable pub deadline : Env → ℤ → Option ℕ
deadline env ttl = if is_positive ttl then some ((env.now_ms + to_u64 ttl) % 2 ^ 64) else none

-- `buildValueProto`.
unfoldable pub build_value_proto : Env → Value → ℤ → ℤ → ℤ → ValueMessage
unfolding bytes_payload deadline
build_value_proto env v ttl client_id threshold = elim v.content [
  | bytes buffer ↦
      let (body, info) = bytes_payload env buffer v.size threshold in
      message body info Proto.ValueType.bytes
  | int n ↦ message (record { content = int_payload n; size = 0 }) none Proto.ValueType.int
  | double d ↦ message (record { content = double_payload d; size = 0 }) none Proto.ValueType.double
]
  where
    message : BinaryPayload → Option CompressedInfo → Proto.ValueType → ValueMessage
    message body info type = record {
      value = some body;
      compression_info = info;
      ttl = deadline env ttl;
      lock_info =
          some (record { lock_type = 0; locked_by = some (to_u32 client_id); locked_till = none });
      value_type = some type;
    }
