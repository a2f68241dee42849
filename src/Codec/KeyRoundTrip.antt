-- ===== src/Codec/KeyRoundTrip.antt =====
-- common/src/utils.cxx: `keyRequestToKey` of what `buildKeyProto` wrote.
use hurricache_cpp_client.Prelude.{
  ℕ, ◌%◌, ◌^◌, ◌-◌, ◌<◌, ◌≡◌, refl, sym, ◌∙◌, inl, inr, true, List, [], Option, none, some, arith,
  Bool-cases, Option-cases, ltb, ==_iff, length, take, take_all, ok,
}
use hurricache_cpp_client.Prelude.Int.{ℤ, to_u32}
use hurricache_cpp_client.Types.{Key, KeyHint, read, new_key}
use hurricache_cpp_client.Proto.{KeyBinaryPayload, CompressedInfo, KeyMessage}
use hurricache_cpp_client.Env.{Env, Libdeflate, IsLibdeflate}
use hurricache_cpp_client.Codec.{
  compress, effective_hint, hint_message, key_payload, build_key_proto,
}
use hurricache_cpp_client.Codec.Parse.{key_buffer, received_hint, key_request_to_key}
use hurricache_cpp_client.Codec.RoundTrip.{decompress_lem, compress-reads}

-- A key as its constructors leave it: no buffer for no bytes.
abbrev pub IsKey : Key → Type 0
IsKey key = elim key.buffer [
  | none ↦ key.size ≡ 0
  | some b ↦ (0 < key.size) × (length b ≡ key.size)
]

-- The hint of a message, with the numbers that stand for none.
abbrev pub hint_or_max : Option KeyHint → KeyHint
hint_or_max none = record { weak_hash = 2 ^ 32 - 1; strong_hash = 2 ^ 32 - 1 }
hint_or_max (some h) = h

received_hint-hint_message : (h : Option KeyHint) → received_hint (hint_message h) ≡ hint_or_max h
unfolding received_hint hint_message
received_hint-hint_message none = refl
received_hint-hint_message (some h) = refl

new_key-read :
    (size : ℕ) (buffer : Option (List ℕ))
    → let key : Key = record { size = size; buffer = buffer } in
      IsKey key
      → (length (read buffer size) ≡ size) × (new_key size (some (read buffer size)) ≡ key)
unfolding new_key
new_key-read size none valid = (sym valid, rw valid)
new_key-read size (some b) (filled, whole) =
    let all : take size b ≡ b = take_all size b (omega arith) in
    let again : take size (take size b) ≡ b = rw all all in (rw all whole, ground arith)

compress-none :
    (z : Libdeflate) (xs : List ℕ)
    → compress z xs ≡ none
    → z.gzip_compress xs (z.compress_bound (length xs)) ≡ []
unfolding compress
compress-none z xs e = ground arith

-- With enough room the compressor does not fail.
compress_total :
    (z : Libdeflate) → IsLibdeflate z → (xs : List ℕ) → (c : List ℕ) × (compress z xs ≡ some c)
compress_total z law xs = elim (Option-cases (compress z xs)) [
  | inl e ↦ absurd (law.bound_suffices xs (compress-none z xs e))
  | inr found ↦ found
]

module _ (env : Env) (law : IsLibdeflate env.deflate) (key : Key) (valid : IsKey key)
    (small : key.size < 2 ^ 32) (room : env.deflate.compress_bound key.size < 2 ^ 32) where
  -- A payload is written that reads as the key.
  abbrev Reads : KeyBinaryPayload × Option CompressedInfo → Type 0
  Reads (p, info) =
      (p.size ≡ length p.payload)
      × (key_buffer env.deflate info p ≡ some (key.size, read key.buffer key.size))

  payload-Reads :
      (threshold : ℤ)
      → (r : KeyBinaryPayload × Option CompressedInfo) × (key_payload env key threshold ≡ ok r)
        × Reads r
  unfolding key_payload key_buffer
  payload-Reads threshold = elim (Bool-cases (ltb (to_u32 threshold) key.size)) [
    | inr e ↦ (
      (record { payload = read key.buffer key.size; size = key.size }, none),
      rw (e, key_payload),
      (sym (new_key-read key.size key.buffer valid).0, refl),
    )
    | inl e ↦
        let raw = read key.buffer key.size in
        let whole = (new_key-read key.size key.buffer valid).0 in
        let (c, packed) = compress_total env.deflate law raw in
        let (short, inflates) = compress-reads env.deflate law raw c packed (rw whole room) in
        let clen : length c % 2 ^ 32 ≡ length c = omega arith in
        (
          (
            record { payload = c; size = length c % 2 ^ 32 },
            some (record { enabled = true; raw_size = some key.size }),
          ),
          rw (e, packed, key_payload),
          (
            clen,
            rw (decompress_lem env.deflate key.size c short ∙ (rw whole at inflates), key_buffer),
          ),
        )
  ]

-- A key and its hint come back from the message that is built of them, whatever the threshold,
-- and building it does not fail. A key with no hint and no bytes comes back with the hint that
-- stands for none. The sizes fit 32 bits.
pub key_request_to_key-build_key_proto :
    (env : Env)
    → IsLibdeflate env.deflate
    → (key : Key) (hint : Option KeyHint) (client_id threshold : ℤ) → IsKey key
    → key.size < 2 ^ 32
    → env.deflate.compress_bound key.size < 2 ^ 32
    → (m : KeyMessage) × (build_key_proto env key hint client_id threshold ≡ ok m)
      × (key_request_to_key env.deflate m ≡ some (key, hint_or_max (effective_hint env key hint)))
unfolding build_key_proto key_request_to_key
key_request_to_key-build_key_proto env law key hint client_id threshold valid small room =
    let ((p, info), built, (fits, reads)) = payload-Reads env law key valid small room threshold in
    (
      record {
        payload = some p;
        compression_info = info;
        key_hint = hint_message (effective_hint env key hint);
        client_id = some (to_u32 client_id);
      },
      rw built,
      rw (
        (==_iff _ _).1 fits,
        reads,
        (new_key-read key.size key.buffer valid).1,
        received_hint-hint_message,
      ),
    )
