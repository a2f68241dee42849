-- ===== src/Codec/RoundTrip.antt =====
-- common/src/utils.cxx: what `valueRequestToValue` and `keyRequestToKey` read from a message that
-- `buildValueProto` and `buildKeyProto` built and that the network has cut into other chunks.
use hurricache_cpp_client.Prelude.{
  ℕ, ◌%◌, ◌^◌, ◌≤◌, ◌<◌, ◌≡◌, ◌≢◌, refl, sym, ap, ◌∙◌, ◌⊎◌, inl, inr, true, false, List, [], ◌∷◌,
  ◌++◌, flatten, append_assoc, append-nil, Option, none, some, arith, Bool-cases, Option-cases, ltb,
  ◌==◌, length, take_all,
}
use hurricache_cpp_client.Prelude.Int.{ℤ, to_u64}
use hurricache_cpp_client.Types.{Content, Value, bytes, int, double, read}
use hurricache_cpp_client.Proto.{Cord, DataCase, payload, ValueMessage}
use hurricache_cpp_client.Env.{Env, Libdeflate, IsLibdeflate}
use hurricache_cpp_client.Codec.{compress, make_cord, bytes_payload, build_value_proto}
use hurricache_cpp_client.Codec.Parse.{
  is_compressed, raw_size, cord_of, decompress, flat_chunk, copy_chunks, inflate, read_payload,
  value_request_to_value, bytes_value,
}

-- A value as the class keeps it: the buffer has `size` bytes, and a number takes eight.
abbrev pub IsValue : Value → Type 0
IsValue v = elim v.content [
  | bytes none ↦ v.size ≡ 0
  | bytes (some b) ↦ length b ≡ v.size
  | int n ↦ v.size ≡ 8
  | double d ↦ v.size ≡ 8
]

-- The value that a reader makes of `v`: the same, with a buffer of its own also for no bytes.
abbrev pub received : Value → Value
received v = record v {
  content = elim v.content [
    | bytes buffer ↦ bytes (some (read buffer v.size))
    | int n ↦ int n
    | double d ↦ double d
  ];
}

abbrev pub rechunk_data : (Cord → Cord) → DataCase → DataCase
rechunk_data f (payload c) = payload (f c)
rechunk_data f d = d

-- A message whose Cord arrives cut into other chunks.
abbrev pub rechunk : (Cord → Cord) → ValueMessage → ValueMessage
rechunk f m = record m {
  value = elim m.value [
    | none ↦ none
    | some b ↦ some (record b { content = rechunk_data f b.content })
  ];
}

pub copy_chunks-flatten : (w : List ℕ) (c : Cord) → copy_chunks w c ≡ w ++ flatten c
unfolding copy_chunks flatten
copy_chunks-flatten w [] = sym (append-nil w)
copy_chunks-flatten w (c ∷ cs) = copy_chunks-flatten (w ++ c) cs ∙ append_assoc w c (flatten cs)

-- A flat Cord is its contents in one chunk.
pub flat_chunk-cases :
    (c : Cord) (n : ℕ) → (flat_chunk c n ≡ none) ⊎ (flat_chunk c n ≡ some (flatten c))
unfolding flat_chunk flatten
flat_chunk-cases [] n = inl refl
flat_chunk-cases (c ∷ []) n = elim (Bool-cases (length c == n)) [
  | inl e ↦ inr (rw (e, append-nil c))
  | inr e ↦ inl (rw e)
]
flat_chunk-cases (c ∷ d ∷ cs) n = inl refl

read_payload-plain :
    (z : Libdeflate) (raw : ℕ) (c : Cord)
    → read_payload z false raw c ≡ some (flatten c, length (flatten c))
unfolding read_payload
read_payload-plain z raw c = elim (flat_chunk-cases c (length (flatten c))) [
  | inl e ↦ rw (e, read_payload, copy_chunks-flatten [] c) (ground arith)
  | inr e ↦ rw (e, read_payload, take_all (length (flatten c)) (flatten c) (omega arith))
]

pub decompress_lem :
    (z : Libdeflate) (raw : ℕ) (source : List ℕ)
    → length source < 2 ^ 32
    → decompress z source (length source % 2 ^ 32) raw ≡ z.gzip_decompress source raw
unfolding decompress
decompress_lem z raw source small =
    let fits : length source % 2 ^ 32 ≡ length source = omega arith in
    rw fits (ap (λ s. z.gzip_decompress s raw) (take_all (length source) source (omega arith)))

inflate_lem :
    (z : Libdeflate) (raw : ℕ) (source out : List ℕ)
    → length source < 2 ^ 32
    → z.gzip_decompress source raw ≡ some out
    → inflate z raw source (length source) ≡ some (out, raw)
unfolding inflate
inflate_lem z raw source out small e = rw (decompress_lem z raw source small ∙ e, inflate)

read_payload-inflated :
    (z : Libdeflate) (raw : ℕ) (c : Cord) (out : List ℕ)
    → length (flatten c) < 2 ^ 32
    → z.gzip_decompress (flatten c) raw ≡ some out
    → read_payload z true raw c ≡ some (out, raw)
unfolding read_payload
read_payload-inflated z raw c out small e = elim (flat_chunk-cases c (length (flatten c))) [
  | inl q ↦
      rw (q, read_payload, copy_chunks-flatten [] c)
        (ground (arith, inflate_lem z raw (flatten c) out))
  | inr q ↦ rw (q, read_payload) (inflate_lem z raw (flatten c) out small e)
]

flatten-make_cord : (xs : List ℕ) → flatten (make_cord xs) ≡ xs
unfolding make_cord flatten
flatten-make_cord [] = refl
flatten-make_cord (x ∷ xs) = append-nil (x ∷ xs)

-- A compression that succeeds gave the compressor's output, and that is not empty.
pub compress-some :
    (z : Libdeflate) (xs c : List ℕ)
    → compress z xs ≡ some c
    → (z.gzip_compress xs (z.compress_bound (length xs)) ≡ c) × (c ≢ [])
unfolding compress
compress-some z xs c e = ground arith

-- What the compressor wrote fits its room, and is read back.
pub compress-reads :
    (z : Libdeflate)
    → IsLibdeflate z
    → (xs c : List ℕ) → compress z xs ≡ some c
    → z.compress_bound (length xs) < 2 ^ 32
    → (length c < 2 ^ 32) × (z.gzip_decompress c (length xs) ≡ some xs)
compress-reads z law xs c e room =
    let (out, full) = compress-some z xs c e in
    let bound = z.compress_bound (length xs) in
    let fits : length c ≤ bound = rw out at (law.within xs bound) in
    (omega arith, rw out at (law.reads_back xs bound (rw out full)))

module _ (env : Env) (law : IsLibdeflate env.deflate) (f : Cord → Cord)
    (keeps : (c : Cord) → flatten (f c) ≡ flatten c) (buffer : Option (List ℕ)) (size : ℕ)
    (whole : length (read buffer size) ≡ size) (small : size < 2 ^ 32)
    (room : env.deflate.compress_bound size < 2 ^ 32) where
  contents : (xs : List ℕ) → flatten (f (make_cord xs)) ≡ xs
  contents xs = keeps (make_cord xs) ∙ flatten-make_cord xs

  read-plain :
      (raw : ℕ)
      → read_payload env.deflate false raw (f (make_cord (read buffer size)))
        ≡ some (read buffer size, size)
  read-plain raw = rw (read_payload-plain, contents, whole)

  read-compressed :
      (c : List ℕ)
      → compress env.deflate (read buffer size) ≡ some c
      → read_payload env.deflate true size (f (make_cord c)) ≡ some (read buffer size, size)
  read-compressed c e =
      let raw = read buffer size in
      let (short, inflates) = compress-reads env.deflate law raw c e (rw whole room) in
      read_payload-inflated env.deflate size (f (make_cord c)) raw (rw contents short)
        (rw contents (rw whole at inflates))

  -- What is read back from a built payload, on every path of the writer.
  pub read-bytes_payload :
      (threshold : ℤ)
      → let r = bytes_payload env buffer size threshold in
        read_payload env.deflate
          (is_compressed r.1)
          (raw_size r.1)
          (cord_of (rechunk_data f r.0.content))
        ≡ some (read buffer size, size)
  unfolding bytes_payload
  read-bytes_payload threshold =
      let fits : size % 2 ^ 32 ≡ size = omega arith in
      elim (Bool-cases (ltb (to_u64 threshold) size)) [
        | inr e ↦ rw (e, bytes_payload) (read-plain 0)
        | inl e ↦ elim (Option-cases (compress env.deflate (read buffer (size % 2 ^ 32)))) [
          | inl q ↦ rw (e, q, bytes_payload) (read-plain 0)
          | inr (c, q) ↦ rw (e, q, bytes_payload) (rw fits (read-compressed c (rw fits at q)))
        ]
      ]

pub read-IsValue :
    (buffer : Option (List ℕ)) (size : ℕ)
    → IsValue (record { size = size; content = bytes buffer })
    → length (read buffer size) ≡ size
read-IsValue none size valid = sym valid
read-IsValue (some b) size valid = rw (take_all size b (omega arith)) valid

round_trip :
    (env : Env)
    → IsLibdeflate env.deflate
    → (f : Cord → Cord) → ((c : Cord) → flatten (f c) ≡ flatten c)
    → (size : ℕ) (content : Content) (ttl client_id threshold : ℤ)
    → let v : Value = record { size = size; content = content } in
      IsValue v
      → size < 2 ^ 32
      → env.deflate.compress_bound size < 2 ^ 32
      → value_request_to_value env.deflate
          (rechunk f (build_value_proto env v ttl client_id threshold))
        ≡ some (received v)
unfolding value_request_to_value build_value_proto
round_trip env law f keeps size (bytes buffer) ttl client_id threshold valid small room =
    ap bytes_value (
      read-bytes_payload env law f keeps buffer size (read-IsValue buffer size valid) small room
        threshold)
round_trip env law f keeps size (int n) ttl client_id threshold valid small room = rw valid
round_trip env law f keeps size (double d) ttl client_id threshold valid small room = rw valid

pub value_request_to_value-build_value_proto :
    (env : Env)
    → IsLibdeflate env.deflate
    → (f : Cord → Cord) → ((c : Cord) → flatten (f c) ≡ flatten c)
    → (v : Value) (ttl client_id threshold : ℤ) → IsValue v
    → v.size < 2 ^ 32
    → env.deflate.compress_bound v.size < 2 ^ 32
    → value_request_to_value env.deflate
        (rechunk f (build_value_proto env v ttl client_id threshold))
      ≡ some (received v)
value_request_to_value-build_value_proto env law f keeps v ttl client_id threshold valid small
      room =
    round_trip env law f keeps v.size v.content ttl client_id threshold valid small room
