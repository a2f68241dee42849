-- ===== src/Codec/Containers.antt =====
-- common/src/utils.cxx: what the readers make of the values in a request for a container.
use hurricache_cpp_client.Prelude.{
  ℕ, ◌^◌, ◌%◌, ◌<◌, ◌≡◌, refl, sym, ap, ◌∙◌, List, [], ◌∷◌, flatten, Option, none, some, ok, fault,
  wild_read, arith, Bool-cases, Option-cases, inl, inr, ltb, Returns,
}
use hurricache_cpp_client.Prelude.Int.{ℤ, pos, to_u64}
use hurricache_cpp_client.Types.{Value, OrderedValue, bytes, int, double, Content, read}
use hurricache_cpp_client.Proto
use hurricache_cpp_client.Proto.{
  DataCase, not_set, payload, int_payload, double_payload, Cord, OrderedValueMessage, ValueMessage,
}
use hurricache_cpp_client.Env.{Env, Libdeflate, IsLibdeflate}
use hurricache_cpp_client.Codec.{compress, bytes_payload}
use hurricache_cpp_client.Codec.Parse.{
  cord_of, is_compressed, raw_size, read_payload, value_request_to_value,
  value_request_to_ordered_value, typed_value, bytes_value,
}
use hurricache_cpp_client.Codec.RoundTrip.{
  rechunk_data, IsValue, received, read-bytes_payload, read-IsValue, rechunk,
  value_request_to_value-build_value_proto,
}
use hurricache_cpp_client.Codec.Requests.{
  container_values, ordered_payload, ordered_message, ordered_value_message, data_bytes,
  plain_payload,
}

-- The values that are there.
unfoldable pub present : {A : Type 0} → List (Option A) → List A
present [] = []
present (none ∷ vs) = present vs
present (some v ∷ vs) = v ∷ present vs

-- Values as the class keeps them, of sizes that fit 32 bits with their compressed forms.
abbrev pub AreValues : Libdeflate → List Value → Type 0
AreValues z [] = Unit {0}
AreValues z (v ∷ vs) =
    (IsValue v × (v.size < 2 ^ 32) × (z.compress_bound v.size < 2 ^ 32)) × AreValues z vs

abbrev pub all_received : List Value → List (Option Value)
all_received [] = []
all_received (v ∷ vs) = some (received v) ∷ all_received vs

abbrev pub all_read : Libdeflate → (Cord → Cord) → List ValueMessage → List (Option Value)
all_read z f [] = []
all_read z f (m ∷ ms) = value_request_to_value z (rechunk f m) ∷ all_read z f ms

-- The values of a request for a container are read back from it, in their order and with no gap
-- where a pointer was null, whatever the client, the threshold and the chunks in which they arrive.
-- Their sizes fit 32 bits.
pub container_values-received :
    (env : Env)
    → IsLibdeflate env.deflate
    → (f : Cord → Cord) → ((c : Cord) → flatten (f c) ≡ flatten c)
    → (client_id threshold : ℤ) (values : List (Option Value))
    → AreValues env.deflate (present values)
    → all_read env.deflate f (container_values env client_id threshold values)
      ≡ all_received (present values)
unfolding container_values present
container_values-received env law f keeps client_id threshold [] valid = refl
container_values-received env law f keeps client_id threshold (none ∷ vs) valid =
    container_values-received env law f keeps client_id threshold vs valid
container_values-received env law f keeps client_id threshold (some v ∷ vs)
      ((valid_v, small, room), valid) =
    ap
      (λ (x : Option Value).
        x ∷ all_read env.deflate f (container_values env client_id threshold vs))
      (value_request_to_value-build_value_proto env law f keeps v (pos 0) client_id threshold
        valid_v small room)
    ∙ ap (λ r. some (received v) ∷ r)
        (container_values-received env law f keeps client_id threshold vs valid)

cord_of-same : (d : DataCase) → cord_of (rechunk_data (λ c. c) d) ≡ cord_of d
cord_of-same not_set = refl
cord_of-same (payload c) = refl
cord_of-same (int_payload n) = refl
cord_of-same (double_payload x) = refl

pub compress-bound_suffices :
    (z : Libdeflate) → IsLibdeflate z → (xs : List ℕ) → compress z xs ≡ none → ⊥
unfolding compress
compress-bound_suffices z law xs e = ground (arith, law.bound_suffices xs)

-- With a compressor that keeps its word the two writers of bytes agree.
ordered_payload-bytes_payload :
    (env : Env)
    → IsLibdeflate env.deflate
    → (buffer : Option (List ℕ)) (size : ℕ) (threshold : ℤ)
    → ordered_payload env (record { size = size; content = bytes buffer }) threshold
      ≡ ok (bytes_payload env buffer size threshold)
unfolding ordered_payload bytes_payload plain_payload data_bytes
ordered_payload-bytes_payload env law buffer size threshold =
    elim (Bool-cases (ltb (to_u64 threshold) size)) [
      | inr e ↦ ground arith
      | inl e ↦ elim (Option-cases (compress env.deflate (read buffer (size % 2 ^ 32)))) [
        | inl q ↦ absurd (compress-bound_suffices env.deflate law _ q)
        | inr (c, q) ↦ ground arith
      ]
    ]

ordered_value_message-message :
    (env : Env)
    → IsLibdeflate env.deflate
    → (buffer : Option (List ℕ)) (size weight : ℕ) (threshold : ℤ)
    → let v : Value = record { size = size; content = bytes buffer } in
      let (body, info) = bytes_payload env buffer size threshold in
      ordered_value_message env (record { value = v; weight = weight }) threshold
      ≡ ok (ordered_message body info weight)
unfolding ordered_value_message
ordered_value_message-message env law buffer size weight threshold =
    rw (ordered_payload-bytes_payload env law buffer size threshold)

-- A message with the type that the writer leaves out.
abbrev pub typed_bytes : OrderedValueMessage → OrderedValueMessage
typed_bytes m = record m { value_type = some Proto.ValueType.bytes }

-- An ordered value of bytes is written without a fault, for any threshold. The reader of ordered
-- values makes null of the message as it is written, since the writer leaves out the type; once the
-- type is filled in it reads the value back, with its weight. The sizes fit 32 bits, and the
-- compressor does what libdeflate promises.
pub ordered_value_message-received :
    (env : Env)
    → IsLibdeflate env.deflate
    → (buffer : Option (List ℕ)) (size weight : ℕ) (threshold : ℤ)
    → let v : Value = record { size = size; content = bytes buffer } in
      let o : OrderedValue = record { value = v; weight = weight } in
      IsValue v
      → size < 2 ^ 32
      → env.deflate.compress_bound size < 2 ^ 32
      → Returns (ordered_value_message env o threshold) (λ m.
        (value_request_to_ordered_value env.deflate m ≡ none)
        × (value_request_to_ordered_value env.deflate (typed_bytes m)
            ≡ some (record { value = received v; weight = weight })))
unfolding value_request_to_ordered_value typed_value
ordered_value_message-received env law buffer size weight threshold valid small room =
    let (body, info) = bytes_payload env buffer size threshold in
    let whole =
      ap (λ c. read_payload env.deflate (is_compressed info) (raw_size info) c)
        (sym (cord_of-same body.content))
      ∙ read-bytes_payload env law (λ c. c) (λ c. refl) buffer size (read-IsValue buffer size valid)
          small room threshold in
    (
      ordered_message body info weight,
      ordered_value_message-message env law buffer size weight threshold,
      (
        refl,
        ap
            (λ r. elim (bytes_value r) [
              | none ↦ none
              | some v ↦ some (record { value = v; weight = weight })
            ])
            whole,
      ),
    )

-- A number as the class keeps it: eight bytes.
abbrev pub IsNumber : Value → Type 0
IsNumber v = elim v.content [ bytes buffer ↦ ⊥ | int n ↦ v.size ≡ 8 | double d ↦ v.size ≡ 8 ]

is_number :
    (env : Env) (size : ℕ) (content : Content) (weight : ℕ) (threshold : ℤ)
    → let v : Value = record { size = size; content = content } in
      IsNumber v
      → ordered_value_message env (record { value = v; weight = weight }) threshold
        ≡ fault wild_read
unfolding ordered_value_message ordered_payload plain_payload data_bytes
is_number env size (bytes buffer) weight threshold h = absurd h
is_number env size (int n) weight threshold h = ground arith
is_number env size (double d) weight threshold h = ground arith

-- An ordered value that is a number is never written: for any threshold the writer takes the number
-- for a pointer, and reads behind it.
pub ordered_value_message-wild_read :
    (env : Env) (v : OrderedValue) (threshold : ℤ)
    → IsNumber v.value
    → ordered_value_message env v threshold ≡ fault wild_read
ordered_value_message-wild_read env v threshold h =
    is_number env v.value.size v.value.content v.weight threshold h
