-- ===== src/Standalone/Laws/Maps.antt =====
-- standalone/src/standalone_client.cpp: what `streamMap` makes of the entries that `createMap` sent.
use hurricache_cpp_client.Prelude.{
  ℕ, ◌^◌, ◌<◌, ◌≡◌, refl, sym, ap, ◌∙◌, true, false, List, [], ◌∷◌, ◌++◌, append_assoc, append-nil,
  map, map-append, flatten, Option, some, arith, ok, length, if◌then◌else◌,
}
use hurricache_cpp_client.Prelude.Int.{ℤ, pos}
use hurricache_cpp_client.Types.{ContainerType, Key, KeyHint, Value, read, new_key}
use hurricache_cpp_client.Proto.{Cord, ValueMessage, KeyMessage}
use hurricache_cpp_client.Proto.Requests.{GetRequest, BatchValueResponse, CreateContainerRequest}
use hurricache_cpp_client.Env.{Env, Libdeflate, IsLibdeflate}
use hurricache_cpp_client.Codec.{deadline, build_value_proto, default_compression_threshold}
use hurricache_cpp_client.Codec.Parse.{value_request_to_value, key_request_to_key, key_buffer}
use hurricache_cpp_client.Codec.Requests.{raw_key_message}
use hurricache_cpp_client.Codec.RoundTrip.{
  IsValue, received, rechunk, value_request_to_value-build_value_proto,
}
use hurricache_cpp_client.Rpc.{
  value, Ending, is_ok, status_failure, send_async_request, call_deadline, failed,
}
use hurricache_cpp_client.Rpc.Streams.{sum_of, outcome_of}
use hurricache_cpp_client.Standalone.{StandaloneClient, Service, channel_of, hint_of, send}
use hurricache_cpp_client.Standalone.Containers.{map_entries, create_map}
use hurricache_cpp_client.Standalone.Streams.{
  push_pair, push_pairs, push_entries, key_only, stream_map,
}
use hurricache_cpp_client.Standalone.Laws.{build_key_proto-ok, build_get_request_proto-ok}
use hurricache_cpp_client.Standalone.Laws.Streamed.{send_stream-outcome, chunks_of}

-- A key as it is read back, from its bytes.
abbrev pub received_key : Key → Key
received_key k = new_key k.size (some (read k.buffer k.size))

abbrev pub received_entry : Key × Value → Key × Value
received_entry (k, v) = (received_key k, received v)

-- Keys and values as the classes keep them, of sizes that fit 32 bits.
abbrev pub AreEntries : Libdeflate → List (Key × Value) → Type 0
AreEntries z [] = Unit {0}
AreEntries z ((k, v) ∷ es) =
    ((length (read k.buffer k.size) ≡ k.size)
      × IsValue v
      × (v.size < 2 ^ 32)
      × (z.compress_bound v.size < 2 ^ 32))
    × AreEntries z es

-- Entries of all parts of a stream.
abbrev pub AreParts : Libdeflate → List (List (Key × Value)) → Type 0
AreParts z [] = Unit {0}
AreParts z (es ∷ parts) = AreEntries z es × AreParts z parts

-- Entries that are all there.
abbrev pub all_present : List (Key × Value) → List (Option Key × Option Value)
all_present [] = []
all_present ((k, v) ∷ es) = (some k, some v) ∷ all_present es

abbrev pub key_messages : List (Key × Value) → List KeyMessage
key_messages [] = []
key_messages ((k, v) ∷ es) = raw_key_message k ∷ key_messages es

module _ (env : Env) (client_id : ℤ) where
  abbrev pub entry_value : Value → ValueMessage
  entry_value v = build_value_proto env v (pos 0) client_id default_compression_threshold

  abbrev pub value_messages : List (Key × Value) → List ValueMessage
  value_messages [] = []
  value_messages ((k, v) ∷ es) = entry_value v ∷ value_messages es

  -- The messages of some entries as they are streamed, their bytes in other chunks.
  abbrev pub batch_of : (Cord → Cord) → List (Key × Value) → BatchValueResponse
  batch_of f es = record {
    key_unordered = key_messages es;
    key_ordered = [];
    value_unordered = map (rechunk f) (value_messages es);
    value_ordered = [];
  }

  map_entries-all_present :
      (es : List (Key × Value))
      → map_entries env client_id (all_present es) ≡ ok (key_messages es, value_messages es)
  unfolding map_entries
  map_entries-all_present [] = refl
  map_entries-all_present ((k, v) ∷ es) = rw (map_entries-all_present es) refl

key_request_to_key-raw :
    (z : Libdeflate) (k : Key)
    → length (read k.buffer k.size) ≡ k.size
    → key_only (key_request_to_key z (raw_key_message k)) ≡ some (received_key k)
unfolding key_request_to_key key_buffer raw_key_message key_only
key_request_to_key-raw z k whole = ground arith

module _ (env : Env) (law : IsLibdeflate env.deflate) (client_id : ℤ) (f : Cord → Cord)
    (keeps : (c : Cord) → flatten (f c) ≡ flatten c) where
  push_pairs-received :
      (result : List (Key × Value)) (es : List (Key × Value))
      → AreEntries env.deflate es
      → push_pairs
          (λ m. key_only (key_request_to_key env.deflate m))
          (value_request_to_value env.deflate)
          result
          (key_messages es)
          (map (rechunk f) (value_messages env client_id es))
        ≡ result ++ map received_entry es
  unfolding push_pairs push_pair
  push_pairs-received result [] valid = sym (append-nil result)
  push_pairs-received result ((k, v) ∷ es) ((whole, valid_v, small, room), valid) =
      let z = env.deflate in
      let go = λ (r : List (Key × Value)).
        push_pairs (λ m. key_only (key_request_to_key z m)) (value_request_to_value z) r
          (key_messages es) (map (rechunk f) (value_messages env client_id es)) in
      let raw = value_request_to_value z (rechunk f (entry_value env client_id v)) in
      ap (λ o. go (push_pair result o raw)) (key_request_to_key-raw z k whole)
      ∙ ap (λ o. go (push_pair result (some (received_key k)) o))
          (value_request_to_value-build_value_proto env law f keeps v (pos 0) client_id
            default_compression_threshold valid_v small room)
      ∙ push_pairs-received (result ++ (received_entry (k, v) ∷ [])) es valid
      ∙ append_assoc result (received_entry (k, v) ∷ []) (map received_entry es)

  sum_of-received :
      (result : List (Key × Value)) (parts : List (List (Key × Value)))
      → AreParts env.deflate parts
      → sum_of (push_entries env.deflate) result (map (batch_of env client_id f) parts)
        ≡ result ++ map received_entry (flatten parts)
  unfolding sum_of push_entries flatten
  sum_of-received result [] valid = sym (append-nil result)
  sum_of-received result (es ∷ parts) (here, valid) =
      ap (λ r. sum_of (push_entries env.deflate) r (map (batch_of env client_id f) parts))
        (push_pairs-received result es here)
      ∙ sum_of-received (result ++ map received_entry es) parts valid
      ∙ append_assoc result (map received_entry es) (map received_entry (flatten parts))
      ∙ ap (λ r. result ++ r) (sym (map-append received_entry es (flatten parts)))

good_outcome :
    {A : Type 0} (r : A) (e : Ending)
    → is_ok e ≡ true
    → ok (outcome_of (λ x. x) status_failure r e ∷ []) ≡ ok (value r ∷ [])
good_outcome r e good = ap (λ b. ok ((if b then value r else failed (status_failure e)) ∷ [])) good

-- A map is sent whole: its creation reaches the node with one key and one value for each entry, in the
-- order in which the map gives them, and where the node streams these messages in batches, wherever it
-- cuts them and the bytes of the values, the stream puts every entry into its map once, with its key
-- and its value. The result lists the entries as they are put: the order of addresses is not modelled.
-- The client is open, the stream ends well, keys and values have the bytes that their sizes say, these
-- sizes and the compressor's bounds fit 32 bits, and the compressor does what libdeflate promises.
pub stream_map-create_map :
    (env : Env)
    → IsLibdeflate env.deflate
    → (service : Service) (s : StandaloneClient) → s.is_shut_down ≡ false
    → (key : Key) (hint : Option KeyHint) (client_id timeout : ℤ) (e : Ending) → is_ok e ≡ true
    → (f : Cord → Cord) → ((c : Cord) → flatten (f c) ≡ flatten c)
    → (parts : List (List (Key × Value))) (ttl : ℤ) → AreParts env.deflate parts
    → ((d : Option ℕ) (g : GetRequest)
        → service.on_get_container d g
          ≡ record { opens = true; chunks = map (batch_of env client_id f) parts; ending = e })
    → (r : CreateContainerRequest) × (r.key_unordered ≡ key_messages (flatten parts))
      × (r.value_unordered ≡ value_messages env client_id (flatten parts))
      × (create_map env service s key hint client_id timeout
            (some (all_present (flatten parts)))
            ttl
          ≡ ok (
              send_async_request
                (channel_of s)
                env.now_ms
                service.on_create_container
                r
                timeout
                (some (λ a. value (hint_of a)))))
      × (stream_map env service s key hint client_id timeout
          ≡ ok (value (map received_entry (flatten parts)) ∷ []))
unfolding create_map stream_map send
stream_map-create_map env law service s open_yet key hint client_id timeout e good f keeps parts ttl
      valid streams =
    let (k, made) = build_key_proto-ok env law key hint client_id default_compression_threshold in
    let (g, asked) =
      build_get_request_proto-ok env law key hint client_id s.compression_threshold in
    let d = call_deadline s.default_timeout env.now_ms timeout in
    let sent = map received_entry (flatten parts) in
    (
      record {
        key = k;
        type = ContainerType.hash_map;
        ttl = deadline env ttl;
        key_unordered = key_messages (flatten parts);
        value_unordered = value_messages env client_id (flatten parts);
        key_ordered = [];
        value_ordered = [];
      },
      refl,
      refl,
      rw (made, map_entries-all_present env client_id (flatten parts)) refl,
      send_stream-outcome s env timeout service.on_get_container (push_entries env.deflate) _ g
            asked open_yet
          ∙ ap
              (λ st. ok (
                outcome_of (λ r. r) status_failure
                  (sum_of (push_entries env.deflate) [] (chunks_of st)) st.ending
                ∷ []))
              (streams d g)
          ∙ ap (λ r. ok (outcome_of (λ x. x) status_failure r e ∷ []))
              (sum_of-received env law client_id f keeps [] parts valid)
          ∙ good_outcome sent e good,
    )
