-- ===== src/Standalone/Laws/Added.antt =====
-- standalone/src/standalone_client.cpp: what `addElementHashMap` makes of its two vectors.
use hurricache_cpp_client.Prelude.{
  ℕ, suc, ◌≡◌, ◌≢◌, ◌⊎◌, refl, ap, inl, inr, Bool-cases, List, [], ◌∷◌, map, Option, none, some,
  arith, Run, ok, length, ◌==◌,
}
use hurricache_cpp_client.Prelude.Int.{ℤ}
use hurricache_cpp_client.Types.{Key, KeyHint, Value, ContainerType}
use hurricache_cpp_client.Proto.Requests.{AddToRequest}
use hurricache_cpp_client.Env.{Env, IsLibdeflate}
use hurricache_cpp_client.Codec.{default_compression_threshold}
use hurricache_cpp_client.Rpc.{Outcome, value, failed, send_async_request}
use hurricache_cpp_client.Standalone.{StandaloneClient, Service, channel_of, send}
use hurricache_cpp_client.Standalone.Inserts.{add_element_hash_map}
use hurricache_cpp_client.Standalone.Inserts.Entries.{size_mismatch, matching, hash_map_entries}
use hurricache_cpp_client.Standalone.Laws.{build_key_proto-ok}
use hurricache_cpp_client.Standalone.Laws.Maps.{key_messages, value_messages}

abbrev pub keys_of : List (Key × Value) → List Key
keys_of [] = []
keys_of ((k, v) ∷ es) = k ∷ keys_of es

abbrev pub values_of : List (Key × Value) → List Value
values_of [] = []
values_of ((k, v) ∷ es) = v ∷ values_of es

-- Vectors of one length are the keys and the values of some entries.
entries_of :
    (ks : List Key) (vs : List Value)
    → length ks ≡ length vs
    → (es : List (Key × Value)) × (keys_of es ≡ ks) × (values_of es ≡ vs)
entries_of [] [] e = ([], refl, refl)
entries_of [] (v ∷ vs) e = absurd (omega arith)
entries_of (k ∷ ks) [] e = absurd (omega arith)
entries_of (k ∷ ks) (v ∷ vs) e =
    let (es, keys, values) = entries_of ks vs (omega arith) in
    ((k, v) ∷ es, ap (λ l. k ∷ l) keys, ap (λ l. v ∷ l) values)

length-map-some : {A : Type 0} (xs : List A) → length (map some xs) ≡ length xs
length-map-some [] = refl
length-map-some (x ∷ xs) = ap suc (length-map-some xs)

hash_map_entries-messages :
    (env : Env) (client_id : ℤ) (es : List (Key × Value))
    → hash_map_entries env client_id (map some (keys_of es)) (map some (values_of es))
      ≡ ok (key_messages es, value_messages env client_id es)
unfolding hash_map_entries
hash_map_entries-messages env client_id [] = refl
hash_map_entries-messages env client_id ((k, v) ∷ es) =
    rw (hash_map_entries-messages env client_id es) refl

length-keys_of : (es : List (Key × Value)) → length (keys_of es) ≡ length (values_of es)
length-keys_of [] = refl
length-keys_of ((k, v) ∷ es) = ap suc (length-keys_of es)

matching-entries :
    (es : List (Key × Value))
    → matching (some (map some (keys_of es))) (some (map some (values_of es)))
      ≡ some (map some (keys_of es), map some (values_of es))
unfolding matching
matching-entries es =
    let keys = length-map-some (keys_of es) in
    let values = length-map-some (values_of es) in let same = length-keys_of es in ground arith

matching-mismatch :
    (ks : List Key) (vs : List Value)
    → length ks ≢ length vs
    → matching (some (map some ks)) (some (map some vs)) ≡ none
unfolding matching
matching-mismatch ks vs differ =
    let keys = length-map-some ks in let values = length-map-some vs in ground arith

module _ (env : Env) (law : IsLibdeflate env.deflate) (service : Service) (s : StandaloneClient)
    (key : Key) (hint : Option KeyHint) (client_id timeout : ℤ) where
  -- The call with the messages of some entries.
  abbrev added_call : AddToRequest → Run (Outcome ℕ)
  added_call r = ok (
      send_async_request (channel_of s) env.now_ms service.on_add_element r timeout
        (some (λ a. value a.size)))

  added_entries :
      (es : List (Key × Value))
      → (r : AddToRequest) × (r.key_unordered ≡ key_messages es)
        × (r.value_unordered ≡ value_messages env client_id es)
        × (add_element_hash_map env service s key hint client_id timeout
              (some (map some (keys_of es)))
              (some (map some (values_of es)))
            ≡ added_call r)
  unfolding add_element_hash_map send
  added_entries es =
      let (k, made) = build_key_proto-ok env law key hint client_id default_compression_threshold in
      (
        record {
          key = k;
          type = some ContainerType.hash_map;
          pos = none;
          key_unordered = key_messages es;
          value_unordered = value_messages env client_id es;
          key_ordered = [];
          value_ordered = [];
        },
        refl,
        refl,
        rw (made, matching-entries es, hash_map_entries-messages env client_id es) refl,
      )

-- `addElementHashMap` of two vectors without null pointers: if they differ in length, it fails without
-- a call, and else they are the keys and the values of entries, for which it sends the node the same
-- messages as the creation of a map of these entries.
pub add_element_hash_map-cases :
    (env : Env)
    → IsLibdeflate env.deflate
    → (service : Service) (s : StandaloneClient) (key : Key) (hint : Option KeyHint)
      (client_id timeout : ℤ) (ks : List Key) (vs : List Value)
    → let result =
        add_element_hash_map env service s key hint client_id timeout
          (some (map some ks))
          (some (map some vs)) in
      ((length ks ≢ length vs) × (result ≡ ok (failed size_mismatch)))
      ⊎ ((es : List (Key × Value)) × (keys_of es ≡ ks)
          × (values_of es ≡ vs)
          × (r : AddToRequest) × (r.key_unordered ≡ key_messages es)
          × (r.value_unordered ≡ value_messages env client_id es)
          × (result
              ≡ ok (
                  send_async_request
                    (channel_of s)
                    env.now_ms
                    service.on_add_element
                    r
                    timeout
                    (some (λ a. value a.size)))))
unfolding add_element_hash_map send
add_element_hash_map-cases env law service s key hint client_id timeout ks vs =
    let (k, made) = build_key_proto-ok env law key hint client_id default_compression_threshold in
    elim (Bool-cases (length ks == length vs)) [
      | inr e ↦
          let differ : length ks ≢ length vs = λ same. ground arith in
          inl (differ, rw (made, matching-mismatch ks vs differ) refl)
      | inl e ↦
          let (es, keys, values) = entries_of ks vs (ground arith) in
          let (r, sent_keys, sent_values, sent) =
            added_entries env law service s key hint client_id timeout es in
          inr (es, keys, values, r, sent_keys, sent_values, rw keys at (rw values at sent))
    ]
