-- ===== src/Smart/Copies.antt =====
-- smart/src/smart_client.cpp, the deep copies of arguments, which outlive the call that gave them.
pub mod Equality
use hurricache_cpp_client.Prelude.{
  ℕ, ◌≡◌, refl, true, false, List, [], ◌∷◌, map, Option, none, some, arith, ◌==◌, if◌then◌else◌,
  ltb, take_all,
}
use hurricache_cpp_client.Types.{
  KeyHint, Key, Content, bytes, int, double, Value, OrderedValue, OrderedKey, read, new_key,
  empty_value, new_value, new_int_value, new_double_value,
}
use hurricache_cpp_client.Env.{Env}
use hurricache_cpp_client.Codec.{calculate_key_hint}
use hurricache_cpp_client.Codec.RoundTrip.{IsValue}

-- `copyKey`.
unfoldable pub copy_key : Key → Key
unfolding new_key
copy_key k = new_key k.size k.buffer

-- The body of `copyValue` and of `copyOrderedValue`, behind the test for null.
unfoldable pub copy_content : ℕ → Content → Value
unfolding new_value new_int_value new_double_value
copy_content size (int n) = new_int_value n
copy_content size (double d) = new_double_value d
copy_content size (bytes none) = empty_value
copy_content size (bytes (some b)) = if size == 0 then empty_value else new_value (some b) size

-- `copyValue`.
unfoldable pub copy_value : Option Value → Option Value
unfolding copy_content
copy_value none = none
copy_value (some v) = some (copy_content v.size v.content)

-- `copyOrderedValue`.
unfoldable pub copy_ordered_value : Option OrderedValue → Option OrderedValue
unfolding copy_content
copy_ordered_value none = none
copy_ordered_value (some v) =
    some (record { value = copy_content v.value.size v.value.content; weight = v.weight })

-- `copyValues` and `copyOrderedValues`: a null vector is copied to an empty one.
unfoldable pub copy_values : Option (List (Option Value)) → List (Option Value)
unfolding copy_value
copy_values none = []
copy_values (some items) = map copy_value items

unfoldable pub copy_ordered_values :
    Option (List (Option OrderedValue)) → List (Option OrderedValue)
unfolding copy_ordered_value
copy_ordered_values none = []
copy_ordered_values (some items) = map copy_ordered_value items

-- `copyMap`, with the entries in the order in which the map is walked.
unfoldable pub copy_map : Option (List (Key × Option Value)) → List (Key × Option Value)
unfolding copy_key copy_value
copy_map none = []
copy_map (some entries) = map (λ e. (copy_key e.0, copy_value e.1)) entries

-- An entry of `copyOrderedMap`: its key, its value, and its key again as an ordered value.
pub record OrderedEntry : Type 0 where
  pub key : OrderedKey
  pub value : Option OrderedValue
  pub key_as_value : OrderedValue

unfoldable pub copy_ordered_entry : OrderedKey × Option OrderedValue → OrderedEntry
unfolding new_key copy_ordered_value copy_content
copy_ordered_entry (k, v) = record {
  key = record { key = new_key k.key.size k.key.buffer; weight = k.weight };
  value = copy_ordered_value v;
  key_as_value = record { value = copy_content k.key.size (bytes k.key.buffer); weight = k.weight };
}

-- `copyOrderedMap`.
unfoldable pub copy_ordered_map :
    Option (List (OrderedKey × Option OrderedValue)) → List OrderedEntry
unfolding copy_ordered_entry
copy_ordered_map none = []
copy_ordered_map (some entries) = map copy_ordered_entry entries

-- `resolveHint`.
unfoldable pub resolve_hint : Env → Key → Option KeyHint → Option KeyHint
unfolding calculate_key_hint
resolve_hint env key none = calculate_key_hint env key
resolve_hint env key (some h) = some h

-- What a value holds: its bytes, or its number.
abbrev pub holds : Value → Content
holds v = elim v.content [
  | bytes b ↦ bytes (some (read b v.size))
  | int n ↦ int n
  | double d ↦ double d
]

copy_content-holds :
    (size : ℕ) (content : Content)
    → IsValue (record { size = size; content = content })
    → let c = copy_content size content in
      IsValue c × (c.size ≡ size) × (holds c ≡ holds (record { size = size; content = content }))
unfolding copy_content new_value new_int_value new_double_value
copy_content-holds size (int n) h = ground arith
copy_content-holds size (double d) h = ground arith
copy_content-holds size (bytes none) h = ground arith
copy_content-holds size (bytes (some [])) h = ground arith
copy_content-holds size (bytes (some (x ∷ b))) h =
    let present : (size == 0) ≡ false = ground arith in
    let positive : ltb 0 size ≡ true = ground arith in
    let whole = take_all size (x ∷ b) (omega arith) in
    rw present rw positive rw whole rw whole (h, refl, refl)

-- A copy of a value is a value, and holds the same in the same size.
copy_value-holds :
    (v : Value)
    → IsValue v
    → (c : Value) × (copy_value (some v) ≡ some c)
      × IsValue c
      × (c.size ≡ v.size)
      × (holds c ≡ holds v)
unfolding copy_value
copy_value-holds v h =
    let (valid, size, same) = copy_content-holds v.size v.content h in
    (copy_content v.size v.content, refl, valid, size, same)
