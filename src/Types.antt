-- ===== src/Types.antt =====
-- common/include/types.hxx and common/src/types.cxx: keys, values and hints.
-- A buffer is the list of its bytes; a null pointer is `none`. A number of the union is kept as
-- it is: an int64 as a signed number, a double as its bit pattern.
pub mod Order
use hurricache_cpp_client.Prelude.{
  ℕ, Bool, true, false, List, [], ◌∷◌, Option, none, some, ltb, ◌==◌, if◌then◌else◌, take, ◌&&◌,
  ◌||◌, ◌%◌, ◌^◌, ◌/◌, min,
}
use hurricache_cpp_client.Prelude.Int.{ℤ, eq_ℤ}

pub record KeyHint : Type 0 where
  pub weak_hash : ℕ
  pub strong_hash : ℕ

pub record Key : Type 0 where
  pub size : ℕ
  pub buffer : Option (List ℕ)

-- The union of `Value`, under the tag that `type` holds.
pub data Content : Type 0 where
  bytes : Option (List ℕ) → Content
  int : ℤ → Content
  double : ℕ → Content

pub record Value : Type 0 where
  pub size : ℕ
  pub content : Content

pub record OrderedValue : Type 0 where
  pub value : Value
  pub weight : ℕ

pub record OrderedKey : Type 0 where
  pub key : Key
  pub weight : ℕ

pub data ContainerType : Type 0 where
  undefined vector list queue set hash_map ordered_map ordered_set : ContainerType

-- The bytes that `(pointer, size)` stands for.
abbrev pub read : Option (List ℕ) → ℕ → List ℕ
read none n = []
read (some b) n = take n b

-- `Key::Key(src_size, src_data)`, and the same in the other order.
unfoldable pub new_key : ℕ → Option (List ℕ) → Key
new_key size none = record { size = 0; buffer = none }
new_key size (some src) =
    if ltb 0 size
    then record { size = size; buffer = some (take size src) }
    else record { size = 0; buffer = none }

-- `Value::Value()`.
abbrev pub empty_value : Value
empty_value = record { size = 0; content = bytes none }

-- `Value::Value(src_data, src_size)`.
unfoldable pub new_value : Option (List ℕ) → ℕ → Value
new_value none size = empty_value
new_value (some src) size =
    if ltb 0 size
    then record { size = size; content = bytes (some (take size src)) }
    else empty_value

-- `Value::Value(src_int)` and `Value::Value(src_double)`.
unfoldable pub new_int_value : ℤ → Value
new_int_value n = record { size = 8; content = int n }

unfoldable pub new_double_value : ℕ → Value
new_double_value d = record { size = 8; content = double d }

-- `memcmp` of two runs of bytes of one length: less, equal or greater.
pub data Sign : Type 0 where
  less same more : Sign

unfoldable pub memcmp : List ℕ → List ℕ → Sign
memcmp [] ys = same
memcmp (x ∷ xs) [] = same
memcmp (x ∷ xs) (y ∷ ys) =
    let rest = memcmp xs ys in if ltb x y then less else if ltb y x then more else rest

abbrev pub is_same : Sign → Bool
is_same same = true
is_same _ = false

-- `Key::operator<`.
unfoldable pub key_lt : Key → Key → Bool
unfolding memcmp
key_lt a b =
    let n = min a.size b.size in
    elim (memcmp (read a.buffer n) (read b.buffer n)) [
      | less ↦ true
      | more ↦ false
      | same ↦ ltb a.size b.size
    ]

-- `operator==` of keys.
unfoldable pub key_eq : Key → Key → Bool
unfolding memcmp
key_eq a b = a.size == b.size && is_same (memcmp (read a.buffer a.size) (read b.buffer a.size))

-- `==` of doubles, which is false for a NaN, and true for the two zeros.
abbrev pub is_nan : ℕ → Bool
is_nan d = (d / 2 ^ 52) % 2 ^ 11 == 2047 && ltb 0 (d % 2 ^ 52)

abbrev pub is_zero : ℕ → Bool
is_zero d = d % 2 ^ 63 == 0

unfoldable pub double_eq : ℕ → ℕ → Bool
double_eq a b =
    if is_nan a || is_nan b then false else if is_zero a && is_zero b then true else a == b

-- The comparison of the unions, at one size.
unfoldable pub content_eq : ℕ → Content → Content → Bool
unfolding memcmp double_eq
content_eq size (int m) (int n) = eq_ℤ m n
content_eq size (double d) (double e) = double_eq d e
content_eq size (bytes a) (bytes b) =
    if size == 0 then true else is_same (memcmp (read a size) (read b size))
content_eq size _ _ = false

-- `operator==` of values.
unfoldable pub value_eq : Value → Value → Bool
unfolding content_eq
value_eq a b = a.size == b.size && content_eq a.size a.content b.content

-- `Ordered<Key>::operator<`.
unfoldable pub ordered_key_lt : OrderedKey → OrderedKey → Bool
unfolding key_lt
ordered_key_lt a b = if a.weight == b.weight then key_lt a.key b.key else ltb a.weight b.weight
