-- ===== src/Smart/Copies/Equality.antt =====
-- smart/src/smart_client.cpp and common/include/types.hxx: a copy against `operator==` of values.
use hurricache_cpp_client.Prelude.{
  ℕ, ◌≡◌, refl, inl, inr, Bool, true, false, Bool-cases, not, List, [], ◌∷◌, none, some, arith,
  ◌==◌, ltb, take_all,
}
use hurricache_cpp_client.Prelude.Int.{ℤ, pos, negsuc, eq_ℤ}
use hurricache_cpp_client.Types.{
  Content, bytes, int, double, Value, new_value, new_int_value, new_double_value, memcmp, is_same,
  is_nan, is_zero, double_eq, content_eq, value_eq,
}
use hurricache_cpp_client.Codec.RoundTrip.{IsValue}
use hurricache_cpp_client.Smart.Copies.{copy_content, copy_value, copy_content-holds}

memcmp-same : (xs : List ℕ) → is_same (memcmp xs xs) ≡ true
unfolding memcmp
memcmp-same [] = refl
memcmp-same (x ∷ xs) = let here : ltb x x ≡ false = ground arith in rw here (memcmp-same xs)

eq_ℤ-same : (n : ℤ) → eq_ℤ n n ≡ true
eq_ℤ-same (pos n) = ground arith
eq_ℤ-same (negsuc n) = ground arith

double_eq-same : (d : ℕ) → double_eq d d ≡ not (is_nan d)
unfolding double_eq
double_eq-same d =
    let same : (d == d) ≡ true = ground arith in
    elim (Bool-cases (is_nan d)) [
      | inl e ↦ rw e refl
      | inr e ↦ elim (Bool-cases (is_zero d)) [ inl f ↦ rw e rw f refl | inr f ↦ rw e rw f same ]
    ]

-- A double that is not a number.
abbrev pub is_nan_content : Content → Bool
is_nan_content (double d) = is_nan d
is_nan_content _ = false

copy_content-eq :
    (size : ℕ) (content : Content)
    → let v : Value = record { size = size; content = content } in
      IsValue v → value_eq v (copy_content size content) ≡ not (is_nan_content content)
unfolding copy_content new_value new_int_value new_double_value value_eq content_eq
copy_content-eq size (int n) h = rw h (eq_ℤ-same n)
copy_content-eq size (double d) h = rw h (double_eq-same d)
copy_content-eq size (bytes none) h = rw h refl
copy_content-eq size (bytes (some [])) h = ground arith
copy_content-eq size (bytes (some (x ∷ b))) h =
    let present : (size == 0) ≡ false = ground arith in
    let positive : ltb 0 size ≡ true = ground arith in
    let equal : (size == size) ≡ true = ground arith in
    let whole = take_all size (x ∷ b) (omega arith) in
    rw present rw positive rw equal rw present rw whole rw whole (memcmp-same (x ∷ b))

-- A copy of a value is a value that `operator==` takes for the same, but for a double that is not
-- a number, which equals nothing.
pub value_eq-copy_value :
    (v : Value)
    → IsValue v
    → (c : Value) × (copy_value (some v) ≡ some c)
      × IsValue c
      × (value_eq v c ≡ not (is_nan_content v.content))
unfolding copy_value
value_eq-copy_value v h = (
  copy_content v.size v.content,
  refl,
  (copy_content-holds v.size v.content h).0,
  copy_content-eq v.size v.content h,
)
