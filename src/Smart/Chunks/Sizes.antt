-- ===== src/Smart/Chunks/Sizes.antt =====
-- The estimates of smart/src/smart_client.cpp, for values that are there and keys that fit a message.
use hurricache_cpp_client.Prelude.{
  ℕ, ◌+◌, ◌%◌, ◌^◌, ◌<◌, refl, List, [], ◌∷◌, map, Option, none, some, arith, All, Run, ok, fault,
  Returns,
}
use hurricache_cpp_client.Prelude.Int.{ℤ, pos}
use hurricache_cpp_client.Types.{Key, Value, OrderedValue}
use hurricache_cpp_client.Env.{Env, IsLibdeflate, HasSmallMessages}
use hurricache_cpp_client.Codec.{build_value_proto}
use hurricache_cpp_client.Codec.KeyRoundTrip.{IsKey, key_request_to_key-build_key_proto}
use hurricache_cpp_client.Smart.Chunks.Partition.{Measured}
use hurricache_cpp_client.Smart.Chunks.{
  estimate_value_size, estimate_ordered_value_size, estimate_key_size, pair_size,
}

-- The size that an estimate gives, where it gives one.
abbrev pub weight_of : Run ℕ → ℕ
weight_of (ok n) = n
weight_of (fault e) = 0

pub Returns-Measured :
    {A : Type 0} (size : A → Run ℕ) (a : A)
    → Returns (size a) (λ n. n < 2 ^ 34)
    → Measured (λ b. weight_of (size b)) size a
Returns-Measured size a (n, e, small) = (rw e, rw e (omega arith))

-- A key that a message can hold: as its constructors leave it, in 32 bits also when compressed.
pub record IsSendable (env : Env) (key : Key) : Type 0 where
  pub valid : IsKey key
  pub small : key.size < 2 ^ 32
  pub room : env.deflate.compress_bound key.size < 2 ^ 32

module _ (env : Env) (messages : HasSmallMessages env) (client_id threshold : ℤ) where
  pub estimate_value_size-Returns :
      (v : Value) → Returns (estimate_value_size env client_id threshold (some v)) (λ n. n < 2 ^ 34)
  unfolding estimate_value_size
  estimate_value_size-Returns v = (_, refl, omega (arith, messages.value_small _))

  pub estimate_ordered_value_size-Returns :
      (v : OrderedValue)
      → Returns (estimate_ordered_value_size env client_id threshold (some v)) (λ n. n < 2 ^ 34)
  unfolding estimate_ordered_value_size
  estimate_ordered_value_size-Returns v = (_, refl, omega (arith, messages.ordered_value_small _))

  pub estimate_key_size-Returns :
      (key : Key)
      → IsLibdeflate env.deflate
      → IsSendable env key
      → Returns (estimate_key_size env client_id threshold key) (λ n. n < 2 ^ 31)
  unfolding estimate_key_size
  estimate_key_size-Returns key law can =
      let (m, built, _) =
        key_request_to_key-build_key_proto env law key none client_id threshold can.valid can.small
          can.room in
      (env.key_bytes m, rw built, messages.key_small m)

  pub pair_size-Returns :
      (key_size : Run ℕ) (v : Option Value)
      → Returns key_size (λ n. n < 2 ^ 31)
      → Returns (pair_size env client_id threshold key_size v) (λ n. n < 2 ^ 34)
  unfolding pair_size
  pair_size-Returns key_size none (k, e, small) = ((k + 32) % 2 ^ 64, rw e, omega arith)
  pair_size-Returns key_size (some v) (k, e, small) =
      let m = build_value_proto env v (pos 0) client_id threshold in
      ((k + 32 + env.value_bytes m) % 2 ^ 64, rw e, omega (arith, messages.value_small m))

  pub values-Measured :
      (items : List Value)
      → All
          (Measured
            (λ v. weight_of (estimate_value_size env client_id threshold v))
            (estimate_value_size env client_id threshold))
          (map some items)
  values-Measured [] = tt
  values-Measured (v ∷ items) = (
    Returns-Measured (estimate_value_size env client_id threshold) (some v)
        (estimate_value_size-Returns v),
    values-Measured items,
  )

  pub ordered_values-Measured :
      (items : List OrderedValue)
      → All
          (Measured
            (λ v. weight_of (estimate_ordered_value_size env client_id threshold v))
            (estimate_ordered_value_size env client_id threshold))
          (map some items)
  ordered_values-Measured [] = tt
  ordered_values-Measured (v ∷ items) = (
    Returns-Measured (estimate_ordered_value_size env client_id threshold) (some v)
        (estimate_ordered_value_size-Returns v),
    ordered_values-Measured items,
  )
