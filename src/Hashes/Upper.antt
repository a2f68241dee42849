-- ===== src/Hashes/Upper.antt =====
-- `mux64` of common/src/hashes.cxx, with 128 bits and without.
use hurricache_cpp_client.Prelude.{
  ◌⊎◌, inl, inr, dec_lt, ℕ, ◌+◌, ◌*◌, ◌/◌, ◌%◌, ◌^◌, ◌<◌, ◌≤◌, ◌≡◌, ap, sym, ◌∙◌, suc, ◌-◌, arith,
}
use hurricache_cpp_client.Hashes.{mux64, mux64_portable, middle}

-- The sum that `mm` keeps 64 bits of.
abbrev pub middle_sum : ℕ → ℕ → ℕ
middle_sum v p =
    v / 2 ^ 32 * (p % 2 ^ 32) + v % 2 ^ 32 * (p / 2 ^ 32) + v % 2 ^ 32 * (p % 2 ^ 32) / 2 ^ 32

mul-split : (a b c d m : ℕ) → (a * m + b) * (c * m + d) ≡ (a * c * m + a * d + b * c) * m + b * d
mul-split a b c d m = grind arith

halves : (v : ℕ) → v / 2 ^ 32 * 2 ^ 32 + v % 2 ^ 32 ≡ v
halves v = omega arith

product :
    (v p : ℕ)
    → v * p
      ≡ (v / 2 ^ 32 * (p / 2 ^ 32) * 2 ^ 32 + v / 2 ^ 32 * (p % 2 ^ 32) + v % 2 ^ 32 * (p / 2 ^ 32))
          * 2 ^ 32
        + v % 2 ^ 32 * (p % 2 ^ 32)
product v p =
    ap (λ x. x * p) (sym (halves v))
    ∙ ap (λ y. (v / 2 ^ 32 * 2 ^ 32 + v % 2 ^ 32) * y) (sym (halves p))
    ∙ mul-split (v / 2 ^ 32) (v % 2 ^ 32) (p / 2 ^ 32) (p % 2 ^ 32) (2 ^ 32)

upper_sum :
    (h m1 m2 l : ℕ)
    → ((h * 2 ^ 32 + m1 + m2) * 2 ^ 32 + l) / 2 ^ 64 ≡ h + (m1 + m2 + l / 2 ^ 32) / 2 ^ 32
upper_sum h m1 m2 l = omega arith

mul-lt : (a b m : ℕ) → a < suc m → b < suc m → a * b ≤ m * m
mul-lt a b m ha hb = grind arith

-- The two forms of `mux64` give the same upper half of the product of two 64-bit numbers if the sum
-- in its middle fits 64 bits, and else the form without 128 bits is 2^32 short, modulo 2^64.
pub mux64_portable-mux64 :
    (v p : ℕ)
    → v < 2 ^ 64
    → p < 2 ^ 64
    → ((middle_sum v p < 2 ^ 64) × ((mux64_portable v p).1 ≡ (mux64 v p).1))
      ⊎ ((2 ^ 64 ≤ middle_sum v p) × (((mux64_portable v p).1 + 2 ^ 32) % 2 ^ 64 ≡ (mux64 v p).1))
unfolding mux64 mux64_portable middle
mux64_portable-mux64 v p hv hp =
    let h = v / 2 ^ 32 * (p / 2 ^ 32) in
    let m1 = v / 2 ^ 32 * (p % 2 ^ 32) in
    let m2 = v % 2 ^ 32 * (p / 2 ^ 32) in
    let l = v % 2 ^ 32 * (p % 2 ^ 32) in
    let e = ap (λ x. x / 2 ^ 64) (product v p) ∙ upper_sum h m1 m2 l in
    let b1 = mul-lt (v / 2 ^ 32) (p % 2 ^ 32) (2 ^ 32 - 1) (omega arith) (omega arith) in
    let b2 = mul-lt (v % 2 ^ 32) (p / 2 ^ 32) (2 ^ 32 - 1) (omega arith) (omega arith) in
    let b3 = mul-lt (v % 2 ^ 32) (p % 2 ^ 32) (2 ^ 32 - 1) (omega arith) (omega arith) in
    elim (dec_lt (middle_sum v p) (2 ^ 64)) [
      | yes fits ↦ inl (fits, omega (arith, e, fits))
      | no over ↦ inr (omega (arith, over), omega (arith, e, over, b1, b2, b3))
    ]
