-- ===== src/Hashes/Bits.antt =====
-- common/src/hashes.cxx: the widths of what the hashes give.
use Prim.Native.Nat.{bit_xor, bit_xor-bitwise, digits, differ}
use hurricache_cpp_client.Prelude.{
  ℕ, suc, zero, ◌*◌, ◌/◌, ◌%◌, ◌^◌, ◌<◌, ◌≤◌, ◌≡◌, List, Option, none, some, arith,
}
use hurricache_cpp_client.Hashes.{CrcUnit, mix, strong_hash, week_hash, week_end}

differ-le_one : (x y : ℕ) → x < 2 → y < 2 → differ x y ≤ 1
differ-le_one zero y h k = omega arith
differ-le_one (suc x) zero h k = omega arith
differ-le_one (suc x) (suc y) h k = differ-le_one x y (omega arith) (omega arith)

pow-suc : (k : ℕ) → 2 ^ suc k ≡ 2 * 2 ^ k
pow-suc k = omega arith

digits-lt : (n a b k : ℕ) → a < 2 ^ k → b < 2 ^ k → digits (λ b. b) differ n a b < 2 ^ k
digits-lt zero a b k ha hb = hb
digits-lt (suc n) zero b k ha hb = hb
digits-lt (suc n) (suc a) b zero ha hb = absurd (omega arith)
digits-lt (suc n) (suc a) b (suc k) ha hb = omega (
  arith,
  pow-suc k,
  differ-le_one (suc a % 2) (b % 2) (omega arith) (omega arith),
  digits-lt n (suc a / 2) (b / 2) k (omega (arith, pow-suc k)) (omega (arith, pow-suc k)),
)

bit_xor-lt : (a b k : ℕ) → a < 2 ^ k → b < 2 ^ k → bit_xor a b < 2 ^ k
bit_xor-lt a b k ha hb = omega (arith, bit_xor-bitwise a b, digits-lt a a b k ha hb)

-- The last step of the mixing keeps 32 bits.
mix-lt : (crc size : ℕ) → mix crc size < 2 ^ 32
unfolding mix
mix-lt crc size = bit_xor-lt _ _ 32 (omega arith) (omega arith)

-- Both hashes of any bytes fit the 32 bits of the fields that they are sent in, on any processor
-- and from any seed; both are 0 where there are no bytes at all.
pub hashes-lt :
    (u : CrcUnit) (bytes : Option (List ℕ)) (seed : ℕ)
    → (strong_hash u bytes < 2 ^ 32) × (week_hash bytes seed < 2 ^ 32)
unfolding strong_hash week_hash week_end
hashes-lt u none seed = (omega arith, omega arith)
hashes-lt u (some bytes) seed = (mix-lt _ _, omega arith)
