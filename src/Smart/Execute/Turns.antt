-- ===== src/Smart/Execute/Turns.antt =====
-- `execute` of smart/src/smart_client.cpp: the shard of a call, over several calls.
use native.Mathlib.Nat.{add-mod, mod-lt, mod-eq_of_lt, mod-eq-sub-mod}
use hurricache_cpp_client.Prelude.{
  ℕ, suc, zero, ◌+◌, ◌-◌, ◌%◌, ◌^◌, ◌≤◌, ◌<◌, ◌≡◌, ◌≢◌, refl, ap, ◌∙◌, inl, inr, false, Bool-cases,
  Option, none, some, arith, ◌==◌, leb, if◌then◌else◌, Run, ok, ◌>>=◌,
}
use hurricache_cpp_client.Types.{KeyHint}
use hurricache_cpp_client.Smart.Execute.{SmartClient, pick_shard}
use hurricache_cpp_client.Smart.Execute.Calls.{pick_shard-hint}

-- The choice behind `i` others, each of a call without a hint.
unfoldable pub pick_behind : ℕ → SmartClient → Option KeyHint → Run (ℕ × SmartClient)
unfolding pick_shard
pick_behind zero s hint = pick_shard s hint
pick_behind (suc i) s hint = do (shard, u) ← pick_shard s none; pick_behind i u hint

-- The client after `i` of these calls.
abbrev pub counted : SmartClient → ℕ → SmartClient
counted s i = record s { random_counter = s.random_counter + i }

pick_shard-next :
    (s : SmartClient)
    → s.table.max_shards ≢ 0
    → s.random_counter + 1 ≤ 2 ^ 31
    → pick_shard s none ≡ ok (s.random_counter % s.table.max_shards, counted s 1)
unfolding pick_shard
pick_shard-next s shards room =
    let e : (s.table.max_shards == 0) ≡ false = ground arith in
    let low : s.random_counter % 2 ^ 31 ≡ s.random_counter = omega arith in
    let next : suc s.random_counter % 2 ^ 32 ≡ s.random_counter + 1 = omega arith in
    rw e rw low rw next refl

pick_behind-counted :
    (i : ℕ) (s : SmartClient) (hint : Option KeyHint)
    → s.table.max_shards ≢ 0
    → s.random_counter + i ≤ 2 ^ 31
    → pick_behind i s hint ≡ pick_shard (counted s i) hint
unfolding pick_behind
pick_behind-counted zero s hint shards room =
    ap (λ c. pick_shard (record s { random_counter = c }) hint) (omega arith)
pick_behind-counted (suc i) s hint shards room =
    ap (λ r. r >>= λ p. pick_behind i p.1 hint) (pick_shard-next s shards (omega arith))
    ∙ pick_behind-counted i (counted s 1) hint shards (omega arith)
    ∙ ap (λ c. pick_shard (record s { random_counter = c }) hint) (omega arith)

-- The number of calls until a shard has its turn.
abbrev turns_until : ℕ → ℕ → ℕ → ℕ
turns_until n start shard = if leb start shard then shard - start else shard + n - start

mod-turns_until :
    (n start shard : ℕ)
    → start < n
    → shard < n
    → (turns_until n start shard < n) × ((start + turns_until n start shard) % n ≡ shard)
mod-turns_until n start shard low high = elim (Bool-cases (leb start shard)) [
  | inl e ↦
      let before : start ≤ shard = ground arith in
      let there : start + (shard - start) ≡ shard = omega arith in
      rw e (omega arith, rw there (mod-eq_of_lt high))
  | inr e ↦
      let behind : shard < start = ground arith in
      let there : start + (shard + n - start) ≡ shard + n = omega arith in
      let back : shard + n - n ≡ shard = omega arith in
      rw e (omega arith, rw there (mod-eq-sub-mod (omega arith) ∙ rw back (mod-eq_of_lt high)))
]

pub pick_shard-turns :
    (s : SmartClient) (shard : ℕ) (h : KeyHint)
    → let n = s.table.max_shards in
      shard < n
      → s.random_counter + n ≤ 2 ^ 31
      → (i : ℕ) × (i < n)
        × (pick_behind i s none ≡ ok (shard, counted s (i + 1)))
        × (pick_behind i s (some h) ≡ ok (h.weak_hash % n, counted s i))
pick_shard-turns s shard h has room =
    let n = s.table.max_shards in
    let c = s.random_counter in
    let shards : n ≢ 0 = λ e. absurd (omega arith) in
    let (low, there) = mod-turns_until n (c % n) shard (mod-lt c (omega arith)) has in
    let i = turns_until n (c % n) shard in
    let within : c + i + 1 ≤ 2 ^ 31 = omega arith in
    let turn : (c + i) % n ≡ shard =
      add-mod c i n ∙ ap (λ k. (c % n + k) % n) (mod-eq_of_lt low) ∙ there in
    let after : c + i + 1 ≡ c + (i + 1) = omega arith in
    (
      i,
      low,
      pick_behind-counted i s none shards (omega arith)
          ∙ pick_shard-next (counted s i) shards within
          ∙ ap (λ k. ok (k, record s { random_counter = c + i + 1 })) turn
          ∙ ap (λ k. ok (shard, record s { random_counter = k })) after,
      pick_behind-counted i s (some h) shards (omega arith)
          ∙ pick_shard-hint (counted s i) h (ground arith),
    )
