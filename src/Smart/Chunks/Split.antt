-- ===== src/Smart/Chunks/Split.antt =====
-- `firstChunkSplit` of smart/src/smart_client.cpp, for any items that have a size.
use hurricache_cpp_client.Prelude.{
  ℕ, zero, suc, ◌+◌, ◌%◌, ◌^◌, ◌≤◌, ◌<◌, ◌≡◌, refl, ap, ◌∙◌, ◌⊎◌, inl, inr, List, [], ◌∷◌, arith,
  leb, Bool-cases, length, take, All, Run, ok, Returns,
}
use hurricache_cpp_client.Smart.Chunks.Partition.{total, Measured}
use hurricache_cpp_client.Smart.Chunks.{split_loop, first_chunk_split}

-- The first `n` items are within the limit behind `used` bytes, and one item more is not.
abbrev pub IsLongest : {A : Type 0} → (A → ℕ) → ℕ → ℕ → List A → ℕ → Type 0
IsLongest weight limit used items n =
    (n ≤ length items)
    × ((n ≡ 0) ⊎ (used + total weight (take n items) ≤ limit))
    × ((n ≡ length items) ⊎ (limit < used + total weight (take (suc n) items)))

module _ {A : Type 0} (weight : A → ℕ) (limit : ℕ) (low_limit : limit < 2 ^ 62) where
  longer :
      (used : ℕ) (a : A) (items : List A) (n : ℕ)
      → used + weight a ≤ limit
      → IsLongest weight limit (used + weight a) items n
      → IsLongest weight limit used (a ∷ items) (suc n)
  longer used a items zero room (few, fits, most) = (omega arith, inr (omega arith), ground arith)
  longer used a items (suc n) room (few, fits, most) =
      (omega arith, inr (omega arith), ground arith)

  split_loop-IsLongest :
      (size : A → Run ℕ) (items : List A) (used i : ℕ)
      → used < 2 ^ 62
      → All (Measured weight size) items
      → (n : ℕ) × (split_loop size limit items used i ≡ ok (i + n))
        × IsLongest weight limit used items n
  unfolding split_loop
  split_loop-IsLongest size [] used i low h =
      (0, ap ok (omega arith), (omega arith, inl refl, inl refl))
  split_loop-IsLongest size (a ∷ items) used i low ((measured, light), h) =
      let fits : (used + weight a) % 2 ^ 64 ≡ used + weight a = omega arith in
      elim (Bool-cases (leb (used + weight a) limit)) [
        | inr e ↦ (
          0,
          rw (measured, fits, e) (ap ok (omega arith)),
          (omega arith, inl refl, inr (ground arith)),
        )
        | inl e ↦
            let (n, run, longest) =
              split_loop-IsLongest size items (used + weight a) (i + 1) (ground arith) h in
            (
              suc n,
              rw (measured, fits, e) (run ∙ ap ok (omega arith)),
              longer used a items n (ground arith) longest,
            )
      ]

  -- The first call takes the longest prefix of the items that is within the limit, and the split
  -- point is always found.
  pub first_chunk_split-IsLongest :
      (size : A → Run ℕ) (items : List A) (base_size : ℕ)
      → base_size < 2 ^ 62
      → All (Measured weight size) items
      → Returns
          (first_chunk_split size items base_size limit)
          (IsLongest weight limit base_size items)
  unfolding first_chunk_split
  first_chunk_split-IsLongest size items base_size low h =
      let (n, run, longest) = split_loop-IsLongest size items base_size 0 low h in
      (n, run ∙ ap ok (omega arith), longest)
