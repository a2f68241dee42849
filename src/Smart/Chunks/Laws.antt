-- ===== src/Smart/Chunks/Laws.antt =====
-- The splitters of smart/src/smart_client.cpp, with their own estimates.
use hurricache_cpp_client.Prelude.{
  ℕ, ◌^◌, ◌<◌, ◌≡◌, List, [], ◌∷◌, map, flatten, Option, some, All, Run, ok, Returns,
}
use hurricache_cpp_client.Prelude.Int.{ℤ}
use hurricache_cpp_client.Types.{Key, Value, OrderedValue}
use hurricache_cpp_client.Env.{Env, IsLibdeflate, HasSmallMessages}
use hurricache_cpp_client.Smart.Chunks.Partition.{Measured, WithinLimit, partition_chunks-Good}
use hurricache_cpp_client.Smart.Chunks.Split.{IsLongest, first_chunk_split-IsLongest}
use hurricache_cpp_client.Smart.Chunks.Maps.{chunk_of, partition_chunks-chunk_of}
use hurricache_cpp_client.Smart.Chunks.Sizes.{
  weight_of, IsSendable, Returns-Measured, values-Measured, ordered_values-Measured,
  estimate_key_size-Returns, pair_size-Returns,
}
use hurricache_cpp_client.Smart.Chunks.{
  estimate_value_size, estimate_ordered_value_size, estimate_key_size, pair_size,
  partition_value_chunks, partition_ordered_value_chunks, partition_map_chunks, first_chunk_split,
}

-- The size of an entry in the loop of `partitionMapChunks`.
abbrev pub map_pair_size : Env → ℤ → ℤ → Key × Option Value → Run ℕ
map_pair_size env client_id threshold e =
    pair_size env client_id threshold (estimate_key_size env client_id threshold e.0) e.1

module _ (env : Env) (messages : HasSmallMessages env) (client_id threshold : ℤ)
    (base_size max_rpc_size : ℕ) (low_base : base_size < 2 ^ 62)
    (low_limit : max_rpc_size < 2 ^ 62) where
  -- Values that are there are cut into chunks that hold them all in their order, none empty and
  -- each within the size of a call unless it is a single value.
  pub partition_value_chunks-WithinLimit :
      (items : List Value)
      → Returns
          (partition_value_chunks env (map some items) base_size client_id threshold max_rpc_size)
          λ cs.
            (flatten cs ≡ map some items)
            × All
                (WithinLimit
                  (λ v. weight_of (estimate_value_size env client_id threshold v))
                  base_size
                  max_rpc_size)
                cs
  unfolding partition_value_chunks
  partition_value_chunks-WithinLimit items =
      partition_chunks-Good _ base_size max_rpc_size low_base low_limit _ (map some items)
        (values-Measured env messages client_id threshold items)

  -- Ordered values that are there are cut into chunks that hold them all in their order, none empty
  -- and each within the size of a call unless it is a single value.
  partition_ordered_value_chunks-WithinLimit :
      (items : List OrderedValue)
      → Returns
          (partition_ordered_value_chunks env
            (map some items)
            base_size
            client_id
            threshold
            max_rpc_size)
          λ cs.
            (flatten cs ≡ map some items)
            × All
                (WithinLimit
                  (λ v. weight_of (estimate_ordered_value_size env client_id threshold v))
                  base_size
                  max_rpc_size)
                cs
  unfolding partition_ordered_value_chunks
  partition_ordered_value_chunks-WithinLimit items =
      partition_chunks-Good _ base_size max_rpc_size low_base low_limit _ (map some items)
        (ordered_values-Measured env messages client_id threshold items)

  -- The first call of a container takes the longest prefix of its values that fits.
  pub first_chunk_split-values :
      (items : List Value)
      → Returns
          (first_chunk_split
            (estimate_value_size env client_id threshold)
            (map some items)
            base_size
            max_rpc_size)
          (IsLongest
            (λ v. weight_of (estimate_value_size env client_id threshold v))
            max_rpc_size
            base_size
            (map some items))
  first_chunk_split-values items =
      first_chunk_split-IsLongest _ max_rpc_size low_limit _ (map some items) base_size low_base
        (values-Measured env messages client_id threshold items)

  pairs-Measured :
      IsLibdeflate env.deflate
      → (entries : List (Key × Option Value)) → All (λ e. IsSendable env e.0) entries
      → All
          (Measured
            (λ e. weight_of (map_pair_size env client_id threshold e))
            (map_pair_size env client_id threshold))
          entries
  pairs-Measured law [] can = tt
  pairs-Measured law (e ∷ entries) (can, rest) = (
    Returns-Measured (map_pair_size env client_id threshold) e (
        pair_size-Returns env messages client_id threshold _ e.1
          (estimate_key_size-Returns env messages client_id threshold e.0 law can)),
    pairs-Measured law entries rest,
  )

  -- The entries of a map, with keys that a message can hold, are cut into the chunks of runs that
  -- make up the entries in their order: a run is not empty, and within the size of a call unless
  -- it is a single entry. A chunk has every key of its run, and the values that are there.
  pub partition_map_chunks-chunk_of :
      IsLibdeflate env.deflate
      → (entries : List (Key × Option Value)) → All (λ e. IsSendable env e.0) entries
      → (runs : List (List (Key × Option Value))) × (partition_map_chunks env entries base_size
            client_id threshold max_rpc_size
          ≡ ok (map chunk_of runs))
        × (flatten runs ≡ entries)
        × All
            (WithinLimit
              (λ e. weight_of (map_pair_size env client_id threshold e))
              base_size
              max_rpc_size)
            runs
  unfolding partition_map_chunks
  partition_map_chunks-chunk_of law entries can =
      partition_chunks-chunk_of _ base_size max_rpc_size low_base low_limit _ entries
        (pairs-Measured law entries can)
