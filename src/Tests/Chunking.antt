-- ===== src/Tests/Chunking.antt =====
-- The splitters of smart/src/smart_client.cpp at concrete values: each value fills a call.
use hurricache_cpp_client.Prelude.{
  ◌≡◌, refl, List, [], ◌∷◌, map, flatten, Option, none, some, arith, All, ok, Returns,
}
use hurricache_cpp_client.Prelude.Int.{pos}
use hurricache_cpp_client.Types.{Key, Value, OrderedValue}
use hurricache_cpp_client.Smart.Chunks.{
  estimate_value_size, partition_value_chunks, partition_map_chunks, first_chunk_split,
}
use hurricache_cpp_client.Smart.Chunks.Partition.{WithinLimit}
use hurricache_cpp_client.Smart.Chunks.Split.{IsLongest}
use hurricache_cpp_client.Smart.Chunks.Maps.{chunk_of}
use hurricache_cpp_client.Smart.Chunks.Sizes.{weight_of, IsSendable}
use hurricache_cpp_client.Smart.Chunks.Laws.{
  map_pair_size, partition_value_chunks-WithinLimit, first_chunk_split-values,
  partition_map_chunks-chunk_of,
}
use hurricache_cpp_client.Tests.{
  packer-IsLibdeflate, test_env, test_env-HasSmallMessages, word, number, fraction, test_key,
}

abbrev values : List Value
values = word ∷ number ∷ fraction ∷ []

abbrev ordered_values : List OrderedValue
ordered_values = record { value = word; weight = 3 } ∷ record { value = number; weight = 1 } ∷ []

abbrev entries : List (Key × Option Value)
entries = (test_key, some word) ∷ (record { size = 0; buffer = none }, none) ∷ []

partition_value_chunks-WithinLimit_example :
    Returns (partition_value_chunks test_env (map some values) 32 (pos 3) (pos 1024) 3000000) λ cs.
      (flatten cs ≡ map some values)
      × All
          (WithinLimit
            (λ v. weight_of (estimate_value_size test_env (pos 3) (pos 1024) v))
            32
            3000000)
          cs
partition_value_chunks-WithinLimit_example =
    partition_value_chunks-WithinLimit test_env test_env-HasSmallMessages (pos 3) (pos 1024) 32
      3000000 (omega arith) (omega arith) values

first_chunk_split-values_example :
    Returns
      (first_chunk_split
        (estimate_value_size test_env (pos 3) (pos 1024))
        (map some values)
        128
        5000000)
      (IsLongest
        (λ v. weight_of (estimate_value_size test_env (pos 3) (pos 1024) v))
        5000000
        128
        (map some values))
first_chunk_split-values_example =
    first_chunk_split-values test_env test_env-HasSmallMessages (pos 3) (pos 1024) 128 5000000
      (omega arith) (omega arith) values

entries-IsSendable : All (λ (e : Key × Option Value). IsSendable test_env e.0) entries
entries-IsSendable = (
  record { valid = (omega arith, refl); small = omega arith; room = omega arith },
  (record { valid = refl; small = omega arith; room = omega arith }, tt),
)

partition_map_chunks-chunk_of_example :
    (runs : List (List (Key × Option Value))) × (partition_map_chunks test_env entries 32
        (pos 3)
        (pos 1)
        3000000
      ≡ ok (map chunk_of runs))
    × (flatten runs ≡ entries)
    × All (WithinLimit (λ e. weight_of (map_pair_size test_env (pos 3) (pos 1) e)) 32 3000000) runs
partition_map_chunks-chunk_of_example =
    partition_map_chunks-chunk_of test_env test_env-HasSmallMessages (pos 3) (pos 1) 32 3000000
      (omega arith) (omega arith) packer-IsLibdeflate entries entries-IsSendable
