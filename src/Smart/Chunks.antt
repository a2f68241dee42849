-- ===== src/Smart/Chunks.antt =====
-- smart/src/smart_client.cpp: the size estimates and the splitters that cut a large container into
-- chunks of the size of one call. `size_t` sums wrap at 2 ^ 64.
pub mod Partition
pub mod Split
pub mod Maps
pub mod Sizes
pub mod Laws
use hurricache_cpp_client.Prelude.{
  ℕ, zero, suc, ◌+◌, ◌%◌, ◌^◌, Bool, true, false, not, ◌&&◌, List, [], ◌∷◌, ◌++◌, Option, none,
  some, ltb, leb, if◌then◌else◌, Run, ok, fault, null_value, ◌>>=◌, is_empty,
}
use hurricache_cpp_client.Prelude.Int.{ℤ, pos, to_u32}
use hurricache_cpp_client.Types.{Key, Value, OrderedValue, OrderedKey, read}
use hurricache_cpp_client.Proto.{OrderedValueMessage}
use hurricache_cpp_client.Env.{Env}
use hurricache_cpp_client.Codec.{build_key_proto, build_value_proto}

-- `estimateValueSize`. The pointer is read unchecked.
unfoldable pub estimate_value_size : Env → ℤ → ℤ → Option Value → Run ℕ
estimate_value_size env client_id threshold none = fault null_value
estimate_value_size env client_id threshold (some v) =
    ok (env.value_bytes (build_value_proto env v (pos 0) client_id threshold))

-- The message that `estimateOrderedValueSize` measures.
unfoldable pub ordered_value_message : Env → ℤ → ℤ → OrderedValue → OrderedValueMessage
ordered_value_message env client_id threshold v =
    let pv = build_value_proto env v.value (pos 0) client_id threshold in
    record {
      value = pv.value;
      order = some v.weight;
      compression_info = pv.compression_info;
      ttl = none;
      lock_info = none;
      value_type = pv.value_type;
    }

-- `estimateOrderedValueSize`.
unfoldable pub estimate_ordered_value_size : Env → ℤ → ℤ → Option OrderedValue → Run ℕ
unfolding ordered_value_message
estimate_ordered_value_size env client_id threshold none = fault null_value
estimate_ordered_value_size env client_id threshold (some v) =
    ok (env.ordered_value_bytes (ordered_value_message env client_id threshold v))

-- `estimateKeySize`.
unfoldable pub estimate_key_size : Env → ℤ → ℤ → Key → Run ℕ
estimate_key_size env client_id threshold k = do
  m ← build_key_proto env k none client_id threshold
  ok (env.key_bytes m)

-- `estimateOrderedKeySize`.
unfoldable pub estimate_ordered_key_size : Env → ℤ → OrderedKey → ℕ
estimate_ordered_key_size env client_id k = env.ordered_key_bytes (record {
  payload = some (record { payload = read k.key.buffer k.key.size; size = k.key.size });
  order = some k.weight;
  compression_info = none;
  key_hint = none;
  client_id = some (to_u32 client_id);
})

-- What the four splitters differ in: the chunk, and how an item is put behind its others.
pub record ChunkKind (A C : Type 0) : Type 0 where
  pub fresh : C
  pub is_empty : C → Bool
  pub push : C → A → C

-- The local variables of a splitter.
pub record Splitter (C : Type 0) : Type 0 where
  pub chunks : List C
  pub current_size : ℕ
  pub current : C

-- The test at the head of the loop: a full chunk is put away.
unfoldable pub flush : {A C : Type 0} → ChunkKind A C → ℕ → ℕ → Splitter C → ℕ → Splitter C
flush kind base_size limit s elem =
    if not (kind.is_empty s.current) && ltb limit ((s.current_size + elem) % 2 ^ 64)
    then record {
      chunks = s.chunks ++ s.current ∷ [];
      current_size = base_size;
      current = kind.fresh;
    }
    else s

unfoldable pub accept : {A C : Type 0} → ChunkKind A C → Splitter C → A → ℕ → Splitter C
accept kind s a elem = record s {
  current = kind.push s.current a;
  current_size = (s.current_size + elem) % 2 ^ 64;
}

module _ {A C : Type 0} (kind : ChunkKind A C) (size : A → Run ℕ) (base_size limit : ℕ) where
  -- The loop over the items.
  unfoldable pub partition_loop : List A → Splitter C → Run (Splitter C)
  unfolding flush accept
  partition_loop [] s = ok s
  partition_loop (a ∷ items) s = do
    elem ← size a
    partition_loop items (accept kind (flush kind base_size limit s elem) a elem)

  unfoldable pub partition_chunks : List A → Run (List C)
  unfolding partition_loop
  partition_chunks items = do
    s ←
        partition_loop items
          (record { chunks = []; current_size = base_size; current = kind.fresh })
    ok (if kind.is_empty s.current then s.chunks else s.chunks ++ s.current ∷ [])

-- A vector of items.
abbrev pub vector_kind : {A : Type 0} → ChunkKind A (List A)
vector_kind = record { fresh = []; is_empty = is_empty; push = λ c a. c ++ a ∷ [] }

-- `partitionValueChunks`.
unfoldable pub partition_value_chunks :
    Env → List (Option Value) → ℕ → ℤ → ℤ → ℕ → Run (List (List (Option Value)))
unfolding partition_chunks estimate_value_size
partition_value_chunks env items base_size client_id threshold max_rpc_size =
    partition_chunks vector_kind (estimate_value_size env client_id threshold) base_size
      max_rpc_size items

-- `partitionOrderedValueChunks`.
unfoldable pub partition_ordered_value_chunks :
    Env → List (Option OrderedValue) → ℕ → ℤ → ℤ → ℕ → Run (List (List (Option OrderedValue)))
unfolding partition_chunks estimate_ordered_value_size
partition_ordered_value_chunks env items base_size client_id threshold max_rpc_size =
    partition_chunks vector_kind (estimate_ordered_value_size env client_id threshold) base_size
      max_rpc_size items

-- `MapChunk` and `OrderedMapChunk`: a null value is left out, its key is not.
pub record MapChunk (K : Type 0) : Type 0 where
  pub keys : List K
  pub values : List Value

abbrev pub optional_value : Option Value → List Value
optional_value none = []
optional_value (some v) = v ∷ []

abbrev pub map_kind : {K : Type 0} → ChunkKind (K × Option Value) (MapChunk K)
map_kind = record {
  fresh = record { keys = []; values = [] };
  is_empty = λ c. is_empty c.keys;
  push = λ c e. record { keys = c.keys ++ e.0 ∷ []; values = c.values ++ optional_value e.1 };
}

-- `pair_size`: the key with 32 bytes, and the value if there is one.
unfoldable pub pair_size : Env → ℤ → ℤ → Run ℕ → Option Value → Run ℕ
unfolding estimate_value_size
pair_size env client_id threshold key_size none = do k ← key_size; ok ((k + 32) % 2 ^ 64)
pair_size env client_id threshold key_size (some v) = do
  k ← key_size
  n ← estimate_value_size env client_id threshold (some v)
  ok ((k + 32 + n) % 2 ^ 64)

-- `partitionMapChunks`.
unfoldable pub partition_map_chunks :
    Env → List (Key × Option Value) → ℕ → ℤ → ℤ → ℕ → Run (List (MapChunk Key))
unfolding partition_chunks pair_size estimate_key_size
partition_map_chunks env entries base_size client_id threshold max_rpc_size =
    partition_chunks map_kind
      (λ e. pair_size env client_id threshold (estimate_key_size env client_id threshold e.0) e.1)
      base_size max_rpc_size entries

-- `partitionOrderedMapChunks`: the keys are ordered values.
unfoldable pub partition_ordered_map_chunks :
    Env
    → List (Option OrderedValue × Option Value)
    → ℕ
    → ℤ
    → ℤ
    → ℕ
    → Run (List (MapChunk (Option OrderedValue)))
unfolding partition_chunks pair_size estimate_ordered_value_size
partition_ordered_map_chunks env entries base_size client_id threshold max_rpc_size =
    partition_chunks map_kind
      (λ e.
        pair_size env client_id threshold (estimate_ordered_value_size env client_id threshold e.0)
          e.1)
      base_size max_rpc_size entries

-- The loop of `firstChunkSplit`, `i` items behind it.
unfoldable pub split_loop : {A : Type 0} → (A → Run ℕ) → ℕ → List A → ℕ → ℕ → Run ℕ
split_loop size limit [] current_size i = ok i
split_loop size limit (a ∷ items) current_size i = do
  elem ← size a
  let next = (current_size + elem) % 2 ^ 64
  let rest = split_loop size limit items next (i + 1)
  if leb next limit then rest else ok i

-- `firstChunkSplit`: how many items the first call takes.
unfoldable pub first_chunk_split : {A : Type 0} → (A → Run ℕ) → List A → ℕ → ℕ → Run ℕ
unfolding split_loop
first_chunk_split size items base_size limit = split_loop size limit items base_size 0
