-- ===== src/Smart/Insert.antt =====
-- smart/src/smart_client.cpp, the inserts: the calls that `addElement...` cuts its data into. Each
-- call goes out by `execute` with the hint; the timeouts are passed on and left out.
pub mod Replay
pub mod Laws
pub mod Pivot
pub mod Behind
use hurricache_cpp_client.Prelude.{
  ℕ, suc, zero, ◌+◌, ◌%◌, ◌^◌, List, [], ◌∷◌, ◌++◌, map, reverse, Option, none, some, length, Run,
  ok, fault, ◌>>=◌, last_or,
}
use hurricache_cpp_client.Prelude.Int.{ℤ}
use hurricache_cpp_client.Types.{KeyHint, Key, Value, OrderedValue}
use hurricache_cpp_client.Env.{Env}
use hurricache_cpp_client.Smart.Chunks.{
  estimate_key_size, partition_value_chunks, partition_ordered_value_chunks, MapChunk,
  partition_map_chunks, partition_ordered_map_chunks,
}
use hurricache_cpp_client.Smart.Execute.{SmartClient, effective_client_id, max_rpc_size}
use hurricache_cpp_client.Smart.Guard.{Outcome, value, failed}
use hurricache_cpp_client.Smart.Copies.{copy_key, copy_value, copy_values, copy_ordered_values}

abbrev pub Chunk : Type 0
Chunk = List (Option Value)

-- A call of a node, by the method and the arguments that tell it from the others of its insert.
pub data InsertCall : Type 0 where
  unordered to_tail to_head : Chunk → InsertCall
  to_position : Chunk → ℕ → InsertCall
  before after : Chunk → Option Value → InsertCall
  with_weight : List (Option OrderedValue) → InsertCall
  to_hash_map : MapChunk Key → InsertCall
  to_ordered_map : MapChunk (Option OrderedValue) → InsertCall

module _ (env : Env) (s : SmartClient) (threshold : ℤ) where
  -- The size of a call without its data: `estimateKeySize(...) + 32`.
  unfoldable pub call_base : Key → ℤ → Run ℕ
  unfolding estimate_key_size copy_key effective_client_id
  call_base key client_id = do
    n ← estimate_key_size env (effective_client_id s client_id) threshold (copy_key key)
    ok ((n + 32) % 2 ^ 64)

  -- The chunks of a vector of values, behind the test for no data.
  unfoldable pub value_chunks : Key → Option Chunk → ℤ → Run (List Chunk)
  unfolding call_base copy_values partition_value_chunks max_rpc_size effective_client_id
  value_chunks key none client_id = ok []
  value_chunks key (some []) client_id = ok []
  value_chunks key (some (v ∷ vs)) client_id = do
    base ← call_base key client_id
    partition_value_chunks env (copy_values (some (v ∷ vs))) base (effective_client_id s client_id)
        threshold (max_rpc_size s)

  -- `addElementUnordered`.
  unfoldable pub add_element_unordered : Key → Option Chunk → ℤ → Run (List InsertCall)
  unfolding value_chunks
  add_element_unordered key items client_id = do
    chunks ← value_chunks key items client_id
    ok (map unordered chunks)

  -- `addElementToTail`.
  unfoldable pub add_element_to_tail : Key → Option Chunk → ℤ → Run (List InsertCall)
  unfolding value_chunks
  add_element_to_tail key items client_id = do
    chunks ← value_chunks key items client_id
    ok (map to_tail chunks)

  -- `addElementToHead`: the last chunk first.
  unfoldable pub add_element_to_head : Key → Option Chunk → ℤ → Run (List InsertCall)
  unfolding value_chunks
  add_element_to_head key items client_id = do
    chunks ← value_chunks key items client_id
    ok (map to_head (reverse chunks))

-- The loop of `addElementToPosition`: `current_pos` is a `uint32_t`.
unfoldable pub position_calls : List Chunk → ℕ → List InsertCall
position_calls [] current_pos = []
position_calls (c ∷ chunks) current_pos =
    to_position c current_pos ∷ position_calls chunks ((current_pos + length c) % 2 ^ 32)

-- The loop behind the first chunk of an insert at a pivot: `chunks[i - 1].back()` is the anchor.
unfoldable pub chained_calls : Option Value → List Chunk → List InsertCall
chained_calls anchor [] = []
chained_calls anchor (c ∷ chunks) = after c anchor ∷ chained_calls (last_or none c) chunks

-- The calls of `addElementToPositionBefore` and of `addElementToPositionAfter`.
unfoldable pub before_calls : List Chunk → Option Value → List InsertCall
unfolding chained_calls
before_calls [] pivot = []
before_calls (c ∷ chunks) pivot = before c pivot ∷ chained_calls (last_or none c) chunks

unfoldable pub after_calls_of : List Chunk → Option Value → List InsertCall
unfolding chained_calls
after_calls_of [] pivot = []
after_calls_of (c ∷ chunks) pivot = after c pivot ∷ chained_calls (last_or none c) chunks

-- The entries of a map insert: a key with no value of its index has a null one.
unfoldable pub zip_entries : {K : Type 0} → List K → List (Option Value) → List (K × Option Value)
zip_entries [] values = []
zip_entries (k ∷ keys) [] = (k, none) ∷ zip_entries keys []
zip_entries (k ∷ keys) (v ∷ values) = (k, v) ∷ zip_entries keys values

module _ (env : Env) (s : SmartClient) (threshold : ℤ) where
  -- `addElementToPosition`.
  unfoldable pub add_element_to_position : Key → Option Chunk → ℕ → ℤ → Run (List InsertCall)
  unfolding value_chunks position_calls
  add_element_to_position key items pos client_id = do
    chunks ← value_chunks env s threshold key items client_id
    ok (position_calls chunks pos)

  -- `addElementToPositionBefore`.
  unfoldable pub add_element_to_position_before :
      Key → Option Chunk → Option Value → ℤ → Run (List InsertCall)
  unfolding value_chunks before_calls copy_value
  add_element_to_position_before key items pivot client_id = do
    chunks ← value_chunks env s threshold key items client_id
    ok (before_calls chunks (copy_value pivot))

  -- `addElementToPositionAfter`.
  unfoldable pub add_element_to_position_after :
      Key → Option Chunk → Option Value → ℤ → Run (List InsertCall)
  unfolding value_chunks after_calls_of copy_value
  add_element_to_position_after key items pivot client_id = do
    chunks ← value_chunks env s threshold key items client_id
    ok (after_calls_of chunks (copy_value pivot))

  -- `addElementWithWeight`.
  unfoldable pub add_element_with_weight :
      Key → Option (List (Option OrderedValue)) → ℤ → Run (List InsertCall)
  unfolding call_base copy_ordered_values partition_ordered_value_chunks max_rpc_size
      effective_client_id
  add_element_with_weight key none client_id = ok []
  add_element_with_weight key (some []) client_id = ok []
  add_element_with_weight key (some (v ∷ vs)) client_id = do
    base ← call_base env s threshold key client_id
    chunks ←
        partition_ordered_value_chunks env (copy_ordered_values (some (v ∷ vs))) base
          (effective_client_id s client_id) threshold (max_rpc_size s)
    ok (map with_weight chunks)

  -- `addElementHashMap`.
  unfoldable pub add_element_hash_map :
      Key → Option (List Key) → Option Chunk → ℤ → Run (List InsertCall)
  unfolding call_base copy_key copy_values zip_entries partition_map_chunks max_rpc_size
      effective_client_id
  add_element_hash_map key none values client_id = ok []
  add_element_hash_map key (some []) values client_id = ok []
  add_element_hash_map key (some (k ∷ keys)) values client_id = do
    base ← call_base env s threshold key client_id
    let entries = zip_entries (map copy_key (k ∷ keys)) (copy_values values)
    chunks ←
        partition_map_chunks env entries base (effective_client_id s client_id) threshold
          (max_rpc_size s)
    ok (map to_hash_map chunks)

  -- `addElementOrderedMap`.
  unfoldable pub add_element_ordered_map :
      Key → Option (List (Option OrderedValue)) → Option Chunk → ℤ → Run (List InsertCall)
  unfolding call_base copy_ordered_values copy_values zip_entries partition_ordered_map_chunks
      max_rpc_size effective_client_id
  add_element_ordered_map key none values client_id = ok []
  add_element_ordered_map key (some []) values client_id = ok []
  add_element_ordered_map key (some (k ∷ keys)) values client_id = do
    base ← call_base env s threshold key client_id
    let entries = zip_entries (copy_ordered_values (some (k ∷ keys))) (copy_values values)
    chunks ←
        partition_ordered_map_chunks env entries base (effective_client_id s client_id) threshold
          (max_rpc_size s)
    ok (map to_ordered_map chunks)

-- `runAddPipeline`: the calls one behind the other, up to the first that fails, with the sum of
-- what they return in a `uint32_t`. `call` is a call's outcome, and the state behind it.
unfoldable pub run_add_pipeline :
    {S : Type 0} → (InsertCall → S → Outcome ℕ × S) → List InsertCall → ℕ → S → Outcome ℕ × S
run_add_pipeline call [] total s = (value total, s)
run_add_pipeline call (c ∷ calls) total s =
    let (o, t) = call c s in
    elim o [
      | value n ↦ run_add_pipeline call calls ((total + n) % 2 ^ 32) t
      | failed e ↦ (failed e, t)
    ]
