-- ===== src/Smart/Create.antt =====
-- smart/src/smart_client.cpp, the creation of containers: what fits goes with the first call, and
-- the rest is added behind it in chunks. The waits and the timeouts are left out.
pub mod Laws
use hurricache_cpp_client.Prelude.{
  ℕ, ◌+◌, ◌%◌, ◌^◌, Bool, true, false, List, [], ◌∷◌, map, Option, none, some, take, drop, is_empty,
  if◌then◌else◌, Run, ok, fault, ◌>>=◌,
}
use hurricache_cpp_client.Prelude.Int.{ℤ}
use hurricache_cpp_client.Types.{KeyHint, Key, Value, OrderedValue, OrderedKey, ContainerType}
use hurricache_cpp_client.Env.{Env}
use hurricache_cpp_client.Smart.Chunks.{
  estimate_value_size, estimate_ordered_value_size, estimate_key_size, estimate_ordered_key_size,
  first_chunk_split, partition_value_chunks, partition_ordered_value_chunks, partition_map_chunks,
  partition_ordered_map_chunks,
}
use hurricache_cpp_client.Smart.Guard.{Failure, other, Outcome, value, failed}
use hurricache_cpp_client.Smart.Execute.{
  SmartClient, effective_client_id, effective_ttl, max_rpc_size,
}
use hurricache_cpp_client.Smart.Copies.{
  OrderedEntry, copy_values, copy_ordered_values, copy_map, copy_ordered_map,
}
use hurricache_cpp_client.Smart.Insert.{
  Chunk, InsertCall, unordered, to_tail, with_weight, to_hash_map, to_ordered_map,
}

-- The `invalid_argument` of a type that is no unordered container.
abbrev pub unsupported_container : Failure
unsupported_container = other 7

-- The first call, its data where its part is not empty, its time to live, and the calls behind it. The
-- operation is the type that the call creates, or what the action throws in its place.
pub record Creation (A : Type 0) : Type 0 where
  pub operation : Outcome ContainerType
  pub first : Option (List A)
  pub ttl : ℤ
  pub remainder : List InsertCall

-- `first.empty() ? nullptr : &first`.
abbrev pub unless_empty : {A : Type 0} → List A → Option (List A)
unless_empty [] = none
unless_empty (a ∷ first) = some (a ∷ first)

-- The switch in the action of `createUnorderedContainerSmart`.
unfoldable pub create_operation : ContainerType → Outcome ContainerType
create_operation ContainerType.queue = value ContainerType.queue
create_operation ContainerType.list = value ContainerType.list
create_operation ContainerType.vector = value ContainerType.vector
create_operation ContainerType.set = value ContainerType.set
create_operation _ = failed unsupported_container

-- The call that adds a chunk of the rest: a test for the set only. For a type that the action does not
-- create it is not reached.
abbrev pub remainder_call : ContainerType → Chunk → InsertCall
remainder_call ContainerType.set chunk = unordered chunk
remainder_call _ chunk = to_tail chunk

module _ (env : Env) (s : SmartClient) (threshold : ℤ) where
  -- `createUnorderedContainerSmart`.
  unfoldable pub create_unordered_container :
      Option Chunk → ℤ → ℤ → ContainerType → Run (Creation (Option Value))
  unfolding copy_values effective_client_id effective_ttl max_rpc_size first_chunk_split
      partition_value_chunks create_operation
  create_unordered_container initial ttl client_id type = do
    let cid = effective_client_id s client_id
    let owned = copy_values initial
    let limit = max_rpc_size s
    split ← first_chunk_split (estimate_value_size env cid threshold) owned 128 limit
    chunks ← partition_value_chunks env (drop split owned) 0 cid threshold limit
    ok (record {
      operation = create_operation type;
      first = unless_empty (take split owned);
      ttl = effective_ttl s ttl;
      remainder = map (remainder_call type) chunks;
    })

  -- `createQueue`, `createList`, `createVector` and `createSet`.
  unfoldable pub create_queue : Option Chunk → ℤ → ℤ → Run (Creation (Option Value))
  unfolding create_unordered_container
  create_queue initial ttl client_id =
      create_unordered_container initial ttl client_id ContainerType.queue

  unfoldable pub create_list : Option Chunk → ℤ → ℤ → Run (Creation (Option Value))
  unfolding create_unordered_container
  create_list initial ttl client_id =
      create_unordered_container initial ttl client_id ContainerType.list

  unfoldable pub create_vector : Option Chunk → ℤ → ℤ → Run (Creation (Option Value))
  unfolding create_unordered_container
  create_vector initial ttl client_id =
      create_unordered_container initial ttl client_id ContainerType.vector

  unfoldable pub create_set : Option Chunk → ℤ → ℤ → Run (Creation (Option Value))
  unfolding create_unordered_container
  create_set initial ttl client_id =
      create_unordered_container initial ttl client_id ContainerType.set

  -- `createOrderedSet`.
  unfoldable pub create_ordered_set :
      Option (List (Option OrderedValue)) → ℤ → ℤ → Run (Creation (Option OrderedValue))
  unfolding copy_ordered_values effective_client_id effective_ttl max_rpc_size first_chunk_split
      partition_ordered_value_chunks
  create_ordered_set initial ttl client_id = do
    let cid = effective_client_id s client_id
    let owned = copy_ordered_values initial
    let limit = max_rpc_size s
    split ← first_chunk_split (estimate_ordered_value_size env cid threshold) owned 128 limit
    chunks ← partition_ordered_value_chunks env (drop split owned) 0 cid threshold limit
    ok (record {
      operation = value ContainerType.ordered_set;
      first = unless_empty (take split owned);
      ttl = effective_ttl s ttl;
      remainder = map with_weight chunks;
    })

  -- The size of an entry in `createMap`.
  unfoldable pub map_entry_size : ℤ → Key × Option Value → Run ℕ
  unfolding estimate_key_size estimate_value_size
  map_entry_size cid (k, v) = do
    m ← estimate_key_size env cid threshold k
    n ← estimate_value_size env cid threshold v
    ok ((m + n) % 2 ^ 64)

  -- `createMap`. The keys of the first map are pointers, no two of them the same.
  unfoldable pub create_map :
      Option (List (Key × Option Value)) → ℤ → ℤ → Run (Creation (Key × Option Value))
  unfolding copy_map effective_client_id effective_ttl max_rpc_size first_chunk_split
      partition_map_chunks map_entry_size
  create_map initial ttl client_id = do
    let cid = effective_client_id s client_id
    let owned = copy_map initial
    let limit = max_rpc_size s
    split ← first_chunk_split (map_entry_size cid) owned 128 limit
    chunks ← partition_map_chunks env (drop split owned) 0 cid threshold limit
    ok (record {
      operation = value ContainerType.hash_map;
      first = unless_empty (take split owned);
      ttl = effective_ttl s ttl;
      remainder = map to_hash_map chunks;
    })

  -- The size of an entry in `createOrderedMap`.
  unfoldable pub ordered_map_entry_size : ℤ → OrderedEntry → Run ℕ
  unfolding estimate_ordered_key_size estimate_ordered_value_size
  ordered_map_entry_size cid e = do
    n ← estimate_ordered_value_size env cid threshold e.value
    ok ((estimate_ordered_key_size env cid e.key + n) % 2 ^ 64)

  -- An entry of the rest: the key as an ordered value, and the value without its weight.
  abbrev pub rest_entry : OrderedEntry → Option OrderedValue × Option Value
  rest_entry e = (some e.key_as_value, elim e.value [ none ↦ none | some v ↦ some v.value ])

  -- `createOrderedMap`.
  unfoldable pub create_ordered_map :
      Option (List (OrderedKey × Option OrderedValue)) → ℤ → ℤ → Run (Creation OrderedEntry)
  unfolding copy_ordered_map effective_client_id effective_ttl max_rpc_size first_chunk_split
      partition_ordered_map_chunks ordered_map_entry_size
  create_ordered_map initial ttl client_id = do
    let cid = effective_client_id s client_id
    let owned = copy_ordered_map initial
    let limit = max_rpc_size s
    split ← first_chunk_split (ordered_map_entry_size cid) owned 128 limit
    chunks ←
        partition_ordered_map_chunks env (map rest_entry (drop split owned)) 0 cid threshold limit
    ok (record {
      operation = value ContainerType.ordered_map;
      first = unless_empty (take split owned);
      ttl = effective_ttl s ttl;
      remainder = map to_ordered_map chunks;
    })

-- The loop over the chunks of the rest: the first call that fails ends it.
unfoldable pub run_remainder :
    {S : Type 0}
    → (InsertCall → S → Outcome ℕ × S)
    → List InsertCall
    → KeyHint
    → S
    → Outcome KeyHint × S
run_remainder call [] hint s = (value hint, s)
run_remainder call (c ∷ calls) hint s =
    let (o, t) = call c s in
    elim o [ value n ↦ run_remainder call calls hint t | failed e ↦ (failed e, t) ]

-- `createWithRemainder`: the calls behind the creation go out with the hint that it gave.
unfoldable pub create_with_remainder :
    {S : Type 0}
    → (S → Outcome KeyHint × S)
    → (KeyHint → InsertCall → S → Outcome ℕ × S)
    → List InsertCall
    → S
    → Outcome KeyHint × S
unfolding run_remainder
create_with_remainder create call calls s =
    let (o, t) = create s in
    elim o [ value hint ↦ run_remainder (call hint) calls hint t | failed e ↦ (failed e, t) ]

-- The action of a creation: the call of the client's method, or the exception, and then no call.
unfoldable pub create_first :
    {A S : Type 0}
    → (ContainerType → Option (List A) → S → Outcome KeyHint × S)
    → Creation A
    → S
    → Outcome KeyHint × S
create_first create plan s = elim plan.operation [
  | value type ↦ create type plan.first s
  | failed e ↦ (failed e, s)
]

-- A creation as a whole.
unfoldable pub run_creation :
    {A S : Type 0}
    → (ContainerType → Option (List A) → S → Outcome KeyHint × S)
    → (KeyHint → InsertCall → S → Outcome ℕ × S)
    → Creation A
    → S
    → Outcome KeyHint × S
unfolding create_with_remainder create_first
run_creation create call plan s =
    create_with_remainder (create_first create plan) call plan.remainder s
