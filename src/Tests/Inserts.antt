-- ===== src/Tests/Inserts.antt =====
-- The chunked inserts of smart/src/smart_client.cpp at a concrete node.
use hurricache_cpp_client.Prelude.{
  ℕ, ◌<◌, ◌^◌, ◌≡◌, ◌⊎◌, refl, true, false, List, [], ◌∷◌, ◌++◌, map, Option, none, some, arith,
  length, take, drop, Returns,
}
use hurricache_cpp_client.Prelude.Int.{pos}
use hurricache_cpp_client.Types.{KeyHint, Value, ContainerType}
use hurricache_cpp_client.Smart.Chunks.Sizes.{IsSendable}
use hurricache_cpp_client.Smart.Guard.{Outcome, value, failed, other}
use hurricache_cpp_client.Smart.Routing.{new_table}
use hurricache_cpp_client.Smart.Execute.{Mode, SmartClient, max_rpc_size}
use hurricache_cpp_client.Smart.Copies.{copy_key}
use hurricache_cpp_client.Smart.Insert.{
  Chunk, InsertCall, to_tail, to_head, to_position, add_element_to_tail, add_element_to_head,
  add_element_to_position, run_add_pipeline,
}
use hurricache_cpp_client.Smart.Insert.Replay.{ListNode, Leaves, InsertsInOrder}
use hurricache_cpp_client.Smart.Insert.Laws.{
  copies, add_element_to_tail-appends, add_element_to_head-prepends,
  add_element_to_position-inserts,
}
use hurricache_cpp_client.Smart.Create.{
  create_unordered_container, run_creation, unsupported_container,
}
use hurricache_cpp_client.Smart.Create.Laws.{
  or_empty, is_list, Fills, create_unordered_container-Fills,
}
use hurricache_cpp_client.Tests.{
  packer-IsLibdeflate, test_env, test_env-HasSmallMessages, word, number, fraction, test_key,
}

-- A node that keeps one list, and serves three of the inserts.
abbrev node_call : InsertCall → Chunk → Outcome ℕ × Chunk
node_call (to_tail c) s = (value (length c), s ++ c)
node_call (to_head c) s = (value (length c), c ++ s)
node_call (to_position c i) s = (value (length c), take i s ++ c ++ drop i s)
node_call _ s = (failed (other 9), s)

abbrev test_node : ListNode
test_node = record { State = Chunk; items = λ s. s; call = node_call }

test_node-InsertsInOrder : InsertsInOrder test_node
test_node-InsertsInOrder = record {
  tail = λ c s. (length c, refl, refl);
  head = λ c s. (length c, refl, refl);
  position = λ c i s h. (length c, refl, refl);
}

abbrev test_hint : KeyHint
test_hint = record { weak_hash = 2; strong_hash = 3 }

abbrev make_list : ContainerType → Option Chunk → Chunk → Outcome KeyHint × Chunk
make_list type first s = (value test_hint, or_empty first)

make_list-Fills :
    (type : ContainerType) (first : Option Chunk) (t : Chunk)
    → Fills test_node (make_list type first t) (or_empty first)
make_list-Fills type first t = (test_hint, refl, refl)

abbrev pub inserter : SmartClient
inserter = record {
  coordinators = (1 ∷ []) ∷ [];
  table = new_table;
  default_ttl = pos 0;
  default_client_id = pos 3;
  max_inbound_message_size = 1000;
  configured_mode = Mode.master_than_backup;
  mode_override = none;
  is_ready = true;
  is_updating = false;
  shutdown_requested = false;
  random_counter = 0;
  active_coordinator = 0;
}

abbrev values : List Value
values = word ∷ number ∷ []

abbrev old_items : Chunk
old_items = some fraction ∷ some word ∷ []

pub inserter_limit : max_rpc_size inserter < 2 ^ 62
unfolding max_rpc_size
inserter_limit = omega arith

pub test_key-IsSendable : IsSendable test_env (copy_key test_key)
unfolding copy_key
test_key-IsSendable = record {
  valid = (omega arith, refl);
  small = omega arith;
  room = omega arith;
}

add_element_to_tail-appends_example :
    Returns
      (add_element_to_tail test_env inserter (pos 1024) test_key (some (map some values)) (pos 0))
      (λ calls.
        Leaves test_node
          (run_add_pipeline node_call calls 0 old_items)
          (old_items ++ copies values))
add_element_to_tail-appends_example =
    add_element_to_tail-appends test_env test_env-HasSmallMessages packer-IsLibdeflate inserter
      (pos 1024) inserter_limit test_node test_node-InsertsInOrder test_key values (pos 0) old_items
      test_key-IsSendable

add_element_to_head-prepends_example :
    Returns
      (add_element_to_head test_env inserter (pos 1024) test_key (some (map some values)) (pos 0))
      (λ calls.
        Leaves test_node
          (run_add_pipeline node_call calls 0 old_items)
          (copies values ++ old_items))
add_element_to_head-prepends_example =
    add_element_to_head-prepends test_env test_env-HasSmallMessages packer-IsLibdeflate inserter
      (pos 1024) inserter_limit test_node test_node-InsertsInOrder test_key values (pos 0) old_items
      test_key-IsSendable

add_element_to_position-inserts_example :
    Returns
      (add_element_to_position test_env inserter
        (pos 1024)
        test_key
        (some (map some values))
        1
        (pos 0))
      (λ calls.
        Leaves test_node
          (run_add_pipeline node_call calls 0 old_items)
          (take 1 old_items ++ copies values ++ drop 1 old_items))
add_element_to_position-inserts_example =
    add_element_to_position-inserts test_env test_env-HasSmallMessages packer-IsLibdeflate inserter
      (pos 1024) inserter_limit test_node test_node-InsertsInOrder test_key values 1 (pos 0)
      old_items test_key-IsSendable (omega arith) (omega arith)

create_unordered_container-Fills_example :
    Returns
      (create_unordered_container test_env inserter
        (pos 1024)
        (some (map some values))
        (pos 0)
        (pos 0)
        ContainerType.list)
      (λ plan.
        let r = run_creation make_list (λ h. node_call) plan [] in
        ((is_list ContainerType.list ≡ true) × Fills test_node r (copies values))
        ⊎ ((is_list ContainerType.list ≡ false) × (r ≡ (failed unsupported_container, []))))
create_unordered_container-Fills_example =
    create_unordered_container-Fills test_env test_env-HasSmallMessages inserter (pos 1024)
      inserter_limit test_node test_node-InsertsInOrder make_list ContainerType.list
      (make_list-Fills ContainerType.list) refl values (pos 0) (pos 0) []
