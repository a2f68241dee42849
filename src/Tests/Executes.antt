-- ===== src/Tests/Executes.antt =====
-- `execute` and `refreshRouting` of smart/src/smart_client.cpp for a concrete client.
use hurricache_cpp_client.Prelude.{
  ℕ, ◌+◌, ◌%◌, ◌≡◌, ◌<◌, ◌⊎◌, inl, inr, refl, true, false, [], ◌∷◌, Option, none, some, ◌==◌,
  if◌then◌else◌, arith, ok,
}
use hurricache_cpp_client.Prelude.Dict.{Text, text_eq, ◌=?◌, lookup, insert, retain, member, add}
use hurricache_cpp_client.Prelude.Int.{pos}
use hurricache_cpp_client.Types.{KeyHint}
use hurricache_cpp_client.Smart.Routing.{
  NodeRole, Client, new_table, update_from_coordinator, get_route, new_targets, create_missing,
  remove_old, build_routes, add_partitions, store_client,
}
use hurricache_cpp_client.Smart.Guard.{failed}
use hurricache_cpp_client.Smart.Guard.Failover.{two_attempts}
use hurricache_cpp_client.Smart.Execute.{
  Mode, SmartClient, effective_mode, RoutingInfo, no_endpoint, select_clients, refresh_routing,
  first_state, execute,
}
use hurricache_cpp_client.Smart.Execute.Refresh.{
  IsFirstAnswer, place, refresh_routing-IsFirstAnswer,
}
use hurricache_cpp_client.Smart.Execute.Select.{IsEndpoint, IsOrder, select_clients-IsEndpoint}
use hurricache_cpp_client.Smart.Execute.Calls.{execute-two_attempts}
use hurricache_cpp_client.Smart.Execute.Turns.{pick_behind, counted, pick_shard-turns}
use hurricache_cpp_client.Tests.Tables.{peers, table_of_peers-IsConsistent}
use hurricache_cpp_client.Smart.Execute.Ends.{execute-settles}
use hurricache_cpp_client.Smart.Guard.{GuardState, Outcome}
use hurricache_cpp_client.Smart.Routing.History.{IsConsistent}
use hurricache_cpp_client.Tests.Guards.{
  settling_world, weight, weight_low, weight_top, settling_world-down, failover_world,
  failover_world-no_redirect,
}

-- A ready client with the routes of two nodes and two shards.
abbrev pub ready_client : SmartClient
ready_client = record {
  coordinators = (1 ∷ []) ∷ (2 ∷ []) ∷ [];
  table = update_from_coordinator new_table 2 peers;
  default_ttl = pos 0;
  default_client_id = pos 3;
  max_inbound_message_size = 1000;
  configured_mode = Mode.master_than_backup;
  mode_override = none;
  is_ready = true;
  is_updating = false;
  shutdown_requested = false;
  random_counter = 5;
  active_coordinator = 1;
}

abbrev hint : KeyHint
hint = record { weak_hash = 6; strong_hash = 1 }

has_shards : (ready_client.table.max_shards == 0) ≡ false
unfolding update_from_coordinator new_targets create_missing remove_old build_routes add_partitions
    store_client lookup insert retain member add
has_shards = refl

execute-two_attempts_example :
    let s = ready_client in
    let shard = hint.weak_hash % s.table.max_shards in
    ((get_route s.table shard NodeRole.master ≡ none)
      × (get_route s.table shard NodeRole.backup ≡ none)
      × (execute failover_world 2 s s (some hint) true
          ≡ ok (some (failed no_endpoint, s, first_state s))))
    ⊎ ((c : Client) × (fallback : Option Client) × IsOrder
          (effective_mode s)
          true
          (get_route s.table shard NodeRole.master)
          (get_route s.table shard NodeRole.backup)
          c
          fallback
        × IsEndpoint s.table shard c
        × ((fallback ≡ none) ⊎ ((d : Client) × (fallback ≡ some d) × IsEndpoint s.table shard d))
        × let (o, g) = two_attempts failover_world (first_state s) (some c) fallback in
          execute failover_world 2 s s (some hint) true
          ≡ ok (some (o, record s { table = g.table }, g)))
execute-two_attempts_example =
    execute-two_attempts failover_world failover_world-no_redirect ready_client ready_client hint
      true refl table_of_peers-IsConsistent has_shards

select_clients-IsEndpoint_example :
    let s = ready_client in
    ((get_route s.table 0 NodeRole.master ≡ none)
      × (get_route s.table 0 NodeRole.backup ≡ none)
      × (select_clients s 0 true ≡ inl no_endpoint))
    ⊎ ((c : Client) × (fallback : Option Client) × (select_clients s 0 true
          ≡ inr (some c, fallback))
        × IsOrder
            (effective_mode s)
            true
            (get_route s.table 0 NodeRole.master)
            (get_route s.table 0 NodeRole.backup)
            c
            fallback
        × IsEndpoint s.table 0 c
        × ((fallback ≡ none) ⊎ ((d : Client) × (fallback ≡ some d) × IsEndpoint s.table 0 d)))
select_clients-IsEndpoint_example =
    select_clients-IsEndpoint ready_client 0 true table_of_peers-IsConsistent

pick_shard-turns_example :
    let n = ready_client.table.max_shards in
    (i : ℕ) × (i < n)
    × (pick_behind i ready_client none ≡ ok (1, counted ready_client (i + 1)))
    × (pick_behind i ready_client (some hint) ≡ ok (hint.weak_hash % n, counted ready_client i))
unfolding update_from_coordinator new_targets create_missing remove_old build_routes add_partitions
    store_client lookup insert retain member add
pick_shard-turns_example = pick_shard-turns ready_client 1 hint (omega arith) (omega arith)

-- Only the first coordinator answers; the second is the active one.
abbrev ask : Text → Option RoutingInfo
ask n = if n =? 1 ∷ [] then some (record { max_shards = 2; peers = peers }) else none

refresh_routing-IsFirstAnswer_example :
    IsFirstAnswer (place 1 2) ask ready_client 0 2 (refresh_routing ask ready_client)
refresh_routing-IsFirstAnswer_example =
    refresh_routing-IsFirstAnswer ask ready_client refl (omega arith)

execute-settles_example :
    (o : Outcome ℕ) × (u : SmartClient) × (g : GuardState) × (execute settling_world 4 ready_client
        ready_client
        (some hint)
        true
      ≡ ok (some (o, u, g)))
    × IsConsistent u.table
execute-settles_example =
    execute-settles settling_world weight 2 weight_low weight_top settling_world-down ready_client
      ready_client hint true refl table_of_peers-IsConsistent has_shards
