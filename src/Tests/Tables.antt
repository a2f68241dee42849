-- ===== src/Tests/Tables.antt =====
-- The table of smart/src/routing_table.cpp after concrete updates.
use hurricache_cpp_client.Prelude.{◌≡◌, ◌≤◌, ◌⊎◌, refl, true, false, List, [], ◌∷◌, none, some}
use hurricache_cpp_client.Prelude.Dict.{text_eq, lookup, insert, retain, member, add}
use hurricache_cpp_client.Smart.Routing.{
  NodeRole, route_eq, nat_eq, Peer, Client, new_table, update_from_coordinator, get_route,
  get_route_by_target, get_or_create_by_target, new_targets, create_missing, remove_old,
  build_routes, add_partitions, store_client,
}
use hurricache_cpp_client.Smart.Routing.Targets.{serves, update_from_coordinator-targets}
use hurricache_cpp_client.Smart.Routing.Routes.{
  last_target, client_of, get_route-update_from_coordinator,
}
use hurricache_cpp_client.Smart.Routing.History.{
  IsConsistent, new_table-IsConsistent, update_from_coordinator-IsConsistent, TableCall, update,
  reroute, after_calls, get_route-open, get_or_create_by_target-open,
}

-- Two nodes, `a` and `b`, that serve shards 0 and 1 for each other.
abbrev pub peers : List Peer
peers =
    record { target = 97 ∷ []; role = NodeRole.master; partition_ids = 0 ∷ [] }
    ∷ record { target = 98 ∷ []; role = NodeRole.backup; partition_ids = 0 ∷ [] }
    ∷ record { target = 98 ∷ []; role = NodeRole.master; partition_ids = 1 ∷ [] }
    ∷ []

abbrev pub client_a : Client
client_a = record { id = 0; target = 97 ∷ [] }

abbrev pub client_b : Client
client_b = record { id = 1; target = 98 ∷ [] }

pub table_of_peers-IsConsistent : IsConsistent (update_from_coordinator new_table 2 peers)
table_of_peers-IsConsistent =
    update_from_coordinator-IsConsistent new_table 2 peers new_table-IsConsistent

abbrev history : List TableCall
history = update 2 peers ∷ reroute (99 ∷ []) ∷ update 2 peers ∷ []

get_route-update_from_coordinator_example :
    let u = update_from_coordinator new_table 2 peers in
    get_route u 1 NodeRole.master ≡ client_of u (last_target (NodeRole.master, 1) peers)
get_route-update_from_coordinator_example =
    get_route-update_from_coordinator new_table 2 peers 1 NodeRole.master

update_from_coordinator-targets_example :
    let u = update_from_coordinator new_table 2 peers in
    ((serves (98 ∷ []) peers ≡ false) × (get_route_by_target u (98 ∷ []) ≡ none))
    ⊎ ((serves (98 ∷ []) peers ≡ true)
        × (((c : Client) × (get_route_by_target new_table (98 ∷ []) ≡ some c)
              × (get_route_by_target u (98 ∷ []) ≡ some c))
            ⊎ ((c : Client) × (get_route_by_target new_table (98 ∷ []) ≡ none)
                × (get_route_by_target u (98 ∷ []) ≡ some c)
                × (c.target ≡ 98 ∷ [])
                × (new_table.next_id ≤ c.id))))
update_from_coordinator-targets_example =
    update_from_coordinator-targets (98 ∷ []) new_table 2 peers

-- The client of shard 0 is the first one still, after a redirect and a second update.
master_of_shard_0 : get_route (after_calls new_table history) 0 NodeRole.master ≡ some client_a
unfolding update_from_coordinator get_or_create_by_target get_route new_targets create_missing
    remove_old build_routes add_partitions store_client lookup insert retain member add
master_of_shard_0 = refl

get_route-open_example :
    let t = after_calls new_table history in
    (member client_a.id t.closed ≡ false) × (get_route_by_target t client_a.target ≡ some client_a)
get_route-open_example = get_route-open history 0 NodeRole.master client_a master_of_shard_0

get_or_create_by_target-open_example :
    let t = after_calls new_table history in
    let (c, u) = get_or_create_by_target t (99 ∷ []) in
    (c.target ≡ 99 ∷ [])
    × (member c.id u.closed ≡ false)
    × (get_or_create_by_target u (99 ∷ []) ≡ (c, u))
get_or_create_by_target-open_example = get_or_create_by_target-open history (99 ∷ [])
