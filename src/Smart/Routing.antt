-- ===== src/Smart/Routing.antt =====
-- smart/src/routing_table.cpp and smart/include/routing_table.hxx: which node serves a shard.
-- A client is an object: two of one target are told apart by the number of their creation. The
-- maps are association lists: in what order a std::map walks its keys is left open. The methods
-- run under the table's mutex, so each is one step.
pub mod Targets
pub mod Routes
pub mod Live
pub mod History
use hurricache_cpp_client.Prelude.{
  ℕ, suc, Bool, true, false, not, ◌&&◌, ◌↔◌, ◌≡◌, arith, List, [], ◌∷◌, ◌++◌, map, Option, none,
  some, ◌==◌, ==_iff, if◌then◌else◌,
}
use hurricache_cpp_client.Prelude.Dict.{Eq, Text, text_eq, lookup, insert, retain, member, add}

instance abbrev pub nat_eq : Eq ℕ
nat_eq = record { eq = ◌==◌; eq_iff = ==_iff }

-- `coordinator::NodeRole`.
pub data NodeRole : Type 0 where
  undefined master backup : NodeRole

abbrev pub role_eq : NodeRole → NodeRole → Bool
role_eq undefined undefined = true
role_eq master master = true
role_eq backup backup = true
role_eq _ _ = false

-- `std::pair<NodeRole, int32_t>`, the key of `routing_table_`.
abbrev pub RouteKey : Type 0
RouteKey = NodeRole × ℕ

abbrev pub route_key_eq : RouteKey → RouteKey → Bool
route_key_eq a b = role_eq a.0 b.0 && a.1 == b.1

pub route_key_eq_iff : (a b : RouteKey) → (route_key_eq a b ≡ true) ↔ (a ≡ b)
route_key_eq_iff (undefined, m) (undefined, n) = ground arith
route_key_eq_iff (undefined, m) (master, n) = ground arith
route_key_eq_iff (undefined, m) (backup, n) = ground arith
route_key_eq_iff (master, m) (undefined, n) = ground arith
route_key_eq_iff (master, m) (master, n) = ground arith
route_key_eq_iff (master, m) (backup, n) = ground arith
route_key_eq_iff (backup, m) (undefined, n) = ground arith
route_key_eq_iff (backup, m) (master, n) = ground arith
route_key_eq_iff (backup, m) (backup, n) = ground arith

instance abbrev pub route_eq : Eq RouteKey
route_eq = record { eq = route_key_eq; eq_iff = route_key_eq_iff }

-- A `FastCacheStandaloneClient` behind its `shared_ptr`.
pub record Client : Type 0 where
  pub id : ℕ
  pub target : Text

-- `coordinator::PeerRouting`.
pub record Peer : Type 0 where
  pub target : Text
  pub role : NodeRole
  pub partition_ids : List ℕ

-- `max_shards` as the 32 bits that it holds. `closed` numbers the clients that were shut down.
pub record RoutingTable : Type 0 where
  pub max_shards : ℕ
  pub routes : List (RouteKey × Client)
  pub targets : List (Text × Client)
  pub next_id : ℕ
  pub closed : List ℕ

-- `RoutingTable()`.
abbrev pub new_table : RoutingTable
new_table = record { max_shards = 1024; routes = []; targets = []; next_id = 0; closed = [] }

-- `createClient`: a new object each time.
abbrev pub create_client : RoutingTable → Text → Client
create_client t target = record { id = t.next_id; target = target }

-- `routing_table_target_[target] = createClient(target)`.
unfoldable pub store_client : RoutingTable → Text → RoutingTable
store_client t target = record t {
  targets = insert target (create_client t target) t.targets;
  next_id = suc t.next_id;
}

-- The set `new_targets`.
unfoldable pub new_targets : List Text → List Peer → List Text
new_targets names [] = names
new_targets names (p ∷ peers) = new_targets (add p.target names) peers

-- The loop that creates clients for new targets.
unfoldable pub create_missing : List Text → RoutingTable → RoutingTable
unfolding store_client
create_missing [] t = t
create_missing (n ∷ names) t =
    create_missing names (elim (lookup n t.targets) [ none ↦ store_client t n | some c ↦ t ])

abbrev pub clients : List (Text × Client) → List ℕ
clients m = map (λ e. e.1.id) m

-- The loop that removes old clients, and their shutdown behind the lock.
unfoldable pub remove_old : List Text → RoutingTable → RoutingTable
remove_old names t = record t {
  targets = retain (λ n. member n names) t.targets;
  closed = t.closed ++ clients (retain (λ n. not (member n names)) t.targets);
}

-- The loop over the partitions of a peer.
unfoldable pub add_partitions :
    NodeRole → Client → List ℕ → List (RouteKey × Client) → List (RouteKey × Client)
add_partitions role c [] routes = routes
add_partitions role c (p ∷ partition_ids) routes =
    add_partitions role c partition_ids (insert (role, p) c routes)

-- The loop over the peers.
unfoldable pub build_routes :
    List (Text × Client) → List Peer → List (RouteKey × Client) → List (RouteKey × Client)
unfolding add_partitions
build_routes targets [] routes = routes
build_routes targets (p ∷ peers) routes =
    build_routes targets peers (elim (lookup p.target targets) [
      | none ↦ routes
      | some c ↦ add_partitions p.role c p.partition_ids routes
    ])

-- `updateFromCoordinator`.
unfoldable pub update_from_coordinator : RoutingTable → ℕ → List Peer → RoutingTable
unfolding new_targets create_missing remove_old build_routes
update_from_coordinator t max_shards peers =
    let names = new_targets [] peers in
    let kept = remove_old names (create_missing names (record t { max_shards = max_shards })) in
    record kept { routes = build_routes kept.targets peers [] }

-- `getRoute`.
unfoldable pub get_route : RoutingTable → ℕ → NodeRole → Option Client
get_route t shard role = lookup (role, shard) t.routes

-- `getRouteByTarget`.
unfoldable pub get_route_by_target : RoutingTable → Text → Option Client
get_route_by_target t target = lookup target t.targets

-- `getOrCreateByTarget`: the client and the table behind the call.
unfoldable pub get_or_create_by_target : RoutingTable → Text → Client × RoutingTable
unfolding store_client
get_or_create_by_target t target = elim (lookup target t.targets) [
  | some c ↦ (c, t)
  | none ↦ (create_client t target, store_client t target)
]

-- `shutdown`.
unfoldable pub shutdown : RoutingTable → RoutingTable
shutdown t = record t { routes = []; targets = []; closed = t.closed ++ clients t.targets }
