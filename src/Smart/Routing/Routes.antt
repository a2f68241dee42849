-- ===== src/Smart/Routing/Routes.antt =====
-- The routes that `updateFromCoordinator` of smart/src/routing_table.cpp builds.
use hurricache_cpp_client.Prelude.{
  ℕ, ◌≡◌, refl, ◌∙◌, inl, inr, Bool, true, ◌&&◌, List, [], ◌∷◌, Option, none, some, arith,
  if◌then◌else◌, Option-cases,
}
use hurricache_cpp_client.Prelude.Dict.{
  Text, text_eq, text_eq_iff, lookup, insert, member, lookup-insert,
}
use hurricache_cpp_client.Smart.Routing.{
  NodeRole, RouteKey, role_eq, route_eq, nat_eq, Peer, Client, RoutingTable, add_partitions,
  build_routes, update_from_coordinator, get_route, get_route_by_target,
}
use hurricache_cpp_client.Smart.Routing.Targets.{serves, served_target}

-- Whether a peer serves the shard in the role.
abbrev pub lists : RouteKey → Peer → Bool
lists key p = role_eq p.role key.0 && member key.1 p.partition_ids

-- The target of the last peer that serves the shard in the role.
unfoldable pub last_target : RouteKey → List Peer → Option Text
last_target key [] = none
last_target key (p ∷ peers) = elim (last_target key peers) [
  | some n ↦ some n
  | none ↦ if lists key p then some p.target else none
]

lookup-add_partitions :
    (role : NodeRole) (c : Client) (ids : List ℕ) (routes : List (RouteKey × Client))
    (key : RouteKey)
    → lookup key (add_partitions role c ids routes)
      ≡ (if role_eq role key.0 && member key.1 ids then some c else lookup key routes)
unfolding add_partitions member
lookup-add_partitions role c [] routes key = ground arith
lookup-add_partitions role c (p ∷ ids) routes key =
    lookup-add_partitions role c ids (insert (role, p) c routes) key
    ∙ rw lookup-insert (ground arith)

module _ (targets : List (Text × Client)) (key : RouteKey) where
  abbrev served : Option Text → Option Client → Option Client
  served none old = old
  served (some n) old = lookup n targets

  lookup-build_routes :
      (peers : List Peer) (routes : List (RouteKey × Client))
      → ((n : Text) → serves n peers ≡ true → (c : Client) × (lookup n targets ≡ some c))
      → lookup key (build_routes targets peers routes)
        ≡ served (last_target key peers) (lookup key routes)
  unfolding build_routes last_target serves
  lookup-build_routes [] routes all = refl
  lookup-build_routes (p ∷ peers) routes all =
      let (c, e) = all p.target (ground (arith, text_eq_iff p.target p.target)) in
      rw (e, build_routes)
        (lookup-build_routes peers (add_partitions p.role c p.partition_ids routes)
            (λ n h. all n (ground arith))
          ∙ rw lookup-add_partitions (ground arith))

-- The client of a target, if there is one.
abbrev pub client_of : RoutingTable → Option Text → Option Client
client_of t none = none
client_of t (some n) = get_route_by_target t n

-- After an update a shard is served, in a role, by the client of the last peer that lists it so,
-- and by nobody if no peer does: no route of before is left.
pub get_route-update_from_coordinator :
    (t : RoutingTable) (m : ℕ) (peers : List Peer) (shard : ℕ) (role : NodeRole)
    → let u = update_from_coordinator t m peers in
      get_route u shard role ≡ client_of u (last_target (role, shard) peers)
unfolding get_route get_route_by_target update_from_coordinator lookup
get_route-update_from_coordinator t m peers shard role =
    lookup-build_routes (update_from_coordinator t m peers).targets (role, shard) peers []
      (λ n h. served_target n t m peers h)
    ∙ elim (Option-cases (last_target (role, shard) peers)) [ inl e ↦ rw e | inr (n, e) ↦ rw e ]
