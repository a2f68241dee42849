-- ===== src/Smart/Routing/History.antt =====
-- The histories of a table of smart/src/routing_table.cpp: any sequence of its calls.
use hurricache_cpp_client.Prelude.{
  ℕ, ◌≡◌, refl, sym, ap, ◌∙◌, subst, inl, inr, true, false, List, [], ◌∷◌, some, arith,
  Option-cases, Bool-cases,
}
use hurricache_cpp_client.Prelude.Dict.{
  Text, text_eq, text_eq_iff, lookup, retain, member, lookup-insert, member-append,
}
use hurricache_cpp_client.Smart.Routing.{
  NodeRole, RouteKey, route_eq, nat_eq, Peer, Client, RoutingTable, new_table, clients,
  store_client, new_targets, update_from_coordinator, get_route, get_route_by_target,
  get_or_create_by_target, shutdown,
}
use hurricache_cpp_client.Smart.Routing.Routes.{last_target, get_route-update_from_coordinator}
use hurricache_cpp_client.Smart.Routing.Live.{
  HasTargets, store_client-HasTargets, create_missing-HasTargets, closed_entry,
  remove_old-HasTargets,
}

-- The routes of a table go to clients of its map of targets.
pub record IsConsistent (t : RoutingTable) : Type 0 where
  pub has_targets : HasTargets t
  pub routed :
      (key : RouteKey) (c : Client)
      → lookup key t.routes ≡ some c
      → (n : Text) × (lookup n t.targets ≡ some c)

pub new_table-IsConsistent : IsConsistent new_table
unfolding lookup member
new_table-IsConsistent = record {
  has_targets = record {
    named = λ n c h. cc;
    made = λ n c h. cc;
    ended = λ i h. cc;
    is_open = λ n c h. cc;
    distinct = tt;
    once = λ n m c d h g e. cc;
  };
  routed = λ key c h. cc;
}

pub update_from_coordinator-IsConsistent :
    (t : RoutingTable) (m : ℕ) (peers : List Peer)
    → IsConsistent t
    → IsConsistent (update_from_coordinator t m peers)
unfolding get_route get_route_by_target
update_from_coordinator-IsConsistent t m peers v =
    let names = new_targets [] peers in
    let w = v.has_targets in
    let start : HasTargets (record t { max_shards = m }) = record {
      named = w.named;
      made = w.made;
      ended = w.ended;
      is_open = w.is_open;
      distinct = w.distinct;
      once = w.once;
    } in
    let u = remove_old-HasTargets names _ (create_missing-HasTargets names _ start) in
    record {
      has_targets =
          unfold update_from_coordinator in
          record {
            named = u.named;
            made = u.made;
            ended = u.ended;
            is_open = u.is_open;
            distinct = u.distinct;
            once = u.once;
          };
      routed = λ key c h.
          let e = get_route-update_from_coordinator t m peers key.1 key.0 in
          elim (Option-cases (last_target key peers)) [
            | inl q ↦ cc (rw q at e, h)
            | inr (n, q) ↦ (n, sym (rw q at e) ∙ h)
          ];
    }

pub get_or_create_by_target-IsConsistent :
    (t : RoutingTable) (n : Text) → IsConsistent t → IsConsistent (get_or_create_by_target t n).1
unfolding get_or_create_by_target
get_or_create_by_target-IsConsistent t n v = elim (Option-cases (lookup n t.targets)) [
  | inr (c, e) ↦ rw (e, get_or_create_by_target) v
  | inl e ↦
      rw (e, get_or_create_by_target)
        record {
          has_targets = store_client-HasTargets t n v.has_targets;
          routed = λ key c h.
              unfold store_client in
              let (k, found) = v.routed key c h in
              (k, rw lookup-insert (ground (arith, text_eq_iff n k)));
        }
]

retain_all : (m : List (Text × Client)) → retain (λ _. true) m ≡ m
unfolding retain
retain_all [] = refl
retain_all ((n, c) ∷ m) = ap (λ k. (n, c) ∷ k) (retain_all m)

pub shutdown-IsConsistent : (t : RoutingTable) → IsConsistent t → IsConsistent (shutdown t)
unfolding shutdown lookup
shutdown-IsConsistent t v = record {
  has_targets = record {
    named = λ n c h. cc;
    made = λ n c h. cc;
    ended = λ i h. elim (Bool-cases (member i t.closed)) [
      | inl old ↦ v.has_targets.ended i old
      | inr new ↦
          let (k, c, found, _, same) =
            closed_entry (λ _. true) i t.targets v.has_targets.distinct
              (rw retain_all (ground (arith, member-append i t.closed (clients t.targets)))) in
          ground (arith, v.has_targets.made k c found)
    ];
    is_open = λ n c h. cc;
    distinct = tt;
    once = λ n m c d h g e. cc;
  };
  routed = λ key c h. cc;
}

-- The calls that change a table.
pub data TableCall : Type 0 where
  update : ℕ → List Peer → TableCall
  reroute : Text → TableCall
  end_all : TableCall

abbrev pub after_call : RoutingTable → TableCall → RoutingTable
after_call t (update m peers) = update_from_coordinator t m peers
after_call t (reroute n) = (get_or_create_by_target t n).1
after_call t end_all = shutdown t

abbrev pub after_calls : RoutingTable → List TableCall → RoutingTable
after_calls t [] = t
after_calls t (c ∷ calls) = after_calls (after_call t c) calls

after_call-IsConsistent :
    (t : RoutingTable) (c : TableCall) → IsConsistent t → IsConsistent (after_call t c)
after_call-IsConsistent t (update m peers) v = update_from_coordinator-IsConsistent t m peers v
after_call-IsConsistent t (reroute n) v = get_or_create_by_target-IsConsistent t n v
after_call-IsConsistent t end_all v = shutdown-IsConsistent t v

pub after_calls-IsConsistent :
    (t : RoutingTable) (calls : List TableCall)
    → IsConsistent t
    → IsConsistent (after_calls t calls)
after_calls-IsConsistent t [] v = v
after_calls-IsConsistent t (c ∷ calls) v =
    after_calls-IsConsistent (after_call t c) calls (after_call-IsConsistent t c v)

-- Whatever calls a new table has had, the client that it gives for a shard was not shut down, and
-- is the one that it gives for that client's own target.
pub get_route-open :
    (calls : List TableCall) (shard : ℕ) (role : NodeRole) (c : Client)
    → let t = after_calls new_table calls in
      get_route t shard role ≡ some c
      → (member c.id t.closed ≡ false) × (get_route_by_target t c.target ≡ some c)
unfolding get_route get_route_by_target
get_route-open calls shard role c h =
    let v = after_calls-IsConsistent new_table calls new_table-IsConsistent in
    let (n, found) = v.routed (role, shard) c h in
    (
      v.has_targets.is_open n c found,
      subst (λ k. lookup k (after_calls new_table calls).targets ≡ some c)
          (sym (v.has_targets.named n c found)) found,
    )

stored :
    (t : RoutingTable) (n : Text)
    → let (c, u) = get_or_create_by_target t n in lookup n u.targets ≡ some c
unfolding get_or_create_by_target store_client
stored t n = elim (Option-cases (lookup n t.targets)) [
  | inr (c, e) ↦ rw (e, get_or_create_by_target) e
  | inl e ↦ rw (e, get_or_create_by_target, lookup-insert) (ground (arith, text_eq_iff n n))
]

-- What `getOrCreateByTarget` gives in a consistent table.
pub get_or_create_by_target-named :
    (t : RoutingTable) (n : Text)
    → IsConsistent t
    → let (c, u) = get_or_create_by_target t n in (c.target ≡ n) × (member c.id u.closed ≡ false)
get_or_create_by_target-named t n v =
    let w = (get_or_create_by_target-IsConsistent t n v).has_targets in
    let (c, u) = get_or_create_by_target t n in
    (w.named n c (stored t n), w.is_open n c (stored t n))

found_again :
    (t : RoutingTable) (n : Text) (c : Client)
    → lookup n t.targets ≡ some c
    → get_or_create_by_target t n ≡ (c, t)
unfolding get_or_create_by_target
found_again t n c h = rw (h, get_or_create_by_target)

-- Whatever calls a new table has had, `getOrCreateByTarget` gives a client of the target that was not
-- shut down, and asked again it gives the same one and changes nothing.
pub get_or_create_by_target-open :
    (calls : List TableCall) (n : Text)
    → let t = after_calls new_table calls in
      let (c, u) = get_or_create_by_target t n in
      (c.target ≡ n) × (member c.id u.closed ≡ false) × (get_or_create_by_target u n ≡ (c, u))
get_or_create_by_target-open calls n =
    let t = after_calls new_table calls in
    let v =
      (get_or_create_by_target-IsConsistent t n
        (after_calls-IsConsistent new_table calls new_table-IsConsistent)).has_targets in
    let (c, u) = get_or_create_by_target t n in
    let found : lookup n u.targets ≡ some c = stored t n in
    (v.named n c found, v.is_open n c found, found_again u n c found)
