-- ===== src/Smart/Routing/Targets.antt =====
-- What `updateFromCoordinator` of smart/src/routing_table.cpp leaves in the map of targets.
use hurricache_cpp_client.Prelude.{
  ℕ, suc, ◌≡◌, ◌∙◌, ◌≤◌, ◌⊎◌, inl, inr, Bool, true, false, ◌||◌, List, [], ◌∷◌, none, some, arith,
  if◌then◌else◌, Option-cases, Bool-cases,
}
use hurricache_cpp_client.Prelude.Dict.{
  Text, text_eq, ◌=?◌, text_eq_iff, lookup, member, add, lookup-insert, lookup-retain, member-add,
}
use hurricache_cpp_client.Smart.Routing.{
  Peer, Client, RoutingTable, store_client, new_targets, create_missing, remove_old,
  update_from_coordinator, get_route_by_target,
}

-- Whether a peer of the list has the target.
unfoldable pub serves : Text → List Peer → Bool
serves n [] = false
serves n (p ∷ peers) = p.target =? n || serves n peers

pub member-new_targets :
    (n : Text) (names : List Text) (peers : List Peer)
    → member n (new_targets names peers) ≡ (member n names || serves n peers)
unfolding new_targets serves
member-new_targets n names [] = ground arith
member-new_targets n names (p ∷ peers) =
    ground (arith, member-new_targets n (add p.target names) peers, member-add p.target n names)

-- A client stays if it was there, and is made for each missing name.
pub lookup-create_missing :
    (n : Text) (names : List Text) (t : RoutingTable)
    → (c : Client) → lookup n t.targets ≡ some c
    → lookup n (create_missing names t).targets ≡ some c
unfolding create_missing
lookup-create_missing n [] t c h = h
lookup-create_missing n (m ∷ names) t c h = elim (Option-cases (lookup m t.targets)) [
  | inr (d, e) ↦ rw (e, create_missing) (lookup-create_missing n names t c h)
  | inl e ↦
      rw (e, create_missing)
        (lookup-create_missing n names _ c (rw lookup-insert (ground (arith, text_eq_iff m n))))
]

lookup-store_client :
    (n m : Text) (t : RoutingTable)
    → lookup n (store_client t m).targets
      ≡ (if m =? n then some (record { id = t.next_id; target = m }) else lookup n t.targets)
unfolding store_client
lookup-store_client n m t = lookup-insert m n _ t.targets

earlier : (a b : ℕ) → suc a ≤ b → a ≤ b
earlier a b h = omega arith

-- A name with no client gets a new one.
pub create_missing-new :
    (n : Text) (names : List Text) (t : RoutingTable)
    → member n names ≡ true
    → lookup n t.targets ≡ none
    → (c : Client) × (lookup n (create_missing names t).targets ≡ some c)
      × (c.target ≡ n)
      × (t.next_id ≤ c.id)
unfolding create_missing member
create_missing-new n [] t h e = cc
create_missing-new n (m ∷ names) t h e = elim (Option-cases (lookup m t.targets)) [
  | inr (d, q) ↦
      rw (q, create_missing) (create_missing-new n names t (ground (arith, text_eq_iff m n)) e)
  | inl q ↦ elim (Bool-cases (m =? n)) [
    | inl same ↦ (
      record { id = t.next_id; target = m },
      rw (q, create_missing) (lookup-create_missing n names _ _ (rw (lookup-store_client, same))),
      (text_eq_iff m n).0 same,
      omega arith,
    )
    | inr other ↦
        let (c, found, named, fresh) =
          create_missing-new n names (store_client t m) (ground arith)
            (rw (lookup-store_client, other) e) in
        (c, rw (q, create_missing) found, named, earlier t.next_id c.id fresh)
  ]
]

pub lookup-update :
    (n : Text) (t : RoutingTable) (m : ℕ) (peers : List Peer)
    → lookup n (update_from_coordinator t m peers).targets ≡ (
        if serves n peers
        then lookup n (create_missing (new_targets [] peers) (record t { max_shards = m })).targets
        else none)
unfolding update_from_coordinator remove_old member
lookup-update n t m peers =
    lookup-retain (λ k. member k (new_targets [] peers)) n _ ∙ rw (member-new_targets n [] peers)

-- After an update a target has a client exactly if a peer names it: the client that it had before,
-- the same object, or where it had none a new client of that target.
pub update_from_coordinator-targets :
    (n : Text) (t : RoutingTable) (m : ℕ) (peers : List Peer)
    → let u = update_from_coordinator t m peers in
      ((serves n peers ≡ false) × (get_route_by_target u n ≡ none))
      ⊎ ((serves n peers ≡ true)
          × (((c : Client) × (get_route_by_target t n ≡ some c)
                × (get_route_by_target u n ≡ some c))
              ⊎ ((c : Client) × (get_route_by_target t n ≡ none)
                  × (get_route_by_target u n ≡ some c)
                  × (c.target ≡ n)
                  × (t.next_id ≤ c.id))))
unfolding get_route_by_target member
update_from_coordinator-targets n t m peers = elim (Bool-cases (serves n peers)) [
  | inr e ↦ inl (e, rw (lookup-update, e))
  | inl e ↦
      let names = new_targets [] peers in
      let start = record t { max_shards = m } in
      let listed : member n names ≡ true = rw (member-new_targets, e) in
      elim (Option-cases (lookup n t.targets)) [
        | inr (c, old) ↦
            inr (e, inl (c, old, rw (lookup-update, e) (lookup-create_missing n names start c old)))
        | inl absent ↦
            let (c, found, named, fresh) = create_missing-new n names start listed absent in
            inr (e, inr (c, absent, rw (lookup-update, e) found, named, fresh))
      ]
]

-- So a target that a peer names has a client.
pub served_target :
    (n : Text) (t : RoutingTable) (m : ℕ) (peers : List Peer)
    → serves n peers ≡ true
    → (c : Client) × (lookup n (update_from_coordinator t m peers).targets ≡ some c)
unfolding get_route_by_target
served_target n t m peers h = elim (update_from_coordinator-targets n t m peers) [
  | inl (e, _) ↦ cc
  | inr (_, inl (c, _, found)) ↦ (c, found)
  | inr (_, inr (c, _, found, _, _)) ↦ (c, found)
]
