-- ===== src/Smart/Execute/Select.antt =====
-- `execute` of smart/src/smart_client.cpp: the nodes that a call goes to.
use hurricache_cpp_client.Prelude.{
  ℕ, ◌≡◌, refl, ◌⊎◌, inl, inr, Bool, true, false, ap, Option, none, some, Option-cases,
}
use hurricache_cpp_client.Prelude.Dict.{text_eq, member}
use hurricache_cpp_client.Smart.Routing.{NodeRole, nat_eq, Client, RoutingTable, get_route}
use hurricache_cpp_client.Smart.Routing.History.{IsConsistent}
use hurricache_cpp_client.Smart.Execute.{
  Mode, SmartClient, effective_mode, no_endpoint, choose_mode, order_clients, select_clients,
}

-- A client that serves a shard of the table, in a role: not shut down.
abbrev pub IsEndpoint : RoutingTable → ℕ → Client → Type 0
IsEndpoint t shard c =
    (role : NodeRole) × (get_route t shard role ≡ some c) × (member c.id t.closed ≡ false)

open_route :
    (t : RoutingTable) (shard : ℕ) (role : NodeRole) (c : Client)
    → IsConsistent t
    → get_route t shard role ≡ some c
    → IsEndpoint t shard c
unfolding get_route
open_route t shard role c v h =
    let (n, found) = v.routed (role, shard) c h in (role, h, v.has_targets.is_open n c found)

-- Which node a call goes to first, and which one behind it, by the mode and the random bit: of a
-- shard that only one node serves this node, with no fallback, in whatever mode; of two nodes the one
-- that the mode names, and the other as a fallback in the mixed modes.
pub data IsOrder
    : Mode → Bool → Option Client → Option Client → Client → Option Client → Type 0 where
  only_master : {mode : Mode} {bit : Bool} (m : Client) → IsOrder mode bit (some m) none m none
  only_backup : {mode : Mode} {bit : Bool} (b : Client) → IsOrder mode bit none (some b) b none
  to_master : {bit : Bool} (m b : Client) → IsOrder Mode.master bit (some m) (some b) m none
  to_backup : {bit : Bool} (m b : Client) → IsOrder Mode.backup bit (some m) (some b) b none
  master_then_backup :
      {bit : Bool} (m b : Client) → IsOrder Mode.master_than_backup bit (some m) (some b) m (some b)
  balanced_master : (m b : Client) → IsOrder Mode.lb_smart true (some m) (some b) m (some b)
  balanced_backup : (m b : Client) → IsOrder Mode.lb_smart false (some m) (some b) b (some m)

order_clients-IsOrder :
    (mode : Mode) (bit : Bool) (m b : Client)
    → (c : Client) × (fallback : Option Client) × (order_clients
          (choose_mode mode (some m) (some b))
          bit
          (some m)
          (some b)
        ≡ (some c, fallback))
      × IsOrder mode bit (some m) (some b) c fallback
unfolding order_clients choose_mode
order_clients-IsOrder Mode.master bit m b = (m, none, refl, to_master m b)
order_clients-IsOrder Mode.backup bit m b = (b, none, refl, to_backup m b)
order_clients-IsOrder Mode.master_than_backup bit m b = (m, some b, refl, master_then_backup m b)
order_clients-IsOrder Mode.lb_smart true m b = (m, some b, refl, balanced_master m b)
order_clients-IsOrder Mode.lb_smart false m b = (b, some m, refl, balanced_backup m b)

-- The nodes of an order are those that serve the shard.
IsOrder-served :
    {mode : Mode} {bit : Bool} {m b : Option Client} {c : Client} {fallback : Option Client}
    → IsOrder mode bit m b c fallback
    → ((m ≡ some c) ⊎ (b ≡ some c))
      × ((fallback ≡ none) ⊎ ((d : Client) × (fallback ≡ some d) × ((m ≡ some d) ⊎ (b ≡ some d))))
IsOrder-served (only_master m) = (inl refl, inl refl)
IsOrder-served (only_backup b) = (inr refl, inl refl)
IsOrder-served (to_master m b) = (inl refl, inl refl)
IsOrder-served (to_backup m b) = (inr refl, inl refl)
IsOrder-served (master_then_backup m b) = (inl refl, inr (b, refl, inr refl))
IsOrder-served (balanced_master m b) = (inl refl, inr (b, refl, inr refl))
IsOrder-served (balanced_backup m b) = (inr refl, inr (m, refl, inl refl))

-- The clients of an order are open, in a consistent table.
served-IsEndpoint :
    (t : RoutingTable) (shard : ℕ) (c : Client)
    → IsConsistent t
    → ((get_route t shard NodeRole.master ≡ some c) ⊎ (get_route t shard NodeRole.backup ≡ some c))
    → IsEndpoint t shard c
served-IsEndpoint t shard c v (inl h) = open_route t shard NodeRole.master c v h
served-IsEndpoint t shard c v (inr h) = open_route t shard NodeRole.backup c v h

select_clients-IsOrder :
    (s : SmartClient) (shard : ℕ) (bit : Bool)
    → let m = get_route s.table shard NodeRole.master in
      let b = get_route s.table shard NodeRole.backup in
      ((m ≡ none) × (b ≡ none) × (select_clients s shard bit ≡ inl no_endpoint))
      ⊎ ((c : Client) × (fallback : Option Client) × (select_clients s shard bit
            ≡ inr (some c, fallback))
          × IsOrder (effective_mode s) bit m b c fallback)
unfolding select_clients order_clients choose_mode
select_clients-IsOrder s shard bit =
    let m = Option-cases (get_route s.table shard NodeRole.master) in
    let b = Option-cases (get_route s.table shard NodeRole.backup) in
    elim m [
      | inl e ↦ elim b [
        | inl f ↦ inl (e, f, rw (e, f, select_clients))
        | inr (d, f) ↦
            inr (d, none, rw (e, f, select_clients) rw (e, f) refl, rw (e, f) (only_backup d))
      ]
      | inr (c, e) ↦ elim b [
        | inl f ↦ inr (c, none, rw (e, f, select_clients) rw e refl, rw (e, f) (only_master c))
        | inr (d, f) ↦
            let (first, fallback, same, order) = order_clients-IsOrder (effective_mode s) bit c d in
            inr (first, fallback, rw (e, f, select_clients) (rw e (ap inr same)), rw (e, f) order)
      ]
    ]

-- A call on a shard finds no node exactly where neither a master nor a backup serves it. Else it goes
-- to the nodes of the shard in the order of the mode that is set: with one node this node and no
-- fallback, in the mode MASTER also a backup and in BACKUP a master; with two the master or the
-- backup alone in these modes, the master and then the backup in MASTER_THAN_BACKUP, and either first
-- and then the other in LB_SMART. Each of these clients is open.
pub select_clients-IsEndpoint :
    (s : SmartClient) (shard : ℕ) (bit : Bool)
    → IsConsistent s.table
    → let m = get_route s.table shard NodeRole.master in
      let b = get_route s.table shard NodeRole.backup in
      ((m ≡ none) × (b ≡ none) × (select_clients s shard bit ≡ inl no_endpoint))
      ⊎ ((c : Client) × (fallback : Option Client) × (select_clients s shard bit
            ≡ inr (some c, fallback))
          × IsOrder (effective_mode s) bit m b c fallback
          × IsEndpoint s.table shard c
          × ((fallback ≡ none) ⊎ ((d : Client) × (fallback ≡ some d) × IsEndpoint s.table shard d)))
select_clients-IsEndpoint s shard bit v = elim (select_clients-IsOrder s shard bit) [
  | inl h ↦ inl h
  | inr (c, fallback, e, order) ↦
      let (first, behind) = IsOrder-served order in
      inr (
        c,
        fallback,
        e,
        order,
        served-IsEndpoint s.table shard c v first,
        elim behind [
          | inl h ↦ inl h
          | inr (d, h, served) ↦ inr (d, h, served-IsEndpoint s.table shard d v served)
        ],
      )
]
