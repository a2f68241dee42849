-- ===== src/Smart/Execute/Calls.antt =====
-- `execute` of smart/src/smart_client.cpp from the key's hash to the outcome.
use hurricache_cpp_client.Prelude.{
  ℕ, ◌%◌, ◌≡◌, refl, ap, ◌⊎◌, inl, inr, Bool, true, false, Option, none, some, ◌==◌, if◌then◌else◌,
  ok,
}
use hurricache_cpp_client.Types.{KeyHint}
use hurricache_cpp_client.Smart.Routing.{NodeRole, nat_eq, Client, get_route}
use hurricache_cpp_client.Smart.Routing.History.{IsConsistent}
use hurricache_cpp_client.Smart.Guard.{failed_precondition, Failure, failed, World}
use hurricache_cpp_client.Smart.Guard.Failover.{
  is_status, two_attempts, attempt_with_guard-two_attempts,
}
use hurricache_cpp_client.Smart.Execute.{
  SmartClient, effective_mode, shut_down, boot_timeout, no_endpoint, wait_ready, pick_shard,
  first_state, attempt_selected, execute,
}
use hurricache_cpp_client.Smart.Execute.Select.{IsEndpoint, IsOrder, select_clients-IsEndpoint}

pub wait_ready-ready : (s waited : SmartClient) → s.is_ready ≡ true → wait_ready s waited ≡ inr s
unfolding wait_ready
wait_ready-ready s waited h =
    ap
      (λ b.
        if b
        then inr s
        else (if waited.is_ready
            then inr waited
            else if waited.shutdown_requested
            then inl shut_down
            else inl boot_timeout))
      h

pub pick_shard-hint :
    (s : SmartClient) (h : KeyHint)
    → (s.table.max_shards == 0) ≡ false
    → pick_shard s (some h) ≡ ok (h.weak_hash % s.table.max_shards, s)
unfolding pick_shard
pick_shard-hint s h e = rw e

module _ {A : Type 0} (world : World A)
    (no_redirect : (i : ℕ) (c : Option Client) (e : Failure)
      → world.respond i c ≡ failed e
      → is_status failed_precondition e ≡ false) where
  -- Where no node redirects, a call of a ready client whose table is consistent and has shards ends,
  -- and fuel of two is enough. Its shard is the key's weak hash modulo their number. If no node
  -- serves this shard the call fails. Else it has the outcome of one attempt on an open client of the
  -- shard and, if this node is unavailable, a second one on the fallback: the two, or the one alone,
  -- that the mode puts in this order, where a shard with one node is served by this node in each mode.
  pub execute-two_attempts :
      (s waited : SmartClient) (h : KeyHint) (master_first : Bool)
      → s.is_ready ≡ true
      → IsConsistent s.table
      → (s.table.max_shards == 0) ≡ false
      → let shard = h.weak_hash % s.table.max_shards in
        ((get_route s.table shard NodeRole.master ≡ none)
          × (get_route s.table shard NodeRole.backup ≡ none)
          × (execute world 2 s waited (some h) master_first
              ≡ ok (some (failed no_endpoint, s, first_state s))))
        ⊎ ((c : Client) × (fallback : Option Client) × IsOrder
              (effective_mode s)
              master_first
              (get_route s.table shard NodeRole.master)
              (get_route s.table shard NodeRole.backup)
              c
              fallback
            × IsEndpoint s.table shard c
            × ((fallback ≡ none)
                ⊎ ((d : Client) × (fallback ≡ some d) × IsEndpoint s.table shard d))
            × let (o, g) = two_attempts world (first_state s) (some c) fallback in
              execute world 2 s waited (some h) master_first
              ≡ ok (some (o, record s { table = g.table }, g)))
  unfolding execute attempt_selected
  execute-two_attempts s waited h master_first ready v shards =
      let shard = h.weak_hash % s.table.max_shards in
      elim (select_clients-IsEndpoint s shard master_first v) [
        | inl (m, b, e) ↦ inl (
          m,
          b,
          rw (wait_ready-ready s waited ready, execute) rw (pick_shard-hint s h shards) rw e refl,
        )
        | inr (c, fallback, e, order, cv, dv) ↦ inr (
          c,
          fallback,
          order,
          cv,
          dv,
          rw (wait_ready-ready s waited ready, execute) rw (pick_shard-hint s h shards) rw e rw
              (
                attempt_with_guard-two_attempts world no_redirect 0 (first_state s) (some c)
                    fallback,
                attempt_selected,
              )
              refl,
        )
      ]
