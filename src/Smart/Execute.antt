-- ===== src/Smart/Execute.antt =====
-- smart/src/smart_client.cpp, the core of the routing: the settings of the client, the refresh of
-- its routes from the coordinators, and `execute`. The waits and the threads are left out: what
-- other threads have done by the end of a wait is a parameter.
pub mod Refresh
pub mod Select
pub mod Calls
pub mod Turns
pub mod Ends
use hurricache_cpp_client.Prelude.{
  ℕ, suc, zero, ◌+◌, ◌-◌, ◌*◌, ◌/◌, ◌%◌, ◌^◌, Bool, true, false, not, ◌||◌, List, [], ◌∷◌, Option,
  none, some, ◌⊎◌, inl, inr, ◌==◌, ltb, if◌then◌else◌, length, get_or, is_empty, Run, ok, fault,
  division_by_zero, ◌>>=◌,
}
use hurricache_cpp_client.Prelude.Dict.{Text}
use hurricache_cpp_client.Prelude.Int.{ℤ, pos, negsuc, is_positive, ltb_ℤ}
use hurricache_cpp_client.Types.{KeyHint}
use hurricache_cpp_client.Smart.Routing.{
  NodeRole, Peer, Client, RoutingTable, new_table, update_from_coordinator, get_route, shutdown,
}
use hurricache_cpp_client.Smart.Guard.{
  Failure, other, Outcome, failed, World, GuardState, attempt_with_guard,
}

pub data Mode : Type 0 where
  master backup master_than_backup lb_smart : Mode

pub record SmartClient : Type 0 where
  pub coordinators : List Text
  pub table : RoutingTable
  pub default_ttl : ℤ
  pub default_client_id : ℤ
  pub max_inbound_message_size : ℕ
  pub configured_mode : Mode
  pub mode_override : Option Mode
  pub is_ready : Bool
  pub is_updating : Bool
  pub shutdown_requested : Bool
  pub random_counter : ℕ
  pub active_coordinator : ℕ

-- The constructor: `none` is its `invalid_argument`.
unfoldable pub new_smart_client : List Text → ℤ → ℤ → ℕ → Option SmartClient
new_smart_client coordinators ttl client_id max_inbound_message_size =
    if is_empty coordinators
    then none
    else some (record {
      coordinators = coordinators;
      table = new_table;
      default_ttl = ttl;
      default_client_id = client_id;
      max_inbound_message_size = max_inbound_message_size;
      configured_mode = master_than_backup;
      mode_override = none;
      is_ready = false;
      is_updating = false;
      shutdown_requested = false;
      random_counter = 0;
      active_coordinator = 0;
    })

-- `setMode` and `clearModeOverride`.
abbrev pub set_mode : SmartClient → Mode → SmartClient
set_mode s mode = record s { mode_override = some mode }

abbrev pub clear_mode_override : SmartClient → SmartClient
clear_mode_override s = record s { mode_override = none }

unfoldable pub effective_mode : SmartClient → Mode
effective_mode s = elim s.mode_override [ some mode ↦ mode | none ↦ s.configured_mode ]

unfoldable pub effective_client_id : SmartClient → ℤ → ℤ
effective_client_id s (pos zero) = s.default_client_id
effective_client_id s (pos (suc n)) = pos (suc n)
effective_client_id s (negsuc n) = negsuc n

unfoldable pub effective_ttl : SmartClient → ℤ → ℤ
effective_ttl s ttl = if is_positive ttl then ttl else s.default_ttl

-- `maxRpcSize`: `std::max` of 4 MB and the limit of the channel, less an eighth.
unfoldable pub max_rpc_size : SmartClient → ℕ
max_rpc_size s =
    let size = s.max_inbound_message_size in
    let base = if ltb (4 * 1024 * 1024) size then size else 4 * 1024 * 1024 in base - base / 8

-- The exceptions of the client itself.
abbrev pub shut_down : Failure
shut_down = other 0

abbrev pub boot_timeout : Failure
boot_timeout = other 1

abbrev pub no_endpoint : Failure
no_endpoint = other 2

-- `waitReady`, with the client as it is when the wait ends.
unfoldable pub wait_ready : SmartClient → SmartClient → Failure ⊎ SmartClient
wait_ready s waited =
    if s.is_ready
    then inr s
    else if waited.is_ready
    then inr waited
    else if waited.shutdown_requested
    then inl shut_down
    else inl boot_timeout

-- `provideGlobalRoutingInfo`: what a coordinator answers, if it does.
pub record RoutingInfo : Type 0 where
  pub max_shards : ℕ
  pub peers : List Peer

-- The coordinator that an attempt asks.
abbrev pub coordinator_at : SmartClient → ℕ → ℕ
coordinator_at s attempt = (s.active_coordinator + attempt) % length s.coordinators

-- The loop over the coordinators, with `left` attempts to go.
unfoldable pub refresh_loop : (Text → Option RoutingInfo) → ℕ → ℕ → SmartClient → SmartClient
refresh_loop ask zero attempt s = s
refresh_loop ask (suc left) attempt s =
    let idx = coordinator_at s attempt in
    let rest = refresh_loop ask left (suc attempt) s in
    elim (ask (get_or s.coordinators idx [])) [
      | none ↦ rest
      | some info ↦ record s {
        table = update_from_coordinator s.table info.max_shards info.peers;
        active_coordinator = idx;
        is_ready = true;
      }
    ]

-- `refreshRouting`: `is_updating` is set for its time, and as it was behind it.
unfoldable pub refresh_routing : (Text → Option RoutingInfo) → SmartClient → SmartClient
unfolding refresh_loop
refresh_routing ask s =
    if s.shutdown_requested || is_empty s.coordinators || s.is_updating
    then s
    else refresh_loop ask (length s.coordinators) 0 s

-- `shutdown`.
unfoldable pub end_smart_client : SmartClient → SmartClient
end_smart_client s =
    if s.shutdown_requested
    then s
    else record s { shutdown_requested = true; is_ready = false; table = shutdown s.table }

-- The shard of a call: by the key's weak hash, or in turn. Both remainders are of 32 bits.
unfoldable pub pick_shard : SmartClient → Option KeyHint → Run (ℕ × SmartClient)
pick_shard s hint = if s.table.max_shards == 0 then fault division_by_zero else elim hint [
  | some h ↦ ok (h.weak_hash % s.table.max_shards, s)
  | none ↦ ok (
    s.random_counter % 2 ^ 31 % s.table.max_shards,
    record s { random_counter = suc s.random_counter % 2 ^ 32 },
  )
]

-- The mode where a role may have no node.
unfoldable pub choose_mode : Mode → Option Client → Option Client → Mode
choose_mode mode none backup_client = backup
choose_mode mode (some m) none = master
choose_mode mode (some m) (some b) = mode

-- The switch over the mode: the client that is called first, and the fallback.
unfoldable pub order_clients :
    Mode → Bool → Option Client → Option Client → Option Client × Option Client
order_clients master master_first m b = (m, none)
order_clients backup master_first m b = (b, none)
order_clients lb_smart master_first m b = if master_first then (m, b) else (b, m)
order_clients master_than_backup master_first m b = (m, b)

-- The clients for a shard.
unfoldable pub select_clients : SmartClient → ℕ → Bool → Failure ⊎ (Option Client × Option Client)
unfolding get_route choose_mode order_clients effective_mode
select_clients s shard master_first =
    let m = get_route s.table shard NodeRole.master in
    let b = get_route s.table shard NodeRole.backup in
    let found = order_clients (choose_mode (effective_mode s) m b) master_first m b in
    elim m [ some c ↦ inr found | none ↦ elim b [ some d ↦ inr found | none ↦ inl no_endpoint ] ]

-- The start of the attempts: no call made, no refresh started.
abbrev pub first_state : SmartClient → GuardState
first_state s = record { table = s.table; calls = []; refreshes = 0 }

-- The attempts on the clients that were selected, with the outcome, the client behind them, and
-- what they did. `none` means out of fuel.
unfoldable pub attempt_selected :
    {A : Type 0}
    → World A
    → ℕ
    → SmartClient
    → Failure ⊎ (Option Client × Option Client)
    → Option (Outcome A × SmartClient × GuardState)
unfolding attempt_with_guard
attempt_selected world fuel u (inl e) = some (failed e, u, first_state u)
attempt_selected world fuel u (inr (current, fallback)) =
    elim (attempt_with_guard world fuel (first_state u) current fallback) [
      | none ↦ none
      | some (o, g) ↦ some (o, record u { table = g.table }, g)
    ]

-- `execute`. `waited` is the client when the wait for it to be ready ends, and `master_first` the
-- random bit of the balanced mode.
unfoldable pub execute :
    {A : Type 0}
    → World A
    → ℕ
    → SmartClient
    → SmartClient
    → Option KeyHint
    → Bool
    → Run (Option (Outcome A × SmartClient × GuardState))
unfolding wait_ready pick_shard select_clients attempt_selected
execute world fuel s waited hint master_first = elim (wait_ready s waited) [
  | inl e ↦ ok (some (failed e, waited, first_state waited))
  | inr r ↦ do
    (shard, u) ← pick_shard r hint
    ok (attempt_selected world fuel u (select_clients u shard master_first))
]
