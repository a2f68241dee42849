-- ===== src/Smart/Guard.antt =====
-- smart/src/smart_client.cpp, `trimCopy` and `attemptWithGuard`: one call of a node, and what its
-- failure leads to. What the nodes answer, and what other threads do to the table of routes while
-- a call is under way, are parameters.
pub mod Trim
pub mod Steps
pub mod Failover
pub mod Settling
pub mod Circling
use hurricache_cpp_client.Prelude.{
  ℕ, suc, zero, Bool, true, false, not, ◌&&◌, ◌||◌, List, [], ◌∷◌, ◌++◌, reverse, Option, none,
  some, ◌==◌, if◌then◌else◌, is_empty, length,
}
use hurricache_cpp_client.Prelude.Dict.{Text, text_eq, ◌=?◌}
pub use hurricache_cpp_client.Rpc.{Failure, grpc, other, Outcome, value, failed}
use hurricache_cpp_client.Smart.Routing.{Client, RoutingTable, get_or_create_by_target}
use hurricache_cpp_client.Smart.Routing.History.{TableCall, after_calls}

-- The blanks of `trimCopy`: space, tab, carriage return, line feed.
abbrev pub is_blank : ℕ → Bool
is_blank c = c == 32 || c == 9 || c == 13 || c == 10

unfoldable pub trim_front : Text → Text
trim_front [] = []
trim_front (c ∷ s) = if is_blank c then trim_front s else c ∷ s

-- `trimCopy`.
unfoldable pub trim_copy : Text → Text
unfolding trim_front
trim_copy s = reverse (trim_front (reverse (trim_front s)))

-- `route_data.substr(0, comma)`, with all of it where there is no comma.
unfoldable pub before_comma : Text → Text
before_comma [] = []
before_comma (c ∷ s) = if c == 44 then [] else c ∷ before_comma s

-- `route_data.substr(comma + 1)`, and nothing where there is no comma.
unfoldable pub after_comma : Text → Text
after_comma [] = []
after_comma (c ∷ s) = if c == 44 then s else after_comma s

-- The master's target and the backup's that the text of a redirect names.
unfoldable pub route_targets : Text → Text × Text
unfolding trim_copy before_comma after_comma
route_targets text = (trim_copy (before_comma text), trim_copy (after_comma text))

-- The numbers of `grpc::StatusCode`.
abbrev pub failed_precondition : ℕ
failed_precondition = 9

abbrev pub unavailable : ℕ
unavailable = 14

-- What is not the client's: what node answers to the call of a number, and what other threads do
-- to the table by then.
pub record World (A : Type 0) : Type 0 where
  pub respond : ℕ → Option Client → Outcome A
  pub others : ℕ → List TableCall

-- The table, the clients called so far in their order, and how many refreshes were started.
pub record GuardState : Type 0 where
  pub table : RoutingTable
  pub calls : List (Option Client)
  pub refreshes : ℕ

-- `current ? current->getTarget() : ""`.
abbrev pub target_of : Option Client → Text
target_of none = []
target_of (some c) = c.target

-- Whether two pointers are one.
abbrev pub same_client : Option Client → Option Client → Bool
same_client none none = true
same_client none (some d) = false
same_client (some c) none = false
same_client (some c) (some d) = c.id == d.id

-- The client of a target that is named, and is not the current one.
unfoldable pub redirect_client : RoutingTable → Text → Text → Option Client × RoutingTable
unfolding get_or_create_by_target
redirect_client t current_target target =
    if not (is_empty target) && not (target =? current_target)
    then (let (c, u) = get_or_create_by_target t target in (some c, u))
    else (none, t)

abbrev pub or_else : Option Client → Option Client → Option Client
or_else none fallback = fallback
or_else (some c) fallback = some c

-- What a failure leads to: one more attempt, or the failure itself.
pub data Next : Type 0 where
  retry : GuardState → Option Client → Option Client → Next
  raise : GuardState → Next

-- `new_backup && new_backup != current`, and the same of the fallback: an attempt with no fallback.
unfoldable pub last_attempt : GuardState → Option Client → Option Client → Next
last_attempt s current none = raise s
last_attempt s current (some d) =
    if same_client (some d) current then raise s else retry s (some d) none

-- 1. REROUTE, with the text of the redirect.
unfoldable pub reroute_step : GuardState → Option Client → Option Client → Text → Next
unfolding route_targets redirect_client last_attempt
reroute_step s current fallback text =
    let (master_target, backup_target) = route_targets text in
    let (new_master, t) = redirect_client s.table (target_of current) master_target in
    let (named_backup, u) = redirect_client t (target_of current) backup_target in
    let new_backup = or_else named_backup fallback in
    let next = record s { table = u } in
    elim new_master [
      | some c ↦ retry next (some c) new_backup
      | none ↦ last_attempt next current new_backup
    ]

-- The trailer, or the status message where there is no trailer.
abbrev pub route_data : Text → Text → Text
route_data message trailer = if not (is_empty trailer) then trailer else message

-- The handler of a failure.
unfoldable pub next_step : GuardState → Option Client → Option Client → Failure → Next
unfolding reroute_step trim_copy last_attempt
next_step s current fallback (other n) = raise s
next_step s current fallback (grpc code message trailer) =
    if code == failed_precondition && not (is_empty (trim_copy (route_data message trailer)))
    then reroute_step s current fallback (route_data message trailer)
    else if code == unavailable
    then last_attempt (record s { refreshes = suc s.refreshes }) current fallback
    else raise s

module _ {A : Type 0} (world : World A) where
  -- `action(current).get()`, and what other threads do meanwhile.
  unfoldable pub call_node : GuardState → Option Client → GuardState
  call_node s current = record s {
    table = after_calls s.table (world.others (length s.calls));
    calls = s.calls ++ current ∷ [];
  }

  -- `attemptWithGuard`: `none` means out of fuel.
  unfoldable pub attempt_with_guard :
      ℕ → GuardState → Option Client → Option Client → Option (Outcome A × GuardState)
  unfolding call_node next_step
  attempt_with_guard zero s current fallback = none
  attempt_with_guard (suc fuel) s current fallback = elim (world.respond (length s.calls) current) [
    | value a ↦ some (value a, call_node s current)
    | failed e ↦ elim (next_step (call_node s current) current fallback e) [
      | retry u c d ↦ attempt_with_guard fuel u c d
      | raise u ↦ some (failed e, u)
    ]
  ]
