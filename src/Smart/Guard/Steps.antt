-- ===== src/Smart/Guard/Steps.antt =====
-- What one failure leads to in `attemptWithGuard` of smart/src/smart_client.cpp.
use hurricache_cpp_client.Prelude.{
  ◌≡◌, refl, ◌⊎◌, inl, inr, Bool, true, false, not, ◌&&◌, Option, none, some, is_empty, Bool-cases,
}
use hurricache_cpp_client.Prelude.Dict.{Text, text_eq, ◌=?◌}
use hurricache_cpp_client.Smart.Routing.{nat_eq, Client, RoutingTable, get_or_create_by_target}
use hurricache_cpp_client.Smart.Routing.History.{
  IsConsistent, get_or_create_by_target-IsConsistent, get_or_create_by_target-named,
}
use hurricache_cpp_client.Smart.Guard.{
  trim_copy, route_targets, failed_precondition, grpc, GuardState, target_of, redirect_client,
  retry, reroute_step, route_data, next_step,
}

-- The text of a redirect names a target that is not the node that sent it.
abbrev pub names_other : Option Client → Text → Bool
names_other current target = not (is_empty target) && not (target =? target_of current)

-- A redirect: the failure has its code and a text that is not blank.
abbrev pub IsRedirect : Text → Text → Type 0
IsRedirect message trailer = is_empty (trim_copy (route_data message trailer)) ≡ false

pub redirect_client-IsConsistent :
    (t : RoutingTable) (current : Option Client) (target : Text)
    → IsConsistent t
    → IsConsistent (redirect_client t (target_of current) target).1
unfolding redirect_client
redirect_client-IsConsistent t current target v = elim (Bool-cases (names_other current target)) [
  | inl e ↦ rw (e, redirect_client) (get_or_create_by_target-IsConsistent t target v)
  | inr e ↦ rw (e, redirect_client) v
]

pub redirect_named :
    (t : RoutingTable) (current : Option Client) (target : Text)
    → names_other current target ≡ true
    → let (c, u) = get_or_create_by_target t target in
      redirect_client t (target_of current) target ≡ (some c, u)
unfolding redirect_client
redirect_named t current target h = rw h

pub redirect_unnamed :
    (t : RoutingTable) (current : Option Client) (target : Text)
    → names_other current target ≡ false
    → redirect_client t (target_of current) target ≡ (none, t)
unfolding redirect_client
redirect_unnamed t current target h = rw h

-- A redirect from a node to another master leads to one more attempt, on an open client of that
-- master. The fallback is then a client of the backup that it names, if that is another node than the sender, and
-- else what it was. No other call is made, no refresh is started, and the table stays consistent.
pub next_step-reroute :
    (s : GuardState) (current fallback : Option Client) (message trailer : Text)
    → IsConsistent s.table
    → IsRedirect message trailer
    → names_other current (route_targets (route_data message trailer)).0 ≡ true
    → let (master, backup) = route_targets (route_data message trailer) in
      (u : GuardState) × (c : Client) × (d : Option Client) × (next_step s current fallback
          (grpc failed_precondition message trailer)
        ≡ retry u (some c) d)
      × (c.target ≡ master)
      × (u.calls ≡ s.calls)
      × (u.refreshes ≡ s.refreshes)
      × IsConsistent u.table
      × (((names_other current backup ≡ false) × (d ≡ fallback))
          ⊎ ((names_other current backup ≡ true) × (target_of d ≡ backup)))
unfolding next_step reroute_step
next_step-reroute s current fallback message trailer v here named =
    let (master, backup) = route_targets (route_data message trailer) in
    let (c, t) = get_or_create_by_target s.table master in
    let w = get_or_create_by_target-IsConsistent s.table master v in
    let is_named = (get_or_create_by_target-named s.table master v).0 in
    elim (Bool-cases (names_other current backup)) [
      | inr e ↦ (
        record s { table = t },
        c,
        fallback,
        rw here (
            rw (reroute_step, redirect_named s.table current master named)
              (rw (redirect_named s.table current master named) rw
                (redirect_unnamed t current backup e))),
        is_named,
        refl,
        refl,
        w,
        inl (e, refl),
      )
      | inl e ↦
          let (d, u) = get_or_create_by_target t backup in
          (
            record s { table = u },
            c,
            some d,
            rw here (
                rw (reroute_step, redirect_named s.table current master named)
                  (rw (redirect_named s.table current master named) rw
                    (redirect_named t current backup e))),
            is_named,
            refl,
            refl,
            get_or_create_by_target-IsConsistent t backup w,
            inr (e, (get_or_create_by_target-named t backup w).0),
          )
    ]
