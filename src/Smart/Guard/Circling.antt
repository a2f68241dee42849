-- ===== src/Smart/Guard/Circling.antt =====
-- `attemptWithGuard` of smart/src/smart_client.cpp under redirects that lead in a circle.
use hurricache_cpp_client.Prelude.{
  ℕ, suc, zero, ◌≡◌, refl, sym, subst, ◌∙◌, true, Option, none, some, length,
}
use hurricache_cpp_client.Prelude.Dict.{Text}
use hurricache_cpp_client.Smart.Routing.{Client}
use hurricache_cpp_client.Smart.Routing.History.{IsConsistent, after_calls-IsConsistent}
use hurricache_cpp_client.Smart.Guard.{
  route_targets, failed_precondition, grpc, failed, World, GuardState, route_data, call_node,
  attempt_with_guard,
}
use hurricache_cpp_client.Smart.Guard.Steps.{names_other, IsRedirect, next_step-reroute}
use hurricache_cpp_client.Smart.Guard.Failover.{attempt-retry}

-- The answer to a call is a redirect to another master in `P`.
abbrev pub LeadsWithin : {A : Type 0} → (Text → Type 0) → World A → ℕ → Client → Type 0
LeadsWithin P world i c =
    (message : Text) × (trailer : Text) × (world.respond i (some c)
      ≡ failed (grpc failed_precondition message trailer))
    × IsRedirect message trailer
    × (names_other (some c) (route_targets (route_data message trailer)).0 ≡ true)
    × P (route_targets (route_data message trailer)).0

-- While each node of a set answers with a redirect to another master of the set, the attempts on a
-- client of the set do not end, whatever the fallback: no amount of fuel is enough.
pub attempt_with_guard-circles :
    {A : Type 0} (P : Text → Type 0) (world : World A)
    → ((i : ℕ) (c : Client) → P c.target → LeadsWithin P world i c)
    → (fuel : ℕ) (s : GuardState) (c : Client) (fallback : Option Client) → IsConsistent s.table
    → P c.target
    → attempt_with_guard world fuel s (some c) fallback ≡ none
unfolding attempt_with_guard
attempt_with_guard-circles P world circle zero s c fallback v here = refl
attempt_with_guard-circles P world circle (suc fuel) s c fallback v here =
    let (message, trailer, answer, redirect, named, there) = circle (length s.calls) c here in
    let tv : IsConsistent (call_node world s (some c)).table =
      unfold call_node in after_calls-IsConsistent s.table (world.others (length s.calls)) v in
    let (u, d, other_fallback, next, is_master, _, _, uv, _) =
      next_step-reroute (call_node world s (some c)) (some c) fallback message trailer tv redirect
        named in
    attempt-retry world fuel s (some c) fallback _ u (some d) other_fallback answer next
    ∙ attempt_with_guard-circles P world circle fuel u d other_fallback uv
        (subst P (sym is_master) there)
