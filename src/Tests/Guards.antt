-- ===== src/Tests/Guards.antt =====
-- `attemptWithGuard` of smart/src/smart_client.cpp in concrete worlds.
use hurricache_cpp_client.Prelude.{
  ◌≤◌, ℕ, ◌≡◌, ◌<◌, ◌⊎◌, inl, inr, refl, subst, false, [], ◌∷◌, ◌++◌, Option, none, some, arith,
  ◌==◌, if◌then◌else◌, Bool-cases,
}
use hurricache_cpp_client.Prelude.Dict.{Text, text_eq, ◌=?◌, text_eq_iff}
use hurricache_cpp_client.Smart.Routing.{Client, new_table, update_from_coordinator}
use hurricache_cpp_client.Smart.Routing.History.{IsConsistent}
use hurricache_cpp_client.Smart.Guard.{
  route_targets, trim_copy, trim_front, before_comma, after_comma, failed_precondition, unavailable,
  Failure, grpc, other, Outcome, value, failed, World, GuardState, target_of, route_data,
  attempt_with_guard,
}
use hurricache_cpp_client.Smart.Guard.Trim.{route_targets-pair}
use hurricache_cpp_client.Smart.Guard.Failover.{
  is_status, two_attempts, attempt_with_guard-two_attempts,
}
use hurricache_cpp_client.Smart.Guard.Settling.{redirect_cost, attempt_with_guard-settles}
use hurricache_cpp_client.Smart.Guard.Circling.{LeadsWithin, attempt_with_guard-circles}
use hurricache_cpp_client.Tests.Tables.{peers, client_a, client_b, table_of_peers-IsConsistent}

abbrev start : GuardState
start = record { table = update_from_coordinator new_table 2 peers; calls = []; refreshes = 0 }

-- The first client made is of a dead node, and the others answer with the number of the call.
abbrev pub dead_node : Option Client → ℕ → Outcome ℕ
dead_node none i = failed (other 9)
dead_node (some c) i = if c.id == 0 then failed (grpc unavailable [] []) else value i

abbrev pub failover_world : World ℕ
failover_world = record { respond = λ i c. dead_node c i; others = λ i. [] }

pub failover_world-no_redirect :
    (i : ℕ) (c : Option Client) (e : Failure)
    → failover_world.respond i c ≡ failed e
    → is_status failed_precondition e ≡ false
failover_world-no_redirect i none (grpc n s t) h = cc
failover_world-no_redirect i none (other n) h = refl
failover_world-no_redirect i (some c) (other n) h = refl
failover_world-no_redirect i (some c) (grpc n s t) h = elim (Bool-cases (c.id == 0)) [
  | inl e ↦ ground arith
  | inr e ↦ ground arith
]

attempt_with_guard-two_attempts_example :
    attempt_with_guard failover_world 2 start (some client_a) (some client_b)
    ≡ some (two_attempts failover_world start (some client_a) (some client_b))
attempt_with_guard-two_attempts_example =
    attempt_with_guard-two_attempts failover_world failover_world-no_redirect 0 start
      (some client_a) (some client_b)

-- The text `a , b` with blanks.
route_targets-pair_example :
    route_targets
      (((32 ∷ []) ++ ((97 ∷ []) ++ (32 ∷ []))) ++ 44 ∷ ((9 ∷ []) ++ ((98 ∷ []) ++ (10 ∷ []))))
    ≡ (97 ∷ [], 98 ∷ [])
route_targets-pair_example =
    route_targets-pair (32 ∷ []) (32 ∷ []) (9 ∷ []) (10 ∷ []) (97 ∷ []) (98 ∷ []) (refl, tt)
      (refl, tt) (refl, tt) (refl, tt) (record { front = refl; back = refl }) (refl, tt)
      (record { front = refl; back = refl })

-- Node `a` redirects to `b`, and the others answer.
abbrev pub settling_world : World ℕ
settling_world = record {
  respond = λ i c.
      if target_of c =? 97 ∷ [] then failed (grpc failed_precondition [] (98 ∷ [])) else value i;
  others = λ i. [];
}

abbrev pub weight : Text → ℕ
weight n = if n =? 97 ∷ [] then 2 else 1

pub weight_low : (n : Text) → 0 < weight n
weight_low n = ground arith

pub weight_top : (n : Text) → weight n ≤ 2
weight_top n = ground arith

pub settling_world-down :
    (i : ℕ) (c : Client) (message trailer : Text)
    → settling_world.respond i (some c) ≡ failed (grpc failed_precondition message trailer)
    → redirect_cost weight c (route_data message trailer) < weight c.target
unfolding route_targets trim_copy trim_front before_comma after_comma
settling_world-down i c message trailer h = elim (Bool-cases (c.target =? 97 ∷ [])) [
  | inr e ↦ ground arith
  | inl e ↦
      let here = (text_eq_iff c.target (97 ∷ [])).0 e in
      let no_message : [] ≡ message = ground arith in
      let to_b : 98 ∷ [] ≡ trailer = ground arith in
      subst (λ m. redirect_cost weight c (route_data m trailer) < weight c.target) no_message
        (subst (λ t. redirect_cost weight c (route_data [] t) < weight c.target) to_b
          (rw here (omega arith)))
]

attempt_with_guard-settles_example :
    (o : Outcome ℕ) × (u : GuardState) × (attempt_with_guard settling_world 3 start
        (some client_a)
        (some client_b)
      ≡ some (o, u))
    × IsConsistent u.table
attempt_with_guard-settles_example =
    attempt_with_guard-settles weight settling_world weight_low settling_world-down 3 start client_a
      (some client_b) table_of_peers-IsConsistent (omega arith)

-- Nodes `a` and `b` each redirect to the other.
abbrev OfPair : Text → Type 0
OfPair n = (n ≡ 97 ∷ []) ⊎ (n ≡ 98 ∷ [])

abbrev circling_world : World ℕ
circling_world = record {
  respond = λ i c.
      if target_of c =? 97 ∷ []
      then failed (grpc failed_precondition [] (98 ∷ []))
      else failed (grpc failed_precondition [] (97 ∷ []));
  others = λ i. [];
}

circling_world-LeadsWithin :
    (i : ℕ) (c : Client) → OfPair c.target → LeadsWithin OfPair circling_world i c
unfolding route_targets trim_copy trim_front before_comma after_comma
circling_world-LeadsWithin i c (inl e) = ([], 98 ∷ [], rw e, refl, rw e, inr refl)
circling_world-LeadsWithin i c (inr e) = ([], 97 ∷ [], rw e, refl, rw e, inl refl)

attempt_with_guard-circles_example :
    attempt_with_guard circling_world 1000 start (some client_a) (some client_b) ≡ none
attempt_with_guard-circles_example =
    attempt_with_guard-circles OfPair circling_world circling_world-LeadsWithin 1000 start client_a
      (some client_b) table_of_peers-IsConsistent (inl refl)
