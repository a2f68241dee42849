-- ===== src/Smart/Coordinator/Refresh.antt =====
-- `refreshRouting` of smart/src/smart_client.cpp on what the coordinators stream.
use hurricache_cpp_client.Prelude.{
  ℕ, ◌≡◌, ap, ◌∙◌, Bool, true, false, ◌||◌, List, [], ◌∷◌, Option, none, some, suc, zero, ◌<◌,
  if◌then◌else◌, length, arith, inl, inr, is_empty, get_or,
}
use hurricache_cpp_client.Prelude.Dict.{Text}
use hurricache_cpp_client.Prelude.Int.{ℤ, pos, is_positive}
use hurricache_cpp_client.Rpc.{Outcome, value, failed, is_ok}
use hurricache_cpp_client.Smart.Execute.{SmartClient, RoutingInfo, refresh_routing, coordinator_at}
use hurricache_cpp_client.Smart.Execute.Refresh.{
  IsFirstAnswer, answer_at, routed_by, refresh_routing-attempts,
}
use hurricache_cpp_client.Smart.Coordinator.{
  routing_failure, CoordinatorClient, Coordinators, provide_global_routing_info,
}
use hurricache_cpp_client.Smart.Coordinator.Answers.{merged}
use hurricache_cpp_client.Smart.Coordinator.Routes.{
  IsUsed, routing_deadline, routing_outcome, provide_global_routing_info-merged,
}

-- `coord_timeout`: the client's timeout, or ten seconds.
abbrev pub coordinator_timeout : ℤ → ℤ
coordinator_timeout timeout = if is_positive timeout then timeout else pos 10000

-- `.get()` in a `try`: the info, or nothing where the future throws.
abbrev pub first_info : List (Outcome RoutingInfo) → Option RoutingInfo
first_info [] = none
first_info (value info ∷ r) = some info
first_info (failed e ∷ r) = none

-- The request of one attempt.
unfoldable pub ask_coordinator :
    CoordinatorClient → ℕ → Coordinators → ℤ → Text → Option RoutingInfo
ask_coordinator c now_ms network timeout target =
    first_info (provide_global_routing_info c now_ms network target (coordinator_timeout timeout)).1

-- A first answer at once is the one that counts.
IsFirstAnswer-at_once :
    (ask : Text → Option RoutingInfo) (s u : SmartClient) (n : ℕ) (info : RoutingInfo)
    → answer_at ask s (coordinator_at s 0) ≡ some info
    → 0 < n
    → IsFirstAnswer (coordinator_at s) ask s 0 n u
    → u ≡ routed_by s 0 info
IsFirstAnswer-at_once ask s u n info h some_left (inl (all, same)) =
    cc (all 0 (omega arith) (omega arith), h)
IsFirstAnswer-at_once ask s u n info h some_left
      (inr (zero, other_info, low, high, before, answer, same)) =
    ground (arith)
IsFirstAnswer-at_once ask s u n info h some_left
      (inr (suc k, other_info, low, high, before, answer, same)) =
    cc (before 0 (omega arith) (omega arith), h)

length-positive : (a b : Bool) (xs : List Text) → (a || is_empty xs || b) ≡ false → 0 < length xs
length-positive a b [] h = absurd (ground arith)
length-positive a b (x ∷ xs) h = omega arith

pub refresh_routing-merged :
    (c : CoordinatorClient) (now_ms : ℕ) (network : Coordinators) (timeout : ℤ) (s : SmartClient)
    → IsUsed c
    → c.is_shut_down ≡ false
    → (s.shutdown_requested || is_empty s.coordinators || s.is_updating) ≡ false
    → let stream =
        network
          (get_or s.coordinators (coordinator_at s 0) [])
          (routing_deadline now_ms (coordinator_timeout timeout)) in
      stream.opens ≡ true
      → is_ok stream.ending ≡ true
      → refresh_routing (ask_coordinator c now_ms network timeout) s
        ≡ routed_by s 0 (merged stream.chunks)
unfolding ask_coordinator
refresh_routing-merged c now_ms network timeout s used open_yet free opens good =
    let target = get_or s.coordinators (coordinator_at s 0) [] in
    let ask = ask_coordinator c now_ms network timeout in
    let stream = network target (routing_deadline now_ms (coordinator_timeout timeout)) in
    let info = merged stream.chunks in
    let outcome : routing_outcome stream ≡ value info =
      ap (λ b. routing_outcome (record stream { opens = b })) opens
      ∙ ap (λ b. if b then value info else failed (routing_failure stream.ending)) good in
    let answer : ask target ≡ some info =
      ap (λ (r : CoordinatorClient × List (Outcome RoutingInfo)). first_info r.1)
        (provide_global_routing_info-merged c now_ms network target (coordinator_timeout timeout)
          used open_yet)
      ∙ ap (λ o. first_info (o ∷ [])) outcome in
    IsFirstAnswer-at_once ask s (refresh_routing ask s) (length s.coordinators) info answer
      (length-positive s.shutdown_requested s.is_updating s.coordinators free)
      (refresh_routing-attempts ask s free)
