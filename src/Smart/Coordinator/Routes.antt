-- ===== src/Smart/Coordinator/Routes.antt =====
-- smart/src/coordinator_client.cpp, `provideGlobalRoutingInfo` of a client that has been in use.
use hurricache_cpp_client.Prelude.{
  ℕ, ◌+◌, ◌≡◌, sym, ap, ◌∙◌, Bool, true, false, List, [], ◌∷◌, Option, none, some, if◌then◌else◌,
  length, arith, subst, inl, inr, Option-cases,
}
use hurricache_cpp_client.Prelude.Dict.{Text, text_eq, text_eq_iff}
use hurricache_cpp_client.Prelude.Int.{ℤ, is_positive, pos_part}
use hurricache_cpp_client.Rpc.{Outcome, value, failed, Ending, is_ok, new_stream_call}
use hurricache_cpp_client.Rpc.Streams.{run_queue, sum_of}
use hurricache_cpp_client.Rpc.Streams.Queue.{run_queue-outcome}
use hurricache_cpp_client.Smart.Execute.{RoutingInfo}
use hurricache_cpp_client.Smart.Coordinator.{
  RoutingInfoData, info_or_new, add_chunk, routing_failure, routing_proceed, CoordinatorClient,
  new_coordinator_client, shut_down_coordinator, ensure_stub, coordinator_shut_down, stream_routing,
  RoutingStream, Coordinators, provide_global_routing_info,
}
use hurricache_cpp_client.Smart.Coordinator.Answers.{
  routing_proceed-IsMachine, merged, sum_of-merged, until_throw-all,
}

-- What a coordinator's client has been through.
pub data IsUsed : CoordinatorClient → Type 0 where
  created : IsUsed new_coordinator_client
  asked : {c : CoordinatorClient} → (target : Text) → IsUsed c → IsUsed (ensure_stub c target).0
  closed : {c : CoordinatorClient} → IsUsed c → IsUsed (shut_down_coordinator c)

-- The stub is one for the active target.
abbrev IsTargeted : CoordinatorClient → Type 0
IsTargeted c = (t : Text) → c.stub ≡ some t → c.active_target ≡ t

ensure_stub-target :
    (c : CoordinatorClient) (target : Text)
    → IsTargeted c
    → (ensure_stub c target ≡ (record c { active_target = target; stub = some target }, target))
unfolding ensure_stub
ensure_stub-target c target fits = elim (Option-cases c.stub) [
  | inl e ↦ ground arith
  | inr (t, e) ↦ ground (arith, fits t e, (text_eq_iff c.active_target target).0)
]

IsUsed-IsTargeted : {c : CoordinatorClient} → IsUsed c → IsTargeted c
unfolding shut_down_coordinator
IsUsed-IsTargeted created t h = cc
IsUsed-IsTargeted (asked {c} target used) t h =
    let e = ensure_stub-target c target (IsUsed-IsTargeted used) in
    subst (λ r. r.0.stub ≡ some t → r.0.active_target ≡ t) (sym e) (λ g. cc) h
IsUsed-IsTargeted (closed {c} used) t h = ground (arith, IsUsed-IsTargeted used t)

abbrev pub routing_deadline : ℕ → ℤ → Option ℕ
routing_deadline now_ms timeout =
    if is_positive timeout then some (now_ms + pos_part timeout) else none

-- What the promise of a stream gets.
abbrev pub routing_outcome : RoutingStream → Outcome RoutingInfo
routing_outcome stream =
    if is_ok stream.ending
    then value (merged (if stream.opens then stream.chunks else []))
    else failed (routing_failure stream.ending)

abbrev settled : RoutingStream → List (Outcome RoutingInfo)
settled stream =
    let call =
      run_queue routing_proceed stream.opens stream.ending (length stream.chunks + 3) stream.chunks
        (new_stream_call none) in
    call.promise

settled-outcome :
    (opens : Bool) (chunks : List RoutingInfoData) (ending : Ending)
    → let stream : RoutingStream = record { opens = opens; chunks = chunks; ending = ending } in
      settled stream ≡ routing_outcome stream ∷ []
unfolding sum_of
settled-outcome true chunks ending =
    let h =
      run_queue-outcome routing_proceed-IsMachine none true ending (length chunks + 3) chunks
        (omega arith) in
    let e =
      ap (λ xs. info_or_new (sum_of add_chunk none xs)) (until_throw-all none chunks)
      ∙ sum_of-merged chunks in
    h.1 ∙ ap (λ r. (if is_ok ending then value r else failed (routing_failure ending)) ∷ []) e
settled-outcome false chunks ending =
    let h =
      run_queue-outcome routing_proceed-IsMachine none false ending (length chunks + 3) chunks
        (omega arith) in
    h.1
    ∙ ap (λ r. (if is_ok ending then value r else failed (routing_failure ending)) ∷ [])
        (sum_of-merged [])

-- Whatever targets a coordinator's client has been asked for before, a request that it takes is
-- answered by the target that is asked for, to which it is then connected. Its promise gets one
-- thing: if the stream ends OK the shards of the first chunk that has any, with the peers of all
-- chunks in their order (none at all if the stream did not open), and else the status.
pub provide_global_routing_info-merged :
    (c : CoordinatorClient) (now_ms : ℕ) (network : Coordinators) (target : Text) (timeout : ℤ)
    → IsUsed c
    → c.is_shut_down ≡ false
    → let stream = network target (routing_deadline now_ms timeout) in
      provide_global_routing_info c now_ms network target timeout ≡ (
        record c { active_target = target; stub = some target },
        (if is_ok stream.ending
              then value (merged (if stream.opens then stream.chunks else []))
              else failed (routing_failure stream.ending))
            ∷ [],
      )
unfolding provide_global_routing_info stream_routing
provide_global_routing_info-merged c now_ms network target timeout used open_yet =
    let stream = network target (routing_deadline now_ms timeout) in
    ap
      (λ b.
        if b
        then (c, failed coordinator_shut_down ∷ [])
        else stream_routing now_ms network timeout (ensure_stub c target))
      open_yet
    ∙ ap (stream_routing now_ms network timeout)
        (ensure_stub-target c target (IsUsed-IsTargeted used))
    ∙ ap (λ p. (record c { active_target = target; stub = some target }, p))
        (settled-outcome stream.opens stream.chunks stream.ending)
