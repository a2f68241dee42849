-- ===== src/Rpc/Unary.antt =====
-- `SendAsyncRequest` and `RpcCallData` of common/include/utils.hxx: what a single call comes to.
use hurricache_cpp_client.Prelude.{
  ℕ, ◌+◌, ◌<◌, ◌≡◌, ◌≢◌, refl, sym, subst, ◌==◌, ◌⊎◌, inl, inr, true, false, Bool-cases, List, [],
  ◌∷◌, Option, none, some, arith, ltb,
}
use hurricache_cpp_client.Prelude.Dict.{Text, text_eq, text_eq_iff, lookup, ◌=?◌}
use hurricache_cpp_client.Prelude.Int.{ℤ, pos, negsuc, is_positive}
use hurricache_cpp_client.Rpc.{
  Answer, Outcome, failed, grpc, Channel, Node, client_shut_down, route_key, extract_route_trailer,
  status_failure, call_deadline, unary_proceed, send_async_request,
}

-- The deadline of a call: its own timeout behind now, else the client's, and none if neither is over 0.
pub data IsDeadline (now_ms : ℕ) : ℤ → ℤ → Option ℕ → Type 0 where
  of_call : {default : ℤ} (t : ℕ) → 0 < t → IsDeadline now_ms default (pos t) (some (now_ms + t))
  of_client :
      {timeout : ℤ} (t : ℕ)
      → is_positive timeout ≡ false
      → 0 < t
      → IsDeadline now_ms (pos t) timeout (some (now_ms + t))
  unlimited :
      {default timeout : ℤ}
      → is_positive timeout ≡ false
      → is_positive default ≡ false
      → IsDeadline now_ms default timeout none

-- The route of some trailers: the value of the first one with its key, and empty without one.
pub data IsRoute : List (Text × Text) → Text → Type 0 where
  no_route : IsRoute [] []
  this : {rest : List (Text × Text)} (route : Text) → IsRoute ((route_key, route) ∷ rest) route
  later :
      {rest : List (Text × Text)} {route : Text} (k v : Text)
      → k ≢ route_key
      → IsRoute rest route
      → IsRoute ((k, v) ∷ rest) route

limited_by_client :
    (now_ms : ℕ) (default timeout : ℤ)
    → is_positive timeout ≡ false
    → IsDeadline now_ms default timeout (call_deadline default now_ms timeout)
unfolding call_deadline
limited_by_client now_ms (pos t) timeout h = elim (Bool-cases (ltb 0 t)) [
  | inl e ↦ rw h rw e (of_client t h (ground arith))
  | inr e ↦ rw h rw e (unlimited h e)
]
limited_by_client now_ms (negsuc t) timeout h = rw h (unlimited h refl)

call_deadline-IsDeadline :
    (now_ms : ℕ) (default timeout : ℤ)
    → IsDeadline now_ms default timeout (call_deadline default now_ms timeout)
call_deadline-IsDeadline now_ms default (pos t) = elim (Bool-cases (ltb 0 t)) [
  | inl e ↦ unfold call_deadline in rw e rw e (of_call t (ground arith))
  | inr e ↦ limited_by_client now_ms default (pos t) e
]
call_deadline-IsDeadline now_ms default (negsuc t) =
    limited_by_client now_ms default (negsuc t) refl

extract_route_trailer-IsRoute :
    (trailers : List (Text × Text)) → IsRoute trailers (extract_route_trailer trailers)
unfolding extract_route_trailer lookup
extract_route_trailer-IsRoute [] = no_route
extract_route_trailer-IsRoute ((k, v) ∷ rest) = elim (Bool-cases (k =? route_key)) [
  | inl e ↦
      let same = (text_eq_iff k route_key).0 e in
      rw (e, extract_route_trailer) (subst (λ j. IsRoute ((j, v) ∷ rest) v) (sym same) (this v))
  | inr e ↦
      let differs : k ≢ route_key = λ same. cc ((text_eq_iff k route_key).1 same, e) in
      rw (e, extract_route_trailer) (later k v differs (extract_route_trailer-IsRoute rest))
]

unary_proceed-cases :
    {Response Result : Type 0} (f : Response → Outcome Result) (a : Answer Response)
    → let status = a.ending.status in
      ((a.completed ≡ false ⊎ status.code ≢ 0)
        × (route : Text) × IsRoute a.ending.trailers route
        × (unary_proceed (some f) a ≡ failed (grpc status.code status.message route)))
      ⊎ ((a.completed ≡ true) × (status.code ≡ 0) × (unary_proceed (some f) a ≡ f a.response))
unfolding unary_proceed status_failure
unary_proceed-cases f a =
    let route = extract_route_trailer a.ending.trailers in
    let routed = extract_route_trailer-IsRoute a.ending.trailers in
    elim (Bool-cases a.completed) [
      | inr e ↦ inl (inl e, route, routed, rw e refl)
      | inl e ↦ elim (Bool-cases (a.ending.status.code == 0)) [
        | inl q ↦ inr (e, ground arith, rw e rw q refl)
        | inr q ↦ inl (inr (ground arith), route, routed, rw e rw q refl)
      ]
    ]

-- A single call with a transformer fails with "shut down", and reaches no node, exactly where the
-- client is shut down. Else the node has the request with the deadline of the call's own timeout, or
-- else of the client's, or with none. The call then fails with the code and the message that the node
-- reports and the route of its trailers, where gRPC did not complete it or the code is not 0, and else
-- it is what the transformer makes of the response.
pub send_async_request-cases :
    {Request Response Result : Type 0}
    → (channel : Channel) (now_ms : ℕ) (node : Node Request Response) (request : Request)
      (timeout : ℤ) (f : Response → Outcome Result)
    → let sent = send_async_request channel now_ms node request timeout (some f) in
      ((channel.is_shut_down ≡ true) × (sent ≡ failed client_shut_down))
      ⊎ ((channel.is_shut_down ≡ false)
          × (d : Option ℕ) × IsDeadline now_ms channel.default_timeout timeout d
          × let a = node d request in
            let status = a.ending.status in
            ((a.completed ≡ false ⊎ status.code ≢ 0)
              × (route : Text) × IsRoute a.ending.trailers route
              × (sent ≡ failed (grpc status.code status.message route)))
            ⊎ ((a.completed ≡ true) × (status.code ≡ 0) × (sent ≡ f a.response)))
unfolding send_async_request
send_async_request-cases channel now_ms node request timeout f =
    let d = call_deadline channel.default_timeout now_ms timeout in
    let limited = call_deadline-IsDeadline now_ms channel.default_timeout timeout in
    elim (Bool-cases channel.is_shut_down) [
      | inl e ↦ inl (e, rw e refl)
      | inr e ↦ inr (e, d, limited, rw e (unary_proceed-cases f (node d request)))
    ]
