-- ===== src/Smart/Guard/Settling.antt =====
-- `attemptWithGuard` of smart/src/smart_client.cpp under redirects that lead downwards.
use hurricache_cpp_client.Prelude.{
  ℕ, suc, zero, ◌+◌, ◌≤◌, ◌<◌, ◌≡◌, refl, ap, sym, subst, ◌∙◌, ◌⊎◌, inl, inr, true, false, not,
  ◌&&◌, Option, none, some, arith, ◌==◌, if◌then◌else◌, is_empty, Bool-cases, length,
}
use hurricache_cpp_client.Prelude.Dict.{Text, text_eq}
use hurricache_cpp_client.Smart.Routing.{Client, RoutingTable, get_or_create_by_target}
use hurricache_cpp_client.Smart.Routing.History.{
  IsConsistent, after_calls-IsConsistent, get_or_create_by_target-IsConsistent,
  get_or_create_by_target-named,
}
use hurricache_cpp_client.Smart.Guard.{
  trim_copy, route_targets, failed_precondition, unavailable, Failure, grpc, other, Outcome, value,
  failed, World, GuardState, same_client, redirect_client, Next, retry, raise, last_attempt,
  reroute_step, route_data, next_step, call_node, attempt_with_guard,
}
use hurricache_cpp_client.Smart.Guard.Steps.{names_other, redirect_named, redirect_unnamed}
use hurricache_cpp_client.Smart.Guard.Failover.{
  Outcome-cases, attempt-value, attempt-retry, attempt-raise,
}

redirect_client-cases :
    (t : RoutingTable) (c : Client) (n : Text)
    → IsConsistent t
    → ((names_other (some c) n ≡ true)
        × (found : Client × RoutingTable) × (redirect_client t c.target n ≡ (some found.0, found.1))
        × (found.0.target ≡ n)
        × IsConsistent found.1)
      ⊎ ((names_other (some c) n ≡ false) × (redirect_client t c.target n ≡ (none, t)))
redirect_client-cases t c n v = elim (Bool-cases (names_other (some c) n)) [
  | inl e ↦ inl (
    e,
    get_or_create_by_target t n,
    redirect_named t (some c) n e,
    (get_or_create_by_target-named t n v).0,
    get_or_create_by_target-IsConsistent t n v,
  )
  | inr e ↦ inr (e, redirect_unnamed t (some c) n e)
]

above : (a b c : ℕ) → a < b → a < b + c
above a b c h = omega arith

below : (a b n : ℕ) → a < b → b ≤ suc n → a ≤ n
below a b n h k = omega arith

above_zero : (a b c : ℕ) → 0 + a < b → a < b + c
above_zero a b c h = omega arith

with_fallback : (b c : ℕ) → 0 < b → c < b + c
with_fallback b c h = omega arith

above_fallback : (a b c : ℕ) → a + 0 < b → a + c < b + c
above_fallback a b c h = omega arith

module _ (w : Text → ℕ) where
  abbrev pub cost : Option Client → ℕ
  cost none = 0
  cost (some c) = w c.target

  -- The weight of a target that a redirect of a node names, unless it is the node itself.
  abbrev pub named_cost : Client → Text → ℕ
  named_cost c n = if names_other (some c) n then w n else 0

  abbrev pub redirect_cost : Client → Text → ℕ
  redirect_cost c text =
      let (master, backup) = route_targets text in named_cost c master + named_cost c backup

  -- An end, or one more attempt of less weight.
  abbrev IsSmaller : ℕ → Next → Type 0
  IsSmaller n next =
      ((u : GuardState) × (next ≡ raise u) × IsConsistent u.table)
      ⊎ ((u : GuardState) × (d : Client) × (fallback : Option Client) × (next
            ≡ retry u (some d) fallback)
          × IsConsistent u.table
          × (w d.target + cost fallback < n))

  last_attempt-IsSmaller :
      (s : GuardState) (current fallback : Option Client) (n : ℕ)
      → IsConsistent s.table
      → cost fallback < n
      → IsSmaller n (last_attempt s current fallback)
  unfolding last_attempt
  last_attempt-IsSmaller s current none n v h = inl (s, refl, v)
  last_attempt-IsSmaller s current (some d) n v h =
      elim (Bool-cases (same_client (some d) current)) [
        | inl e ↦ inl (s, rw e, v)
        | inr e ↦ inr (s, d, none, rw e, v, omega arith)
      ]

  reroute_step-IsSmaller :
      (s : GuardState) (c : Client) (fallback : Option Client) (text : Text)
      → IsConsistent s.table
      → redirect_cost c text < w c.target
      → IsSmaller (w c.target + cost fallback) (reroute_step s (some c) fallback text)
  unfolding reroute_step
  reroute_step-IsSmaller s c fallback text v h =
      let (master, backup) = route_targets text in
      elim (redirect_client-cases s.table c master v) [
        | inl (p, (m, t), e, is_master, tv) ↦ elim (redirect_client-cases t c backup tv) [
          | inl (q, (b, u), f, is_backup, uv) ↦ inr (
            record s { table = u },
            m,
            some b,
            rw (e, reroute_step) rw e rw f refl,
            uv,
            rw is_master rw is_backup
                (above (w master + w backup) (w c.target) (cost fallback) (rw (p, q) at h)),
          )
          | inr (q, f) ↦ inr (
            record s { table = t },
            m,
            fallback,
            rw (e, reroute_step) rw e rw f refl,
            tv,
            rw is_master (above_fallback (w master) (w c.target) (cost fallback) (rw (p, q) at h)),
          )
        ]
        | inr (p, e) ↦ elim (redirect_client-cases s.table c backup v) [
          | inl (q, (b, u), f, is_backup, uv) ↦
              subst (IsSmaller (w c.target + cost fallback))
                (sym (rw (e, reroute_step) rw e rw f refl))
                (last_attempt-IsSmaller (record s { table = u }) (some c) (some b) _ uv
                  (rw is_backup
                    (above_zero (w backup) (w c.target) (cost fallback) (rw (p, q) at h))))
          | inr (q, f) ↦
              subst (IsSmaller (w c.target + cost fallback))
                (sym (rw (e, reroute_step) rw e rw f refl))
                (last_attempt-IsSmaller (record s { table = s.table }) (some c) fallback _ v
                  (with_fallback (w c.target) (cost fallback) (rw (p, q) at h)))
        ]
      ]

  next_step-IsSmaller :
      (s : GuardState) (c : Client) (fallback : Option Client) (e : Failure)
      → IsConsistent s.table
      → 0 < w c.target
      → ((message trailer : Text)
          → e ≡ grpc failed_precondition message trailer
          → redirect_cost c (route_data message trailer) < w c.target)
      → IsSmaller (w c.target + cost fallback) (next_step s (some c) fallback e)
  unfolding next_step
  next_step-IsSmaller s c fallback (other n) v low h = inl (s, refl, v)
  next_step-IsSmaller s c fallback (grpc code message trailer) v low h =
      let text = route_data message trailer in
      elim (Bool-cases (code == failed_precondition && not (is_empty (trim_copy text)))) [
        | inl e ↦
            rw e (reroute_step-IsSmaller s c fallback text v (h message trailer (ground arith)))
        | inr e ↦ elim (Bool-cases (code == unavailable)) [
          | inl q ↦ rw e rw q (
              last_attempt-IsSmaller _ (some c) fallback (w c.target + cost fallback) v
                (with_fallback (w c.target) (cost fallback) low))
          | inr q ↦ rw e rw q (inl (s, refl, v))
        ]
      ]

  module _ {A : Type 0} (world : World A) (low : (n : Text) → 0 < w n) where
    -- If every node that redirects names targets that weigh together less than it does, itself left out, then
    -- the attempts on a client end: fuel of the weights of it and its fallback is enough. The table
    -- is consistent behind them.
    pub attempt_with_guard-settles :
        ((i : ℕ) (c : Client) (message trailer : Text)
          → world.respond i (some c) ≡ failed (grpc failed_precondition message trailer)
          → redirect_cost c (route_data message trailer) < w c.target)
        → (fuel : ℕ) (s : GuardState) (c : Client) (fallback : Option Client) → IsConsistent s.table
        → w c.target + cost fallback ≤ fuel
        → (o : Outcome A) × (u : GuardState) × (attempt_with_guard world fuel s (some c) fallback
            ≡ some (o, u))
          × IsConsistent u.table
    attempt_with_guard-settles down zero s c fallback v enough =
        absurd (omega (arith, low c.target))
    attempt_with_guard-settles down (suc fuel) s c fallback v enough =
        let t = call_node world s (some c) in
        let tv : IsConsistent t.table =
          unfold call_node in after_calls-IsConsistent s.table (world.others (length s.calls)) v in
        elim (Outcome-cases (world.respond (length s.calls) (some c))) [
          | inl (a, e) ↦ (value a, t, attempt-value world fuel s (some c) fallback a e, tv)
          | inr (f, e) ↦
              elim (next_step-IsSmaller t c fallback f tv (low c.target)
                (λ message trailer q. down (length s.calls) c message trailer (e ∙ ap failed q))) [
                  | inl (u, stop, uv) ↦
                      (failed f, u, attempt-raise world fuel s (some c) fallback f u e stop, uv)
                  | inr (u, d, other_fallback, next, uv, less) ↦
                      let (o, z, ends, zv) =
                        attempt_with_guard-settles down fuel u d other_fallback uv
                          (below _ (w c.target + cost fallback) fuel less enough) in
                      (
                        o,
                        z,
                        attempt-retry world fuel s (some c) fallback f u (some d) other_fallback e
                              next
                            ∙ ends,
                        zv,
                      )
                ]
        ]
