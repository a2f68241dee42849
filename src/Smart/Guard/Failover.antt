-- ===== src/Smart/Guard/Failover.antt =====
-- `attemptWithGuard` of smart/src/smart_client.cpp where no node sends a redirect.
use hurricache_cpp_client.Prelude.{
  ℕ, suc, ◌≡◌, refl, ◌∙◌, ◌⊎◌, inl, inr, Bool, true, false, not, ◌&&◌, Option, none, some, arith,
  ◌==◌, if◌then◌else◌, Bool-cases, length,
}
use hurricache_cpp_client.Smart.Routing.{Client}
use hurricache_cpp_client.Smart.Guard.{
  failed_precondition, unavailable, Failure, grpc, other, Outcome, value, failed, World, GuardState,
  same_client, retry, raise, last_attempt, next_step, call_node, attempt_with_guard,
}

abbrev pub is_status : ℕ → Failure → Bool
is_status code (grpc c message trailer) = c == code
is_status code (other n) = false

pub Outcome-cases :
    {A : Type 0} (o : Outcome A) → ((a : A) × (o ≡ value a)) ⊎ ((e : Failure) × (o ≡ failed e))
Outcome-cases (value a) = inl (a, refl)
Outcome-cases (failed e) = inr (e, refl)

-- A fallback that is another client than the current one.
abbrev pub is_other : Option Client → Option Client → Bool
is_other current none = false
is_other current (some d) = not (same_client (some d) current)

-- An unavailable node starts a refresh of the routes.
abbrev pub counted : Failure → GuardState → GuardState
counted e s = if is_status unavailable e then record s { refreshes = suc s.refreshes } else s

module _ {A : Type 0} (world : World A) where
  abbrev pub one_attempt : GuardState → Option Client → Outcome A × GuardState
  one_attempt s current = elim (world.respond (length s.calls) current) [
    | value a ↦ (value a, call_node world s current)
    | failed e ↦ (failed e, counted e (call_node world s current))
  ]

  -- One attempt on the current client, and if its node is unavailable one on the fallback.
  abbrev pub two_attempts : GuardState → Option Client → Option Client → Outcome A × GuardState
  two_attempts s current fallback = elim (world.respond (length s.calls) current) [
    | value a ↦ (value a, call_node world s current)
    | failed e ↦
        if is_status unavailable e && is_other current fallback
        then one_attempt (counted e (call_node world s current)) fallback
        else (failed e, counted e (call_node world s current))
  ]

next_step-counted :
    (s : GuardState) (current fallback : Option Client) (e : Failure)
    → is_status failed_precondition e ≡ false
    → next_step s current fallback e ≡ (
        if is_status unavailable e && is_other current fallback
        then retry (counted e s) fallback none
        else raise (counted e s))
unfolding next_step last_attempt
next_step-counted s current none (other n) h = refl
next_step-counted s current (some d) (other n) h = refl
next_step-counted s current none (grpc c message trailer) h = ground arith
next_step-counted s current (some d) (grpc c message trailer) h = ground arith

and-false : (b : Bool) → (b && false) ≡ false
and-false true = refl
and-false false = refl

module _ {A : Type 0} (world : World A) (fuel : ℕ) (s : GuardState)
    (current fallback : Option Client) where
  pub attempt-value :
      (a : A)
      → world.respond (length s.calls) current ≡ value a
      → attempt_with_guard world (suc fuel) s current fallback
        ≡ some (value a, call_node world s current)
  unfolding attempt_with_guard
  attempt-value a e = rw (e, attempt_with_guard)

  pub attempt-retry :
      (e : Failure) (u : GuardState) (c d : Option Client)
      → world.respond (length s.calls) current ≡ failed e
      → next_step (call_node world s current) current fallback e ≡ retry u c d
      → attempt_with_guard world (suc fuel) s current fallback ≡ attempt_with_guard world fuel u c d
  unfolding attempt_with_guard
  attempt-retry e u c d answer next = rw (answer, attempt_with_guard) rw (next, attempt_with_guard)

  pub attempt-raise :
      (e : Failure) (u : GuardState)
      → world.respond (length s.calls) current ≡ failed e
      → next_step (call_node world s current) current fallback e ≡ raise u
      → attempt_with_guard world (suc fuel) s current fallback ≡ some (failed e, u)
  unfolding attempt_with_guard
  attempt-raise e u answer next = rw (answer, attempt_with_guard) rw (next, attempt_with_guard)

module _ {A : Type 0} (world : World A)
    (no_redirect : (i : ℕ) (c : Option Client) (e : Failure)
      → world.respond i c ≡ failed e
      → is_status failed_precondition e ≡ false) where
  last_try :
      (fuel : ℕ) (s : GuardState) (current : Option Client)
      → attempt_with_guard world (suc fuel) s current none ≡ some (one_attempt world s current)
  last_try fuel s current = elim (Outcome-cases (world.respond (length s.calls) current)) [
    | inl (a, e) ↦ attempt-value world fuel s current none a e ∙ rw (e, one_attempt)
    | inr (f, e) ↦
        attempt-raise world fuel s current none f (counted f (call_node world s current)) e (
          next_step-counted (call_node world s current) current none f (no_redirect _ _ f e)
          ∙ rw (and-false (is_status unavailable f)))
        ∙ rw (e, one_attempt)
  ]

  -- Where no node answers with a redirect, two calls are enough: the current client is called, and
  -- if its node is unavailable the fallback, if it is another client. What comes back is the
  -- answer of the last call, and each unavailable node has started one refresh.
  pub attempt_with_guard-two_attempts :
      (fuel : ℕ) (s : GuardState) (current fallback : Option Client)
      → attempt_with_guard world (suc (suc fuel)) s current fallback
        ≡ some (two_attempts world s current fallback)
  attempt_with_guard-two_attempts fuel s current fallback =
      elim (Outcome-cases (world.respond (length s.calls) current)) [
        | inl (a, e) ↦ attempt-value world (suc fuel) s current fallback a e ∙ rw (e, two_attempts)
        | inr (f, e) ↦
            let step =
              next_step-counted (call_node world s current) current fallback f
                (no_redirect _ _ f e) in
            elim (Bool-cases (is_status unavailable f && is_other current fallback)) [
              | inl q ↦
                  attempt-retry world (suc fuel) s current fallback f
                    (counted f (call_node world s current)) fallback none e (step ∙ rw q)
                  ∙ last_try fuel _ fallback
                  ∙ rw (e, two_attempts) rw q
              | inr q ↦
                  attempt-raise world (suc fuel) s current fallback f
                    (counted f (call_node world s current)) e (step ∙ rw q)
                  ∙ rw (e, two_attempts) rw q
            ]
      ]
