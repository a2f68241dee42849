-- ===== src/Smart/Execute/Refresh.antt =====
-- `refreshRouting` of smart/src/smart_client.cpp: which coordinator the routes are from.
use native.Mathlib.Nat.{mod-eq_of_lt, mod-eq-sub-mod}
use hurricache_cpp_client.Prelude.{
  ℕ, suc, zero, ◌+◌, ◌-◌, ◌%◌, ◌≤◌, ◌<◌, ◌≡◌, refl, ◌∙◌, ◌⊎◌, inl, inr, Bool-cases, true, false,
  ◌||◌, [], Option, none, some, arith, length, get_or, is_empty, Option-cases, ltb, if◌then◌else◌,
}
use hurricache_cpp_client.Prelude.Dict.{Text}
use hurricache_cpp_client.Smart.Routing.{update_from_coordinator}
use hurricache_cpp_client.Smart.Execute.{
  SmartClient, RoutingInfo, coordinator_at, refresh_loop, refresh_routing,
}

-- What the coordinator at an index answers.
abbrev pub answer_at : (Text → Option RoutingInfo) → SmartClient → ℕ → Option RoutingInfo
answer_at ask s idx = ask (get_or s.coordinators idx [])

-- The client with the routes of an answer.
abbrev pub routed_from : SmartClient → ℕ → RoutingInfo → SmartClient
routed_from s idx info = record s {
  table = update_from_coordinator s.table info.max_shards info.peers;
  active_coordinator = idx;
  is_ready = true;
}

-- The same for an attempt.
abbrev pub routed_by : SmartClient → ℕ → RoutingInfo → SmartClient
routed_by s i info = routed_from s (coordinator_at s i) info

-- The attempts from `a` on, `n` of them, at the indices that `turn` gives, end with the first answer,
-- or with none.
abbrev pub IsFirstAnswer :
    (ℕ → ℕ) → (Text → Option RoutingInfo) → SmartClient → ℕ → ℕ → SmartClient → Type 0
IsFirstAnswer turn ask s a n u =
    (((i : ℕ) → a ≤ i → i < a + n → answer_at ask s (turn i) ≡ none) × (u ≡ s))
    ⊎ ((k : ℕ) × (info : RoutingInfo) × (a ≤ k)
        × (k < a + n)
        × ((i : ℕ) → a ≤ i → i < k → answer_at ask s (turn i) ≡ none)
        × (answer_at ask s (turn k) ≡ some info)
        × (u ≡ routed_from s (turn k) info))

refresh_loop-IsFirstAnswer :
    (ask : Text → Option RoutingInfo) (n a : ℕ) (s : SmartClient)
    → IsFirstAnswer (coordinator_at s) ask s a n (refresh_loop ask n a s)
unfolding refresh_loop
refresh_loop-IsFirstAnswer ask zero a s = inl (λ i low high. absurd (omega arith), refl)
refresh_loop-IsFirstAnswer ask (suc n) a s =
    elim (Option-cases (answer_at ask s (coordinator_at s a))) [
      | inr (info, e) ↦ inr (
        a,
        info,
        omega arith,
        omega arith,
        λ i low high. absurd (omega arith),
        e,
        rw (e, refresh_loop),
      )
      | inl e ↦ elim (refresh_loop-IsFirstAnswer ask n (suc a) s) [
        | inl (all, same) ↦ inl (λ i low high. ground (arith, all i), rw (e, refresh_loop) same)
        | inr (k, info, low, high, before, answer, same) ↦ inr (
          k,
          info,
          omega arith,
          omega arith,
          λ i l h. ground (arith, before i),
          answer,
          rw (e, refresh_loop) same,
        )
      ]
    ]

pub refresh_routing-attempts :
    (ask : Text → Option RoutingInfo) (s : SmartClient)
    → (s.shutdown_requested || is_empty s.coordinators || s.is_updating) ≡ false
    → IsFirstAnswer (coordinator_at s) ask s 0 (length s.coordinators) (refresh_routing ask s)
unfolding refresh_routing
refresh_routing-attempts ask s free =
    rw free (refresh_loop-IsFirstAnswer ask (length s.coordinators) 0 s)

-- The `i`th place of a ring of `n` from the active one on: up to the last, then from the first.
abbrev pub place : ℕ → ℕ → ℕ → ℕ
place active n i = if ltb (active + i) n then active + i else active + i - n

mod-place : (active n i : ℕ) → active < n → i < n → (active + i) % n ≡ place active n i
mod-place active n i low high = elim (Bool-cases (ltb (active + i) n)) [
  | inl e ↦ rw e (mod-eq_of_lt (ground arith))
  | inr e ↦
      let round : n ≤ active + i = ground arith in
      rw e (mod-eq-sub-mod round ∙ mod-eq_of_lt (omega arith))
]

-- Attempts that take the same turns have the same first answer.
IsFirstAnswer-turns :
    (t r : ℕ → ℕ) (ask : Text → Option RoutingInfo) (s : SmartClient) (n : ℕ) (u : SmartClient)
    → ((i : ℕ) → i < n → t i ≡ r i)
    → IsFirstAnswer t ask s 0 n u
    → IsFirstAnswer r ask s 0 n u
IsFirstAnswer-turns t r ask s n u same (inl (all, kept)) =
    inl (λ i low high. rw (← same i (omega arith)) (all i low (omega arith)), kept)
IsFirstAnswer-turns t r ask s n u same (inr (k, info, low, high, before, answer, done)) =
    let here = same k (omega arith) in
    inr (
      k,
      info,
      low,
      high,
      λ i l h. rw (← same i (omega arith)) (before i l h),
      rw (← here) answer,
      rw (← here) done,
    )

-- A refresh that is not kept from its work asks the coordinators in turn, each once: the active one,
-- those behind it in the list, and then those before it, until one answers. The routes are then from
-- this one, it is the active one, and the client is ready. If none answers nothing is changed. The
-- index of the active one is in the list.
pub refresh_routing-IsFirstAnswer :
    (ask : Text → Option RoutingInfo) (s : SmartClient)
    → (s.shutdown_requested || is_empty s.coordinators || s.is_updating) ≡ false
    → s.active_coordinator < length s.coordinators
    → let n = length s.coordinators in
      IsFirstAnswer (place s.active_coordinator n) ask s 0 n (refresh_routing ask s)
refresh_routing-IsFirstAnswer ask s free active =
    let n = length s.coordinators in
    IsFirstAnswer-turns (coordinator_at s) (place s.active_coordinator n) ask s n
      (refresh_routing ask s) (λ i high. mod-place s.active_coordinator n i active high)
      (refresh_routing-attempts ask s free)
