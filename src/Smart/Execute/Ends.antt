-- ===== src/Smart/Execute/Ends.antt =====
-- `execute` of smart/src/smart_client.cpp under redirects that lead downwards.
use hurricache_cpp_client.Prelude.{
  ℕ, ◌+◌, ◌%◌, ◌≤◌, ◌<◌, ◌≡◌, refl, inl, inr, Bool, true, false, Option, none, some, arith, ◌==◌,
  ok,
}
use hurricache_cpp_client.Prelude.Dict.{Text}
use hurricache_cpp_client.Types.{KeyHint}
use hurricache_cpp_client.Smart.Routing.{Client}
use hurricache_cpp_client.Smart.Routing.History.{IsConsistent}
use hurricache_cpp_client.Smart.Guard.{
  failed_precondition, grpc, Outcome, failed, World, GuardState, route_data,
}
use hurricache_cpp_client.Smart.Guard.Settling.{cost, redirect_cost, attempt_with_guard-settles}
use hurricache_cpp_client.Smart.Execute.{
  SmartClient, no_endpoint, first_state, attempt_selected, execute,
}
use hurricache_cpp_client.Smart.Execute.Select.{select_clients-IsEndpoint}
use hurricache_cpp_client.Smart.Execute.Calls.{wait_ready-ready, pick_shard-hint}

module _ {A : Type 0} (world : World A) (w : Text → ℕ) (most : ℕ) where
  cost_at_most : ((n : Text) → w n ≤ most) → (c : Option Client) → cost w c ≤ most
  cost_at_most top none = omega arith
  cost_at_most top (some c) = top c.target

  -- If every node that redirects names targets that weigh together less than it does, itself left
  -- out, and no weight is zero or over a bound, then a call of a ready client whose table is
  -- consistent and has shards ends, with fuel of twice the bound, and leaves a consistent table.
  pub execute-settles :
      ((n : Text) → 0 < w n)
      → ((n : Text) → w n ≤ most)
      → ((i : ℕ) (c : Client) (message trailer : Text)
          → world.respond i (some c) ≡ failed (grpc failed_precondition message trailer)
          → redirect_cost w c (route_data message trailer) < w c.target)
      → (s waited : SmartClient) (h : KeyHint) (master_first : Bool) → s.is_ready ≡ true
      → IsConsistent s.table
      → (s.table.max_shards == 0) ≡ false
      → (o : Outcome A) × (u : SmartClient) × (g : GuardState) × (execute world
            (most + most)
            s
            waited
            (some h)
            master_first
          ≡ ok (some (o, u, g)))
        × IsConsistent u.table
  unfolding execute attempt_selected
  execute-settles low top down s waited h master_first ready v shards =
      elim (select_clients-IsEndpoint s (h.weak_hash % s.table.max_shards) master_first v) [
        | inl (m, b, e) ↦ (
          failed no_endpoint,
          s,
          first_state s,
          rw (wait_ready-ready s waited ready, execute) rw (pick_shard-hint s h shards) rw e refl,
          v,
        )
        | inr (c, fallback, e, _, _, _) ↦
            let (o, g, ends, gv) =
              attempt_with_guard-settles w world low down (most + most) (first_state s) c fallback v
                (both (w c.target) (cost w fallback) (top c.target) (cost_at_most top fallback)) in
            (
              o,
              record s { table = g.table },
              g,
              rw (wait_ready-ready s waited ready, execute) rw (pick_shard-hint s h shards) rw e rw
                  (ends, attempt_selected) refl,
              gv,
            )
      ]
    where
      both : (a b : ℕ) → a ≤ most → b ≤ most → a + b ≤ most + most
      both a b l k = omega arith
