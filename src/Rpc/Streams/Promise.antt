-- ===== src/Rpc/Streams/Promise.antt =====
-- `StreamCallData` of common/include/utils.hxx: what the promise of a stream is given.
use hurricache_cpp_client.Prelude.{
  ◌⊎◌, inl, inr, ◌≡◌, refl, sym, ap, subst, ◌∙◌, ◌≢◌, Bool, true, false, List, [], ◌∷◌, ◌++◌,
  Option, none, some, if◌then◌else◌,
}
use hurricache_cpp_client.Rpc.{
  Failure, Ending, started, reading, finishing, Pending, start_call, read, finish, deleted,
  StreamCall, new_stream_call, to_finish, accumulator_threw,
}
use hurricache_cpp_client.Rpc.Streams.{
  StreamRun, here, opened, chunk_read, stream_ended, finished, IsMachine, sum_of, outcome_of,
}

sum_of-snoc :
    {Chunk Sum : Type 0} (sum : Sum → Chunk → Sum) (s : Sum) (xs : List Chunk) (x : Chunk)
    → sum_of sum s (xs ++ (x ∷ [])) ≡ sum (sum_of sum s xs) x
unfolding sum_of
sum_of-snoc sum s [] x = refl
sum_of-snoc sum s (y ∷ ys) x = sum_of-snoc sum (sum s y) ys x

module _ {Chunk Sum Result : Type 0}
    {proceed : Bool → StreamCall Chunk Sum Result → StreamCall Chunk Sum Result}
    {sum : Sum → Chunk → Sum} {throws : Sum → Chunk → Bool} {result : Sum → Result}
    {failure : Ending → Failure} (machine : IsMachine proceed sum throws result failure)
    (empty : Sum) where
  -- The state, the promise and the sum, as they are while each operation is pending.
  abbrev IsAt : Pending → List Chunk → Option Ending → StreamCall Chunk Sum Result → Type 0
  IsAt start_call xs e d =
      (d.state ≡ started)
      × (d.promise ≡ [])
      × (xs ≡ [])
      × (e ≡ none)
      × (d.accumulated_result ≡ empty)
  IsAt read xs e d =
      (d.state ≡ reading)
      × (d.promise ≡ [])
      × (e ≡ none)
      × (d.accumulated_result ≡ sum_of sum empty xs)
  IsAt finish xs e d =
      (d.state ≡ finishing)
      × (d.promise ≡ [])
      × (e ≡ none)
      × (d.accumulated_result ≡ sum_of sum empty xs)
  IsAt deleted xs e d =
      (s : Ending) × (e ≡ some s)
      × (d.promise ≡ outcome_of result failure (sum_of sum empty xs) s ∷ [])

  -- Nothing yet, or all that the promise is given.
  abbrev pub IsSettled : List Chunk → Option Ending → StreamCall Chunk Sum Result → Type 0
  IsSettled xs e d =
      ((d.pending ≢ deleted) × (d.promise ≡ []))
      ⊎ ((d.pending ≡ deleted)
          × ((s : Ending) × (e ≡ some s)
              × (d.promise ≡ outcome_of result failure (sum_of sum empty xs) s ∷ [])))

  abbrev Holds : List Chunk → Option Ending → StreamCall Chunk Sum Result → Type 0
  Holds xs e d = IsAt d.pending xs e d

  at :
      (p : Pending) (xs : List Chunk) (e : Option Ending) (d : StreamCall Chunk Sum Result)
      → d.pending ≡ p
      → Holds xs e d
      → IsAt p xs e d
  at p xs e d h holds = subst (λ q. IsAt q xs e d) h holds

  opened-Holds :
      (completed : Bool) (xs : List Chunk) (e : Option Ending) (d : StreamCall Chunk Sum Result)
      → IsAt start_call xs e d
      → Holds xs e (proceed completed d)
  unfolding sum_of
  opened-Holds true xs e d (a, b, c, f, g) =
      subst (λ r. Holds xs e r) (sym (machine.at_start true d a)) (rw c (refl, b, f, g))
  opened-Holds false xs e d (a, b, c, f, g) =
      subst (λ r. Holds xs e r) (sym (machine.at_start false d a)) (rw c (refl, b, f, g))

  summed :
      (x : Chunk) (xs : List Chunk) (d : StreamCall Chunk Sum Result)
      → d.accumulated_result ≡ sum_of sum empty xs
      → sum d.accumulated_result x ≡ sum_of sum empty (xs ++ (x ∷ []))
  summed x xs d g = ap (λ s. sum s x) g ∙ sym (sum_of-snoc sum empty xs x)

  chunk_read-Holds :
      (x : Chunk) (xs : List Chunk) (e : Option Ending) (d : StreamCall Chunk Sum Result)
      → IsAt read xs e d
      → Holds (xs ++ (x ∷ [])) e (proceed true (record d { current_chunk = some x }))
  chunk_read-Holds x xs e d (a, b, f, g) =
      let step = machine.at_chunk x d a in
      subst (λ r. Holds (xs ++ (x ∷ [])) e r) (sym step)
        (elim (throws d.accumulated_result x)
          as (λ t. Holds (xs ++ (x ∷ [])) e (
            if t
            then to_finish (record d {
              current_chunk = some x;
              accumulated_result = sum d.accumulated_result x;
              ending = accumulator_threw;
            })
            else record d {
              current_chunk = some x;
              accumulated_result = sum d.accumulated_result x;
              pending = read;
            })) [ true ↦ (refl, b, f, summed x xs d g) | false ↦ (a, b, f, summed x xs d g) ])

  stream_ended-Holds :
      (xs : List Chunk) (e : Option Ending) (d : StreamCall Chunk Sum Result)
      → IsAt read xs e d
      → Holds xs e (proceed false d)
  stream_ended-Holds xs e d (a, b, f, g) =
      subst (λ r. Holds xs e r) (sym (machine.at_end d a)) (refl, b, f, g)

  finished-Holds :
      (s : Ending) (xs : List Chunk) (e : Option Ending) (d : StreamCall Chunk Sum Result)
      → IsAt finish xs e d
      → Holds xs (some s) (proceed true (record d { ending = s }))
  finished-Holds s xs e d (a, b, f, g) =
      subst (λ r. Holds xs (some s) r) (sym (machine.at_finish (record d { ending = s }) a))
        (s, refl, rw (b, g))

  StreamRun-Holds :
      {xs : List Chunk} {e : Option Ending} {d : StreamCall Chunk Sum Result}
      → StreamRun proceed (new_stream_call empty) xs e d
      → Holds xs e d
  unfolding sum_of
  StreamRun-Holds here = (refl, refl, refl, refl, refl)
  StreamRun-Holds (opened {xs} {e} {d} completed r h) =
      opened-Holds completed xs e d (at start_call xs e d h (StreamRun-Holds r))
  StreamRun-Holds (chunk_read {xs} {e} {d} x r h) =
      chunk_read-Holds x xs e d (at read xs e d h (StreamRun-Holds r))
  StreamRun-Holds (stream_ended {xs} {e} {d} r h) =
      stream_ended-Holds xs e d (at read xs e d h (StreamRun-Holds r))
  StreamRun-Holds (finished {xs} {e} {d} s r h) =
      finished-Holds s xs e d (at finish xs e d h (StreamRun-Holds r))

  settled :
      (p : Pending) (xs : List Chunk) (e : Option Ending) (d : StreamCall Chunk Sum Result)
      → d.pending ≡ p
      → IsAt p xs e d
      → IsSettled xs e d
  settled start_call xs e d h holds = inl (λ k. cc, holds.1)
  settled read xs e d h holds = inl (λ k. cc, holds.1)
  settled finish xs e d h holds = inl (λ k. cc, holds.1)
  settled deleted xs e d h holds = inr (h, holds)

  -- However gRPC completes the operations of a stream, its promise is given nothing while an
  -- operation is pending, and exactly one thing in all: what the chunks read add up to if `Finish`
  -- reports OK, and else an exception with the status that it reports.
  pub StreamRun-outcome :
      (xs : List Chunk) (e : Option Ending) (d : StreamCall Chunk Sum Result)
      → StreamRun proceed (new_stream_call empty) xs e d
      → IsSettled xs e d
  StreamRun-outcome xs e d r = settled d.pending xs e d refl (StreamRun-Holds r)
