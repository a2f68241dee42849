-- ===== src/Rpc/Streams/Queue.antt =====
-- `RunCompletionQueue` of standalone/src/standalone_client.cpp and smart/src/coordinator_client.cpp:
-- the turns that settle a stream.
use hurricache_cpp_client.Prelude.{
  ℕ, suc, zero, ◌+◌, ◌≤◌, ◌≡◌, refl, sym, ap, subst, inl, inr, ◌∙◌, Bool, true, false, List, [],
  ◌∷◌, some, arith, if◌then◌else◌, length, Bool-cases,
}
use hurricache_cpp_client.Rpc.{
  Failure, Ending, reading, finishing, Pending, start_call, read, finish, deleted, StreamCall,
  new_stream_call, to_finish, accumulator_threw,
}
use hurricache_cpp_client.Rpc.Streams.{turn, run_queue, IsMachine, sum_of, until_throw, outcome_of}

module _ {Chunk Sum Result : Type 0}
    {proceed : Bool → StreamCall Chunk Sum Result → StreamCall Chunk Sum Result}
    {sum : Sum → Chunk → Sum} {throws : Sum → Chunk → Bool} {result : Sum → Result}
    {failure : Ending → Failure} (machine : IsMachine proceed sum throws result failure)
    (empty : Sum) where
  -- What the queue leaves of a call with nothing in its promise yet.
  abbrev Settles : Bool → Ending → ℕ → List Chunk → StreamCall Chunk Sum Result → Sum → Type 0
  Settles opens s n xs c total =
      let d = run_queue proceed opens s n xs c in
      (d.pending ≡ deleted) × (d.promise ≡ outcome_of result failure total s ∷ [])

  turns :
      (opens : Bool) (s : Ending) (n : ℕ) (xs : List Chunk) (c : StreamCall Chunk Sum Result)
      (p : Pending)
      → c.pending ≡ p
      → run_queue proceed opens s (suc n) xs c
        ≡ turn proceed opens s (run_queue proceed opens s n) p xs c
  unfolding run_queue
  turns opens s n xs c p h = ap (λ q. turn proceed opens s (run_queue proceed opens s n) q xs c) h

  queue-deleted :
      (opens : Bool) (s : Ending) (n : ℕ) (xs : List Chunk) (c : StreamCall Chunk Sum Result)
      → c.pending ≡ deleted
      → run_queue proceed opens s n xs c ≡ c
  unfolding run_queue turn
  queue-deleted opens s zero xs c h = refl
  queue-deleted opens s (suc n) xs c h = turns opens s n xs c deleted h

  finish-Settles :
      (opens : Bool) (s : Ending) (n : ℕ) (xs : List Chunk) (c : StreamCall Chunk Sum Result)
      → c.state ≡ finishing
      → c.pending ≡ finish
      → c.promise ≡ []
      → Settles opens s (suc n) xs c c.accumulated_result
  unfolding turn
  finish-Settles opens s n xs c a h b =
      let e =
        turns opens s n xs c finish h
        ∙ ap (run_queue proceed opens s n xs) (machine.at_finish (record c { ending = s }) a)
        ∙ queue-deleted opens s n xs _ refl in
      subst
        (λ d.
          (d.pending ≡ deleted)
          × (d.promise ≡ outcome_of result failure c.accumulated_result s ∷ []))
        (sym e) (refl, rw b)

  read-Settles :
      (opens : Bool) (s : Ending) (n : ℕ) (xs : List Chunk) (c : StreamCall Chunk Sum Result)
      → c.state ≡ reading
      → c.pending ≡ read
      → c.promise ≡ []
      → length xs + 2 ≤ n
      → Settles opens s n xs c
          (sum_of sum c.accumulated_result (until_throw sum throws c.accumulated_result xs))
  unfolding turn until_throw sum_of
  read-Settles opens s zero xs c a h b low = absurd (omega arith)
  read-Settles opens s (suc zero) xs c a h b low = absurd (omega arith)
  read-Settles opens s (suc (suc n)) [] c a h b low =
      let e =
        turns opens s (suc n) [] c read h
        ∙ ap (run_queue proceed opens s (suc n) []) (machine.at_end c a) in
      subst
        (λ d.
          (d.pending ≡ deleted)
          × (d.promise ≡ outcome_of result failure c.accumulated_result s ∷ []))
        (sym e) (finish-Settles opens s n [] (to_finish c) refl refl b)
  read-Settles opens s (suc (suc n)) (x ∷ xs) c a h b low =
      let total = sum c.accumulated_result x in
      let thrown = to_finish (record c {
        current_chunk = some x;
        accumulated_result = total;
        ending = accumulator_threw;
      }) in
      let summed = record c {
        current_chunk = some x;
        accumulated_result = total;
        pending = read;
      } in
      let next = λ (d : StreamCall Chunk Sum Result). run_queue proceed opens s (suc n) xs d in
      let step = turns opens s (suc n) (x ∷ xs) c read h ∙ ap next (machine.at_chunk x c a) in
      elim (Bool-cases (throws c.accumulated_result x)) [
        | inl e ↦
            let to : run_queue proceed opens s (suc (suc n)) (x ∷ xs) c ≡ next thrown =
              step ∙ ap (λ t. next (if t then thrown else summed)) e in
            subst
              (λ t. Settles opens s (suc (suc n)) (x ∷ xs) c (
                sum_of sum c.accumulated_result
                  (if t then x ∷ [] else x ∷ until_throw sum throws total xs)))
              (sym e)
              (subst
                (λ d. (d.pending ≡ deleted) × (d.promise ≡ outcome_of result failure total s ∷ []))
                (sym to) (finish-Settles opens s n xs thrown refl refl b))
        | inr e ↦
            let to : run_queue proceed opens s (suc (suc n)) (x ∷ xs) c ≡ next summed =
              step ∙ ap (λ t. next (if t then thrown else summed)) e in
            subst
              (λ t. Settles opens s (suc (suc n)) (x ∷ xs) c (
                sum_of sum c.accumulated_result
                  (if t then x ∷ [] else x ∷ until_throw sum throws total xs)))
              (sym e)
              (subst
                (λ d.
                  (d.pending ≡ deleted)
                  × (d.promise
                      ≡ outcome_of result failure
                          (sum_of sum total (until_throw sum throws total xs)) s
                        ∷ []))
                (sym to) (read-Settles opens s (suc n) xs summed a refl b (omega arith)))
      ]

  -- The chunks that a stream adds up: none if it does not open.
  abbrev pub taken : Bool → List Chunk → List Chunk
  taken true xs = until_throw sum throws empty xs
  taken false xs = []

  -- A stream whose server ends it settles within three turns of the queue more than there are
  -- chunks: its promise has what the chunks add up to, up to the first one that throws, if `Finish`
  -- reports OK, and else an exception with the status that it reports.
  pub run_queue-outcome :
      (opens : Bool) (s : Ending) (n : ℕ) (xs : List Chunk)
      → length xs + 3 ≤ n
      → let d = run_queue proceed opens s n xs (new_stream_call empty) in
        (d.pending ≡ deleted)
        × (d.promise ≡ outcome_of result failure (sum_of sum empty (taken opens xs)) s ∷ [])
  unfolding turn sum_of
  run_queue-outcome opens s zero xs low = absurd (omega arith)
  run_queue-outcome true s (suc n) xs low =
      let e =
        turns true s n xs (new_stream_call empty) start_call refl
        ∙ ap (run_queue proceed true s n xs) (machine.at_start true (new_stream_call empty) refl) in
      subst
        (λ d.
          (d.pending ≡ deleted)
          × (d.promise ≡ outcome_of result failure (sum_of sum empty (taken true xs)) s ∷ []))
        (sym e) (read-Settles true s n xs _ refl refl refl (omega arith))
  run_queue-outcome false s (suc zero) xs low = absurd (omega arith)
  run_queue-outcome false s (suc (suc n)) xs low =
      let e =
        turns false s (suc n) xs (new_stream_call empty) start_call refl
        ∙ ap (run_queue proceed false s (suc n) xs)
            (machine.at_start false (new_stream_call empty) refl) in
      subst (λ d. (d.pending ≡ deleted) × (d.promise ≡ outcome_of result failure empty s ∷ []))
        (sym e) (finish-Settles false s n xs (to_finish (new_stream_call empty)) refl refl refl)
