-- ===== src/Smart/Insert/Replay.antt =====
-- What the calls of an insert of smart/src/smart_client.cpp do, one after another, to a list that
-- a node keeps.
use hurricache_cpp_client.Prelude.{
  ℕ, suc, zero, ◌+◌, ◌%◌, ◌^◌, ◌≤◌, ◌<◌, ◌≡◌, refl, sym, ap, ◌∙◌, List, [], ◌∷◌, ◌++◌, map, reverse,
  flatten, arith, append_assoc, append-nil, reverse-cons, length, length-append, take, drop,
  length-take, reverse-reverse, take-append-drop,
}
use hurricache_cpp_client.Smart.Guard.{Outcome, value}
use hurricache_cpp_client.Smart.Insert.{
  Chunk, InsertCall, to_tail, to_head, to_position, position_calls, run_add_pipeline,
}

-- What the inserts rely on of a node: the list of a key, as the state has it, and how a call of
-- each kind changes it. A call that is answered says how many items it added, and how it counts
-- is left open.
pub record ListNode : Type 1 where
  pub State : Type 0
  pub items : State → Chunk
  pub call : InsertCall → State → Outcome ℕ × State

flatten-append : (a b : List Chunk) → flatten (a ++ b) ≡ flatten a ++ flatten b
unfolding flatten
flatten-append [] b = refl
flatten-append (c ∷ a) b =
    ap (λ k. c ++ k) (flatten-append a b) ∙ sym (append_assoc c (flatten a) (flatten b))

take-prefix : (n : ℕ) (a b : Chunk) → n ≡ length a → take n (a ++ b) ≡ a
take-prefix zero [] b h = refl
take-prefix zero (x ∷ a) b h = absurd (omega arith)
take-prefix (suc n) [] b h = absurd (omega arith)
take-prefix (suc n) (x ∷ a) b h = ap (λ k. x ∷ k) (take-prefix n a b (omega arith))

drop-prefix : (n : ℕ) (a b : Chunk) → n ≡ length a → drop n (a ++ b) ≡ b
drop-prefix zero [] b h = refl
drop-prefix zero (x ∷ a) b h = absurd (omega arith)
drop-prefix (suc n) [] b h = absurd (omega arith)
drop-prefix (suc n) (x ∷ a) b h = drop-prefix n a b (omega arith)

module _ (node : ListNode) where
  abbrev pub Leaves : Outcome ℕ × node.State → Chunk → Type 0
  Leaves r xs = (n : ℕ) × (r.0 ≡ value n) × (node.items r.1 ≡ xs)

  pub record InsertsInOrder : Type 0 where
    pub tail : (c : Chunk) (s : node.State) → Leaves (node.call (to_tail c) s) (node.items s ++ c)
    pub head : (c : Chunk) (s : node.State) → Leaves (node.call (to_head c) s) (c ++ node.items s)
    pub position :
        (c : Chunk) (pos : ℕ) (s : node.State)
        → pos ≤ length (node.items s)
        → Leaves
            (node.call (to_position c pos) s)
            (take pos (node.items s) ++ c ++ drop pos (node.items s))

  module _ (law : InsertsInOrder) where
    pub replay-tail :
        (chunks : List Chunk) (total : ℕ) (s : node.State)
        → Leaves
            (run_add_pipeline node.call (map to_tail chunks) total s)
            (node.items s ++ flatten chunks)
    unfolding run_add_pipeline flatten
    replay-tail [] total s = (total, refl, sym (append-nil (node.items s)))
    replay-tail (c ∷ chunks) total s =
        let (n, e, left) = law.tail c s in
        let t = (node.call (to_tail c) s).1 in
        let (m, f, rest) = replay-tail chunks ((total + n) % 2 ^ 32) t in
        (
          m,
          rw e f,
          rw e (
              rest
              ∙ ap (λ k. k ++ flatten chunks) left
              ∙ append_assoc (node.items s) c (flatten chunks)),
        )

    replay-reversed :
        (chunks : List Chunk) (total : ℕ) (s : node.State)
        → Leaves
            (run_add_pipeline node.call (map to_head chunks) total s)
            (flatten (reverse chunks) ++ node.items s)
    unfolding run_add_pipeline flatten
    replay-reversed [] total s = (total, refl, refl)
    replay-reversed (c ∷ chunks) total s =
        let (n, e, left) = law.head c s in
        let t = (node.call (to_head c) s).1 in
        let (m, f, rest) = replay-reversed chunks ((total + n) % 2 ^ 32) t in
        let xs = node.items s in
        let joined : flatten (reverse (c ∷ chunks)) ++ xs ≡ flatten (reverse chunks) ++ (c ++ xs) =
          ap (λ k. flatten k ++ xs) (reverse-cons c chunks)
          ∙ ap (λ k. k ++ xs)
              (flatten-append (reverse chunks) (c ∷ [])
                ∙ ap (λ k. flatten (reverse chunks) ++ k) (append-nil c))
          ∙ append_assoc (flatten (reverse chunks)) c xs in
        (m, rw e f, rw e (rest ∙ ap (λ k. flatten (reverse chunks) ++ k) left ∙ sym joined))

    pub replay-head :
        (chunks : List Chunk) (total : ℕ) (s : node.State)
        → Leaves
            (run_add_pipeline node.call (map to_head (reverse chunks)) total s)
            (flatten chunks ++ node.items s)
    replay-head chunks total s =
        let (n, e, left) = replay-reversed (reverse chunks) total s in
        (n, e, left ∙ ap (λ k. flatten k ++ node.items s) (reverse-reverse chunks))

    pub replay-position :
        (chunks : List Chunk) (pos total : ℕ) (s : node.State)
        → pos ≤ length (node.items s)
        → pos + length (flatten chunks) < 2 ^ 32
        → Leaves
            (run_add_pipeline node.call (position_calls chunks pos) total s)
            (take pos (node.items s) ++ flatten chunks ++ drop pos (node.items s))
    unfolding run_add_pipeline flatten position_calls
    replay-position [] pos total s low small = (
      total,
      refl,
      sym (
          ap (λ k. k ++ drop pos (node.items s)) (append-nil (take pos (node.items s)))
          ∙ take-append-drop pos (node.items s)),
    )
    replay-position (c ∷ chunks) pos total s low small =
        let xs = node.items s in
        let (n, e, left) = law.position c pos s low in
        let t = (node.call (to_position c pos) s).1 in
        let count : length (take pos xs ++ c) ≡ pos + length c =
          length-append (take pos xs) c
          ∙ ap (λ k. k + length c) (length-take pos xs ∙ omega arith) in
        let sum : length (c ++ flatten chunks) ≡ length c + length (flatten chunks) =
          length-append c (flatten chunks) in
        let q = (pos + length c) % 2 ^ 32 in
        let next : q ≡ length (take pos xs ++ c) = omega arith in
        let all : length (node.items t) ≡ length (take pos xs ++ c) + length (drop pos xs) =
          ap length left ∙ length-append (take pos xs ++ c) (drop pos xs) in
        let (m, f, rest) =
          replay-position chunks q ((total + n) % 2 ^ 32) t (omega arith) (omega arith) in
        (
          m,
          rw e f,
          rw e (
              rest
              ∙ ap (λ k. take q k ++ flatten chunks ++ drop q k) left
              ∙ ap (λ k. k ++ flatten chunks ++ drop q (take pos xs ++ c ++ drop pos xs))
                  (take-prefix q (take pos xs ++ c) (drop pos xs) next)
              ∙ ap (λ k. take pos xs ++ c ++ flatten chunks ++ k)
                  (drop-prefix q (take pos xs ++ c) (drop pos xs) next)
              ∙ ap (λ k. k ++ drop pos xs) (append_assoc (take pos xs) c (flatten chunks))),
        )
