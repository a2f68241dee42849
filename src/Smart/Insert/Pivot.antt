-- ===== src/Smart/Insert/Pivot.antt =====
-- The insert behind a pivot of smart/src/smart_client.cpp: each chunk goes behind the last item of
-- the chunk before it.
use hurricache_cpp_client.Prelude.{
  ℕ, ◌+◌, ◌%◌, ◌^◌, ◌<◌, ◌≡◌, ◌≢◌, refl, sym, ap, subst, ◌∙◌, List, [], ◌∷◌, ◌++◌, flatten, Option,
  none, arith, append_assoc, append-nil, length, All, last_or,
}
use hurricache_cpp_client.Types.{Value}
use hurricache_cpp_client.Smart.Insert.{Chunk, after, chained_calls, run_add_pipeline}
use hurricache_cpp_client.Smart.Insert.Replay.{ListNode, Leaves}

abbrev pub NotIn : Option Value → Chunk → Type 0
NotIn p = All (λ x. x ≢ p)

-- No item is one of `seen` or of the items before it.
abbrev pub Fresh : Chunk → Chunk → Type 0
Fresh seen [] = Unit
Fresh seen (v ∷ vs) = NotIn v seen × Fresh (seen ++ v ∷ []) vs

-- A node puts a chunk behind the first item that is the pivot.
abbrev pub InsertsBehind : ListNode → Type 0
InsertsBehind node =
    (c : Chunk) (p : Option Value) (s : node.State) (xs ys : Chunk)
    → node.items s ≡ xs ++ p ∷ ys
    → NotIn p xs
    → Leaves node (node.call (after c p) s) (xs ++ p ∷ (c ++ ys))

-- The last item of a chunk of fresh ones stands for the first time behind the others.
record EndsFresh (seen c rest : Chunk) : Type 0 where
  front : Chunk
  whole : c ≡ front ++ last_or none c ∷ []
  absent : NotIn (last_or none c) (seen ++ front)
  behind : Fresh (seen ++ c) rest

chunk-EndsFresh :
    (seen : Chunk) (x : Option Value) (c rest : Chunk)
    → Fresh seen (x ∷ c ++ rest)
    → EndsFresh seen (x ∷ c) rest
chunk-EndsFresh seen x [] rest (new, more) = record {
  front = [];
  whole = refl;
  absent = subst (NotIn x) (sym (append-nil seen)) new;
  behind = more;
}
chunk-EndsFresh seen x (y ∷ c) rest (new, more) =
    let v = chunk-EndsFresh (seen ++ x ∷ []) y c rest more in
    record {
      front = x ∷ v.front;
      whole = ap (λ k. x ∷ k) v.whole;
      absent = subst (NotIn (last_or none (y ∷ c))) (append_assoc seen (x ∷ []) v.front) v.absent;
      behind = subst (λ k. Fresh k rest) (append_assoc seen (x ∷ []) (y ∷ c)) v.behind;
    }

regroup :
    (xs : Chunk) (a : Option Value) (front : Chunk) (l : Option Value) (c zs : Chunk)
    → c ≡ front ++ l ∷ []
    → xs ++ a ∷ (c ++ zs) ≡ xs ++ a ∷ [] ++ front ++ l ∷ zs
regroup xs a front l c zs h =
    sym (append_assoc xs (a ∷ []) (c ++ zs))
    ∙ ap (λ k. xs ++ a ∷ [] ++ k) (ap (λ k. k ++ zs) h ∙ append_assoc front (l ∷ []) zs)
    ∙ sym (append_assoc (xs ++ a ∷ []) front (l ∷ zs))

module _ (node : ListNode) (law : InsertsBehind node) where
  pub replay-chained :
      (anchor : Option Value) (chunks : List Chunk) (total : ℕ) (s : node.State) (xs ys : Chunk)
      → All (λ c. 0 < length c) chunks
      → node.items s ≡ xs ++ anchor ∷ ys
      → NotIn anchor xs
      → Fresh (xs ++ anchor ∷ []) (flatten chunks)
      → Leaves node
          (run_add_pipeline node.call (chained_calls anchor chunks) total s)
          (xs ++ anchor ∷ (flatten chunks ++ ys))
  unfolding run_add_pipeline chained_calls flatten
  replay-chained anchor [] total s xs ys full here new fresh = (total, refl, here)
  replay-chained anchor ([] ∷ chunks) total s xs ys full here new fresh =
      absurd (omega (arith, full.0))
  replay-chained anchor ((x ∷ c) ∷ chunks) total s xs ys full here new fresh =
      let (n, e, left) = law (x ∷ c) anchor s xs ys here new in
      let t = (node.call (after (x ∷ c) anchor) s).1 in
      let v = chunk-EndsFresh (xs ++ anchor ∷ []) x c (flatten chunks) fresh in
      let last = last_or none (x ∷ c) in
      let pre = (xs ++ anchor ∷ []) ++ v.front in
      let placed : node.items t ≡ pre ++ last ∷ ys =
        left ∙ regroup xs anchor v.front last (x ∷ c) ys v.whole in
      let (m, f, rest) =
        replay-chained last chunks ((total + n) % 2 ^ 32) t pre ys full.1 placed v.absent (
          subst (λ k. Fresh k (flatten chunks))
            (ap (λ k. xs ++ anchor ∷ [] ++ k) v.whole
              ∙ sym (append_assoc (xs ++ anchor ∷ []) v.front (last ∷ [])))
            v.behind) in
      (
        m,
        rw e f,
        rw e (
            rest
            ∙ sym (regroup xs anchor v.front last (x ∷ c) (flatten chunks ++ ys) v.whole)
            ∙ ap (λ k. xs ++ anchor ∷ k) (sym (append_assoc (x ∷ c) (flatten chunks) ys))),
      )
