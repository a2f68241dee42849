-- ===== src/Smart/Create/Laws.antt =====
-- The creation of a list in parts, by smart/src/smart_client.cpp.
use hurricache_cpp_client.Prelude.{
  ℕ, zero, suc, ◌^◌, ◌<◌, ◌≡◌, refl, sym, ap, subst, ◌∙◌, Bool, true, false, List, [], ◌∷◌, ◌++◌,
  map, flatten, Option, none, some, arith, take, drop, append_assoc, append-nil, take-append-drop,
  Returns, ◌⊎◌, inl, inr,
}
use hurricache_cpp_client.Prelude.Int.{ℤ}
use hurricache_cpp_client.Types.{KeyHint, Value, ContainerType}
use hurricache_cpp_client.Env.{Env, HasSmallMessages}
use hurricache_cpp_client.Smart.Chunks.{
  estimate_value_size, first_chunk_split, partition_value_chunks,
}
use hurricache_cpp_client.Smart.Chunks.Laws.{
  partition_value_chunks-WithinLimit, first_chunk_split-values,
}
use hurricache_cpp_client.Smart.Copies.{copy_content, copy_values}
use hurricache_cpp_client.Smart.Execute.{
  SmartClient, effective_client_id, effective_ttl, max_rpc_size,
}
use hurricache_cpp_client.Smart.Guard.{Failure, Outcome, value, failed}
use hurricache_cpp_client.Smart.Insert.{Chunk, InsertCall, to_tail}
use hurricache_cpp_client.Smart.Insert.Replay.{ListNode, InsertsInOrder}
use hurricache_cpp_client.Smart.Insert.Laws.{copies, copies-some}
use hurricache_cpp_client.Smart.Create.{
  Creation, unsupported_container, create_operation, unless_empty, remainder_call,
  create_unordered_container, run_remainder, create_with_remainder, create_first, run_creation,
}

abbrev pub is_set : ContainerType → Bool
is_set ContainerType.set = true
is_set _ = false

-- The containers of values in an order.
abbrev pub is_list : ContainerType → Bool
is_list ContainerType.queue = true
is_list ContainerType.list = true
is_list ContainerType.vector = true
is_list _ = false

create_operation-cases :
    (type : ContainerType)
    → is_set type ≡ false
    → ((is_list type ≡ true) × (create_operation type ≡ value type))
      ⊎ ((is_list type ≡ false) × (create_operation type ≡ failed unsupported_container))
unfolding create_operation
create_operation-cases ContainerType.undefined h = inr (refl, refl)
create_operation-cases ContainerType.vector h = inl (refl, refl)
create_operation-cases ContainerType.list h = inl (refl, refl)
create_operation-cases ContainerType.queue h = inl (refl, refl)
create_operation-cases ContainerType.set h = cc
create_operation-cases ContainerType.hash_map h = inr (refl, refl)
create_operation-cases ContainerType.ordered_map h = inr (refl, refl)
create_operation-cases ContainerType.ordered_set h = inr (refl, refl)

remainder-to_tail :
    (type : ContainerType)
    → is_set type ≡ false
    → (cs : List Chunk) → map (remainder_call type) cs ≡ map to_tail cs
remainder-to_tail ContainerType.undefined h cs = refl
remainder-to_tail ContainerType.vector h cs = refl
remainder-to_tail ContainerType.list h cs = refl
remainder-to_tail ContainerType.queue h cs = refl
remainder-to_tail ContainerType.set h cs = cc
remainder-to_tail ContainerType.hash_map h cs = refl
remainder-to_tail ContainerType.ordered_map h cs = refl
remainder-to_tail ContainerType.ordered_set h cs = refl

-- The data of a first call.
abbrev pub or_empty : Option Chunk → Chunk
or_empty none = []
or_empty (some c) = c

or_empty-unless_empty : (c : Chunk) → or_empty (unless_empty c) ≡ c
or_empty-unless_empty [] = refl
or_empty-unless_empty (x ∷ c) = refl

drop-map : {A B : Type 0} (f : A → B) (n : ℕ) (xs : List A) → drop n (map f xs) ≡ map f (drop n xs)
drop-map f zero xs = refl
drop-map f (suc n) [] = refl
drop-map f (suc n) (x ∷ xs) = drop-map f n xs

module _ (node : ListNode) where
  -- The call that creates a list is answered with a hint, and leaves a list of its data.
  abbrev pub Fills : Outcome KeyHint × node.State → Chunk → Type 0
  Fills r xs = (h : KeyHint) × (r.0 ≡ value h) × (node.items r.1 ≡ xs)

module _ (node : ListNode) (law : InsertsInOrder node) where
  run_remainder-Fills :
      (cs : List Chunk) (h : KeyHint) (s : node.State)
      → Fills node (run_remainder node.call (map to_tail cs) h s) (node.items s ++ flatten cs)
  unfolding run_remainder flatten
  run_remainder-Fills [] h s = (h, refl, sym (append-nil (node.items s)))
  run_remainder-Fills (c ∷ cs) h s =
      let (n, e, left) = law.tail c s in
      let t = (node.call (to_tail c) s).1 in
      let (m, f, rest) = run_remainder-Fills cs h t in
      (
        m,
        rw e f,
        rw e (rest ∙ ap (λ k. k ++ flatten cs) left ∙ append_assoc (node.items s) c (flatten cs)),
      )

  created-Fills :
      (make : Option Chunk → node.State → Outcome KeyHint × node.State)
      → ((first : Option Chunk) (t : node.State) → Fills node (make first t) (or_empty first))
      → (first : Option Chunk) (cs : List Chunk) (t : node.State)
      → Fills node
          (create_with_remainder (make first) (λ h. node.call) (map to_tail cs) t)
          (or_empty first ++ flatten cs)
  unfolding create_with_remainder
  created-Fills make makes first cs t =
      let (h, e, filled) = makes first t in
      let (m, f, rest) = run_remainder-Fills cs h (make first t).1 in
      (
        m,
        rw (e, create_with_remainder) f,
        rw (e, create_with_remainder) (rest ∙ ap (λ k. k ++ flatten cs) filled),
      )

-- A creation whose action throws makes no call.
run_creation-failed :
    {A S : Type 0} (create : ContainerType → Option (List A) → S → Outcome KeyHint × S)
    (call : KeyHint → InsertCall → S → Outcome ℕ × S) (plan : Creation A) (t : S) (e : Failure)
    → plan.operation ≡ failed e
    → run_creation create call plan t ≡ (failed e, t)
unfolding run_creation create_with_remainder create_first
run_creation-failed create call plan t e h = rw h refl

module _ (env : Env) (messages : HasSmallMessages env) (s : SmartClient) (threshold : ℤ)
    (limit : max_rpc_size s < 2 ^ 62) where
  -- A queue, a list or a vector, created on a node that takes items at its tail, holds behind the
  -- creation the copies of all the values in their order, however they were split between the first
  -- call and the ones behind it, and no call fails. For each other type but the set the creation
  -- fails as unsupported, and no call reaches the node.
  pub create_unordered_container-Fills :
      (node : ListNode) (law : InsertsInOrder node)
      (make : ContainerType → Option Chunk → node.State → Outcome KeyHint × node.State)
      (type : ContainerType)
      → ((first : Option Chunk) (t : node.State) → Fills node (make type first t) (or_empty first))
      → is_set type ≡ false
      → (vs : List Value) (ttl client_id : ℤ) (t : node.State)
      → Returns
          (create_unordered_container env s threshold (some (map some vs)) ttl client_id type)
          (λ plan.
            let r = run_creation make (λ h. node.call) plan t in
            ((is_list type ≡ true) × Fills node r (copies vs))
            ⊎ ((is_list type ≡ false) × (r ≡ (failed unsupported_container, t))))
  unfolding create_unordered_container copy_values run_creation create_first
  create_unordered_container-Fills node law make type makes no_set vs ttl client_id t =
      let cid = effective_client_id s client_id in
      let owned = map (λ v. copy_content v.size v.content) vs in
      let (split, found, _) =
        first_chunk_split-values env messages cid threshold 128 (max_rpc_size s) (omega arith) limit
          owned in
      let (cs, built, (flat, _)) =
        partition_value_chunks-WithinLimit env messages cid threshold 0 (max_rpc_size s)
          (omega arith) limit (drop split owned) in
      let first = unless_empty (take split (copies vs)) in
      let all : or_empty first ++ flatten cs ≡ copies vs =
        ap (λ k. k ++ flatten cs) (or_empty-unless_empty (take split (copies vs)))
        ∙ ap (λ k. take split (copies vs) ++ k)
            (flat ∙ sym (drop-map some split owned) ∙ ap (drop split) (sym (copies-some vs)))
        ∙ take-append-drop split (copies vs) in
      let plan : Creation (Option Value) = record {
        operation = create_operation type;
        first = first;
        ttl = effective_ttl s ttl;
        remainder = map (remainder_call type) cs;
      } in
      (
        plan,
        rw
            (ap
                (λ k.
                  first_chunk_split (estimate_value_size env cid threshold) k 128 (max_rpc_size s))
                (copies-some vs)
              ∙ found)
            rw
            (ap (λ k. partition_value_chunks env (drop split k) 0 cid threshold (max_rpc_size s))
                (copies-some vs)
              ∙ ap (λ k. partition_value_chunks env k 0 cid threshold (max_rpc_size s))
                  (drop-map some split owned)
              ∙ built)
            refl,
        elim (create_operation-cases type no_set) [
          | inl (listed, e) ↦ inl (
            listed,
            rw e (
                subst
                  (λ calls.
                    Fills node (create_with_remainder (make type first) (λ h. node.call) calls t)
                      (copies vs))
                  (sym (remainder-to_tail type no_set cs))
                  (subst
                    (Fills node
                      (create_with_remainder (make type first) (λ h. node.call) (map to_tail cs) t))
                    all (created-Fills node law (make type) makes first cs t))),
          )
          | inr (unlisted, e) ↦
              inr
                (unlisted, run_creation-failed make (λ h. node.call) plan t unsupported_container e)
        ],
      )
