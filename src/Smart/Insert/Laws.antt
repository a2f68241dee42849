-- ===== src/Smart/Insert/Laws.antt =====
-- The chunked inserts of smart/src/smart_client.cpp against one insert of all the data.
use hurricache_cpp_client.Prelude.{
  Option, All, ℕ, ◌+◌, ◌%◌, ◌^◌, ◌≤◌, ◌<◌, ◌≡◌, refl, sym, ap, subst, ◌∙◌, List, [], ◌∷◌, ◌++◌, map,
  reverse, flatten, some, arith, length, take, drop, Returns,
}
use hurricache_cpp_client.Prelude.Int.{ℤ}
use hurricache_cpp_client.Types.{Key, Value}
use hurricache_cpp_client.Env.{Env, IsLibdeflate, HasSmallMessages}
use hurricache_cpp_client.Smart.Chunks.{partition_value_chunks}
use hurricache_cpp_client.Smart.Chunks.Partition.{WithinLimit}
use hurricache_cpp_client.Smart.Chunks.Sizes.{IsSendable, estimate_key_size-Returns}
use hurricache_cpp_client.Smart.Chunks.Laws.{partition_value_chunks-WithinLimit}
use hurricache_cpp_client.Smart.Copies.{copy_key, copy_content, copy_value, copy_values}
use hurricache_cpp_client.Smart.Execute.{SmartClient, effective_client_id, max_rpc_size}
use hurricache_cpp_client.Smart.Insert.{
  Chunk, to_tail, to_head, position_calls, value_chunks, add_element_to_tail, add_element_to_head,
  add_element_to_position, run_add_pipeline, call_base,
}
use hurricache_cpp_client.Smart.Insert.Replay.{
  ListNode, Leaves, InsertsInOrder, replay-tail, replay-head, replay-position,
}

-- The copies of values that are there.
abbrev pub copies : List Value → Chunk
copies vs = map copy_value (map some vs)

pub copies-some :
    (vs : List Value) → copies vs ≡ map some (map (λ v. copy_content v.size v.content) vs)
unfolding copy_value
copies-some [] = refl
copies-some (v ∷ vs) = ap (λ k. some (copy_content v.size v.content) ∷ k) (copies-some vs)

chunks_full :
    (weight : Option Value → ℕ) (base_size limit : ℕ) (cs : List Chunk)
    → All (WithinLimit weight base_size limit) cs
    → All (λ c. 0 < length c) cs
chunks_full weight base_size limit [] h = tt
chunks_full weight base_size limit (c ∷ cs) h = (h.0.0, chunks_full weight base_size limit cs h.1)

module _ (env : Env) (messages : HasSmallMessages env) (deflate : IsLibdeflate env.deflate)
    (s : SmartClient) (threshold : ℤ) (limit : max_rpc_size s < 2 ^ 62) where
  pub value_chunks-flatten :
      (key : Key) (vs : List Value) (client_id : ℤ)
      → IsSendable env (copy_key key)
      → Returns
          (value_chunks env s threshold key (some (map some vs)) client_id)
          (λ cs. (flatten cs ≡ copies vs) × All (λ c. 0 < length c) cs)
  unfolding value_chunks call_base copy_values flatten
  value_chunks-flatten key [] client_id can = ([], refl, (refl, tt))
  value_chunks-flatten key (v ∷ vs) client_id can =
      let cid = effective_client_id s client_id in
      let (n, e, small) =
        estimate_key_size-Returns env messages cid threshold (copy_key key) deflate can in
      let (cs, built, (flat, good)) =
        partition_value_chunks-WithinLimit env messages cid threshold ((n + 32) % 2 ^ 64)
          (max_rpc_size s) (omega arith) limit
          (map (λ v. copy_content v.size v.content) (v ∷ vs)) in
      (
        cs,
        rw e (
            ap
              (λ k. partition_value_chunks env k ((n + 32) % 2 ^ 64) cid threshold (max_rpc_size s))
              (copies-some (v ∷ vs))
            ∙ built),
        (flat ∙ sym (copies-some (v ∷ vs)), chunks_full _ _ _ cs good),
      )

  -- To a list that a node keeps, `addElementToTail` does what one insert of all its values at the
  -- end does: in whatever chunks they are sent, the copies of the values stand behind the
  -- items of before, in their order. The key fits a message, and no call fails.
  pub add_element_to_tail-appends :
      (node : ListNode)
      → InsertsInOrder node
      → (key : Key) (vs : List Value) (client_id : ℤ) (t : node.State)
      → IsSendable env (copy_key key)
      → Returns
          (add_element_to_tail env s threshold key (some (map some vs)) client_id)
          (λ calls. Leaves node (run_add_pipeline node.call calls 0 t) (node.items t ++ copies vs))
  unfolding add_element_to_tail
  add_element_to_tail-appends node law key vs client_id t can =
      let (cs, e, (flat, _)) = value_chunks-flatten key vs client_id can in
      (
        map to_tail cs,
        rw e,
        subst
            (λ k. Leaves node (run_add_pipeline node.call (map to_tail cs) 0 t) (node.items t ++ k))
            flat (replay-tail node law cs 0 t),
      )

  -- To a list that a node keeps, `addElementToHead` does what one insert of all its values at the
  -- start does: the copies of the values stand before the items of before, in their order. The
  -- key fits a message, and no call fails.
  pub add_element_to_head-prepends :
      (node : ListNode)
      → InsertsInOrder node
      → (key : Key) (vs : List Value) (client_id : ℤ) (t : node.State)
      → IsSendable env (copy_key key)
      → Returns
          (add_element_to_head env s threshold key (some (map some vs)) client_id)
          (λ calls. Leaves node (run_add_pipeline node.call calls 0 t) (copies vs ++ node.items t))
  unfolding add_element_to_head
  add_element_to_head-prepends node law key vs client_id t can =
      let (cs, e, (flat, _)) = value_chunks-flatten key vs client_id can in
      (
        map to_head (reverse cs),
        rw e,
        subst
            (λ k.
              Leaves node (run_add_pipeline node.call (map to_head (reverse cs)) 0 t)
                (k ++ node.items t))
            flat (replay-head node law cs 0 t),
      )

  -- To a list that a node keeps, `addElementToPosition` does what one insert of all its values at the
  -- position does: the copies of the values stand there, in their order. The position is in the
  -- list, none of theirs is over 32 bits, the key fits a message, and no call fails.
  pub add_element_to_position-inserts :
      (node : ListNode)
      → InsertsInOrder node
      → (key : Key) (vs : List Value) (pos : ℕ) (client_id : ℤ) (t : node.State)
      → IsSendable env (copy_key key)
      → pos ≤ length (node.items t)
      → pos + length (copies vs) < 2 ^ 32
      → Returns
          (add_element_to_position env s threshold key (some (map some vs)) pos client_id)
          (λ calls.
            Leaves node
              (run_add_pipeline node.call calls 0 t)
              (take pos (node.items t) ++ copies vs ++ drop pos (node.items t)))
  unfolding add_element_to_position
  add_element_to_position-inserts node law key vs pos client_id t can low small =
      let (cs, e, (flat, _)) = value_chunks-flatten key vs client_id can in
      (
        position_calls cs pos,
        rw e,
        subst
            (λ k.
              Leaves node (run_add_pipeline node.call (position_calls cs pos) 0 t)
                (take pos (node.items t) ++ k ++ drop pos (node.items t)))
            flat
            (replay-position node law cs pos 0 t low
              (subst (λ k. pos + length k < 2 ^ 32) (sym flat) small)),
      )
