-- ===== src/Smart/Insert/Behind.antt =====
-- `addElementToPositionAfter` of smart/src/smart_client.cpp against one insert behind the pivot.
use hurricache_cpp_client.Prelude.{
  ◌^◌, ◌<◌, ◌≡◌, refl, sym, subst, List, [], ◌∷◌, ◌++◌, map, Option, some, Returns,
}
use hurricache_cpp_client.Prelude.Int.{ℤ}
use hurricache_cpp_client.Types.{Key, Value}
use hurricache_cpp_client.Env.{Env, IsLibdeflate, HasSmallMessages}
use hurricache_cpp_client.Smart.Chunks.Sizes.{IsSendable}
use hurricache_cpp_client.Smart.Copies.{copy_key, copy_value}
use hurricache_cpp_client.Smart.Execute.{SmartClient, max_rpc_size}
use hurricache_cpp_client.Smart.Insert.{
  Chunk, chained_calls, after_calls_of, add_element_to_position_after, run_add_pipeline,
}
use hurricache_cpp_client.Smart.Insert.Replay.{ListNode, Leaves}
use hurricache_cpp_client.Smart.Insert.Pivot.{NotIn, Fresh, InsertsBehind, replay-chained}
use hurricache_cpp_client.Smart.Insert.Laws.{copies, value_chunks-flatten}

-- The first chunk goes behind the pivot as the others go behind their anchors.
after_calls-chained :
    (cs : List Chunk) (p : Option Value) → after_calls_of cs p ≡ chained_calls p cs
unfolding after_calls_of chained_calls
after_calls-chained [] p = refl
after_calls-chained (c ∷ cs) p = refl

module _ (env : Env) (messages : HasSmallMessages env) (deflate : IsLibdeflate env.deflate)
    (s : SmartClient) (threshold : ℤ) (limit : max_rpc_size s < 2 ^ 62) where
  -- To a list that a node keeps, where the pivot stands between the items `xs`, none of which is the
  -- pivot, and `ys`, `addElementToPositionAfter` does what one insert of all its values behind the
  -- pivot does, in whatever chunks they are sent: if no value is an item up to the pivot or is given
  -- twice, their copies stand behind the pivot in their order. The key fits a message, and no call fails.
  pub add_element_to_position_after-inserts :
      (node : ListNode)
      → InsertsBehind node
      → (key : Key) (vs : List Value) (pivot : Option Value) (client_id : ℤ) (t : node.State)
        (xs ys : Chunk)
      → IsSendable env (copy_key key)
      → node.items t ≡ xs ++ copy_value pivot ∷ ys
      → NotIn (copy_value pivot) xs
      → Fresh (xs ++ copy_value pivot ∷ []) (copies vs)
      → Returns
          (add_element_to_position_after env s threshold key (some (map some vs)) pivot client_id)
          (λ calls.
            Leaves node
              (run_add_pipeline node.call calls 0 t)
              (xs ++ copy_value pivot ∷ (copies vs ++ ys)))
  unfolding add_element_to_position_after
  add_element_to_position_after-inserts node law key vs pivot client_id t xs ys can here new fresh =
      let p = copy_value pivot in
      let (cs, e, (flat, full)) =
        value_chunks-flatten env messages deflate s threshold limit key vs client_id can in
      (
        after_calls_of cs p,
        rw e,
        subst
            (λ calls.
              Leaves node (run_add_pipeline node.call calls 0 t) (xs ++ p ∷ (copies vs ++ ys)))
            (sym (after_calls-chained cs p))
            (subst
              (λ k.
                Leaves node (run_add_pipeline node.call (chained_calls p cs) 0 t)
                  (xs ++ p ∷ (k ++ ys)))
              flat
              (replay-chained node law p cs 0 t xs ys full here new
                (subst (Fresh (xs ++ p ∷ [])) (sym flat) fresh))),
      )
