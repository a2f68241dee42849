-- ===== src/Tests/Pivots.antt =====
-- The insert behind a pivot of smart/src/smart_client.cpp at a node that compares values.
use hurricache_cpp_client.Prelude.{
  ℕ, ◌≡◌, refl, ap, ◌∙◌, inl, inr, Bool, true, false, ◌&&◌, List, [], ◌∷◌, ◌++◌, map, Option, none,
  some, arith, ◌==◌, if◌then◌else◌, Bool-cases, length, Returns,
}
use hurricache_cpp_client.Prelude.Dict.{text_eq, ◌=?◌, text_eq_iff}
use hurricache_cpp_client.Prelude.Int.{pos, negsuc}
use hurricache_cpp_client.Types.{
  Content, bytes, int, double, Value, new_value, new_int_value, new_double_value,
}
use hurricache_cpp_client.Smart.Copies.{copy_content, copy_value}
use hurricache_cpp_client.Smart.Guard.{Outcome, value, failed, other}
use hurricache_cpp_client.Smart.Insert.{
  Chunk, InsertCall, after, add_element_to_position_after, run_add_pipeline,
}
use hurricache_cpp_client.Smart.Insert.Replay.{ListNode, Leaves}
use hurricache_cpp_client.Smart.Insert.Pivot.{NotIn, Fresh, InsertsBehind}
use hurricache_cpp_client.Smart.Insert.Laws.{copies}
use hurricache_cpp_client.Smart.Insert.Behind.{add_element_to_position_after-inserts}
use hurricache_cpp_client.Tests.{
  packer-IsLibdeflate, test_env, test_env-HasSmallMessages, word, number, fraction, test_key,
}
use hurricache_cpp_client.Tests.Inserts.{inserter, inserter_limit, test_key-IsSendable}

abbrev same_content : Content → Content → Bool
same_content (bytes none) (bytes none) = true
same_content (bytes (some a)) (bytes (some b)) = a =? b
same_content (int (pos m)) (int (pos n)) = m == n
same_content (int (negsuc m)) (int (negsuc n)) = m == n
same_content (double m) (double n) = m == n
same_content _ _ = false

abbrev same_value : Option Value → Option Value → Bool
same_value none none = true
same_value (some v) (some w) = v.size == w.size && same_content v.content w.content
same_value _ _ = false

same_content_sound : (a b : Content) → same_content a b ≡ true → a ≡ b
same_content_sound (bytes none) (bytes none) h = refl
same_content_sound (bytes none) (bytes (some b)) h = cc
same_content_sound (bytes (some a)) (bytes none) h = cc
same_content_sound (bytes (some a)) (bytes (some b)) h =
    ap (λ k. bytes (some k)) ((text_eq_iff a b).0 h)
same_content_sound (int (pos m)) (int (pos n)) h = ap (λ k. int (pos k)) (ground arith)
same_content_sound (int (pos m)) (int (negsuc n)) h = cc
same_content_sound (int (negsuc m)) (int (pos n)) h = cc
same_content_sound (int (negsuc m)) (int (negsuc n)) h = ap (λ k. int (negsuc k)) (ground arith)
same_content_sound (double m) (double n) h = ap double (ground arith)
same_content_sound (bytes none) (int n) h = cc
same_content_sound (bytes none) (double n) h = cc
same_content_sound (bytes (some a)) (int n) h = cc
same_content_sound (bytes (some a)) (double n) h = cc
same_content_sound (int (pos m)) (bytes b) h = cc
same_content_sound (int (negsuc m)) (bytes b) h = cc
same_content_sound (int (pos m)) (double n) h = cc
same_content_sound (int (negsuc m)) (double n) h = cc
same_content_sound (double m) (bytes b) h = cc
same_content_sound (double m) (int n) h = cc

same_content_refl : (a : Content) → same_content a a ≡ true
same_content_refl (bytes none) = refl
same_content_refl (bytes (some a)) = (text_eq_iff a a).1 refl
same_content_refl (int (pos m)) = ground arith
same_content_refl (int (negsuc m)) = ground arith
same_content_refl (double m) = ground arith

same_value_sound : (p q : Option Value) → same_value p q ≡ true → p ≡ q
same_value_sound none none h = refl
same_value_sound none (some w) h = cc
same_value_sound (some v) none h = cc
same_value_sound (some v) (some w) h = ground (arith, same_content_sound v.content w.content)

same_value_refl : (p : Option Value) → same_value p p ≡ true
same_value_refl none = refl
same_value_refl (some v) = ground (arith, same_content_refl v.content)

-- Behind the first item that is the pivot.
abbrev insert_behind : Chunk → Option Value → Chunk → Chunk
insert_behind c p [] = []
insert_behind c p (x ∷ s) = if same_value x p then x ∷ (c ++ s) else x ∷ insert_behind c p s

insert_behind-append :
    (c : Chunk) (p : Option Value) (xs ys : Chunk)
    → NotIn p xs
    → insert_behind c p (xs ++ p ∷ ys) ≡ xs ++ p ∷ (c ++ ys)
insert_behind-append c p [] ys h = rw (same_value_refl p) refl
insert_behind-append c p (x ∷ xs) ys h = elim (Bool-cases (same_value x p)) [
  | inl e ↦ absurd (h.0 (same_value_sound x p e))
  | inr e ↦ rw e (ap (λ k. x ∷ k) (insert_behind-append c p xs ys h.1))
]

abbrev behind_call : InsertCall → Chunk → Outcome ℕ × Chunk
behind_call (after c p) s = (value (length c), insert_behind c p s)
behind_call _ s = (failed (other 9), s)

abbrev comparing_node : ListNode
comparing_node = record { State = Chunk; items = λ s. s; call = behind_call }

comparing_node-InsertsBehind : InsertsBehind comparing_node
comparing_node-InsertsBehind c p s xs ys here new =
    (length c, refl, ap (insert_behind c p) here ∙ insert_behind-append c p xs ys new)

abbrev few : List Value
few = word ∷ number ∷ []

fraction_kept :
    (some fraction ∷ some fraction ∷ []) ≡ ([] ++ copy_value (some fraction) ∷ some fraction ∷ [])
unfolding copy_value copy_content new_double_value
fraction_kept = refl

few-Fresh : Fresh ([] ++ copy_value (some fraction) ∷ []) (copies few)
unfolding copy_value copy_content new_value new_int_value new_double_value
few-Fresh = ((λ h. ground arith, tt), ((λ h. ground arith, (λ h. ground arith, tt)), tt))

-- The pivot is the first of two equal items.
add_element_to_position_after-inserts_example :
    Returns
      (add_element_to_position_after test_env inserter
        (pos 1024)
        test_key
        (some (map some few))
        (some fraction)
        (pos 0))
      (λ calls.
        Leaves comparing_node
          (run_add_pipeline behind_call calls 0 (some fraction ∷ some fraction ∷ []))
          ([] ++ copy_value (some fraction) ∷ (copies few ++ some fraction ∷ [])))
add_element_to_position_after-inserts_example =
    add_element_to_position_after-inserts test_env test_env-HasSmallMessages packer-IsLibdeflate
      inserter (pos 1024) inserter_limit comparing_node comparing_node-InsertsBehind test_key few
      (some fraction) (pos 0) (some fraction ∷ some fraction ∷ []) [] (some fraction ∷ [])
      test_key-IsSendable fraction_kept tt few-Fresh
