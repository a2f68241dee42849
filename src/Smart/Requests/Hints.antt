-- ===== src/Smart/Requests/Hints.antt =====
-- The hints of the requests of smart/src/smart_client.cpp.
use hurricache_cpp_client.Prelude.{
  ℕ, ◌≡◌, refl, ap, ◌∙◌, true, List, [], ◌∷◌, Option, none, some, arith, length, take, take_all,
}
use hurricache_cpp_client.Types.{Key, is_same, memcmp, key_eq}
use hurricache_cpp_client.Env.{Env}
use hurricache_cpp_client.Codec.{calculate_key_hint}
use hurricache_cpp_client.Codec.KeyRoundTrip.{IsKey}
use hurricache_cpp_client.Smart.Copies.{resolve_hint}

memcmp-same : (xs ys : List ℕ) → length xs ≡ length ys → is_same (memcmp xs ys) ≡ true → xs ≡ ys
unfolding memcmp
memcmp-same [] [] h e = refl
memcmp-same [] (y ∷ ys) h e = absurd (omega arith)
memcmp-same (x ∷ xs) [] h e = absurd (omega arith)
memcmp-same (x ∷ xs) (y ∷ ys) h e = ground (arith, memcmp-same xs ys)

equal_buffers :
    (env : Env) (m n : ℕ) (xs ys : Option (List ℕ))
    → IsKey (record { size = m; buffer = xs })
    → IsKey (record { size = n; buffer = ys })
    → key_eq (record { size = m; buffer = xs }) (record { size = n; buffer = ys }) ≡ true
    → calculate_key_hint env (record { size = m; buffer = xs })
      ≡ calculate_key_hint env (record { size = n; buffer = ys })
unfolding calculate_key_hint key_eq
equal_buffers env m n none none u v e = refl
equal_buffers env m n none (some ys) u v e = absurd (ground arith)
equal_buffers env m n (some xs) none u v e = absurd (ground arith)
equal_buffers env m n (some xs) (some ys) u v e =
    let sizes : m ≡ n = ground arith in
    let whole : take m xs ≡ xs = take_all m xs (omega arith) in
    let other : take m ys ≡ ys = take_all m ys (omega arith) in
    let alike : is_same (memcmp (take m xs) (take m ys)) ≡ true = ground arith in
    let same_bytes = memcmp-same xs ys (omega arith) (rw (whole, other) at alike) in
    ap (λ k. calculate_key_hint env (record { size = m; buffer = some k })) same_bytes
    ∙ ap (λ k. calculate_key_hint env (record { size = k; buffer = some ys })) sizes

-- Keys that are equal by `operator==` get the same hint, so that their calls go to one shard.
resolve_hint-key_eq :
    (env : Env) (a b : Key)
    → IsKey a
    → IsKey b
    → key_eq a b ≡ true
    → resolve_hint env a none ≡ resolve_hint env b none
unfolding resolve_hint
resolve_hint-key_eq env a b u v e = equal_buffers env a.size b.size a.buffer b.buffer u v e
