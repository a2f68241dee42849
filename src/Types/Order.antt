-- ===== src/Types/Order.antt =====
-- The order of keys in common/include/types.hxx, by which a `std::map` of keys would be sorted.
use hurricache_cpp_client.Prelude.{
  ℕ, suc, ◌≡◌, refl, sym, ap, subst, ◌∙◌, Bool-cases, Bool, true, false, List, [], ◌∷◌, Option,
  none, some, arith, ltb, if◌then◌else◌, inl, inr, length, min, take, take_all,
}
use hurricache_cpp_client.Types.{Key, Sign, less, same, more, memcmp, read, key_lt}

-- A key as its constructors leave it: a buffer of its size, or none.
abbrev pub IsSized : Key → Type 0
IsSized k = elim k.buffer [ none ↦ k.size ≡ 0 | some b ↦ length b ≡ k.size ]

-- The order of words in a dictionary.
unfoldable pub is_before : List ℕ → List ℕ → Bool
is_before [] [] = false
is_before [] (y ∷ ys) = true
is_before (x ∷ xs) [] = false
is_before (x ∷ xs) (y ∷ ys) =
    let rest = is_before xs ys in if ltb x y then true else if ltb y x then false else rest

abbrev by_sign : Sign → Bool → Bool
by_sign less b = true
by_sign more b = false
by_sign same b = b

memcmp-is_before :
    (xs ys : List ℕ)
    → let n = min (length xs) (length ys) in
      by_sign (memcmp (take n xs) (take n ys)) (ltb (length xs) (length ys)) ≡ is_before xs ys
unfolding memcmp is_before
memcmp-is_before [] [] = refl
memcmp-is_before [] (y ∷ ys) =
    let none_shared : min 0 (suc (length ys)) ≡ 0 = omega arith in
    let shorter : ltb 0 (suc (length ys)) ≡ true = ground arith in rw none_shared rw shorter refl
memcmp-is_before (x ∷ xs) [] =
    let none_shared : min (suc (length xs)) 0 ≡ 0 = omega arith in
    let longer : ltb (suc (length xs)) 0 ≡ false = ground arith in rw none_shared rw longer refl
memcmp-is_before (x ∷ xs) (y ∷ ys) =
    let shared : min (suc (length xs)) (suc (length ys)) ≡ suc (min (length xs) (length ys)) =
      omega arith in
    let lengths : ltb (suc (length xs)) (suc (length ys)) ≡ ltb (length xs) (length ys) =
      ground arith in
    elim (Bool-cases (ltb x y)) [
      | inl e ↦ rw shared rw e refl
      | inr e ↦ elim (Bool-cases (ltb y x)) [
        | inl f ↦ rw shared rw e rw f refl
        | inr f ↦ rw shared rw lengths rw e rw f (memcmp-is_before xs ys)
      ]
    ]

-- The bytes of a key.
abbrev pub word_of : Key → List ℕ
word_of k = read k.buffer k.size

elim-by_sign :
    (s : Sign) (b : Bool) → (elim s [ less ↦ true | more ↦ false | same ↦ b ]) ≡ by_sign s b
elim-by_sign less b = refl
elim-by_sign same b = refl
elim-by_sign more b = refl

is_before-empty : (xs : List ℕ) → is_before xs [] ≡ false
unfolding is_before
is_before-empty [] = refl
is_before-empty (x ∷ xs) = refl

empty-is_before : (ys : List ℕ) → is_before [] ys ≡ ltb 0 (length ys)
unfolding is_before
empty-is_before [] = refl
empty-is_before (y ∷ ys) = ground arith

buffers-is_before :
    (m n : ℕ) (xs ys : Option (List ℕ))
    → IsSized (record { size = m; buffer = xs })
    → IsSized (record { size = n; buffer = ys })
    → key_lt (record { size = m; buffer = xs }) (record { size = n; buffer = ys })
      ≡ is_before (read xs m) (read ys n)
unfolding key_lt memcmp
buffers-is_before m n none none u v = rw u rw v (sym (is_before-empty []))
buffers-is_before m n none (some ys) u v =
    let whole = take_all n ys (omega arith) in rw whole rw u rw (sym v) (sym (empty-is_before ys))
buffers-is_before m n (some xs) none u v =
    let none_shared : min m n ≡ 0 = omega arith in
    let no_less : ltb m n ≡ false = ground arith in
    rw (none_shared, key_lt) rw no_less (sym (is_before-empty (take m xs)))
buffers-is_before m n (some xs) (some ys) u v =
    subst
      (λ k.
        key_lt (record { size = k; buffer = some xs }) (record { size = n; buffer = some ys })
        ≡ is_before (take k xs) (take n ys))
      u
      (subst
        (λ k.
          key_lt (record { size = length xs; buffer = some xs })
            (record { size = k; buffer = some ys })
          ≡ is_before (take (length xs) xs) (take k ys))
        v
        (elim-by_sign
            (memcmp (take (min (length xs) (length ys)) xs) (take (min (length xs) (length ys)) ys))
            (ltb (length xs) (length ys))
          ∙ memcmp-is_before xs ys
          ∙ ap (λ k. is_before k ys) (sym (take_all (length xs) xs (omega arith)))
          ∙ ap (λ k. is_before (take (length xs) xs) k)
              (sym (take_all (length ys) ys (omega arith)))))

-- Keys as their constructors leave them are in the order of their bytes as in a dictionary: a key
-- is less than another exactly if its bytes come before the other's.
pub key_lt-is_before :
    (a b : Key) → IsSized a → IsSized b → key_lt a b ≡ is_before (word_of a) (word_of b)
key_lt-is_before a b u v = buffers-is_before a.size b.size a.buffer b.buffer u v
