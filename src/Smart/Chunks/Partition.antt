-- ===== src/Smart/Chunks/Partition.antt =====
-- The splitters of smart/src/smart_client.cpp, for any items that have a size.
use hurricache_cpp_client.Prelude.{
  ℕ, ◌+◌, ◌%◌, ◌^◌, ◌≤◌, ◌<◌, ◌≡◌, refl, sym, ap, ◌∙◌, ◌⊎◌, inl, inr, true, false, not, ◌&&◌, List,
  [], ◌∷◌, ◌++◌, flatten, append_assoc, append-nil, arith, Bool-cases, ltb, if◌then◌else◌, length,
  length-append, All, All-append, Run, ok, Returns, is_empty,
}
use hurricache_cpp_client.Smart.Chunks.{
  Splitter, flush, accept, partition_loop, partition_chunks, vector_kind,
}

abbrev pub total : {A : Type 0} → (A → ℕ) → List A → ℕ
total weight [] = 0
total weight (a ∷ items) = weight a + total weight items

pub total-append :
    {A : Type 0} (weight : A → ℕ) (xs ys : List A)
    → total weight (xs ++ ys) ≡ total weight xs + total weight ys
total-append weight [] ys = omega arith
total-append weight (x ∷ xs) ys = omega (arith, total-append weight xs ys)

pub flatten-snoc :
    {A : Type 0} (xss : List (List A)) (xs : List A) → flatten (xss ++ xs ∷ []) ≡ flatten xss ++ xs
unfolding flatten
flatten-snoc [] xs = append-nil xs
flatten-snoc (ys ∷ xss) xs = rw (flatten-snoc xss xs) (sym (append_assoc ys (flatten xss) xs))

ended : {A : Type 0} (xs : List A) → is_empty xs ≡ true → xs ≡ []
ended [] e = refl
ended (x ∷ xs) e = cc

-- The size of an item is computed, and is no number near the end of `size_t`.
abbrev pub Measured : {A : Type 0} → (A → ℕ) → (A → Run ℕ) → A → Type 0
Measured weight size a = (size a ≡ ok (weight a)) × (weight a < 2 ^ 62)

-- A chunk is not empty, and within the limit unless it is a single item.
abbrev pub WithinLimit : {A : Type 0} → (A → ℕ) → ℕ → ℕ → List A → Type 0
WithinLimit weight base_size limit c =
    (0 < length c) × ((length c ≡ 1) ⊎ (base_size + total weight c ≤ limit))

module _ {A : Type 0} (weight : A → ℕ) (base_size limit : ℕ) (low_base : base_size < 2 ^ 62)
    (low_limit : limit < 2 ^ 62) where
  abbrev Good : List A → Type 0
  Good = WithinLimit weight base_size limit

  -- What holds between two rounds, `seen` being the items behind the loop.
  record Inv (seen : List A) (s : Splitter (List A)) : Type 0 where
    whole : flatten s.chunks ++ s.current ≡ seen
    past : All Good s.chunks
    counted : s.current_size ≡ base_size + total weight s.current
    low : s.current_size < 2 ^ 63
    fits : (s.current ≡ []) ⊎ Good s.current

  full : (c : List A) → (c ≡ []) ⊎ Good c → is_empty c ≡ false → Good c
  full [] h e = cc
  full (x ∷ c) h e = ground arith

  flush-Inv :
      (seen : List A) (s : Splitter (List A)) (elem : ℕ)
      → Inv seen s
      → let t = flush vector_kind base_size limit s elem in
        Inv seen t × ((t.current ≡ []) ⊎ ((t.current_size + elem) % 2 ^ 64 ≤ limit))
  unfolding flush
  flush-Inv seen s elem v =
      elim (Bool-cases (not (is_empty s.current) && ltb limit ((s.current_size + elem) % 2 ^ 64))) [
        | inr e ↦ rw (e, flush) (v, ground arith)
        | inl e ↦
            let good : Good s.current = full s.current v.fits (ground arith) in
            rw (e, flush)
              (
                record {
                  whole = append-nil _ ∙ flatten-snoc s.chunks s.current ∙ v.whole;
                  past = All-append Good s.chunks (s.current ∷ []) v.past (good, tt);
                  counted = omega arith;
                  low = omega arith;
                  fits = inl refl;
                },
                inl refl,
              )
      ]

  accept-Inv :
      (seen : List A) (s : Splitter (List A)) (a : A)
      → Inv seen s
      → (s.current ≡ []) ⊎ ((s.current_size + weight a) % 2 ^ 64 ≤ limit)
      → weight a < 2 ^ 62
      → Inv (seen ++ a ∷ []) (accept vector_kind s a (weight a))
  unfolding accept
  accept-Inv seen s a v room light =
      let added = total-append weight s.current (a ∷ []) in
      let longer = length-append s.current (a ∷ []) in
      record {
        whole =
            sym (append_assoc (flatten s.chunks) s.current (a ∷ []))
            ∙ ap (λ xs. xs ++ a ∷ []) v.whole;
        past = v.past;
        counted = ground arith;
        low = ground arith;
        fits = inr (ground arith);
      }

  loop-Inv :
      (size : A → Run ℕ) (items seen : List A) (s : Splitter (List A))
      → All (Measured weight size) items
      → Inv seen s
      → Returns (partition_loop vector_kind size base_size limit items s) (Inv (seen ++ items))
  unfolding partition_loop
  loop-Inv size [] seen s h v = (s, refl, rw append-nil v)
  loop-Inv size (a ∷ items) seen s ((measured, light), h) v =
      let (v', room) = flush-Inv seen s (weight a) v in
      let (t, run, w) =
        loop-Inv size items (seen ++ a ∷ []) _ h (accept-Inv seen _ a v' room light) in
      (t, rw measured run, rw append_assoc at w)

  end-Good :
      (seen : List A) (s : Splitter (List A))
      → Inv seen s
      → let cs = if is_empty s.current then s.chunks else s.chunks ++ s.current ∷ [] in
        (flatten cs ≡ seen) × All Good cs
  end-Good seen s v = elim (Bool-cases (is_empty s.current)) [
    | inl e ↦ rw e (rw (ended s.current e, append-nil) at v.whole, v.past)
    | inr e ↦ rw e (
      flatten-snoc s.chunks s.current ∙ v.whole,
      All-append Good s.chunks (s.current ∷ []) v.past (full s.current v.fits e, tt),
    )
  ]

  -- The splitter ends with chunks that hold the items in their order, none of them empty, each of
  -- them within the limit unless it is a single item.
  pub partition_chunks-Good :
      (size : A → Run ℕ) (items : List A)
      → All (Measured weight size) items
      → Returns
          (partition_chunks vector_kind size base_size limit items)
          λ cs. (flatten cs ≡ items) × All (WithinLimit weight base_size limit) cs
  unfolding partition_chunks flatten
  partition_chunks-Good size items h =
      let start : Inv [] (record { chunks = []; current_size = base_size; current = [] }) = record {
        whole = refl;
        past = tt;
        counted = omega arith;
        low = omega arith;
        fits = inl refl;
      } in
      let (s, run, v) = loop-Inv size items [] _ h start in (_, rw run, end-Good items s v)
