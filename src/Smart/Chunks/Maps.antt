-- ===== src/Smart/Chunks/Maps.antt =====
-- `partitionMapChunks` and `partitionOrderedMapChunks` of smart/src/smart_client.cpp, by runs of entries.
use hurricache_cpp_client.Prelude.{
  ℕ, ◌+◌, ◌%◌, ◌^◌, ◌<◌, ◌≡◌, refl, sym, ap, ◌∙◌, List, [], ◌∷◌, ◌++◌, map, flatten, map-append,
  append_assoc, Option, arith, All, Run, ok, >>=-eq-ok, subst, append-nil, inl, inr, is_empty,
  Bool-cases, not, ◌&&◌, ltb,
}
use hurricache_cpp_client.Types.{Value}
use hurricache_cpp_client.Smart.Chunks.Partition.{Measured, WithinLimit, partition_chunks-Good}
use hurricache_cpp_client.Smart.Chunks.{
  MapChunk, Splitter, vector_kind, map_kind, optional_value, flush, accept, partition_loop,
  partition_chunks,
}

module _ {K : Type 0} where
  values_of : List (K × Option Value) → List Value
  values_of [] = []
  values_of ((k, v) ∷ entries) = optional_value v ++ values_of entries

  -- The chunk of a run of entries: all the keys, and the values that are there.
  pub chunk_of : List (K × Option Value) → MapChunk K
  unfolding values_of
  chunk_of entries = record { keys = map (λ e. e.0) entries; values = values_of entries }

  values_of-append :
      (xs ys : List (K × Option Value)) → values_of (xs ++ ys) ≡ values_of xs ++ values_of ys
  unfolding values_of
  values_of-append [] ys = refl
  values_of-append ((k, v) ∷ xs) ys =
      rw (values_of-append xs ys)
        (sym (append_assoc (optional_value v) (values_of xs) (values_of ys)))

  chunk_of-push :
      (c : List (K × Option Value)) (e : K × Option Value)
      → map_kind.push (chunk_of c) e ≡ chunk_of (c ++ e ∷ [])
  unfolding chunk_of
  chunk_of-push c (k, v) = ground (
    arith,
    map-append (λ (e : K × Option Value). e.0) c ((k, v) ∷ []),
    values_of-append c ((k, v) ∷ []),
    append-nil (optional_value v),
  )

  is_empty-chunk_of : (c : List (K × Option Value)) → is_empty (chunk_of c).keys ≡ is_empty c
  unfolding chunk_of
  is_empty-chunk_of [] = refl
  is_empty-chunk_of (e ∷ c) = refl

  -- The splitter of entries, seen as one of chunks.
  view : Splitter (List (K × Option Value)) → Splitter (MapChunk K)
  view s = record {
    chunks = map chunk_of s.chunks;
    current_size = s.current_size;
    current = chunk_of s.current;
  }

  module _ (base_size limit : ℕ) where
    view-flush :
        (s : Splitter (List (K × Option Value))) (elem : ℕ)
        → flush map_kind base_size limit (view s) elem
          ≡ view (flush vector_kind base_size limit s elem)
    unfolding view flush chunk_of
    view-flush s elem =
        elim (Bool-cases
          (not (is_empty s.current) && ltb limit ((s.current_size + elem) % 2 ^ 64))) [
            | inl e ↦
                rw (is_empty-chunk_of s.current, flush, e)
                  (λ i. record {
                    chunks = sym (map-append chunk_of s.chunks (s.current ∷ [])) i;
                    current_size = base_size;
                    current = record { keys = []; values = [] };
                  })
            | inr e ↦ rw (is_empty-chunk_of s.current, flush, e)
          ]

    view-accept :
        (s : Splitter (List (K × Option Value))) (e : K × Option Value) (elem : ℕ)
        → accept map_kind (view s) e elem ≡ view (accept vector_kind s e elem)
    unfolding view accept
    view-accept s e elem = λ i. record {
      chunks = map chunk_of s.chunks;
      current_size = (s.current_size + elem) % 2 ^ 64;
      current = chunk_of-push s.current e i;
    }

    view-loop :
        (size : K × Option Value → Run ℕ) (items : List (K × Option Value))
        (s t : Splitter (List (K × Option Value)))
        → partition_loop vector_kind size base_size limit items s ≡ ok t
        → partition_loop map_kind size base_size limit items (view s) ≡ ok (view t)
    unfolding partition_loop
    view-loop size [] s t h = cc
    view-loop size (e ∷ items) s t h =
        let (elem, measured, rest) = >>=-eq-ok (size e) _ h in
        let next = flush vector_kind base_size limit s elem in
        rw measured (
          subst (λ u. partition_loop map_kind size base_size limit items u ≡ ok (view t))
            (sym (ap (λ u. accept map_kind u e elem) (view-flush s elem) ∙ view-accept next e elem))
            (view-loop size items (accept vector_kind next e elem) t rest))

    view-chunks :
        (size : K × Option Value → Run ℕ) (items : List (K × Option Value))
        (ess : List (List (K × Option Value)))
        → partition_chunks vector_kind size base_size limit items ≡ ok ess
        → partition_chunks map_kind size base_size limit items ≡ ok (map chunk_of ess)
    unfolding partition_chunks view chunk_of
    view-chunks size items ess h =
        let (s, run, ended) =
          >>=-eq-ok
            (partition_loop vector_kind size base_size limit items
              (record { chunks = []; current_size = base_size; current = [] }))
            _ h in
        rw (view-loop size items _ s run, is_empty-chunk_of s.current)
          (elim (Bool-cases (is_empty s.current)) [
            | inl e ↦ rw e (cc (rw e at ended))
            | inr e ↦
                rw e
                  (ap ok (sym (map-append chunk_of s.chunks (s.current ∷ []))) ∙ cc (rw e at ended))
          ])

  -- The splitter of a map ends with the chunks of runs of entries that, one behind the other, are
  -- the entries, each run non-empty and within the limit unless it is a single entry.
  pub partition_chunks-chunk_of :
      (weight : K × Option Value → ℕ) (base_size limit : ℕ)
      → base_size < 2 ^ 62
      → limit < 2 ^ 62
      → (size : K × Option Value → Run ℕ) (entries : List (K × Option Value))
      → All (Measured weight size) entries
      → (runs : List (List (K × Option Value))) × (partition_chunks map_kind size base_size limit
            entries
          ≡ ok (map chunk_of runs))
        × (flatten runs ≡ entries)
        × All (WithinLimit weight base_size limit) runs
  partition_chunks-chunk_of weight base_size limit low_base low_limit size entries h =
      let (runs, run, (whole, good)) =
        partition_chunks-Good weight base_size limit low_base low_limit size entries h in
      (runs, view-chunks base_size limit size entries runs run, whole, good)
