-- ===== src/Hashes/Crc.antt =====
-- common/src/hashes.cxx: the CRC of `crc32_accumulate` and of `strong_hash`, byte by byte.
use hurricache_cpp_client.Prelude.{
  ℕ, ◌%◌, ◌^◌, ◌<◌, ◌≡◌, refl, sym, subst, ap, ◌∙◌, List, [], ◌∷◌, ◌++◌, length, arith,
}
use hurricache_cpp_client.Hashes.{
  CrcUnit, little_endian, crc_eights, crc_four, crc_two, crc_one, crc32_accumulate,
}

-- Bytes, each below 256.
abbrev pub AreBytes : List ℕ → Type 0
AreBytes [] = Unit {0}
AreBytes (b ∷ bs) = (b < 256) × AreBytes bs

-- The CRC of bytes, one at a time.
unfoldable pub crc_bytes : (ℕ → ℕ → ℕ) → ℕ → List ℕ → ℕ
crc_bytes step crc [] = crc
crc_bytes step crc (b ∷ bs) = crc_bytes step (step crc b) bs

-- The instructions as they are documented: one of several bytes does what that of one byte does to
-- each, from the lowest on, and the CRC has 32 bits.
pub record IsCrcUnit (u : CrcUnit) : Type 0 where
  pub small : (crc b : ℕ) → u.crc_u8 crc b < 2 ^ 32
  pub eight_bytes :
      (crc a b c d e f g h : ℕ)
      → crc < 2 ^ 32
      → AreBytes (a ∷ b ∷ c ∷ d ∷ e ∷ f ∷ g ∷ h ∷ [])
      → u.crc_u64 crc (little_endian (a ∷ b ∷ c ∷ d ∷ e ∷ f ∷ g ∷ h ∷ []))
        ≡ crc_bytes u.crc_u8 crc (a ∷ b ∷ c ∷ d ∷ e ∷ f ∷ g ∷ h ∷ [])
  pub four_bytes :
      (crc a b c d : ℕ)
      → crc < 2 ^ 32
      → AreBytes (a ∷ b ∷ c ∷ d ∷ [])
      → u.crc_u32 crc (little_endian (a ∷ b ∷ c ∷ d ∷ []))
        ≡ crc_bytes u.crc_u8 crc (a ∷ b ∷ c ∷ d ∷ [])
  pub two_bytes :
      (crc a b : ℕ)
      → crc < 2 ^ 32
      → AreBytes (a ∷ b ∷ [])
      → u.crc_u16 crc (little_endian (a ∷ b ∷ [])) ≡ crc_bytes u.crc_u8 crc (a ∷ b ∷ [])

-- A state of the loop stands for the CRC that the bytes left of it will give.
abbrev rest_of : CrcUnit → ℕ × List ℕ → ℕ
rest_of u (crc, bytes) = crc_bytes u.crc_u8 crc bytes

abbrev IsState : ℕ × List ℕ → Type 0
IsState (crc, bytes) = (crc < 2 ^ 32) × AreBytes bytes

-- What a step does to a state: it is one still, stands for the same, and has fewer bytes left.
abbrev IsStep : CrcUnit → ℕ → ℕ × List ℕ → ℕ × List ℕ → Type 0
IsStep u n s t = IsState t × (rest_of u t ≡ rest_of u s) × (length t.1 < n)

pub crc_bytes-lt :
    (u : CrcUnit)
    → IsCrcUnit u
    → (crc : ℕ) (bytes : List ℕ) → crc < 2 ^ 32
    → crc_bytes u.crc_u8 crc bytes < 2 ^ 32
unfolding crc_bytes
crc_bytes-lt u law crc [] h = h
crc_bytes-lt u law crc (b ∷ bs) h = crc_bytes-lt u law (u.crc_u8 crc b) bs (law.small crc b)

pub crc_bytes-append :
    (u : CrcUnit) (crc : ℕ) (xs ys : List ℕ)
    → crc_bytes u.crc_u8 crc (xs ++ ys) ≡ crc_bytes u.crc_u8 (crc_bytes u.crc_u8 crc xs) ys
unfolding crc_bytes
crc_bytes-append u crc [] ys = refl
crc_bytes-append u crc (x ∷ xs) ys = crc_bytes-append u (u.crc_u8 crc x) xs ys

pub fits : (n : ℕ) → n < 2 ^ 32 → n % 2 ^ 32 ≡ n
fits n h = omega arith

module _ (u : CrcUnit) (law : IsCrcUnit u) where
  crc_eights-IsStep :
      (bytes : List ℕ) (crc : ℕ)
      → crc < 2 ^ 32
      → AreBytes bytes
      → IsStep u 8 (crc, bytes) (crc_eights u crc bytes)
  unfolding crc_eights crc_bytes little_endian
  crc_eights-IsStep (a ∷ b ∷ c ∷ d ∷ e ∷ f ∷ g ∷ h ∷ rest) crc small
        (pa, (pb, (pc, (pd, (pe, (pf, (pg, (ph, more)))))))) =
      let eight = a ∷ b ∷ c ∷ d ∷ e ∷ f ∷ g ∷ h ∷ [] in
      let e8 =
        law.eight_bytes crc a b c d e f g h small
          (pa, (pb, (pc, (pd, (pe, (pf, (pg, (ph, tt)))))))) in
      subst (λ k. IsStep u 8 (crc, a ∷ b ∷ c ∷ d ∷ e ∷ f ∷ g ∷ h ∷ rest) (crc_eights u k rest))
        (sym e8)
        (crc_eights-IsStep rest (crc_bytes u.crc_u8 crc eight) (crc_bytes-lt u law crc eight small)
          more)
  crc_eights-IsStep (a ∷ b ∷ c ∷ d ∷ e ∷ f ∷ g ∷ []) crc small bytes =
      ((small, bytes), refl, omega arith)
  crc_eights-IsStep (a ∷ b ∷ c ∷ d ∷ e ∷ f ∷ []) crc small bytes =
      ((small, bytes), refl, omega arith)
  crc_eights-IsStep (a ∷ b ∷ c ∷ d ∷ e ∷ []) crc small bytes = ((small, bytes), refl, omega arith)
  crc_eights-IsStep (a ∷ b ∷ c ∷ d ∷ []) crc small bytes = ((small, bytes), refl, omega arith)
  crc_eights-IsStep (a ∷ b ∷ c ∷ []) crc small bytes = ((small, bytes), refl, omega arith)
  crc_eights-IsStep (a ∷ b ∷ []) crc small bytes = ((small, bytes), refl, omega arith)
  crc_eights-IsStep (a ∷ []) crc small bytes = ((small, bytes), refl, omega arith)
  crc_eights-IsStep [] crc small bytes = ((small, bytes), refl, omega arith)

  crc_four-IsStep :
      (bytes : List ℕ) (crc : ℕ)
      → IsState (crc, bytes)
      → length bytes < 8
      → IsStep u 4 (crc, bytes) (crc_four u (crc, bytes))
  unfolding crc_four crc_bytes little_endian
  crc_four-IsStep (a ∷ b ∷ c ∷ d ∷ rest) crc (small, (pa, (pb, (pc, (pd, more))))) short =
      let four = a ∷ b ∷ c ∷ d ∷ [] in
      let e4 =
        ap (λ k. u.crc_u32 k (little_endian four)) (fits crc small)
        ∙ law.four_bytes crc a b c d small (pa, (pb, (pc, (pd, tt)))) in
      subst (λ k. IsStep u 4 (crc, a ∷ b ∷ c ∷ d ∷ rest) (k, rest)) (sym e4)
        ((crc_bytes-lt u law crc four small, more), refl, omega arith)
  crc_four-IsStep (a ∷ b ∷ c ∷ []) crc state short = (state, refl, omega arith)
  crc_four-IsStep (a ∷ b ∷ []) crc state short = (state, refl, omega arith)
  crc_four-IsStep (a ∷ []) crc state short = (state, refl, omega arith)
  crc_four-IsStep [] crc state short = (state, refl, omega arith)

  crc_two-IsStep :
      (bytes : List ℕ) (crc : ℕ)
      → IsState (crc, bytes)
      → length bytes < 4
      → IsStep u 2 (crc, bytes) (crc_two u (crc, bytes))
  unfolding crc_two crc_bytes little_endian
  crc_two-IsStep (a ∷ b ∷ rest) crc (small, (pa, (pb, more))) short =
      let e2 =
        ap (λ k. u.crc_u16 k (little_endian (a ∷ b ∷ []))) (fits crc small)
        ∙ law.two_bytes crc a b small (pa, (pb, tt)) in
      subst (λ k. IsStep u 2 (crc, a ∷ b ∷ rest) (k, rest)) (sym e2)
        ((law.small (u.crc_u8 crc a) b, more), refl, omega arith)
  crc_two-IsStep (a ∷ []) crc state short = (state, refl, omega arith)
  crc_two-IsStep [] crc state short = (state, refl, omega arith)

  crc_one-lem :
      (bytes : List ℕ) (crc : ℕ)
      → crc < 2 ^ 32
      → length bytes < 2
      → crc_one u (crc, bytes) ≡ crc_bytes u.crc_u8 crc bytes
  unfolding crc_one crc_bytes
  crc_one-lem [] crc small short = refl
  crc_one-lem (a ∷ []) crc small short = ap (λ k. u.crc_u8 k a) (fits crc small)
  crc_one-lem (a ∷ b ∷ rest) crc small short = absurd (omega arith)

  -- The CRC is that of the bytes one at a time.
  pub crc32_accumulate-crc_bytes :
      (bytes : List ℕ) (seed : ℕ)
      → seed < 2 ^ 32
      → AreBytes bytes
      → crc32_accumulate u bytes seed ≡ crc_bytes u.crc_u8 seed bytes
  unfolding crc32_accumulate
  crc32_accumulate-crc_bytes bytes seed small are =
      let s8 = crc_eights u seed bytes in
      let (state8, same8, short8) = crc_eights-IsStep bytes seed small are in
      let s4 = crc_four u s8 in
      let (state4, same4, short4) = crc_four-IsStep s8.1 s8.0 state8 short8 in
      let s2 = crc_two u s4 in
      let (state2, same2, short2) = crc_two-IsStep s4.1 s4.0 state4 short4 in
      crc_one-lem s2.1 s2.0 state2.0 short2 ∙ same2 ∙ same4 ∙ same8
