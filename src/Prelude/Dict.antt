-- ===== src/Prelude/Dict.antt =====
-- Keys with a Boolean equality, and dictionaries as association lists.
use hurricache_cpp_client.Prelude.Tests.{◌==◌ as nat_eq, if◌then◌else◌}
use Prim.Native.Nat.{ℕ}
use mathlib.Core.Path.{◌≡◌, refl}
use mathlib.Core.Logic.{◌↔◌}
use mathlib.Core.Bool.{Bool, true, false, ◌&&◌, ◌||◌}
use mathlib.Core.List.{List, [], ◌∷◌, ◌++◌}
use mathlib.Core.Option.{Option, none, some}
use native.Mathlib.Omega.{arith}

pub record Eq (A : Type 0) : Type 0 where
  pub eq : A → A → Bool
  pub eq_iff : (a b : A) → (eq a b ≡ true) ↔ (a ≡ b)

infix 50 ◌=?◌
abbrev pub ◌=?◌ : {A : Type 0} ⦃e : Eq A⦄ → A → A → Bool
◌=?◌ ⦃e⦄ = e.eq

abbrev pub nat_list_eq : List ℕ → List ℕ → Bool
nat_list_eq [] [] = true
nat_list_eq [] (y ∷ ys) = false
nat_list_eq (x ∷ xs) [] = false
nat_list_eq (x ∷ xs) (y ∷ ys) = nat_eq x y && nat_list_eq xs ys

nat_list_eq_sound : (xs ys : List ℕ) → nat_list_eq xs ys ≡ true → xs ≡ ys
nat_list_eq_sound [] [] e = refl
nat_list_eq_sound [] (y ∷ ys) e = cc
nat_list_eq_sound (x ∷ xs) [] e = cc
nat_list_eq_sound (x ∷ xs) (y ∷ ys) e = ground (arith, nat_list_eq_sound xs ys)

nat_list_eq_refl : (xs : List ℕ) → nat_list_eq xs xs ≡ true
nat_list_eq_refl [] = refl
nat_list_eq_refl (x ∷ xs) = ground (arith, nat_list_eq_refl xs)

-- A `std::string`, by its bytes.
abbrev pub Text : Type 0
Text = List ℕ

pub text_eq_iff : (s t : Text) → (nat_list_eq s t ≡ true) ↔ (s ≡ t)
text_eq_iff s t = (nat_list_eq_sound s t, λ e. rw e (nat_list_eq_refl t))

instance abbrev pub text_eq : Eq Text
text_eq = record { eq = nat_list_eq; eq_iff = text_eq_iff }

module _ {K V : Type 0} ⦃e : Eq K⦄ where
  unfoldable pub lookup : K → List (K × V) → Option V
  lookup k [] = none
  lookup k ((j, v) ∷ m) = if j =? k then some v else lookup k m

  -- `m[k] = v`.
  unfoldable pub insert : K → V → List (K × V) → List (K × V)
  insert k v [] = (k, v) ∷ []
  insert k v ((j, w) ∷ m) = if j =? k then (k, v) ∷ m else (j, w) ∷ insert k v m

  -- The entries under the keys that `keep` holds of.
  unfoldable pub retain : (K → Bool) → List (K × V) → List (K × V)
  retain keep [] = []
  retain keep ((j, v) ∷ m) = if keep j then (j, v) ∷ retain keep m else retain keep m

  pub lookup-insert :
      (k j : K) (v : V) (m : List (K × V))
      → lookup j (insert k v m) ≡ (if k =? j then some v else lookup j m)
  unfolding lookup insert
  lookup-insert k j v [] = refl
  lookup-insert k j v ((i, w) ∷ m) =
      ground (arith, e.eq_iff k j, e.eq_iff i k, e.eq_iff i j, lookup-insert k j v m)

  pub lookup-retain :
      (keep : K → Bool) (k : K) (m : List (K × V))
      → lookup k (retain keep m) ≡ (if keep k then lookup k m else none)
  unfolding lookup retain
  lookup-retain keep k [] = ground arith
  lookup-retain keep k ((i, w) ∷ m) = ground (arith, e.eq_iff i k, lookup-retain keep k m)

module _ {K V : Type 0} ⦃e : Eq K⦄ where
  -- No key stands twice.
  abbrev pub Distinct : List (K × V) → Type 0
  Distinct [] = Unit
  Distinct ((k, v) ∷ m) = (lookup k m ≡ none) × Distinct m

  pub insert-Distinct : (k : K) (v : V) (m : List (K × V)) → Distinct m → Distinct (insert k v m)
  unfolding insert
  insert-Distinct k v [] h = (unfold lookup in refl, tt)
  insert-Distinct k v ((j, w) ∷ m) h =
      ground (arith, e.eq_iff j k, e.eq_iff k j, insert-Distinct k v m h.1, lookup-insert k j v m)

  pub retain-Distinct : (keep : K → Bool) (m : List (K × V)) → Distinct m → Distinct (retain keep m)
  unfolding retain
  retain-Distinct keep [] h = tt
  retain-Distinct keep ((j, w) ∷ m) h =
      ground (arith, retain-Distinct keep m h.1, lookup-retain keep j m)

module _ {K : Type 0} ⦃e : Eq K⦄ where
  unfoldable pub member : K → List K → Bool
  member k [] = false
  member k (j ∷ ks) = j =? k || member k ks

  -- `set.insert`.
  unfoldable pub add : K → List K → List K
  unfolding member
  add k ks = if member k ks then ks else ks ++ k ∷ []

  member-snoc : (k j : K) (ks : List K) → member j (ks ++ k ∷ []) ≡ (member j ks || k =? j)
  unfolding member
  member-snoc k j [] = ground arith
  member-snoc k j (i ∷ ks) = ground (arith, member-snoc k j ks)

  pub member-add : (k j : K) (ks : List K) → member j (add k ks) ≡ (member j ks || k =? j)
  unfolding add
  member-add k j ks = ground (arith, member-snoc k j ks, e.eq_iff k j)

  pub member-append : (k : K) (js ks : List K) → member k (js ++ ks) ≡ (member k js || member k ks)
  unfolding member
  member-append k [] ks = refl
  member-append k (j ∷ js) ks = ground (arith, member-append k js ks)
