-- ===== src/Smart/Routing/Live.antt =====
-- The clients of the table of smart/src/routing_table.cpp that were not shut down.
use hurricache_cpp_client.Prelude.{
  ℕ, ◌<◌, ◌≡◌, refl, ◌⊎◌, inl, inr, Bool, true, false, not, ◌&&◌, List, [], ◌∷◌, some, arith, ◌==◌,
  if◌then◌else◌, Option-cases, Bool-cases,
}
use hurricache_cpp_client.Prelude.Dict.{
  Text, text_eq, ◌=?◌, text_eq_iff, lookup, retain, member, lookup-insert, lookup-retain, Distinct,
  insert-Distinct, retain-Distinct, member-append,
}
use hurricache_cpp_client.Smart.Routing.{
  route_eq, nat_eq, Client, RoutingTable, clients, store_client, create_missing, remove_old,
}

-- The map of targets: each client is filed under its target, was made by this table, is open, and
-- stands there once.
pub record HasTargets (t : RoutingTable) : Type 0 where
  pub named : (n : Text) (c : Client) → lookup n t.targets ≡ some c → c.target ≡ n
  pub made : (n : Text) (c : Client) → lookup n t.targets ≡ some c → c.id < t.next_id
  pub ended : (i : ℕ) → member i t.closed ≡ true → i < t.next_id
  pub is_open : (n : Text) (c : Client) → lookup n t.targets ≡ some c → member c.id t.closed ≡ false
  pub distinct : Distinct t.targets
  pub once :
      (n m : Text) (c d : Client)
      → lookup n t.targets ≡ some c
      → lookup m t.targets ≡ some d
      → c.id ≡ d.id
      → n ≡ m

lookup-store_client :
    (n m : Text) (t : RoutingTable)
    → lookup n (store_client t m).targets
      ≡ (if m =? n then some (record { id = t.next_id; target = m }) else lookup n t.targets)
unfolding store_client
lookup-store_client n m t = lookup-insert m n _ t.targets

-- What stands in the map behind `store_client`.
store-cases :
    (n m : Text) (t : RoutingTable) (c : Client)
    → lookup n (store_client t m).targets ≡ some c
    → ((c ≡ record { id = t.next_id; target = m }) × (m ≡ n)) ⊎ (lookup n t.targets ≡ some c)
store-cases n m t c h = elim (Bool-cases (m =? n)) [
  | inl e ↦ inl (cc (rw (lookup-store_client, e) at h), (text_eq_iff m n).0 e)
  | inr e ↦ inr (rw (lookup-store_client, e) at h)
]

pub store_client-HasTargets :
    (t : RoutingTable) (m : Text) → HasTargets t → HasTargets (store_client t m)
unfolding store_client
store_client-HasTargets t m v = record {
  named = λ n c h. ground (arith, store-cases n m t c h, v.named n c);
  made = λ n c h. ground (arith, store-cases n m t c h, v.made n c);
  ended = λ i h. ground (arith, v.ended i h);
  is_open = λ n c h. ground (arith, store-cases n m t c h, v.is_open n c, v.ended t.next_id);
  distinct = insert-Distinct m _ t.targets v.distinct;
  once = λ n k c d h g e.
      ground (
        arith,
        store-cases n m t c h,
        store-cases k m t d g,
        v.once n k c d,
        v.made n c,
        v.made k d,
      );
}

pub create_missing-HasTargets :
    (names : List Text) (t : RoutingTable) → HasTargets t → HasTargets (create_missing names t)
unfolding create_missing
create_missing-HasTargets [] t v = v
create_missing-HasTargets (n ∷ names) t v = elim (Option-cases (lookup n t.targets)) [
  | inr (c, e) ↦ rw (e, create_missing) (create_missing-HasTargets names t v)
  | inl e ↦
      rw (e, create_missing)
        (create_missing-HasTargets names (store_client t n) (store_client-HasTargets t n v))
]

-- A client of the closed entries is one that the map had under a key not kept.
pub closed_entry :
    (keep : Text → Bool) (i : ℕ) (m : List (Text × Client))
    → Distinct m
    → member i (clients (retain keep m)) ≡ true
    → (n : Text) × (c : Client) × (lookup n m ≡ some c) × (keep n ≡ true) × (c.id ≡ i)
unfolding retain member lookup
closed_entry keep i [] h e = cc
closed_entry keep i ((n, c) ∷ m) h e = elim (Bool-cases (keep n && c.id == i)) [
  | inl here ↦ (n, c, rw ((text_eq_iff n n).1 refl), ground arith, ground arith)
  | inr later ↦
      let (k, d, found, kept, same) = closed_entry keep i m h.1 (ground arith) in
      (k, d, ground (arith, text_eq_iff n k), kept, same)
]

kept :
    (names : List Text) (t : RoutingTable) (n : Text) (c : Client)
    → lookup n (remove_old names t).targets ≡ some c
    → (member n names ≡ true) × (lookup n t.targets ≡ some c)
unfolding remove_old
kept names t n c h = ground (arith, lookup-retain (λ k. member k names) n t.targets)

-- A client is closed by the removal if it was closed, or stood under a name that is not kept.
closed-cases :
    (names : List Text) (t : RoutingTable) (i : ℕ)
    → HasTargets t
    → member i (remove_old names t).closed ≡ true
    → (member i t.closed ≡ true)
      ⊎ ((n : Text) × (c : Client) × (lookup n t.targets ≡ some c)
          × (member n names ≡ false)
          × (c.id ≡ i))
unfolding remove_old
closed-cases names t i v h = elim (Bool-cases (member i t.closed)) [
  | inl old ↦ inl old
  | inr new ↦
      let dropped = clients (retain (λ n. not (member n names)) t.targets) in
      let (n, c, found, gone, same) =
        closed_entry (λ n. not (member n names)) i t.targets v.distinct
          (ground (arith, member-append i t.closed dropped)) in
      inr (n, c, found, ground arith, same)
]

-- What the removal closes stands under no name that is kept.
remaining_is_open :
    (names : List Text) (t : RoutingTable) (n : Text) (c : Client)
    → HasTargets t
    → (member n names ≡ true) × (lookup n t.targets ≡ some c)
    → member c.id (remove_old names t).closed ≡ false
remaining_is_open names t n c v (listed, found) =
    elim (Bool-cases (member c.id (remove_old names t).closed)) [
      | inr e ↦ e
      | inl e ↦ elim (closed-cases names t c.id v e) [
        | inl old ↦ ground (arith, v.is_open n c found)
        | inr (k, d, at_k, gone, same) ↦ ground (arith, v.once k n d c at_k found same)
      ]
    ]

pub remove_old-HasTargets :
    (names : List Text) (t : RoutingTable) → HasTargets t → HasTargets (remove_old names t)
remove_old-HasTargets names t v = record {
  named = λ n c h. v.named n c (kept names t n c h).1;
  made = λ n c h. unfold remove_old in v.made n c (kept names t n c h).1;
  ended = λ i h. elim (closed-cases names t i v h) [
    | inl old ↦ unfold remove_old in v.ended i old
    | inr (n, c, found, _, same) ↦ unfold remove_old in ground (arith, v.made n c found)
  ];
  is_open = λ n c h. remaining_is_open names t n c v (kept names t n c h);
  distinct = unfold remove_old in retain-Distinct _ t.targets v.distinct;
  once = λ n m c d h g. v.once n m c d (kept names t n c h).1 (kept names t m d g).1;
}
