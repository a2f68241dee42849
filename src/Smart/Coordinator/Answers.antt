-- ===== src/Smart/Coordinator/Answers.antt =====
-- smart/src/coordinator_client.cpp: what `provideGlobalRoutingInfo` makes of a coordinator's stream.
use hurricache_cpp_client.Prelude.{
  ℕ, ◌%◌, ◌^◌, ◌≡◌, refl, sym, ap, ◌∙◌, false, List, [], ◌∷◌, ◌++◌, Option, none, some, ◌==◌,
  if◌then◌else◌, arith, append_assoc, append-nil, map,
}
use hurricache_cpp_client.Prelude.Dict.{text_eq}
use hurricache_cpp_client.Rpc.Streams.{IsMachine, sum_of, until_throw}
use hurricache_cpp_client.Smart.Routing.{Peer}
use hurricache_cpp_client.Smart.Execute.{RoutingInfo}
use hurricache_cpp_client.Smart.Coordinator.{
  PeerRouting, RoutingInfoData, copy_partitions, push_peers, info_or_new, add_chunk,
  routing_failure, routing_proceed,
}

pub routing_proceed-IsMachine :
    IsMachine routing_proceed add_chunk (λ s x. false) info_or_new routing_failure
unfolding routing_proceed
routing_proceed-IsMachine = record {
  at_start = λ b c h. ground arith;
  at_chunk = λ x c h. ground arith;
  at_end = λ c h. ground arith;
  at_finish = λ c h. ground arith;
}

abbrev pub with_partitions : PeerRouting → List ℕ → Peer
with_partitions p ids = record { target = p.target; role = p.role; partition_ids = ids }

-- A peer as it is sent.
abbrev pub peer_of : PeerRouting → Peer
peer_of p = with_partitions p p.partition_ids

-- The shards of the first chunk that has any.
unfoldable pub first_shards : List RoutingInfoData → ℕ
first_shards [] = 0
first_shards (x ∷ xs) =
    let rest = first_shards xs in if x.max_shards % 2 ^ 32 == 0 then rest else x.max_shards % 2 ^ 32

-- The peers of all chunks.
unfoldable pub all_peers : List RoutingInfoData → List Peer
all_peers [] = []
all_peers (x ∷ xs) = map peer_of x.peer_routing ++ all_peers xs

abbrev pub merged : List RoutingInfoData → RoutingInfo
merged xs = record { max_shards = first_shards xs; peers = all_peers xs }

copy_partitions-append : (w ps : List ℕ) → copy_partitions w ps ≡ w ++ ps
unfolding copy_partitions
copy_partitions-append w [] = sym (append-nil w)
copy_partitions-append w (p ∷ ps) =
    copy_partitions-append (w ++ (p ∷ [])) ps ∙ append_assoc w (p ∷ []) ps

push_peers-append : (w : List Peer) (ps : List PeerRouting) → push_peers w ps ≡ w ++ map peer_of ps
unfolding push_peers
push_peers-append w [] = sym (append-nil w)
push_peers-append w (p ∷ ps) =
    ap (λ ids. push_peers (w ++ (with_partitions p ids ∷ [])) ps)
      (copy_partitions-append [] p.partition_ids)
    ∙ push_peers-append (w ++ (peer_of p ∷ [])) ps
    ∙ append_assoc w (peer_of p ∷ []) (map peer_of ps)

-- The chunks behind those that gave `info`.
abbrev extended : RoutingInfo → List RoutingInfoData → RoutingInfo
extended info xs = record {
  max_shards = if info.max_shards == 0 then first_shards xs else info.max_shards;
  peers = info.peers ++ all_peers xs;
}

extended-chunk :
    (n : ℕ) (ps : List Peer) (x : RoutingInfoData) (xs : List RoutingInfoData)
    → extended
        (record {
          max_shards = if n == 0 then x.max_shards % 2 ^ 32 else n;
          peers = push_peers ps x.peer_routing;
        })
        xs
      ≡ extended (record { max_shards = n; peers = ps }) (x ∷ xs)
unfolding first_shards all_peers
extended-chunk n ps x xs = rw (push_peers-append, append_assoc) (ground arith)

sum_of-extended :
    (xs : List RoutingInfoData) (info : RoutingInfo)
    → info_or_new (sum_of add_chunk (some info) xs) ≡ extended info xs
unfolding sum_of add_chunk first_shards all_peers
sum_of-extended [] info = rw append-nil (ground arith)
sum_of-extended (x ∷ xs) info =
    sum_of-extended xs _ ∙ extended-chunk info.max_shards info.peers x xs

pub sum_of-merged : (xs : List RoutingInfoData) → info_or_new (sum_of add_chunk none xs) ≡ merged xs
unfolding sum_of add_chunk first_shards all_peers
sum_of-merged [] = refl
sum_of-merged (x ∷ xs) = sum_of-extended xs _ ∙ extended-chunk 0 [] x xs

pub until_throw-all :
    (s : Option RoutingInfo) (xs : List RoutingInfoData)
    → until_throw add_chunk (λ s x. false) s xs ≡ xs
unfolding until_throw
until_throw-all s [] = refl
until_throw-all s (x ∷ xs) = ap (λ r. x ∷ r) (until_throw-all (add_chunk s x) xs)
