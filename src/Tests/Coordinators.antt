-- ===== src/Tests/Coordinators.antt =====
-- smart/src/coordinator_client.cpp at concrete streams of two coordinators.
use hurricache_cpp_client.Prelude.{◌≡◌, refl, true, List, [], ◌∷◌, some}
use hurricache_cpp_client.Prelude.Int.{pos}
use hurricache_cpp_client.Rpc.{Ending}
use hurricache_cpp_client.Smart.Routing.{NodeRole}
use hurricache_cpp_client.Smart.Execute.{refresh_routing}
use hurricache_cpp_client.Smart.Execute.Refresh.{routed_by}
use hurricache_cpp_client.Smart.Coordinator.{
  RoutingInfoData, CoordinatorClient, new_coordinator_client, Coordinators,
  provide_global_routing_info, ensure_stub,
}
use hurricache_cpp_client.Smart.Coordinator.Answers.{merged}
use hurricache_cpp_client.Smart.Coordinator.Routes.{
  created, asked, routing_outcome, routing_deadline, provide_global_routing_info-merged,
}
use hurricache_cpp_client.Smart.Coordinator.Refresh.{ask_coordinator, refresh_routing-merged}
use hurricache_cpp_client.Tests.Executes.{ready_client}

abbrev ended_well : Ending
ended_well = record { status = record { code = 0; message = [] }; trailers = [] }

-- Two chunks: the first says nothing of the shards.
abbrev two_chunks : List RoutingInfoData
two_chunks =
    record {
      max_shards = 0;
      peer_routing =
          record { target = 97 ∷ []; role = NodeRole.master; partition_ids = 0 ∷ 1 ∷ [] } ∷ [];
    }
    ∷ record {
      max_shards = 2;
      peer_routing =
          record { target = 98 ∷ []; role = NodeRole.backup; partition_ids = 0 ∷ [] } ∷ [];
    }
    ∷ []

abbrev network : Coordinators
network target deadline = record { opens = true; chunks = two_chunks; ending = ended_well }

-- A client that has asked another coordinator before.
abbrev used_client : CoordinatorClient
used_client = (ensure_stub new_coordinator_client (1 ∷ [])).0

provide_global_routing_info-merged_example :
    provide_global_routing_info used_client 5 network (2 ∷ []) (pos 100) ≡ (
      record used_client { active_target = 2 ∷ []; stub = some (2 ∷ []) },
      routing_outcome (network (2 ∷ []) (routing_deadline 5 (pos 100))) ∷ [],
    )
provide_global_routing_info-merged_example =
    provide_global_routing_info-merged used_client 5 network (2 ∷ []) (pos 100)
      (asked (1 ∷ []) created) (unfold ensure_stub in refl)

refresh_routing-merged_example :
    refresh_routing (ask_coordinator new_coordinator_client 5 network (pos 0)) ready_client
    ≡ routed_by ready_client 0 (merged two_chunks)
refresh_routing-merged_example =
    refresh_routing-merged new_coordinator_client 5 network (pos 0) ready_client created refl refl
      refl refl
