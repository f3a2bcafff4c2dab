-- ===== src/RouteController/Apply.antt =====
-- `manageServices` and `UpdateRouteStatus` of internal/controllers/kubelb/route_controller.go, and
-- `CreateOrUpdateService` of internal/resources/service/service.go.
use kubelb_ce.Base.{Bool, ◌&&◌, Option, none, some, List, [], ◌∷◌, ◌++◌}
use kubelb_ce.Base.{text_eq, if◌then◌else◌}
use kubelb_ce.Base.Dict.{Dict}
use kubelb_ce.Base.Text.{Text}
use kubelb_ce.Api.{
  StringMap, Service, AnnotationSettings, Route, RouteStatus, RouteServiceStatus, KubernetesSource,
}
use kubelb_ce.Cluster.{
  Kind, Client, World, Answer, Failure, Result, Action, pure, raise, or_halt, request_of, ◌>>=◌,
  ◌>>◌, try_get, get, create, update, patch_status,
}
use kubelb_ce.Labels.{original_route_name}
use kubelb_ce.LoadBalancerController.{Setup}
use kubelb_ce.LoadBalancerController.Reconcile.{allocated}
use kubelb_ce.Ports.{PortAllocator}
use kubelb_ce.Ports.Mapper.{allocate_ports_for_routes}
use kubelb_ce.RouteServices.{generate_service_for_lb_cluster, generate_bridge_service}
use kubelb_ce.RouteController.{
  is_global_topology, envoy_application_name, update_service_status, with_services,
  cleanup_orphaned_services,
}

-- The comparisons of the library: `equality.Semantic.DeepEqual` of the specifications of two services
-- and of two maps, and `reflect.DeepEqual` of two statuses.
pub record RouteEqual : Type 0 where
  pub specs : Service → Service → Bool
  pub maps : StringMap → StringMap → Bool
  pub statuses : RouteStatus → RouteStatus → Bool

unfoldable pub service_is_current : RouteEqual → Service → Service → Bool
service_is_current same existing svc =
    same.specs existing svc
    && (same.maps existing.meta.labels svc.meta.labels
        && same.maps existing.meta.annotations svc.meta.annotations)

-- The services that are wanted of one service, the bridge first; `none` is a panic.
unfoldable pub services_for :
    Setup → AnnotationSettings → Route → PortAllocator → Service → Option (List Service)
services_for setup settings route pa svc =
    let app_name = envoy_application_name setup.topology route.meta.namespace in
    let global = is_global_topology setup.topology in
    elim (generate_service_for_lb_cluster svc app_name route.meta.namespace
      (original_route_name route) pa global settings) [
        | none ↦ none
        | some made ↦ some (
            if global
            then generate_bridge_service made app_name setup.namespace ∷ made ∷ []
            else made ∷ [])
      ]

unfoldable pub all_services_for :
    Setup → AnnotationSettings → Route → PortAllocator → List Service → Option (List Service)
all_services_for setup settings route pa [] = some []
all_services_for setup settings route pa (svc ∷ svcs) =
    elim (services_for setup settings route pa svc) [
      | none ↦ none
      | some made ↦ elim (all_services_for setup settings route pa svcs) [
        | none ↦ none
        | some rest ↦ some (made ++ rest)
      ]
    ]

module _ {S : Type 0} (client : Client S) (setup : Setup) (same : RouteEqual) where
  unfoldable pub save_found_service : Service → Answer Service → Action S Service
  save_found_service svc (Answer.failure Failure.not_found) = create client Kind.service svc
  save_found_service svc (Answer.failure Failure.conflict) = raise Failure.conflict
  save_found_service svc (Answer.failure Failure.failed) = raise Failure.failed
  save_found_service svc (Answer.object existing) =
      if service_is_current same existing svc
      then pure svc
      else update client Kind.service
          (record svc { meta = record svc.meta { uid = existing.meta.uid } })

  unfoldable pub create_or_update_service : Service → Action S Service
  unfolding save_found_service
  create_or_update_service svc =
      try_get client Kind.service (request_of svc.meta) >>= save_found_service svc

  -- An error is recorded as an event and in the conditions; the loop goes on.
  abbrev recovered : Service → Result Service × World S → Result Service × World S
  recovered svc (Result.ok made, w) = (Result.ok made, w)
  recovered svc (Result.err f, w) = (Result.ok svc, w)
  recovered svc (Result.halt, w) = (Result.halt, w)

  unfoldable pub apply_service : Service → Action S Service
  unfolding create_or_update_service
  apply_service svc w = recovered svc (create_or_update_service svc w)

  unfoldable pub apply_services :
      List Service
      → Option (Dict Text RouteServiceStatus)
      → Action S (Option (Dict Text RouteServiceStatus))
  unfolding apply_service
  apply_services [] services = pure services
  apply_services (svc ∷ svcs) services =
      apply_service svc >>= λ made. apply_services svcs (update_service_status services made)

  -- The function that is tried again on a conflict.
  unfoldable pub write_route_status : Route → RouteStatus → Action S Unit
  write_route_status route status = get client Kind.route (request_of route.meta) >>= λ original.
      (if same.statuses original.status status
        then pure tt
        else patch_status client Kind.route original (with_services status.services original)
          >> pure tt)

  unfoldable pub allocate_route : Route → Action S Unit
  unfolding allocated
  allocate_route route w =
      allocated client (allocate_ports_for_routes w.ports (route ∷ []) w.draws) w

  unfoldable pub record_services :
      (Action S Unit → Action S Unit)
      → Route
      → Option (Dict Text RouteServiceStatus)
      → Action S Unit
  unfolding write_route_status
  record_services retry_on_conflict route recorded =
      retry_on_conflict (write_route_status route (record { services = recorded }))

  unfoldable pub apply_and_record :
      (Action S Unit → Action S Unit) → Route → List Service → Action S Unit
  unfolding apply_services record_services
  apply_and_record retry_on_conflict route services =
      apply_services services route.status.services >>= record_services retry_on_conflict route

  -- From the generation of the services on, which reads the table of the allocator.
  unfoldable pub apply_route :
      (Action S Unit → Action S Unit)
      → AnnotationSettings
      → KubernetesSource
      → Route
      → Action S Unit
  unfolding apply_and_record
  apply_route retry_on_conflict settings source route w =
      (or_halt (all_services_for setup settings route w.ports source.services)
          >>= apply_and_record retry_on_conflict route)
        w

  unfoldable pub allocate_and_apply :
      (Action S Unit → Action S Unit)
      → AnnotationSettings
      → KubernetesSource
      → Route
      → Action S Unit
  unfolding allocate_route apply_route
  allocate_and_apply retry_on_conflict settings source left =
      allocate_route left >> apply_route retry_on_conflict settings source left

  unfoldable pub manage_source :
      (Action S Unit → Action S Unit)
      → AnnotationSettings
      → Route
      → KubernetesSource
      → Action S Unit
  unfolding cleanup_orphaned_services allocate_and_apply
  manage_source retry_on_conflict settings route source =
      cleanup_orphaned_services client setup route source
      >>= allocate_and_apply retry_on_conflict settings source

  unfoldable pub manage_any :
      (Action S Unit → Action S Unit)
      → AnnotationSettings
      → Route
      → Option KubernetesSource
      → Action S Unit
  unfolding manage_source
  manage_any retry_on_conflict settings route none = pure tt
  manage_any retry_on_conflict settings route (some source) =
      manage_source retry_on_conflict settings route source

  unfoldable pub manage_services :
      (Action S Unit → Action S Unit) → AnnotationSettings → Route → Action S Unit
  unfolding manage_any
  manage_services retry_on_conflict settings route =
      manage_any retry_on_conflict settings route route.spec.kubernetes
