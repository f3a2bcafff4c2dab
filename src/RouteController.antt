-- ===== src/RouteController.antt =====
-- internal/controllers/kubelb/route_controller.go, the services of a route: their removal when the
-- route goes or no longer names them, their creation, and the status that records them; with
-- `CreateOrUpdateService` of internal/resources/service/service.go. Go ranges over a map in any order:
-- here it is the order of the list. Logs, events and conditions are left out.
pub mod Orphans
pub mod Apply
pub mod Ports
use kubelb_ce.Base.{Bool, true, false, not, ◌&&◌, ◌||◌, Option, none, some, List, [], ◌∷◌, ◌++◌}
use kubelb_ce.Base.{text_eq, ◌==◌, contains, if◌then◌else◌}
use kubelb_ce.Base.Dict
use kubelb_ce.Base.Dict.{Dict, lookup}
use kubelb_ce.Base.Text.{Text}
use kubelb_ce.Api.{
  ObjectMeta, Service, AnnotationSettings, Route, RouteStatus, RouteServiceStatus, KubernetesSource,
  get,
}
use kubelb_ce.Cluster.{
  Kind, Client, World, Answer, Failure, Result, Action, pure, raise, or_halt, request, request_of,
  ◌>>=◌, ◌>>◌, try_get, create, update, patch_status, delete,
}
use kubelb_ce.Finalizers.{cleanup_finalizer, remove_finalizer}
use kubelb_ce.Keys.{route_endpoint_key, service_map_key}
use kubelb_ce.Labels.{original_route_name, get_name, get_namespace}
use kubelb_ce.LoadBalancerController.{Topology, Setup, envoy_global_cache}
use kubelb_ce.LoadBalancerController.Reconcile.{allocated}
use kubelb_ce.Ports.{PortAllocator, deallocate_endpoints}
use kubelb_ce.Ports.Mapper.{allocate_ports_for_routes, deallocate_ports_for_route}
use kubelb_ce.RouteServices.{
  generate_service_for_lb_cluster, generate_bridge_service, label_app_kubernetes_type,
  label_bridge_service,
}

unfoldable pub is_global_topology : Topology → Bool
is_global_topology Topology.shared = false
is_global_topology Topology.dedicated = false
is_global_topology Topology.global = true

unfoldable pub envoy_application_name : Topology → Text → Text
envoy_application_name Topology.shared namespace = namespace
envoy_application_name Topology.dedicated namespace = []
envoy_application_name Topology.global namespace = envoy_global_cache

-- The keys under which the services of the source are recorded in the status.
unfoldable pub desired_keys : List Service → List Text
desired_keys [] = []
desired_keys (svc ∷ svcs) =
    service_map_key svc.meta.namespace (get_name svc.meta) ∷ desired_keys svcs

-- Another recorded service has the generated name, in another namespace.
unfoldable pub has_partner : RouteServiceStatus → Dict Text RouteServiceStatus → Bool
has_partner value [] = false
has_partner value ((key, other) ∷ services) =
    (other.generated_name == value.generated_name && not (other.namespace == value.namespace))
    || has_partner value services

-- A bridge service lives in the namespace of the controller.
unfoldable pub is_bridged : Setup → RouteServiceStatus → Bool
is_bridged setup value = is_global_topology setup.topology && value.namespace == setup.namespace

-- The namespace of a recorded service.
unfoldable pub namespace_of : Setup → Route → RouteServiceStatus → Text
namespace_of setup route value =
    if is_bridged setup value then setup.namespace else route.meta.namespace

unfoldable pub with_services : Option (Dict Text RouteServiceStatus) → Route → Route
with_services services route = record route { status = record { services = services } }

unfoldable pub released_route : Route → Route
released_route route =
    let fs = remove_finalizer cleanup_finalizer route.meta.finalizers in
    record route { meta = record route.meta { finalizers = fs } }

-- The key of the endpoint whose ports are given back with an orphaned service.
unfoldable pub orphan_key : Route → RouteServiceStatus → Text
orphan_key route value =
    route_endpoint_key route.meta.namespace value.namespace value.generated_name
      (original_route_name route)

abbrev bridge_or_origin : Service → Option Text → Text
bridge_or_origin svc none = get_namespace svc.meta
bridge_or_origin svc (some type) =
    if type == label_bridge_service then svc.meta.namespace else get_namespace svc.meta

unfoldable pub service_status : Service → RouteServiceStatus
service_status svc = record {
  generated_name = svc.meta.name;
  namespace = bridge_or_origin svc (get svc.meta.labels label_app_kubernetes_type);
  name = get_name svc.meta;
  ports = svc.ports;
}

abbrev pub services_or_empty : Option (Dict Text RouteServiceStatus) → Dict Text RouteServiceStatus
services_or_empty none = []
services_or_empty (some services) = services

unfoldable pub update_service_status :
    Option (Dict Text RouteServiceStatus) → Service → Option (Dict Text RouteServiceStatus)
update_service_status services svc =
    let status = service_status svc in
    some (
      Dict.insert (service_map_key status.namespace status.name) status
        (services_or_empty services))

module _ {S : Type 0} (client : Client S) (setup : Setup) where
  unfoldable pub delete_services : Route → Dict Text RouteServiceStatus → Action S Unit
  delete_services route [] = pure tt
  delete_services route ((key, value) ∷ services) =
      delete client Kind.service (request value.generated_name (namespace_of setup route value))
      >> delete_services route services

  unfoldable pub release_route_ports : Route → Action S Unit
  release_route_ports route w =
      (Result.ok tt, record w { ports = deallocate_ports_for_route w.ports route })

  unfoldable pub cleanup_route : Route → Action S Unit
  unfolding delete_services release_route_ports
  cleanup_route route =
      delete_services route (services_or_empty route.status.services)
      >> (release_route_ports route >> (update client Kind.route (released_route route) >> pure tt))

  unfoldable pub release_endpoint : Text → Action S Unit
  release_endpoint key w =
      (Result.ok tt, record w { ports = deallocate_endpoints w.ports (key ∷ []) })

  -- The loop over the recorded services, which deletes from the map that it ranges over: `left` is
  -- what is left of it.
  unfoldable pub remove_orphans :
      Route
      → List Text
      → Dict Text RouteServiceStatus
      → Dict Text RouteServiceStatus
      → Action S (Dict Text RouteServiceStatus)
  unfolding release_endpoint
  remove_orphans route desired [] left = pure left
  remove_orphans route desired ((key, value) ∷ services) left =
      if contains desired key || (is_bridged setup value && has_partner value left)
      then remove_orphans route desired services left
      else delete client Kind.service
          (request value.generated_name (namespace_of setup route value))
        >> (release_endpoint (orphan_key route value)
            >> remove_orphans route desired services (Dict.erase key left))

  unfoldable pub cleanup_recorded :
      Route → KubernetesSource → Option (Dict Text RouteServiceStatus) → Action S Route
  unfolding remove_orphans
  cleanup_recorded route source none = pure route
  cleanup_recorded route source (some services) =
      remove_orphans route (desired_keys source.services) services services >>= λ left.
      pure (with_services (some left) route)

  -- The route with the recorded services that are left.
  unfoldable pub cleanup_orphaned_services : Route → KubernetesSource → Action S Route
  unfolding cleanup_recorded
  cleanup_orphaned_services route source = cleanup_recorded route source route.status.services
