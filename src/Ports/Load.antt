-- ===== src/Ports/Load.antt =====
-- `LoadState` of internal/port-lookup/allocator.go: the table is read back from the statuses. Its
-- nested loops are a list of writes, made in the order of the loops. The two answers of the API
-- server are arguments, `none` for an error.
pub mod Writes
pub mod Restored
use kubelb_ce.Base.{ℕ, ◌+◌, Bool, true, false, ◌&&◌, Option, none, some, List, [], ◌∷◌, ◌++◌}
use kubelb_ce.Base.{text_eq, nat_eq, ◌==◌, if◌then◌else◌}
use kubelb_ce.Base.Dict
use kubelb_ce.Base.Dict.{Dict}
use kubelb_ce.Base.Text.{Text}
use kubelb_ce.Api.{
  EndpointPort, LoadBalancerEndpoints, StatusPort, LoadBalancer, ServicePort, Service,
  RouteServiceStatus, Route,
}
use kubelb_ce.Keys.{endpoint_key, route_endpoint_key, listener_key, service_map_key}
use kubelb_ce.Labels.{get_name, original_route_name}
use kubelb_ce.Ports.{
  LookupTable, PortAllocator, ports_at, ensure_endpoint, recompute_available_ports,
}
use kubelb_ce.Ports.Mapper.{services_of}

-- `lookupTable[endpointKey] = make(…)` where it is missing, or
-- `lookupTable[endpointKey][portKey] = port`.
pub data Write : Type 0 where
  ensure : Text → Write
  put : Text → Text → ℕ → Write

unfoldable pub write : LookupTable → Write → LookupTable
write table (ensure e) = ensure_endpoint e table
write table (put e k port) = Dict.insert e (Dict.insert k port (ports_at e table)) table

unfoldable pub write_all : LookupTable → List Write → LookupTable
write_all table [] = table
write_all table (w ∷ ws) = write_all (write table w) ws

-- The status port belongs to the endpoint port.
unfoldable pub is_status_of : EndpointPort → StatusPort → Bool
is_status_of p s =
    s.upstream_target_port == p.port
    && (s.service_port.protocol == p.protocol && s.service_port.name == p.name)

-- The loop over the status ports breaks at the first that belongs to the endpoint port.
unfoldable pub status_port : EndpointPort → List StatusPort → Option ℕ
status_port p [] = none
status_port p (s ∷ ss) =
    if is_status_of p s then some s.service_port.target_port else status_port p ss

unfoldable pub endpoint_port_writes : Text → List StatusPort → List EndpointPort → List Write
endpoint_port_writes key statuses [] = []
endpoint_port_writes key statuses (p ∷ ports) =
    let rest = endpoint_port_writes key statuses ports in
    elim (status_port p statuses) [
      | none ↦ rest
      | some port ↦ put key (listener_key p.port p.protocol) port ∷ rest
    ]

unfoldable pub endpoint_writes :
    Text → Text → ℕ → List StatusPort → List LoadBalancerEndpoints → List Write
endpoint_writes namespace name i statuses [] = []
endpoint_writes namespace name i statuses (e ∷ es) =
    let key = endpoint_key namespace name i in
    ensure key
    ∷ (endpoint_port_writes key statuses e.ports
        ++ endpoint_writes namespace name (i + 1) statuses es)

unfoldable pub load_balancer_writes : List LoadBalancer → List Write
load_balancer_writes [] = []
load_balancer_writes (lb ∷ lbs) =
    endpoint_writes lb.meta.namespace lb.meta.name 0 lb.status.service.ports lb.spec.endpoints
    ++ load_balancer_writes lbs

unfoldable pub service_port_writes : Text → List ServicePort → List Write
service_port_writes key [] = []
service_port_writes key (p ∷ ports) =
    put key (listener_key p.port p.protocol) p.target_port ∷ service_port_writes key ports

-- The ports of the service in the status of the route, of which the whole map may be nil.
unfoldable pub status_of_service :
    Option (Dict Text RouteServiceStatus) → Service → List ServicePort
status_of_service none svc = []
status_of_service (some statuses) svc =
    elim (Dict.lookup (service_map_key svc.meta.namespace (get_name svc.meta)) statuses) [
      | none ↦ []
      | some status ↦ status.ports
    ]

unfoldable pub service_writes :
    Text → Text → Option (Dict Text RouteServiceStatus) → List Service → List Write
service_writes namespace route_name statuses [] = []
service_writes namespace route_name statuses (svc ∷ svcs) =
    let key = route_endpoint_key namespace svc.meta.namespace svc.meta.name route_name in
    ensure key
    ∷ (service_port_writes key (status_of_service statuses svc)
        ++ service_writes namespace route_name statuses svcs)

unfoldable pub route_writes : List Route → List Write
route_writes [] = []
route_writes (route ∷ routes) =
    service_writes route.meta.namespace (original_route_name route) route.status.services
      (services_of route)
    ++ route_writes routes

unfoldable pub state_writes : List LoadBalancer → List Route → List Write
state_writes lbs routes = load_balancer_writes lbs ++ route_writes routes

-- The new state, and whether there was no error. An error leaves the state alone.
unfoldable pub load_state :
    PortAllocator → Option (List LoadBalancer) → Option (List Route) → PortAllocator × Bool
load_state pa none routes = (pa, false)
load_state pa (some lbs) none = (pa, false)
load_state pa (some lbs) (some routes) = (
  recompute_available_ports (record pa { port_lookup = write_all [] (state_writes lbs routes) }),
  true,
)
