-- ===== src/Snapshot/Routes.antt =====
-- The routes of `MapSnapshot`, and the whole function. The resources stay lists here, which `NewSnapshot`
-- of go-control-plane indexes by their names.
use kubelb_ce.Base.{ℕ, Option, none, some, List, [], ◌∷◌, ◌++◌}
use kubelb_ce.Base.{text_eq, ◌==◌, ◌>>=◌, if◌then◌else◌}
use kubelb_ce.Base.Dict.{Dict}
use kubelb_ce.Base.Text.{Text}
use kubelb_ce.Api.{
  EndpointAddress, LoadBalancerEndpoints, LoadBalancer, ServicePort, Service, KubernetesSource,
  Route, get, or_empty,
}
use kubelb_ce.Keys.{route_endpoint_key, listener_key, route_port_identifier}
use kubelb_ce.Labels.{label_origin_resource_kind, original_route_name}
use kubelb_ce.Ports.{PortAllocator}
use kubelb_ce.Snapshot.{
  Resources, no_resources, listener_port, resolve_endpoint, add_load_balancers,
}
use kubelb_ce.Snapshot.Xds.{
  Cluster, Listener, make_backends, make_cluster, is_http_route, route_listeners,
}

-- The kind of the source object, or of the label if that is empty.
unfoldable pub get_route_kind : Route → Text
get_route_kind route =
    let kind : Text = elim route.spec.kubernetes [ none ↦ [] | some source ↦ source.route.kind ] in
    if kind == [] then or_empty (get route.meta.labels label_origin_resource_kind) else kind

-- A nil allocator is dereferenced here: `none` is that panic.
unfoldable pub route_listener_port : Option PortAllocator → Text → Text → ℕ → Option ℕ
route_listener_port none endpoint_key port_key port = none
route_listener_port (some pa) endpoint_key port_key port =
    some (listener_port (some pa) endpoint_key port_key port)

module _ (pa : Option PortAllocator) (namespace route_name route_kind : Text) where
  -- One port of a service: a cluster of the node port on all addresses, and a listener.
  unfoldable pub add_service_port :
      Service → List EndpointAddress → ServicePort → Resources → Option Resources
  add_service_port svc addresses p r =
      let endpoint_key = route_endpoint_key namespace svc.meta.namespace svc.meta.name route_name in
      let key =
        route_port_identifier namespace svc.meta.namespace svc.meta.name route_name svc.meta.uid
          p.port p.protocol in
      route_listener_port pa endpoint_key (listener_key p.port p.protocol) p.port >>= λ port.
      some (record r {
        clusters =
            r.clusters
            ++ make_cluster key (make_backends addresses p.node_port) p.protocol route_kind ∷ [];
        listeners = r.listeners ++ route_listeners (is_http_route route_kind) key p.protocol port;
      })

  unfoldable pub add_service_ports :
      Service → List EndpointAddress → List ServicePort → Resources → Option Resources
  add_service_ports svc addresses [] r = some r
  add_service_ports svc addresses (p ∷ ports) r =
      add_service_port svc addresses p r >>= λ r'. add_service_ports svc addresses ports r'

  unfoldable pub add_services : List EndpointAddress → List Service → Resources → Option Resources
  add_services addresses [] r = some r
  add_services addresses (svc ∷ svcs) r =
      add_service_ports svc addresses svc.ports r >>= λ r'. add_services addresses svcs r'

module _ (get_addresses : Text → Text → Option (List EndpointAddress)) where
  -- The addresses of all endpoints of a route in a row.
  unfoldable pub resolve_all :
      Text
      → List LoadBalancerEndpoints
      → Dict Text (List EndpointAddress)
      → Option (List EndpointAddress × Dict Text (List EndpointAddress))
  resolve_all namespace [] known = some ([], known)
  resolve_all namespace (e ∷ es) known =
      resolve_endpoint get_addresses namespace e known >>= λ (addresses, known').
      resolve_all namespace es known' >>= λ (more, known''). some (addresses ++ more, known'')

  module _ (pa : Option PortAllocator) where
    unfoldable pub add_source : Route → Option KubernetesSource → Resources → Option Resources
    add_source route none r = some r
    add_source route (some source) r =
        resolve_all route.meta.namespace route.spec.endpoints r.addresses >>= λ (addresses, known).
        add_services pa route.meta.namespace (original_route_name route) (get_route_kind route)
          addresses source.services (record r { addresses = known })

    unfoldable pub add_routes : List Route → Resources → Option Resources
    add_routes [] r = some r
    add_routes (route ∷ routes) r =
        add_source route route.spec.kubernetes r >>= λ r'. add_routes routes r'

    unfoldable pub map_resources : List LoadBalancer → List Route → Option Resources
    map_resources lbs routes =
        add_load_balancers get_addresses pa lbs no_resources >>= λ r. add_routes routes r

-- A snapshot of the Envoy cache: the version is the hash of the serialised resources.
pub record Snapshot : Type 0 where
  pub version : Text
  pub clusters : List Cluster
  pub listeners : List Listener

unfoldable pub map_snapshot :
    (List Cluster → List Listener → Option Text)
    → (Text → Text → Option (List EndpointAddress))
    → List LoadBalancer
    → List Route
    → Option PortAllocator
    → Option Snapshot
map_snapshot hash get_addresses lbs routes pa = map_resources get_addresses pa lbs routes >>= λ r.
    hash r.clusters r.listeners >>= λ version.
    some (record { version = version; clusters = r.clusters; listeners = r.listeners })
