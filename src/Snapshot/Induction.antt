-- ===== src/Snapshot/Induction.antt =====
-- Induction over the loops of `MapSnapshot` of internal/envoy/resource.go.
use kubelb_ce.Base.{ℕ, ◌+◌, ◌≡◌}
use kubelb_ce.Base.{Option, none, some, List, [], ◌∷◌, ◌++◌}
use kubelb_ce.Base.Dict.{Dict}
use kubelb_ce.Base.Lists.{All}
use kubelb_ce.Base.{>>=-eq-some}
use kubelb_ce.Base.Text.{Text}
use kubelb_ce.Api.{
  EndpointAddress, EndpointPort, LoadBalancerEndpoints, LoadBalancer, ServicePort, Service,
  KubernetesSource, Route,
}
use kubelb_ce.Keys.{route_endpoint_key, listener_key}
use kubelb_ce.Ports.{PortAllocator}
use kubelb_ce.Snapshot.{
  Resources, resolve_endpoint, add_port, add_ports, add_endpoints, add_load_balancers,
}
use kubelb_ce.Snapshot.Xds.{Cluster, Listener, make_cluster, target_cluster}
use kubelb_ce.Snapshot.Routes.{
  route_listener_port, add_service_port, add_service_ports, add_services, resolve_all, add_source,
  add_routes,
}
use kubelb_ce.Snapshot.Entries.{l4_listeners_target, route_listeners_target}

keeps_of_some : (P : Resources → Type 0) (r q : Resources) → some r ≡ some q → P r → P q
keeps_of_some P r q h g = let same : r ≡ q = cc in rw (← same) g

module _ (get_addresses : Text → Text → Option (List EndpointAddress)) (pa : Option PortAllocator)
    {P : Resources → Type 0}
    (learn : (r : Resources) (known : Dict Text (List EndpointAddress))
      → P r
      → P (record r { addresses = known }))
    (add : (r : Resources) (c : Cluster) (ms : List Listener)
      → All (λ (m : Listener). target_cluster m.filter ≡ c.name) ms
      → P r
      → P (record r { clusters = r.clusters ++ c ∷ []; listeners = r.listeners ++ ms })) where
  add_port-keeps :
      (namespace name : Text) (i : ℕ) (addresses : List EndpointAddress) (p : EndpointPort)
      (r : Resources)
      → P r
      → P (add_port get_addresses pa namespace name i addresses p r)
  unfolding add_port make_cluster
  add_port-keeps namespace name i addresses p r g = add r _ _ (l4_listeners_target _ p.protocol _) g

  pub add_ports-keeps :
      (namespace name : Text) (i : ℕ) (addresses : List EndpointAddress) (ports : List EndpointPort)
      (r : Resources)
      → P r
      → P (add_ports get_addresses pa namespace name i addresses ports r)
  unfolding add_ports
  add_ports-keeps namespace name i addresses [] r g = g
  add_ports-keeps namespace name i addresses (p ∷ ports) r g =
      add_ports-keeps namespace name i addresses ports _
        (add_port-keeps namespace name i addresses p r g)

  pub add_endpoints-keeps :
      (namespace name : Text) (i : ℕ) (es : List LoadBalancerEndpoints) (r : Resources)
      {q : Resources}
      → add_endpoints get_addresses pa namespace name i es r ≡ some q
      → P r
      → P q
  unfolding add_endpoints
  add_endpoints-keeps namespace name i [] r {q} h g = let same : r ≡ q = cc in rw (← same) g
  add_endpoints-keeps namespace name i (e ∷ es) r h g =
      let ((addresses, known), found, later) =
        >>=-eq-some (resolve_endpoint get_addresses namespace e r.addresses) _ h in
      add_endpoints-keeps namespace name (i + 1) es _ later (
        add_ports-keeps namespace name i addresses e.ports (record r { addresses = known })
          (learn r known g))

  pub add_load_balancers-keeps :
      (lbs : List LoadBalancer) (r : Resources) {q : Resources}
      → add_load_balancers get_addresses pa lbs r ≡ some q
      → P r
      → P q
  unfolding add_load_balancers
  add_load_balancers-keeps [] r {q} h g = let same : r ≡ q = cc in rw (← same) g
  add_load_balancers-keeps (lb ∷ lbs) r h g =
      let (r', first, later) =
        >>=-eq-some
          (add_endpoints get_addresses pa lb.meta.namespace lb.meta.name 0 lb.spec.endpoints r) _
          h in
      add_load_balancers-keeps lbs r' later
        (add_endpoints-keeps lb.meta.namespace lb.meta.name 0 lb.spec.endpoints r first g)

  add_service_port-keeps :
      (namespace route_name kind : Text) (svc : Service) (addresses : List EndpointAddress)
      (p : ServicePort) (r : Resources) {q : Resources}
      → add_service_port pa namespace route_name kind svc addresses p r ≡ some q
      → P r
      → P q
  unfolding add_service_port make_cluster
  add_service_port-keeps namespace route_name kind svc addresses p r {q} h g =
      let (port, found, result) =
        >>=-eq-some
          (route_listener_port pa
            (route_endpoint_key namespace svc.meta.namespace svc.meta.name route_name)
            (listener_key p.port p.protocol) p.port)
          _ h in
      keeps_of_some P _ q result (add r _ _ (route_listeners_target _ _ p.protocol port) g)

  pub add_service_ports-keeps :
      (namespace route_name kind : Text) (svc : Service) (addresses : List EndpointAddress)
      (ports : List ServicePort) (r : Resources) {q : Resources}
      → add_service_ports pa namespace route_name kind svc addresses ports r ≡ some q
      → P r
      → P q
  unfolding add_service_ports
  add_service_ports-keeps namespace route_name kind svc addresses [] r {q} h g =
      keeps_of_some P r q h g
  add_service_ports-keeps namespace route_name kind svc addresses (p ∷ ports) r h g =
      let (r', first, later) =
        >>=-eq-some (add_service_port pa namespace route_name kind svc addresses p r) _ h in
      add_service_ports-keeps namespace route_name kind svc addresses ports r' later
        (add_service_port-keeps namespace route_name kind svc addresses p r first g)

  pub add_services-keeps :
      (namespace route_name kind : Text) (addresses : List EndpointAddress) (svcs : List Service)
      (r : Resources) {q : Resources}
      → add_services pa namespace route_name kind addresses svcs r ≡ some q
      → P r
      → P q
  unfolding add_services
  add_services-keeps namespace route_name kind addresses [] r {q} h g = keeps_of_some P r q h g
  add_services-keeps namespace route_name kind addresses (svc ∷ svcs) r h g =
      let (r', first, later) =
        >>=-eq-some (add_service_ports pa namespace route_name kind svc addresses svc.ports r) _
          h in
      add_services-keeps namespace route_name kind addresses svcs r' later
        (add_service_ports-keeps namespace route_name kind svc addresses svc.ports r first g)

  add_source-keeps :
      (route : Route) (source : Option KubernetesSource) (r : Resources) {q : Resources}
      → add_source get_addresses pa route source r ≡ some q
      → P r
      → P q
  unfolding add_source
  add_source-keeps route none r {q} h g = keeps_of_some P r q h g
  add_source-keeps route (some source) r h g =
      let ((addresses, known), found, later) =
        >>=-eq-some
          (resolve_all get_addresses route.meta.namespace route.spec.endpoints r.addresses) _ h in
      add_services-keeps _ _ _ addresses source.services (record r { addresses = known }) later
        (learn r known g)

  pub add_routes-keeps :
      (routes : List Route) (r : Resources) {q : Resources}
      → add_routes get_addresses pa routes r ≡ some q
      → P r
      → P q
  unfolding add_routes
  add_routes-keeps [] r {q} h g = keeps_of_some P r q h g
  add_routes-keeps (route ∷ routes) r h g =
      let (r', first, later) =
        >>=-eq-some (add_source get_addresses pa route route.spec.kubernetes r) _ h in
      add_routes-keeps routes r' later (add_source-keeps route route.spec.kubernetes r first g)
