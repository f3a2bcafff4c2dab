-- ===== src/Snapshot/RouteListening.antt =====
-- The ports on which the listeners of `MapSnapshot` (internal/envoy/resource.go) listen for the services
-- of a route.
use kubelb_ce.Base.{
  ℕ, ◌≡◌, ap, ◌∙◌, none, inl, inr, Bool, true, Option, some, List, [], ◌∷◌, ◌++◌, arith,
}
use kubelb_ce.Base.{text_eq, >>=-eq-some}
use kubelb_ce.Base.Dict.{Dict}
use kubelb_ce.Base.Lists.{All}
use kubelb_ce.Base.Text.{Text}
use kubelb_ce.Api.{EndpointAddress, LoadBalancer, ServicePort, Service, KubernetesSource, Route}
use kubelb_ce.Keys.{route_endpoint_key, listener_key, route_port_identifier}
use kubelb_ce.Labels.{original_route_name}
use kubelb_ce.Ports.{PortAllocator}
use kubelb_ce.Snapshot.{Resources, no_resources, listener_port, add_load_balancers}
use kubelb_ce.Snapshot.Xds.{
  Cluster, Listener, tcp_listener, udp_listener, http_listener, route_listeners, is_http_route,
  target_cluster,
}
use kubelb_ce.Snapshot.Routes.{
  Snapshot, get_route_kind, route_listener_port, add_service_port, add_service_ports, add_services,
  resolve_all, add_source, add_routes, map_resources, map_snapshot,
}
use kubelb_ce.Snapshot.Induction.{add_service_ports-keeps, add_services-keeps, add_routes-keeps}
use kubelb_ce.Snapshot.Listening.{
  serves, listens, IsL4, listens-append, tcp_ne_udp, Listens-learn, Listens-add,
}

listens-route_listeners :
    (is_http : Bool) (key protocol : Text) (port : ℕ)
    → IsL4 protocol
    → listens protocol port (route_listeners is_http key protocol port) ≡ true
unfolding route_listeners listens serves tcp_listener udp_listener http_listener
listens-route_listeners is_http key protocol port (inl is_tcp) =
    rw is_tcp (ground (arith, tcp_ne_udp))
listens-route_listeners is_http key protocol port (inr is_udp) =
    rw is_udp (ground (arith, tcp_ne_udp))

-- The port on which a port of a route's service is served.
abbrev pub route_served : PortAllocator → Text → ServicePort → ℕ
route_served pa key p = listener_port (some pa) key (listener_key p.port p.protocol) p.port

-- Each port of the service is listened on.
abbrev pub Heard : PortAllocator → Text → List ServicePort → List Listener → Type 0
Heard pa key ports ls =
    All (λ (p : ServicePort). listens p.protocol (route_served pa key p) ls ≡ true) ports

module _ (get_addresses : Text → Text → Option (List EndpointAddress)) (pa : PortAllocator)
    (key : Text) where
  Heard-learn :
      (ports : List ServicePort) (r : Resources) (known : Dict Text (List EndpointAddress))
      → Heard pa key ports r.listeners
      → Heard pa key ports (record r { addresses = known }).listeners
  Heard-learn ports r known h = h

  Heard-add :
      (ports : List ServicePort) (r : Resources) (c : Cluster) (ms : List Listener)
      → All (λ (m : Listener). target_cluster m.filter ≡ c.name) ms
      → Heard pa key ports r.listeners
      → Heard pa key ports (r.listeners ++ ms)
  Heard-add [] r c ms named h = tt
  Heard-add (p ∷ ports) r c ms named (h, hs) = (
    Listens-add get_addresses (some pa) p.protocol (route_served pa key p) r c ms named h,
    Heard-add ports r c ms named hs,
  )

module _ (get_addresses : Text → Text → Option (List EndpointAddress)) (pa : PortAllocator)
    (namespace route_name kind : Text) where
  Heard-add_service_port :
      (svc : Service) (addresses : List EndpointAddress) (p : ServicePort) (r : Resources)
      {q : Resources}
      → IsL4 p.protocol
      → add_service_port (some pa) namespace route_name kind svc addresses p r ≡ some q
      → let key = route_endpoint_key namespace svc.meta.namespace svc.meta.name route_name in
        listens p.protocol (route_served pa key p) q.listeners ≡ true
  unfolding add_service_port route_listener_port
  Heard-add_service_port svc addresses p r {q} l4 h =
      let key = route_endpoint_key namespace svc.meta.namespace svc.meta.name route_name in
      let cluster_key =
        route_port_identifier namespace svc.meta.namespace svc.meta.name route_name svc.meta.uid
          p.port p.protocol in
      let added =
        route_listeners (is_http_route kind) cluster_key p.protocol (route_served pa key p) in
      let same : r.listeners ++ added ≡ q.listeners = ground (arith, h) in
      rw (← same) (
        ground (
          arith,
          listens-append p.protocol (route_served pa key p) r.listeners added,
          listens-route_listeners (is_http_route kind) cluster_key p.protocol
              (route_served pa key p) l4,
        ))

  Heard-add_service_ports :
      (svc : Service) (addresses : List EndpointAddress) (ports : List ServicePort) (r : Resources)
      {q : Resources}
      → All (λ (p : ServicePort). IsL4 p.protocol) ports
      → add_service_ports (some pa) namespace route_name kind svc addresses ports r ≡ some q
      → Heard pa
          (route_endpoint_key namespace svc.meta.namespace svc.meta.name route_name)
          ports
          q.listeners
  unfolding add_service_ports
  Heard-add_service_ports svc addresses [] r l4 h = tt
  Heard-add_service_ports svc addresses (p ∷ ports) r (l4, l4s) h =
      let (r', first, later) =
        >>=-eq-some (add_service_port (some pa) namespace route_name kind svc addresses p r) _ h in
      (
        add_service_ports-keeps get_addresses (some pa)
            (Listens-learn get_addresses (some pa) p.protocol _)
            (Listens-add get_addresses (some pa) p.protocol _) namespace route_name kind svc
            addresses ports r' later (Heard-add_service_port svc addresses p r l4 first),
        Heard-add_service_ports svc addresses ports r' l4s later,
      )

  Heard-add_services :
      (addresses : List EndpointAddress) (before after : List Service) (svc : Service)
      (r : Resources) {q : Resources}
      → All (λ (p : ServicePort). IsL4 p.protocol) svc.ports
      → add_services (some pa) namespace route_name kind addresses (before ++ svc ∷ after) r
        ≡ some q
      → Heard pa
          (route_endpoint_key namespace svc.meta.namespace svc.meta.name route_name)
          svc.ports
          q.listeners
  unfolding add_services
  Heard-add_services addresses [] after svc r l4 h =
      let key = route_endpoint_key namespace svc.meta.namespace svc.meta.name route_name in
      let (r', first, later) =
        >>=-eq-some
          (add_service_ports (some pa) namespace route_name kind svc addresses svc.ports r) _ h in
      add_services-keeps get_addresses (some pa) {P = λ r. Heard pa key svc.ports r.listeners}
        (Heard-learn get_addresses pa key svc.ports) (Heard-add get_addresses pa key svc.ports)
        namespace route_name kind addresses after r' later
        (Heard-add_service_ports svc addresses svc.ports r l4 first)
  Heard-add_services addresses (s ∷ before) after svc r l4 h =
      let (r', first, later) =
        >>=-eq-some (add_service_ports (some pa) namespace route_name kind s addresses s.ports r) _
          h in
      Heard-add_services addresses before after svc r' l4 later

module _ (get_addresses : Text → Text → Option (List EndpointAddress)) (pa : PortAllocator)
    (route : Route) (source : KubernetesSource) (before after : List Service) (svc : Service)
    (of_route : route.spec.kubernetes ≡ some source)
    (of_source : source.services ≡ before ++ svc ∷ after)
    (l4 : All (λ (p : ServicePort). IsL4 p.protocol) svc.ports) where
  abbrev svc_key : Text
  svc_key =
      route_endpoint_key route.meta.namespace svc.meta.namespace svc.meta.name
        (original_route_name route)

  Heard-add_source :
      (found : Option KubernetesSource) (r : Resources) {q : Resources}
      → found ≡ some source
      → add_source get_addresses (some pa) route found r ≡ some q
      → Heard pa svc_key svc.ports q.listeners
  unfolding add_source
  Heard-add_source none r e h = absurd (cc)
  Heard-add_source (some s) r e h =
      let same : s ≡ source = cc in
      let services : s.services ≡ before ++ svc ∷ after =
        ap KubernetesSource.services same ∙ of_source in
      let ((addresses, known), found, later) =
        >>=-eq-some
          (resolve_all get_addresses route.meta.namespace route.spec.endpoints r.addresses) _ h in
      Heard-add_services get_addresses pa route.meta.namespace (original_route_name route)
        (get_route_kind route) addresses before after svc (record r { addresses = known }) l4
        (rw services at later)

  Heard-add_routes :
      (xs ys : List Route) (r : Resources) {q : Resources}
      → add_routes get_addresses (some pa) (xs ++ route ∷ ys) r ≡ some q
      → Heard pa svc_key svc.ports q.listeners
  unfolding add_routes
  Heard-add_routes [] ys r h =
      let (r', first, later) =
        >>=-eq-some (add_source get_addresses (some pa) route route.spec.kubernetes r) _ h in
      add_routes-keeps get_addresses (some pa) {P = λ r. Heard pa svc_key svc.ports r.listeners}
        (Heard-learn get_addresses pa svc_key svc.ports)
        (Heard-add get_addresses pa svc_key svc.ports) ys r' later
        (Heard-add_source route.spec.kubernetes r of_route first)
  Heard-add_routes (x ∷ xs) ys r h =
      let (r', first, later) =
        >>=-eq-some (add_source get_addresses (some pa) x x.spec.kubernetes r) _ h in
      Heard-add_routes xs ys r' later

  -- In a snapshot of the route and others, each port of its service over TCP or UDP is listened on,
  -- at the port that is allocated for it.
  pub Heard-map_snapshot :
      (hash : List Cluster → List Listener → Option Text) (lbs : List LoadBalancer)
      (xs ys : List Route) {snapshot : Snapshot}
      → map_snapshot hash get_addresses lbs (xs ++ route ∷ ys) (some pa) ≡ some snapshot
      → Heard pa svc_key svc.ports snapshot.listeners
  unfolding map_snapshot map_resources
  Heard-map_snapshot hash lbs xs ys {snapshot} made =
      let (r, mapped, hashed) =
        >>=-eq-some (map_resources get_addresses (some pa) lbs (xs ++ route ∷ ys)) _ made in
      let (l, first, later) =
        >>=-eq-some (add_load_balancers get_addresses (some pa) lbs no_resources) _ mapped in
      let (version, _, result) = >>=-eq-some (hash r.clusters r.listeners) _ hashed in
      let same : r.listeners ≡ snapshot.listeners = ground (arith, result) in
      rw (← same) (Heard-add_routes xs ys l later)
