-- ===== src/Ports/Load/Restored.antt =====
-- What `LoadState` (internal/port-lookup/allocator.go) reads back from the statuses of the load balancers
-- and routes.
use kubelb_ce.Base.{ℕ, ◌+◌, ◌≡◌, ◌↔◌, ◌∙◌, sym, refl, arith}
use kubelb_ce.Base.{Bool, true, false, ◌&&◌, ◌||◌, Option, none, some, List, [], ◌∷◌, ◌++◌}
use kubelb_ce.Base.{text_eq, nat_eq, ◌==◌, eq_refl, if◌then◌else◌}
use kubelb_ce.Base.Dict
use kubelb_ce.Base.Dict.{Dict}
use kubelb_ce.Base.Lists.{All, any, find}
use kubelb_ce.Base.Text.{Text}
use kubelb_ce.Api.{
  EndpointPort, LoadBalancerEndpoints, StatusPort, LoadBalancer, ServicePort, Service,
  RouteServiceStatus, Route,
}
use kubelb_ce.Keys.{endpoint_key, route_endpoint_key, listener_key, service_map_key}
use kubelb_ce.Labels.{get_name, original_route_name}
use kubelb_ce.Ports.{PortAllocator, lookup}
use kubelb_ce.Ports.Mapper.{services_of}
use kubelb_ce.Ports.Load.{
  Write, ensure, put, is_status_of, status_port, endpoint_port_writes, endpoint_writes,
  load_balancer_writes, service_port_writes, status_of_service, service_writes, route_writes,
  state_writes, load_state,
}
use kubelb_ce.Ports.Load.Writes.{any_sets, sets, Records, lookup-load_state}

-- The target port of the first status of the endpoint port, which has its number, protocol and name.
abbrev pub status_target : EndpointPort → List StatusPort → Option StatusPort
status_target p statuses =
    find
      (λ (s : StatusPort).
        s.upstream_target_port == p.port
        && (s.service_port.protocol == p.protocol && s.service_port.name == p.name))
      statuses

abbrev pub is_target : ℕ → Option StatusPort → Bool
is_target port none = false
is_target port (some s) = port == s.service_port.target_port

module _ (e k : Text) (port : ℕ) where
  -- The status has the port of an endpoint port with the key.
  abbrev pub recorded_of_ports : List StatusPort → List EndpointPort → Bool
  recorded_of_ports statuses = any (λ (p : EndpointPort).
      k == listener_key p.port p.protocol && is_target port (status_target p statuses))

  -- The endpoint at the index has the key, and the status has the port of one of its ports.
  abbrev pub recorded_of_endpoints :
      Text → Text → List StatusPort → ℕ → List LoadBalancerEndpoints → Bool
  recorded_of_endpoints namespace name statuses i [] = false
  recorded_of_endpoints namespace name statuses i (endpoint ∷ endpoints) =
      (e == endpoint_key namespace name i && recorded_of_ports statuses endpoint.ports)
      || recorded_of_endpoints namespace name statuses (i + 1) endpoints

  abbrev pub recorded_of_load_balancer : LoadBalancer → Bool
  recorded_of_load_balancer lb =
      recorded_of_endpoints lb.meta.namespace lb.meta.name lb.status.service.ports 0
        lb.spec.endpoints

  abbrev pub recorded_of_service_ports : List ServicePort → Bool
  recorded_of_service_ports =
      any (λ (p : ServicePort). k == listener_key p.port p.protocol && port == p.target_port)

  -- The service has the endpoint key, and its record in the status has the port.
  abbrev pub recorded_of_service :
      Text → Text → Option (Dict Text RouteServiceStatus) → Service → Bool
  recorded_of_service namespace route_name none svc = false
  recorded_of_service namespace route_name (some statuses) svc =
      e == route_endpoint_key namespace svc.meta.namespace svc.meta.name route_name
      && elim (Dict.lookup (service_map_key svc.meta.namespace (get_name svc.meta)) statuses) [
        | none ↦ false
        | some status ↦ recorded_of_service_ports status.ports
      ]

  abbrev pub recorded_of_route : Route → Bool
  recorded_of_route route = elim route.spec.kubernetes [
    | none ↦ false
    | some source ↦
        any
          (recorded_of_service route.meta.namespace (original_route_name route)
            route.status.services)
          source.services
  ]

  -- A status of the load balancers or routes has the port for the keys.
  abbrev pub recorded : List LoadBalancer → List Route → Bool
  recorded lbs routes = any recorded_of_load_balancer lbs || any recorded_of_route routes

  abbrev puts : Write → Bool
  puts (ensure e') = false
  puts (put e' k' port') = e == e' && (k == k' && port == port')

  any-append : (ws vs : List Write) → any puts (ws ++ vs) ≡ (any puts ws || any puts vs)
  any-append [] vs = refl
  any-append (w ∷ ws) vs = ground (arith, any-append ws vs)

  is_target-status_target :
      (p : EndpointPort) (statuses : List StatusPort)
      → status_port p statuses ≡ (elim (status_target p statuses) [
        | none ↦ none
        | some s ↦ some s.service_port.target_port
      ])
  unfolding status_port is_status_of
  is_target-status_target p [] = refl
  is_target-status_target p (_ ∷ statuses) = ground (arith, is_target-status_target p statuses)

  puts-endpoint_port_writes :
      (key : Text) (statuses : List StatusPort) (ports : List EndpointPort)
      → any puts (endpoint_port_writes key statuses ports)
        ≡ (e == key && recorded_of_ports statuses ports)
  unfolding endpoint_port_writes
  puts-endpoint_port_writes key statuses [] = ground arith
  puts-endpoint_port_writes key statuses (p ∷ ports) =
      ground
        (arith, is_target-status_target p statuses, puts-endpoint_port_writes key statuses ports)

  puts-endpoint_writes :
      (namespace name : Text) (i : ℕ) (statuses : List StatusPort)
      (endpoints : List LoadBalancerEndpoints)
      → any puts (endpoint_writes namespace name i statuses endpoints)
        ≡ recorded_of_endpoints namespace name statuses i endpoints
  unfolding endpoint_writes
  puts-endpoint_writes namespace name i statuses [] = refl
  puts-endpoint_writes namespace name i statuses (endpoint ∷ endpoints) =
      any-append (endpoint_port_writes (endpoint_key namespace name i) statuses endpoint.ports)
        (endpoint_writes namespace name (i + 1) statuses endpoints)
      ∙ rw
          (
            puts-endpoint_port_writes (endpoint_key namespace name i) statuses endpoint.ports,
            puts-endpoint_writes namespace name (i + 1) statuses endpoints,
          )
          refl

  puts-load_balancer_writes :
      (lbs : List LoadBalancer)
      → any puts (load_balancer_writes lbs) ≡ any recorded_of_load_balancer lbs
  unfolding load_balancer_writes
  puts-load_balancer_writes [] = refl
  puts-load_balancer_writes (lb ∷ lbs) =
      any-append
        (endpoint_writes lb.meta.namespace lb.meta.name 0 lb.status.service.ports lb.spec.endpoints)
        (load_balancer_writes lbs)
      ∙ rw
          (
            puts-endpoint_writes lb.meta.namespace lb.meta.name 0 lb.status.service.ports
                lb.spec.endpoints,
            puts-load_balancer_writes lbs,
          )
          refl

  puts-service_port_writes :
      (key : Text) (ports : List ServicePort)
      → any puts (service_port_writes key ports) ≡ (e == key && recorded_of_service_ports ports)
  unfolding service_port_writes
  puts-service_port_writes key [] = ground arith
  puts-service_port_writes key (_ ∷ ports) = ground (arith, puts-service_port_writes key ports)

  puts-status_of_service :
      (namespace route_name : Text) (statuses : Option (Dict Text RouteServiceStatus))
      (svc : Service)
      → (e == route_endpoint_key namespace svc.meta.namespace svc.meta.name route_name
          && recorded_of_service_ports (status_of_service statuses svc))
        ≡ recorded_of_service namespace route_name statuses svc
  unfolding status_of_service
  puts-status_of_service namespace route_name none svc = ground arith
  puts-status_of_service namespace route_name (some statuses) svc = ground arith

  puts-service_writes :
      (namespace route_name : Text) (statuses : Option (Dict Text RouteServiceStatus))
      (svcs : List Service)
      → any puts (service_writes namespace route_name statuses svcs)
        ≡ any (recorded_of_service namespace route_name statuses) svcs
  unfolding service_writes
  puts-service_writes namespace route_name statuses [] = refl
  puts-service_writes namespace route_name statuses (svc ∷ svcs) =
      let key = route_endpoint_key namespace svc.meta.namespace svc.meta.name route_name in
      any-append (service_port_writes key (status_of_service statuses svc))
        (service_writes namespace route_name statuses svcs)
      ∙ rw
          (
            puts-service_port_writes key (status_of_service statuses svc),
            puts-status_of_service namespace route_name statuses svc,
            puts-service_writes namespace route_name statuses svcs,
          )
          refl

  puts-services_of :
      (route : Route)
      → any
          (recorded_of_service route.meta.namespace
            (original_route_name route)
            route.status.services)
          (services_of route)
        ≡ recorded_of_route route
  unfolding services_of
  puts-services_of route = ground arith

  puts-route_writes :
      (routes : List Route) → any puts (route_writes routes) ≡ any recorded_of_route routes
  unfolding route_writes
  puts-route_writes [] = refl
  puts-route_writes (route ∷ routes) =
      any-append
        (service_writes route.meta.namespace (original_route_name route) route.status.services
          (services_of route))
        (route_writes routes)
      ∙ rw
          (
            puts-service_writes route.meta.namespace (original_route_name route)
                route.status.services (services_of route),
            puts-services_of route,
            puts-route_writes routes,
          )
          refl

  -- The writes are those that the statuses record.
  puts-state_writes :
      (lbs : List LoadBalancer) (routes : List Route)
      → any puts (state_writes lbs routes) ≡ recorded lbs routes
  unfolding state_writes
  puts-state_writes lbs routes =
      any-append (load_balancer_writes lbs) (route_writes routes)
      ∙ rw (puts-load_balancer_writes lbs, puts-route_writes routes) refl

  lookup_of_puts :
      (pa : PortAllocator) (ws : List Write)
      → All (Records pa) ws
      → any puts ws ≡ true
      → lookup pa e k ≡ some port
  lookup_of_puts pa [] r h = absurd (cc)
  lookup_of_puts pa (ensure e' ∷ ws) (r, rs) h = lookup_of_puts pa ws rs h
  lookup_of_puts pa (put e' k' port' ∷ ws) (r, rs) h = ground (arith, r, lookup_of_puts pa ws rs)

  sets_of_puts : (ws : List Write) → any puts ws ≡ true → any_sets e k ws ≡ true
  unfolding any_sets sets
  sets_of_puts [] h = absurd (cc)
  sets_of_puts (ensure e' ∷ ws) h = sets_of_puts ws h
  sets_of_puts (put e' k' port' ∷ ws) h = ground (arith, sets_of_puts ws)

  puts_of_sets :
      (pa : PortAllocator) (ws : List Write)
      → All (Records pa) ws
      → any_sets e k ws ≡ true
      → lookup pa e k ≡ some port
      → any puts ws ≡ true
  unfolding any_sets sets
  puts_of_sets pa [] r h found = absurd (cc)
  puts_of_sets pa (ensure e' ∷ ws) (r, rs) h found = puts_of_sets pa ws rs h found
  puts_of_sets pa (put e' k' port' ∷ ws) (r, rs) h found =
      ground (arith, r, found, puts_of_sets pa ws rs)

Records_of_puts :
    (pa : PortAllocator) (ws : List Write)
    → ((e k : Text) (port : ℕ) → any (puts e k port) ws ≡ true → lookup pa e k ≡ some port)
    → All (Records pa) ws
Records_of_puts pa [] h = tt
Records_of_puts pa (ensure e ∷ ws) h = (tt, Records_of_puts pa ws h)
Records_of_puts pa (put e k port ∷ ws) h = (
  h e k port (ground (arith, eq_refl e, eq_refl k, eq_refl port)),
  Records_of_puts pa ws (λ e' k' port' later. h e' k' port' (ground (arith, later))),
)

-- An allocator has the ports that the statuses record, if the writes of a load agree with it.
pub has_recorded :
    (pa : PortAllocator) (lbs : List LoadBalancer) (routes : List Route)
    → All (Records pa) (state_writes lbs routes)
    → (e k : Text) (port : ℕ) → recorded e k port lbs routes ≡ true
    → lookup pa e k ≡ some port
has_recorded pa lbs routes r e k port h =
    lookup_of_puts e k port pa (state_writes lbs routes) r
      (puts-state_writes e k port lbs routes ∙ h)

found_or_none :
    (b : Bool) (found : Option ℕ) (port : ℕ)
    → (if b then found else none) ≡ some port
    → (b ≡ true) × (found ≡ some port)
found_or_none true found port h = (refl, h)
found_or_none false found port h = absurd (cc)

-- A restart: if an allocator held every port that the statuses of the load balancers and routes
-- record, then whatever the state of a new allocator, after it loads them it has, for each pair of
-- keys, a port exactly if a status records that port for the keys: the target port in the first
-- status of a load balancer's endpoint port, or in the record of a route's service.
pub load_state_restores :
    (old new : PortAllocator) (lbs : List LoadBalancer) (routes : List Route)
    → ((e k : Text) (port : ℕ) → recorded e k port lbs routes ≡ true → lookup old e k ≡ some port)
    → (e k : Text) (port : ℕ)
    → (lookup (load_state new (some lbs) (some routes)).0 e k ≡ some port)
      ↔ (recorded e k port lbs routes ≡ true)
load_state_restores old new lbs routes held e k port =
    let ws = state_writes lbs routes in
    let r : All (Records old) ws =
      Records_of_puts old ws
        (λ e' k' port' h. held e' k' port' (sym (puts-state_writes e' k' port' lbs routes) ∙ h)) in
    let loaded = lookup-load_state old new lbs routes e k r in
    (
      λ h.
          let (set, found) =
            found_or_none (any_sets e k ws) (lookup old e k) port (sym loaded ∙ h) in
          sym (puts-state_writes e k port lbs routes) ∙ puts_of_sets e k port old ws r set found,
      λ h.
          loaded
          ∙ rw (sets_of_puts e k port ws (puts-state_writes e k port lbs routes ∙ h))
              (held e k port h),
    )
