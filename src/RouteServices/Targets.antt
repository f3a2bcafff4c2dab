-- ===== src/RouteServices/Targets.antt =====
-- The target ports of the services of a route against the ports of the listeners, and the labels
-- of a bridge service.
use mathlib.Core.List.{map}
use kubelb_ce.Base.{
  ◌≡◌, refl, ◌∙◌, arith, true, false, Bool, Option, none, some, List, [], ◌∷◌, ◌++◌, ◌≤◌,
}
use kubelb_ce.Base.{text_eq, ◌==◌}
use kubelb_ce.Base.Dict
use kubelb_ce.Base.Dict.{has_value}
use kubelb_ce.Base.Lists.{All, length}
use kubelb_ce.Base.Text.{Text}
use kubelb_ce.Api.{
  EndpointAddress, LoadBalancer, KubernetesSource, Route, ServicePort, Service, AnnotationSettings,
  StringMap, get, entries,
}
use kubelb_ce.Keys.{route_endpoint_key, listener_key}
use kubelb_ce.Labels.{
  original_route_name, label_origin_name, label_origin_namespace, get_name, add_kubelb_labels,
  get-add_kubelb_labels,
}
use kubelb_ce.Names.{generate_name_bounded}
use kubelb_ce.Ports.{PortAllocator, lookup}
use kubelb_ce.Snapshot.Routes.{Snapshot, map_snapshot}
use kubelb_ce.Snapshot.Xds.{Cluster, Listener}
use kubelb_ce.Snapshot.Listening.{listens, IsL4}
use kubelb_ce.Snapshot.RouteListening.{Heard, Heard-map_snapshot}
use kubelb_ce.Snapshot.{listener_port}
use kubelb_ce.RouteServices.{
  label_app_kubernetes_type, target_of, targeted_ports, service_in_lb_cluster,
  generate_service_for_lb_cluster, bridge_ports, bridge_labels, generate_bridge_service,
}

-- The port is allocated.
abbrev pub IsAllocated : PortAllocator → Text → ServicePort → Type 0
IsAllocated pa key p = has_value (lookup pa key (listener_key p.port p.protocol)) ≡ true

targeted_ports-Heard :
    (pa : PortAllocator) (key : Text) (ls : List Listener) (ports : List ServicePort)
    → All (IsAllocated pa key) ports
    → Heard pa key ports ls
    → All
        (λ (s : ServicePort). listens s.protocol s.target_port ls ≡ true)
        (targeted_ports pa key ports)
unfolding targeted_ports target_of has_value listener_port
targeted_ports-Heard pa key ls [] h heard = tt
targeted_ports-Heard pa key ls (p ∷ ports) (h, hs) (at, heard) =
    (ground (arith, h, at), targeted_ports-Heard pa key ls ports hs heard)

numbers_kept :
    (pa : PortAllocator) (key : Text) (ports : List ServicePort)
    → map (λ (s : ServicePort). s.port) (targeted_ports pa key ports)
      ≡ map (λ (p : ServicePort). p.port) ports
unfolding targeted_ports
numbers_kept pa key [] = refl
numbers_kept pa key (_ ∷ ports) = rw (numbers_kept pa key ports) refl

-- For a service of a route whose UID has at least four bytes, and whose ports are TCP or UDP and are
-- all allocated for the route, the service in the load balancer cluster is made, with the ports of
-- that service; and if a snapshot is made of that route and any others over the same allocator, it
-- listens on the target port of each, for its protocol.
pub generate_service_for_lb_cluster-targets :
    (hash : List Cluster → List Listener → Option Text)
    (get_addresses : Text → Text → Option (List EndpointAddress)) (pa : PortAllocator)
    (lbs : List LoadBalancer) (xs ys : List Route) (route : Route) (source : KubernetesSource)
    (before after : List Service) (service : Service) (app_name : Text) (global : Bool)
    (annotations : AnnotationSettings) {snapshot : Snapshot}
    → route.spec.kubernetes ≡ some source
    → source.services ≡ before ++ service ∷ after
    → 4 ≤ length service.meta.uid
    → All (λ (p : ServicePort). IsL4 p.protocol) service.ports
    → All
        (IsAllocated pa (
          route_endpoint_key route.meta.namespace service.meta.namespace service.meta.name
            (original_route_name route)))
        service.ports
    → map_snapshot hash get_addresses lbs (xs ++ route ∷ ys) (some pa) ≡ some snapshot
    → (made : Service) × (generate_service_for_lb_cluster service app_name route.meta.namespace
          (original_route_name route)
          pa
          global
          annotations
        ≡ some made)
      × (map (λ (s : ServicePort). s.port) made.ports
          ≡ map (λ (p : ServicePort). p.port) service.ports)
      × All
          (λ (s : ServicePort). listens s.protocol s.target_port snapshot.listeners ≡ true)
          made.ports
unfolding generate_service_for_lb_cluster service_in_lb_cluster
generate_service_for_lb_cluster-targets hash get_addresses pa lbs xs ys route source before after
      service app_name global annotations {snapshot} of_route of_source long l4 allocated mapped =
    let (name, named, short) =
      generate_name_bounded global service.meta.uid (get_name service.meta) service.meta.namespace
        long in
    let key =
      route_endpoint_key route.meta.namespace service.meta.namespace service.meta.name
        (original_route_name route) in
    (
      service_in_lb_cluster name service app_name route.meta.namespace (original_route_name route)
          pa global annotations,
      rw named refl,
      numbers_kept pa key service.ports,
      targeted_ports-Heard pa key snapshot.listeners service.ports allocated (
          Heard-map_snapshot get_addresses pa route source before after service of_route of_source
            l4 hash lbs xs ys mapped),
    )

bridged :
    (ports : List ServicePort)
    → (map (λ (p : ServicePort). p.port) (bridge_ports ports)
        ≡ map (λ (p : ServicePort). p.target_port) ports)
unfolding bridge_ports
bridged [] = refl
bridged (p ∷ ports) = rw (bridged ports) refl

distinct_type :
    ((label_origin_name == label_app_kubernetes_type) ≡ false)
    × ((label_origin_namespace == label_app_kubernetes_type) ≡ false)
unfolding text_eq
distinct_type = (refl, refl)

get_typed :
    (m : StringMap) (k v : Text)
    → (k == label_app_kubernetes_type) ≡ false
    → get (some (Dict.insert label_app_kubernetes_type v (entries m))) k ≡ get m k
unfolding get
get_typed none k v h = rw (Dict.lookup-insert, h) (Dict.lookup-nil k)
get_typed (some m) k v h = rw (Dict.lookup-insert, h) refl

-- The bridge service of a service answers on the target ports of that service, in order, and its
-- labels lead back to the name and the namespace of the service.
pub generate_bridge_service-origin :
    (service : Service) (app_name controller_namespace : Text)
    → let bridge = generate_bridge_service service app_name controller_namespace in
      (map (λ (p : ServicePort). p.port) bridge.ports
        ≡ map (λ (p : ServicePort). p.target_port) service.ports)
      × (get bridge.meta.labels label_origin_name ≡ some service.meta.name)
      × (get bridge.meta.labels label_origin_namespace ≡ some service.meta.namespace)
unfolding generate_bridge_service bridge_labels
generate_bridge_service-origin service app_name controller_namespace =
    let (named, placed) =
      get-add_kubelb_labels (some []) service.meta.name service.meta.namespace [] in
    let (a, b) = distinct_type in
    (
      bridged service.ports,
      get_typed (add_kubelb_labels (some []) service.meta.name service.meta.namespace []) _ _ a
          ∙ named,
      get_typed (add_kubelb_labels (some []) service.meta.name service.meta.namespace []) _ _ b
          ∙ placed,
    )
