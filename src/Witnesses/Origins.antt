-- ===== src/Witnesses/Origins.antt =====
-- Event handlers, node addresses, the services of routes, and the way from a service of a tenant to
-- Envoy, at concrete inputs.
use mathlib.Core.List.{map}
use kubelb_ce.Base.{
  ◌≡◌, refl, inl, arith, true, false, not, ◌&&◌, Option, none, some, List, [], ◌∷◌, ◌++◌,
}
use kubelb_ce.Base.{text_eq, nat_eq, ◌==◌, contains}
use kubelb_ce.Base.Dict
use kubelb_ce.Base.Dict.{has_value}
use kubelb_ce.Base.Lists.{All, any}
use kubelb_ce.Base.Text.{Text, txt, show, digits}
use kubelb_ce.Api.{
  ObjectMeta, ServicePort, Service, EndpointAddress, LoadBalancer, KubernetesSource, Route,
  AnnotationSettings,
}
use kubelb_ce.Keys.{
  route_port_identifier, endpoint_key, resource_identifier, route_endpoint_key, listener_key,
}
use kubelb_ce.Labels.{original_route_name, add_kubelb_labels}
use kubelb_ce.Ports.{PortAllocator, lookup, lookup_in}
use kubelb_ce.Events.{load_balancer_type, enqueue_load_balancer}
use kubelb_ce.Events.Origin.{enqueue_load_balancer-map_load_balancer}
use kubelb_ce.LoadBalancers.{
  map_load_balancer, load_balancer_ports, endpoint_ports, endpoint_addresses,
}
use kubelb_ce.LoadBalancers.Reached.{map_load_balancer-listens}
use kubelb_ce.Nodes.{Node, AddressesObject, generate_addresses}
use kubelb_ce.Nodes.Addresses.{gives, ips, contains-generate_addresses}
use kubelb_ce.RouteServices.{generate_service_for_lb_cluster, generate_bridge_service}
use kubelb_ce.RouteServices.Targets.{IsAllocated, generate_service_for_lb_cluster-targets}
use kubelb_ce.ServicePorts.{create_service_ports}
use kubelb_ce.Snapshot.{
  resolve_endpoint, listener_port, add_port, add_ports, add_endpoints, add_load_balancers,
}
use kubelb_ce.Snapshot.Xds.{
  tcp, http_listener, route_listeners, is_http_route, Cluster, Listener, make_backends,
  make_cluster, tcp_listener, l4_listeners,
}
use kubelb_ce.Snapshot.Routes.{
  get_route_kind, route_listener_port, add_service_port, add_service_ports, add_services,
  resolve_all, add_source, Snapshot, add_routes, map_resources, map_snapshot,
}
use kubelb_ce.Snapshot.Listening.{listens, IsL4}

abbrev meta : ObjectMeta
meta = record {
  name = txt "shop";
  namespace = txt "default";
  uid = txt "0a1b2c";
  labels = none;
  annotations = none;
  deletion_timestamp = none;
  finalizers = [];
}

abbrev port : ServicePort
port = record { name = []; protocol = tcp; port = 80; target_port = 8080; node_port = 30080 }

abbrev shop : Service
shop = record {
  meta = meta;
  type = load_balancer_type;
  ports = port ∷ [];
  selector = none;
  cluster_ip = [];
  class = none;
  ingress = [];
}

not_empty : ((txt "shop" == []) ≡ false) × ((txt "default" == []) ≡ false)
unfolding text_eq
not_empty = (refl, refl)

enqueue_load_balancer-map_load_balancer_example :
    enqueue_load_balancer (txt "tenant-x") (map_load_balancer shop [] true (txt "tenant-x"))
    ≡ record { name = txt "shop"; namespace = txt "default" } ∷ []
enqueue_load_balancer-map_load_balancer_example =
    enqueue_load_balancer-map_load_balancer shop [] true (txt "tenant-x") refl not_empty.0
      not_empty.1

abbrev route : Route
route = record {
  meta = meta;
  spec = record { endpoints = []; kubernetes = none };
  status = record { services = none };
}

abbrev labelled : Route
labelled = record route {
  meta = record meta {
    labels = add_kubelb_labels none (txt "shop") (txt "default") (txt "Ingress");
  };
}

kind_not_empty : (txt "Ingress" == []) ≡ false
unfolding text_eq
kind_not_empty = refl

abbrev nodes : List Node
nodes =
    record {
      conditions = record { type = txt "Ready"; value = txt "True" } ∷ [];
      addresses = record { type = txt "InternalIP"; value = txt "10.0.0.1" } ∷ [];
    }
    ∷ []

contains-generate_addresses_example :
    (has_value (generate_addresses (txt "InternalIP") (txt "tenant-x") nodes)
      ≡ any (gives (txt "InternalIP") (λ value. not (value == []))) nodes)
    × ((made : AddressesObject) (ip : Text)
        → generate_addresses (txt "InternalIP") (txt "tenant-x") nodes ≡ some made
        → contains (ips made.addresses) ip
          ≡ (any (gives (txt "InternalIP") (λ value. ip == value)) nodes && not (ip == [])))
contains-generate_addresses_example =
    contains-generate_addresses (txt "InternalIP") (txt "tenant-x") nodes

abbrev key : Text
key = route_endpoint_key (txt "tenant-x") (txt "default") (txt "shop") (txt "web")

abbrev pa : PortAllocator
pa = record {
  port_lookup = (key, (txt "80-TCP", 10007) ∷ []) ∷ [];
  port_lookup_reverse = 10007 ∷ [];
}

abbrev no_settings : AnnotationSettings
no_settings = record {
  propagated_annotations = none;
  propagate_all_annotations = none;
  default_annotations = none;
}

allocated : All (IsAllocated pa key) (port ∷ [])
unfolding has_value lookup lookup_in Dict.lookup route_endpoint_key listener_key show digits text_eq
allocated = (refl, tt)

abbrev bridge : Service
bridge = generate_bridge_service shop (txt "envoy") (txt "kubelb")

abbrev hash : List Cluster → List Listener → Option Text
hash clusters listeners = some (txt "v1")

abbrev no_addresses : Text → Text → Option (List EndpointAddress)
no_addresses namespace name = none

abbrev lb : LoadBalancer
lb = map_load_balancer shop (txt "10.0.0.1" ∷ []) false (txt "tenant-x")

abbrev resource : Text
resource = txt "tenant-x-0a1b2c-ep-0-port-30080-TCP"

abbrev snapshot : Snapshot
snapshot = record {
  version = txt "v1";
  clusters =
      make_cluster resource
        (make_backends (record { ip = txt "10.0.0.1"; hostname = [] } ∷ []) 30080) tcp []
      ∷ [];
  listeners = tcp_listener resource resource 30080 ∷ [];
}

mapped : map_snapshot hash no_addresses ([] ++ lb ∷ []) [] (some pa) ≡ some snapshot
unfolding map_snapshot map_resources add_load_balancers add_routes add_endpoints add_ports add_port
    resolve_endpoint listener_port l4_listeners lookup lookup_in Dict.lookup map_load_balancer
    load_balancer_ports endpoint_ports endpoint_addresses route_endpoint_key endpoint_key
    resource_identifier listener_key show digits text_eq
mapped = refl

only_tcp : All (λ (p : ServicePort). IsL4 p.protocol) (port ∷ [])
only_tcp = (inl refl, tt)

map_load_balancer-listens_example :
    (made : List ServicePort) × (create_service_ports (lookup pa) lb shop ≡ some made)
    × All (λ (s : ServicePort). listens s.protocol s.target_port snapshot.listeners ≡ true) made
map_load_balancer-listens_example =
    map_load_balancer-listens hash no_addresses pa [] [] shop (txt "10.0.0.1" ∷ []) false
      (txt "tenant-x") [] shop only_tcp (tt, tt) mapped

abbrev source : KubernetesSource
source = record {
  route = record { kind = txt "Ingress"; meta = record meta { name = txt "web" } };
  services = shop ∷ [];
}

abbrev routed : Route
routed = record route {
  meta = record meta { namespace = txt "tenant-x"; name = txt "web" };
  spec = record { endpoints = []; kubernetes = some source };
}

abbrev route_resource : Text
route_resource =
    route_port_identifier (txt "tenant-x") (txt "default") (txt "shop") (txt "web") (txt "0a1b2c")
      80 tcp

abbrev route_snapshot : Snapshot
route_snapshot = record {
  version = txt "v1";
  clusters = make_cluster route_resource (make_backends [] 30080) tcp (txt "Ingress") ∷ [];
  listeners = http_listener route_resource route_resource 10007 ∷ [];
}

route_mapped : map_snapshot hash no_addresses [] ([] ++ routed ∷ []) (some pa) ≡ some route_snapshot
unfolding map_snapshot map_resources add_load_balancers add_routes add_source resolve_all
    add_services add_service_ports add_service_port route_listener_port route_listeners
    is_http_route get_route_kind original_route_name listener_port lookup lookup_in Dict.lookup
    route_endpoint_key listener_key show digits text_eq
route_mapped = refl

generate_service_for_lb_cluster-targets_example :
    (made : Service) × (generate_service_for_lb_cluster shop
        (txt "envoy")
        (txt "tenant-x")
        (original_route_name routed)
        pa
        false
        no_settings
      ≡ some made)
    × (map (λ (s : ServicePort). s.port) made.ports ≡ map (λ (p : ServicePort). p.port) shop.ports)
    × All
        (λ (s : ServicePort). listens s.protocol s.target_port route_snapshot.listeners ≡ true)
        made.ports
unfolding original_route_name text_eq
generate_service_for_lb_cluster-targets_example =
    generate_service_for_lb_cluster-targets hash no_addresses pa [] [] [] routed source [] [] shop
      (txt "envoy") false no_settings refl refl (omega arith) only_tcp allocated route_mapped
