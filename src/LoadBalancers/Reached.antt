-- ===== src/LoadBalancers/Reached.antt =====
-- From a service of a tenant to Envoy: `MapLoadBalancer`, `CreateServicePorts`
-- (internal/kubelb/loadbalancer.go) and `MapSnapshot` (internal/envoy/resource.go) together.
use kubelb_ce.Base.{
  ◌≡◌, refl, arith, ℕ, zero, suc, ◌+◌, ◌≤◌, inl, inr, Option-cases, Bool, true, false, Option, some,
  List, [], ◌∷◌, ◌++◌,
}
use kubelb_ce.Base.{text_eq, nat_eq, ◌==◌, eq_refl}
use kubelb_ce.Base.Dict.{has_value}
use kubelb_ce.Base.Lists.{All, length, get_elem?}
use kubelb_ce.Base.Text.{Text}
use kubelb_ce.Api.{
  EndpointAddress, EndpointPort, LoadBalancerPort, LoadBalancer, ServicePort, Service, Route,
}
use kubelb_ce.Ports.{PortAllocator, lookup}
use kubelb_ce.LoadBalancers.{port_name, load_balancer_ports, endpoint_ports, map_load_balancer}
use kubelb_ce.LoadBalancers.Mapped.{length-endpoint_ports, create_service_ports-map_load_balancer}
use kubelb_ce.ServicePorts.{find_port, upstream_port, create_service_ports}
use kubelb_ce.Snapshot.Xds.{Cluster, Listener}
use kubelb_ce.Snapshot.Routes.{Snapshot, map_snapshot}
use kubelb_ce.Snapshot.Listening.{listens, offers, IsL4}
use kubelb_ce.Snapshot.Reaching.{IsBacked, offers_upstream_of, create_service_ports-listens}

-- No two ports of the service get one name.
abbrev pub DistinctNames : List ServicePort → Type 0
DistinctNames [] = Unit
DistinctNames (p ∷ ps) =
    All (λ (q : ServicePort). (port_name p == port_name q) ≡ false) ps × DistinctNames ps

-- The endpoint port of a service port is found by its name, and offered.
abbrev Found : List EndpointPort → ServicePort → Type 0
Found ports p =
    (find_port (port_name p) ports ≡ some p.node_port)
    × (offers ports p.node_port p.protocol ≡ true)

Found-cons :
    (p : ServicePort) (ports : List EndpointPort) (qs : List ServicePort)
    → All (λ (q : ServicePort). (port_name p == port_name q) ≡ false) qs
    → All (Found ports) qs
    → All
        (Found (record { name = port_name p; port = p.node_port; protocol = p.protocol } ∷ ports))
        qs
unfolding find_port offers
Found-cons p ports [] apart found = tt
Found-cons p ports (q ∷ qs) (other, apart) ((named, offered), found) =
    ((rw other named, rw offered (ground arith)), Found-cons p ports qs apart found)

all_Found :
    (ports : List ServicePort) → DistinctNames ports → All (Found (endpoint_ports ports)) ports
unfolding endpoint_ports find_port offers
all_Found [] d = tt
all_Found (p ∷ ports) (apart, d) = (
  (ground (arith, eq_refl (port_name p)), ground (arith, eq_refl p.node_port, eq_refl p.protocol)),
  Found-cons p (endpoint_ports ports) ports apart (all_Found ports d),
)

get_elem?_below {ℓ} :
    {A : Type ℓ} (xs : List A) (i : ℕ) → suc i ≤ length xs → (a : A) × (get_elem? xs i ≡ some a)
get_elem?_below [] i h = absurd (omega arith)
get_elem?_below (x ∷ xs) zero h = (x, refl)
get_elem?_below (x ∷ xs) (suc i) h = get_elem?_below xs i (omega arith)

upstream_port_found :
    (ports : List EndpointPort) (i : ℕ) (l : LoadBalancerPort) {a : EndpointPort} {target : ℕ}
    → get_elem? ports i ≡ some a
    → find_port l.name ports ≡ some target
    → upstream_port ports i l ≡ some target
unfolding upstream_port
upstream_port_found ports i l there named = rw (there, named) refl

load_balancer_ports-IsBacked :
    (ports : List EndpointPort) (i : ℕ) (ps : List ServicePort)
    → i + length ps ≤ length ports
    → All (λ (p : ServicePort). IsL4 p.protocol) ps
    → All (Found ports) ps
    → IsBacked ports i (load_balancer_ports ps)
unfolding load_balancer_ports
load_balancer_ports-IsBacked ports i [] h l4 found = tt
load_balancer_ports-IsBacked ports i (p ∷ ps) h (one, l4) ((named, offered), found) =
    let (at_index, there) = get_elem?_below ports i (omega arith) in
    let l : LoadBalancerPort = record {
      name = port_name p;
      protocol = p.protocol;
      port = p.port;
    } in
    (
      one,
      offers_upstream_of ports i l (upstream_port_found ports i l there named) offered,
      load_balancer_ports-IsBacked ports (suc i) ps (omega arith) l4 found,
    )

-- A service of a tenant whose ports are TCP or UDP and get distinct names: if a snapshot is made of
-- any load balancers among which is the one mapped from the service, then the ports of the service
-- made for it are created, and each targets a port on which the snapshot listens, for its protocol.
pub map_load_balancer-listens :
    (hash : List Cluster → List Listener → Option Text)
    (get_addresses : Text → Text → Option (List EndpointAddress)) (pa : PortAllocator)
    (xs ys : List LoadBalancer) (service : Service) (cluster_endpoints : List Text)
    (by_reference : Bool) (cluster_name : Text) (routes : List Route) (existing : Service)
    {snapshot : Snapshot}
    → All (λ (p : ServicePort). IsL4 p.protocol) service.ports
    → DistinctNames service.ports
    → let lb = map_load_balancer service cluster_endpoints by_reference cluster_name in
      map_snapshot hash get_addresses (xs ++ lb ∷ ys) routes (some pa) ≡ some snapshot
      → (made : List ServicePort) × (create_service_ports (lookup pa) lb existing ≡ some made)
        × All (λ (s : ServicePort). listens s.protocol s.target_port snapshot.listeners ≡ true) made
unfolding has_value map_load_balancer
map_load_balancer-listens hash get_addresses pa xs ys service cluster_endpoints by_reference
      cluster_name routes existing l4 distinct mapped =
    let lb = map_load_balancer service cluster_endpoints by_reference cluster_name in
    let ports = endpoint_ports service.ports in
    let returns =
      create_service_ports-map_load_balancer (lookup pa) service cluster_endpoints by_reference
        cluster_name existing in
    let backed =
      load_balancer_ports-IsBacked ports 0 service.ports
        (omega (arith, length-endpoint_ports service.ports)) l4
        (all_Found service.ports distinct) in
    elim (Option-cases (create_service_ports (lookup pa) lb existing)) [
      | inl panics ↦ absurd (cc (panics, returns))
      | inr (made, h) ↦ (
        made,
        h,
        create_service_ports-listens hash get_addresses pa xs ys lb _ [] routes existing refl backed
            mapped h,
      )
    ]
