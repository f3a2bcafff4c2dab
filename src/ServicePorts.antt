-- ===== src/ServicePorts.antt =====
-- `CreateServicePorts` of internal/kubelb/loadbalancer.go, and the part of
-- `updateLoadBalancerStatus` (internal/controllers/kubelb/loadbalancer_controller.go) that records
-- the ports of the service. `none` is the panic of an index out of range. Target ports fit an int32.
pub mod Order
pub mod Panics
pub mod Recorded
use kubelb_ce.Base.{ℕ, suc, ◌+◌, Bool, true, false, ◌&&◌, ◌||◌, Option, none, some, List, [], ◌∷◌}
use kubelb_ce.Base.{ltb, text_eq, nat_eq, ◌==◌, ◌>>=◌, if◌then◌else◌}
use kubelb_ce.Base.Lists.{get_elem?}
use kubelb_ce.Base.Text.{Text}
use kubelb_ce.Api.{
  EndpointPort, LoadBalancerPort, LoadBalancerEndpoints, LoadBalancer, ServicePort, StatusPort,
  Service,
}
use kubelb_ce.Keys.{endpoint_key, listener_key}

-- `<` on Go strings.
unfoldable pub text_lt : Text → Text → Bool
text_lt [] [] = false
text_lt [] (d ∷ t) = true
text_lt (c ∷ s) [] = false
text_lt (c ∷ s) (d ∷ t) = ltb c d || (c == d && text_lt s t)

-- The first endpoint port of the name.
unfoldable pub find_port : Text → List EndpointPort → Option ℕ
find_port name [] = none
find_port name (p ∷ ports) = if p.name == name then some p.port else find_port name ports

-- The port at the same index, unless another has the name.
unfoldable pub upstream_port : List EndpointPort → ℕ → LoadBalancerPort → Option ℕ
upstream_port ports i lb_port = get_elem? ports i >>= λ at_index.
    some (elim (find_port lb_port.name ports) [ none ↦ at_index.port | some port ↦ port ])

unfoldable pub is_existing : LoadBalancerPort → ServicePort → Bool
is_existing lb_port s =
    s.name == lb_port.name || (s.port == lb_port.port && s.protocol == lb_port.protocol)

-- The node port of the first existing port that matches; 0 stands for none.
unfoldable pub existing_node_port : LoadBalancerPort → List ServicePort → ℕ
existing_node_port lb_port [] = 0
existing_node_port lb_port (s ∷ ss) =
    if is_existing lb_port s then s.node_port else existing_node_port lb_port ss

-- `sort.Slice` by name. It leaves open the order of equal names; this is the insertion sort that Go
-- uses for short slices.
unfoldable pub insert_by_name : ServicePort → List ServicePort → List ServicePort
insert_by_name p [] = p ∷ []
insert_by_name p (q ∷ qs) = if text_lt q.name p.name then q ∷ insert_by_name p qs else p ∷ q ∷ qs

unfoldable pub sort_by_name : List ServicePort → List ServicePort
sort_by_name [] = []
sort_by_name (p ∷ ps) = insert_by_name p (sort_by_name ps)

-- The interface `PortAllocator` of the source is its `Lookup`.
module _ (lookup : Text → Text → Option ℕ) where
  -- The allocated port of the endpoint's port, or that port itself.
  unfoldable pub allocated_or : Text → Text → ℕ → Text → ℕ
  allocated_or namespace name target protocol =
      elim (lookup (endpoint_key namespace name 0) (listener_key target protocol)) [
        | none ↦ target
        | some port ↦ port
      ]

  -- One round of the loop, at index `i`.
  unfoldable pub service_port :
      Text → Text → List EndpointPort → List ServicePort → ℕ → LoadBalancerPort → Option ServicePort
  service_port namespace name ports existing i lb_port = upstream_port ports i lb_port >>= λ target.
      some (record {
        name = lb_port.name;
        protocol = lb_port.protocol;
        port = lb_port.port;
        target_port = allocated_or namespace name target lb_port.protocol;
        node_port = existing_node_port lb_port existing;
      })

  unfoldable pub service_ports :
      Text
      → Text
      → List EndpointPort
      → List ServicePort
      → ℕ
      → List LoadBalancerPort
      → Option (List ServicePort)
  service_ports namespace name ports existing i [] = some []
  service_ports namespace name ports existing i (lb_port ∷ lb_ports) =
      service_port namespace name ports existing i lb_port >>= λ port.
      service_ports namespace name ports existing (suc i) lb_ports >>= λ rest. some (port ∷ rest)

  -- Of the endpoints the first is read; with none there are no ports.
  unfoldable pub ports_of_first :
      Text
      → Text
      → List LoadBalancerEndpoints
      → List LoadBalancerPort
      → List ServicePort
      → Option (List ServicePort)
  ports_of_first namespace name [] lb_ports existing = some []
  ports_of_first namespace name (e ∷ es) lb_ports existing =
      service_ports namespace name e.ports existing 0 lb_ports >>= λ desired.
      some (sort_by_name desired)

  unfoldable pub create_service_ports : LoadBalancer → Service → Option (List ServicePort)
  unfolding ports_of_first
  create_service_ports lb existing_service =
      ports_of_first lb.meta.namespace lb.meta.name lb.spec.endpoints lb.spec.ports
        existing_service.ports

-- The loop over the ports of the service: each is recorded with the endpoint port at its index.
unfoldable pub status_ports : List EndpointPort → ℕ → List ServicePort → Option (List StatusPort)
status_ports ports i [] = some []
status_ports ports i (s ∷ ss) = get_elem? ports i >>= λ p. status_ports ports (suc i) ss >>= λ rest.
    some (record { service_port = s; upstream_target_port = p.port } ∷ rest)
