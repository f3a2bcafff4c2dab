-- ===== src/Ports/Mapper.antt =====
-- internal/port-lookup/mapper.go: the endpoints of load balancers and routes as calls of the
-- allocator.
pub mod Jobs
use kubelb_ce.Base.{ℕ, ◌+◌, Option, none, some, List, [], ◌∷◌, ◌++◌, ◌>>=◌}
use kubelb_ce.Base.Text.{Text}
use kubelb_ce.Api.{EndpointPort, LoadBalancerEndpoints, LoadBalancer, ServicePort, Service, Route}
use kubelb_ce.Keys.{endpoint_key, route_endpoint_key, listener_key}
use kubelb_ce.Labels.{original_route_name}
use kubelb_ce.Ports.{PortAllocator, Allocated, allocate_ports, deallocate_endpoints}

-- One call of `AllocatePorts`: the endpoint key and the port keys.
abbrev pub Job : Type 0
Job = Text × List Text

-- The calls of a pass in their order, each on the state that the one before it left.
unfoldable pub allocate_all : PortAllocator → List Job → List ℕ → Option (PortAllocator × List ℕ)
allocate_all pa [] draws = some (pa, draws)
allocate_all pa ((endpoint_key, keys) ∷ jobs) draws =
    allocate_ports pa endpoint_key keys draws >>= λ a. allocate_all a.state jobs a.draws

unfoldable pub endpoint_port_keys : List EndpointPort → List Text
endpoint_port_keys [] = []
endpoint_port_keys (p ∷ ports) = listener_key p.port p.protocol ∷ endpoint_port_keys ports

-- The endpoints of a load balancer from index `i` on.
unfoldable pub endpoint_jobs : Text → Text → ℕ → List LoadBalancerEndpoints → List Job
endpoint_jobs namespace name i [] = []
endpoint_jobs namespace name i (e ∷ es) =
    (endpoint_key namespace name i, endpoint_port_keys e.ports)
    ∷ endpoint_jobs namespace name (i + 1) es

unfoldable pub load_balancer_jobs : List LoadBalancer → List Job
load_balancer_jobs [] = []
load_balancer_jobs (lb ∷ lbs) =
    endpoint_jobs lb.meta.namespace lb.meta.name 0 lb.spec.endpoints ++ load_balancer_jobs lbs

unfoldable pub allocate_ports_for_load_balancers :
    PortAllocator → List LoadBalancer → List ℕ → Option (PortAllocator × List ℕ)
allocate_ports_for_load_balancers pa lbs = allocate_all pa (load_balancer_jobs lbs)

unfoldable pub service_port_keys : List ServicePort → List Text
service_port_keys [] = []
service_port_keys (p ∷ ports) = listener_key p.port p.protocol ∷ service_port_keys ports

unfoldable pub service_jobs : Text → Text → List Service → List Job
service_jobs namespace route_name [] = []
service_jobs namespace route_name (svc ∷ svcs) =
    (
      route_endpoint_key namespace svc.meta.namespace svc.meta.name route_name,
      service_port_keys svc.ports,
    )
    ∷ service_jobs namespace route_name svcs

-- A route with no Kubernetes source is skipped.
unfoldable pub services_of : Route → List Service
services_of route = elim route.spec.kubernetes [ none ↦ [] | some source ↦ source.services ]

unfoldable pub route_jobs : List Route → List Job
route_jobs [] = []
route_jobs (route ∷ routes) =
    service_jobs route.meta.namespace (original_route_name route) (services_of route)
    ++ route_jobs routes

unfoldable pub allocate_ports_for_routes :
    PortAllocator → List Route → List ℕ → Option (PortAllocator × List ℕ)
allocate_ports_for_routes pa routes = allocate_all pa (route_jobs routes)

unfoldable pub job_keys : List Job → List Text
job_keys [] = []
job_keys ((endpoint_key, keys) ∷ jobs) = endpoint_key ∷ job_keys jobs

-- A route with no source returns early and leaves the tables alone.
unfoldable pub deallocate_ports_for_route : PortAllocator → Route → PortAllocator
deallocate_ports_for_route pa route = elim route.spec.kubernetes [
  | none ↦ pa
  | some source ↦
      deallocate_endpoints pa
        (job_keys (service_jobs route.meta.namespace (original_route_name route) source.services))
]

unfoldable pub deallocate_ports_for_load_balancer : PortAllocator → LoadBalancer → PortAllocator
deallocate_ports_for_load_balancer pa lb =
    deallocate_endpoints pa
      (job_keys (endpoint_jobs lb.meta.namespace lb.meta.name 0 lb.spec.endpoints))
