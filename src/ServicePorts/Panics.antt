-- ===== src/ServicePorts/Panics.antt =====
-- When `CreateServicePorts` (internal/kubelb/loadbalancer.go) returns.
use kubelb_ce.Base.{ℕ, zero, suc, ◌+◌, ◌≡◌, refl}
use kubelb_ce.Base.{Bool, true, false, ◌||◌, Option, List, [], ◌∷◌, arith}
use kubelb_ce.Base.{leb, ltb}
use kubelb_ce.Base.Dict.{has_value}
use kubelb_ce.Base.Lists.{length, get_elem?}
use kubelb_ce.Base.Text.{Text}
use kubelb_ce.Api.{
  EndpointPort, LoadBalancerPort, LoadBalancerEndpoints, LoadBalancer, ServicePort, Service,
}
use kubelb_ce.ServicePorts.{
  upstream_port, service_port, service_ports, ports_of_first, create_service_ports,
}

has-get_elem? {ℓ} :
    {A : Type ℓ} (xs : List A) (i : ℕ) → has_value (get_elem? xs i) ≡ ltb i (length xs)
unfolding has_value
has-get_elem? [] i = ground arith
has-get_elem? (x ∷ xs) zero = ground arith
has-get_elem? (x ∷ xs) (suc i) = ground (arith, has-get_elem? xs i)

abbrev is_empty {ℓ} : {A : Type ℓ} → List A → Bool
is_empty [] = true
is_empty (x ∷ xs) = false

-- Each port of the load balancer has a port of the first endpoint at its index.
abbrev pub fits : List LoadBalancerEndpoints → List LoadBalancerPort → Bool
fits [] lb_ports = true
fits (e ∷ es) lb_ports = leb (length lb_ports) (length e.ports)

module _ (lookup : Text → Text → Option ℕ) where
  has-service_port :
      (namespace name : Text) (ports : List EndpointPort) (existing : List ServicePort) (i : ℕ)
      (lb_port : LoadBalancerPort)
      → has_value (service_port lookup namespace name ports existing i lb_port)
        ≡ ltb i (length ports)
  unfolding service_port upstream_port has_value
  has-service_port namespace name ports existing i lb_port = ground (arith, has-get_elem? ports i)

  has-service_ports :
      (namespace name : Text) (ports : List EndpointPort) (existing : List ServicePort) (i : ℕ)
      (lb_ports : List LoadBalancerPort)
      → has_value (service_ports lookup namespace name ports existing i lb_ports)
        ≡ (is_empty lb_ports || leb (i + length lb_ports) (length ports))
  unfolding service_ports has_value
  has-service_ports namespace name ports existing i [] = refl
  has-service_ports namespace name ports existing i (l ∷ []) =
      ground (arith, has-service_port namespace name ports existing i l)
  has-service_ports namespace name ports existing i (l ∷ m ∷ ls) = ground (
    arith,
    has-service_port namespace name ports existing i l,
    has-service_ports namespace name ports existing (suc i) (m ∷ ls),
  )

  has-ports_of_first :
      (namespace name : Text) (es : List LoadBalancerEndpoints) (lb_ports : List LoadBalancerPort)
      (existing : List ServicePort)
      → has_value (ports_of_first lookup namespace name es lb_ports existing) ≡ fits es lb_ports
  unfolding ports_of_first has_value
  has-ports_of_first namespace name [] lb_ports existing = refl
  has-ports_of_first namespace name (e ∷ es) [] existing =
      ground (arith, has-service_ports namespace name e.ports existing 0 [])
  has-ports_of_first namespace name (e ∷ es) (l ∷ ls) existing =
      ground (arith, has-service_ports namespace name e.ports existing 0 (l ∷ ls))

  -- The call returns exactly if there is no endpoint, or the first has a port for each port of the
  -- load balancer; else it panics.
  pub has-create_service_ports :
      (lb : LoadBalancer) (svc : Service)
      → has_value (create_service_ports lookup lb svc) ≡ fits lb.spec.endpoints lb.spec.ports
  unfolding create_service_ports
  has-create_service_ports lb svc =
      has-ports_of_first lb.meta.namespace lb.meta.name lb.spec.endpoints lb.spec.ports svc.ports
