-- ===== src/LoadBalancers/Mapped.antt =====
-- What `CreateServicePorts` (internal/kubelb/loadbalancer.go) makes of a LoadBalancer that
-- `MapLoadBalancer` has made.
use kubelb_ce.Base.{◌≡◌, refl, arith, ℕ, Bool, true, Option, List, [], ◌∷◌, ◌∙◌}
use kubelb_ce.Base.Dict.{has_value}
use kubelb_ce.Base.Lists.{length}
use kubelb_ce.Base.Text.{Text}
use kubelb_ce.Api.{ServicePort, Service}
use kubelb_ce.LoadBalancers.{load_balancer_ports, endpoint_ports, map_load_balancer}
use kubelb_ce.ServicePorts.{create_service_ports}
use kubelb_ce.ServicePorts.Panics.{has-create_service_ports}

length-load_balancer_ports :
    (ports : List ServicePort) → length (load_balancer_ports ports) ≡ length ports
unfolding load_balancer_ports
length-load_balancer_ports [] = refl
length-load_balancer_ports (p ∷ ports) = omega (arith, length-load_balancer_ports ports)

pub length-endpoint_ports :
    (ports : List ServicePort) → length (endpoint_ports ports) ≡ length ports
unfolding endpoint_ports
length-endpoint_ports [] = refl
length-endpoint_ports (p ∷ ports) = omega (arith, length-endpoint_ports ports)

-- The service ports of a LoadBalancer that was mapped from a service are always created: whatever
-- the service's ports, the port table and the existing service, no index is out of range.
pub create_service_ports-map_load_balancer :
    (lookup : Text → Text → Option ℕ) (service : Service) (cluster_endpoints : List Text)
    (by_reference : Bool) (cluster_name : Text) (existing : Service)
    → has_value (
        create_service_ports lookup
          (map_load_balancer service cluster_endpoints by_reference cluster_name)
          existing)
      ≡ true
unfolding map_load_balancer
create_service_ports-map_load_balancer lookup service cluster_endpoints by_reference cluster_name
      existing =
    has-create_service_ports lookup
      (map_load_balancer service cluster_endpoints by_reference cluster_name) existing
    ∙ rw (length-load_balancer_ports service.ports, length-endpoint_ports service.ports)
        (ground arith)
