-- ===== src/LoadBalancers.antt =====
-- `MapLoadBalancer` and `LoadBalancerIsDesiredState` of internal/kubelb/loadbalancer.go: from a
-- service of a tenant to its LoadBalancer resource, and when that one is up to date.
pub mod Mapped
pub mod Desired
pub mod Reached
use kubelb_ce.Base.{
  ℕ, suc, Bool, true, false, ◌&&◌, Option, none, some, List, [], ◌∷◌, ◌++◌, if◌then◌else◌,
}
use kubelb_ce.Base.{text_eq, nat_eq, ◌==◌}
use kubelb_ce.Base.Dict
use kubelb_ce.Base.Dict.{Dict}
use kubelb_ce.Base.Lists.{length}
use kubelb_ce.Base.Strings.{to_lower}
use kubelb_ce.Base.Text.{Text, txt, show}
use kubelb_ce.Api.{
  StringMap, ServicePort, Service, EndpointAddress, EndpointPort, LoadBalancerEndpoints,
  LoadBalancerPort, LoadBalancer, default_address_name,
}
use kubelb_ce.Labels.{label_origin_namespace, label_origin_name, label_tenant_name}
use kubelb_ce.Annotations.{last_applied, compare_annotations}

-- The name of a port; one without a name is called after its number and protocol.
unfoldable pub port_name : ServicePort → Text
port_name p =
    if p.name == [] then show p.port ++ txt "-" ++ to_lower p.protocol else to_lower p.name

unfoldable pub load_balancer_ports : List ServicePort → List LoadBalancerPort
load_balancer_ports [] = []
load_balancer_ports (p ∷ ports) =
    record { name = port_name p; protocol = p.protocol; port = p.port } ∷ load_balancer_ports ports

unfoldable pub endpoint_ports : List ServicePort → List EndpointPort
endpoint_ports [] = []
endpoint_ports (p ∷ ports) =
    record { name = port_name p; port = p.node_port; protocol = p.protocol } ∷ endpoint_ports ports

unfoldable pub endpoint_addresses : List Text → List EndpointAddress
endpoint_addresses [] = []
endpoint_addresses (ip ∷ ips) = record { ip = ip; hostname = [] } ∷ endpoint_addresses ips

unfoldable pub without_last_applied : StringMap → StringMap
without_last_applied none = none
without_last_applied (some m) = some (Dict.erase last_applied m)

unfoldable pub map_load_balancer : Service → List Text → Bool → Text → LoadBalancer
map_load_balancer service cluster_endpoints use_addresses_reference cluster_name = record {
  meta = record {
    name = service.meta.uid;
    namespace = cluster_name;
    uid = [];
    labels = some (
        (label_origin_namespace, service.meta.namespace)
        ∷ (label_origin_name, service.meta.name)
        ∷ (label_tenant_name, cluster_name)
        ∷ []);
    annotations = without_last_applied service.meta.annotations;
    deletion_timestamp = none;
    finalizers = [];
  };
  spec = record {
    endpoints =
        record {
          name = [];
          addresses = if use_addresses_reference then [] else endpoint_addresses cluster_endpoints;
          addresses_reference = if use_addresses_reference then some default_address_name else none;
          ports = endpoint_ports service.ports;
        }
        ∷ [];
    ports = load_balancer_ports service.ports;
    hostname = [];
    type = service.type;
  };
  status = record { ingress = []; service = record { ports = [] }; hostname = none };
}

-- `delete(userService.Annotations, …)`: the map belongs to the service of the caller.
unfoldable pub user_service_after : Service → Service
user_service_after service =
    let annotations = without_last_applied service.meta.annotations in
    record service { meta = record service.meta { annotations = annotations } }

-- A loop over the indices of `desired`; the lengths are compared before it.
unfoldable pub all_same {ℓ} : {A : Type ℓ} → (A → A → Bool) → List A → List A → Bool
all_same same [] actual = true
all_same same (d ∷ desired) [] = true
all_same same (d ∷ desired) (a ∷ actual) = same a d && all_same same desired actual

unfoldable pub load_balancer_port_is_desired_state : LoadBalancerPort → LoadBalancerPort → Bool
load_balancer_port_is_desired_state actual desired =
    actual.protocol == desired.protocol && actual.port == desired.port

unfoldable pub endpoint_port_is_desired_state : EndpointPort → EndpointPort → Bool
endpoint_port_is_desired_state actual desired =
    actual.port == desired.port && actual.protocol == desired.protocol

unfoldable pub endpoint_address_is_desired_state : EndpointAddress → EndpointAddress → Bool
endpoint_address_is_desired_state actual desired =
    actual.hostname == desired.hostname && actual.ip == desired.ip

-- The body of the loop over the endpoints.
unfoldable pub endpoints_are_desired_state : LoadBalancerEndpoints → LoadBalancerEndpoints → Bool
endpoints_are_desired_state actual desired =
    length desired.addresses == length actual.addresses
    && (length desired.ports == length actual.ports
        && (all_same endpoint_address_is_desired_state desired.addresses actual.addresses
            && all_same endpoint_port_is_desired_state desired.ports actual.ports))

unfoldable pub load_balancer_is_desired_state :
    (Dict Text Text → Dict Text Text → Bool) → LoadBalancer → LoadBalancer → Bool
load_balancer_is_desired_state deep_equal actual desired =
    actual.spec.type == desired.spec.type
    && (length actual.spec.ports == length desired.spec.ports
        && (all_same load_balancer_port_is_desired_state desired.spec.ports actual.spec.ports
            && (length actual.spec.endpoints == length desired.spec.endpoints
                && (all_same endpoints_are_desired_state desired.spec.endpoints
                      actual.spec.endpoints
                    && compare_annotations deep_equal actual.meta.annotations
                        desired.meta.annotations))))
