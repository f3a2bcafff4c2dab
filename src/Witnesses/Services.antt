-- ===== src/Witnesses/Services.antt =====
-- internal/kubelb/loadbalancer.go and the keys and names of internal/kubelb/utils.go at concrete
-- inputs.
use kubelb_ce.Base.{
  ℕ, ◌≡◌, ◌≢◌, ◌≤◌, refl, true, false, Option, none, some, List, [], ◌∷◌, ◌++◌, arith,
}
use kubelb_ce.Base.{text_eq, nat_eq}
use kubelb_ce.Base.Dict.{has_value}
use kubelb_ce.Base.Lists.{All, length}
use kubelb_ce.Base.Text.{Text, txt}
use kubelb_ce.Api.{
  ObjectMeta, EndpointPort, LoadBalancerEndpoints, LoadBalancerPort, LoadBalancer, ServicePort,
  StatusPort, Service,
}
use kubelb_ce.Keys.{endpoint_key, route_endpoint_key}
use kubelb_ce.Keys.Decimal.{IsNotDash}
use kubelb_ce.Keys.Injective.{route_endpoint_key-clash}
use kubelb_ce.Labels.{add_kubelb_labels}
use kubelb_ce.Names.{generate_name, generate_name_bounded}
use kubelb_ce.Ports.Load.{status_port}
use kubelb_ce.ServicePorts.{text_lt, create_service_ports, status_ports}
use kubelb_ce.ServicePorts.Panics.{fits, has-create_service_ports}
use kubelb_ce.ServicePorts.Recorded.{recorded_out_of_order}
use kubelb_ce.LoadBalancers.{map_load_balancer}

abbrev index : ℕ
index = 3

abbrev https : ℕ
https = 443

no_dash : All IsNotDash (txt "TCP")
no_dash = (cc, (cc, (cc, tt)))

route_endpoint_key-clash_example :
    route_endpoint_key (txt "x") (txt "a") (txt "b" ++ (txt "-" ++ txt "c")) (txt "r")
    ≡ route_endpoint_key (txt "x") (txt "a" ++ (txt "-" ++ txt "b")) (txt "c") (txt "r")
route_endpoint_key-clash_example =
    route_endpoint_key-clash (txt "x") (txt "a") (txt "b") (txt "c") (txt "r")

abbrev meta : ObjectMeta
meta = record {
  name = txt "shop";
  namespace = txt "default";
  uid = txt "0a1b2c";
  labels = none;
  annotations = none;
  deletion_timestamp = none;
  finalizers = [];
}

abbrev labelled : ObjectMeta
labelled = record meta {
  labels = add_kubelb_labels meta.labels (txt "web") (txt "prod") (txt "Service");
}

generate_name_bounded_example :
    (out : Text) × (generate_name true (txt "0a1b2c") (txt "web") (txt "prod") ≡ some out)
    × (length out ≤ 60)
generate_name_bounded_example =
    generate_name_bounded true (txt "0a1b2c") (txt "web") (txt "prod") (omega arith)

abbrev port_b : ServicePort
port_b = record {
  name = txt "b";
  protocol = txt "TCP";
  port = 80;
  target_port = 8080;
  node_port = 30080;
}

abbrev port_a : ServicePort
port_a = record {
  name = txt "a";
  protocol = txt "TCP";
  port = 443;
  target_port = 8443;
  node_port = 30443;
}

abbrev service : Service
service = record {
  meta = meta;
  type = txt "LoadBalancer";
  ports = port_b ∷ port_a ∷ [];
  selector = none;
  cluster_ip = [];
  class = none;
  ingress = [];
}

abbrev no_lookup : Text → Text → Option ℕ
no_lookup endpoint_key port_key = none

abbrev mapped : LoadBalancer
mapped = map_load_balancer service (txt "10.0.0.1" ∷ []) false (txt "tenant-x")

abbrev end_b : EndpointPort
end_b = record { name = txt "b"; port = 30080; protocol = txt "TCP" }

abbrev end_a : EndpointPort
end_a = record { name = txt "a"; port = 30443; protocol = txt "TCP" }

abbrev lb_b : LoadBalancerPort
lb_b = record { name = txt "b"; protocol = txt "TCP"; port = 80 }

abbrev lb_a : LoadBalancerPort
lb_a = record { name = txt "a"; protocol = txt "TCP"; port = 443 }

abbrev endpoint : LoadBalancerEndpoints
endpoint = record {
  name = [];
  addresses = [];
  addresses_reference = none;
  ports = end_b ∷ end_a ∷ [];
}

abbrev unsorted : LoadBalancer
unsorted = record {
  meta = meta;
  spec = record {
    endpoints = endpoint ∷ [];
    ports = lb_b ∷ lb_a ∷ [];
    hostname = [];
    type = txt "LoadBalancer";
  };
  status = record { ingress = []; service = record { ports = [] }; hostname = none };
}

has-create_service_ports_example :
    has_value (create_service_ports no_lookup unsorted service)
    ≡ fits unsorted.spec.endpoints unsorted.spec.ports
has-create_service_ports_example = has-create_service_ports no_lookup unsorted service

a_before_b : text_lt (txt "a") (txt "b") ≡ true
unfolding text_lt
a_before_b = refl

apart : end_b.port ≢ end_a.port
apart = omega arith

recorded_out_of_order_example :
    (desired : List ServicePort) × (recorded : List StatusPort) × (create_service_ports no_lookup
        unsorted service
      ≡ some desired)
    × (status_ports endpoint.ports 0 desired ≡ some recorded)
    × (status_port end_b recorded ≡ none)
    × (status_port end_a recorded ≡ none)
recorded_out_of_order_example =
    recorded_out_of_order no_lookup unsorted service endpoint end_b end_a lb_b lb_a refl refl refl
      refl refl a_before_b apart
