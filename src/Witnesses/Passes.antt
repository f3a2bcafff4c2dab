-- ===== src/Witnesses/Passes.antt =====
-- internal/port-lookup/mapper.go, `LoadState` and internal/envoy/resource.go at concrete inputs.
use kubelb_ce.Base.{◌↔◌, ◌≡◌, refl, inl, true, Option, none, some, List, [], ◌∷◌, ◌++◌}
use kubelb_ce.Base.{text_eq, nat_eq, contains}
use kubelb_ce.Base.Dict
use kubelb_ce.Base.Dict.{has_value}
use kubelb_ce.Base.Lists.{All}
use kubelb_ce.Base.Text.{Text, txt, show, digits}
use kubelb_ce.Api.{
  ObjectMeta, EndpointAddress, EndpointPort, LoadBalancerEndpoints, LoadBalancerPort, LoadBalancer,
  ServicePort, Service,
}
use kubelb_ce.Keys.{endpoint_key, listener_key, resource_identifier}
use kubelb_ce.Ports.{PortAllocator, new_port_allocator, lookup, lookup_in}
use kubelb_ce.Ports.State.{IsWellFormed, new_port_allocator-IsWellFormed}
use kubelb_ce.Ports.Contract.{allocate_ports-IsWellFormed}
use kubelb_ce.Ports.Mapper.{Job, allocate_all, job_keys}
use kubelb_ce.Ports.Mapper.Jobs.{DistinctKeys, asks}
use kubelb_ce.Ports.Load.{
  load_state, state_writes, load_balancer_writes, route_writes, endpoint_writes,
  endpoint_port_writes, status_port, is_status_of,
}
use kubelb_ce.Ports.Load.Writes.{Records}
use kubelb_ce.Ports.Load.Restored as Restored
use kubelb_ce.Ports.Load.Restored.{has_recorded, load_state_restores}
use kubelb_ce.Snapshot.{
  resolve_endpoint, listener_port, add_port, add_ports, add_endpoints, add_load_balancers,
}
use kubelb_ce.Snapshot.Xds.{
  tcp, Cluster, Listener, make_backends, make_cluster, tcp_listener, l4_listeners,
}
use kubelb_ce.Snapshot.Routes.{Snapshot, add_routes, map_resources, map_snapshot}
use kubelb_ce.Snapshot.Entries.{IsConsistent}
use kubelb_ce.Snapshot.Consistent.{map_snapshot-IsConsistent}
use kubelb_ce.Snapshot.Listening.{listens, offers, IsL4}
use kubelb_ce.Snapshot.Reaching.{IsBacked, create_service_ports-listens}
use kubelb_ce.ServicePorts.{
  create_service_ports, ports_of_first, service_ports, service_port, upstream_port, find_port,
  existing_node_port, allocated_or, sort_by_name, insert_by_name,
}
use kubelb_ce.Witnesses.{
  web, http, https, two_draws, drawn, two_ports, first_call, one_port, second_call,
}

abbrev jobs : List Job
jobs = (web, https ∷ []) ∷ []

pass : allocate_all two_ports.state jobs two_draws ≡ some (one_port.state, two_draws)
unfolding allocate_all
pass = rw second_call refl

well_formed : IsWellFormed two_ports.state
well_formed =
    allocate_ports-IsWellFormed new_port_allocator web (http ∷ https ∷ []) two_draws drawn
      first_call new_port_allocator-IsWellFormed

one_job : contains (job_keys jobs) web ≡ true
unfolding job_keys text_eq
one_job = refl

distinct : DistinctKeys jobs
unfolding job_keys
distinct = (refl, tt)

https_asked : asks jobs web https ≡ true
unfolding asks text_eq
https_asked = refl

https_there : lookup two_ports.state web https ≡ some 10009
unfolding lookup lookup_in Dict.lookup text_eq
https_there = refl

-- A load balancer of one port, whose status is set.
abbrev node_port : EndpointPort
node_port = record { name = txt "http"; port = 30080; protocol = tcp }

abbrev endpoint : LoadBalancerEndpoints
endpoint = record {
  name = [];
  addresses = record { ip = txt "10.0.0.1"; hostname = [] } ∷ [];
  addresses_reference = none;
  ports = node_port ∷ [];
}

abbrev front_port : LoadBalancerPort
front_port = record { name = txt "http"; protocol = tcp; port = 80 }

abbrev made_port : ServicePort
made_port = record {
  name = txt "http";
  protocol = tcp;
  port = 80;
  target_port = 10007;
  node_port = 0;
}

abbrev meta : ObjectMeta
meta = record {
  name = txt "uid";
  namespace = txt "tenant-x";
  uid = [];
  labels = none;
  annotations = none;
  deletion_timestamp = none;
  finalizers = [];
}

abbrev lb : LoadBalancer
lb = record {
  meta = meta;
  spec = record {
    endpoints = endpoint ∷ [];
    ports = front_port ∷ [];
    hostname = [];
    type = txt "LoadBalancer";
  };
  status = record {
    ingress = [];
    service = record {
      ports = record { service_port = made_port; upstream_target_port = 30080 } ∷ [];
    };
    hostname = none;
  };
}

abbrev key : Text
key = endpoint_key (txt "tenant-x") (txt "uid") 0

abbrev port_key : Text
port_key = listener_key 30080 tcp

abbrev pa : PortAllocator
pa = record { port_lookup = (key, (port_key, 10007) ∷ []) ∷ []; port_lookup_reverse = 10007 ∷ [] }

recorded : All (Records pa) (state_writes (lb ∷ []) [])
unfolding state_writes load_balancer_writes route_writes endpoint_writes endpoint_port_writes
    status_port is_status_of lookup lookup_in Dict.lookup endpoint_key listener_key show digits
    text_eq nat_eq
recorded = (tt, (refl, tt))

load_state_restores_example :
    (lookup (load_state new_port_allocator (some (lb ∷ [])) (some [])).0 key port_key ≡ some 10007)
    ↔ (Restored.recorded key port_key 10007 (lb ∷ []) [] ≡ true)
load_state_restores_example =
    load_state_restores pa new_port_allocator (lb ∷ []) [] (has_recorded pa (lb ∷ []) [] recorded)
      key port_key 10007

abbrev hash : List Cluster → List Listener → Option Text
hash clusters listeners = some (txt "v1")

abbrev no_addresses : Text → Text → Option (List EndpointAddress)
no_addresses namespace name = none

abbrev resource : Text
resource = resource_identifier (txt "tenant-x") (txt "uid") 0 30080 tcp

abbrev snapshot : Snapshot
snapshot = record {
  version = txt "v1";
  clusters = make_cluster resource (make_backends endpoint.addresses 30080) tcp [] ∷ [];
  listeners = tcp_listener resource resource 10007 ∷ [];
}

mapped : map_snapshot hash no_addresses ([] ++ lb ∷ []) [] (some pa) ≡ some snapshot
unfolding map_snapshot map_resources add_load_balancers add_routes add_endpoints add_ports add_port
    resolve_endpoint listener_port l4_listeners lookup lookup_in Dict.lookup endpoint_key
    listener_key show digits text_eq
mapped = refl

map_snapshot-IsConsistent_example : IsConsistent snapshot.clusters snapshot.listeners
map_snapshot-IsConsistent_example =
    map_snapshot-IsConsistent no_addresses (some pa) hash (lb ∷ []) [] mapped

is_tcp : IsL4 tcp
is_tcp = inl refl

offered : offers endpoint.ports 30080 tcp ≡ true
unfolding offers text_eq nat_eq
offered = refl

abbrev existing : Service
existing = record {
  meta = meta;
  type = txt "LoadBalancer";
  ports = [];
  selector = none;
  cluster_ip = [];
  class = none;
  ingress = [];
}

created : create_service_ports (lookup pa) lb existing ≡ some (made_port ∷ [])
unfolding create_service_ports ports_of_first service_ports service_port upstream_port find_port
    existing_node_port allocated_or sort_by_name insert_by_name lookup lookup_in Dict.lookup
    endpoint_key listener_key show digits text_eq
created = refl

backed : IsBacked endpoint.ports 0 (front_port ∷ [])
unfolding upstream_port find_port offers text_eq nat_eq
backed = (is_tcp, refl, tt)

create_service_ports-listens_example :
    All
      (λ (s : ServicePort). listens s.protocol s.target_port snapshot.listeners ≡ true)
      (made_port ∷ [])
create_service_ports-listens_example =
    create_service_ports-listens hash no_addresses pa [] [] lb endpoint [] [] existing refl backed
      mapped created
