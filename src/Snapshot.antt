-- ===== src/Snapshot.antt =====
-- internal/envoy/resource.go: the Envoy clusters and listeners of a set of load balancers and routes.
-- The protobuf types are cut to what varies: constants of the code that no other part reads (health
-- check intervals, access logs, window sizes) are left out. Ports fit a uint32.
-- The API server's answer to `Get` of an `Addresses` object is an argument, and so is the version of
-- a snapshot, the hash of its serialised resources; `none` is an error of either.
pub mod Xds
pub mod Routes
pub mod Entries
pub mod Induction
pub mod Consistent
pub mod Listening
pub mod RouteListening
pub mod Reaching
use kubelb_ce.Base.{ℕ, ◌+◌, Bool, true, false, Option, none, some, List, [], ◌∷◌, ◌++◌}
use kubelb_ce.Base.{text_eq, ◌==◌, ◌>>=◌, if◌then◌else◌}
use kubelb_ce.Base.Dict
use kubelb_ce.Base.Dict.{Dict}
use kubelb_ce.Base.Text.{Text, txt}
use kubelb_ce.Api.{EndpointAddress, EndpointPort, LoadBalancerEndpoints, LoadBalancer, Route}
use kubelb_ce.Keys.{endpoint_key, listener_key, resource_identifier}
use kubelb_ce.Ports.{PortAllocator, lookup}
use Xds.{Cluster, Listener, make_backends, make_cluster, l4_listeners}

-- The result so far: addresses by reference, clusters and listeners.
pub record Resources : Type 0 where
  pub addresses : Dict Text (List EndpointAddress)
  pub clusters : List Cluster
  pub listeners : List Listener

abbrev pub no_resources : Resources
no_resources = record { addresses = []; clusters = []; listeners = [] }

-- "%s-address-%s"
unfoldable pub address_key : Text → Text → Text
address_key namespace name = namespace ++ (txt "-address-" ++ name)

-- The port on which Envoy listens: the allocated one, or the port itself. A nil allocator is `none`.
unfoldable pub listener_port : Option PortAllocator → Text → Text → ℕ → ℕ
listener_port none endpoint_key port_key port = port
listener_port (some pa) endpoint_key port_key port = elim (lookup pa endpoint_key port_key) [
  | none ↦ port
  | some allocated ↦ allocated
]

module _ (get_addresses : Text → Text → Option (List EndpointAddress)) where
  -- The addresses behind a reference, from the map or from the API server.
  unfoldable pub resolve :
      Text
      → Text
      → Dict Text (List EndpointAddress)
      → Option (List EndpointAddress × Dict Text (List EndpointAddress))
  resolve namespace name known = elim (Dict.lookup (address_key namespace name) known) [
    | some addresses ↦ some (addresses, known)
    | none ↦ get_addresses namespace name >>= λ addresses.
        some (addresses, Dict.insert (address_key namespace name) addresses known)
  ]

  -- An endpoint without a reference has its own addresses.
  unfoldable pub resolve_endpoint :
      Text
      → LoadBalancerEndpoints
      → Dict Text (List EndpointAddress)
      → Option (List EndpointAddress × Dict Text (List EndpointAddress))
  resolve_endpoint namespace e known = elim e.addresses_reference [
    | none ↦ some (e.addresses, known)
    | some name ↦ resolve namespace name known
  ]

  module _ (pa : Option PortAllocator) where
    -- One port of an endpoint: a cluster of all its addresses, and a listener for TCP or UDP.
    unfoldable pub add_port :
        Text → Text → ℕ → List EndpointAddress → EndpointPort → Resources → Resources
    add_port namespace name i addresses p r =
        let key = resource_identifier namespace name i p.port p.protocol in
        let port =
          listener_port pa (endpoint_key namespace name i) (listener_key p.port p.protocol)
            p.port in
        record r {
          clusters =
              r.clusters ++ make_cluster key (make_backends addresses p.port) p.protocol [] ∷ [];
          listeners = r.listeners ++ l4_listeners key p.protocol port;
        }

    unfoldable pub add_ports :
        Text → Text → ℕ → List EndpointAddress → List EndpointPort → Resources → Resources
    add_ports namespace name i addresses [] r = r
    add_ports namespace name i addresses (p ∷ ports) r =
        add_ports namespace name i addresses ports (add_port namespace name i addresses p r)

    unfoldable pub add_endpoints :
        Text → Text → ℕ → List LoadBalancerEndpoints → Resources → Option Resources
    add_endpoints namespace name i [] r = some r
    add_endpoints namespace name i (e ∷ es) r =
        resolve_endpoint namespace e r.addresses >>= λ (addresses, known).
        add_endpoints namespace name (i + 1) es
          (add_ports namespace name i addresses e.ports (record r { addresses = known }))

    unfoldable pub add_load_balancers : List LoadBalancer → Resources → Option Resources
    add_load_balancers [] r = some r
    add_load_balancers (lb ∷ lbs) r =
        add_endpoints lb.meta.namespace lb.meta.name 0 lb.spec.endpoints r >>= λ r'.
        add_load_balancers lbs r'
