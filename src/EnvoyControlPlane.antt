-- ===== src/EnvoyControlPlane.antt =====
-- internal/controllers/kubelb/envoy_cp_controller.go: the controller that keeps the snapshot of the
-- Envoy cache and the workload that runs Envoy. The cache of `go-control-plane` is a parameter, with a
-- state that the world holds, and so is its test of consistency. The pod template of
-- `getEnvoyProxyPodSpec` is an argument. The logs and counters are left out.
pub mod Reconcile
pub mod Served
pub mod Ports
use kubelb_ce.Base.{ℕ, Bool, true, false, not, ◌&&◌, ◌||◌, Option, none, some, List, [], ◌∷◌, ◌++◌}
use kubelb_ce.Base.{text_eq, nat_eq, ◌==◌, if◌then◌else◌}
use kubelb_ce.Base.Text.{Text, txt}
use kubelb_ce.Api.{
  StringMap, ObjectMeta, EndpointAddress, LoadBalancer, Route, Tenant, Config, PodTemplate,
  Workload,
}
use kubelb_ce.Cluster.{
  Kind, Client, World, Answer, Failure, Result, Action, pure, raise, of_result, request, ◌>>=◌,
  ◌>>◌, try_get, get, list, create, update, delete,
}
use kubelb_ce.Events.{Request}
use kubelb_ce.LoadBalancerController.{
  Topology, Setup, envoy_snapshot_and_app_name, tenant_namespace,
}
use kubelb_ce.LoadBalancerController.Reconcile.{allocate, allocated, get_config}
use kubelb_ce.Nodes.{AddressesObject}
use kubelb_ce.Ports.Mapper.{allocate_ports_for_routes}
use kubelb_ce.RouteServices.{label_app_kubernetes_name}
use kubelb_ce.Snapshot.Routes.{Snapshot, map_snapshot}
use kubelb_ce.Snapshot.Xds.{Cluster, Listener}

-- `cache.SnapshotCache`
pub record SnapshotCache (S : Type 0) : Type 0 where
  pub clear : Text → S → S
  pub current : Text → S → Option Snapshot
  pub set : Text → Snapshot → S → Option Failure × S

-- `equality` of the pod templates' fields, each by `reflect.DeepEqual`.
pub record TemplateEqual : Type 0 where
  pub maps : StringMap → StringMap → Bool
  pub numbers : Option ℕ → Option ℕ → Bool

abbrev pub requeue_all_resources : Text
requeue_all_resources = txt "requeue-all-for-route"

-- `DeletionTimestamp.IsZero()`
abbrev pub is_live : ObjectMeta → Bool
is_live meta = elim meta.deletion_timestamp [ none ↦ true | some time ↦ time == 0 ]

unfoldable pub live_load_balancers : List LoadBalancer → List LoadBalancer
live_load_balancers [] = []
live_load_balancers (lb ∷ lbs) =
    let rest = live_load_balancers lbs in if is_live lb.meta then lb ∷ rest else rest

unfoldable pub live_routes : List Route → List Route
live_routes [] = []
live_routes (route ∷ routes) =
    let rest = live_routes routes in if is_live route.meta then route ∷ rest else rest

unfoldable pub pod_template_spec_needs_update : TemplateEqual → PodTemplate → PodTemplate → Bool
pod_template_spec_needs_update same original desired =
    not (same.maps original.annotations desired.annotations)
    || (not (same.maps original.labels desired.labels)
        || (not (same.numbers original.termination_grace_period desired.termination_grace_period)
            || (not (original.containers == desired.containers)
                || (not (original.affinity == desired.affinity)
                    || (not (original.tolerations == desired.tolerations)
                        || (not (original.node_selector == desired.node_selector)
                            || not (
                                original.topology_spread_constraints
                                == desired.topology_spread_constraints)))))))

-- The requests of `enqueueLoadBalancers`, of one tenant and of all of them.
unfoldable pub requeue_namespace : Text → List Request
requeue_namespace namespace = request requeue_all_resources namespace ∷ []

unfoldable pub requeue_tenant : Text → List Request
requeue_tenant name = requeue_namespace (tenant_namespace name)

abbrev pub proxy_name : Text → Text
proxy_name app_name = txt "envoy-" ++ app_name

unfoldable pub new_workload : Text → Text → Workload
new_workload app_name namespace = record {
  meta = record {
    name = proxy_name app_name;
    namespace = namespace;
    uid = [];
    labels = some (
        (label_app_kubernetes_name, txt "kubelb-envoy-proxy")
        ∷ (txt "app.kubernetes.io/instance", app_name)
        ∷ (txt "app.kubernetes.io/managed-by", txt "kubelb")
        ∷ []);
    annotations = none;
    deletion_timestamp = none;
    finalizers = [];
  };
  replicas = none;
  selector = none;
  template = record {
    annotations = none;
    labels = none;
    termination_grace_period = none;
    containers = [];
    affinity = [];
    tolerations = [];
    node_selector = [];
    topology_spread_constraints = [];
  };
}

-- A daemon set has no replicas to set.
unfoldable pub desired_workload : Config → Text → PodTemplate → Workload → Workload
desired_workload config app_name template workload = record workload {
  replicas = if config.use_daemonset then workload.replicas else some config.replicas;
  selector = some ((label_app_kubernetes_name, app_name) ∷ []);
  template = template;
}

unfoldable pub requests_for : List Tenant → List Request
requests_for [] = []
requests_for (t ∷ ts) =
    request requeue_all_resources (tenant_namespace t.meta.name) ∷ requests_for ts

-- A list that cannot be read gives no requests.
abbrev requests_or_none :
    {S : Type 0} → Result (List Tenant) × World S → Result (List Request) × World S
requests_or_none (Result.ok ts, w) = (Result.ok (requests_for ts), w)
requests_or_none (Result.err f, w) = (Result.ok [], w)
requests_or_none (Result.halt, w) = (Result.halt, w)

abbrev pub addresses_of : Answer AddressesObject → Option (List EndpointAddress)
addresses_of (Answer.object o) = some o.addresses
addresses_of (Answer.failure f) = none

abbrev pub set_result : Option Failure → Result Unit
set_result none = Result.ok tt
set_result (some f) = Result.err f

unfoldable pub proxy_namespace : Setup → Text → Text
proxy_namespace setup namespace = elim setup.topology [
  | Topology.shared ↦ namespace
  | Topology.dedicated ↦ namespace
  | Topology.global ↦ setup.namespace
]

module _ {S : Type 0} (client : Client S) where
  unfoldable pub find_workload : Bool → Request → Action S (Answer Workload)
  find_workload true key = try_get client Kind.daemonset key
  find_workload false key = try_get client Kind.deployment key

  unfoldable pub create_workload : Bool → Workload → Action S Unit
  create_workload true workload = create client Kind.daemonset workload >> pure tt
  create_workload false workload = create client Kind.deployment workload >> pure tt

  unfoldable pub update_workload : Bool → Workload → Action S Unit
  update_workload true workload = update client Kind.daemonset workload >> pure tt
  update_workload false workload = update client Kind.deployment workload >> pure tt

  unfoldable pub cleanup_envoy_proxy : Config → Text → Text → Action S Unit
  cleanup_envoy_proxy config app_name namespace =
      if config.use_daemonset
      then delete client Kind.daemonset (request (proxy_name app_name) namespace)
      else delete client Kind.deployment (request (proxy_name app_name) namespace)

  unfoldable pub list_load_balancers_and_routes :
      Topology → Text → Action S (List LoadBalancer × List Route)
  list_load_balancers_and_routes Topology.shared namespace =
      list client Kind.load_balancer (some namespace) >>= λ lbs.
      list client Kind.route (some namespace) >>= λ routes.
      pure (live_load_balancers lbs, live_routes routes)
  list_load_balancers_and_routes Topology.dedicated namespace = pure ([], [])
  list_load_balancers_and_routes Topology.global namespace =
      list client Kind.load_balancer none >>= λ lbs.
      list client Kind.route none >>= λ routes. pure (live_load_balancers lbs, live_routes routes)

  unfoldable pub enqueue_all_load_balancers : Action S (List Request)
  enqueue_all_load_balancers w = requests_or_none (list client Kind.tenant none w)
