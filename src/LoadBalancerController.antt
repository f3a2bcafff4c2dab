-- ===== src/LoadBalancerController.antt =====
-- internal/controllers/kubelb/loadbalancer_controller.go: the controller that gives each LoadBalancer
-- a service, and a hostname where one is asked for. Its logs and counters are left out. Here are its
-- names and settings; each step has a module of its own.
pub mod Cleanup
pub mod Services
pub mod Hostname
pub mod Configure
pub mod Status
pub mod Reconcile
pub mod Requests
use kubelb_ce.Base.{ℕ, Bool, true, false, ◌||◌, Option, none, some, List, [], ◌∷◌, ◌++◌}
use kubelb_ce.Base.{text_eq, ◌==◌, contains, if◌then◌else◌}
use kubelb_ce.Base.Dict
use kubelb_ce.Base.Dict.{Dict}
use kubelb_ce.Base.Strings.{has_prefix, trim_prefix}
use kubelb_ce.Base.Text.{Text, txt}
use kubelb_ce.Api.{
  StringMap, ObjectMeta, ServicePort, IngressPoint, StatusPort, HostnameStatus, LoadBalancerStatus,
  LoadBalancer, IngressSpec, HttpRouteSpec,
}
use kubelb_ce.Events.{Request}

abbrev pub envoy_proxy_cleanup_finalizer : Text
envoy_proxy_cleanup_finalizer = txt "kubelb.k8c.io/cleanup-envoy-proxy"

abbrev pub hostname_cleanup_finalizer : Text
hostname_cleanup_finalizer = txt "kubelb.k8c.io/cleanup-hostname"

abbrev pub envoy_global_cache : Text
envoy_global_cache = txt "global"

abbrev pub label_load_balancer_name : Text
label_load_balancer_name = txt "kubelb.k8c.io/lb-name"

abbrev pub label_load_balancer_namespace : Text
label_load_balancer_namespace = txt "kubelb.k8c.io/lb-namespace"

pub data Topology : Type 0 where
  shared dedicated global : Topology

-- What the reconciler is set up with: its own namespace and the topology of the proxies.
pub record Setup : Type 0 where
  pub namespace : Text
  pub topology : Topology

-- `reflect.DeepEqual` and `equality.Semantic.DeepEqual` at the types where the code uses them. They
-- stand for the library, which tells a nil list or map from an empty one in the first and not in the
-- second.
pub record DeepEqual : Type 0 where
  pub dicts : Dict Text Text → Dict Text Text → Bool
  pub maps : StringMap → StringMap → Bool
  pub classes : Option Text → Option Text → Bool
  pub service_ports : List ServicePort → List ServicePort → Bool
  pub status_ports : List StatusPort → List StatusPort → Bool
  pub ingress_points : List IngressPoint → List IngressPoint → Bool
  pub hostnames : Option HostnameStatus → Option HostnameStatus → Bool
  pub statuses : LoadBalancerStatus → LoadBalancerStatus → Bool
  pub ingress_specs : IngressSpec → IngressSpec → Bool
  pub http_route_specs : HttpRouteSpec → HttpRouteSpec → Bool

-- The service of a load balancer, in one namespace for all tenants under the global topology.
unfoldable pub service_name : Topology → ObjectMeta → Text
service_name Topology.shared lb = txt "envoy-" ++ lb.name
service_name Topology.dedicated lb = txt "envoy-" ++ lb.name
service_name Topology.global lb = txt "envoy-" ++ lb.namespace ++ txt "-" ++ lb.name

unfoldable pub envoy_snapshot_and_app_name : Topology → Text → Text × Text
envoy_snapshot_and_app_name Topology.shared namespace = (namespace, namespace)
envoy_snapshot_and_app_name Topology.dedicated namespace = ([], [])
envoy_snapshot_and_app_name Topology.global namespace = (envoy_global_cache, envoy_global_cache)

-- The namespace of the objects that are made for a load balancer.
unfoldable pub resource_namespace : Setup → Text → Text
resource_namespace setup namespace = elim setup.topology [
  | Topology.shared ↦ namespace
  | Topology.dedicated ↦ []
  | Topology.global ↦ setup.namespace
]

unfoldable pub remove_tenant_prefix : Text → Text
remove_tenant_prefix namespace =
    if has_prefix (txt "tenant-") namespace
    then trim_prefix (txt "tenant-") namespace
    else namespace

unfoldable pub tenant_namespace : Text → Text
tenant_namespace name = txt "tenant-" ++ name

abbrev pub with_finalizers : List Text → LoadBalancer → LoadBalancer
with_finalizers fs lb = record lb { meta = record lb.meta { finalizers = fs } }
