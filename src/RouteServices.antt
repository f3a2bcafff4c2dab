-- ===== src/RouteServices.antt =====
-- `GenerateServiceForLBCluster` and `GenerateBridgeService` of internal/resources/service/service.go:
-- the services through which the traffic of a route reaches Envoy. The services are values: that the
-- first function writes into the ports of its argument is not modelled. Target ports fit an int32.
pub mod Targets
use kubelb_ce.Base.{ℕ, Bool, Option, none, some, List, [], ◌∷◌}
use kubelb_ce.Base.{text_eq, ◌==◌, ◌>>=◌, if◌then◌else◌}
use kubelb_ce.Base.Dict
use kubelb_ce.Base.Text.{Text, txt}
use kubelb_ce.Api.{
  StringMap, ObjectMeta, ServicePort, Service, AnnotationSettings, AnnotatedResource, entries,
}
use kubelb_ce.Annotations.{propagate_annotations}
use kubelb_ce.Keys.{route_endpoint_key, listener_key}
use kubelb_ce.Labels.{add_kubelb_labels, get_name}
use kubelb_ce.Names.{generate_name}
use kubelb_ce.Ports.{PortAllocator, lookup}

abbrev pub label_app_kubernetes_name : Text
label_app_kubernetes_name = txt "app.kubernetes.io/name"

abbrev pub label_app_kubernetes_type : Text
label_app_kubernetes_type = txt "app.kubernetes.io/type"

abbrev pub label_bridge_service : Text
label_bridge_service = txt "bridge-service"

-- The allocated port, or the node port.
unfoldable pub target_of : PortAllocator → Text → ServicePort → ℕ
target_of pa key p = elim (lookup pa key (listener_key p.port p.protocol)) [
  | none ↦ p.node_port
  | some allocated ↦ allocated
]

unfoldable pub targeted_ports : PortAllocator → Text → List ServicePort → List ServicePort
targeted_ports pa key [] = []
targeted_ports pa key (p ∷ ports) =
    record p { target_port = target_of pa key p; node_port = 0 } ∷ targeted_ports pa key ports

-- The fields of the service that are set anew, under the generated name.
unfoldable pub service_in_lb_cluster :
    Text → Service → Text → Text → Text → PortAllocator → Bool → AnnotationSettings → Service
service_in_lb_cluster name service app_name namespace route_name pa global annotations =
    let key = route_endpoint_key namespace service.meta.namespace service.meta.name route_name in
    record service {
      meta = record service.meta {
        name = name;
        namespace = namespace;
        uid = [];
        annotations =
            some (
              propagate_annotations service.meta.annotations annotations AnnotatedResource.service);
      };
      type = if service.type == txt "NodePort" then txt "ClusterIP" else service.type;
      ports = targeted_ports pa key service.ports;
      selector = if global then none else some ((label_app_kubernetes_name, app_name) ∷ []);
    }

-- `none` is the panic of `GenerateName` on a short UID.
unfoldable pub generate_service_for_lb_cluster :
    Service → Text → Text → Text → PortAllocator → Bool → AnnotationSettings → Option Service
generate_service_for_lb_cluster service app_name namespace route_name pa global annotations =
    generate_name global service.meta.uid (get_name service.meta) service.meta.namespace >>= λ name.
    some (service_in_lb_cluster name service app_name namespace route_name pa global annotations)

unfoldable pub bridge_ports : List ServicePort → List ServicePort
bridge_ports [] = []
bridge_ports (p ∷ ports) =
    record {
      name = p.name;
      protocol = p.protocol;
      port = p.target_port;
      target_port = p.target_port;
      node_port = 0;
    }
    ∷ bridge_ports ports

unfoldable pub bridge_labels : Text → Text → StringMap
bridge_labels name namespace = some (
    Dict.insert label_app_kubernetes_type label_bridge_service
      (entries (add_kubelb_labels (some []) name namespace [])))

unfoldable pub generate_bridge_service : Service → Text → Text → Service
generate_bridge_service service app_name controller_namespace = record {
  meta = record {
    name = service.meta.name;
    namespace = controller_namespace;
    uid = [];
    labels = bridge_labels service.meta.name service.meta.namespace;
    annotations = none;
    deletion_timestamp = none;
    finalizers = [];
  };
  type = txt "ClusterIP";
  ports = bridge_ports service.ports;
  selector = some ((label_app_kubernetes_name, app_name) ∷ []);
  cluster_ip = [];
  class = none;
  ingress = [];
}
