-- ===== src/LoadBalancerController/Services.antt =====
-- `reconcileService` of internal/controllers/kubelb/loadbalancer_controller.go: the service of a load
-- balancer is created, or brought to the desired state.
pub mod Settled
use kubelb_ce.Base.{Bool, not, ◌&&◌, ◌||◌, Option, none, some, List, [], ◌∷◌}
use kubelb_ce.Base.{text_eq, ◌==◌, if◌then◌else◌}
use kubelb_ce.Base.Text.{Text}
use kubelb_ce.Api.{
  StringMap, AnnotatedResource, AnnotationSettings, ServicePort, Service, LoadBalancer, get,
  or_empty, entries, is_true,
}
use kubelb_ce.Annotations.{propagate_annotations, merge_annotations, compare_annotations}
use kubelb_ce.Cluster.{
  Kind, Client, World, Answer, Failure, Result, Action, pure, raise, or_halt, ◌>>=◌, ◌>>◌, try_get,
  create, update,
}
use kubelb_ce.Labels.{label_origin_namespace, label_origin_name}
use kubelb_ce.Ports.{PortAllocator, lookup}
use kubelb_ce.RouteServices.{label_app_kubernetes_name}
use kubelb_ce.ServicePorts.{create_service_ports}
use kubelb_ce.LoadBalancerController.{
  DeepEqual, label_load_balancer_name, label_load_balancer_namespace,
}
use kubelb_ce.Cluster.{request}

-- `PropagateAnnotations` adds the defaults to the map of the caller where all annotations are
-- propagated, so this is what the caller's map is after the call.
unfoldable pub annotations_after : StringMap → AnnotationSettings → AnnotatedResource → StringMap
annotations_after none settings resource = none
annotations_after (some m) settings resource =
    if is_true settings.propagate_all_annotations
    then some (propagate_annotations (some m) settings resource)
    else some m

unfoldable pub with_annotations : StringMap → LoadBalancer → LoadBalancer
with_annotations annotations lb = record lb { meta = record lb.meta { annotations = annotations } }

unfoldable pub service_labels : LoadBalancer → Text → StringMap
service_labels lb app_name = some (
    (label_app_kubernetes_name, app_name)
    ∷ (label_load_balancer_name, lb.meta.name)
    ∷ (label_load_balancer_namespace, lb.meta.namespace)
    ∷ (label_origin_namespace, or_empty (get lb.meta.labels label_origin_namespace))
    ∷ (label_origin_name, or_empty (get lb.meta.labels label_origin_name))
    ∷ [])

unfoldable pub desired_service :
    LoadBalancer
    → Text
    → Text
    → Text
    → Option Text
    → AnnotationSettings
    → List ServicePort
    → Service
desired_service lb svc_name app_name namespace class annotations ports = record {
  meta = record {
    name = svc_name;
    namespace = namespace;
    uid = [];
    labels = service_labels lb app_name;
    annotations =
        some (propagate_annotations lb.meta.annotations annotations AnnotatedResource.service);
    deletion_timestamp = none;
    finalizers = [];
  };
  type = lb.spec.type;
  ports = ports;
  selector = some ((label_app_kubernetes_name, app_name) ∷ []);
  cluster_ip = [];
  class = class;
  ingress = [];
}

-- The zero value of a service, which a failed read leaves.
abbrev pub no_service : Service
no_service = record {
  meta = record {
    name = [];
    namespace = [];
    uid = [];
    labels = none;
    annotations = none;
    deletion_timestamp = none;
    finalizers = [];
  };
  type = [];
  ports = [];
  selector = none;
  cluster_ip = [];
  class = none;
  ingress = [];
}

module _ (same : DeepEqual) where
  unfoldable pub with_merged_annotations : Service → Service → Service
  with_merged_annotations existing desired =
      let merged =
        merge_annotations same.dicts existing.meta.annotations desired.meta.annotations in
      record desired { meta = record desired.meta { annotations = merged } }

  unfoldable pub service_needs_update : Service → Service → Bool
  service_needs_update existing desired =
      not (same.service_ports existing.ports desired.ports)
      || (not (same.maps existing.selector desired.selector)
          || (not (existing.type == desired.type)
              || (not (same.classes existing.class desired.class)
                  || (not (same.maps existing.meta.labels desired.meta.labels)
                      || not (
                          compare_annotations same.dicts existing.meta.annotations
                            desired.meta.annotations)))))

  -- The existing object with the specification, the labels and the annotations that are desired.
  unfoldable pub updated_service : Service → Service → Service
  updated_service existing desired =
      let meta = record existing.meta {
        labels = desired.meta.labels;
        annotations = desired.meta.annotations;
      } in
      record desired { meta = meta; ingress = existing.ingress }

module _ {S : Type 0} (client : Client S) (same : DeepEqual) where
  unfoldable pub save_service : Service → Service → Action S Unit
  save_service existing desired =
      if service_needs_update same existing desired
      then update client Kind.service (updated_service same existing desired) >> pure tt
      else pure tt

  -- `CreateServicePorts` reads the table of the allocator. It runs before the error of the read is
  -- looked at for the second time, and can panic.
  abbrev pub service_ports_of : LoadBalancer → Service → Action S (List ServicePort)
  service_ports_of lb existing w = or_halt (create_service_ports (lookup w.ports) lb existing) w

  -- The parts of the desired service are those of `reconcile_service`.
  unfoldable pub reconcile_found :
      LoadBalancer → (List ServicePort → Service) → Answer Service → Action S Unit
  unfolding save_service
  reconcile_found lb desired (Answer.object existing) = service_ports_of lb existing >>= λ ports.
      save_service existing (with_merged_annotations same existing (desired ports))
  reconcile_found lb desired (Answer.failure Failure.not_found) =
      service_ports_of lb no_service >>= λ ports.
      create client Kind.service (desired ports) >> pure tt
  reconcile_found lb desired (Answer.failure Failure.conflict) = raise Failure.conflict
  reconcile_found lb desired (Answer.failure Failure.failed) = raise Failure.failed

  -- The load balancer comes back with the annotations that the call has left in its map.
  unfoldable pub reconcile_service :
      LoadBalancer → Text → Text → Text → Option Text → AnnotationSettings → Action S LoadBalancer
  unfolding reconcile_found
  reconcile_service lb svc_name app_name namespace class annotations = do
    found ← try_get client Kind.service (request svc_name namespace)
    reconcile_found lb (desired_service lb svc_name app_name namespace class annotations) found
    pure (
        with_annotations
          (annotations_after lb.meta.annotations annotations AnnotatedResource.service) lb)
