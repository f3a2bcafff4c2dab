-- ===== src/LoadBalancerController/Hostname.antt =====
-- `configureHostname` of internal/controllers/kubelb/loadbalancer_controller.go, with
-- `CreateIngressForHostname` of internal/resources/ingress/ingress.go and `CreateHTTPRouteForHostname`
-- of internal/resources/gatewayapi/httproute/httproute.go.
use kubelb_ce.Base.{ℕ, Bool, true, false, not, ◌||◌, Option, none, some, List, [], ◌∷◌, ◌++◌}
use kubelb_ce.Base.{text_eq, ◌==◌, if◌then◌else◌}
use kubelb_ce.Base.Dict.{has_value}
use kubelb_ce.Base.Text.{Text, txt}
use kubelb_ce.Api.{
  StringMap, AnnotatedResource, AnnotationSettings, ObjectMeta, LoadBalancerPort, LoadBalancer,
  TenantSpec, ConfigSpec, Ingress, IngressSpec, Reference, HttpRoute, HttpRouteSpec,
}
use kubelb_ce.Annotations.{propagate_annotations, merge_annotations, compare_annotations}
use kubelb_ce.Cluster.{
  Kind, Client, Answer, Failure, Action, pure, raise, or_halt, of_result, result_of, ◌>>=◌, ◌>>◌,
  try_get, create, update,
}
use kubelb_ce.Hostnames.{add_dns_and_certificate_annotations}
use kubelb_ce.LoadBalancerController.{
  DeepEqual, label_load_balancer_name, label_load_balancer_namespace,
}
use kubelb_ce.Cluster.{request}
use kubelb_ce.LoadBalancerController.Cleanup.{ingress_name, http_route_name}

-- `ctrl.SetControllerReference(owner, controlled, …)` on the metadata of the two objects.
abbrev pub SetOwner : Type 0
SetOwner = ObjectMeta → ObjectMeta → Answer ObjectMeta

-- The class of the tenant, or that of the configuration.
unfoldable pub ingress_class : TenantSpec → ConfigSpec → Option Text
ingress_class tenant config =
    if has_value tenant.ingress.class then tenant.ingress.class else config.ingress.class

unfoldable pub exposed_meta : LoadBalancer → Text → StringMap → ObjectMeta
exposed_meta lb name annotations = record {
  name = name;
  namespace = lb.meta.namespace;
  uid = [];
  labels = some (
      (label_load_balancer_name, lb.meta.name)
      ∷ (label_load_balancer_namespace, lb.meta.namespace)
      ∷ []);
  annotations = annotations;
  deletion_timestamp = none;
  finalizers = [];
}

unfoldable pub hostname_annotations :
    LoadBalancer
    → AnnotationSettings
    → AnnotatedResource
    → TenantSpec
    → ConfigSpec
    → Text
    → Bool
    → StringMap
hostname_annotations lb settings resource tenant config hostname skip =
    add_dns_and_certificate_annotations
      (some (propagate_annotations lb.meta.annotations settings resource)) tenant config hostname
      skip

unfoldable pub ingress_spec : LoadBalancer → Text → Text → Option Text → ℕ → IngressSpec
ingress_spec lb svc_name hostname class port = record {
  class = class;
  default_backend = none;
  rules =
      record {
        host = hostname;
        http = some (
            record {
              path = txt "/";
              path_type = txt "Prefix";
              service = some (record { name = svc_name; port = port });
            }
            ∷ []);
      }
      ∷ [];
  tls = record { hosts = hostname ∷ []; secret_name = ingress_name lb ++ txt "-tls" } ∷ [];
}

unfoldable pub parent_of : Text × Text → Reference
parent_of (namespace, name) = record {
  kind = none;
  name = name;
  namespace = if not (namespace == []) then some namespace else none;
  port = none;
}

-- The default gateway of the tenant, or that of the configuration.
unfoldable pub parent_reference : TenantSpec → ConfigSpec → Option Reference
parent_reference tenant config = elim tenant.gateway_api.default_gateway [
  | some gateway ↦ some (parent_of gateway)
  | none ↦ elim config.gateway_api.default_gateway [
    | some gateway ↦ some (parent_of gateway)
    | none ↦ none
  ]
]

unfoldable pub http_route_spec : Reference → Text → Text → ℕ → HttpRouteSpec
http_route_spec parent svc_name hostname port = record {
  parents = parent ∷ [];
  hostnames = hostname ∷ [];
  rules =
      record {
        filters = [];
        backends =
            record {
              reference = record {
                kind = some (txt "Service");
                name = svc_name;
                namespace = none;
                port = some port;
              };
              filters = [];
            }
            ∷ [];
      }
      ∷ [];
}

-- `loadBalancer.Spec.Ports[0].Port`, which panics where there is no port.
unfoldable pub first_port : List LoadBalancerPort → Option ℕ
first_port [] = none
first_port (p ∷ ports) = some p.port

-- The metadata of the existing object with the labels and annotations that are desired.
unfoldable pub updated_meta : (DeepEqual) → ObjectMeta → ObjectMeta → ObjectMeta
updated_meta same existing desired = record existing {
  labels = desired.labels;
  annotations = merge_annotations same.dicts existing.annotations desired.annotations;
}

unfoldable pub meta_needs_update : DeepEqual → ObjectMeta → ObjectMeta → Bool
meta_needs_update same existing desired =
    let merged = merge_annotations same.dicts existing.annotations desired.annotations in
    not (same.maps existing.labels desired.labels)
    || not (compare_annotations same.dicts existing.annotations merged)

module _ {S : Type 0} (client : Client S) (same : DeepEqual) (set_owner : SetOwner) where
  unfoldable pub save_ingress : Ingress → Answer Ingress → Action S Unit
  save_ingress desired (Answer.object existing) =
      if not (same.ingress_specs existing.spec desired.spec)
        || meta_needs_update same existing.meta desired.meta
      then update client Kind.ingress
          (record { meta = updated_meta same existing.meta desired.meta; spec = desired.spec })
        >> pure tt
      else pure tt
  save_ingress desired (Answer.failure Failure.not_found) =
      create client Kind.ingress desired >> pure tt
  save_ingress desired (Answer.failure Failure.conflict) = raise Failure.conflict
  save_ingress desired (Answer.failure Failure.failed) = raise Failure.failed

  unfoldable pub create_ingress_for_hostname :
      LoadBalancer → Text → Text → TenantSpec → ConfigSpec → AnnotationSettings → Action S Unit
  unfolding save_ingress
  create_ingress_for_hostname lb svc_name hostname tenant config settings = do
    port ← or_halt (first_port lb.spec.ports)
    meta ← of_result (
        result_of (
          set_owner lb.meta (
            exposed_meta lb (ingress_name lb) (
              hostname_annotations lb settings AnnotatedResource.ingress tenant config hostname
                false))))
    found ← try_get client Kind.ingress (request (ingress_name lb) lb.meta.namespace)
    save_ingress
        (record {
          meta = meta;
          spec = ingress_spec lb svc_name hostname (ingress_class tenant config) port;
        })
        found

  unfoldable pub save_http_route : HttpRoute → Answer HttpRoute → Action S Unit
  save_http_route desired (Answer.object existing) =
      if not (same.http_route_specs existing.spec desired.spec)
        || meta_needs_update same existing.meta desired.meta
      then update client Kind.http_route
          (record { meta = updated_meta same existing.meta desired.meta; spec = desired.spec })
        >> pure tt
      else pure tt
  save_http_route desired (Answer.failure Failure.not_found) =
      create client Kind.http_route desired >> pure tt
  save_http_route desired (Answer.failure Failure.conflict) = raise Failure.conflict
  save_http_route desired (Answer.failure Failure.failed) = raise Failure.failed

  -- Without a default gateway this is an error.
  abbrev parent_or_raise : Option Reference → Action S Reference
  parent_or_raise none = raise Failure.failed
  parent_or_raise (some parent) = pure parent

  unfoldable pub create_http_route_for_hostname :
      LoadBalancer → Text → Text → TenantSpec → ConfigSpec → AnnotationSettings → Action S Unit
  unfolding save_http_route
  create_http_route_for_hostname lb svc_name hostname tenant config settings = do
    parent ← parent_or_raise (parent_reference tenant config)
    port ← or_halt (first_port lb.spec.ports)
    meta ← of_result (
        result_of (
          set_owner lb.meta (
            exposed_meta lb (http_route_name lb) (
              hostname_annotations lb settings AnnotatedResource.httproute tenant config hostname
                true))))
    found ← try_get client Kind.http_route (request (http_route_name lb) lb.meta.namespace)
    save_http_route (record { meta = meta; spec = http_route_spec parent svc_name hostname port })
        found
