-- ===== src/Events.antt =====
-- Which objects a controller works on: internal/controllers/utils.go, `enqueueRoutes` of
-- internal/controllers/ccm/shared.go, `enqueueLoadBalancer`, `shouldReconcile` and `getEndpoints` of
-- internal/controllers/ccm/service_controller.go, the settings that stop a load balancer or a route in
-- internal/controllers/kubelb, and the filters of internal/util/predicate/predicate.go.
-- The logging is left out.
pub mod Origin
use kubelb_ce.Base.{Bool, true, false, not, ◌&&◌, ◌||◌, Option, none, some, List, [], ◌∷◌}
use kubelb_ce.Base.{text_eq, ◌==◌, contains, if◌then◌else◌}
use kubelb_ce.Base.Dict.{has_value}
use kubelb_ce.Base.Text.{Text, txt}
use kubelb_ce.Api.{
  StringMap, ObjectMeta, IngressPoint, Service, LoadBalancer, Route, TenantSpec, ConfigSpec, get,
}
use kubelb_ce.Labels.{label_origin_namespace, label_origin_name, label_origin_resource_kind}

unfoldable pub contains_string : List Text → Text → Bool
contains_string [] s = false
contains_string (item ∷ slice) s = if item == s then true else contains_string slice s

unfoldable pub remove_string : List Text → Text → List Text
remove_string [] s = []
remove_string (item ∷ slice) s =
    let rest = remove_string slice s in if item == s then rest else item ∷ rest

-- The events of the API server on objects.
pub data Event {ℓ} (A : Type ℓ) : Type ℓ where
  create : A → Event A
  update : A → A → Event A
  delete : A → Event A

-- A filter of objects as a predicate of events: of an update either object may pass.
unfoldable pub factory {ℓ} : {A : Type ℓ} → (A → Bool) → Event A → Bool
factory filter (create o) = filter o
factory filter (update old new) = filter old || filter new
factory filter (delete o) = filter o

unfoldable pub multi_factory {ℓ} :
    {A : Type ℓ} → (A → Bool) → (A → Bool) → (A → Bool) → Event A → Bool
multi_factory created updated deleted (create o) = created o
multi_factory created updated deleted (update old new) = updated old || updated new
multi_factory created updated deleted (delete o) = deleted o

unfoldable pub by_namespace : Text → Event ObjectMeta → Bool
by_namespace namespace = factory (λ (o : ObjectMeta). o.namespace == namespace)

unfoldable pub by_name : List Text → Event ObjectMeta → Bool
by_name names = factory (λ (o : ObjectMeta). contains names o.name)

abbrev is_value : Text → Option Text → Bool
is_value value none = false
is_value value (some existing) = existing == value

unfoldable pub by_label : Text → Text → Event ObjectMeta → Bool
by_label key value = factory (λ (o : ObjectMeta). is_value value (get o.labels key))

unfoldable pub by_label_exists : Text → Event ObjectMeta → Bool
by_label_exists key = factory (λ (o : ObjectMeta). has_value (get o.labels key))

abbrev has_annotation : Text → Bool → Option Text → Bool
has_annotation value check_value none = false
has_annotation value check_value (some existing) = not check_value || existing == value

unfoldable pub by_annotation : Text → Text → Bool → Event ObjectMeta → Bool
by_annotation key value check_value =
    factory (λ (o : ObjectMeta). has_annotation value check_value (get o.annotations key))

-- `reconcile.Request`
pub record Request : Type 0 where
  pub name : Text
  pub namespace : Text

-- A value that is there and not empty.
unfoldable pub non_empty_value : Option Text → Option Text
non_empty_value none = none
non_empty_value (some value) = if value == [] then none else some value

-- The request for the object of the namespace and the name, if both are known.
unfoldable pub request_for : Option Text → Option Text → List Request
request_for none name = []
request_for (some namespace) none = []
request_for (some namespace) (some name) = record { name = name; namespace = namespace } ∷ []

-- The request for the object that the labels name.
unfoldable pub origin_request : StringMap → List Request
origin_request labels =
    request_for (non_empty_value (get labels label_origin_namespace))
      (non_empty_value (get labels label_origin_name))

-- The request if the kind that is found is the one that is asked for.
unfoldable pub of_kind : Text → Option Text → List Request → List Request
of_kind gvk none requests = []
of_kind gvk (some kind) requests = if gvk == kind then requests else []

-- The third check of the source tests the name again, which is not empty there, so an empty kind
-- passes it. Every check that fails gives the empty list, so their order does not matter.
unfoldable pub enqueue_routes : Text → Text → Route → List Request
enqueue_routes gvk cluster_namespace route =
    if not (route.meta.namespace == cluster_namespace)
    then []
    else of_kind gvk (get route.meta.labels label_origin_resource_kind)
        (origin_request route.meta.labels)

abbrev pub load_balancer_type : Text
load_balancer_type = txt "LoadBalancer"

unfoldable pub enqueue_load_balancer : Text → LoadBalancer → List Request
enqueue_load_balancer cluster_name lb =
    if not (lb.meta.namespace == cluster_name)
    then []
    else if not (lb.spec.type == load_balancer_type)
    then []
    else origin_request lb.meta.labels

unfoldable pub ingress_addresses : List IngressPoint → List Text
ingress_addresses [] = []
ingress_addresses (p ∷ ps) = (if not (p.ip == []) then p.ip else p.hostname) ∷ ingress_addresses ps

-- The endpoints of a service, and whether the addresses are taken by reference.
unfoldable pub get_endpoints : Bool → Service → List Text × Bool
get_endpoints cloud_controller service =
    if service.type == load_balancer_type && not cloud_controller
    then (ingress_addresses service.ingress, false)
    else ([], true)

abbrev pub load_balancer_class_name : Text
load_balancer_class_name = txt "kubelb"

-- The class of the service is its `loadBalancerClass`.
unfoldable pub should_reconcile_service : Bool → Service → Option Text → Bool
should_reconcile_service use_class service class =
    if not (service.type == load_balancer_type)
    then false
    else if use_class
    then elim class [ none ↦ false | some c ↦ c == load_balancer_class_name ]
    else true

-- Whether to go on, and whether the resource is disabled.
unfoldable pub should_reconcile_load_balancer : TenantSpec → ConfigSpec → Bool × Bool
should_reconcile_load_balancer tenant config =
    if config.load_balancer.disable
    then (false, true)
    else if tenant.load_balancer.disable
    then (false, true)
    else (true, false)

unfoldable pub is_gateway_api_disabled : Bool → ConfigSpec → TenantSpec → Bool
is_gateway_api_disabled disable_gateway_api config tenant =
    if disable_gateway_api
    then true
    else if config.gateway_api.disable
    then true
    else if tenant.gateway_api.disable
    then true
    else false
