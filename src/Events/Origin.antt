-- ===== src/Events/Origin.antt =====
-- The requests of the event handlers against the labels of internal/kubelb/utils.go and
-- `MapLoadBalancer`, and the string helpers of internal/controllers/utils.go.
use kubelb_ce.Base.{◌≡◌, refl, arith, Bool, false, some, List, [], ◌∷◌}
use kubelb_ce.Base.{text_eq, ◌==◌, eq_refl, if◌then◌else◌}
use kubelb_ce.Base.Text.{Text}
use kubelb_ce.Base.Dict
use kubelb_ce.Api.{StringMap, Service, Route, get}
use kubelb_ce.Labels.{
  label_origin_namespace, label_origin_name, label_tenant_name, add_kubelb_labels,
  get-add_kubelb_labels, kind-add_kubelb_labels,
}
use kubelb_ce.LoadBalancers.{map_load_balancer}
use kubelb_ce.Events.{
  contains_string, remove_string, non_empty_value, request_for, origin_request, of_kind,
  enqueue_routes, load_balancer_type, enqueue_load_balancer,
}

-- After a removal the string is not in the slice, and every other string is in it if it was.
pub contains_string-remove_string :
    (slice : List Text) (s t : Text)
    → contains_string (remove_string slice s) t
      ≡ (if t == s then false else contains_string slice t)
unfolding contains_string remove_string
contains_string-remove_string [] s t = ground arith
contains_string-remove_string (item ∷ slice) s t =
    ground (arith, contains_string-remove_string slice s t)

non_empty_value_of : (v : Text) → (v == []) ≡ false → non_empty_value (some v) ≡ some v
unfolding non_empty_value
non_empty_value_of v n = rw n refl

origin_request_of :
    (labels : StringMap) (name namespace : Text)
    → get labels label_origin_name ≡ some name
    → get labels label_origin_namespace ≡ some namespace
    → (name == []) ≡ false
    → (namespace == []) ≡ false
    → origin_request labels ≡ record { name = name; namespace = namespace } ∷ []
unfolding origin_request request_for
origin_request_of labels name namespace named placed n m =
    rw (named, placed, non_empty_value_of name n, non_empty_value_of namespace m) refl

-- A route in the namespace of the cluster that `AddKubeLBLabels` has labelled with a name, a namespace
-- and a kind, none of them empty, is enqueued for exactly the object of that name and namespace by the
-- handler of that kind, and for no object by a handler of another kind.
pub enqueue_routes-add_kubelb_labels :
    (gvk name namespace kind : Text) (route : Route)
    → (name == []) ≡ false
    → (namespace == []) ≡ false
    → (kind == []) ≡ false
    → let labelled : Route = record route {
      meta = record route.meta { labels = add_kubelb_labels route.meta.labels name namespace kind };
    } in
      enqueue_routes gvk route.meta.namespace labelled
      ≡ (if gvk == kind then record { name = name; namespace = namespace } ∷ [] else [])
unfolding enqueue_routes of_kind
enqueue_routes-add_kubelb_labels gvk name namespace kind route n m k =
    let (named, placed) = get-add_kubelb_labels route.meta.labels name namespace kind in
    rw
      (
        eq_refl route.meta.namespace,
        kind-add_kubelb_labels route.meta.labels name namespace kind k,
        origin_request_of (add_kubelb_labels route.meta.labels name namespace kind) name namespace
            named placed n m,
      )
      refl

distinct_origin : (label_origin_name == label_origin_namespace) ≡ false
unfolding text_eq
distinct_origin = refl

-- The labels that `MapLoadBalancer` writes.
get_mapped :
    (name namespace cluster_name : Text)
    → let labels : StringMap = some (
        (label_origin_namespace, namespace)
        ∷ (label_origin_name, name)
        ∷ (label_tenant_name, cluster_name)
        ∷ []) in
      (get labels label_origin_name ≡ some name)
      × (get labels label_origin_namespace ≡ some namespace)
unfolding get
get_mapped name namespace cluster_name =
    (simp (Dict.lookup-cons, distinct_origin, eq_refl) refl, simp (Dict.lookup-cons, eq_refl) refl)

-- The LoadBalancer that a service of that type is mapped to is enqueued, in the cluster of its name,
-- for exactly that service, if neither the name nor the namespace of the service is empty.
pub enqueue_load_balancer-map_load_balancer :
    (service : Service) (cluster_endpoints : List Text) (by_reference : Bool) (cluster_name : Text)
    → service.type ≡ load_balancer_type
    → (service.meta.name == []) ≡ false
    → (service.meta.namespace == []) ≡ false
    → enqueue_load_balancer cluster_name
        (map_load_balancer service cluster_endpoints by_reference cluster_name)
      ≡ record { name = service.meta.name; namespace = service.meta.namespace } ∷ []
unfolding enqueue_load_balancer map_load_balancer
enqueue_load_balancer-map_load_balancer service cluster_endpoints by_reference cluster_name type n
      m =
    let (named, placed) = get_mapped service.meta.name service.meta.namespace cluster_name in
    rw (eq_refl cluster_name, type, eq_refl load_balancer_type)
      (origin_request_of _ service.meta.name service.meta.namespace named placed n m)
