-- ===== src/LoadBalancerController/Requests.antt =====
-- Which events ask the load balancer controller for a run: `enqueueLoadBalancers`,
-- `enqueueLoadBalancersForConfig`, `enqueueLoadBalancersForTenant` and `filterServicesPredicate` of
-- internal/controllers/kubelb/loadbalancer_controller.go.
use kubelb_ce.Base.{◌≡◌, refl, arith, Bool, not, true, false, Option, none, some, List, [], ◌∷◌}
use kubelb_ce.Base.{text_eq, ◌==◌, if◌then◌else◌}
use kubelb_ce.Base.Text.{Text}
use kubelb_ce.Base.Dict.{lookup}
use kubelb_ce.Api.{
  StringMap, LoadBalancer, Service, IngressPoint, AnnotationSettings, ServicePort, get, or_empty,
}
use kubelb_ce.Cluster.{Kind, Client, World, Result, Action, list}
use kubelb_ce.Events.{Event, create, update, delete, Request, request_for}
use kubelb_ce.LoadBalancerController.{
  label_load_balancer_name, label_load_balancer_namespace, tenant_namespace,
}
use kubelb_ce.Cluster.{request_of}
use kubelb_ce.LoadBalancerController.Services.{desired_service, service_labels}

-- The load balancer that the labels of the service name.
unfoldable pub enqueue_load_balancers : StringMap → List Request
enqueue_load_balancers labels =
    request_for (get labels label_load_balancer_namespace) (get labels label_load_balancer_name)

-- A service of this controller has the label with the name.
unfoldable pub is_managed_service : Service → Bool
is_managed_service service = not (or_empty (get service.meta.labels label_load_balancer_name) == [])

-- `same` compares the status of two services.
unfoldable pub filter_services :
    (List IngressPoint → List IngressPoint → Bool) → Event Service → Bool
filter_services same (create service) = is_managed_service service
filter_services same (delete service) = is_managed_service service
filter_services same (update old new) =
    if not (is_managed_service new) then false else not (same new.ingress old.ingress)

unfoldable pub requests_of : List LoadBalancer → List Request
requests_of [] = []
requests_of (lb ∷ lbs) = request_of lb.meta ∷ requests_of lbs

-- A list that cannot be read gives no requests.
abbrev requests_or_none :
    {S : Type 0} → Result (List LoadBalancer) × World S → Result (List Request) × World S
requests_or_none (Result.ok lbs, w) = (Result.ok (requests_of lbs), w)
requests_or_none (Result.err f, w) = (Result.ok [], w)
requests_or_none (Result.halt, w) = (Result.halt, w)

module _ {S : Type 0} (client : Client S) where
  unfoldable pub enqueue_load_balancers_for_config : Action S (List Request)
  enqueue_load_balancers_for_config w = requests_or_none (list client Kind.load_balancer none w)

  unfoldable pub enqueue_load_balancers_for_tenant : Text → Action S (List Request)
  enqueue_load_balancers_for_tenant name w =
      requests_or_none (list client Kind.load_balancer (some (tenant_namespace name)) w)

-- The service that is made for a load balancer with a name asks for a run on that load balancer, by
-- its labels; and with any status, the filter lets it through when it is created or deleted, and
-- when it is updated exactly if the two statuses are compared as different.
pub enqueue_load_balancers-desired_service :
    (lb : LoadBalancer) (svc_name app_name namespace : Text) (class : Option Text)
    (settings : AnnotationSettings) (ports : List ServicePort) (points : List IngressPoint)
    (old : Service) (same : List IngressPoint → List IngressPoint → Bool)
    → (lb.meta.name == []) ≡ false
    → let made = desired_service lb svc_name app_name namespace class settings ports in
      let service : Service = record made { ingress = points } in
      (enqueue_load_balancers service.meta.labels ≡ request_of lb.meta ∷ [])
      × (filter_services same (create service) ≡ true)
      × (filter_services same (delete service) ≡ true)
      × (filter_services same (update old service) ≡ not (same points old.ingress))
unfolding enqueue_load_balancers desired_service service_labels is_managed_service get lookup
    request_for text_eq filter_services
enqueue_load_balancers-desired_service lb svc_name app_name namespace class settings ports points
      old same named =
    (refl, ground arith, ground arith, ground arith)
