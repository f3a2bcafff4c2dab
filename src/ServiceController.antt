-- ===== src/ServiceController.antt =====
-- internal/controllers/ccm/service_controller.go: the controller that gives each service of a tenant
-- its LoadBalancer in the cluster of the load balancers. Of the two clusters each has its own client;
-- the world is that of both. The logs, counters and gauges are left out.
pub mod Desired
use kubelb_ce.Base.{Bool, not, ◌&&◌, ◌||◌, Option, none, some, List, []}
use kubelb_ce.Base.{text_eq, ◌==◌, contains, if◌then◌else◌}
use kubelb_ce.Base.Text.{Text, txt}
use kubelb_ce.Api.{IngressPoint, Service, LoadBalancer}
use kubelb_ce.Cluster.{
  Kind, Client, World, Answer, Failure, Result, Action, pure, raise, request, request_of, ◌>>=◌,
  ◌>>◌, try_get, get, create, update, update_status, delete,
}
use kubelb_ce.Events.{Request, get_endpoints, load_balancer_type, should_reconcile_service}
use kubelb_ce.Finalizers.{cleanup_finalizer, add_finalizer, remove_finalizer}
use kubelb_ce.LoadBalancerController.{DeepEqual}
use kubelb_ce.LoadBalancers.{map_load_balancer, load_balancer_is_desired_state}

abbrev pub lb_finalizer_name : Text
lb_finalizer_name = txt "kubelb.k8c.io/lb-finalizer"

-- What the reconciler is set up with.
pub record Options : Type 0 where
  pub cluster_name : Text
  pub cloud_controller : Bool
  pub use_load_balancer_class : Bool

unfoldable pub with_service_finalizers : List Text → Service → Service
with_service_finalizers fs svc = record svc { meta = record svc.meta { finalizers = fs } }

-- The service with the finalizer of this controller in place of the old one.
unfoldable pub finalized_service : Service → Service
finalized_service svc =
    with_service_finalizers
      (remove_finalizer lb_finalizer_name (add_finalizer cleanup_finalizer svc.meta.finalizers)) svc

unfoldable pub released_service : Service → Service
released_service svc =
    with_service_finalizers
      (remove_finalizer cleanup_finalizer (remove_finalizer lb_finalizer_name svc.meta.finalizers))
      svc

-- The existing load balancer with the specification and the annotations that are desired.
unfoldable pub corrected : LoadBalancer → LoadBalancer → LoadBalancer
corrected actual desired = record actual {
  meta = record actual.meta { annotations = desired.meta.annotations };
  spec = desired.spec;
}

-- The load balancer that a service asks for.
unfoldable pub desired_load_balancer : Options → Service → LoadBalancer
desired_load_balancer options svc =
    let (endpoints, by_reference) = get_endpoints options.cloud_controller svc in
    map_load_balancer svc endpoints by_reference options.cluster_name

module _ {S : Type 0} (client kubelb_client : Client S) (options : Options) (same : DeepEqual)
    (retry_on_conflict : Action S Unit → Action S Unit) where
  unfoldable pub cleanup_service : Service → Action S Unit
  cleanup_service svc = do
    delete kubelb_client Kind.load_balancer (request svc.meta.uid options.cluster_name)
    update client Kind.service (released_service svc)
    pure tt

  unfoldable pub ensure_service_finalizer : Service → Action S Service
  ensure_service_finalizer svc =
      if contains svc.meta.finalizers cleanup_finalizer
      then pure svc
      else update client Kind.service (finalized_service svc)

  -- The function that is tried again on a conflict.
  unfoldable pub write_ingress : Request → List IngressPoint → Action S Unit
  write_ingress key points = get client Kind.service key >>= λ current.
      update_status client Kind.service (record current { ingress = points }) >> pure tt

  -- The status of the service follows that of its load balancer.
  unfoldable pub follow_status : Service → LoadBalancer → Action S Unit
  unfolding write_ingress
  follow_status svc actual =
      if svc.type == load_balancer_type
        && not (same.ingress_points actual.status.ingress svc.ingress)
      then retry_on_conflict (write_ingress (request_of svc.meta) actual.status.ingress)
      else pure tt

  unfoldable pub correct : LoadBalancer → LoadBalancer → Action S Unit
  correct actual desired =
      if load_balancer_is_desired_state same.dicts actual desired
      then pure tt
      else update kubelb_client Kind.load_balancer (corrected actual desired) >> pure tt

  unfoldable pub publish : Service → LoadBalancer → Answer LoadBalancer → Action S Unit
  unfolding follow_status correct
  publish svc desired (Answer.object actual) = follow_status svc actual >> correct actual desired
  publish svc desired (Answer.failure Failure.not_found) =
      create kubelb_client Kind.load_balancer desired >> pure tt
  publish svc desired (Answer.failure Failure.conflict) = raise Failure.conflict
  publish svc desired (Answer.failure Failure.failed) = raise Failure.failed

  unfoldable pub reconcile_managed : Service → Action S Unit
  unfolding publish
  reconcile_managed svc =
      let desired = desired_load_balancer options svc in
      try_get kubelb_client Kind.load_balancer (request_of desired.meta) >>= publish svc desired

  -- The service is not marked for deletion.
  unfoldable pub reconcile_live_service : Service → Action S Unit
  unfolding ensure_service_finalizer reconcile_managed
  reconcile_live_service svc =
      if not (should_reconcile_service options.use_load_balancer_class svc svc.class)
      then pure tt
      else ensure_service_finalizer svc >>= reconcile_managed

  unfoldable pub reconcile_deleted_service : Service → Action S Unit
  unfolding cleanup_service
  reconcile_deleted_service svc =
      if contains svc.meta.finalizers cleanup_finalizer
        || contains svc.meta.finalizers lb_finalizer_name
      then cleanup_service svc
      else pure tt

  -- A failed read is logged, and no error.
  unfoldable pub reconcile_tenant_service : Answer Service → Action S Unit
  unfolding reconcile_live_service reconcile_deleted_service
  reconcile_tenant_service (Answer.failure f) = pure tt
  reconcile_tenant_service (Answer.object svc) = elim svc.meta.deletion_timestamp [
    | some time ↦ reconcile_deleted_service svc
    | none ↦ reconcile_live_service svc
  ]

  unfoldable pub reconcile : Request → Action S Unit
  unfolding reconcile_tenant_service
  reconcile req = try_get client Kind.service req >>= reconcile_tenant_service
