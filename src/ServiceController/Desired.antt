-- ===== src/ServiceController/Desired.antt =====
-- What a run of `Reconcile` of internal/controllers/ccm/service_controller.go makes of the
-- LoadBalancer, and of the finalizer of its service.
use kubelb_ce.Base.{not, ◌&&◌, ◌≡◌, ◌⊎◌, refl, arith, Bool, true, none, some, List, [], ◌∷◌}
use kubelb_ce.Base.{text_eq, nat_eq, contains, eq_refl}
use kubelb_ce.Finalizers.{cleanup_finalizer, remove_finalizer, contains-remove_finalizer}
use kubelb_ce.Base.Lists.{length}
use kubelb_ce.Base.Dict.{Dict}
use kubelb_ce.Base.Text.{Text}
use kubelb_ce.Api.{
  StringMap, LoadBalancer, LoadBalancerEndpoints, LoadBalancerPort, EndpointPort, EndpointAddress,
  Service, IngressPoint,
}
use kubelb_ce.Annotations.{compare_annotations}
use kubelb_ce.Cluster.{
  Kind, Client, World, Answer, Result, Action, Failure, request, request_of, ◌>>=◌,
}
use kubelb_ce.Cluster.Keeps.{Keeps, IsRetry, retry-Keeps}
use kubelb_ce.Cluster.Records.{published, saved_services, gone}
use kubelb_ce.Events.{Request}
use kubelb_ce.LoadBalancerController.{DeepEqual}
use kubelb_ce.LoadBalancers.{
  all_same, load_balancer_port_is_desired_state, endpoint_port_is_desired_state,
  endpoint_address_is_desired_state, endpoints_are_desired_state, load_balancer_is_desired_state,
}
use kubelb_ce.ServiceController.{
  Options, lb_finalizer_name, with_service_finalizers, corrected, released_service, cleanup_service,
  write_ingress, follow_status, correct, publish,
}

all_same_refl {ℓ} :
    {A : Type ℓ} (same : A → A → Bool)
    → ((a : A) → same a a ≡ true)
    → (rs : List A) → all_same same rs rs ≡ true
unfolding all_same
all_same_refl same r [] = refl
all_same_refl same r (a ∷ rs) = ground (arith, r a, all_same_refl same r rs)

address_refl : (a : EndpointAddress) → endpoint_address_is_desired_state a a ≡ true
unfolding endpoint_address_is_desired_state
address_refl a = ground (arith, eq_refl a.hostname, eq_refl a.ip)

endpoint_port_refl : (p : EndpointPort) → endpoint_port_is_desired_state p p ≡ true
unfolding endpoint_port_is_desired_state
endpoint_port_refl p = ground (arith, eq_refl p.port, eq_refl p.protocol)

port_refl : (p : LoadBalancerPort) → load_balancer_port_is_desired_state p p ≡ true
unfolding load_balancer_port_is_desired_state
port_refl p = ground (arith, eq_refl p.port, eq_refl p.protocol)

endpoints_refl : (e : LoadBalancerEndpoints) → endpoints_are_desired_state e e ≡ true
unfolding endpoints_are_desired_state
endpoints_refl e = ground (
  arith,
  eq_refl (length e.addresses),
  eq_refl (length e.ports),
  all_same_refl endpoint_address_is_desired_state address_refl e.addresses,
  all_same_refl endpoint_port_is_desired_state endpoint_port_refl e.ports,
)

compare_refl :
    (deep_equal : Dict Text Text → Dict Text Text → Bool)
    → ((d : Dict Text Text) → deep_equal d d ≡ true)
    → (m : StringMap) → compare_annotations deep_equal m m ≡ true
unfolding compare_annotations
compare_refl deep_equal r none = refl
compare_refl deep_equal r (some d) = ground (arith, r d)

-- A load balancer with the desired specification and annotations counts as being in the desired state.
same_spec_is_desired :
    (deep_equal : Dict Text Text → Dict Text Text → Bool)
    → ((d : Dict Text Text) → deep_equal d d ≡ true)
    → (actual desired : LoadBalancer)
    → load_balancer_is_desired_state deep_equal (corrected actual desired) desired ≡ true
unfolding load_balancer_is_desired_state corrected
same_spec_is_desired deep_equal r actual desired = ground (
  arith,
  eq_refl desired.spec.type,
  eq_refl (length desired.spec.ports),
  eq_refl (length desired.spec.endpoints),
  all_same_refl load_balancer_port_is_desired_state port_refl desired.spec.ports,
  all_same_refl endpoints_are_desired_state endpoints_refl desired.spec.endpoints,
  compare_refl deep_equal r desired.meta.annotations,
)

module _ {S : Type 0} (client kubelb_client : Client S) (options : Options) (same : DeepEqual)
    (retry : Action S Unit → Action S Unit) (r : IsRetry retry)
    (same_refl : (d : Dict Text Text) → same.dicts d d ≡ true) where
  abbrev publications : World S → List LoadBalancer
  publications w = published w.writes

  published-write_ingress :
      (key : Request) (points : List IngressPoint)
      → Keeps publications (write_ingress client kubelb_client options same retry key points)
  unfolding write_ingress published
  published-write_ingress key points w = ground arith

  published-follow_status :
      (svc : Service) (actual : LoadBalancer)
      → Keeps publications (follow_status client kubelb_client options same retry svc actual)
  unfolding follow_status
  published-follow_status svc actual w = ground (
    arith,
    retry-Keeps publications r
        (write_ingress client kubelb_client options same retry (request_of svc.meta)
          actual.status.ingress)
        (published-write_ingress (request_of svc.meta) actual.status.ingress) w,
  )

  -- What a step publishes, by the answer of the read.
  abbrev pub Settles : LoadBalancer → Answer LoadBalancer → World S → Result Unit × World S → Type 0
  Settles desired (Answer.object actual) w (Result.ok _, w') =
      ((published w'.writes ≡ published w.writes)
        × (load_balancer_is_desired_state same.dicts actual desired ≡ true))
      ⊎ ((published w'.writes ≡ corrected actual desired ∷ published w.writes)
          × (load_balancer_is_desired_state same.dicts (corrected actual desired) desired ≡ true))
  Settles desired (Answer.failure f) w (Result.ok _, w') =
      published w'.writes ≡ desired ∷ published w.writes
  Settles desired found w (_, w') = published w'.writes ≡ published w.writes

  correct-Settles :
      (actual desired : LoadBalancer) (w : World S)
      → Settles desired
          (Answer.object actual)
          w
          (correct client kubelb_client options same retry actual desired w)
  unfolding correct published
  correct-Settles actual desired w =
      ground (arith, same_spec_is_desired same.dicts same_refl actual desired)

  after_status :
      (actual desired : LoadBalancer) (s : Result Unit) (w w' : World S)
      → published w'.writes ≡ published w.writes
      → Settles desired (Answer.object actual) w (
          ◌>>=◌
            (λ _. (s, w'))
            (λ _. correct client kubelb_client options same retry actual desired)
            w)
  after_status actual desired (Result.ok u) w w' h =
      ground (arith, correct-Settles actual desired w')
  after_status actual desired (Result.err f) w w' h = h
  after_status actual desired Result.halt w w' h = h

  -- After a step that ends well the load balancer of a service is in the desired state: where there
  -- was none, the desired one is published; where there was one, it counts as desired already and
  -- none is published, or it is published with the desired specification and annotations, and
  -- counts as desired. A step that fails publishes none. The retry runs nothing but its function,
  -- and the comparison of maps is reflexive.
  pub publish-Settles :
      (svc : Service) (desired : LoadBalancer) (found : Answer LoadBalancer) (w : World S)
      → Settles desired found w
          (publish client kubelb_client options same retry svc desired found w)
  unfolding publish published
  publish-Settles svc desired (Answer.object actual) w =
      after_status actual desired _ w _ (published-follow_status svc actual w)
  publish-Settles svc desired (Answer.failure Failure.not_found) w = ground arith
  publish-Settles svc desired (Answer.failure Failure.conflict) w = refl
  publish-Settles svc desired (Answer.failure Failure.failed) w = refl

  -- What a cleanup saves and deletes.
  abbrev pub Releases : World S → Service → Text → Result Unit × World S → Type 0
  Releases w svc f (Result.ok _, w') =
      let fs = (released_service svc).meta.finalizers in
      let freed : Service = record svc { meta = record svc.meta { finalizers = fs } } in
      (saved_services w'.writes ≡ freed ∷ saved_services w.writes)
      × (contains fs f ≡ (
          contains svc.meta.finalizers f
          && not (contains (cleanup_finalizer ∷ lb_finalizer_name ∷ []) f)))
      × (gone w'.writes
          ≡ (Kind.load_balancer, request svc.meta.uid options.cluster_name) ∷ gone w.writes)
  Releases w svc f (_, w') = saved_services w'.writes ≡ saved_services w.writes

  -- A cleanup of a service that ends well has deleted its load balancer, or found it missing, and
  -- saved the service as it was but for its finalizers, which are those it had without the two of
  -- the controller; one that fails has saved no service.
  pub cleanup_service-Releases :
      (svc : Service) (f : Text) (w : World S)
      → Releases w svc f (cleanup_service client kubelb_client options same retry svc w)
  unfolding cleanup_service saved_services gone released_service with_service_finalizers
  cleanup_service-Releases svc f w = ground (
    arith,
    contains-remove_finalizer cleanup_finalizer
        (remove_finalizer lb_finalizer_name svc.meta.finalizers) f,
    contains-remove_finalizer lb_finalizer_name svc.meta.finalizers f,
  )
