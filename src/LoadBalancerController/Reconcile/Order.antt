-- ===== src/LoadBalancerController/Reconcile/Order.antt =====
-- In which order a run (internal/controllers/kubelb/loadbalancer_controller.go) saves the finalizer and
-- the service, and when it writes nothing.
use kubelb_ce.Base.{
  eq_refl, ◌&&◌, [], ℕ, ◌||◌, ◌≡◌, ◌⊎◌, refl, arith, true, false, some, List, ◌∷◌, inl, inr,
  Bool-cases,
}
use kubelb_ce.Base.{none, text_eq, ◌==◌, contains}
use kubelb_ce.Base.Text.{Text}
use kubelb_ce.Api.{LoadBalancer, Tenant, Config, TenantSpec, ConfigSpec}
use kubelb_ce.Cluster.{
  Kind, Client, World, Answer, Action, Write, request_of, failure_of, result_of, ◌>>=◌,
}
use kubelb_ce.Cluster.Keeps.{Holds, >>=-Holds, IsRetry, IsStable}
use kubelb_ce.Cluster.Records.{
  saved, saved_services, saves_service, saves_finalizer, finalizer_saved, finalizer_first,
}
use kubelb_ce.LoadBalancerController.Reconcile.Steps.{serve-Holds}
use kubelb_ce.Finalizers.{add_finalizer, contains-add_finalizer, contains-remove_finalizer}
use kubelb_ce.LoadBalancerController.{envoy_proxy_cleanup_finalizer}
use kubelb_ce.Events.{Request, should_reconcile_load_balancer}
use kubelb_ce.Finalizers.{cleanup_finalizer}
use kubelb_ce.LoadBalancerController.Cleanup.Finalizers.{IsFreed, contains-without_finalizers}
use kubelb_ce.LoadBalancerController.{with_finalizers, resource_namespace, Setup, DeepEqual}
use kubelb_ce.LoadBalancerController.Hostname.{SetOwner}
use kubelb_ce.LoadBalancerController.Cleanup.{cleanup, without_finalizers}
use kubelb_ce.LoadBalancerController.Reconcile.{
  finalized, serve, allocate, allocated, has_cleanup_finalizer, ensure_finalizer,
  allocate_and_serve, reconcile_enabled, reconcile_under, reconcile_deleted, reconcile_marked,
}

-- The load balancer of the key was saved with the finalizer, and before each call that saved a service.
abbrev IsFinalized : {S : Type 0} → Request → World S → Type 0
IsFinalized key w =
    (finalizer_saved cleanup_finalizer key w.writes
      && finalizer_first cleanup_finalizer key w.writes)
    ≡ true

finalized_before :
    (key : Request) (x : Write) (ws : List Write)
    → (finalizer_saved cleanup_finalizer key ws && finalizer_first cleanup_finalizer key ws) ≡ true
    → (finalizer_saved cleanup_finalizer key (x ∷ ws)
        && finalizer_first cleanup_finalizer key (x ∷ ws))
      ≡ true
unfolding finalizer_saved finalizer_first
finalized_before key x ws h = ground arith

IsFinalized-IsStable : {S : Type 0} (key : Request) → IsStable (IsFinalized {S = S} key)
IsFinalized-IsStable key = record {
  reads = λ w s h. h;
  writes = λ w s x h. finalized_before key x w.writes h;
}

first_of_finalized :
    (key : Request) (ws : List Write)
    → (finalizer_saved cleanup_finalizer key ws && finalizer_first cleanup_finalizer key ws) ≡ true
    → finalizer_first cleanup_finalizer key ws ≡ true
first_of_finalized key ws h = ground arith

distinct_finalizers : (cleanup_finalizer == envoy_proxy_cleanup_finalizer) ≡ false
unfolding text_eq
distinct_finalizers = refl

contains-finalized :
    (lb : LoadBalancer) → contains (finalized lb).meta.finalizers cleanup_finalizer ≡ true
unfolding finalized
contains-finalized lb = ground (
  arith,
  contains-remove_finalizer envoy_proxy_cleanup_finalizer
      (add_finalizer cleanup_finalizer lb.meta.finalizers) cleanup_finalizer,
  contains-add_finalizer cleanup_finalizer lb.meta.finalizers cleanup_finalizer,
  eq_refl cleanup_finalizer,
  distinct_finalizers,
)

IsFinalized-update :
    {S : Type 0} (lb : LoadBalancer) (w : World S) (s : S)
    → IsFinalized (request_of lb.meta) (record w {
      server = s;
      writes = Write.updated Kind.load_balancer (finalized lb) none ∷ [];
    })
unfolding finalizer_first finalizer_saved saves_service saves_finalizer finalized
IsFinalized-update lb w s =
    ground (arith, contains-finalized lb, eq_refl lb.meta.name, eq_refl lb.meta.namespace)

module _ {S : Type 0} (client : Client S) (setup : Setup) (same : DeepEqual) (set_owner : SetOwner)
    (retry : Action S Unit → Action S Unit) (r : IsRetry retry) where
  allocate-IsFinalized :
      (key : Request) (lbs : List LoadBalancer) → Holds (IsFinalized key) (allocate client lbs)
  unfolding allocate allocated
  allocate-IsFinalized key lbs w h = ground arith

  allocate_and_serve-IsFinalized :
      (key : Request) (lbs : List LoadBalancer) (t : TenantSpec) (c : ConfigSpec) (namespace : Text)
      (lb : LoadBalancer)
      → Holds
          (IsFinalized key)
          (allocate_and_serve client setup same set_owner retry lbs t c namespace lb)
  unfolding allocate_and_serve
  allocate_and_serve-IsFinalized key lbs t c namespace lb =
      >>=-Holds (IsFinalized key) (allocate client lbs)
        (λ _. serve client setup same set_owner retry lb t c namespace)
        (allocate-IsFinalized key lbs)
        (λ _.
          serve-Holds client setup same set_owner retry r (IsFinalized key)
            (IsFinalized-IsStable key) lb t c namespace)

  after_update :
      (lb : LoadBalancer) (lbs : List LoadBalancer) (t : TenantSpec) (c : ConfigSpec)
      (namespace : Text) (w : World S) (a : Answer LoadBalancer) (s : S)
      → let v : World S = record w {
        server = s;
        writes = Write.updated Kind.load_balancer (finalized lb) (failure_of a) ∷ [];
      } in
        finalizer_first cleanup_finalizer
          (request_of lb.meta)
          (◌>>=◌
            (λ (u : World S). (result_of a, v))
            (allocate_and_serve client setup same set_owner retry lbs t c namespace)
            w).1.writes
        ≡ true
  unfolding finalizer_first finalizer_saved saves_service saves_finalizer
  after_update lb lbs t c namespace w (Answer.object kept) s =
      first_of_finalized (request_of lb.meta)
        (allocate_and_serve client setup same set_owner retry lbs t c namespace kept (record w {
          server = s;
          writes = Write.updated Kind.load_balancer (finalized lb) none ∷ [];
        })).1.writes
        (allocate_and_serve-IsFinalized (request_of lb.meta) lbs t c namespace kept _
          (IsFinalized-update lb w s))
  after_update lb lbs t c namespace w (Answer.failure f) s = refl

  -- A run on a load balancer that lacks the finalizer of the controller creates or updates no
  -- service before it has saved this load balancer with the finalizer. The retry runs nothing but
  -- its function.
  pub reconcile_enabled-finalized :
      (lb : LoadBalancer) (lbs : List LoadBalancer) (t : TenantSpec) (c : ConfigSpec)
      (namespace : Text) (w : World S)
      → contains lb.meta.finalizers cleanup_finalizer ≡ false
      → finalizer_first cleanup_finalizer
          (request_of lb.meta)
          (reconcile_enabled client setup same set_owner retry lb lbs t c namespace
            (record w { writes = [] })).1.writes
        ≡ true
  unfolding reconcile_enabled ensure_finalizer
  reconcile_enabled-finalized lb lbs t c namespace w h =
      rw h (after_update lb lbs t c namespace w _ _)

module _ {S : Type 0} (client : Client S) (setup : Setup) (same : DeepEqual) (set_owner : SetOwner)
    (retry : Action S Unit → Action S Unit) where
  cleanup_saves :
      (lb : LoadBalancer) (namespace : Text) (w : World S)
      → let w' = (cleanup client setup.topology lb namespace w).1 in
        (saved_services w'.writes ≡ saved_services w.writes)
        × ((saved w'.writes ≡ saved w.writes)
            ⊎ (saved w'.writes
                ≡ with_finalizers (without_finalizers lb).meta.finalizers lb ∷ saved w.writes))
  unfolding cleanup saved saved_services without_finalizers
  cleanup_saves lb namespace w = ground arith

  -- A run on a load balancer that is marked for deletion saves no service, and of load balancers it
  -- saves none, or this one as it was but for its finalizers: of these it has exactly those that are
  -- neither of the two of the controller nor that of a hostname.
  pub reconcile_marked_deleted :
      (time : ℕ) (lb : LoadBalancer) (namespace : Text) (lbs : List LoadBalancer) (w : World S)
      (f : Text)
      → let w' =
          (reconcile_marked client setup same set_owner retry (some time) lb namespace lbs w).1 in
        let fs = (without_finalizers lb).meta.finalizers in
        (saved_services w'.writes ≡ saved_services w.writes)
        × ((saved w'.writes ≡ saved w.writes)
            ⊎ (saved w'.writes ≡ with_finalizers fs lb ∷ saved w.writes))
        × IsFreed lb f fs
  unfolding reconcile_marked reconcile_deleted
  reconcile_marked_deleted time lb namespace lbs w f =
      let freed = contains-without_finalizers lb f in
      let (services, lbs_saved) = cleanup_saves lb (resource_namespace setup namespace) w in
      elim (Bool-cases (has_cleanup_finalizer lb)) [
        | inl unclean ↦ rw unclean (services, lbs_saved, freed)
        | inr clean ↦ rw clean (refl, inl refl, freed)
      ]

  -- A run on a load balancer where the tenant or the configuration disables load balancing saves no
  -- service; if the load balancer lacks the finalizer of the controller, it changes nothing at all.
  pub reconcile_under_disabled :
      (lb : LoadBalancer) (lbs : List LoadBalancer) (namespace : Text) (t : Tenant) (c : Config)
      (w : World S)
      → (c.spec.load_balancer.disable || t.spec.load_balancer.disable) ≡ true
      → let w' = (reconcile_under client setup same set_owner retry lb lbs namespace (t, c) w).1 in
        (saved_services w'.writes ≡ saved_services w.writes)
        × (contains lb.meta.finalizers cleanup_finalizer ≡ false → w' ≡ w)
  unfolding reconcile_under should_reconcile_load_balancer
  reconcile_under_disabled lb lbs namespace t c w h =
      ground (arith, (cleanup_saves lb (resource_namespace setup namespace) w).0)
