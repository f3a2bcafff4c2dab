-- ===== src/LoadBalancerController/Reconcile/Ports.antt =====
-- The port allocator over a whole run of `Reconcile`
-- (internal/controllers/kubelb/loadbalancer_controller.go).
use kubelb_ce.Base.{ℕ, ◌≡◌, arith, Option, none, some, List, ◌&&◌, not}
use kubelb_ce.Base.{text_eq, contains, if◌then◌else◌}
use kubelb_ce.Base.Lists.{All}
use kubelb_ce.Base.Text.{Text}
use kubelb_ce.Api.{Tenant, Config, LoadBalancer, TenantSpec, ConfigSpec}
use kubelb_ce.Cluster.Keeps.{Holds, if-Holds, >>=-Holds, IsRetry}
use kubelb_ce.LoadBalancerController.Reconcile.{
  reconcile, reconcile_answer, reconcile_load_balancer, reconcile_live, reconcile_deleted,
  reconcile_enabled, allocate, allocate_and_serve, ensure_finalizer, reconcile_under,
  reconcile_listed, reconcile_marked, has_cleanup_finalizer, load_balancers_of,
  get_tenant_and_config,
}
use kubelb_ce.LoadBalancerController.Cleanup.{cleanup}
use kubelb_ce.Ports.Mapper.{deallocate_ports_for_load_balancer}
use kubelb_ce.Ports.Draws.{IsDraw}
use kubelb_ce.Ports.State.{IsWellFormed}
use kubelb_ce.LoadBalancerController.{resource_namespace, remove_tenant_prefix}
use kubelb_ce.Finalizers.{cleanup_finalizer}
use kubelb_ce.Cluster.{pure, try_get, Kind, Client, World, Answer, Action}
use kubelb_ce.Events.{should_reconcile_load_balancer, Request}
use kubelb_ce.LoadBalancerController.{Setup, DeepEqual}
use kubelb_ce.LoadBalancerController.Hostname.{SetOwner}
use kubelb_ce.LoadBalancerController.Reconcile.{serve}
use kubelb_ce.LoadBalancerController.Reconcile.Allocation.{
  allocation, IsSound, IsSound-IsStable, kept, along, allocate-IsSound, release_ports-IsSound,
}
use kubelb_ce.LoadBalancerController.Reconcile.Steps.{
  serve-Holds, get_tenant_and_config-Holds, load_balancers_of-Holds,
}

module _ {S : Type 0} (client : Client S) (setup : Setup) (same : DeepEqual) (set_owner : SetOwner)
    (retry : Action S Unit → Action S Unit) (r : IsRetry retry) where
  allocation-cleanup :
      (lb : LoadBalancer) (namespace : Text) (w : World S)
      → allocation (cleanup client setup.topology lb namespace w).1
        ≡ (deallocate_ports_for_load_balancer w.ports lb, w.draws)
  unfolding cleanup
  allocation-cleanup lb namespace w = ground arith

  cleanup-IsSound :
      (lb : LoadBalancer) (namespace : Text)
      → Holds IsSound (cleanup client setup.topology lb namespace)
  cleanup-IsSound lb namespace w s =
      along (λ (pa, draws). IsWellFormed pa × All IsDraw draws) (allocation-cleanup lb namespace w)
        (release_ports-IsSound lb w s)

  allocate_and_serve-IsSound :
      (lbs : List LoadBalancer) (t : TenantSpec) (c : ConfigSpec) (namespace : Text)
      (lb : LoadBalancer)
      → Holds IsSound (allocate_and_serve client setup same set_owner retry lbs t c namespace lb)
  unfolding allocate_and_serve
  allocate_and_serve-IsSound lbs t c namespace lb =
      >>=-Holds IsSound (allocate client lbs)
        (λ _. serve client setup same set_owner retry lb t c namespace)
        (allocate-IsSound client lbs)
        (λ _.
          serve-Holds client setup same set_owner retry r IsSound IsSound-IsStable lb t c namespace)

  reconcile_enabled-IsSound :
      (lb : LoadBalancer) (lbs : List LoadBalancer) (t : TenantSpec) (c : ConfigSpec)
      (namespace : Text)
      → Holds IsSound (reconcile_enabled client setup same set_owner retry lb lbs t c namespace)
  unfolding reconcile_enabled ensure_finalizer
  reconcile_enabled-IsSound lb lbs t c namespace =
      >>=-Holds IsSound (ensure_finalizer client lb)
        (allocate_and_serve client setup same set_owner retry lbs t c namespace)
        (kept (ensure_finalizer client lb) (λ w. ground arith))
        (allocate_and_serve-IsSound lbs t c namespace)

  reconcile_under-IsSound :
      (lb : LoadBalancer) (lbs : List LoadBalancer) (namespace : Text) (settings : Tenant × Config)
      → Holds IsSound (reconcile_under client setup same set_owner retry lb lbs namespace settings)
  unfolding reconcile_under
  reconcile_under-IsSound lb lbs namespace (tenant, config) w s =
      let (go_on, disabled) = should_reconcile_load_balancer tenant.spec config.spec in
      if-Holds IsSound (contains lb.meta.finalizers cleanup_finalizer && disabled)
        (cleanup client setup.topology lb (resource_namespace setup namespace))
        (if not go_on
          then pure tt
          else reconcile_enabled client setup same set_owner retry lb lbs tenant.spec config.spec
              namespace)
        (cleanup-IsSound lb (resource_namespace setup namespace))
        (if-Holds IsSound (not go_on) (pure tt)
          (reconcile_enabled client setup same set_owner retry lb lbs tenant.spec config.spec
            namespace)
          (λ v good. good) (reconcile_enabled-IsSound lb lbs tenant.spec config.spec namespace))
        w s

  reconcile_marked-IsSound :
      (time : Option ℕ) (lb : LoadBalancer) (namespace : Text) (lbs : List LoadBalancer)
      → Holds IsSound (reconcile_marked client setup same set_owner retry time lb namespace lbs)
  unfolding reconcile_marked reconcile_live reconcile_deleted
  reconcile_marked-IsSound none lb namespace lbs =
      >>=-Holds IsSound
        (get_tenant_and_config client setup.namespace (remove_tenant_prefix lb.meta.namespace))
        (reconcile_under client setup same set_owner retry lb lbs namespace)
        (get_tenant_and_config-Holds client same set_owner IsSound IsSound-IsStable _ _)
        (reconcile_under-IsSound lb lbs namespace)
  reconcile_marked-IsSound (some time) lb namespace lbs =
      if-Holds IsSound (has_cleanup_finalizer lb)
        (cleanup client setup.topology lb (resource_namespace setup namespace)) (pure tt)
        (cleanup-IsSound lb (resource_namespace setup namespace)) (λ v good. good)

  reconcile_listed-IsSound :
      (lb : LoadBalancer) (namespace : Text) (lbs : List LoadBalancer)
      → Holds IsSound (reconcile_listed client setup same set_owner retry lb namespace lbs)
  unfolding reconcile_listed
  reconcile_listed-IsSound lb = reconcile_marked-IsSound lb.meta.deletion_timestamp lb

  reconcile_load_balancer-IsSound :
      (lb : LoadBalancer) (namespace : Text)
      → Holds IsSound (reconcile_load_balancer client setup same set_owner retry lb namespace)
  unfolding reconcile_load_balancer
  reconcile_load_balancer-IsSound lb namespace w s = ground (
    arith,
    >>=-Holds IsSound (load_balancers_of client setup.topology namespace)
        (reconcile_listed client setup same set_owner retry lb namespace)
        (load_balancers_of-Holds client same set_owner IsSound IsSound-IsStable setup.topology
          namespace)
        (λ lbs. reconcile_listed-IsSound lb namespace lbs) w s,
  )

  reconcile_answer-IsSound :
      (req : Request) (a : Answer LoadBalancer)
      → Holds IsSound (reconcile_answer client setup same set_owner retry req a)
  unfolding reconcile_answer
  reconcile_answer-IsSound req (Answer.object lb) w s =
      reconcile_load_balancer-IsSound lb req.namespace w s
  reconcile_answer-IsSound req (Answer.failure f) w s = s

  -- A run of the load balancer controller keeps the invariant of the allocator, and draws numbers
  -- of the range only.
  pub reconcile-IsSound :
      (req : Request) (w : World S)
      → IsWellFormed w.ports
      → All IsDraw w.draws
      → IsSound (reconcile client setup same set_owner retry req w).1
  unfolding reconcile
  reconcile-IsSound req w good drawn =
      >>=-Holds IsSound (try_get client Kind.load_balancer req)
        (reconcile_answer client setup same set_owner retry req) (λ v s. s)
        (reconcile_answer-IsSound req) w (good, drawn)
