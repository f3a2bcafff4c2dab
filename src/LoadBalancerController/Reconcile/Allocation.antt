-- ===== src/LoadBalancerController/Reconcile/Allocation.antt =====
-- The port allocator as a part of the world: the invariant of its tables and of the numbers left to
-- draw (internal/port-lookup), and the steps that change it.
use kubelb_ce.Base.{ℕ, ◌≡◌, refl, Option, none, some, List}
use kubelb_ce.Base.{text_eq}
use kubelb_ce.Base.Lists.{All}
use kubelb_ce.Api.{LoadBalancer}
use kubelb_ce.Cluster.Keeps.{Keeps, IsStable, Holds, Keeps-Holds}
use kubelb_ce.Ports.{PortAllocator}
use kubelb_ce.LoadBalancerController.Reconcile.{allocate, allocated}
use kubelb_ce.Ports.Mapper.{
  allocate_ports_for_load_balancers, load_balancer_jobs, Job, allocate_all,
  deallocate_ports_for_load_balancer,
}
use kubelb_ce.Ports.Mapper.Jobs.{allocate_all-IsWellFormed, draws-allocate_all}
use kubelb_ce.Ports.Remove.{deallocate_endpoints-IsWellFormed}
use kubelb_ce.Ports.Draws.{IsDraw}
use kubelb_ce.Ports.State.{IsWellFormed}
use kubelb_ce.Cluster.{Client, World, Action}

-- What the run has of the allocator: its tables, and the numbers that are left to draw.
abbrev pub allocation : {S : Type 0} → World S → PortAllocator × List ℕ
allocation w = (w.ports, w.draws)

abbrev pub KeepsPorts : {S A : Type 0} → Action S A → Type 0
KeepsPorts m = Keeps allocation m

abbrev pub IsSound : {S : Type 0} → World S → Type 0
IsSound w = IsWellFormed w.ports × All IsDraw w.draws

pub IsSound-IsStable : {S : Type 0} → IsStable (IsSound {S = S})
IsSound-IsStable = record { reads = λ w s h. h; writes = λ w s x h. h }

pub kept : {S A : Type 0} (m : Action S A) → KeepsPorts m → Holds IsSound m
kept m h = Keeps-Holds allocation (λ (pa, draws). IsWellFormed pa × All IsDraw draws) m h

pub along : {V : Type 0} (Q : V → Type 0) {a b : V} → a ≡ b → Q b → Q a
along Q e q = rw e q

pub allocated-IsSound :
    {S : Type 0} (client : Client S) (jobs : List Job) (w : World S)
    (o : Option (PortAllocator × List ℕ))
    → allocate_all w.ports jobs w.draws ≡ o
    → IsSound w
    → IsSound (allocated client o w).1
unfolding allocated
allocated-IsSound client jobs w none h s = s
allocated-IsSound client jobs w (some (pa, rest)) h (good, drawn) = (
  allocate_all-IsWellFormed w.ports jobs w.draws drawn h good,
  draws-allocate_all w.ports jobs w.draws drawn h,
)

-- Allocating the ports of load balancers keeps the invariant.
pub allocate-IsSound :
    {S : Type 0} (client : Client S) (lbs : List LoadBalancer) → Holds IsSound (allocate client lbs)
unfolding allocate allocate_ports_for_load_balancers
allocate-IsSound client lbs w = allocated-IsSound client (load_balancer_jobs lbs) w _ refl

pub release_ports-IsSound :
    {S : Type 0} (lb : LoadBalancer) (w : World S)
    → IsSound w
    → IsWellFormed (deallocate_ports_for_load_balancer w.ports lb) × All IsDraw w.draws
unfolding deallocate_ports_for_load_balancer
release_ports-IsSound lb w (good, drawn) = (deallocate_endpoints-IsWellFormed w.ports _ good, drawn)
