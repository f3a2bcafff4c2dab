-- ===== src/Cluster/Memory.antt =====
-- An API server that always holds the same objects and carries out every call, for runs at concrete
-- inputs. It leaves its
-- state alone.
use kubelb_ce.Base.{Option, none, some, List, [], ◌∷◌, false}
use kubelb_ce.Api.{Service, LoadBalancer, Tenant, Config}
use kubelb_ce.Cluster.{Kind, Stored, Failure, Client, Answer, Action}
use kubelb_ce.Cluster.Keeps.{IsRetry}

-- What is stored: at most one object of a kind.
pub record Objects : Type 0 where
  pub service : Option Service
  pub load_balancer : Option LoadBalancer
  pub tenant : Option Tenant
  pub config : Option Config

abbrev answer : {A : Type 0} → Option A → Answer A
answer none = Answer.failure Failure.not_found
answer (some a) = Answer.object a

abbrev all_of : {A : Type 0} → Option A → List A
all_of none = []
all_of (some a) = a ∷ []

abbrev stored : Objects → (k : Kind) → Option (Stored k)
stored o Kind.service = o.service
stored o Kind.load_balancer = o.load_balancer
stored o Kind.tenant = o.tenant
stored o Kind.config = o.config
stored o Kind.route = none
stored o Kind.ingress = none
stored o Kind.http_route = none
stored o Kind.node = none
stored o Kind.addresses = none
stored o Kind.deployment = none
stored o Kind.daemonset = none

abbrev pub memory : {S : Type 0} → Objects → Client S
memory o = record {
  get = λ k key s. (answer (stored o k), s);
  list = λ k namespace s. (Answer.object (all_of (stored o k)), s);
  create = λ k new s. (Answer.object new, s);
  update = λ k new s. (Answer.object new, s);
  update_status = λ k new s. (Answer.object new, s);
  patch_status = λ k original new s. (Answer.object new, s);
  delete = λ k key s. (none, s);
  now = λ s. (0, s);
  random = λ s. (none, s);
  resolves = λ host s. (false, s);
  is_healthy = λ url s. (false, s);
}

-- A retry that tries once.
abbrev pub once : {S : Type 0} → Action S Unit → Action S Unit
once m = m

pub once-IsRetry : {S : Type 0} → IsRetry (once {S = S})
once-IsRetry = record { keeps = λ P m h w p. h w p }
