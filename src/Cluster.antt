-- ===== src/Cluster.antt =====
-- The world that the controllers act on. The API server and the libraries between it and the
-- controllers are not code of the repository: a `Client` is any way to answer the calls, on any state
-- of its own, which other writers may change between two calls. Of the program's own state the world
-- has the port allocator, and the random numbers that it draws. Every call that writes is recorded
-- with its answer, the newest first.

pub mod Records
pub mod Keeps
pub mod Memory
use kubelb_ce.Base.{ℕ, Bool, true, false, Option, none, some, List, [], ◌∷◌}
use kubelb_ce.Base.Text.{Text}
use kubelb_ce.Api.{
  ObjectMeta, Service, LoadBalancer, Route, Tenant, Config, Ingress, HttpRoute, Workload,
}
use kubelb_ce.Events.{Request}
use kubelb_ce.Nodes.{Node, AddressesObject}
use kubelb_ce.Ports.{PortAllocator}

-- What the code tells apart of an error: `IsNotFound`, `IsConflict`, or neither.
pub data Failure : Type 0 where
  not_found conflict failed : Failure

pub data Kind : Type 0 where
  service load_balancer route tenant config ingress http_route node addresses deployment daemonset :
      Kind

abbrev pub Stored : Kind → Type 0
Stored Kind.service = Service
Stored Kind.load_balancer = LoadBalancer
Stored Kind.route = Route
Stored Kind.tenant = Tenant
Stored Kind.config = Config
Stored Kind.ingress = Ingress
Stored Kind.http_route = HttpRoute
Stored Kind.node = Node
Stored Kind.addresses = AddressesObject
Stored Kind.deployment = Workload
Stored Kind.daemonset = Workload

abbrev pub request : Text → Text → Request
request name namespace = record { name = name; namespace = namespace }

-- `types.NamespacedName` of an object
abbrev pub request_of : ObjectMeta → Request
request_of meta = record { name = meta.name; namespace = meta.namespace }

-- The object that a call answers with, or its error.
pub data Answer (A : Type 0) : Type 0 where
  object : A → Answer A
  failure : Failure → Answer A

-- `controller-runtime/pkg/client`, the clock, the random bytes and the network.
pub record Client (S : Type 0) : Type 0 where
  pub get : (k : Kind) → Request → S → Answer (Stored k) × S
  pub list : (k : Kind) → Option Text → S → Answer (List (Stored k)) × S
  pub create : (k : Kind) → Stored k → S → Answer (Stored k) × S
  pub update : (k : Kind) → Stored k → S → Answer (Stored k) × S
  pub update_status : (k : Kind) → Stored k → S → Answer (Stored k) × S
  pub patch_status : (k : Kind) → Stored k → Stored k → S → Answer (Stored k) × S
  pub delete : (k : Kind) → Request → S → Option Failure × S
  pub now : S → ℕ × S
  pub random : S → Option Text × S
  pub resolves : Text → S → Bool × S
  pub is_healthy : Text → S → Bool × S

-- A call that writes, with the error that it met.
pub data Write : Type 0 where
  created updated status_updated : (k : Kind) → Stored k → Option Failure → Write
  status_patched : (k : Kind) → Stored k → Stored k → Option Failure → Write
  deleted : (k : Kind) → Request → Option Failure → Write

pub record World (S : Type 0) : Type 0 where
  pub server : S
  pub ports : PortAllocator
  pub draws : List ℕ
  pub writes : List Write

-- A panic, or a loop that does not end on the numbers drawn, is `halt`.
pub data Result (A : Type 0) : Type 0 where
  ok : A → Result A
  err : Failure → Result A
  halt : Result A

abbrev pub Action : Type 0 → Type 0 → Type 0
Action S A = World S → Result A × World S

abbrev pub failure_of : {A : Type 0} → Answer A → Option Failure
failure_of (Answer.object a) = none
failure_of (Answer.failure f) = some f

-- `IgnoreNotFound`
abbrev pub forgiven : Option Failure → Result Unit
forgiven none = Result.ok tt
forgiven (some Failure.not_found) = Result.ok tt
forgiven (some Failure.conflict) = Result.err Failure.conflict
forgiven (some Failure.failed) = Result.err Failure.failed

abbrev pub result_of : {A : Type 0} → Answer A → Result A
result_of (Answer.object a) = Result.ok a
result_of (Answer.failure f) = Result.err f

module _ {S A : Type 0} where
  abbrev pub pure : A → Action S A
  pure a w = (Result.ok a, w)

  abbrev pub raise : Failure → Action S A
  raise f w = (Result.err f, w)

  -- `none` is a panic or a loop that does not end.
  abbrev pub or_halt : Option A → Action S A
  or_halt none w = (Result.halt, w)
  or_halt (some a) w = (Result.ok a, w)

  abbrev pub of_result : Result A → Action S A
  of_result r w = (r, w)

infixl 5 ◌>>=◌ ◌>>◌
abbrev pub ◌>>=◌ : {S A B : Type 0} → Action S A → (A → Action S B) → Action S B
◌>>=◌ m f w =
    let (r, w') = m w in
    elim r [
      | Result.ok a ↦ f a w'
      | Result.err e ↦ (Result.err e, w')
      | Result.halt ↦ (Result.halt, w')
    ]

abbrev pub ◌>>◌ : {S A B : Type 0} → Action S A → Action S B → Action S B
m >> k = m >>= λ _. k

module _ {S : Type 0} (client : Client S) where
  -- A read whose error the caller looks at.
  abbrev pub try_get : (k : Kind) → Request → Action S (Answer (Stored k))
  try_get k key w = let (a, s) = client.get k key w.server in (Result.ok a, record w { server = s })

  abbrev pub get : (k : Kind) → Request → Action S (Stored k)
  get k key = try_get k key >>= λ a. of_result (result_of a)

  abbrev pub list : (k : Kind) → Option Text → Action S (List (Stored k))
  list k namespace w =
      let (a, s) = client.list k namespace w.server in (result_of a, record w { server = s })

  abbrev pub create : (k : Kind) → Stored k → Action S (Stored k)
  create k o w =
      let (a, s) = client.create k o w.server in
      (result_of a, record w { server = s; writes = Write.created k o (failure_of a) ∷ w.writes })

  abbrev pub update : (k : Kind) → Stored k → Action S (Stored k)
  update k o w =
      let (a, s) = client.update k o w.server in
      (result_of a, record w { server = s; writes = Write.updated k o (failure_of a) ∷ w.writes })

  abbrev pub update_status : (k : Kind) → Stored k → Action S (Stored k)
  update_status k o w =
      let (a, s) = client.update_status k o w.server in
      let write = Write.status_updated k o (failure_of a) in
      (result_of a, record w { server = s; writes = write ∷ w.writes })

  abbrev pub patch_status : (k : Kind) → Stored k → Stored k → Action S (Stored k)
  patch_status k original o w =
      let (a, s) = client.patch_status k original o w.server in
      let write = Write.status_patched k original o (failure_of a) in
      (result_of a, record w { server = s; writes = write ∷ w.writes })

  -- A deletion, where an object that is gone already is no error.
  abbrev pub delete : (k : Kind) → Request → Action S Unit
  delete k key w =
      let (a, s) = client.delete k key w.server in
      (forgiven a, record w { server = s; writes = Write.deleted k key a ∷ w.writes })

  abbrev pub now : Action S ℕ
  now w = let (a, s) = client.now w.server in (Result.ok a, record w { server = s })

  abbrev pub random : Action S (Option Text)
  random w = let (a, s) = client.random w.server in (Result.ok a, record w { server = s })

  abbrev pub resolves : Text → Action S Bool
  resolves host w =
      let (a, s) = client.resolves host w.server in (Result.ok a, record w { server = s })

  abbrev pub is_healthy : Text → Action S Bool
  is_healthy url w =
      let (a, s) = client.is_healthy url w.server in (Result.ok a, record w { server = s })
