-- ===== src/Ports/Mapper/Jobs.antt =====
-- A pass of the mapper over many endpoints.
use kubelb_ce.Base.{ℕ, ◌≡◌, refl, ap, ◌∙◌, inl, inr, Bool-cases}
use kubelb_ce.Base.{Bool, true, false, ◌||◌, ◌&&◌, some, List, [], ◌∷◌, arith}
use kubelb_ce.Base.{text_eq, ◌==◌, contains, >>=-eq-some}
use kubelb_ce.Base.Dict.{has_value}
use kubelb_ce.Base.Lists.{All}
use kubelb_ce.Base.Text.{Text}
use kubelb_ce.Ports.{PortAllocator, Allocated, lookup, allocate_ports}
use kubelb_ce.Ports.Draws.{IsDraw}
use kubelb_ce.Ports.State.{IsWellFormed}
use kubelb_ce.Ports.Loops.{ensure_ports-Extends}
use kubelb_ce.Ports.Allocate.{start, allocate_ports-Run}
use kubelb_ce.Ports.Contract.{
  allocate_ports-IsWellFormed, lookup-allocate_ports_ne, lookup-allocate_ports_kept,
  has-allocate_ports,
}
use kubelb_ce.Ports.Mapper.{Job, allocate_all, job_keys}

-- No endpoint key stands twice.
abbrev pub DistinctKeys : List Job → Type 0
DistinctKeys [] = Unit
DistinctKeys ((e, keys) ∷ jobs) = (contains (job_keys jobs) e ≡ false) × DistinctKeys jobs

-- A port key of an endpoint is asked for by some job.
unfoldable pub asks : List Job → Text → Text → Bool
asks [] e k = false
asks ((e', keys) ∷ jobs) e k = (e == e' && contains keys k) || asks jobs e k

draws-allocate_ports :
    (pa : PortAllocator) (e : Text) (keys : List Text) (draws : List ℕ) {a : Allocated}
    → All IsDraw draws
    → allocate_ports pa e keys draws ≡ some a
    → All IsDraw a.draws
draws-allocate_ports pa e keys draws drawn h =
    let (p, loop, result) = allocate_ports-Run pa e keys draws h in
    rw (← result)
      (ensure_ports-Extends pa.port_lookup_reverse (start pa e draws) p keys drawn loop).draws

-- A pass over the endpoints that returns keeps the invariant of the allocator.
pub allocate_all-IsWellFormed :
    (pa : PortAllocator) (jobs : List Job) (draws : List ℕ) {q : PortAllocator} {rest : List ℕ}
    → All IsDraw draws
    → allocate_all pa jobs draws ≡ some (q, rest)
    → IsWellFormed pa
    → IsWellFormed q
unfolding allocate_all
allocate_all-IsWellFormed pa [] draws {q} drawn h w = let same : pa ≡ q = cc in rw (← same) w
allocate_all-IsWellFormed pa ((e, keys) ∷ jobs) draws drawn h w =
    let (a, first, later) = >>=-eq-some (allocate_ports pa e keys draws) _ h in
    allocate_all-IsWellFormed a.state jobs a.draws
      (draws-allocate_ports pa e keys draws drawn first) later
      (allocate_ports-IsWellFormed pa e keys draws drawn first w)

pub draws-allocate_all :
    (pa : PortAllocator) (jobs : List Job) (draws : List ℕ) {q : PortAllocator} {rest : List ℕ}
    → All IsDraw draws
    → allocate_all pa jobs draws ≡ some (q, rest)
    → All IsDraw rest
unfolding allocate_all
draws-allocate_all pa [] draws {q} {rest} drawn h =
    let same : draws ≡ rest = cc in rw (← same) drawn
draws-allocate_all pa ((e, keys) ∷ jobs) draws drawn h =
    let (a, first, later) = >>=-eq-some (allocate_ports pa e keys draws) _ h in
    draws-allocate_all a.state jobs a.draws (draws-allocate_ports pa e keys draws drawn first) later

-- Endpoints that no job names keep their ports.
pub lookup-allocate_all_other :
    (pa : PortAllocator) (jobs : List Job) (draws : List ℕ) {q : PortAllocator} {rest : List ℕ}
    (e k : Text)
    → All IsDraw draws
    → allocate_all pa jobs draws ≡ some (q, rest)
    → contains (job_keys jobs) e ≡ false
    → lookup q e k ≡ lookup pa e k
unfolding allocate_all job_keys
lookup-allocate_all_other pa [] draws {q} e k drawn h out = let same : pa ≡ q = cc in rw (← same)
lookup-allocate_all_other pa ((e', keys) ∷ jobs) draws e k drawn h out =
    let (a, first, later) = >>=-eq-some (allocate_ports pa e' keys draws) _ h in
    lookup-allocate_all_other a.state jobs a.draws e k
      (draws-allocate_ports pa e' keys draws drawn first) later (ground arith)
    ∙ lookup-allocate_ports_ne pa e' keys draws drawn first e k (ground arith)

asks_of_fresh :
    (jobs : List Job) (e k : Text) → contains (job_keys jobs) e ≡ false → asks jobs e k ≡ false
unfolding job_keys asks
asks_of_fresh [] e k h = refl
asks_of_fresh ((e', keys) ∷ jobs) e k h = ground (arith, asks_of_fresh jobs e k)

-- After a pass over jobs with distinct endpoint keys, an endpoint that some job names has a port for
-- exactly the port keys that its job asks for.
pub has-allocate_all :
    (pa : PortAllocator) (jobs : List Job) (draws : List ℕ) {q : PortAllocator} {rest : List ℕ}
    (e k : Text)
    → All IsDraw draws
    → DistinctKeys jobs
    → allocate_all pa jobs draws ≡ some (q, rest)
    → contains (job_keys jobs) e ≡ true
    → has_value (lookup q e k) ≡ asks jobs e k
unfolding allocate_all job_keys asks
has-allocate_all pa [] draws e k drawn d h m = absurd (cc)
has-allocate_all pa ((e', keys) ∷ jobs) draws {q} e k drawn (fresh, d) h m =
    let (a, first, later) = >>=-eq-some (allocate_ports pa e' keys draws) _ h in
    let drawn' = draws-allocate_ports pa e' keys draws drawn first in
    elim (Bool-cases (e == e')) [
      | inl same ↦
          ap has_value
            (lookup-allocate_all_other a.state jobs a.draws e k drawn' later (ground arith))
          ∙ ground
              (arith, has-allocate_ports pa e' keys draws drawn first k, asks_of_fresh jobs e k)
      | inr other ↦
          has-allocate_all a.state jobs a.draws e k drawn' d later (ground arith) ∙ rw other
    ]

-- A port survives a pass in which its endpoint asks for it: what is allocated stays allocated, over
-- every repetition.
pub lookup-allocate_all_kept :
    (pa : PortAllocator) (jobs : List Job) (draws : List ℕ) {q : PortAllocator} {rest : List ℕ}
    (e k : Text) (port : ℕ)
    → All IsDraw draws
    → DistinctKeys jobs
    → allocate_all pa jobs draws ≡ some (q, rest)
    → asks jobs e k ≡ true
    → lookup pa e k ≡ some port
    → lookup q e k ≡ some port
unfolding allocate_all asks
lookup-allocate_all_kept pa [] draws e k port drawn d h m old = absurd (cc)
lookup-allocate_all_kept pa ((e', keys) ∷ jobs) draws {q} e k port drawn (fresh, d) h m old =
    let (a, first, later) = >>=-eq-some (allocate_ports pa e' keys draws) _ h in
    let drawn' = draws-allocate_ports pa e' keys draws drawn first in
    elim (Bool-cases (e == e')) [
      | inl same ↦
          lookup-allocate_all_other a.state jobs a.draws e k drawn' later (ground arith)
          ∙ ground (
            arith,
            asks_of_fresh jobs e k,
            lookup-allocate_ports_kept pa e' keys draws drawn first k port,
          )
      | inr other ↦
          lookup-allocate_all_kept a.state jobs a.draws e k port drawn' d later (ground arith)
            (lookup-allocate_ports_ne pa e' keys draws drawn first e k (ground arith) ∙ old)
    ]
