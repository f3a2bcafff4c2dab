-- ===== src/Ports/Ending.antt =====
-- The ending of the loops of `AllocatePorts` (internal/port-lookup/allocator.go).
use mathlib.Core.List.{append_assoc}
use kubelb_ce.Base.{ℕ, zero, suc, ◌+◌, ◌-◌, ◌<◌, ◌≡◌, refl, sym, inl, inr, Bool-cases}
use kubelb_ce.Base.{true, false, some, List, [], ◌∷◌, ◌++◌, arith}
use kubelb_ce.Base.{text_eq, nat_eq, contains}
use kubelb_ce.Base.Dict
use kubelb_ce.Base.Lists.{length}
use kubelb_ce.Base.Text.{Text}
use kubelb_ce.Ports.{
  PortAllocator, Progress, Allocated, start_port, end_port, allocate_port, ensure_port,
  ensure_ports, allocate_ports,
}
use kubelb_ce.Ports.Draws.{IsDraw, missed_below}
use kubelb_ce.Ports.State.{contains-append}
use kubelb_ce.Ports.Allocate.{start, finish}

-- Every value of `rand.Intn` occurs among the draws.
abbrev pub Sweep : List ℕ → Type 0
Sweep draws = (d : ℕ) → IsDraw d → contains draws d ≡ true

-- The draws hold `n` such lists in a row: the source draws without end, and fairly.
abbrev pub Sweeps : ℕ → List ℕ → Type 0
Sweeps zero draws = Unit
Sweeps (suc n) draws = (xs : List ℕ) × (ys : List ℕ) × (draws ≡ xs ++ ys) × Sweep xs × Sweeps n ys

-- The loop ends within the list that holds a free draw.
allocate_port-append :
    (reverse xs ys : List ℕ) (d : ℕ)
    → contains xs d ≡ true
    → contains reverse (d + start_port) ≡ false
    → (port : ℕ) × (zs : List ℕ) × (allocate_port reverse (xs ++ ys) ≡ some (port, zs ++ ys))
unfolding allocate_port
allocate_port-append reverse [] ys d m free = absurd (cc)
allocate_port-append reverse (c ∷ xs) ys d m free =
    elim (Bool-cases (contains reverse (c + start_port))) [
      | inl used ↦ rw used (allocate_port-append reverse xs ys d (ground arith) free)
      | inr open_port ↦ (c + start_port, xs, rw open_port)
    ]

Sweeps-append : (n : ℕ) (zs ys : List ℕ) → Sweeps n ys → Sweeps n (zs ++ ys)
Sweeps-append zero zs ys s = tt
Sweeps-append (suc n) zs ys (us, vs, e, sweep, s) = (
  zs ++ us,
  vs,
  rw e (sym (append_assoc zs us vs)),
  λ d b. rw (contains-append, sweep d b) (ground arith),
  s,
)

Sweeps-fewer : (n : ℕ) (draws : List ℕ) → Sweeps (suc n) draws → Sweeps n draws
Sweeps-fewer n draws (xs, ys, e, sweep, s) = rw e (Sweeps-append n xs ys s)

-- One round ends and leaves enough draws for the others.
ensure_port_ends :
    (reverse : List ℕ) (p : Progress) (k : Text) (n : ℕ)
    → length reverse < end_port - start_port
    → Sweeps (suc n) p.draws
    → (q : Progress) × (ensure_port reverse p k ≡ some q) × Sweeps n q.draws
unfolding ensure_port
ensure_port_ends reverse p k n room s = elim (Bool-cases (Dict.has k p.ports)) [
  | inl present ↦ (p, rw present, Sweeps-fewer n p.draws s)
  | inr absent ↦
      let (xs, ys, e, sweep, more) = s in
      let (d, below, free) = missed_below (end_port - start_port) start_port reverse room in
      let (port, zs, drawn) = allocate_port-append reverse xs ys d (sweep d below) free in
      (
        record { ports = Dict.insert k port p.ports; updated = true; draws = zs ++ ys },
        rw (absent, e, drawn),
        Sweeps-append n zs ys more,
      )
]

ensure_ports_ends :
    (reverse : List ℕ) (p : Progress) (ks : List Text)
    → length reverse < end_port - start_port
    → Sweeps (length ks) p.draws
    → (q : Progress) × (ensure_ports reverse p ks ≡ some q)
unfolding ensure_ports
ensure_ports_ends reverse p [] room s = (p, refl)
ensure_ports_ends reverse p (k ∷ ks) room s =
    let (r, first, more) = ensure_port_ends reverse p k (length ks) room s in
    let (q, later) = ensure_ports_ends reverse r ks room more in (q, rw first later)

-- While fewer ports are in use than the range holds, and every value of `rand.Intn` is drawn once
-- more for each port key, the call returns.
pub allocate_ports_ends :
    (pa : PortAllocator) (e : Text) (keys : List Text) (draws : List ℕ)
    → length pa.port_lookup_reverse < end_port - start_port
    → Sweeps (length keys) draws
    → (a : Allocated) × (allocate_ports pa e keys draws ≡ some a)
unfolding allocate_ports
allocate_ports_ends pa e keys draws room s =
    let (q, loop) = ensure_ports_ends pa.port_lookup_reverse (start pa e draws) keys room s in
    (finish pa e keys q, rw loop)
