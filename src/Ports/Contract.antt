-- ===== src/Ports/Contract.antt =====
-- The ports of every endpoint after a call of `AllocatePorts` (internal/port-lookup/allocator.go).
use kubelb_ce.Base.{ℕ, ◌≤◌, ◌<◌, ◌≡◌, ◌≢◌, refl, ap, ◌∙◌, inl, inr, Bool-cases}
use kubelb_ce.Base.{true, ◌||◌, Option, none, some, List, [], arith}
use kubelb_ce.Base.{text_eq, nat_eq, contains}
use kubelb_ce.Base.Dict
use kubelb_ce.Base.Dict.{Dict, NodupKeys, has_value}
use kubelb_ce.Base.Lists.{All}
use kubelb_ce.Base.Text.{Text}
use kubelb_ce.Ports.{
  LookupTable, PortAllocator, Allocated, lookup, ports_at, ensure_endpoint, any_stale,
  allocate_ports, start_port, end_port,
}
use kubelb_ce.Ports.Draws.{IsDraw}
use kubelb_ce.Ports.State.{
  IsTable, IsWellFormed, insert-IsTable, recompute_available_ports-IsWellFormed,
}
use kubelb_ce.Ports.Loops.{ensure_ports-Extends}
use kubelb_ce.Ports.Missing.{
  any_missing, has-ensure_ports, updated-ensure_ports, any_stale-ensure_ports,
}
use kubelb_ce.Ports.Stale.{remove_stale-NodupKeys}
use kubelb_ce.Ports.Allocate.{start, finish, allocate_ports-Run, lookup-start, lookup-finish}

pub ensure_endpoint-IsTable :
    (e : Text) (table : LookupTable) → IsTable table → IsTable (ensure_endpoint e table)
unfolding ensure_endpoint
ensure_endpoint-IsTable e table t = elim (Bool-cases (Dict.has e table)) [
  | inl old ↦ rw old t
  | inr new ↦ rw new (insert-IsTable e [] table tt t)
]

or_empty-NodupKeys :
    (o : Option (Dict Text ℕ))
    → ((ports : Dict Text ℕ) → o ≡ some ports → NodupKeys ports)
    → NodupKeys (elim o [ none ↦ [] | some ports ↦ ports ])
or_empty-NodupKeys none h = tt
or_empty-NodupKeys (some ports) h = h ports refl

pub ports_at-NodupKeys :
    (e : Text) (table : LookupTable) → IsTable table → NodupKeys (ports_at e table)
unfolding ports_at
ports_at-NodupKeys e table t =
    or_empty-NodupKeys (Dict.lookup e table)
      λ ports found. Dict.lookup-AllValues NodupKeys e table t.inner found

module _ (pa : PortAllocator) (e : Text) (keys : List Text) (draws : List ℕ) {a : Allocated}
    (drawn : All IsDraw draws) (returns : allocate_ports pa e keys draws ≡ some a) where
  -- A call that returns keeps the invariant of the allocator: no key is listed twice, and the reverse
  -- table holds the ports of the lookup table and no other.
  pub allocate_ports-IsWellFormed : IsWellFormed pa → IsWellFormed a.state
  allocate_ports-IsWellFormed w =
      let (p, loop, result) = allocate_ports-Run pa e keys draws returns in
      let t = ensure_endpoint-IsTable e pa.port_lookup w.table in
      let grown =
        ensure_ports-Extends pa.port_lookup_reverse (start pa e draws) p keys drawn loop in
      rw (← result) (
        recompute_available_ports-IsWellFormed _ (
          insert-IsTable e _ _
            (remove_stale-NodupKeys keys p.ports (grown.nodup (ports_at-NodupKeys e _ t))) t))

  -- A call that returns leaves the ports of every other endpoint as they were.
  pub lookup-allocate_ports_ne : (e' k : Text) → e' ≢ e → lookup a.state e' k ≡ lookup pa e' k
  lookup-allocate_ports_ne e' k other =
      let (p, loop, result) = allocate_ports-Run pa e keys draws returns in
      rw (← result) (ground (arith, lookup-finish pa e keys p e' k))

  -- A key of the endpoint that has a port and is asked for keeps that port.
  pub lookup-allocate_ports_kept :
      (k : Text) (port : ℕ)
      → contains keys k ≡ true
      → lookup pa e k ≡ some port
      → lookup a.state e k ≡ some port
  lookup-allocate_ports_kept k port asked old =
      let (p, loop, result) = allocate_ports-Run pa e keys draws returns in
      let grown =
        ensure_ports-Extends pa.port_lookup_reverse (start pa e draws) p keys drawn loop in
      rw (← result) (
        ground (
          arith,
          lookup-finish pa e keys p e k,
          grown.keeps k port (lookup-start pa e k draws ∙ old),
        ))

  -- After a call that returns, exactly the keys that are asked for have a port of the endpoint.
  pub has-allocate_ports : (k : Text) → has_value (lookup a.state e k) ≡ contains keys k
  unfolding has_value
  has-allocate_ports k =
      let (p, loop, result) = allocate_ports-Run pa e keys draws returns in
      let present = has-ensure_ports pa.port_lookup_reverse (start pa e draws) p keys k loop in
      rw (← result) (elim (Bool-cases (contains keys k)) [
        | inl asked ↦
            let (port, found) = Dict.has-eq-true k p.ports (present asked) in
            ground (arith, lookup-finish pa e keys p e k)
        | inr unasked ↦ ground (arith, lookup-finish pa e keys p e k)
      ])

  -- From a well-formed state, a port that a call adds for a key without one lies in the range, its upper
  -- end excluded, and belonged to no key of any endpoint before.
  pub allocate_ports_fresh :
      (k e' k' : Text) (port : ℕ)
      → IsWellFormed pa
      → lookup pa e k ≡ none
      → lookup a.state e k ≡ some port
      → (start_port ≤ port) × (port < end_port) × (lookup pa e' k' ≢ some port)
  allocate_ports_fresh k e' k' port w old new =
      let (p, loop, result) = allocate_ports-Run pa e keys draws returns in
      let grown =
        ensure_ports-Extends pa.port_lookup_reverse (start pa e draws) p keys drawn loop in
      let new' : lookup (finish pa e keys p).state e k ≡ some port =
        ap (λ (s : Allocated). lookup s.state e k) result ∙ new in
      let found : Dict.lookup k p.ports ≡ some port =
        ground (arith, lookup-finish pa e keys p e k) in
      let facts = grown.fresh k port (lookup-start pa e k draws ∙ old) found in
      (facts.1, facts.2, λ taken. cc (w.complete e' k' port taken, facts.0))

  -- The call reports an update exactly when a key had no port or a port had a key not asked for.
  pub updated-allocate_ports : a.updated ≡ (
      any_missing (ports_at e (ensure_endpoint e pa.port_lookup)) keys
      || any_stale keys (ports_at e (ensure_endpoint e pa.port_lookup)))
  updated-allocate_ports =
      let (p, loop, result) = allocate_ports-Run pa e keys draws returns in
      rw (
        ← result,
        updated-ensure_ports pa.port_lookup_reverse (start pa e draws) p keys loop,
        any_stale-ensure_ports pa.port_lookup_reverse keys (start pa e draws) p keys (λ k m. m)
            loop,
      )
