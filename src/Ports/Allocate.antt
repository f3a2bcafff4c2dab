-- ===== src/Ports/Allocate.antt =====
-- `AllocatePorts`: what it keeps, adds, drops and reports.
use kubelb_ce.Base.{ℕ, ◌≡◌, ◌∙◌}
use kubelb_ce.Base.{false, ◌||◌, none, some, List, [], arith}
use kubelb_ce.Base.{text_eq, nat_eq, ◌==◌, contains, >>=-eq-some, if◌then◌else◌}
use kubelb_ce.Base.Dict
use kubelb_ce.Base.Dict.{Dict, NodupKeys}
use kubelb_ce.Base.Text.{Text}
use kubelb_ce.Ports.{
  LookupTable, PortAllocator, Progress, Allocated, lookup_in, lookup, ports_at, ensure_endpoint,
  ensure_ports, remove_stale, any_stale, allocate_ports, recompute_available_ports,
}
use kubelb_ce.Ports.State.{lookup_in-insert}
use kubelb_ce.Ports.Stale.{lookup-remove_stale}

-- The state in which the first loop starts.
abbrev pub start : PortAllocator → Text → List ℕ → Progress
start pa e draws = record {
  ports = ports_at e (ensure_endpoint e pa.port_lookup);
  updated = false;
  draws = draws;
}

-- What the rest of the call makes of the state in which that loop ends.
abbrev pub finish : PortAllocator → Text → List Text → Progress → Allocated
finish pa e keys p = record {
  state = recompute_available_ports (record pa {
    port_lookup = Dict.insert e (remove_stale keys p.ports) (ensure_endpoint e pa.port_lookup);
  });
  updated = p.updated || any_stale keys p.ports;
  draws = p.draws;
}

-- The parts of a call that returns.
abbrev pub Run : PortAllocator → Text → List Text → List ℕ → Allocated → Type 0
Run pa e keys draws a =
    (p : Progress) × (ensure_ports pa.port_lookup_reverse (start pa e draws) keys ≡ some p)
    × (finish pa e keys p ≡ a)

pub allocate_ports-Run :
    (pa : PortAllocator) (e : Text) (keys : List Text) (draws : List ℕ) {a : Allocated}
    → allocate_ports pa e keys draws ≡ some a
    → Run pa e keys draws a
unfolding allocate_ports
allocate_ports-Run pa e keys draws {a} h =
    let (p, loop, result) =
      >>=-eq-some (ensure_ports pa.port_lookup_reverse (start pa e draws) keys) _ h in
    (p, loop, cc result)

pub lookup-ensure_endpoint :
    (e e' k : Text) (table : LookupTable)
    → lookup_in (ensure_endpoint e table) e' k ≡ lookup_in table e' k
unfolding ensure_endpoint lookup_in Dict.has
lookup-ensure_endpoint e e' k table =
    ground (arith, Dict.lookup-insert e' e [] table, Dict.lookup-nil {V = ℕ} k)

pub lookup-ports_at :
    (e k : Text) (table : LookupTable) → Dict.lookup k (ports_at e table) ≡ lookup_in table e k
unfolding ports_at lookup_in
lookup-ports_at e k table = ground (arith, Dict.lookup-nil {V = ℕ} k)

pub lookup-start :
    (pa : PortAllocator) (e k : Text) (draws : List ℕ)
    → Dict.lookup k (start pa e draws).ports ≡ lookup pa e k
unfolding lookup
lookup-start pa e k draws = lookup-ports_at e k _ ∙ lookup-ensure_endpoint e e k pa.port_lookup

-- The table after the call, at every pair of keys.
pub lookup-finish :
    (pa : PortAllocator) (e : Text) (keys : List Text) (p : Progress) (e' k : Text)
    → lookup (finish pa e keys p).state e' k ≡ (
        if e' == e
        then (if contains keys k then Dict.lookup k p.ports else none)
        else lookup pa e' k)
unfolding lookup recompute_available_ports
lookup-finish pa e keys p e' k = rw (lookup_in-insert, lookup-remove_stale, lookup-ensure_endpoint)
