-- ===== src/Ports/Repeat.antt =====
-- A repeated call of `AllocatePorts` (internal/port-lookup/allocator.go).
use kubelb_ce.Base.{ℕ, ◌≡◌}
use kubelb_ce.Base.{false, some, List, arith}
use kubelb_ce.Base.{text_eq}
use kubelb_ce.Base.Dict
use kubelb_ce.Base.Dict.{Dict}
use kubelb_ce.Base.Text.{Text}
use kubelb_ce.Ports.{
  LookupTable, PortAllocator, Allocated, ports_at, ensure_endpoint, remove_stale, any_stale,
  allocate_ports, recompute_available_ports,
}
use kubelb_ce.Ports.Missing.{
  any_missing, has-ensure_ports, ensure_ports_of_present, any_missing_of_has,
}
use kubelb_ce.Ports.Stale.{lookup-remove_stale, any_stale-remove_stale, remove_stale_of_none}
use kubelb_ce.Ports.Allocate.{start, finish, allocate_ports-Run}

ensure_endpoint_old :
    (e : Text) (table : LookupTable) {ports : Dict Text ℕ}
    → Dict.lookup e table ≡ some ports
    → (ensure_endpoint e table ≡ table) × (ports_at e table ≡ ports)
unfolding ensure_endpoint ports_at Dict.has
ensure_endpoint_old e table h = ground arith

-- A call on an endpoint whose ports are those asked for, in any state of the reverse table.
allocate_ports_settled :
    (pa : PortAllocator) (e : Text) (keys : List Text) (draws : List ℕ) {ports : Dict Text ℕ}
    → Dict.lookup e pa.port_lookup ≡ some ports
    → any_missing ports keys ≡ false
    → any_stale keys ports ≡ false
    → allocate_ports pa e keys draws
      ≡ some (record { state = recompute_available_ports pa; updated = false; draws = draws })
unfolding allocate_ports recompute_available_ports
allocate_ports_settled pa e keys draws {ports} found full clean =
    let (old, there) = ensure_endpoint_old e pa.port_lookup found in
    let loop =
      ensure_ports_of_present pa.port_lookup_reverse
        (record { ports = ports; updated = false; draws = draws }) keys full in
    rw (
      old,
      there,
      loop,
      remove_stale_of_none keys ports clean,
      clean,
      Dict.insert-lookup_self e pa.port_lookup found,
    )

module _ (pa : PortAllocator) (e : Text) (keys : List Text) (draws : List ℕ) {a : Allocated}
    (returns : allocate_ports pa e keys draws ≡ some a) where
  -- After a call that returns, a second call with the same keys takes no draw, reports no update, and returns the same state.
  pub allocate_ports_again :
      (draws' : List ℕ)
      → allocate_ports a.state e keys draws'
        ≡ some (record { state = a.state; updated = false; draws = draws' })
  unfolding recompute_available_ports
  allocate_ports_again draws' =
      let (p, loop, result) = allocate_ports-Run pa e keys draws returns in
      let left = remove_stale keys p.ports in
      let full = any_missing_of_has left keys λ k asked.
        let (port, found) =
          Dict.has-eq-true k p.ports
            (has-ensure_ports pa.port_lookup_reverse (start pa e draws) p keys k loop asked) in
        Dict.has_of_lookup k left {v = port} (ground (arith, lookup-remove_stale keys p.ports k)) in
      rw (← result) (
        allocate_ports_settled (finish pa e keys p).state e keys draws' {ports = left}
          (ground (arith, Dict.lookup-insert e e left (ensure_endpoint e pa.port_lookup))) full
          (any_stale-remove_stale keys p.ports))
