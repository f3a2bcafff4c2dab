-- ===== src/Ports/Clash.antt =====
-- Two new keys in one call of `AllocatePorts` (internal/port-lookup/allocator.go).
use kubelb_ce.Base.{ℕ, ◌+◌, ◌≡◌, ◌≢◌, refl, ◌∙◌}
use kubelb_ce.Base.{true, false, none, some, List, [], ◌∷◌, arith}
use kubelb_ce.Base.{text_eq, nat_eq, contains}
use kubelb_ce.Base.Dict
use kubelb_ce.Base.Text.{Text}
use kubelb_ce.Ports.{
  PortAllocator, Progress, Allocated, start_port, lookup, allocate_port, ensure_port, ensure_ports,
  allocate_ports,
}
use kubelb_ce.Ports.Allocate.{start, finish, lookup-start, lookup-finish}

allocate_port_first :
    (reverse draws : List ℕ) (d : ℕ)
    → contains reverse (d + start_port) ≡ false
    → allocate_port reverse (d ∷ draws) ≡ some (d + start_port, draws)
unfolding allocate_port
allocate_port_first reverse draws d free = rw free

ensure_port_first :
    (reverse : List ℕ) (p : Progress) (k : Text) (d : ℕ) (draws : List ℕ)
    → Dict.has k p.ports ≡ false
    → p.draws ≡ d ∷ draws
    → contains reverse (d + start_port) ≡ false
    → ensure_port reverse p k
      ≡ some
          (record { ports = Dict.insert k (d + start_port) p.ports; updated = true; draws = draws })
unfolding ensure_port
ensure_port_first reverse p k d draws absent drawn free =
    rw (absent, drawn, allocate_port_first reverse draws d free)

-- If `rand.Intn` returns one free value twice in a row, then a call gives one port to both of two new
-- keys of an endpoint.
pub allocate_ports_clash :
    (pa : PortAllocator) (e k j : Text) (d : ℕ) (draws : List ℕ)
    → k ≢ j
    → lookup pa e k ≡ none
    → lookup pa e j ≡ none
    → contains pa.port_lookup_reverse (d + start_port) ≡ false
    → (a : Allocated) × (allocate_ports pa e (k ∷ j ∷ []) (d ∷ d ∷ draws) ≡ some a)
      × (lookup a.state e k ≡ some (d + start_port))
      × (lookup a.state e j ≡ some (d + start_port))
unfolding allocate_ports ensure_ports
allocate_ports_clash pa e k j d draws ne no_k no_j free =
    let port = d + start_port in
    let s = start pa e (d ∷ d ∷ draws) in
    let one : Progress = record {
      ports = Dict.insert k port s.ports;
      updated = true;
      draws = d ∷ draws;
    } in
    let two : Progress = record {
      ports = Dict.insert j port one.ports;
      updated = true;
      draws = draws;
    } in
    let absent_k = Dict.has_of_none k s.ports (lookup-start pa e k s.draws ∙ no_k) in
    let absent_j =
      Dict.has_of_none j one.ports
        (ground (arith, Dict.lookup-insert j k port s.ports, lookup-start pa e j s.draws)) in
    (
      finish pa e (k ∷ j ∷ []) two,
      rw (
        ensure_port_first pa.port_lookup_reverse s k d (d ∷ draws) absent_k refl free,
        ensure_port_first pa.port_lookup_reverse one j d draws absent_j refl free,
      ),
      ground (
        arith,
        lookup-finish pa e (k ∷ j ∷ []) two e k,
        Dict.lookup-insert k j port one.ports,
        Dict.lookup-insert k k port s.ports,
      ),
      ground
          (arith, lookup-finish pa e (k ∷ j ∷ []) two e j, Dict.lookup-insert j j port one.ports),
    )
