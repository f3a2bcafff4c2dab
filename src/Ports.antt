-- ===== src/Ports.antt =====
-- The port allocator of internal/port-lookup/allocator.go.
-- `sync.Mutex` makes each operation atomic, so an operation is a function on the state. The values
-- that `rand.Intn` returns are a list that each call takes from the front; `none` says that the list
-- ended inside the loop of `allocatePort`. The metrics are not modelled.
pub mod Draws
pub mod State
pub mod Loops
pub mod Missing
pub mod Stale
pub mod Allocate
pub mod Contract
pub mod Repeat
pub mod Ending
pub mod Remove
pub mod Clash
pub mod Mapper
pub mod Load
use kubelb_ce.Base.{
  ℕ, ◌+◌, ◌-◌, Bool, true, false, ◌||◌, not, Option, none, some, List, [], ◌∷◌, ◌++◌,
}
use kubelb_ce.Base.{Eq, text_eq, nat_eq, ◌==◌, contains, ◌>>=◌, if◌then◌else◌}
use kubelb_ce.Base.Dict
use kubelb_ce.Base.Dict.{Dict}
use kubelb_ce.Base.Text.{Text}

abbrev pub start_port : ℕ
start_port = 10000

abbrev pub end_port : ℕ
end_port = 65535

-- `LookupTable`: endpoint keys to port keys to ports.
abbrev pub LookupTable : Type 0
LookupTable = Dict Text (Dict Text ℕ)

-- The reverse map holds `true` alone, so it is the list of its keys.
pub record PortAllocator : Type 0 where
  pub port_lookup : LookupTable
  pub port_lookup_reverse : List ℕ

abbrev pub new_port_allocator : PortAllocator
new_port_allocator = record { port_lookup = []; port_lookup_reverse = [] }

-- `Lookup` in a table. The pair (-1, false) of the source is `none`.
unfoldable pub lookup_in : LookupTable → Text → Text → Option ℕ
lookup_in table endpoint_key port_key = elim (Dict.lookup endpoint_key table) [
  | none ↦ none
  | some ports ↦ Dict.lookup port_key ports
]

unfoldable pub lookup : PortAllocator → Text → Text → Option ℕ
lookup pa = lookup_in pa.port_lookup

-- All ports of the two nested loops of `recomputeAvailablePorts`.
unfoldable pub ports_of : Dict Text ℕ → List ℕ
ports_of [] = []
ports_of ((k, port) ∷ ports) = port ∷ ports_of ports

unfoldable pub all_ports : LookupTable → List ℕ
all_ports [] = []
all_ports ((k, ports) ∷ table) = ports_of ports ++ all_ports table

unfoldable pub recompute_available_ports : PortAllocator → PortAllocator
recompute_available_ports pa = record pa { port_lookup_reverse = all_ports pa.port_lookup }

-- The loop draws until the port is in no use. `rand.Intn(endPort-startPort)` gave the draw.
unfoldable pub allocate_port : List ℕ → List ℕ → Option (ℕ × List ℕ)
allocate_port reverse [] = none
allocate_port reverse (draw ∷ draws) =
    let port = draw + start_port in
    let again = allocate_port reverse draws in
    if contains reverse port then again else some (port, draws)

-- `if _, exists := pa.portLookup[endpointKey]; !exists { … }`
unfoldable pub ensure_endpoint : Text → LookupTable → LookupTable
ensure_endpoint key table = if Dict.has key table then table else Dict.insert key [] table

-- The state of the loop over the port keys.
pub record Progress : Type 0 where
  pub ports : Dict Text ℕ
  pub updated : Bool
  pub draws : List ℕ

-- One round of the first loop of `AllocatePorts`. The reverse table is not written between rounds.
unfoldable pub ensure_port : List ℕ → Progress → Text → Option Progress
ensure_port reverse p k =
    if Dict.has k p.ports
    then some p
    else allocate_port reverse p.draws >>= λ (port, draws).
        some (record { ports = Dict.insert k port p.ports; updated = true; draws = draws })

unfoldable pub ensure_ports : List ℕ → Progress → List Text → Option Progress
ensure_ports reverse p [] = some p
ensure_ports reverse p (k ∷ ks) = ensure_port reverse p k >>= λ q. ensure_ports reverse q ks

-- The second loop: the ports whose key is not asked for go.
unfoldable pub remove_stale : List Text → Dict Text ℕ → Dict Text ℕ
remove_stale keys [] = []
remove_stale keys ((k, port) ∷ ports) =
    let rest = remove_stale keys ports in if contains keys k then (k, port) ∷ rest else rest

unfoldable pub any_stale : List Text → Dict Text ℕ → Bool
any_stale keys [] = false
any_stale keys ((k, port) ∷ ports) = not (contains keys k) || any_stale keys ports

-- What `AllocatePorts` leaves behind: the state, the returned flag, and the draws not yet taken.
pub record Allocated : Type 0 where
  pub state : PortAllocator
  pub updated : Bool
  pub draws : List ℕ

-- The inner map of an endpoint, which `ensure_endpoint` has made.
unfoldable pub ports_at : Text → LookupTable → Dict Text ℕ
ports_at key table = elim (Dict.lookup key table) [ none ↦ [] | some ports ↦ ports ]

unfoldable pub allocate_ports : PortAllocator → Text → List Text → List ℕ → Option Allocated
allocate_ports pa endpoint_key portkeys draws =
    let table = ensure_endpoint endpoint_key pa.port_lookup in
    let before : Progress = record {
      ports = ports_at endpoint_key table;
      updated = false;
      draws = draws;
    } in
    ensure_ports pa.port_lookup_reverse before portkeys >>= λ p. some (record {
      state = recompute_available_ports (record pa {
        port_lookup = Dict.insert endpoint_key (remove_stale portkeys p.ports) table;
      });
      updated = p.updated || any_stale portkeys p.ports;
      draws = p.draws;
    })

unfoldable pub delete_all {ℓ} : {V : Type ℓ} → List Text → Dict Text V → Dict Text V
delete_all [] d = d
delete_all (k ∷ ks) d = delete_all ks (Dict.erase k d)

abbrev non_empty : List Text → Bool
non_empty [] = false
non_empty (k ∷ ks) = true

unfoldable pub deallocate_ports : PortAllocator → Text → List Text → PortAllocator × Bool
deallocate_ports pa endpoint_key portkeys = elim (Dict.lookup endpoint_key pa.port_lookup) [
  | none ↦ (recompute_available_ports pa, false)
  | some ports ↦ (
    recompute_available_ports (record pa {
      port_lookup = Dict.insert endpoint_key (delete_all portkeys ports) pa.port_lookup;
    }),
    non_empty portkeys,
  )
]

unfoldable pub deallocate_endpoints : PortAllocator → List Text → PortAllocator
deallocate_endpoints pa endpoint_keys =
    recompute_available_ports (record pa { port_lookup = delete_all endpoint_keys pa.port_lookup })
