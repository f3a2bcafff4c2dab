-- ===== src/Ports/State.antt =====
-- The tables of the allocator of internal/port-lookup/allocator.go and their invariant.
use kubelb_ce.Base.{ℕ, ◌≡◌, refl, inl, inr, Bool-cases, true, ◌||◌}
use kubelb_ce.Base.{none, some, List, [], ◌∷◌, ◌++◌, arith}
use kubelb_ce.Base.{text_eq, nat_eq, ◌==◌, contains, if◌then◌else◌}
use kubelb_ce.Base.Dict
use kubelb_ce.Base.Dict.{Dict, NodupKeys, AllValues}
use kubelb_ce.Base.Text.{Text}
use kubelb_ce.Ports.{
  LookupTable, PortAllocator, lookup_in, lookup, ports_of, all_ports, recompute_available_ports,
  new_port_allocator,
}

-- A Go map of maps: no key is listed twice on either level.
pub record IsTable (table : LookupTable) : Type 0 where
  pub outer : NodupKeys table
  pub inner : AllValues NodupKeys table

-- Some endpoint has the port under some key.
abbrev pub InUse : LookupTable → ℕ → Type 0
InUse table port = (e : Text) × (k : Text) × (lookup_in table e k ≡ some port)

pub record IsWellFormed (pa : PortAllocator) : Type 0 where
  pub table : IsTable pa.port_lookup
  pub complete :
      (e k : Text) (port : ℕ)
      → lookup pa e k ≡ some port
      → contains pa.port_lookup_reverse port ≡ true
  pub sound : (port : ℕ) → contains pa.port_lookup_reverse port ≡ true → InUse pa.port_lookup port

pub contains-append :
    (xs ys : List ℕ) (x : ℕ) → contains (xs ++ ys) x ≡ (contains xs x || contains ys x)
contains-append [] ys x = refl
contains-append (y ∷ xs) ys x = ground (arith, contains-append xs ys x)

contains-ports_of :
    (ports : Dict Text ℕ) (k : Text) (port : ℕ)
    → Dict.lookup k ports ≡ some port
    → contains (ports_of ports) port ≡ true
unfolding ports_of
contains-ports_of [] k port h = absurd (cc (h, Dict.lookup-nil {V = ℕ} k))
contains-ports_of ((j, p) ∷ ports) k port h =
    ground (arith, Dict.lookup-cons k j p ports, contains-ports_of ports k port)

lookup_of_contains :
    (ports : Dict Text ℕ) (port : ℕ)
    → NodupKeys ports
    → contains (ports_of ports) port ≡ true
    → (k : Text) × (Dict.lookup k ports ≡ some port)
unfolding ports_of
lookup_of_contains [] port u h = absurd (cc)
lookup_of_contains ((j, p) ∷ ports) port (fresh, u) h = elim (Bool-cases (port == p)) [
  | inl same ↦ (j, rw Dict.lookup-cons (ground arith))
  | inr other ↦
      let (k, found) = lookup_of_contains ports port u (ground arith) in
      (k, rw Dict.lookup-cons (ground arith))
]

lookup_in-cons :
    (j e k : Text) (ports : Dict Text ℕ) (table : LookupTable)
    → lookup_in ((j, ports) ∷ table) e k
      ≡ (if e == j then Dict.lookup k ports else lookup_in table e k)
unfolding lookup_in Dict.lookup
lookup_in-cons j e k ports table = ground arith

pub lookup_in-insert :
    (j e k : Text) (ports : Dict Text ℕ) (table : LookupTable)
    → lookup_in (Dict.insert j ports table) e k
      ≡ (if e == j then Dict.lookup k ports else lookup_in table e k)
unfolding lookup_in
lookup_in-insert j e k ports table = ground (arith, Dict.lookup-insert e j ports table)

pub lookup_in-erase :
    (j e k : Text) (table : LookupTable)
    → lookup_in (Dict.erase j table) e k ≡ (if e == j then none else lookup_in table e k)
unfolding lookup_in
lookup_in-erase j e k table = ground (arith, Dict.lookup-erase e j table)

contains-all_ports :
    (table : LookupTable) (e k : Text) (port : ℕ)
    → lookup_in table e k ≡ some port
    → contains (all_ports table) port ≡ true
unfolding all_ports
contains-all_ports [] e k port h = unfold lookup_in Dict.lookup in absurd (cc)
contains-all_ports ((j, ports) ∷ table) e k port h = rw contains-append (
    ground (
      arith,
      lookup_in-cons j e k ports table,
      contains-ports_of ports k port,
      contains-all_ports table e k port,
    ))

lookup_in_of_fresh :
    (table : LookupTable) (e k : Text) → Dict.lookup e table ≡ none → lookup_in table e k ≡ none
unfolding lookup_in
lookup_in_of_fresh table e k h = ground arith

contains-InUse :
    (table : LookupTable) (port : ℕ)
    → IsTable table
    → contains (all_ports table) port ≡ true
    → InUse table port
unfolding all_ports
contains-InUse [] port t h = absurd (cc)
contains-InUse ((j, ports) ∷ table) port t h = elim (Bool-cases (contains (ports_of ports) port)) [
  | inl here ↦
      let (k, found) = lookup_of_contains ports port t.inner.0 here in
      (j, k, ground (arith, lookup_in-cons j j k ports table))
  | inr there ↦
      let rest : IsTable table = record { outer = t.outer.1; inner = t.inner.1 } in
      let (e, k, found) = contains-InUse table port rest (rw (contains-append, there) at h) in
      (
        e,
        k,
        ground (
          arith,
          found,
          t.outer.0,
          lookup_in-cons j e k ports table,
          lookup_in_of_fresh table e k,
        ),
      )
]

-- `recomputeAvailablePorts` establishes the invariant from any lookup table.
pub recompute_available_ports-IsWellFormed :
    (pa : PortAllocator) → IsTable pa.port_lookup → IsWellFormed (recompute_available_ports pa)
unfolding recompute_available_ports lookup
recompute_available_ports-IsWellFormed pa t = record {
  table = t;
  complete = λ e k port h. contains-all_ports pa.port_lookup e k port h;
  sound = λ port h. contains-InUse pa.port_lookup port t h;
}

-- The invariant holds of a new allocator.
pub new_port_allocator-IsWellFormed : IsWellFormed new_port_allocator
unfolding recompute_available_ports all_ports
new_port_allocator-IsWellFormed =
    recompute_available_ports-IsWellFormed new_port_allocator (record { outer = tt; inner = tt })

pub insert-IsTable :
    (j : Text) (ports : Dict Text ℕ) (table : LookupTable)
    → NodupKeys ports
    → IsTable table
    → IsTable (Dict.insert j ports table)
insert-IsTable j ports table u t = record {
  outer = Dict.insert-NodupKeys j ports table t.outer;
  inner = Dict.insert-AllValues NodupKeys j ports table u t.inner;
}

pub erase-IsTable : (j : Text) (table : LookupTable) → IsTable table → IsTable (Dict.erase j table)
erase-IsTable j table t = record {
  outer = Dict.erase-NodupKeys j table t.outer;
  inner = Dict.erase-AllValues NodupKeys j table t.inner;
}
