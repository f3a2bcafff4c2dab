-- ===== src/Ports/Remove.antt =====
-- `DeallocatePorts` and `DeallocateEndpoints`.
use kubelb_ce.Base.{◌≡◌, refl, inl, inr, Option-cases}
use kubelb_ce.Base.{◌&&◌, none, List, [], ◌∷◌, arith}
use kubelb_ce.Base.{text_eq, ◌==◌, contains, if◌then◌else◌}
use kubelb_ce.Base.Dict
use kubelb_ce.Base.Dict.{Dict, NodupKeys, AllValues}
use kubelb_ce.Base.Text.{Text}
use kubelb_ce.Ports.{
  LookupTable, PortAllocator, lookup_in, lookup, delete_all, deallocate_ports, deallocate_endpoints,
  recompute_available_ports,
}
use kubelb_ce.Ports.State.{
  IsTable, IsWellFormed, lookup_in-insert, lookup_in-erase, insert-IsTable, erase-IsTable,
  recompute_available_ports-IsWellFormed,
}

lookup-delete_all {ℓ} :
    {V : Type ℓ} (ks : List Text) (d : Dict Text V) (k : Text)
    → Dict.lookup k (delete_all ks d) ≡ (if contains ks k then none else Dict.lookup k d)
unfolding delete_all
lookup-delete_all [] d k = refl
lookup-delete_all (j ∷ ks) d k =
    ground (arith, lookup-delete_all ks (Dict.erase j d) k, Dict.lookup-erase k j d)

delete_all-NodupKeys {ℓ} :
    {V : Type ℓ} (ks : List Text) (d : Dict Text V) → NodupKeys d → NodupKeys (delete_all ks d)
unfolding delete_all
delete_all-NodupKeys [] d u = u
delete_all-NodupKeys (k ∷ ks) d u =
    delete_all-NodupKeys ks (Dict.erase k d) (Dict.erase-NodupKeys k d u)

lookup_in-delete_all :
    (ks : List Text) (table : LookupTable) (e k : Text)
    → lookup_in (delete_all ks table) e k ≡ (if contains ks e then none else lookup_in table e k)
unfolding delete_all
lookup_in-delete_all [] table e k = refl
lookup_in-delete_all (j ∷ ks) table e k =
    ground (arith, lookup_in-delete_all ks (Dict.erase j table) e k, lookup_in-erase j e k table)

delete_all-IsTable :
    (ks : List Text) (table : LookupTable) → IsTable table → IsTable (delete_all ks table)
unfolding delete_all
delete_all-IsTable [] table t = t
delete_all-IsTable (k ∷ ks) table t =
    delete_all-IsTable ks (Dict.erase k table) (erase-IsTable k table t)

module _ (pa : PortAllocator) where
  -- Removing endpoints keeps the invariant of the allocator.
  pub deallocate_endpoints-IsWellFormed :
      (ks : List Text) → IsWellFormed pa → IsWellFormed (deallocate_endpoints pa ks)
  unfolding deallocate_endpoints
  deallocate_endpoints-IsWellFormed ks w =
      recompute_available_ports-IsWellFormed _ (delete_all-IsTable ks pa.port_lookup w.table)

  -- On `DeallocateEndpoints` the named endpoints lose all their ports, and the others keep theirs.
  pub lookup-deallocate_endpoints :
      (ks : List Text) (e k : Text)
      → lookup (deallocate_endpoints pa ks) e k ≡ (if contains ks e then none else lookup pa e k)
  unfolding deallocate_endpoints recompute_available_ports lookup
  lookup-deallocate_endpoints ks e k = lookup_in-delete_all ks pa.port_lookup e k

  -- Removing ports keeps the invariant of the allocator.
  pub deallocate_ports-IsWellFormed :
      (e : Text) (ks : List Text) → IsWellFormed pa → IsWellFormed (deallocate_ports pa e ks).0
  unfolding deallocate_ports
  deallocate_ports-IsWellFormed e ks w = elim (Option-cases (Dict.lookup e pa.port_lookup)) [
    | inl missing ↦
        rw (missing, deallocate_ports) (recompute_available_ports-IsWellFormed pa w.table)
    | inr (ports, found) ↦
        rw (found, deallocate_ports)
          (recompute_available_ports-IsWellFormed _ (
            insert-IsTable e _ pa.port_lookup
              (delete_all-NodupKeys ks ports
                (Dict.lookup-AllValues NodupKeys e pa.port_lookup w.table.inner found))
              w.table))
  ]

  -- On `DeallocatePorts` the named port keys of the endpoint lose their ports, and every other pair of
  -- keys keeps its own.
  pub lookup-deallocate_ports :
      (e : Text) (ks : List Text) (e' k : Text)
      → lookup (deallocate_ports pa e ks).0 e' k
        ≡ (if e' == e && contains ks k then none else lookup pa e' k)
  unfolding deallocate_ports recompute_available_ports lookup
  lookup-deallocate_ports e ks e' k = elim (Option-cases (Dict.lookup e pa.port_lookup)) [
    | inl missing ↦ rw (missing, deallocate_ports) (unfold lookup_in in ground arith)
    | inr (ports, found) ↦
        rw (found, deallocate_ports, lookup_in-insert, lookup-delete_all)
          (unfold lookup_in in ground arith)
  ]
