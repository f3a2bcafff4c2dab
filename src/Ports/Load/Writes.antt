-- ===== src/Ports/Load/Writes.antt =====
-- What the writes of `LoadState` leave in the table.
use kubelb_ce.Base.{◌≡◌, refl, ◌∙◌}
use kubelb_ce.Base.{Bool, false, ◌||◌, ◌&&◌, Option, none, some, List, [], ◌∷◌, arith}
use kubelb_ce.Base.{text_eq, ◌==◌, if◌then◌else◌}
use kubelb_ce.Base.Dict
use kubelb_ce.Base.Dict.{NodupKeys}
use kubelb_ce.Base.Lists.{All}
use kubelb_ce.Base.Text.{Text}
use kubelb_ce.Api.{LoadBalancer, Route}
use kubelb_ce.Ports.{
  LookupTable, PortAllocator, lookup_in, lookup, ports_at, recompute_available_ports,
}
use kubelb_ce.Ports.State.{
  IsTable, IsWellFormed, lookup_in-insert, insert-IsTable, recompute_available_ports-IsWellFormed,
}
use kubelb_ce.Ports.Allocate.{lookup-ensure_endpoint, lookup-ports_at}
use kubelb_ce.Ports.Contract.{ensure_endpoint-IsTable, ports_at-NodupKeys}
use kubelb_ce.Ports.Load.{Write, ensure, put, write, write_all, state_writes, load_state}

-- The write sets the port of these keys.
unfoldable pub sets : Text → Text → Write → Bool
sets e k (ensure e') = false
sets e k (put e' k' port) = e == e' && k == k'

unfoldable pub any_sets : Text → Text → List Write → Bool
any_sets e k [] = false
any_sets e k (w ∷ ws) = sets e k w || any_sets e k ws

-- The write agrees with the ports that an allocator holds.
abbrev pub Records : PortAllocator → Write → Type 0
Records pa (ensure e) = Unit
Records pa (put e k port) = lookup pa e k ≡ some port

write-IsTable : (table : LookupTable) (w : Write) → IsTable table → IsTable (write table w)
unfolding write
write-IsTable table (ensure e) t = ensure_endpoint-IsTable e table t
write-IsTable table (put e k port) t =
    insert-IsTable e _ table (Dict.insert-NodupKeys k port _ (ports_at-NodupKeys e table t)) t

write_all-IsTable :
    (table : LookupTable) (ws : List Write) → IsTable table → IsTable (write_all table ws)
unfolding write_all
write_all-IsTable table [] t = t
write_all-IsTable table (w ∷ ws) t = write_all-IsTable (write table w) ws (write-IsTable table w t)

-- One write that agrees with the allocator, on a pair of keys that the table has right or not at all.
lookup-write :
    (pa : PortAllocator) (table : LookupTable) (w : Write) (e k : Text)
    → Records pa w
    → lookup_in (write table w) e k ≡ (if sets e k w then lookup pa e k else lookup_in table e k)
unfolding write sets
lookup-write pa table (ensure e') e k r = lookup-ensure_endpoint e' e k table
lookup-write pa table (put e' k' port) e k r =
    rw lookup_in-insert
      (ground (arith, Dict.lookup-insert k k' port (ports_at e' table), lookup-ports_at e' k table))

lookup-write_all :
    (pa : PortAllocator) (table : LookupTable) (ws : List Write) (e k : Text)
    → All (Records pa) ws
    → lookup_in (write_all table ws) e k
      ≡ (if any_sets e k ws then lookup pa e k else lookup_in table e k)
unfolding write_all any_sets
lookup-write_all pa table [] e k r = refl
lookup-write_all pa table (w ∷ ws) e k (r, rs) =
    lookup-write_all pa (write table w) ws e k rs ∙ ground (arith, lookup-write pa table w e k r)

-- `LoadState` keeps the invariant of the allocator, whether it succeeds or fails.
pub load_state-IsWellFormed :
    (pa : PortAllocator) (lbs : Option (List LoadBalancer)) (routes : Option (List Route))
    → IsWellFormed pa
    → IsWellFormed (load_state pa lbs routes).0
unfolding load_state
load_state-IsWellFormed pa none routes w = w
load_state-IsWellFormed pa (some lbs) none w = w
load_state-IsWellFormed pa (some lbs) (some routes) w =
    recompute_available_ports-IsWellFormed _
      (write_all-IsTable [] (state_writes lbs routes) (record { outer = tt; inner = tt }))

-- After a load of writes that agree with an allocator, a pair of keys has the port of that allocator if
-- a write sets it, and none otherwise.
pub lookup-load_state :
    (old new : PortAllocator) (lbs : List LoadBalancer) (routes : List Route) (e k : Text)
    → All (Records old) (state_writes lbs routes)
    → lookup (load_state new (some lbs) (some routes)).0 e k
      ≡ (if any_sets e k (state_writes lbs routes) then lookup old e k else none)
unfolding load_state recompute_available_ports lookup
lookup-load_state old new lbs routes e k r =
    lookup-write_all old [] (state_writes lbs routes) e k r ∙ (unfold lookup_in Dict.lookup in refl)
