-- ===== src/Snapshot/Entries.antt =====
-- Lemmas on the clusters and listeners that `MapSnapshot` of internal/envoy/resource.go adds.
use kubelb_ce.Base.{ℕ, ◌≡◌, refl, inl, inr, Bool-cases}
use kubelb_ce.Base.{Bool, true, ◌||◌, List, [], ◌∷◌, ◌++◌, arith}
use kubelb_ce.Base.{text_eq, ◌==◌, contains}
use kubelb_ce.Base.Lists.{All}
use kubelb_ce.Base.Text.{Text}
use kubelb_ce.Snapshot.{Resources}
use kubelb_ce.Snapshot.Xds.{
  Cluster, Listener, tcp_listener, udp_listener, http_listener, l4_listeners, route_listeners,
  target_cluster, tcp, udp,
}

unfoldable pub names : List Cluster → List Text
names [] = []
names (c ∷ cs) = c.name ∷ names cs

-- The listener's cluster is among the clusters.
abbrev pub HasCluster : List Cluster → Listener → Type 0
HasCluster cs l = contains (names cs) (target_cluster l.filter) ≡ true

abbrev pub IsConsistent : List Cluster → List Listener → Type 0
IsConsistent cs = All (HasCluster cs)

contains-names-append :
    (cs ds : List Cluster) (n : Text)
    → contains (names (cs ++ ds)) n ≡ (contains (names cs) n || contains (names ds) n)
unfolding names
contains-names-append [] ds n = refl
contains-names-append (c ∷ cs) ds n = ground (arith, contains-names-append cs ds n)

IsConsistent-append :
    (cs ds : List Cluster) (ls ms : List Listener)
    → IsConsistent cs ls
    → IsConsistent (cs ++ ds) ms
    → IsConsistent (cs ++ ds) (ls ++ ms)
IsConsistent-append cs ds [] ms h k = k
IsConsistent-append cs ds (l ∷ ls) ms (h, hs) k = (
  ground (arith, contains-names-append cs ds (target_cluster l.filter)),
  IsConsistent-append cs ds ls ms hs k,
)

-- A cluster and the listeners that name it may be added together.
pub IsConsistent-add :
    (cs : List Cluster) (c : Cluster) (ls ms : List Listener)
    → IsConsistent cs ls
    → All (λ (m : Listener). target_cluster m.filter ≡ c.name) ms
    → IsConsistent (cs ++ c ∷ []) (ls ++ ms)
unfolding names
IsConsistent-add cs c ls ms h k = IsConsistent-append cs (c ∷ []) ls ms h (go ms k)
  where
    go :
        (ms : List Listener)
        → All (λ (m : Listener). target_cluster m.filter ≡ c.name) ms
        → IsConsistent (cs ++ c ∷ []) ms
    go [] k = tt
    go (m ∷ ms) (e, k) =
        (ground (arith, contains-names-append cs (c ∷ []) (target_cluster m.filter)), go ms k)

pub l4_listeners_target :
    (key protocol : Text) (port : ℕ)
    → All (λ (m : Listener). target_cluster m.filter ≡ key) (l4_listeners key protocol port)
unfolding l4_listeners tcp_listener udp_listener
l4_listeners_target key protocol port = elim (Bool-cases (protocol == tcp)) [
  | inl is_tcp ↦ rw is_tcp (refl, tt)
  | inr not_tcp ↦ elim (Bool-cases (protocol == udp)) [
    | inl is_udp ↦ rw (not_tcp, is_udp) (refl, tt)
    | inr neither ↦ rw (not_tcp, neither) tt
  ]
]

pub route_listeners_target :
    (is_http : Bool) (key protocol : Text) (port : ℕ)
    → All
        (λ (m : Listener). target_cluster m.filter ≡ key)
        (route_listeners is_http key protocol port)
unfolding route_listeners tcp_listener udp_listener http_listener
route_listeners_target is_http key protocol port = elim (Bool-cases (protocol == tcp)) [
  | inl is_tcp ↦ elim (Bool-cases is_http) [
    | inl http ↦ rw (is_tcp, http) (refl, tt)
    | inr l4 ↦ rw (is_tcp, l4) (refl, tt)
  ]
  | inr not_tcp ↦ elim (Bool-cases (protocol == udp)) [
    | inl is_udp ↦ rw (not_tcp, is_udp) (refl, tt)
    | inr neither ↦ rw (not_tcp, neither) tt
  ]
]

abbrev pub Good : Resources → Type 0
Good r = IsConsistent r.clusters r.listeners
