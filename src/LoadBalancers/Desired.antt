-- ===== src/LoadBalancers/Desired.antt =====
-- What `LoadBalancerIsDesiredState` of internal/kubelb/loadbalancer.go compares.
use kubelb_ce.Base.{
  ◌↔◌, ap, suc, eq_refl, ◌≡◌, refl, arith, ℕ, Bool, true, false, ◌&&◌, List, [], ◌∷◌, sym,
}
use kubelb_ce.Base.{text_eq, nat_eq, ◌==◌}
use kubelb_ce.Annotations.{last_applied, compare_annotations}
use kubelb_ce.Annotations.Compare.{get_of_compare_annotations}
use kubelb_ce.Base.Dict
use kubelb_ce.Base.Dict.{Dict}
use kubelb_ce.Base.Lists.{length}
use kubelb_ce.Base.Text.{Text}
use kubelb_ce.Api.{
  EndpointAddress, EndpointPort, LoadBalancerEndpoints, LoadBalancerPort, LoadBalancer, get,
}
use kubelb_ce.LoadBalancers.{
  all_same, load_balancer_port_is_desired_state, endpoint_port_is_desired_state,
  endpoint_address_is_desired_state, endpoints_are_desired_state, load_balancer_is_desired_state,
}
use mathlib.Core.List.{map}

&&-true : {a b : Bool} → (a && b) ≡ true → (a ≡ true) × (b ≡ true)
&&-true h = ground arith

-- Two lists of one length whose elements agree pairwise have equal views of their elements.
all_same-view {ℓ κ} :
    {A : Type ℓ} {B : Type κ} (same : A → A → Bool) (view : A → B)
    → ((a d : A) → same a d ≡ true → view a ≡ view d)
    → (desired actual : List A) → length actual ≡ length desired
    → all_same same desired actual ≡ true
    → map view actual ≡ map view desired
unfolding all_same
all_same-view same view agrees [] [] e h = refl
all_same-view same view agrees [] (a ∷ actual) e h = absurd (omega arith)
all_same-view same view agrees (d ∷ desired) [] e h = absurd (omega arith)
all_same-view same view agrees (d ∷ desired) (a ∷ actual) e h =
    let (first, others) = &&-true h in
    let rest = all_same-view same view agrees desired actual (omega arith) others in
    rw (agrees a d first, rest) refl

abbrev pub port_view : LoadBalancerPort → Text × ℕ
port_view p = (p.protocol, p.port)

abbrev pub endpoint_port_view : EndpointPort → ℕ × Text
endpoint_port_view p = (p.port, p.protocol)

abbrev pub address_view : EndpointAddress → Text × Text
address_view a = (a.hostname, a.ip)

abbrev pub endpoints_view : LoadBalancerEndpoints → List (Text × Text) × List (ℕ × Text)
endpoints_view e = (map address_view e.addresses, map endpoint_port_view e.ports)

port_agrees :
    (a d : LoadBalancerPort)
    → load_balancer_port_is_desired_state a d ≡ true
    → port_view a ≡ port_view d
unfolding load_balancer_port_is_desired_state
port_agrees a d h = ground arith

endpoint_port_agrees :
    (a d : EndpointPort)
    → endpoint_port_is_desired_state a d ≡ true
    → endpoint_port_view a ≡ endpoint_port_view d
unfolding endpoint_port_is_desired_state
endpoint_port_agrees a d h = ground arith

address_agrees :
    (a d : EndpointAddress)
    → endpoint_address_is_desired_state a d ≡ true
    → address_view a ≡ address_view d
unfolding endpoint_address_is_desired_state
address_agrees a d h = ground arith

text_agrees : {s t : Text} → (s == t) ≡ true → s ≡ t
text_agrees h = ground arith

==-true : {m n : ℕ} → (m == n) ≡ true → m ≡ n
==-true h = ground arith

endpoints_agree :
    (a d : LoadBalancerEndpoints)
    → endpoints_are_desired_state a d ≡ true
    → endpoints_view a ≡ endpoints_view d
unfolding endpoints_are_desired_state
endpoints_agree a d h =
    let (n, more) = &&-true h in
    let (m, rest) = &&-true more in
    let (addresses, ports) = &&-true rest in
    rw
      (
        all_same-view endpoint_address_is_desired_state address_view address_agrees d.addresses
            a.addresses (sym (==-true n)) addresses,
        all_same-view endpoint_port_is_desired_state endpoint_port_view endpoint_port_agrees d.ports
            a.ports (sym (==-true m)) ports,
      )
      refl

length_of_map {ℓ κ} :
    {A : Type ℓ} {B : Type κ} (view : A → B) (rs ss : List A)
    → map view rs ≡ map view ss
    → length rs ≡ length ss
length_of_map view [] [] h = refl
length_of_map view [] (s ∷ ss) h = absurd (cc)
length_of_map view (r ∷ rs) [] h = absurd (cc)
length_of_map view (r ∷ rs) (s ∷ ss) h = ap suc (length_of_map view rs ss (cc))

-- Two lists with equal views of their elements agree pairwise, and have one length.
all_same_of_views {ℓ κ} :
    {A : Type ℓ} {B : Type κ} (same : A → A → Bool) (view : A → B)
    → ((a d : A) → view a ≡ view d → same a d ≡ true)
    → (desired actual : List A) → map view actual ≡ map view desired
    → all_same same desired actual ≡ true
unfolding all_same
all_same_of_views same view agrees [] actual h = refl
all_same_of_views same view agrees (d ∷ desired) [] h = refl
all_same_of_views same view agrees (d ∷ desired) (a ∷ actual) h =
    rw (agrees a d (cc), all_same_of_views same view agrees desired actual (cc)) refl

port_is_desired :
    (a d : LoadBalancerPort)
    → port_view a ≡ port_view d
    → load_balancer_port_is_desired_state a d ≡ true
unfolding load_balancer_port_is_desired_state
port_is_desired a d h = ground arith

endpoint_port_is_desired :
    (a d : EndpointPort)
    → endpoint_port_view a ≡ endpoint_port_view d
    → endpoint_port_is_desired_state a d ≡ true
unfolding endpoint_port_is_desired_state
endpoint_port_is_desired a d h = ground arith

address_is_desired :
    (a d : EndpointAddress)
    → address_view a ≡ address_view d
    → endpoint_address_is_desired_state a d ≡ true
unfolding endpoint_address_is_desired_state
address_is_desired a d h = ground arith

endpoints_are_desired :
    (a d : LoadBalancerEndpoints)
    → endpoints_view a ≡ endpoints_view d
    → endpoints_are_desired_state a d ≡ true
unfolding endpoints_are_desired_state
endpoints_are_desired a d h =
    let addresses : map address_view a.addresses ≡ map address_view d.addresses = cc in
    let ports : map endpoint_port_view a.ports ≡ map endpoint_port_view d.ports = cc in
    rw
      (
        length_of_map address_view a.addresses d.addresses addresses,
        length_of_map endpoint_port_view a.ports d.ports ports,
        all_same_of_views endpoint_address_is_desired_state address_view address_is_desired
            d.addresses a.addresses addresses,
        all_same_of_views endpoint_port_is_desired_state endpoint_port_view endpoint_port_is_desired
            d.ports a.ports ports,
      )
      (ground (arith, eq_refl (length d.addresses), eq_refl (length d.ports)))

-- What a LoadBalancer in the desired state has of the desired one.
abbrev pub IsAsDesired :
    (Dict Text Text → Dict Text Text → Bool) → LoadBalancer → LoadBalancer → Type 0
IsAsDesired deep_equal actual desired =
    (actual.spec.type ≡ desired.spec.type)
    × (map port_view actual.spec.ports ≡ map port_view desired.spec.ports)
    × (map endpoints_view actual.spec.endpoints ≡ map endpoints_view desired.spec.endpoints)
    × (compare_annotations deep_equal actual.meta.annotations desired.meta.annotations ≡ true)

desired_agrees :
    (deep_equal : Dict Text Text → Dict Text Text → Bool) (actual desired : LoadBalancer)
    → load_balancer_is_desired_state deep_equal actual desired ≡ true
    → IsAsDesired deep_equal actual desired
unfolding load_balancer_is_desired_state
desired_agrees deep_equal actual desired h =
    let (t, h1) = &&-true h in
    let (n, h2) = &&-true h1 in
    let (ports, h3) = &&-true h2 in
    let (m, h4) = &&-true h3 in
    let (endpoints, annotations) = &&-true h4 in
    (
      text_agrees t,
      all_same-view load_balancer_port_is_desired_state port_view port_agrees desired.spec.ports
          actual.spec.ports (==-true n) ports,
      all_same-view endpoints_are_desired_state endpoints_view endpoints_agree
          desired.spec.endpoints actual.spec.endpoints (==-true m) endpoints,
      annotations,
    )

agrees_desired :
    (deep_equal : Dict Text Text → Dict Text Text → Bool) (actual desired : LoadBalancer)
    → IsAsDesired deep_equal actual desired
    → load_balancer_is_desired_state deep_equal actual desired ≡ true
unfolding load_balancer_is_desired_state
agrees_desired deep_equal actual desired (type, ports, endpoints, annotations) =
    rw
      (
        type,
        length_of_map port_view actual.spec.ports desired.spec.ports ports,
        length_of_map endpoints_view actual.spec.endpoints desired.spec.endpoints endpoints,
        all_same_of_views load_balancer_port_is_desired_state port_view port_is_desired
            desired.spec.ports actual.spec.ports ports,
        all_same_of_views endpoints_are_desired_state endpoints_view endpoints_are_desired
            desired.spec.endpoints actual.spec.endpoints endpoints,
      )
      (ground (
        arith,
        eq_refl desired.spec.type,
        eq_refl (length desired.spec.ports),
        eq_refl (length desired.spec.endpoints),
        annotations,
      ))

-- A LoadBalancer counts as being in the desired state exactly if it has the desired type, the
-- desired ports, addresses and endpoint ports, each in the desired order, and annotations that are
-- compared as the same; so the names of ports, the reference to addresses and the hostname make no
-- difference. If it does, and equal maps have equal values, it has the desired value of every
-- annotation but the last applied configuration.
pub load_balancer_is_desired_state_agrees :
    (deep_equal : Dict Text Text → Dict Text Text → Bool)
    → ((a b : Dict Text Text)
        → deep_equal a b ≡ true
        → (k : Text) → Dict.lookup k a ≡ Dict.lookup k b)
    → (actual desired : LoadBalancer)
    → ((load_balancer_is_desired_state deep_equal actual desired ≡ true)
        ↔ IsAsDesired deep_equal actual desired)
      × ((k : Text)
          → (k == last_applied) ≡ false
          → load_balancer_is_desired_state deep_equal actual desired ≡ true
          → get actual.meta.annotations k ≡ get desired.meta.annotations k)
load_balancer_is_desired_state_agrees deep_equal sound actual desired = (
  (desired_agrees deep_equal actual desired, agrees_desired deep_equal actual desired),
  λ k other h.
      get_of_compare_annotations deep_equal sound actual.meta.annotations desired.meta.annotations k
        other (desired_agrees deep_equal actual desired h).3,
)
