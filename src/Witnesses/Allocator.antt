-- ===== src/Witnesses/Allocator.antt =====
-- internal/port-lookup/allocator.go at concrete inputs.
use kubelb_ce.Base.{
  ℕ, zero, suc, ◌+◌, ◌≤◌, ◌<◌, ◌≡◌, ◌≢◌, refl, true, false, none, some, List, [], ◌∷◌, ◌++◌, arith,
}
use kubelb_ce.Base.{text_eq, nat_eq, contains}
use kubelb_ce.Base.Dict
use kubelb_ce.Base.Dict.{has_value}
use kubelb_ce.Base.Text.{Text}
use kubelb_ce.Ports.{
  start_port, end_port, Allocated, new_port_allocator, lookup, lookup_in, allocate_ports,
}
use kubelb_ce.Ports.State.{new_port_allocator-IsWellFormed}
use kubelb_ce.Ports.Contract.{lookup-allocate_ports_kept, has-allocate_ports, allocate_ports_fresh}
use kubelb_ce.Ports.Ending.{Sweep, allocate_ports_ends}
use kubelb_ce.Ports.Clash.{allocate_ports_clash}
use kubelb_ce.Witnesses.{
  web, other, http, https, two_draws, drawn, two_ports, first_call, one_port, second_call,
}

other_endpoint : other ≢ web
other_endpoint = cc

https_there : lookup two_ports.state web https ≡ some 10009
unfolding lookup lookup_in Dict.lookup text_eq
https_there = refl

https_asked : contains (https ∷ []) https ≡ true
unfolding text_eq
https_asked = refl

lookup-allocate_ports_kept_example : lookup one_port.state web https ≡ some 10009
lookup-allocate_ports_kept_example =
    lookup-allocate_ports_kept two_ports.state web (https ∷ []) two_draws drawn second_call https
      10009 https_asked https_there

has-allocate_ports_example : has_value (lookup one_port.state web http) ≡ contains (https ∷ []) http
has-allocate_ports_example =
    has-allocate_ports two_ports.state web (https ∷ []) two_draws drawn second_call http

nothing_there : (k : Text) → lookup new_port_allocator web k ≡ none
unfolding lookup lookup_in Dict.lookup
nothing_there k = refl

allocate_ports_fresh_example :
    (start_port ≤ 10009) × (10009 < end_port) × (lookup new_port_allocator other http ≢ some 10009)
allocate_ports_fresh_example =
    allocate_ports_fresh new_port_allocator web (http ∷ https ∷ []) two_draws drawn first_call https
      other http 10009 new_port_allocator-IsWellFormed (nothing_there https) https_there

-- The numbers below `n`.
countdown : ℕ → List ℕ
countdown zero = []
countdown (suc n) = n ∷ countdown n

contains-countdown : (n d : ℕ) → d < n → contains (countdown n) d ≡ true
unfolding countdown
contains-countdown zero d h = absurd (omega arith)
contains-countdown (suc n) d h = ground (arith, contains-countdown n d)

sweep : Sweep (countdown 55535)
sweep d h = contains-countdown 55535 d h

allocate_ports_ends_example :
    (a : Allocated) × (allocate_ports two_ports.state other (http ∷ []) (countdown 55535 ++ [])
      ≡ some a)
allocate_ports_ends_example =
    allocate_ports_ends two_ports.state other (http ∷ []) (countdown 55535 ++ []) (omega arith)
      (countdown 55535, [], refl, sweep, tt)

free_port : contains new_port_allocator.port_lookup_reverse (7 + start_port) ≡ false
free_port = refl

two_keys : http ≢ https
two_keys = cc

allocate_ports_clash_example :
    (a : Allocated) × (allocate_ports new_port_allocator web (http ∷ https ∷ []) (7 ∷ 7 ∷ [])
      ≡ some a)
    × (lookup a.state web http ≡ some (7 + start_port))
    × (lookup a.state web https ≡ some (7 + start_port))
allocate_ports_clash_example =
    allocate_ports_clash new_port_allocator web http https 7 [] two_keys (nothing_there http)
      (nothing_there https) free_port
