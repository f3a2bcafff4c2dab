-- ===== src/Witnesses.antt =====
-- The theorems at concrete inputs, and runs of the code at these. Here stand the inputs that several
-- of them share.
pub mod Allocator
pub mod Passes
pub mod Services
pub mod Origins
pub mod Settings
pub mod Controllers
pub mod Others
pub mod Equality
use kubelb_ce.Base.{ℕ, ◌≡◌, refl, true, none, some, List, [], ◌∷◌, arith}
use kubelb_ce.Base.{text_eq, nat_eq}
use kubelb_ce.Base.Dict
use kubelb_ce.Base.Lists.{All}
use kubelb_ce.Base.Text.{Text, txt}
use kubelb_ce.Ports.{
  PortAllocator, Allocated, new_port_allocator, ports_of, all_ports, recompute_available_ports,
  allocate_port, ensure_endpoint, ensure_port, ensure_ports, remove_stale, any_stale, ports_at,
  allocate_ports,
}
use kubelb_ce.Ports.Draws.{IsDraw}

abbrev pub web : Text
web = txt "tenant-x-web-ep-0"

abbrev pub other : Text
other = txt "tenant-x-other-ep-0"

abbrev pub http : Text
http = txt "80-TCP"

abbrev pub https : Text
https = txt "443-TCP"

abbrev pub two_draws : List ℕ
two_draws = 7 ∷ 9 ∷ []

pub drawn : All IsDraw two_draws
drawn = (omega arith, (omega arith, tt))

-- An endpoint with two ports.
abbrev pub two_ports : Allocated
two_ports = record {
  state = record {
    port_lookup = (web, (http, 10007) ∷ (https, 10009) ∷ []) ∷ [];
    port_lookup_reverse = 10007 ∷ 10009 ∷ [];
  };
  updated = true;
  draws = [];
}

pub first_call :
    allocate_ports new_port_allocator web (http ∷ https ∷ []) two_draws ≡ some two_ports
unfolding allocate_ports ensure_ports ensure_port allocate_port ensure_endpoint ports_at
    remove_stale any_stale recompute_available_ports all_ports ports_of Dict.has Dict.has_value
    Dict.lookup Dict.insert text_eq nat_eq
first_call = refl

-- The same endpoint, asked for one port.
abbrev pub one_port : Allocated
one_port = record {
  state = record {
    port_lookup = (web, (https, 10009) ∷ []) ∷ [];
    port_lookup_reverse = 10009 ∷ [];
  };
  updated = true;
  draws = two_draws;
}

pub second_call : allocate_ports two_ports.state web (https ∷ []) two_draws ≡ some one_port
unfolding allocate_ports ensure_ports ensure_port allocate_port ensure_endpoint ports_at
    remove_stale any_stale recompute_available_ports all_ports ports_of Dict.has Dict.has_value
    Dict.lookup Dict.insert text_eq nat_eq
second_call = refl
