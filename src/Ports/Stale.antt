-- ===== src/Ports/Stale.antt =====
-- The second loop of `AllocatePorts`: the ports whose key is not asked for.
use kubelb_ce.Base.{ℕ, ◌≡◌, refl}
use kubelb_ce.Base.{true, false, none, List, [], ◌∷◌, arith}
use kubelb_ce.Base.{text_eq, contains, if◌then◌else◌}
use kubelb_ce.Base.Dict
use kubelb_ce.Base.Dict.{Dict, NodupKeys}
use kubelb_ce.Base.Text.{Text}
use kubelb_ce.Ports.{remove_stale, any_stale}

pub lookup-remove_stale :
    (keys : List Text) (ports : Dict Text ℕ) (k : Text)
    → Dict.lookup k (remove_stale keys ports)
      ≡ (if contains keys k then Dict.lookup k ports else none)
unfolding remove_stale Dict.lookup
lookup-remove_stale keys [] k = ground arith
lookup-remove_stale keys ((j, port) ∷ ports) k = ground (arith, lookup-remove_stale keys ports k)

pub remove_stale-NodupKeys :
    (keys : List Text) (ports : Dict Text ℕ) → NodupKeys ports → NodupKeys (remove_stale keys ports)
unfolding remove_stale
remove_stale-NodupKeys keys [] u = tt
remove_stale-NodupKeys keys ((j, port) ∷ ports) (fresh, u) =
    ground (arith, lookup-remove_stale keys ports j, remove_stale-NodupKeys keys ports u)

-- What is left holds no stale port.
pub any_stale-remove_stale :
    (keys : List Text) (ports : Dict Text ℕ) → any_stale keys (remove_stale keys ports) ≡ false
unfolding remove_stale any_stale
any_stale-remove_stale keys [] = refl
any_stale-remove_stale keys ((j, port) ∷ ports) = ground (arith, any_stale-remove_stale keys ports)

pub remove_stale_of_none :
    (keys : List Text) (ports : Dict Text ℕ)
    → any_stale keys ports ≡ false
    → remove_stale keys ports ≡ ports
unfolding remove_stale any_stale
remove_stale_of_none keys [] h = refl
remove_stale_of_none keys ((j, port) ∷ ports) h = ground (arith, remove_stale_of_none keys ports)

-- A port under a key that is asked for is not stale.
pub any_stale-insert :
    (keys : List Text) (k : Text) (port : ℕ) (ports : Dict Text ℕ)
    → contains keys k ≡ true
    → any_stale keys (Dict.insert k port ports) ≡ any_stale keys ports
unfolding any_stale Dict.insert
any_stale-insert keys k port [] m = ground arith
any_stale-insert keys k port ((j, p) ∷ ports) m = ground (arith, any_stale-insert keys k port ports)
