-- ===== src/Ports/Missing.antt =====
-- Which port keys the first loop of `AllocatePorts` adds, and when it reports an update.
use kubelb_ce.Base.{ℕ, ◌≡◌, refl, sym, ap, ◌∙◌, ◌⊎◌, inl, inr, Bool-cases}
use kubelb_ce.Base.{Bool, true, false, ◌||◌, not, some, List, [], ◌∷◌, arith}
use kubelb_ce.Base.{text_eq, ◌==◌, contains, >>=-eq-some}
use kubelb_ce.Base.Dict
use kubelb_ce.Base.Dict.{Dict}
use kubelb_ce.Base.Text.{Text}
use kubelb_ce.Ports.{Progress, ensure_port, ensure_ports, allocate_port, any_stale}
use kubelb_ce.Ports.Stale.{any_stale-insert}

-- Some key has no port yet.
unfoldable pub any_missing : Dict Text ℕ → List Text → Bool
any_missing ports [] = false
any_missing ports (k ∷ ks) = not (Dict.has k ports) || any_missing ports ks

-- The round either leaves everything or adds the key.
ensure_port_cases :
    (reverse : List ℕ) (p q : Progress) (k : Text)
    → ensure_port reverse p k ≡ some q
    → ((Dict.has k p.ports ≡ true) × (q ≡ p))
      ⊎ ((port : ℕ) × (Dict.has k p.ports ≡ false)
          × (q.ports ≡ Dict.insert k port p.ports)
          × (q.updated ≡ true))
unfolding ensure_port
ensure_port_cases reverse p q k e = elim (Bool-cases (Dict.has k p.ports)) [
  | inl present ↦ inl (present, cc (rw present at e))
  | inr absent ↦
      let ((port, rest), drawn, result) =
        >>=-eq-some (allocate_port reverse p.draws) _ (rw absent at e) in
      let same : record { ports = Dict.insert k port p.ports; updated = true; draws = rest } ≡ q =
        cc result in
      inr (
        port,
        absent,
        ap (λ (s : Progress). s.ports) (sym same),
        ap (λ (s : Progress). s.updated) (sym same),
      )
]

lookup-ensure_port :
    (reverse : List ℕ) (p q : Progress) (k j : Text)
    → ensure_port reverse p k ≡ some q
    → (j == k) ≡ false
    → Dict.lookup j q.ports ≡ Dict.lookup j p.ports
lookup-ensure_port reverse p q k j e other = elim (ensure_port_cases reverse p q k e) [
  | inl (present, same) ↦ rw same
  | inr (port, absent, ports, flag) ↦ rw (ports, Dict.lookup-insert, other)
]

has-ensure_port :
    (reverse : List ℕ) (p q : Progress) (k : Text)
    → ensure_port reverse p k ≡ some q
    → Dict.has k q.ports ≡ true
has-ensure_port reverse p q k e = elim (ensure_port_cases reverse p q k e) [
  | inl (present, same) ↦ rw same present
  | inr (port, absent, ports, flag) ↦
      rw ports
        (Dict.has_of_lookup k _ {v = port} (ground (arith, Dict.lookup-insert k k port p.ports)))
]

has_mono :
    (reverse : List ℕ) (p q : Progress) (k j : Text)
    → ensure_port reverse p k ≡ some q
    → Dict.has j p.ports ≡ true
    → Dict.has j q.ports ≡ true
unfolding Dict.has
has_mono reverse p q k j e h =
    ground (arith, lookup-ensure_port reverse p q k j e, has-ensure_port reverse p q k e)

has_mono_all :
    (reverse : List ℕ) (p q : Progress) (ks : List Text) (j : Text)
    → ensure_ports reverse p ks ≡ some q
    → Dict.has j p.ports ≡ true
    → Dict.has j q.ports ≡ true
unfolding ensure_ports
has_mono_all reverse p q [] j e h = let same : p ≡ q = cc in rw (← same) h
has_mono_all reverse p q (k ∷ ks) j e h =
    let (r, first, later) = >>=-eq-some (ensure_port reverse p k) _ e in
    has_mono_all reverse r q ks j later (has_mono reverse p r k j first h)

-- Every key that was asked for has a port afterwards.
pub has-ensure_ports :
    (reverse : List ℕ) (p q : Progress) (ks : List Text) (j : Text)
    → ensure_ports reverse p ks ≡ some q
    → contains ks j ≡ true
    → Dict.has j q.ports ≡ true
unfolding ensure_ports
has-ensure_ports reverse p q [] j e m = absurd (cc)
has-ensure_ports reverse p q (k ∷ ks) j e m =
    let (r, first, later) = >>=-eq-some (ensure_port reverse p k) _ e in
    elim (Bool-cases (j == k)) [
      | inl same ↦
          has_mono_all reverse r q ks j later (ground (arith, has-ensure_port reverse p r k first))
      | inr other ↦ has-ensure_ports reverse r q ks j later (ground arith)
    ]

-- The loop reports an update exactly when a key had no port.
pub updated-ensure_ports :
    (reverse : List ℕ) (p q : Progress) (ks : List Text)
    → ensure_ports reverse p ks ≡ some q
    → q.updated ≡ (p.updated || any_missing p.ports ks)
unfolding ensure_ports any_missing
updated-ensure_ports reverse p q [] e = let same : p ≡ q = cc in rw (← same) (ground arith)
updated-ensure_ports reverse p q (k ∷ ks) e =
    let (r, first, later) = >>=-eq-some (ensure_port reverse p k) _ e in
    let rest = updated-ensure_ports reverse r q ks later in
    elim (ensure_port_cases reverse p r k first) [
      | inl (present, same) ↦ rest ∙ rw (same, present)
      | inr (port, absent, ports, flag) ↦ rest ∙ rw (flag, absent) (ground arith)
    ]

-- The loop takes no draw and changes nothing if all keys have ports.
pub ensure_ports_of_present :
    (reverse : List ℕ) (p : Progress) (ks : List Text)
    → any_missing p.ports ks ≡ false
    → ensure_ports reverse p ks ≡ some p
unfolding ensure_ports any_missing ensure_port
ensure_ports_of_present reverse p [] h = refl
ensure_ports_of_present reverse p (k ∷ ks) h =
    let present : Dict.has k p.ports ≡ true = ground arith in
    rw present (ensure_ports_of_present reverse p ks (ground arith))

pub any_missing_of_has :
    (ports : Dict Text ℕ) (ks : List Text)
    → ((k : Text) → contains ks k ≡ true → Dict.has k ports ≡ true)
    → any_missing ports ks ≡ false
unfolding any_missing
any_missing_of_has ports [] h = refl
any_missing_of_has ports (k ∷ ks) h =
    rw (h k (ground arith)) (any_missing_of_has ports ks (λ j m. h j (ground arith)))

-- The added keys are asked for, so the first loop makes no port stale.
pub any_stale-ensure_ports :
    (reverse : List ℕ) (keys : List Text) (p q : Progress) (ks : List Text)
    → ((k : Text) → contains ks k ≡ true → contains keys k ≡ true)
    → ensure_ports reverse p ks ≡ some q
    → any_stale keys q.ports ≡ any_stale keys p.ports
unfolding ensure_ports
any_stale-ensure_ports reverse keys p q [] sub e = let same : p ≡ q = cc in rw (← same)
any_stale-ensure_ports reverse keys p q (k ∷ ks) sub e =
    let (r, first, later) = >>=-eq-some (ensure_port reverse p k) _ e in
    let rest = any_stale-ensure_ports reverse keys r q ks (λ j m. sub j (ground arith)) later in
    elim (ensure_port_cases reverse p r k first) [
      | inl (present, same) ↦ rest ∙ rw same
      | inr (port, absent, ports, flag) ↦
          rest ∙ rw ports (any_stale-insert keys k port p.ports (sub k (ground arith)))
    ]
