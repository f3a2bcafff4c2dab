-- ===== src/Ports/Loops.antt =====
-- The two loops of `AllocatePorts`: over the port keys, and over the ports of the endpoint.
use kubelb_ce.Base.{ℕ, ◌≤◌, ◌<◌, ◌≡◌, sym, ◌∙◌, inl, inr, Bool-cases, Option-cases}
use kubelb_ce.Base.{true, false, none, some, List, [], ◌∷◌, arith}
use kubelb_ce.Base.{text_eq, nat_eq, contains, >>=-eq-some}
use kubelb_ce.Base.Dict
use kubelb_ce.Base.Dict.{Dict, NodupKeys, has_value}
use kubelb_ce.Base.Lists.{All}
use kubelb_ce.Base.Text.{Text}
use kubelb_ce.Ports.{Progress, ensure_port, ensure_ports, allocate_port, start_port, end_port}
use kubelb_ce.Ports.Draws.{IsDraw, allocate_port-free}

-- What a round of the first loop does to the ports, when the values drawn are in range.
pub record Extends (reverse : List ℕ) (p q : Progress) : Type 0 where
  pub keeps :
      (j : Text) (port : ℕ) → Dict.lookup j p.ports ≡ some port → Dict.lookup j q.ports ≡ some port
  pub fresh :
      (j : Text) (port : ℕ)
      → Dict.lookup j p.ports ≡ none
      → Dict.lookup j q.ports ≡ some port
      → (contains reverse port ≡ false) × (start_port ≤ port) × (port < end_port)
  pub draws : All IsDraw q.draws
  pub nodup : NodupKeys p.ports → NodupKeys q.ports

Extends-refl : (reverse : List ℕ) (p : Progress) → All IsDraw p.draws → Extends reverse p p
Extends-refl reverse p d = record {
  keeps = λ j port h. h;
  fresh = λ j port h k. absurd (cc (h, k));
  draws = d;
  nodup = λ u. u;
}

Extends-trans :
    {reverse : List ℕ} {p q r : Progress}
    → Extends reverse p q
    → Extends reverse q r
    → Extends reverse p r
Extends-trans {q} a b = record {
  keeps = λ j port h. b.keeps j port (a.keeps j port h);
  fresh = λ j port h k. elim (Option-cases (Dict.lookup j q.ports)) [
    | inl missing ↦ b.fresh j port missing k
    | inr (port', found) ↦ a.fresh j port h (found ∙ sym (b.keeps j port' found) ∙ k)
  ];
  draws = b.draws;
  nodup = λ u. b.nodup (a.nodup u);
}

Extends-insert :
    (reverse : List ℕ) (p : Progress) (k : Text) (port : ℕ) (rest : List ℕ)
    → Dict.lookup k p.ports ≡ none
    → All IsDraw p.draws
    → allocate_port reverse p.draws ≡ some (port, rest)
    → Extends reverse p
        (record { ports = Dict.insert k port p.ports; updated = true; draws = rest })
Extends-insert reverse p k port rest missing d e =
    let facts = allocate_port-free reverse p.draws d e in
    record {
      keeps = λ j x h. ground (arith, Dict.lookup-insert j k port p.ports);
      fresh = λ j x h found. ground (arith, Dict.lookup-insert j k port p.ports, facts);
      draws = facts.3;
      nodup = λ u. Dict.insert-NodupKeys k port p.ports u;
    }

ensure_port-Extends :
    (reverse : List ℕ) (p q : Progress) (k : Text)
    → All IsDraw p.draws
    → ensure_port reverse p k ≡ some q
    → Extends reverse p q
unfolding ensure_port
ensure_port-Extends reverse p q k d e = elim (Bool-cases (Dict.has k p.ports)) [
  | inl present ↦ let same : p ≡ q = cc (rw present at e) in rw (← same) (Extends-refl reverse p d)
  | inr absent ↦
      let ((port, rest), drawn, result) =
        >>=-eq-some (allocate_port reverse p.draws) _ (rw absent at e) in
      let same : record { ports = Dict.insert k port p.ports; updated = true; draws = rest } ≡ q =
        cc result in
      rw (← same)
        (Extends-insert reverse p k port rest (Dict.has-eq-false k p.ports absent) d drawn)
]

pub ensure_ports-Extends :
    (reverse : List ℕ) (p q : Progress) (ks : List Text)
    → All IsDraw p.draws
    → ensure_ports reverse p ks ≡ some q
    → Extends reverse p q
unfolding ensure_ports
ensure_ports-Extends reverse p q [] d e =
    let same : p ≡ q = cc in rw (← same) (Extends-refl reverse p d)
ensure_ports-Extends reverse p q (k ∷ ks) d e =
    let (r, first, later) = >>=-eq-some (ensure_port reverse p k) _ e in
    let step = ensure_port-Extends reverse p r k d first in
    Extends-trans step (ensure_ports-Extends reverse r q ks step.draws later)
