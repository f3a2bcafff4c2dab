-- ===== src/ServicePorts/Order.antt =====
-- The sorting in `CreateServicePorts` (internal/kubelb/loadbalancer.go).
use mathlib.Core.List.{Perm}
use mathlib.Core.List.Perm
use kubelb_ce.Base.{◌≡◌, refl, inl, inr, Bool-cases}
use kubelb_ce.Base.{true, false, List, [], ◌∷◌, arith}
use kubelb_ce.Base.{nat_eq}
use kubelb_ce.Base.Lists.{All}
use kubelb_ce.Base.Text.{Text}
use kubelb_ce.Api.{ServicePort}
use kubelb_ce.ServicePorts.{text_lt, insert_by_name, sort_by_name}

pub text_lt_asymm : (s t : Text) → text_lt s t ≡ true → text_lt t s ≡ false
unfolding text_lt
text_lt_asymm [] [] h = cc
text_lt_asymm [] (d ∷ t) h = refl
text_lt_asymm (c ∷ s) [] h = cc
text_lt_asymm (c ∷ s) (d ∷ t) h = ground (arith, text_lt_asymm s t)

not_lt_trans : (r q p : Text) → text_lt r q ≡ false → text_lt q p ≡ false → text_lt r p ≡ false
unfolding text_lt
not_lt_trans [] [] p h k = k
not_lt_trans [] (d ∷ q) p h k = cc
not_lt_trans (c ∷ r) [] [] h k = refl
not_lt_trans (c ∷ r) [] (b ∷ p) h k = cc
not_lt_trans (c ∷ r) (d ∷ q) [] h k = refl
not_lt_trans (c ∷ r) (d ∷ q) (b ∷ p) h k = ground (arith, not_lt_trans r q p)

-- No name of the list comes before that of the port.
abbrev pub NoneBefore : ServicePort → List ServicePort → Type 0
NoneBefore p = All (λ (q : ServicePort). text_lt q.name p.name ≡ false)

abbrev pub IsSorted : List ServicePort → Type 0
IsSorted [] = Unit
IsSorted (p ∷ ps) = NoneBefore p ps × IsSorted ps

NoneBefore-trans :
    (p q : ServicePort) (ps : List ServicePort)
    → text_lt q.name p.name ≡ false
    → NoneBefore q ps
    → NoneBefore p ps
NoneBefore-trans p q [] h n = tt
NoneBefore-trans p q (r ∷ ps) h n =
    (not_lt_trans r.name q.name p.name n.0 h, NoneBefore-trans p q ps h n.1)

NoneBefore-insert :
    (p q : ServicePort) (ps : List ServicePort)
    → text_lt q.name p.name ≡ true
    → NoneBefore q ps
    → NoneBefore q (insert_by_name p ps)
unfolding insert_by_name
NoneBefore-insert p q [] h n = (text_lt_asymm q.name p.name h, tt)
NoneBefore-insert p q (r ∷ ps) h n = elim (Bool-cases (text_lt r.name p.name)) [
  | inl before ↦ rw before (n.0, NoneBefore-insert p q ps h n.1)
  | inr after ↦ rw after (text_lt_asymm q.name p.name h, n)
]

insert_by_name-IsSorted :
    (p : ServicePort) (ps : List ServicePort) → IsSorted ps → IsSorted (insert_by_name p ps)
unfolding insert_by_name
insert_by_name-IsSorted p [] s = (tt, tt)
insert_by_name-IsSorted p (q ∷ qs) s = elim (Bool-cases (text_lt q.name p.name)) [
  | inl before ↦ rw before (NoneBefore-insert p q qs before s.0, insert_by_name-IsSorted p qs s.1)
  | inr after ↦ rw after ((after, NoneBefore-trans p q qs after s.0), s)
]

-- The sorted ports are in the order of their names: none stands after one whose name is greater.
pub sort_by_name-IsSorted : (ps : List ServicePort) → IsSorted (sort_by_name ps)
unfolding sort_by_name
sort_by_name-IsSorted [] = tt
sort_by_name-IsSorted (p ∷ ps) = insert_by_name-IsSorted p _ (sort_by_name-IsSorted ps)

insert_by_name-perm :
    (p : ServicePort) (ps : List ServicePort) → Perm (insert_by_name p ps) (p ∷ ps)
unfolding insert_by_name
insert_by_name-perm p [] = Perm.refl _
insert_by_name-perm p (q ∷ qs) = elim (Bool-cases (text_lt q.name p.name)) [
  | inl before ↦ rw before (Perm.trans (Perm.cons q (insert_by_name-perm p qs)) (Perm.swap p q qs))
  | inr after ↦ rw after (Perm.refl _)
]

-- Sorting keeps the ports: the result is a permutation of them.
pub sort_by_name-perm : (ps : List ServicePort) → Perm (sort_by_name ps) ps
unfolding sort_by_name
sort_by_name-perm [] = Perm.refl []
sort_by_name-perm (p ∷ ps) =
    Perm.trans (insert_by_name-perm p (sort_by_name ps)) (Perm.cons p (sort_by_name-perm ps))
