-- ===== src/Keys/Injective.antt =====
-- The keys of internal/kubelb/utils.go and the parts that they are made of.
use mathlib.Core.List.{append_assoc, append_cancel_right}
use kubelb_ce.Base.{ℕ, suc, ◌≡◌, refl, ap, ◌∙◌, sym, [], ◌∷◌, ◌++◌, arith}
use kubelb_ce.Base.Lists.{All, length, length-append}
use kubelb_ce.Base.Text.{Text, txt, show}
use kubelb_ce.Keys.{endpoint_key, route_endpoint_key, listener_key, resource_identifier}
use kubelb_ce.Keys.Decimal.{IsNotDash, show-injective, show-no_dash}

not-All-IsNotDash : (xs ys : Text) → All IsNotDash (xs ++ b'-' ∷ ys) → ⊥
not-All-IsNotDash [] ys h = h.0 refl
not-All-IsNotDash (x ∷ xs) ys h = not-All-IsNotDash xs ys h.1

-- The first dash splits a text.
split_first :
    (ds es xs ys : Text)
    → All IsNotDash ds
    → All IsNotDash es
    → ds ++ b'-' ∷ xs ≡ es ++ b'-' ∷ ys
    → (ds ≡ es) × (xs ≡ ys)
split_first [] [] xs ys hd he h = (refl, cc)
split_first [] (e ∷ es) xs ys hd he h = absurd (he.0 (cc))
split_first (d ∷ ds) [] xs ys hd he h = absurd (hd.0 (cc))
split_first (d ∷ ds) (e ∷ es) xs ys hd he h =
    let r = split_first ds es xs ys hd.1 he.1 (cc) in (cc (r.0), r.1)

-- The last dash splits a text.
split_last :
    (xs ys ds es : Text)
    → All IsNotDash ds
    → All IsNotDash es
    → xs ++ b'-' ∷ ds ≡ ys ++ b'-' ∷ es
    → (xs ≡ ys) × (ds ≡ es)
split_last [] [] ds es hd he h = (refl, cc)
split_last [] (y ∷ ys) ds es hd he h =
    let e : ds ≡ ys ++ b'-' ∷ es = cc in absurd (not-All-IsNotDash ys es (rw e at hd))
split_last (x ∷ xs) [] ds es hd he h =
    let e : es ≡ xs ++ b'-' ∷ ds = cc in absurd (not-All-IsNotDash xs ds (rw e at he))
split_last (x ∷ xs) (y ∷ ys) ds es hd he h =
    let r = split_last xs ys ds es hd he (cc) in (cc (r.0), r.1)

-- Texts of equal length at the end of equal texts are equal.
append_inj_right :
    (xs ys us vs : Text) → length us ≡ length vs → xs ++ us ≡ ys ++ vs → (xs ≡ ys) × (us ≡ vs)
append_inj_right [] [] us vs l h = (refl, h)
append_inj_right [] (y ∷ ys) us vs l h =
    absurd (omega (arith, ap length h, length-append {0} ys vs))
append_inj_right (x ∷ xs) [] us vs l h =
    absurd (omega (arith, ap length h, length-append {0} xs us))
append_inj_right (x ∷ xs) (y ∷ ys) us vs l h =
    let r = append_inj_right xs ys us vs l (cc) in (cc (r.0), r.1)

-- An endpoint key, cut before the index.
endpoint_key-cut :
    (namespace name : Text) (i : ℕ)
    → endpoint_key namespace name i ≡ ((namespace ++ b'-' ∷ name) ++ txt "-ep") ++ b'-' ∷ show i
unfolding endpoint_key
endpoint_key-cut namespace name i = simp append_assoc

-- If two load balancers have names of one length, as UIDs have, then their endpoints have one key
-- only if the namespaces, the names and the indices are equal.
pub endpoint_key-injective :
    (ns ns' name name' : Text) (i i' : ℕ)
    → length name ≡ length name'
    → endpoint_key ns name i ≡ endpoint_key ns' name' i'
    → (ns ≡ ns') × (name ≡ name') × (i ≡ i')
endpoint_key-injective ns ns' name name' i i' l h =
    let cut =
      split_last _ _ _ _ (show-no_dash i) (show-no_dash i')
        (sym (endpoint_key-cut ns name i) ∙ h ∙ endpoint_key-cut ns' name' i') in
    let front = append_cancel_right _ _ (txt "-ep") cut.0 in
    let parts = append_inj_right ns ns' (b'-' ∷ name) (b'-' ∷ name') (ap suc l) front in
    (parts.0, cc (parts.1), show-injective i i' cut.1)

-- Two listener keys are equal only if the ports and the protocols are.
pub listener_key-injective :
    (port port' : ℕ) (protocol protocol' : Text)
    → listener_key port protocol ≡ listener_key port' protocol'
    → (port ≡ port') × (protocol ≡ protocol')
unfolding listener_key
listener_key-injective port port' protocol protocol' h =
    let r = split_first _ _ protocol protocol' (show-no_dash port) (show-no_dash port') h in
    (show-injective port port' r.0, r.1)

resource_identifier-cut :
    (ns name : Text) (i port : ℕ) (protocol : Text)
    → resource_identifier ns name i port protocol
      ≡ ((endpoint_key ns name i ++ txt "-port") ++ b'-' ∷ show port) ++ b'-' ∷ protocol
unfolding resource_identifier endpoint_key
resource_identifier-cut ns name i port protocol = simp append_assoc

-- With names of one length and protocols without a dash, the names of the Envoy resources of two
-- endpoint ports are equal only if the load balancers, the indices, the ports and the protocols are.
pub resource_identifier-injective :
    (ns ns' name name' : Text) (i i' port port' : ℕ) (protocol protocol' : Text)
    → length name ≡ length name'
    → All IsNotDash protocol
    → All IsNotDash protocol'
    → resource_identifier ns name i port protocol ≡ resource_identifier ns' name' i' port' protocol'
    → (ns ≡ ns') × (name ≡ name') × (i ≡ i') × (port ≡ port') × (protocol ≡ protocol')
resource_identifier-injective ns ns' name name' i i' port port' protocol protocol' l d d' h =
    let outer = split_last _ _ protocol protocol' d d' (
      sym (resource_identifier-cut ns name i port protocol)
      ∙ h
      ∙ resource_identifier-cut ns' name' i' port' protocol') in
    let inner = split_last _ _ _ _ (show-no_dash port) (show-no_dash port') outer.0 in
    let key = append_cancel_right _ _ (txt "-port") inner.0 in
    let parts = endpoint_key-injective ns ns' name name' i i' l key in
    (parts.0, parts.1, parts.2, show-injective port port' inner.1, outer.1)

-- The keys of route endpoints do not determine their parts: for any texts, the service `b-c` of the
-- namespace `a` and the service `c` of the namespace `a-b` share the key of a route.
pub route_endpoint_key-clash :
    (ns a b c route : Text)
    → route_endpoint_key ns a (b ++ (txt "-" ++ c)) route
      ≡ route_endpoint_key ns (a ++ (txt "-" ++ b)) c route
unfolding route_endpoint_key
route_endpoint_key-clash ns a b c route = simp append_assoc
