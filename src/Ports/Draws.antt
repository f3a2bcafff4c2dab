-- ===== src/Ports/Draws.antt =====
-- `allocatePort` of internal/port-lookup/allocator.go.
use kubelb_ce.Base.{ℕ, zero, suc, ◌+◌, ◌-◌, ◌≤◌, ◌<◌, ◌≡◌, refl, ◌≢◌, inl, inr, Bool-cases}
use kubelb_ce.Base.{sym, ◌∙◌, true, false, some, List, [], ◌∷◌, arith}
use kubelb_ce.Base.{nat_eq, ◌==◌, contains, if◌then◌else◌}
use kubelb_ce.Base.Lists.{All, length}
use kubelb_ce.Ports.{start_port, end_port, allocate_port}

-- What `rand.Intn(endPort-startPort)` returns.
abbrev pub IsDraw : ℕ → Type 0
IsDraw d = d < end_port - start_port

-- An allocated port is in no use, and lies between the bounds, the upper one excluded.
pub allocate_port-free :
    (reverse draws : List ℕ) {port : ℕ} {rest : List ℕ}
    → All IsDraw draws
    → allocate_port reverse draws ≡ some (port, rest)
    → (contains reverse port ≡ false) × (start_port ≤ port) × (port < end_port) × All IsDraw rest
unfolding allocate_port
allocate_port-free reverse [] h e = absurd (cc)
allocate_port-free reverse (d ∷ ds) {port} {rest} (b, h) e =
    elim (Bool-cases (contains reverse (d + start_port))) [
      | inl used ↦ allocate_port-free reverse ds h (rw used at e)
      | inr free ↦
          let head : port ≡ d + start_port = cc (rw free at e) in
          let tail : rest ≡ ds = cc (rw free at e) in
          rw (head, tail) (free, omega arith, omega arith, h)
    ]

pub allocate_port-unused :
    (reverse draws : List ℕ) {port : ℕ} {rest : List ℕ}
    → allocate_port reverse draws ≡ some (port, rest)
    → contains reverse port ≡ false
unfolding allocate_port
allocate_port-unused reverse [] e = absurd (cc)
allocate_port-unused reverse (d ∷ ds) {port} e =
    elim (Bool-cases (contains reverse (d + start_port))) [
      | inl used ↦ allocate_port-unused reverse ds (rw used at e)
      | inr free ↦ let head : port ≡ d + start_port = cc (rw free at e) in rw head free
    ]

-- The loop ends if one of the draws is free.
pub allocate_port_total :
    (reverse draws : List ℕ) (d : ℕ)
    → contains draws d ≡ true
    → contains reverse (d + start_port) ≡ false
    → (port : ℕ) × (rest : List ℕ) × (allocate_port reverse draws ≡ some (port, rest))
unfolding allocate_port
allocate_port_total reverse [] d m free = absurd (cc)
allocate_port_total reverse (c ∷ ds) d m free =
    elim (Bool-cases (contains reverse (c + start_port))) [
      | inl used ↦ rw used (allocate_port_total reverse ds d (ground arith) free)
      | inr open_port ↦ (c + start_port, ds, rw open_port)
    ]

without : ℕ → List ℕ → List ℕ
without r [] = []
without r (x ∷ xs) = let rest = without r xs in if r == x then rest else x ∷ rest

contains-without : (r x : ℕ) (xs : List ℕ) → x ≢ r → contains (without r xs) x ≡ contains xs x
unfolding without
contains-without r x [] n = refl
contains-without r x (y ∷ ys) n = ground (arith, contains-without r x ys n)

length-without-le : (r : ℕ) (xs : List ℕ) → length (without r xs) ≤ length xs
unfolding without
length-without-le r [] = omega arith
length-without-le r (y ∷ ys) = ground (arith, length-without-le r ys)

length-without-lt : (r : ℕ) (xs : List ℕ) → contains xs r ≡ true → length (without r xs) < length xs
unfolding without
length-without-lt r [] m = absurd (cc)
length-without-lt r (y ∷ ys) m = ground (arith, length-without-lt r ys, length-without-le r ys)

-- Among `n` numbers in a row, a list of fewer than `n` numbers misses one.
pub missed_below :
    (n s : ℕ) (xs : List ℕ) → length xs < n → (d : ℕ) × (d < n) × (contains xs (d + s) ≡ false)
missed_below zero s xs h = absurd (omega arith)
missed_below (suc n) s xs h = elim (Bool-cases (contains xs (n + s))) [
  | inr free ↦ (n, omega arith, free)
  | inl used ↦
      let (d, below, missed) =
        missed_below n s (without (n + s) xs) (omega (arith, length-without-lt (n + s) xs used)) in
      (d, omega arith, sym (contains-without (n + s) (d + s) xs (omega arith)) ∙ missed)
]

-- While fewer ports are in use than the range holds, a list of draws in which every value of
-- `rand.Intn` occurs ends the loop with a port that is in no use.
pub allocate_port_ends :
    (reverse draws : List ℕ)
    → length reverse < end_port - start_port
    → ((d : ℕ) → IsDraw d → contains draws d ≡ true)
    → (port : ℕ) × (rest : List ℕ) × (allocate_port reverse draws ≡ some (port, rest))
      × (contains reverse port ≡ false)
allocate_port_ends reverse draws room all =
    let (d, below, free) = missed_below (end_port - start_port) start_port reverse room in
    let (port, rest, e) = allocate_port_total reverse draws d (all d below) free in
    (port, rest, e, allocate_port-unused reverse draws e)
