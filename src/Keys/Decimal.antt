-- ===== src/Keys/Decimal.antt =====
-- The decimal form of a number, as the keys of internal/kubelb/utils.go hold it.
use Prim.Native.Nat.{ℕ, zero, suc, ◌+◌, ◌-◌, ◌*◌, ◌/◌, ◌<◌}
use kubelb_ce.Base.{◌≡◌, refl, ap, ◌∙◌, Bool-cases, inl, inr, ltb, [], ◌∷◌, ◌++◌, arith}
use kubelb_ce.Base.{◌≢◌, sym}
use kubelb_ce.Base.Lists.{All}
use kubelb_ce.Base.Text.{Text, digits, show}

-- The number that a text of digits stands for, after those that gave `acc`.
pub read : ℕ → Text → ℕ
read acc [] = acc
read acc (c ∷ s) = read (acc * 10 + (c - b'0')) s

read-append : (acc : ℕ) (s : Text) (c : ℕ) → read acc (s ++ c ∷ []) ≡ read acc s * 10 + (c - b'0')
unfolding read
read-append acc [] c = refl
read-append acc (x ∷ s) c = read-append (acc * 10 + (x - b'0')) s c

read-digits : (f n : ℕ) → n < f → read 0 (digits f n) ≡ n
unfolding digits
read-digits zero n h = elim h [ ]
read-digits (suc f) n h = elim (Bool-cases (ltb n 10)) [
  | inl small ↦ rw small (unfold read in ground arith)
  | inr large ↦ rw (large, read-append) (ground (arith, read-digits f (n / 10)))
]

pub read-show : (n : ℕ) → read 0 (show n) ≡ n
unfolding show
read-show n = read-digits (suc n) n (omega arith)

-- Two numbers with one decimal form are one.
pub show-injective : (m n : ℕ) → show m ≡ show n → m ≡ n
show-injective m n h = sym (read-show m) ∙ ap (read 0) h ∙ read-show n

abbrev pub IsNotDash : ℕ → Type 0
IsNotDash c = c ≢ b'-'

All-append_one : (s : Text) (c : ℕ) → All IsNotDash s → c ≢ b'-' → All IsNotDash (s ++ c ∷ [])
All-append_one [] c h n = (n, tt)
All-append_one (x ∷ s) c h n = (h.0, All-append_one s c h.1 n)

digits-no_dash : (f n : ℕ) → All IsNotDash (digits f n)
unfolding digits
digits-no_dash zero n = tt
digits-no_dash (suc f) n = elim (Bool-cases (ltb n 10)) [
  | inl small ↦ rw small (omega arith, tt)
  | inr large ↦
      rw large (All-append_one (digits f (n / 10)) _ (digits-no_dash f (n / 10)) (omega arith))
]

-- A decimal form holds no dash.
pub show-no_dash : (n : ℕ) → All IsNotDash (show n)
unfolding show
show-no_dash n = digits-no_dash (suc n) n
