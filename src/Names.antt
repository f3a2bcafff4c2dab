-- ===== src/Names.antt =====
-- `GenerateName` of internal/kubelb/utils.go. `none` is the panic of a slice out of range.
use kubelb_ce.Base.{
  ℕ, zero, suc, ◌+◌, ◌-◌, ◌≤◌, ◌≡◌, refl, arith, Bool, true, false, ◌&&◌, ◌||◌, Option, none, some,
  [], ◌∷◌, ◌++◌,
}
use kubelb_ce.Base.{leb, ◌>>=◌, if◌then◌else◌, Bool-cases, inl, inr}
use kubelb_ce.Base.Lists.{length, take, drop, length-drop}
use kubelb_ce.Base.Text.{Text, txt}

abbrev pub name_suffix_length : ℕ
name_suffix_length = 4

abbrev pub max_name_length : ℕ
max_name_length = 60

-- The last bytes of the UID.
unfoldable pub uid_suffix : Text → Option Text
uid_suffix uid =
    if leb name_suffix_length (length uid)
    then some (drop (length uid - name_suffix_length) uid)
    else none

-- `output[:MaxNameLength-(NameSuffixLength+1)]`
unfoldable pub truncated : Text → Option Text
truncated output = if leb 55 (length output) then some (take 55 output) else none

unfoldable pub generate_name : Bool → Text → Text → Text → Option Text
generate_name append_uid uid name namespace =
    let output = namespace ++ txt "-" ++ name in
    uid_suffix uid >>= λ suffix.
    if leb max_name_length (length output)
      || (append_uid && leb max_name_length (length output + length suffix + 1))
    then (truncated output >>= λ short. some (short ++ txt "-" ++ suffix))
    else if append_uid
    then some (output ++ txt "-" ++ suffix)
    else some output

length-uid_suffix : (uid : Text) {suffix : Text} → uid_suffix uid ≡ some suffix → length suffix ≡ 4
unfolding uid_suffix
length-uid_suffix uid h = ground (arith, length-drop (length uid - 4) uid)

length-joined : (s t : Text) → length (s ++ txt "-" ++ t) ≡ length s + 1 + length t
length-joined [] t = omega arith
length-joined (c ∷ s) t = omega (arith, length-joined s t)

length-take_fits : (n : ℕ) (s : Text) → n ≤ length s → length (take n s) ≡ n
length-take_fits zero s h = refl
length-take_fits (suc n) [] h = absurd (omega arith)
length-take_fits (suc n) (c ∷ s) h = omega (arith, length-take_fits n s (omega arith))

-- A slice that is in range.
take_some :
    (output suffix : Text)
    → 55 ≤ length output
    → length suffix ≡ 4
    → (out : Text) × ((truncated output >>= λ short. some (short ++ txt "-" ++ suffix)) ≡ some out)
      × (length out ≤ 60)
unfolding truncated
take_some output suffix long four = elim (Bool-cases (leb 55 (length output))) [
  | inl fits ↦ rw fits (
    take 55 output ++ txt "-" ++ suffix,
    refl,
    omega (arith, length-joined (take 55 output) suffix, length-take_fits 55 output long),
  )
  | inr short ↦ absurd (ground arith)
]

-- The name made of the joined name and the suffix.
abbrev named : Bool → Text → Text → Option Text
named append_uid output suffix =
    if leb max_name_length (length output)
      || (append_uid && leb max_name_length (length output + length suffix + 1))
    then (truncated output >>= λ short. some (short ++ txt "-" ++ suffix))
    else if append_uid
    then some (output ++ txt "-" ++ suffix)
    else some output

named_bounded :
    (append_uid : Bool) (output suffix : Text)
    → length suffix ≡ 4
    → (out : Text) × (named append_uid output suffix ≡ some out) × (length out ≤ 60)
named_bounded true output suffix four =
    elim (Bool-cases (
      leb max_name_length (length output)
      || leb max_name_length (length output + length suffix + 1))) [
        | inl long ↦ rw long (take_some output suffix (ground arith) four)
        | inr short ↦
            rw short
              (output ++ txt "-" ++ suffix, refl, ground (arith, length-joined output suffix))
      ]
named_bounded false output suffix four =
    elim (Bool-cases (leb max_name_length (length output) || false)) [
      | inl long ↦ rw long (take_some output suffix (ground arith) four)
      | inr short ↦ rw short (output, refl, ground arith)
    ]

-- For every UID of at least four bytes the name is made, with no slice out of range, and has at most
-- 60 bytes, however long the name and the namespace are.
pub generate_name_bounded :
    (append_uid : Bool) (uid name namespace : Text)
    → 4 ≤ length uid
    → (out : Text) × (generate_name append_uid uid name namespace ≡ some out) × (length out ≤ 60)
unfolding generate_name uid_suffix
generate_name_bounded append_uid uid name namespace enough =
    elim (Bool-cases (leb 4 (length uid))) [
      | inl fits ↦ rw fits (
          named_bounded append_uid (namespace ++ txt "-" ++ name) (drop (length uid - 4) uid)
            (omega (arith, length-drop (length uid - 4) uid)))
      | inr short ↦ absurd (ground arith)
    ]
