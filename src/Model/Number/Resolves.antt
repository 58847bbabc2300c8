-- ===== src/Model/Number/Resolves.antt =====
-- A number that `ExtractLegalNumber` returns has a position.
use cdrrs.Base.{
  ℕ, zero, suc, ◌-◌, ◌≡◌, ◌≢◌, ◌≤◌, refl, ap, ◌∙◌, ◌⊎◌, inl, inr, ◌||◌, Bool, true, false, not, [],
  ◌∷◌, Option, none, some, ltb, leb, if◌then◌else◌, codes, length, length-drop, drop, is_ok, Bytes,
  arith, Bool-cases,
}
use cdrrs.Bytes.{has_prefix, replace_first}
use cdrrs.Bytes.Split.{has_prefix-drop}
use cdrrs.Model.Position.{
  Positions, PhonePosition, parse, validate_number_string, query_fixed_number_position,
  query_mobile_number_position,
}
use cdrrs.Model.Number.{
  suffix, fixed_number, domestic, last_11, last_12, last_13, regional, or_else,
  extract_legal_number,
}

-- The number is digits, and `Parse` finds a position for it.
pub record Resolves (ps : Positions) (num : Bytes) : Type 0 where
  pub digits : validate_number_string num ≡ true
  pub long : (length num ≡ 11) ⊎ (length num ≡ 12)
  pub found : (p : PhonePosition) → (parse ps p num).0 ≡ none

validate-drop :
    (k : ℕ) (num : Bytes)
    → validate_number_string num ≡ true
    → validate_number_string (drop k num) ≡ true
unfolding validate_number_string
validate-drop zero num h = h
validate-drop (suc k) [] h = refl
validate-drop (suc k) (v ∷ num) h = validate-drop k num (ground arith)

-- A mobile number that is found.
Resolves-mobile :
    (ps : Positions) (num : Bytes)
    → validate_number_string num ≡ true
    → length num ≡ 11
    → has_prefix num (codes "1") ≡ true
    → is_ok (query_mobile_number_position ps num) ≡ true
    → Resolves ps num
unfolding parse
Resolves-mobile ps num d l h k = record { digits = d; long = inl l; found = λ p. ground arith }

not_one : (num : Bytes) → has_prefix num (codes "0") ≡ true → has_prefix num (codes "1") ≡ false
unfolding has_prefix
not_one [] h = refl
not_one (c ∷ num) h = ground arith

Resolves-fixed :
    (ps : Positions) (num : Bytes)
    → validate_number_string num ≡ true
    → (length num ≡ 11) ⊎ (length num ≡ 12)
    → has_prefix num (codes "0") ≡ true
    → is_ok (query_fixed_number_position ps num) ≡ true
    → Resolves ps num
unfolding parse
Resolves-fixed ps num d l h k = record {
  digits = d;
  long = l;
  found = λ p. ground (arith, not_one num h);
}

not_digit_one :
    (num : Bytes) (cs : Bytes)
    → has_prefix num (b'8' ∷ cs) ≡ true
    → (has_prefix num (codes "1") ≡ false) × (has_prefix num (codes "0") ≡ false)
unfolding has_prefix
not_digit_one [] cs h = ground arith
not_digit_one (x ∷ num) cs h = ground arith

Resolves-regional :
    (ps : Positions) (num : Bytes)
    → validate_number_string num ≡ true
    → length num ≡ 11
    → (has_prefix num (codes "852") ≡ true) ⊎ (has_prefix num (codes "853") ≡ true)
    → Resolves ps num
unfolding parse
Resolves-regional ps num d l (inl h) = record {
  digits = d;
  long = inl l;
  found = λ p. ground (arith, not_digit_one num (codes "52") h);
}
Resolves-regional ps num d l (inr h) = record {
  digits = d;
  long = inl l;
  found = λ p. ground (arith, not_digit_one num (codes "53") h);
}

domestic-eq : (num : Bytes) → has_prefix num (codes "86") ≡ true → domestic num ≡ b'0' ∷ drop 2 num
unfolding domestic replace_first has_prefix
domestic-eq num h =
    let e : num ≡ b'8' ∷ b'6' ∷ drop 2 num = has_prefix-drop num (codes "86") h in
    ap domestic e ∙ refl

validate_zero :
    (num : Bytes) → validate_number_string num ≡ true → validate_number_string (b'0' ∷ num) ≡ true
unfolding validate_number_string
validate_zero num h = h

zero_prefix : (num : Bytes) → has_prefix (b'0' ∷ num) (codes "0") ≡ true
unfolding has_prefix
zero_prefix num = refl

module _ (ps : Positions) (c : Bytes) (d : validate_number_string c ≡ true) {r : Bytes} where
  last_11-Resolves : length c ≡ 11 → last_11 ps c ≡ some r → Resolves ps r
  unfolding last_11
  last_11-Resolves l e = ground (arith, Resolves-mobile ps c d l, Resolves-fixed ps c d (inl l))

  domestic-Resolves :
      (length c ≡ 12) ⊎ (length c ≡ 13)
      → has_prefix c (codes "86") ≡ true
      → fixed_number ps (domestic c) ≡ some r
      → Resolves ps r
  unfolding fixed_number
  domestic-Resolves l h e =
      let number = b'0' ∷ drop 2 c in
      let length_is : (length number ≡ 11) ⊎ (length number ≡ 12) =
        omega (arith, length-drop 2 c) in
      ground (
        arith,
        domestic-eq c h,
        Resolves-fixed ps number (validate_zero (drop 2 c) (validate-drop 2 c d)) length_is
            (zero_prefix (drop 2 c)),
      )

  last_12-Resolves : length c ≡ 12 → last_12 ps c ≡ some r → Resolves ps r
  unfolding last_12
  last_12-Resolves l e = ground (arith, domestic-Resolves (inl l), Resolves-fixed ps c d (inr l))

  last_13-Resolves : length c ≡ 13 → last_13 ps c ≡ some r → Resolves ps r
  unfolding last_13
  last_13-Resolves l e = ground (arith, domestic-Resolves (inr l))

regional-Resolves :
    (ps : Positions) (c : Bytes)
    → validate_number_string c ≡ true
    → length c ≡ 11
    → regional c ≢ []
    → Resolves ps (regional c)
unfolding regional
regional-Resolves ps c d l n = ground (arith, Resolves-regional ps c d l)

or_else-Resolves :
    (ps : Positions) (o : Option Bytes) (rest : Bytes)
    → ((r : Bytes) → o ≡ some r → Resolves ps r)
    → (rest ≢ [] → Resolves ps rest)
    → or_else o rest ≢ []
    → Resolves ps (or_else o rest)
or_else-Resolves ps none rest f g n = g n
or_else-Resolves ps (some c) rest f g n = f c refl

guarded :
    (b : Bool) (o : Option Bytes) (r : Bytes)
    → (if b then o else none) ≡ some r
    → (b ≡ true) × (o ≡ some r)
guarded b o r h = ground arith

digits_of :
    (num : Bytes)
    → (not (validate_number_string num) || ltb (length num) 11) ≡ false
    → (validate_number_string num ≡ true) × (11 ≤ length num)
digits_of num h = ground arith

-- The attempts in their order, on digits that are long enough.
attempts-Resolves :
    (ps : Positions) (num : Bytes)
    → validate_number_string num ≡ true
    → 11 ≤ length num
    → let found = or_else (if leb 11 (length num) then last_11 ps (suffix 11 num) else none) (
        or_else (if leb 12 (length num) then last_12 ps (suffix 12 num) else none) (
          or_else
            (if leb 13 (length num) then last_13 ps (suffix 13 num) else none)
            (regional (suffix 11 num)))) in
      found ≢ [] → Resolves ps found
attempts-Resolves ps num d l =
    or_else-Resolves ps _ _
      (λ r e.
        let g = guarded (leb 11 (length num)) _ r e in
        last_11-Resolves ps (suffix 11 num) (digits 11)
          (omega (arith, length-drop (length num - 11) num)) g.1)
      (or_else-Resolves ps _ _
        (λ r e.
          let g = guarded (leb 12 (length num)) _ r e in
          last_12-Resolves ps (suffix 12 num) (digits 12) (length_of 12 g.0) g.1)
        (or_else-Resolves ps _ _
          (λ r e.
            let g = guarded (leb 13 (length num)) _ r e in
            last_13-Resolves ps (suffix 13 num) (digits 13) (length_of 13 g.0) g.1)
          (regional-Resolves ps (suffix 11 num) (digits 11)
            (omega (arith, length-drop (length num - 11) num)))))
  where
    digits : (k : ℕ) → validate_number_string (suffix k num) ≡ true
    digits k = validate-drop (length num - k) num d

    length_of : (k : ℕ) → leb k (length num) ≡ true → length (suffix k num) ≡ k
    length_of k e = ground (arith, length-drop (length num - k) num)

-- Whatever digits a header carries, a number that is taken from them is all digits, has 11 or 12 of
-- them, and is one for which the query for its position succeeds.
pub extract_legal_number-Resolves :
    (ps : Positions) (num : Bytes)
    → extract_legal_number ps num ≢ []
    → Resolves ps (extract_legal_number ps num)
unfolding extract_legal_number
extract_legal_number-Resolves ps num n =
    elim (Bool-cases (not (validate_number_string num) || ltb (length num) 11)) [
      | inl bad ↦ absurd (n (rw (bad, extract_legal_number) refl))
      | inr good ↦
          rw (good, extract_legal_number)
            (attempts-Resolves ps num (digits_of num good).0 (digits_of num good).1
              (rw (good, extract_legal_number) at n))
    ]
