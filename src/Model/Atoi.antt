-- ===== src/Model/Atoi.antt =====
-- `strconv.Atoi` on a machine with 64-bit ints, and `atoi` of model/sippkt.go.
use cdrrs.Base.{
  ℕ, zero, suc, ◌+◌, ◌-◌, ◌*◌, ◌^◌, ◌||◌, Bool, true, false, [], ◌∷◌, ℤ, pos, negsuc, ◌==◌, ltb,
  leb, if◌then◌else◌, Bytes,
}

-- The unsigned value of digits, or why there is none; an overflow of 64 bits ends the scan.
pub data Digits : Type 0 where
  digits : ℕ → Digits
  bad_syntax out_of_range : Digits

scan_digits : ℕ → Bytes → Digits
scan_digits n [] = digits n
scan_digits n (c ∷ s) =
    let n' = n * 10 + (c - b'0') in
    let rest = scan_digits n' s in
    if ltb c b'0' || ltb b'9' c then bad_syntax else if leb (2 ^ 64) n' then out_of_range else rest

parse_digits : Bytes → Digits
parse_digits [] = bad_syntax
parse_digits (c ∷ s) = scan_digits 0 (c ∷ s)

-- -n, as an integer.
negate : ℕ → ℤ
negate zero = pos zero
negate (suc n) = negsuc n

-- The value and whether there is an error; a value out of range is cut to the range.
signed : Bool → Digits → ℤ × Bool
signed minus bad_syntax = (pos 0, true)
signed true out_of_range = (negsuc (2 ^ 63 - 1), true)
signed false out_of_range = (pos (2 ^ 63 - 1), true)
signed true (digits n) = if ltb (2 ^ 63) n then (negsuc (2 ^ 63 - 1), true) else (negate n, false)
signed false (digits n) = if leb (2 ^ 63) n then (pos (2 ^ 63 - 1), true) else (pos n, false)

unfoldable pub strconv_atoi : Bytes → ℤ × Bool
unfolding scan_digits parse_digits negate signed
strconv_atoi [] = (pos 0, true)
strconv_atoi (c ∷ s) =
    if c == b'-'
    then signed true (parse_digits s)
    else if c == b'+'
    then signed false (parse_digits s)
    else signed false (parse_digits (c ∷ s))

-- An empty text stands for `n`.
unfoldable pub atoi : Bytes → ℤ → ℤ × Bool
unfolding strconv_atoi
atoi [] n = (n, false)
atoi (c ∷ s) n = strconv_atoi (c ∷ s)
