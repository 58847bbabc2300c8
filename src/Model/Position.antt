-- ===== src/Model/Position.antt =====
-- model/position.go: where a phone number belongs. The two package variables, which
-- `CacheNumberPositions` fills, are the argument `Positions`.
pub mod Validated
use cdrrs.Base.{
  ◌||◌, ◌&&◌, not, Bool, true, false, [], ◌∷◌, Option, none, some, ◌==◌, ltb, if◌then◌else◌, codes,
  length, slice, Result, ok, err, Bytes,
}
use cdrrs.Bytes.{has_prefix}

pub record PhonePosition : Type 0 where
  pub phone : Bytes
  pub province : Bytes
  pub city : Bytes
  pub code1 : Bytes

pub data PhoneError : Type 0 where
  unresolvable not_found : PhoneError

-- `fixedNumberPositionMap` and `mobileNumberPositionMap`, as their lookups.
pub record Positions : Type 0 where
  pub fixed : Bytes → Option PhonePosition
  pub mobile : Bytes → Option PhonePosition

-- `PhonePosition{}`.
abbrev pub empty_position : PhonePosition
empty_position = record { phone = []; province = []; city = []; code1 = [] }

unfoldable pub cache_number_positions :
    (Bytes → Option PhonePosition) → (Bytes → Option PhonePosition) → Positions
cache_number_positions mp fp = record { fixed = fp; mobile = mp }

-- A byte beyond ASCII is part of a code point above '9'.
unfoldable pub validate_number_string : Bytes → Bool
validate_number_string [] = true
validate_number_string (v ∷ num) =
    let rest = validate_number_string num in if ltb v b'0' || ltb b'9' v then false else rest

-- The last lookup of `QueryFixedNumberPosition`, by four digits.
unfoldable pub query_area : Positions → Bytes → Result PhoneError PhonePosition
query_area ps num = elim (ps.fixed (slice num 0 4)) [ some pp ↦ ok pp | none ↦ err not_found ]

unfoldable pub query_fixed_number_position : Positions → Bytes → Result PhoneError PhonePosition
unfolding query_area
query_fixed_number_position ps num =
    if not (length num == 11) && not (length num == 12)
    then err not_found
    else if length num == 11
    then (elim (ps.fixed (slice num 0 3)) [ some pp ↦ ok pp | none ↦ query_area ps num ])
    else query_area ps num

has_area : Positions → Bytes → Bool
has_area ps num = elim (ps.fixed (slice num 0 4)) [ some pp ↦ true | none ↦ false ]

unfoldable pub validate_fixed_number : Positions → Bytes → Bool
unfolding has_area
validate_fixed_number ps num =
    if not (length num == 11) && not (length num == 12)
    then false
    else if length num == 11
    then (elim (ps.fixed (slice num 0 3)) [ some pp ↦ true | none ↦ has_area ps num ])
    else has_area ps num

unfoldable pub query_mobile_number_position : Positions → Bytes → Result PhoneError PhonePosition
query_mobile_number_position ps num =
    if not (length num == 11)
    then err not_found
    else elim (ps.mobile (slice num 0 7)) [ some pp ↦ ok pp | none ↦ err not_found ]

unfoldable pub validate_mobile_number : Positions → Bytes → Bool
validate_mobile_number ps num =
    if not (length num == 11)
    then false
    else elim (ps.mobile (slice num 0 7)) [ some pp ↦ true | none ↦ false ]

-- The names of the two regions, in UTF-8.
abbrev pub hong_kong : Bytes
hong_kong = 0xE9 ∷ 0xA6 ∷ 0x99 ∷ 0xE6 ∷ 0xB8 ∷ 0xAF ∷ []

abbrev pub macao : Bytes
macao = 0xE6 ∷ 0xBE ∷ 0xB3 ∷ 0xE9 ∷ 0x97 ∷ 0xA8 ∷ []

-- `*p, err = q`: a failed query leaves the empty position.
store : Result PhoneError PhonePosition → Option PhoneError × PhonePosition
store (ok pp) = (none, pp)
store (err e) = (some e, empty_position)

-- `Parse`: the error, and what the receiver holds then.
unfoldable pub parse : Positions → PhonePosition → Bytes → Option PhoneError × PhonePosition
unfolding store
parse ps p num =
    if not (validate_number_string num) || ltb (length num) 11
    then (some unresolvable, p)
    else if has_prefix num (codes "1")
    then store (query_mobile_number_position ps num)
    else if has_prefix num (codes "0")
    then store (query_fixed_number_position ps num)
    else if has_prefix num (codes "852")
    then (none, record empty_position { province = hong_kong; city = hong_kong })
    else if has_prefix num (codes "853")
    then (none, record empty_position { province = macao; city = macao })
    else (some unresolvable, p)
