-- ===== src/Dao/Tables/Cached.antt =====
-- What the queries for a number find, as a row of the database.
use cdrrs.Base.{
  ◌≡◌, refl, ◌∙◌, List, [], ◌∷◌, Option, none, some, Result, ok, err, ◌==◌, if◌then◌else◌, equal,
  length, slice, Bytes, arith,
}
use cdrrs.Model.Position.{
  PhonePosition, PhoneError, not_found, Positions, query_area, query_fixed_number_position,
  query_mobile_number_position,
}
use cdrrs.Dao.Tables.{assign, cached, cache_fixed_position, cache_mobile_position, number_positions}

-- The last row whose column is `k`.
unfoldable pub last_row :
    (PhonePosition → Bytes) → Bytes → List PhonePosition → Option PhonePosition
last_row key k [] = none
last_row key k (val ∷ pps) = elim (last_row key k pps) [
  | some pp ↦ some pp
  | none ↦ if equal (key val) k then some val else none
]

abbrev or_else : Option PhonePosition → Option PhonePosition → Option PhonePosition
or_else (some pp) other = some pp
or_else none other = other

abbrev pub found_or_not : Option PhonePosition → Result PhoneError PhonePosition
found_or_not (some pp) = ok pp
found_or_not none = err not_found

-- For 11 digits the row of the first three, or else of four; for 12 that of four.
unfoldable pub row_of_fixed : List PhonePosition → Bytes → Option PhonePosition
unfolding last_row
row_of_fixed rows num =
    if length num == 11
    then or_else (last_row (λ val. val.code1) (slice num 0 3) rows)
        (last_row (λ val. val.code1) (slice num 0 4) rows)
    else if length num == 12
    then last_row (λ val. val.code1) (slice num 0 4) rows
    else none

unfoldable pub row_of_mobile : List PhonePosition → Bytes → Option PhonePosition
unfolding last_row
row_of_mobile rows num =
    if length num == 11 then last_row (λ val. val.phone) (slice num 0 7) rows else none

cached-last_row :
    (key : PhonePosition → Bytes) (rows : List PhonePosition) (mp : Bytes → Option PhonePosition)
    (k : Bytes)
    → cached key rows mp k ≡ or_else (last_row key k rows) (mp k)
unfolding cached last_row
cached-last_row key [] mp k = refl
cached-last_row key (val ∷ pps) mp k =
    cached-last_row key pps (assign (key val) val mp) k ∙ later (last_row key k pps)
  where
    later :
        (o : Option PhonePosition)
        → or_else o (assign (key val) val mp k)
          ≡ or_else
              (elim o [ some pp ↦ some pp | none ↦ if equal (key val) k then some val else none ])
              (mp k)
    later (some pp) = refl
    later none = ground arith

or_else-none : (o : Option PhonePosition) → or_else o none ≡ o
or_else-none (some pp) = refl
or_else-none none = refl

fixed_last_row :
    (fixed_rows mobile_rows : List PhonePosition) (k : Bytes)
    → (number_positions fixed_rows mobile_rows).fixed k ≡ last_row (λ val. val.code1) k fixed_rows
unfolding number_positions cache_fixed_position
fixed_last_row fixed_rows mobile_rows k =
    cached-last_row (λ val. val.code1) fixed_rows (λ j. none) k ∙ or_else-none _

mobile_last_row :
    (fixed_rows mobile_rows : List PhonePosition) (k : Bytes)
    → (number_positions fixed_rows mobile_rows).mobile k ≡ last_row (λ val. val.phone) k mobile_rows
unfolding number_positions cache_mobile_position
mobile_last_row fixed_rows mobile_rows k =
    cached-last_row (λ val. val.phone) mobile_rows (λ j. none) k ∙ or_else-none _

query_fixed-row_of_fixed :
    (ps : Positions) (rows : List PhonePosition) (num : Bytes)
    → ((k : Bytes) → ps.fixed k ≡ last_row (λ val. val.code1) k rows)
    → query_fixed_number_position ps num ≡ found_or_not (row_of_fixed rows num)
unfolding query_fixed_number_position query_area row_of_fixed
query_fixed-row_of_fixed ps rows num h = ground (arith, h (slice num 0 3), h (slice num 0 4))

query_mobile-row_of_mobile :
    (ps : Positions) (rows : List PhonePosition) (num : Bytes)
    → ((k : Bytes) → ps.mobile k ≡ last_row (λ val. val.phone) k rows)
    → query_mobile_number_position ps num ≡ found_or_not (row_of_mobile rows num)
unfolding query_mobile_number_position row_of_mobile
query_mobile-row_of_mobile ps rows num h = ground (arith, h (slice num 0 7))

-- Whatever rows the database answers to the two queries of start-up: the position of a fixed number
-- is the last row that has its first three digits as the area code, or else its first four, by its
-- length, and that of a mobile number is the last row that has its first seven digits; without such
-- a row it is not found.
pub number_positions-query :
    (fixed_rows mobile_rows : List PhonePosition) (num : Bytes)
    → (query_fixed_number_position (number_positions fixed_rows mobile_rows) num
        ≡ found_or_not (row_of_fixed fixed_rows num))
      × (query_mobile_number_position (number_positions fixed_rows mobile_rows) num
          ≡ found_or_not (row_of_mobile mobile_rows num))
number_positions-query fixed_rows mobile_rows num = (
  query_fixed-row_of_fixed _ fixed_rows num (fixed_last_row fixed_rows mobile_rows),
  query_mobile-row_of_mobile _ mobile_rows num (mobile_last_row fixed_rows mobile_rows),
)
