-- ===== src/Model/Position/Validated.antt =====
-- The two validations of model/position.go and the queries.
use cdrrs.Base.{◌≡◌, is_ok, Bytes, arith}
use cdrrs.Model.Position.{
  Positions, query_fixed_number_position, validate_fixed_number, query_mobile_number_position,
  validate_mobile_number,
}

-- Whatever the number and the tables: a number is valid, as a fixed number or as a mobile number,
-- exactly when the query for its position succeeds.
pub validate_fixed_number-query_fixed_number_position :
    (ps : Positions) (num : Bytes)
    → (validate_fixed_number ps num ≡ is_ok (query_fixed_number_position ps num))
      × (validate_mobile_number ps num ≡ is_ok (query_mobile_number_position ps num))
unfolding validate_fixed_number query_fixed_number_position validate_mobile_number
    query_mobile_number_position
validate_fixed_number-query_fixed_number_position ps num = (ground arith, ground arith)
