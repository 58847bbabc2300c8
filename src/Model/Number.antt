-- ===== src/Model/Number.antt =====
-- `ExtractLegalNumber` of model/sippkt.go: the called number in the digits of a To header.
pub mod Resolves
use cdrrs.Base.{
  ℕ, ◌-◌, ◌||◌, Bool, not, List, [], ◌∷◌, Option, none, some, ltb, leb, if◌then◌else◌, codes,
  length, drop, is_ok, Bytes,
}
use cdrrs.Bytes.{has_prefix, replace_first}
use cdrrs.Model.Position.{
  Positions, validate_number_string, query_fixed_number_position, query_mobile_number_position,
}

-- `calleeNum[length-k:]`.
abbrev pub suffix : ℕ → Bytes → Bytes
suffix k num = drop (length num - k) num

-- The number, if the query for it has no error.
unfoldable pub fixed_number : Positions → Bytes → Option Bytes
fixed_number ps callee = if is_ok (query_fixed_number_position ps callee) then some callee else none

unfoldable pub mobile_number : Positions → Bytes → Option Bytes
mobile_number ps callee =
    if is_ok (query_mobile_number_position ps callee) then some callee else none

-- 86xx xxxx xxxx -> 80xx xxxx xxxx -> 0xx xxxx xxxx
unfoldable pub domestic : Bytes → Bytes
domestic callee = drop 1 (replace_first callee (codes "86") (codes "80"))

-- What the last 11, 12 and 13 digits give.
unfoldable pub last_11 : Positions → Bytes → Option Bytes
unfolding fixed_number mobile_number
last_11 ps callee =
    if has_prefix callee (codes "1")
    then mobile_number ps callee
    else if has_prefix callee (codes "0")
    then fixed_number ps callee
    else none

unfoldable pub last_12 : Positions → Bytes → Option Bytes
unfolding fixed_number domestic
last_12 ps callee =
    if has_prefix callee (codes "0")
    then fixed_number ps callee
    else if has_prefix callee (codes "86")
    then fixed_number ps (domestic callee)
    else none

unfoldable pub last_13 : Positions → Bytes → Option Bytes
unfolding fixed_number domestic
last_13 ps callee =
    if has_prefix callee (codes "86") then fixed_number ps (domestic callee) else none

unfoldable pub regional : Bytes → Bytes
regional callee =
    if has_prefix callee (codes "852")
    then callee
    else if has_prefix callee (codes "853")
    then callee
    else []

abbrev pub or_else : Option Bytes → Bytes → Bytes
or_else none rest = rest
or_else (some callee) rest = callee

unfoldable pub extract_legal_number : Positions → Bytes → Bytes
unfolding last_11 last_12 last_13 regional
extract_legal_number ps num =
    if not (validate_number_string num) || ltb (length num) 11
    then []
    else or_else (if leb 11 (length num) then last_11 ps (suffix 11 num) else none) (
        or_else (if leb 12 (length num) then last_12 ps (suffix 12 num) else none) (
          or_else (if leb 13 (length num) then last_13 ps (suffix 13 num) else none)
            (regional (suffix 11 num))))
