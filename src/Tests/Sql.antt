-- ===== src/Tests/Sql.antt =====
-- A batch of two records, and three rows of positions.
use cdrrs.Base.{ℕ, ◌+◌, ◌%◌, ◌≡◌, refl, [], ◌∷◌, ◌++◌, pos, map, codes, Bytes, ok}
use cdrrs.Bytes.{join}
use cdrrs.Model.Cdr.{VoipCdr, empty_cdr}
use cdrrs.Model.Position.{
  PhonePosition, empty_position, query_fixed_number_position, query_mobile_number_position,
}
use cdrrs.Dao.Statements.{Sql, row, digits, print_number, sql_words, multi_insert_cdr}
use cdrrs.Dao.Statements.Joined.{closed_row, multi_insert_cdr-join}
use cdrrs.Dao.Tables.{number_positions}
use cdrrs.Dao.Tables.Cached.{
  row_of_fixed, row_of_mobile, found_or_not, last_row, number_positions-query,
}

abbrev record_of : ℕ → VoipCdr
record_of n = record empty_cdr {
  id = n;
  caller_ip = codes "10.0.0.1";
  caller_port = 5060;
  duration = pos 61;
}

row_is : row (record_of 1201) ≡ codes "(1201,'10.0.0.1',5060,'',0,'','','','','','',0,0,61,''),"
unfolding row print_number digits
row_is = refl

abbrev idle : Sql
idle = record { sql_buffer = codes "old"; cdrs_count = 18446744073709551615; executed = [] }

multi_insert_cdr-join_example :
    multi_insert_cdr (codes "cdr_1") (record_of 1 ∷ record_of 2 ∷ []) idle ≡ record {
      sql_buffer =
          codes "INSERT INTO "
          ++ (codes "cdr_1"
              ++ (sql_words
                  ++ (join (codes ",") (map closed_row (record_of 1 ∷ record_of 2 ∷ []))
                      ++ codes ";")));
      executed =
          (codes "INSERT INTO "
            ++ (codes "cdr_1"
                ++ (sql_words
                    ++ (join (codes ",") (map closed_row (record_of 1 ∷ record_of 2 ∷ []))
                        ++ codes ";"))))
          ∷ [];
      cdrs_count = (18446744073709551615 + 2) % 18446744073709551616;
    }
multi_insert_cdr-join_example =
    multi_insert_cdr-join (codes "cdr_1") (record_of 1) (record_of 2 ∷ []) idle refl

abbrev area : Bytes → Bytes → PhonePosition
area code city = record empty_position { code1 = code; city = city }

number_positions-query_example :
    (query_fixed_number_position
        (number_positions (area (codes "010") (codes "a") ∷ area (codes "010") (codes "b") ∷ []) [])
        (codes "01012345678")
      ≡ ok (area (codes "010") (codes "b")))
    × (query_mobile_number_position
          (number_positions
            (area (codes "010") (codes "a") ∷ area (codes "010") (codes "b") ∷ [])
            [])
          (codes "01012345678")
        ≡ found_or_not (row_of_mobile [] (codes "01012345678")))
unfolding row_of_fixed last_row
number_positions-query_example =
    number_positions-query (area (codes "010") (codes "a") ∷ area (codes "010") (codes "b") ∷ []) []
      (codes "01012345678")
