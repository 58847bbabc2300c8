-- ===== src/Dao/Statements.antt =====
-- dao/mysql_cdr.go: the statements that are executed for the records. What the database does with
-- them is not seen here: their texts are listed.
pub mod Joined
use cdrrs.Base.{
  ℕ, zero, suc, ◌+◌, ◌/◌, ◌%◌, ◌&&◌, ◌||◌, Bool, true, false, List, [], ◌∷◌, ◌++◌, ℤ, pos, negsuc,
  ltb, if◌then◌else◌, is_empty, length, codes, Bytes,
}
use cdrrs.Model.Cdr.{VoipCdr}

-- `%d` of a number; there are less digits than the number's successor counts.
unfoldable pub digits : ℕ → ℕ → Bytes
digits zero n = []
digits (suc fuel) n = elim (ltb n 10) [
  | true ↦ (b'0' + n) ∷ []
  | false ↦ digits fuel (n / 10) ++ (b'0' + n % 10) ∷ []
]

unfoldable pub print_number : ℤ → Bytes
unfolding digits
print_number (pos n) = digits (suc n) n
print_number (negsuc n) = b'-' ∷ digits (n + 2) (n + 1)

abbrev pub sql_words : Bytes
sql_words =
    codes
      "(id,caller_ip,caller_port,callee_ip,callee_port,caller_num,callee_num,caller_device,callee_device,callee_province,callee_city,connect_time,disconnect_time,duration, create_time) VALUES "

-- The row of a record, with its comma at the end. No text is escaped.
unfoldable pub row : VoipCdr → Bytes
unfolding print_number
row cdr =
    codes "("
    ++ (print_number (pos cdr.id)
        ++ (codes ",'"
            ++ (cdr.caller_ip
                ++ (codes "',"
                    ++ (print_number (pos cdr.caller_port)
                        ++ (codes ",'"
                            ++ (cdr.callee_ip
                                ++ (codes "',"
                                    ++ (print_number (pos cdr.callee_port)
                                        ++ (codes ",'"
                                            ++ (cdr.caller_num
                                                ++ (codes "','"
                                                    ++ (cdr.callee_num
                                                        ++ (codes "','"
                                                            ++ (cdr.caller_device
                                                            ++ (codes "','"
                                                            ++ (cdr.callee_device
                                                            ++ (codes "','"
                                                            ++ (cdr.callee_province
                                                            ++ (codes "','"
                                                            ++ (cdr.callee_city
                                                            ++ (codes "',"
                                                            ++ (print_number cdr.connect_time
                                                            ++ (codes ","
                                                            ++ (print_number cdr.disconnect_time
                                                            ++ (codes ","
                                                            ++ (print_number cdr.duration
                                                            ++ (codes ",'"
                                                            ++ (cdr.create_time
                                                            ++ codes
                                                            "'),")))))))))))))))))))))))))))))

-- `sqlBuffer`, `cdrsCount` with its 64 bits, and the statements that were executed.
pub record Sql : Type 0 where
  pub sql_buffer : Bytes
  pub cdrs_count : ℕ
  pub executed : List Bytes

unfoldable pub write_rows : List VoipCdr → Bytes → Bytes
unfolding row
write_rows [] buffer = buffer
write_rows (cdr ∷ cdrs) buffer = write_rows cdrs (buffer ++ row cdr)

-- `sqlBuffer.Bytes()[sqlBuffer.Len()-1] = ';'`; the buffer is not empty there.
unfoldable pub end_statement : Bytes → Bytes
end_statement [] = []
end_statement (c ∷ []) = b';' ∷ []
end_statement (c ∷ d ∷ s) = c ∷ end_statement (d ∷ s)

unfoldable pub multi_insert_cdr : Bytes → List VoipCdr → Sql → Sql
unfolding write_rows end_statement
multi_insert_cdr table_name cdrs s =
    if is_empty table_name || is_empty cdrs
    then s
    else let buffer =
        end_statement (write_rows cdrs (codes "INSERT INTO " ++ (table_name ++ sql_words))) in
      record s {
        sql_buffer = buffer;
        executed = s.executed ++ buffer ∷ [];
        cdrs_count = (s.cdrs_count + length cdrs) % 18446744073709551616;
      }

-- The statement that `InsertCDR` builds of its own is not the one that it executes.
unfoldable pub insert_cdr : Bytes → VoipCdr → Sql → Sql
insert_cdr table_name cdr s = record s { executed = s.executed ++ s.sql_buffer ∷ [] }
