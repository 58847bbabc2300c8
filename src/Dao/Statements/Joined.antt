-- ===== src/Dao/Statements/Joined.antt =====
-- The statement of a batch: its rows with commas between them and a semicolon at the end.
use cdrrs.Base.{
  ℕ, ◌+◌, ◌%◌, ◌≡◌, refl, sym, ap, ◌∙◌, false, List, [], ◌∷◌, ◌++◌, append_assoc, pos, is_empty,
  length, map, codes, Bytes,
}
use cdrrs.Bytes.{join}
use cdrrs.Model.Cdr.{VoipCdr}
use cdrrs.Dao.Statements.{
  print_number, row, sql_words, Sql, write_rows, end_statement, multi_insert_cdr,
}

-- A row without the comma at its end.
unfoldable pub closed_row : VoipCdr → Bytes
unfolding print_number
closed_row cdr =
    codes "("
    ++ (join (codes ",") (
          print_number (pos cdr.id)
          ∷ quoted cdr.caller_ip
          ∷ print_number (pos cdr.caller_port)
          ∷ quoted cdr.callee_ip
          ∷ print_number (pos cdr.callee_port)
          ∷ quoted cdr.caller_num
          ∷ quoted cdr.callee_num
          ∷ quoted cdr.caller_device
          ∷ quoted cdr.callee_device
          ∷ quoted cdr.callee_province
          ∷ quoted cdr.callee_city
          ∷ print_number cdr.connect_time
          ∷ print_number cdr.disconnect_time
          ∷ print_number cdr.duration
          ∷ quoted cdr.create_time
          ∷ [])
        ++ codes ")")
  where
    quoted : Bytes → Bytes
    quoted s = b'\'' ∷ (s ++ codes "'")

row-closed_row : (cdr : VoipCdr) → row cdr ≡ closed_row cdr ++ codes ","
unfolding row closed_row join
row-closed_row cdr = simp append_assoc

end_statement-append : (s : Bytes) (c : ℕ) → end_statement (s ++ c ∷ []) ≡ s ++ codes ";"
unfolding end_statement
end_statement-append [] c = refl
end_statement-append (a ∷ []) c = refl
end_statement-append (a ∷ b ∷ s) c = ap (◌∷◌ a) (end_statement-append (b ∷ s) c)

-- Behind what the buffer held, the rows have commas between them, and one at the end.
write_rows-join :
    (cdr : VoipCdr) (cdrs : List VoipCdr) (buffer : Bytes)
    → write_rows (cdr ∷ cdrs) buffer
      ≡ (buffer ++ join (codes ",") (map closed_row (cdr ∷ cdrs))) ++ codes ","
unfolding write_rows join
write_rows-join cdr [] buffer =
    ap (λ s. buffer ++ s) (row-closed_row cdr)
    ∙ sym (append_assoc buffer (closed_row cdr) (codes ","))
write_rows-join cdr (next ∷ cdrs) buffer =
    write_rows-join next cdrs (buffer ++ row cdr)
    ∙ ap (λ s. s ++ codes ",")
        (append_assoc buffer (row cdr) (join (codes ",") (map closed_row (next ∷ cdrs)))
          ∙ ap (λ s. buffer ++ s)
              (ap (λ s. s ++ join (codes ",") (map closed_row (next ∷ cdrs))) (row-closed_row cdr)
                ∙ append_assoc (closed_row cdr) (codes ",")
                    (join (codes ",") (map closed_row (next ∷ cdrs)))))

-- For a table with a name and at least one record, one statement is executed: its rows, each with
-- its values between commas and its texts between quotes, stand between commas as well, and a
-- semicolon ends it; whatever the buffer held is gone, and the records are counted modulo 2 ^ 64.
pub multi_insert_cdr-join :
    (table_name : Bytes) (cdr : VoipCdr) (cdrs : List VoipCdr) (s : Sql)
    → is_empty table_name ≡ false
    → let statement =
        codes "INSERT INTO "
        ++ (table_name
            ++ (sql_words ++ (join (codes ",") (map closed_row (cdr ∷ cdrs)) ++ codes ";"))) in
      multi_insert_cdr table_name (cdr ∷ cdrs) s ≡ record {
        sql_buffer = statement;
        executed = s.executed ++ statement ∷ [];
        cdrs_count = (s.cdrs_count + length (cdr ∷ cdrs)) % 18446744073709551616;
      }
unfolding multi_insert_cdr
multi_insert_cdr-join table_name cdr cdrs s h =
    let start = codes "INSERT INTO " ++ (table_name ++ sql_words) in
    let rows = join (codes ",") (map closed_row (cdr ∷ cdrs)) in
    let statement : end_statement (write_rows (cdr ∷ cdrs) start)
        ≡ codes "INSERT INTO " ++ (table_name ++ (sql_words ++ (rows ++ codes ";"))) =
      ap end_statement (write_rows-join cdr cdrs start)
      ∙ end_statement-append (start ++ rows) b','
      ∙ simp append_assoc in
    rw (h, statement) refl
