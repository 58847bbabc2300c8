-- ===== src/Service/Records.antt =====
-- `handleCDR` of service/serve.go: the records get their id, their time and their table, and go to
-- the database in batches, a table after another. What the database and the Kafka client do is
-- not seen here: a run lists the calls of them. `json.Marshal` is a parameter.
pub mod Batches
pub mod Tables
pub mod Sent
use cdrrs.Base.{
  ℕ, ◌-◌, ◌&&◌, Bool, true, not, List, [], ◌∷◌, ◌++◌, Option, none, some, ◌==◌, leb, pos,
  if◌then◌else◌, equal, is_empty, length, Bytes,
}
use cdrrs.Dao.Statements.{print_number}
use cdrrs.Model.Cdr.{VoipCdr, TimeOfDay, set_cdr_id, set_create_time, set_cdr_table}

-- A call of the database or of the Kafka client.
pub data Call : Type 0 where
  create_table : Bytes → Call
  multi_insert_cdr : Bytes → List VoipCdr → Call
  push_cdr : Bytes → Bytes → Call

-- `srv.cdrs`, the counter of model/cdr.go, `curTableName`, `procDBTime` (`none` for the zero time),
-- and the calls so far.
pub record Records : Type 0 where
  pub cdrs : List VoipCdr
  pub counter : ℕ
  pub cur_table_name : Bytes
  pub proc_db_time : Option ℕ
  pub calls : List Call

-- A record that is collected, with the time as `SetCDRId` reads it, as `SetCreateTime` and
-- `SetCDRTable` format it, and when the record has been handled; or a tick at a time.
pub data Arrival : Type 0 where
  collected : VoipCdr → TimeOfDay → Bytes → Bytes → ℕ → Arrival
  ticked : ℕ → Arrival

-- The three setters, with the counter as they leave it.
unfoldable pub stamp : TimeOfDay → Bytes → Bytes → ℕ → VoipCdr → ℕ × VoipCdr
unfolding set_cdr_id set_create_time set_cdr_table
stamp t formatted truncated counter cdr =
    let (next, with_id) = set_cdr_id t counter cdr in
    (next, set_cdr_table truncated (set_create_time formatted with_id))

unfoldable pub flush_cdr_to_db : Records → Records
flush_cdr_to_db s =
    if is_empty s.cdrs
    then s
    else record s { calls = s.calls ++ multi_insert_cdr s.cur_table_name s.cdrs ∷ []; cdrs = [] }

module _ (enable : Bool) (marshal : VoipCdr → Option Bytes) (max_flush_cap duration : ℕ) where
  -- The key of a message is the record's id, its value the record's encoding.
  unfoldable log_encoded : VoipCdr → Option Bytes → Records → Records
  log_encoded cdr none s = s
  log_encoded cdr (some bs) s = record s {
    calls = s.calls ++ push_cdr (print_number (pos cdr.id)) bs ∷ [];
  }

  -- `pushCDRToKafka`; a record that cannot be encoded is passed over.
  unfoldable pub push_cdr_to_kafka : VoipCdr → Records → Records
  unfolding log_encoded
  push_cdr_to_kafka cdr s = if enable then log_encoded cdr (marshal cdr) s else s

  -- `cdr.TableName != curTableName`.
  unfoldable pub change_table : ℕ → VoipCdr → Records → Records
  unfolding flush_cdr_to_db
  change_table now cdr s =
      if equal cdr.table_name s.cur_table_name
      then s
      else let created = record s { calls = s.calls ++ create_table cdr.table_name ∷ [] } in
        let flushed =
          if is_empty s.cur_table_name
          then created
          else record (flush_cdr_to_db created) { proc_db_time = some now } in
        record flushed { cur_table_name = cdr.table_name }

  -- `srv.cdrs = append(srv.cdrs, cdr)` and the flush of a full batch.
  unfoldable pub add_cdr : ℕ → VoipCdr → Records → Records
  unfolding flush_cdr_to_db
  add_cdr now cdr s =
      let s' = record s { cdrs = s.cdrs ++ cdr ∷ [] } in
      if length s'.cdrs == max_flush_cap
      then record (flush_cdr_to_db s') { proc_db_time = some now }
      else s'

  -- The zero time is further back than any period.
  abbrev pub is_due : Option ℕ → ℕ → Bool
  is_due none now = true
  is_due (some before) now = leb duration (now - before)

  unfoldable pub on_arrival : Records → Arrival → Records
  unfolding stamp push_cdr_to_kafka change_table add_cdr flush_cdr_to_db
  on_arrival s (collected cdr t formatted truncated now) =
      let (next, stamped) = stamp t formatted truncated s.counter cdr in
      add_cdr now stamped
        (change_table now stamped (push_cdr_to_kafka stamped (record s { counter = next })))
  on_arrival s (ticked now) =
      if not (is_empty s.cdrs) && is_due s.proc_db_time now
      then record (flush_cdr_to_db s) { proc_db_time = some now }
      else s

  unfoldable pub handle_cdr : Records → List Arrival → Records
  unfolding on_arrival
  handle_cdr s [] = s
  handle_cdr s (a ∷ arrivals) = handle_cdr (on_arrival s a) arrivals
