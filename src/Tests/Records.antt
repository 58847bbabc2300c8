-- ===== src/Tests/Records.antt =====
-- The records at concrete inputs.
use cdrrs.Base.{
  Option, Bytes, is_empty, if◌then◌else◌, [], ◌∷◌, ◌++◌, List, none, codes, true, ◌+◌, ◌/◌, ◌%◌,
  ◌<◌, ◌≡◌, refl, some, arith,
}
use cdrrs.Model.Cdr.{VoipCdr, TimeOfDay, empty_cdr, set_cdr_id}
use cdrrs.Model.Cdr.Id.{id-set_cdr_id}
use cdrrs.Service.Records.{Records, Arrival, collected, ticked, handle_cdr}
use cdrrs.Service.Records.Batches.{everything, stamped, inserted-handle_cdr}
use cdrrs.Service.Records.Sent.{messages, messages_of, messages-handle_cdr}
use cdrrs.Service.Records.Tables.{Own, handle_cdr-Own}

abbrev pub noon : TimeOfDay
noon = record { hour = 12; minute = 0; second = 0; nanosecond = 5_000_123 }

id-set_cdr_id_example :
    (noon.hour ≡ noon.hour)
    × (noon.minute ≡ noon.minute)
    × (noon.second ≡ noon.second)
    × (noon.nanosecond / 1000 ≡ noon.nanosecond / 1000)
    × ((3 + 1) % 1000 ≡ (1003 + 1) % 1000)
    × ((set_cdr_id noon 3 empty_cdr).1.id < 86_400_000_000_000)
unfolding set_cdr_id
id-set_cdr_id_example =
    id-set_cdr_id noon noon 3 1003 empty_cdr empty_cdr
      (record {
        hours = omega arith;
        minutes = omega arith;
        seconds = omega arith;
        nanoseconds = omega arith;
      })
      (record {
        hours = omega arith;
        minutes = omega arith;
        seconds = omega arith;
        nanoseconds = omega arith;
      })
      refl

abbrev no_records : Records
no_records = record { cdrs = []; counter = 0; cur_table_name = []; proc_db_time = none; calls = [] }

abbrev morning : TimeOfDay
morning = record { hour = 8; minute = 1; second = 2; nanosecond = 3000 }

-- Two records of one hour, one of the next, and a tick.
abbrev arrivals : List Arrival
arrivals =
    collected empty_cdr morning (codes "t1") (codes "2020120108") 10
    ∷ collected empty_cdr morning (codes "t2") (codes "2020120108") 20
    ∷ collected empty_cdr morning (codes "t3") (codes "2020120109") 30
    ∷ ticked 900
    ∷ []

-- An encoding that refuses a record without a number.
abbrev pub encode : VoipCdr → Option Bytes
encode cdr = if is_empty cdr.caller_num then none else some cdr.caller_num

inserted-handle_cdr_example :
    everything (handle_cdr true encode 3 500 no_records arrivals)
    ≡ everything no_records ++ stamped 0 arrivals
inserted-handle_cdr_example = inserted-handle_cdr true encode 3 500 no_records arrivals

handle_cdr-Own_example : Own (handle_cdr true encode 3 500 no_records arrivals)
handle_cdr-Own_example =
    handle_cdr-Own true encode 3 500 no_records arrivals
      (record { waiting = tt; batches = tt; named = refl })

messages-handle_cdr_example :
    messages (handle_cdr true encode 3 500 no_records arrivals).calls
    ≡ messages [] ++ messages_of true encode 3 500 (stamped 0 arrivals)
messages-handle_cdr_example = messages-handle_cdr true encode 3 500 no_records arrivals
