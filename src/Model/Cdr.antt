-- ===== src/Model/Cdr.antt =====
-- model/cdr.go: the call detail record.
pub mod Duration
pub mod Id
use cdrrs.Base.{
  ℕ, ◌+◌, ◌*◌, ◌/◌, ◌%◌, ◌&&◌, not, Bool, true, false, List, [], ◌∷◌, ◌++◌, Option, none, some, ℤ,
  pos, ◌-ℤ◌, if◌then◌else◌, codes, is_empty, Bytes,
}
use cdrrs.Model.Position.{Positions, PhonePosition, empty_position}
use cdrrs.Model.Position
use cdrrs.Model.Item.{SipCache}

pub record VoipCdr : Type 0 where
  pub id : ℕ
  pub caller_ip : Bytes
  pub caller_port : ℕ
  pub callee_ip : Bytes
  pub callee_port : ℕ
  pub caller_num : Bytes
  pub callee_num : Bytes
  pub caller_device : Bytes
  pub callee_device : Bytes
  pub callee_province : Bytes
  pub callee_city : Bytes
  pub connect_time : ℤ
  pub disconnect_time : ℤ
  pub duration : ℤ
  pub fraud_type : Bytes
  pub create_time : Bytes
  pub table_name : Bytes

-- `emptyCDR`, which `NewVoipCDR` writes over what the pool gives.
abbrev pub empty_cdr : VoipCdr
empty_cdr = record {
  id = 0;
  caller_ip = [];
  caller_port = 0;
  callee_ip = [];
  callee_port = 0;
  caller_num = [];
  callee_num = [];
  caller_device = [];
  callee_device = [];
  callee_province = [];
  callee_city = [];
  connect_time = pos 0;
  disconnect_time = pos 0;
  duration = pos 0;
  fraud_type = [];
  create_time = [];
  table_name = [];
}

unfoldable pub new_voip_cdr : VoipCdr → VoipCdr
new_voip_cdr pooled = empty_cdr

-- `time.ParseInLocation("20060102150405", s, time.Local).Unix()`: it depends on the time zone of the
-- machine, so it is an argument. `none` is an error.
abbrev pub ParseTime : Type 0
ParseTime = Bytes → Option ℤ

-- A time that is not empty is parsed; `none` is the early return on an error.
unfoldable pub parse_if_any : ParseTime → Bytes → Option (Option ℤ)
parse_if_any parse_time [] = some none
parse_if_any parse_time (c ∷ s) = elim (parse_time (c ∷ s)) [ none ↦ none | some t ↦ some (some t) ]

abbrev pub unix_or_zero : Option ℤ → ℤ
unix_or_zero none = pos 0
unix_or_zero (some t) = t

unfoldable pub duration_of : Option ℤ → Option ℤ → ℤ
unfolding ◌-ℤ◌
duration_of (some c) (some d) = d -ℤ c
duration_of _ _ = pos 0

-- The record is filled from the item, the position and the two times.
unfoldable pub fill_cdr : SipCache → PhonePosition → Option ℤ → Option ℤ → VoipCdr → VoipCdr
unfolding duration_of
fill_cdr item pp connect disconnect cdr = record cdr {
  callee_province = pp.province;
  callee_city = pp.city;
  caller_ip = item.src_ip;
  caller_port = item.src_port;
  callee_ip = item.dest_ip;
  callee_port = item.dest_port;
  caller_num = item.caller;
  callee_num = item.callee;
  caller_device = [];
  callee_device = item.callee_device;
  connect_time = unix_or_zero connect;
  disconnect_time = unix_or_zero disconnect;
  duration = duration_of connect disconnect;
}

-- `var pos PhonePosition; pos.Parse(item.Callee)`.
with_position :
    SipCache
    → Option ℤ
    → Option ℤ
    → VoipCdr
    → Option Position.PhoneError × PhonePosition
    → Option VoipCdr
with_position item connect disconnect pooled (some e, pp) = none
with_position item connect disconnect pooled (none, pp) =
    some (fill_cdr item pp connect disconnect (new_voip_cdr pooled))

-- `none` is the nil of an error. The call-id is not used.
unfoldable pub new_cdr : ParseTime → Positions → VoipCdr → Bytes → SipCache → Option VoipCdr
unfolding parse_if_any with_position fill_cdr new_voip_cdr
new_cdr parse_time ps pooled call_id item = elim (parse_if_any parse_time item.connect_time) [
  | none ↦ none
  | some connect ↦ elim (parse_if_any parse_time item.disconnect_time) [
    | none ↦ none
    | some disconnect ↦
        with_position item connect disconnect pooled (Position.parse ps empty_position item.callee)
  ]
]

unfoldable pub new_expired_cdr : ParseTime → Positions → VoipCdr → Bytes → SipCache → Option VoipCdr
unfolding new_cdr
new_expired_cdr parse_time ps pooled call_id item =
    if not (is_empty item.caller) && not (is_empty item.callee)
    then new_cdr parse_time ps pooled call_id item
    else none

-- A moment of the day, as far as `SetCDRId` reads it.
pub record TimeOfDay : Type 0 where
  pub hour : ℕ
  pub minute : ℕ
  pub second : ℕ
  pub nanosecond : ℕ

-- `counter.Add(1)`, and the id from the time and the counter. A counter of 64 bits does not wrap
-- while the program runs.
unfoldable pub set_cdr_id : TimeOfDay → ℕ → VoipCdr → ℕ × VoipCdr
set_cdr_id t counter vc =
    let next = counter + 1 in
    (
      next,
      record vc {
        id =
            (t.hour * 60 * 60 + t.minute * 60 + t.second) * 1_000_000_000
            + t.nanosecond / 1000 * 1000
            + next % 1000;
      },
    )

-- `t.Format("2006-01-02 15:04:05")`, and the table's name: the prefix and
-- `t.Truncate(period).Format("20060102150405")`; both texts are arguments.
unfoldable pub set_create_time : Bytes → VoipCdr → VoipCdr
set_create_time formatted vc = record vc { create_time = formatted }

unfoldable pub set_cdr_table : Bytes → VoipCdr → VoipCdr
set_cdr_table truncated vc = record vc { table_name = codes "cdr_" ++ truncated }
