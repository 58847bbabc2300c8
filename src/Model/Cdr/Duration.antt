-- ===== src/Model/Cdr/Duration.antt =====
-- When an item becomes a record, and which.
use cdrrs.Base.{
  ◌≡◌, refl, ◌&&◌, ◌||◌, Bool, true, false, Option, none, some, ℤ, ◌-ℤ◌, is_empty, Bytes, arith,
}
use cdrrs.Model.Position
use cdrrs.Model.Position.{Positions, PhonePosition, PhoneError, empty_position}
use cdrrs.Model.Number.Resolves.{Resolves}
use cdrrs.Model.Item.{SipCache}
use cdrrs.Model.Cdr.{VoipCdr, ParseTime, fill_cdr, new_voip_cdr, new_cdr}

abbrev pub is_some : {A : Type 0} → Option A → Bool
is_some none = false
is_some (some a) = true

-- A time that is missing or that is well-formed.
abbrev pub is_time : ParseTime → Bytes → Bool
is_time parse_time s = is_empty s || is_some (parse_time s)

abbrev pub no_error : Option PhoneError → Bool
no_error none = true
no_error (some e) = false

-- An item becomes a record exactly when each of its times is missing or well-formed and its called
-- number has a position.
pub new_cdr-is_some :
    (parse_time : ParseTime) (ps : Positions) (pooled : VoipCdr) (call_id : Bytes) (item : SipCache)
    → is_some (new_cdr parse_time ps pooled call_id item) ≡ (
        is_time parse_time item.connect_time
        && is_time parse_time item.disconnect_time
        && no_error (Position.parse ps empty_position item.callee).0)
unfolding new_cdr
new_cdr-is_some parse_time ps pooled call_id item = ground arith

-- An item with both times and with a called number that resolves becomes a record, whatever the
-- pooled record held: its times and their difference, and the parties of the item.
pub new_cdr_complete :
    (parse_time : ParseTime) (ps : Positions) (pooled : VoipCdr) (call_id : Bytes) (item : SipCache)
    (c d : ℤ)
    → Resolves ps item.callee
    → is_empty item.connect_time ≡ false
    → is_empty item.disconnect_time ≡ false
    → parse_time item.connect_time ≡ some c
    → parse_time item.disconnect_time ≡ some d
    → (cdr : VoipCdr) × (new_cdr parse_time ps pooled call_id item ≡ some cdr)
      × (cdr.connect_time ≡ c)
      × (cdr.disconnect_time ≡ d)
      × (cdr.duration ≡ d -ℤ c)
      × (cdr.caller_num ≡ item.caller)
      × (cdr.callee_num ≡ item.callee)
      × (cdr.caller_ip ≡ item.src_ip)
      × (cdr.callee_ip ≡ item.dest_ip)
      × (cdr.callee_device ≡ item.callee_device)
      × (cdr.id ≡ 0)
unfolding new_cdr
new_cdr_complete parse_time ps pooled call_id item c d r hc hd pc pd =
    let pp = (Position.parse ps empty_position item.callee).1 in
    (
      fill_cdr item pp (some c) (some d) (new_voip_cdr pooled),
      ground (arith, r.found empty_position),
      refl,
      refl,
      refl,
      refl,
      refl,
      refl,
      refl,
      refl,
      refl,
    )
